-- ===== src/Replacer/Clock.antt =====
-- MiniDB/src/buffer/Clock.cpp and its header: the clock page replacer.
-- `Victim` locks `latch` and then calls `Size`, which locks `latch` again: `reentrant` says whether
-- a mutex lets the thread that holds it lock it once more (`std::mutex` does not promise that).
-- Frame ids are `int`s; `frame` is below 2 ^ 31, so its cast to `int` changes nothing.
pub mod Victim
pub mod Updates
use altas_dbpro.Prelude.{
  ℕ, ◌+◌, Bool, true, false, not, ◌&&◌, Option, none, some, List, [], ◌∷◌, if◌then◌else◌, ltb,
  get_or, set, replicate, ◌==◌, nat_eq,
}
use altas_dbpro.Prelude.Ints.{ℤ, pos, negsuc}
use altas_dbpro.Prelude.Run.{Run, done, blocked, ◌>>=◌}
use altas_dbpro.Replacer.Ring.{next_hand, Pass, stop, go, around}

pub record Clock : Type 0 where
  pub frame : ℕ
  pub use_bits : List Bool
  pub in_replacer : List Bool
  pub clock_hand : ℕ

abbrev pub init : ℕ → Clock
init frame = record {
  frame = frame;
  use_bits = replicate frame false;
  in_replacer = replicate frame false;
  clock_hand = 0;
}

-- The loop of `Size`.
unfoldable pub count : List Bool → ℕ
count [] = 0
count (b ∷ bs) = if b then count bs + 1 else count bs

-- `held`: the caller holds `latch` already.
unfoldable pub size : Bool → Bool → Clock → Run ℕ
unfolding count
size reentrant held c = if held && not reentrant then blocked else done (count c.in_replacer)

-- The body of the loop in `Victim`.
unfoldable pub examine : Clock → Pass Clock ℕ
unfolding next_hand
examine c =
    let hand = c.clock_hand in
    let next = next_hand c.frame hand in
    if get_or c.in_replacer hand false
    then (if get_or c.use_bits hand false
        then go (record c { use_bits = set c.use_bits hand false; clock_hand = next })
        else stop (record c { in_replacer = set c.in_replacer hand false; clock_hand = next }) hand)
    else go (record c { clock_hand = next })

abbrev pub hand_of : Clock → ℕ
hand_of c = c.clock_hand

-- The loop of `Victim`, behind its call of `Size`.
unfoldable pub turn : Clock → Run (Clock × Option ℕ)
unfolding examine
turn c = around examine hand_of c.frame c.clock_hand c

unfoldable pub victim : Bool → Clock → Run (Clock × Option ℕ)
unfolding size turn
victim reentrant c = do n ← size reentrant true c; if n == 0 then done (c, none) else turn c

unfoldable pub pin : ℤ → Clock → Clock
pin (negsuc n) c = c
pin (pos f) c =
    if ltb f c.frame
    then (if get_or c.in_replacer f false
        then record c { in_replacer = set c.in_replacer f false }
        else c)
    else c

-- `Unpin(int, bool)` ignores the temperature, and `Unpin(int)` calls it.
unfoldable pub unpin : ℤ → Clock → Clock
unpin (negsuc n) c = c
unpin (pos f) c =
    if ltb f c.frame && not (get_or c.in_replacer f false)
    then record c { in_replacer = set c.in_replacer f true; use_bits = set c.use_bits f true }
    else c
