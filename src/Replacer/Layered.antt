-- ===== src/Replacer/Layered.antt =====
-- MiniDB/src/buffer/LayeredClock.cpp and its header: the replacer of the buffer pool, which prefers
-- cold pages. As in Clock.cpp, `Victim` calls `Size` while it holds `latch_`, and `reentrant` says
-- whether a mutex may be locked again by its holder. Frame ids are `int`s, and `frame_count_` is below
-- 2 ^ 31. `Unpin(int)` of LayeredClock.cpp, which its header does not declare, calls `Unpin(int, bool)`.
pub mod Rounds
pub mod Victim
pub mod Priority
pub mod Updates
pub mod Tests
use altas_dbpro.Prelude.{
  ℕ, ◌+◌, Bool, true, false, not, ◌&&◌, Option, none, some, List, [], ◌∷◌, if◌then◌else◌, ltb, leb,
  get_or, set, replicate, ◌==◌, nat_eq,
}
use altas_dbpro.Prelude.Ints.{ℤ, pos, negsuc}
use altas_dbpro.Prelude.Run.{Run, done, blocked, ◌>>=◌}
use altas_dbpro.Replacer.Ring.{next_hand, Pass, stop, go, around}
use altas_dbpro.Replacer.Clock.{count}

pub record LayeredClock : Type 0 where
  pub frame_count : ℕ
  pub use_bits : List Bool
  pub in_replacer : List Bool
  pub is_hot : List Bool
  pub clock_hand : ℕ

abbrev pub cold_eviction_priority : ℕ
cold_eviction_priority = 5

abbrev pub init : ℕ → LayeredClock
init n = record {
  frame_count = n;
  use_bits = replicate n false;
  in_replacer = replicate n false;
  is_hot = replicate n true;
  clock_hand = 0;
}

-- `held`: the caller holds `latch_` already.
unfoldable pub size : Bool → Bool → LayeredClock → Run ℕ
unfolding count
size reentrant held c = if held && not reentrant then blocked else done (count c.in_replacer)

-- The frame under the hand leaves the replacer, and the hand moves on.
unfoldable pub evict : LayeredClock → LayeredClock
unfolding next_hand
evict c = record c {
  in_replacer = set c.in_replacer c.clock_hand false;
  clock_hand = next_hand c.frame_count c.clock_hand;
}

unfoldable pub advance : LayeredClock → LayeredClock
unfolding next_hand
advance c = record c { clock_hand = next_hand c.frame_count c.clock_hand }

unfoldable pub clear_use : LayeredClock → LayeredClock
clear_use c = record c { use_bits = set c.use_bits c.clock_hand false }

-- The first round's variables: the clock and `cold_scan_count`.
pub record Scan : Type 0 where
  pub clock : LayeredClock
  pub cold_scan_count : ℕ

-- The body of the first loop.
unfoldable pub first_round : Scan → Pass Scan ℕ
unfolding evict advance clear_use
first_round s =
    let c = s.clock in
    let used = get_or c.use_bits c.clock_hand false in
    let hot = get_or c.is_hot c.clock_hand false in
    if get_or c.in_replacer c.clock_hand false
    then (if not used && not hot
        then stop (record s { clock = evict c }) c.clock_hand
        else if not used && hot
        then (if leb cold_eviction_priority (s.cold_scan_count + 1)
            then stop (record { clock = evict c; cold_scan_count = s.cold_scan_count + 1 })
                c.clock_hand
            else go (record { clock = advance c; cold_scan_count = s.cold_scan_count + 1 }))
        else go (record s { clock = advance (clear_use c) }))
    else go (record s { clock = advance c })

-- The body of the second loop.
unfoldable pub second_round : LayeredClock → Pass LayeredClock ℕ
unfolding evict advance clear_use
second_round c =
    let used = get_or c.use_bits c.clock_hand false in
    if get_or c.in_replacer c.clock_hand false && not used
    then stop (evict c) c.clock_hand
    else if used
    then go (advance (clear_use c))
    else go (advance c)

abbrev pub scan_hand : Scan → ℕ
scan_hand s = s.clock.clock_hand

abbrev pub hand_of : LayeredClock → ℕ
hand_of c = c.clock_hand

abbrev pub scan_of : LayeredClock → Scan
scan_of c = record { clock = c; cold_scan_count = 0 }

-- What follows the first round.
unfoldable pub after_first : Scan × Option ℕ → Run (LayeredClock × Option ℕ)
after_first (s, some v) = done (s.clock, some v)
after_first (s, none) = around second_round hand_of s.clock.frame_count s.clock.clock_hand s.clock

-- The two rounds of `Victim`, behind its call of `Size`.
unfoldable pub rounds : LayeredClock → Run (LayeredClock × Option ℕ)
unfolding after_first
rounds c = around first_round scan_hand c.frame_count c.clock_hand (scan_of c) >>= after_first

unfoldable pub victim : Bool → LayeredClock → Run (LayeredClock × Option ℕ)
unfolding size rounds
victim reentrant c = do n ← size reentrant true c; if n == 0 then done (c, none) else rounds c

unfoldable pub pin : ℤ → LayeredClock → LayeredClock
pin (negsuc n) c = c
pin (pos f) c =
    if ltb f c.frame_count then record c { in_replacer = set c.in_replacer f false } else c

unfoldable pub unpin : ℤ → Bool → LayeredClock → LayeredClock
unpin (negsuc n) hot c = c
unpin (pos f) hot c =
    if ltb f c.frame_count
    then (if not (get_or c.in_replacer f false)
        then record c {
          in_replacer = set c.in_replacer f true;
          use_bits = set c.use_bits f true;
          is_hot = set c.is_hot f hot;
        }
        else c)
    else c
