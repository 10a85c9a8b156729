-- ===== src/Replacer/ClockPro.antt =====
-- MiniDB/src/buffer/ClockPro.cpp and its header: the clock with a bit for new pages.
pub mod View
use altas_dbpro.Prelude.{
  ℕ, Bool, true, false, not, ◌&&◌, Option, none, some, List, if◌then◌else◌, ltb, get_or, set,
  replicate, ◌==◌, nat_eq, ◌+◌, [], ◌∷◌,
}
use altas_dbpro.Prelude.Ints.{ℤ, pos, negsuc}
use altas_dbpro.Prelude.Run.{Run, done, blocked, ◌>>=◌}
use altas_dbpro.Replacer.Ring.{next_hand, Pass, stop, go, around}
use altas_dbpro.Replacer.Clock.{count}

pub record ClockPro : Type 0 where
  pub frame : ℕ
  pub u_bits : List Bool
  pub p_bits : List Bool
  pub in_replacer : List Bool
  pub clock_hand : ℕ

abbrev pub init : ℕ → ClockPro
init frame = record {
  frame = frame;
  u_bits = replicate frame false;
  p_bits = replicate frame false;
  in_replacer = replicate frame false;
  clock_hand = 0;
}

unfoldable pub size : Bool → Bool → ClockPro → Run ℕ
unfolding count
size reentrant held c = if held && not reentrant then blocked else done (count c.in_replacer)

-- The body of the loop in `Victim`.
unfoldable pub examine : ClockPro → Pass ClockPro ℕ
unfolding next_hand
examine c =
    let hand = c.clock_hand in
    let next = next_hand c.frame hand in
    if get_or c.in_replacer hand false
    then (if get_or c.u_bits hand false
        then go (record c { u_bits = set c.u_bits hand false; clock_hand = next })
        else stop
            (record c {
              in_replacer = set c.in_replacer hand false;
              p_bits = if get_or c.p_bits hand false then set c.p_bits hand false else c.p_bits;
              clock_hand = next;
            })
            hand)
    else go (record c { clock_hand = next })

abbrev pub hand_of : ClockPro → ℕ
hand_of c = c.clock_hand

unfoldable pub victim : Bool → ClockPro → Run (ClockPro × Option ℕ)
unfolding size
victim reentrant c = do
  n ← size reentrant true c
  if n == 0 then done (c, none) else around examine hand_of c.frame c.clock_hand c

unfoldable pub pin : ℤ → ClockPro → ClockPro
pin (negsuc n) c = c
pin (pos f) c = if ltb f c.frame then record c { in_replacer = set c.in_replacer f false } else c

unfoldable pub unpin : ℤ → ClockPro → ClockPro
unpin (negsuc n) c = c
unpin (pos f) c =
    if ltb f c.frame
    then (if not (get_or c.in_replacer f false)
        then record c {
          in_replacer = set c.in_replacer f true;
          u_bits = set c.u_bits f true;
          p_bits = set c.p_bits f true;
        }
        else c)
    else c

unfoldable pub is_old : ℤ → ClockPro → Bool
is_old (negsuc n) c = false
is_old (pos f) c = ltb f c.frame && not (get_or c.p_bits f false)
