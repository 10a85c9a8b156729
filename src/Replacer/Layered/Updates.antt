-- ===== src/Replacer/Layered/Updates.antt =====
-- `LayeredClock::Pin` and `LayeredClock::Unpin` (LayeredClock.cpp).
use altas_dbpro.Prelude.{
  ℕ, ◌<◌, ◌≡◌, Bool, true, false, not, ◌&&◌, ◌||◌, arith, if◌then◌else◌, nat_eq, nat_eqb_iff,
  length-set,
}
use altas_dbpro.Prelude.Ints.{ℤ, pos, negsuc, eqb_ℤ}
use altas_dbpro.Replacer.Clock.Updates.{get_or-set}
use altas_dbpro.Replacer.Layered.{LayeredClock, pin, unpin}
use altas_dbpro.Replacer.Layered.Rounds.{IsWellFormed, in_at, used, hot}

pub pin-IsWellFormed : (f : ℤ) (c : LayeredClock) → IsWellFormed c → IsWellFormed (pin f c)
unfolding pin
pin-IsWellFormed (negsuc n) c w = w
pin-IsWellFormed (pos f) c w = ground (arith, length-set c.in_replacer f false)

pub unpin-IsWellFormed :
    (f : ℤ) (h : Bool) (c : LayeredClock) → IsWellFormed c → IsWellFormed (unpin f h c)
unfolding unpin
unpin-IsWellFormed (negsuc n) h c w = w
unpin-IsWellFormed (pos f) h c w =
    ground (
      arith,
      length-set c.in_replacer f true,
      length-set c.use_bits f true,
      length-set c.is_hot f h,
    )

-- `Pin(f)` takes `f` out of the replacer and leaves every other frame.
pub in_at-pin :
    (f : ℤ) (c : LayeredClock) (i : ℕ)
    → IsWellFormed c
    → i < c.frame_count
    → in_at (pin f c) i ≡ in_at c i && not (eqb_ℤ f (pos i))
unfolding pin eqb_ℤ
in_at-pin (negsuc n) c i w lt = ground arith
in_at-pin (pos f) c i w lt = ground (arith, get_or-set c.in_replacer f i false, nat_eqb_iff f i)

-- On a well-formed replacer, `Unpin(f, hot)` puts `f` into the replacer and leaves every other frame. A frame that comes in is
-- marked as used and gets the temperature; one that was in keeps its own.
pub in_at-unpin :
    (f : ℤ) (h : Bool) (c : LayeredClock) (i : ℕ)
    → IsWellFormed c
    → i < c.frame_count
    → (in_at (unpin f h c) i ≡ in_at c i || eqb_ℤ f (pos i))
      × (used (unpin f h c) i ≡ used c i || (eqb_ℤ f (pos i) && not (in_at c i)))
      × (hot (unpin f h c) i ≡ (if eqb_ℤ f (pos i) && not (in_at c i) then h else hot c i))
unfolding unpin eqb_ℤ
in_at-unpin (negsuc n) h c i w lt = ground arith
in_at-unpin (pos f) h c i w lt = ground (
  arith,
  get_or-set c.in_replacer f i true,
  get_or-set c.use_bits f i true,
  get_or-set c.is_hot f i h,
  nat_eqb_iff f i,
)
