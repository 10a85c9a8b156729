-- ===== src/Replacer/Clock/Updates.antt =====
-- `Clock::Pin`, `Clock::Unpin` and `Clock::Size` (Clock.cpp), seen as operations on a set of frames.
use altas_dbpro.Prelude.{
  ℕ, zero, suc, ◌+◌, ◌<◌, ◌≡◌, Bool, true, false, not, ◌&&◌, ◌||◌, List, [], ◌∷◌, arith,
  if◌then◌else◌, nat_eq, nat_eqb, nat_eqb_iff, Bool-cases, length, get_or, set, get_or-set_self,
  get_or-set_ne, length-set, inl, inr,
}
use altas_dbpro.Prelude.Ints.{ℤ, pos, negsuc, eqb_ℤ}
use altas_dbpro.Replacer.Clock.{Clock, count, pin, unpin}
use altas_dbpro.Replacer.Clock.Victim.{IsWellFormed, in_at, used}

pub get_or-set :
    (bs : List Bool) (i j : ℕ) (v : Bool)
    → i < length bs
    → get_or (set bs i v) j false ≡ (if nat_eqb i j then v else get_or bs j false)
get_or-set bs i j v h = elim (Bool-cases (nat_eqb i j)) [
  | inl e ↦ ground (arith, get_or-set_self bs i v false, nat_eqb_iff i j)
  | inr e ↦ ground (arith, get_or-set_ne bs i j v false, nat_eqb_iff i j)
]

pub count-set :
    (bs : List Bool) (i : ℕ) (v : Bool)
    → i < length bs
    → count (set bs i v) + (if get_or bs i false then 1 else 0) ≡ count bs + (if v then 1 else 0)
unfolding count
count-set [] i v h = absurd (omega arith)
count-set (b ∷ bs) zero v h = ground arith
count-set (b ∷ bs) (suc i) v h = ground (arith, count-set bs i v)

pub pin-IsWellFormed : (f : ℤ) (c : Clock) → IsWellFormed c → IsWellFormed (pin f c)
unfolding pin
pin-IsWellFormed (negsuc n) c w = w
pin-IsWellFormed (pos f) c w = ground (arith, length-set c.in_replacer f false)

pub unpin-IsWellFormed : (f : ℤ) (c : Clock) → IsWellFormed c → IsWellFormed (unpin f c)
unfolding unpin
unpin-IsWellFormed (negsuc n) c w = w
unpin-IsWellFormed (pos f) c w =
    ground (arith, length-set c.in_replacer f true, length-set c.use_bits f true)

-- On a well-formed clock, after `Pin(f)` the frame `f` is out of the replacer, and every other frame is as it was; the use
-- bits are untouched, and an `f` outside the range changes nothing.
pub pin_lem :
    (f : ℤ) (c : Clock) (i : ℕ)
    → IsWellFormed c
    → i < c.frame
    → (in_at (pin f c) i ≡ in_at c i && not (eqb_ℤ f (pos i))) × (used (pin f c) i ≡ used c i)
unfolding pin eqb_ℤ
pin_lem (negsuc n) c i w lt = ground arith
pin_lem (pos f) c i w lt = ground (arith, get_or-set c.in_replacer f i false, nat_eqb_iff f i)

-- On a well-formed clock, after `Unpin(f)` a frame is in the replacer if it was, or if it is `f`; a frame that came in is
-- marked as used, and all other use bits are untouched.
pub unpin_lem :
    (f : ℤ) (c : Clock) (i : ℕ)
    → IsWellFormed c
    → i < c.frame
    → (in_at (unpin f c) i ≡ in_at c i || eqb_ℤ f (pos i))
      × (used (unpin f c) i ≡ used c i || (eqb_ℤ f (pos i) && not (in_at c i)))
unfolding unpin eqb_ℤ
unpin_lem (negsuc n) c i w lt = ground arith
unpin_lem (pos f) c i w lt =
    ground
      (arith, get_or-set c.in_replacer f i true, get_or-set c.use_bits f i true, nat_eqb_iff f i)
