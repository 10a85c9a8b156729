-- ===== src/Replacer/ClockPro/View.antt =====
-- `ClockPro` (ClockPro.cpp) chooses as `Clock` (Clock.cpp) does; the new-page bits only record.
use altas_dbpro.Prelude.{
  ℕ, ◌≡◌, refl, sym, ◌∙◌, ap, Bool, true, false, Option, some, List, arith, if◌then◌else◌, nat_eqb,
  Bool-cases, get_or, set, inl, inr, ◌<◌, length, get_or-set_self, get_or-set_ne, zero, suc, [],
  ◌∷◌, ◌≢◌, nat_eq,
}
use altas_dbpro.Prelude.Ints.{ℤ, pos, negsuc}
use altas_dbpro.Prelude.Run.{Run, done}
use altas_dbpro.Replacer.Ring.{
  stop, go, map_pass, map_out, around-map, next_hand, Ends, Keeps, turned, stopped, turn-Ends,
  done-injective,
}
use altas_dbpro.Replacer.Clock
use altas_dbpro.Replacer.Clock.{Clock}
use altas_dbpro.Replacer.ClockPro.{ClockPro, size, examine, hand_of, victim, pin, unpin, is_old}

abbrev pub view : ClockPro → Clock
view c = record {
  frame = c.frame;
  use_bits = c.u_bits;
  in_replacer = c.in_replacer;
  clock_hand = c.clock_hand;
}

examine-view : (c : ClockPro) → Clock.examine (view c) ≡ map_pass view (examine c)
unfolding examine Clock.examine
examine-view c = ground arith

-- Whether the mutex may be locked twice or not, `Victim` of `ClockPro` blocks, fails and chooses
-- exactly as that of `Clock` does on the same use bits, replacer bits and hand, and leaves the same.
pub victim-view :
    (reentrant : Bool) (c : ClockPro)
    → Clock.victim reentrant (view c) ≡ map_out view (victim reentrant c)
unfolding victim Clock.victim Clock.turn size Clock.size
victim-view true c = elim (Bool-cases (nat_eqb (Clock.count c.in_replacer) 0)) [
  | inl e ↦ rw e refl
  | inr e ↦ rw e (
      around-map view examine Clock.examine hand_of Clock.hand_of examine-view (λ s. refl) c.frame
        c.clock_hand c)
]
victim-view false c = refl

set_cleared : (bs : List Bool) (i : ℕ) → get_or bs i false ≡ false → set bs i false ≡ bs
set_cleared [] i h = refl
set_cleared (b ∷ bs) zero h = rw h refl
set_cleared (b ∷ bs) (suc i) h = rw (set_cleared bs i h) refl

-- `Pin` and `Unpin` of `ClockPro` do to use bits, replacer bits and hand what those of `Clock` do.
pub pin-unpin-view :
    (f : ℤ) (c : ClockPro)
    → (Clock.pin f (view c) ≡ view (pin f c)) × (Clock.unpin f (view c) ≡ view (unpin f c))
unfolding pin unpin Clock.pin Clock.unpin
pin-unpin-view (negsuc n) c = (refl, refl)
pin-unpin-view (pos f) c = (ground (arith, set_cleared c.in_replacer f), ground arith)

record Kept (c : ClockPro) (k : ℕ) (s : ClockPro) : Type 0 where
  frame_same : s.frame ≡ c.frame
  p_same : s.p_bits ≡ c.p_bits

examine-go :
    (s t : ClockPro)
    → examine s ≡ go t
    → (t.frame ≡ s.frame) × (t.p_bits ≡ s.p_bits) × (t.clock_hand ≡ next_hand s.frame s.clock_hand)
unfolding examine
examine-go s t e = ground arith

abbrev after_take : ClockPro → List Bool
after_take s =
    if get_or s.p_bits s.clock_hand false then set s.p_bits s.clock_hand false else s.p_bits

examine-stop :
    (s t : ClockPro) (v : ℕ)
    → examine s ≡ stop t v
    → (v ≡ s.clock_hand) × (t.frame ≡ s.frame) × (t.p_bits ≡ after_take s)
unfolding examine
examine-stop s t v e = ground arith

taken_old :
    (s t : ClockPro) {frame : ℕ}
    → t.p_bits ≡ after_take s
    → t.frame ≡ frame
    → length s.p_bits ≡ frame
    → s.clock_hand < frame
    → is_old (pos s.clock_hand) t ≡ true
unfolding is_old
taken_old s t bits f len lt = ground (arith, get_or-set_self s.p_bits s.clock_hand false false)

others :
    (s t : ClockPro) (i : ℕ)
    → t.p_bits ≡ after_take s
    → s.clock_hand ≢ i
    → get_or t.p_bits i false ≡ get_or s.p_bits i false
others s t i bits n = ground (arith, get_or-set_ne s.p_bits s.clock_hand i false false)

-- Where the mutex may be locked twice, there are as many new-page bits as frames and the hand is at a
-- frame: the frame that `Victim` takes counts as old afterwards, and the new-page bit of every other frame
-- is as it was.
pub victim-is_old :
    (c t : ClockPro) (v : ℕ)
    → length c.p_bits ≡ c.frame
    → c.clock_hand < c.frame
    → victim true c ≡ done (t, some v)
    → (is_old (pos v) t ≡ true)
      × ((i : ℕ) → i ≢ v → get_or t.p_bits i false ≡ get_or c.p_bits i false)
unfolding victim size
victim-is_old c t v len lt e = elim (Bool-cases (nat_eqb (Clock.count c.in_replacer) 0)) [
  | inl z ↦ absurd (ground (arith, e))
  | inr z ↦
      from_turn
        (turn-Ends examine hand_of c.frame c.clock_hand lt (Kept c) keep c
          (record { frame_same = refl; p_same = refl }) refl)
        (rw z at e)
]
  where
    keep : Keeps examine hand_of c.frame c.clock_hand lt (Kept c)
    keep k s u p h d b =
        let (frame, bits, hand) = examine-go s u b in
        (
          record { frame_same = frame ∙ p.frame_same; p_same = bits ∙ p.p_same },
          hand ∙ ap (λ n. next_hand n s.clock_hand) p.frame_same,
        )

    from_turn :
        {out : Run (ClockPro × Option ℕ)}
        → Ends examine hand_of c.frame c.clock_hand lt (Kept c) out
        → out ≡ done (t, some v)
        → (is_old (pos v) t ≡ true)
          × ((i : ℕ) → i ≢ v → get_or t.p_bits i false ≡ get_or c.p_bits i false)
    from_turn (turned u q p back) r = absurd (ground arith)
    from_turn (stopped s u w q b h p) r =
        let (here, frame, bits) = examine-stop s u w b in
        let (su, sv) = done-injective u t w v (sym q ∙ r) in
        let at : v ≡ s.clock_hand = sym sv ∙ here in
        let t_bits : t.p_bits ≡ after_take s = ap (λ x. x.p_bits) (sym su) ∙ bits in
        let t_frame : t.frame ≡ c.frame = ap (λ x. x.frame) (sym su) ∙ frame ∙ p.frame_same in
        (
          rw at (taken_old s t t_bits t_frame (ap length p.p_same ∙ len) h),
          λ i n.
              others s t i t_bits (λ m. n (sym m ∙ sym at)) ∙ ap (λ l. get_or l i false) p.p_same,
        )
