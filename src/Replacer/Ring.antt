-- ===== src/Replacer/Ring.antt =====
-- The clock hand, and the loop `do { ... } while (clock_hand != start_hand)` that the `Victim`
-- functions of Clock.cpp, ClockPro.cpp and LayeredClock.cpp share.
use native.Mathlib.Nat.{mod-eq_of_lt, mod_self}
use altas_dbpro.Prelude.{
  ℕ, zero, suc, ◌+◌, ◌-◌, ◌%◌, ◌≤◌, ◌<◌, ◌≡◌, ◌≢◌, refl, ◌⊎◌, inl, inr, true, false, Option, none,
  some, arith, if◌then◌else◌, ◌==◌, nat_eq, nat_eqb, nat_eqb_iff, leb, Bool-cases, sym, ◌∙◌, ap,
  subst,
}
use altas_dbpro.Prelude.Run.{Run, done, blocked, undefined, out_of_fuel}

-- `(clock_hand + 1) % static_cast<int>(frame)`.
unfoldable pub next_hand : ℕ → ℕ → ℕ
next_hand frame hand = (hand + 1) % frame

pub next_hand_lem :
    (frame hand : ℕ)
    → hand < frame
    → next_hand frame hand ≡ (if nat_eqb (hand + 1) frame then 0 else hand + 1)
unfolding next_hand
next_hand_lem frame hand h = elim (Bool-cases (nat_eqb (hand + 1) frame)) [
  | inl e ↦ rw e (rw ((nat_eqb_iff (hand + 1) frame).0 e) (mod_self frame))
  | inr e ↦ rw e (mod-eq_of_lt (ground arith))
]

pub next_hand-lt : (frame hand : ℕ) → hand < frame → next_hand frame hand < frame
next_hand-lt frame hand h = ground (arith, next_hand_lem frame hand h)

-- How many steps the hand takes from `start` to the frame `i`.
abbrev pub dist : ℕ → ℕ → ℕ → ℕ
dist frame start i = if leb start i then i - start else i + frame - start

pub dist-lt : (frame start i : ℕ) → start < frame → i < frame → dist frame start i < frame
dist-lt frame start i p q = ground arith

pub dist-inj :
    (frame start i j : ℕ)
    → start < frame
    → i < frame
    → j < frame
    → dist frame start i ≡ dist frame start j
    → i ≡ j
dist-inj frame start i j p q r e = ground arith

dist-next :
    (frame start i : ℕ)
    → start < frame
    → i < frame
    → next_hand frame i ≢ start
    → dist frame start (next_hand frame i) ≡ suc (dist frame start i)
dist-next frame start i p q n = ground (arith, next_hand_lem frame i q)

dist-last :
    (frame start i : ℕ)
    → start < frame
    → i < frame
    → next_hand frame i ≡ start
    → suc (dist frame start i) ≡ frame
dist-last frame start i p q e = ground (arith, next_hand_lem frame i q)

-- One pass of a loop body: `return` with a value, or on to the loop's test.
pub data Pass (S R : Type 0) : Type 0 where
  stop : S → R → Pass S R
  go : S → Pass S R

module _ {S R : Type 0} (body : S → Pass S R) (hand : S → ℕ) where
  unfoldable pub around : ℕ → ℕ → S → Run (S × Option R)
  around zero start s = out_of_fuel
  around (suc fuel) start s = elim (body s) [
    | stop t r ↦ done (t, some r)
    | go t ↦ elim (hand t == start) [ true ↦ done (t, none) | false ↦ around fuel start t ]
  ]

  around-stop :
      (fuel start : ℕ) (s t : S) (r : R)
      → body s ≡ stop t r
      → around (suc fuel) start s ≡ done (t, some r)
  unfolding around
  around-stop fuel start s t r e = rw (e, around) refl

  around-end :
      (fuel start : ℕ) (s t : S)
      → body s ≡ go t
      → (hand t == start) ≡ true
      → around (suc fuel) start s ≡ done (t, none)
  unfolding around
  around-end fuel start s t e q = rw (e, around) (rw (q, around) refl)

  around-on :
      (fuel start : ℕ) (s t : S)
      → body s ≡ go t
      → (hand t == start) ≡ false
      → around (suc fuel) start s ≡ around fuel start t
  unfolding around
  around-on fuel start s t e q = rw (e, around) (rw (q, around) refl)

  Pass-cases : (p : Pass S R) → ((t : S) × (r : R) × (p ≡ stop t r)) ⊎ ((t : S) × (p ≡ go t))
  Pass-cases (stop t r) = inl (t, r, refl)
  Pass-cases (go t) = inr (t, refl)

  module _ (frame start : ℕ) (in_range : start < frame) (P : ℕ → S → Type 0) where
    -- What a pass that goes on does: it moves the hand by one and keeps `P`.
    abbrev pub Keeps : Type 0
    Keeps =
        (k : ℕ) (s t : S)
        → P k s
        → hand s < frame
        → dist frame start (hand s) ≡ k
        → body s ≡ go t
        → P (suc k) t × (hand t ≡ next_hand frame (hand s))

    -- How the loop ends: after a full turn, or by a `return` at the frame under the hand.
    pub data Ends (out : Run (S × Option R)) : Type 0 where
      turned : (t : S) → out ≡ done (t, none) → P frame t → hand t ≡ start → Ends out
      stopped :
          (s t : S) (r : R)
          → out ≡ done (t, some r)
          → body s ≡ stop t r
          → hand s < frame
          → P (dist frame start (hand s)) s
          → Ends out

    Ends-same : {a b : Run (S × Option R)} → a ≡ b → Ends b → Ends a
    Ends-same e (turned t p q r) = turned t (e ∙ p) q r
    Ends-same e (stopped s t r p q h i) = stopped s t r (e ∙ p) q h i

    around-Ends :
        Keeps
        → (fuel k : ℕ) (s : S) → frame ≤ fuel + k
        → k < frame
        → P k s
        → hand s < frame
        → dist frame start (hand s) ≡ k
        → Ends (around fuel start s)
    around-Ends keep zero k s f lt p h d = absurd (omega arith)
    around-Ends keep (suc fuel) k s f lt p h d = elim (Pass-cases (body s)) [
      | inl (t, r, e) ↦ stopped s t r (around-stop fuel start s t r e) e h (rw d p)
      | inr (t, e) ↦
          let (p', m) = keep k s t p h d e in
          elim (Bool-cases (hand t == start)) [
            | inl q ↦
                let back : hand t ≡ start = (nat_eqb_iff (hand t) start).0 q in
                let last : suc k ≡ frame =
                  omega (arith, dist-last frame start (hand s) in_range h (sym m ∙ back)) in
                turned t (around-end fuel start s t e q) (subst (λ n. P n t) last p') back
            | inr q ↦
                let not_back : next_hand frame (hand s) ≢ start =
                  λ b. ground (arith, nat_eqb_iff (hand t) start) in
                let step : dist frame start (hand t) ≡ suc k =
                  rw m (dist-next frame start (hand s) in_range h not_back ∙ ap suc d) in
                let here : hand t < frame = rw m (next_hand-lt frame (hand s) h) in
                Ends-same (around-on fuel start s t e q) (
                  around-Ends keep fuel (suc k) t (omega arith)
                    (omega (arith, dist-lt frame start (hand t) in_range here)) p' here step)
          ]
    ]

    -- A turn of as many passes as there are frames, from the hand.
    pub turn-Ends : Keeps → (s : S) → P 0 s → hand s ≡ start → Ends (around frame start s)
    turn-Ends keep s p e =
        around-Ends keep frame 0 s (omega arith) (omega arith) p (omega arith) (ground (arith, e))

-- A map of the states that the loop bodies respect maps the loops too.
abbrev pub map_pass : {S T R : Type 0} → (S → T) → Pass S R → Pass T R
map_pass f (stop s r) = stop (f s) r
map_pass f (go s) = go (f s)

abbrev pub map_out : {S T R : Type 0} → (S → T) → Run (S × R) → Run (T × R)
map_out f (done (s, r)) = done (f s, r)
map_out f blocked = blocked
map_out f undefined = undefined
map_out f out_of_fuel = out_of_fuel

pub around-map :
    {S T R : Type 0} (f : S → T) (body : S → Pass S R) (body' : T → Pass T R) (hand : S → ℕ)
    (hand' : T → ℕ)
    → ((s : S) → body' (f s) ≡ map_pass f (body s))
    → ((s : S) → hand' (f s) ≡ hand s)
    → (fuel start : ℕ) (s : S)
    → around body' hand' fuel start (f s) ≡ map_out f (around body hand fuel start s)
unfolding around
around-map f body body' hand hand' b h zero start s = refl
around-map f body body' hand hand' b h (suc fuel) start s = elim (Pass-cases body hand (body s)) [
  | inl (t, r, e) ↦ rw (b s ∙ ap (map_pass f) e, around) (rw (e, around) refl)
  | inr (t, e) ↦ elim (Bool-cases (nat_eqb (hand t) start)) [
    | inl q ↦ rw (b s ∙ ap (map_pass f) e, around) (rw (e, around) (rw (h t) (rw (q, around) refl)))
    | inr q ↦
        rw (b s ∙ ap (map_pass f) e, around)
          (rw (e, around)
            (rw (h t) (rw (q, around) (around-map f body body' hand hand' b h fuel start t))))
  ]
]

pub done-injective :
    {S R : Type 0} (s t : S) (v w : R)
    → ◌≡◌ {A = Run (S × Option R)} (done (s, some v)) (done (t, some w))
    → (s ≡ t) × (v ≡ w)
done-injective s t v w e = (cc, cc)
