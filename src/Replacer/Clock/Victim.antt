-- ===== src/Replacer/Clock/Victim.antt =====
-- `Clock::Victim` (Clock.cpp): which frame it takes, and when it takes none.
use altas_dbpro.Prelude.{
  ℕ, zero, suc, ◌<◌, ◌≡◌, refl, inl, inr, Bool, true, false, not, ◌&&◌, Option, none, some, List,
  [], ◌∷◌, arith, if◌then◌else◌, nat_eq, nat_eqb, nat_eqb_iff, ltb, Bool-cases, length, get_or, set,
  get_or-set_self, get_or-set_ne, length-set, sym, ◌∙◌, ap,
}
use altas_dbpro.Prelude.Run.{Run, done}
use altas_dbpro.Replacer.Ring.{
  next_hand, next_hand-lt, dist, dist-inj, dist-lt, stop, go, Ends, turned, stopped, turn-Ends,
  around,
}
use altas_dbpro.Replacer.Clock.{Clock, count, examine, hand_of, turn}

-- The vectors have an entry for each frame, and the hand points at a frame.
pub record IsWellFormed (c : Clock) : Type 0 where
  pub use_size : length c.use_bits ≡ c.frame
  pub in_size : length c.in_replacer ≡ c.frame
  pub hand_in : c.clock_hand < c.frame

abbrev pub in_at : Clock → ℕ → Bool
in_at c i = get_or c.in_replacer i false

abbrev pub used : Clock → ℕ → Bool
used c i = get_or c.use_bits i false

-- In the replacer and not used since the last pass of the hand.
abbrev pub is_idle : Clock → ℕ → Bool
is_idle c i = in_at c i && not (used c i)

-- The use bits after the hand has passed `k` frames from `c`.
abbrev swept : Clock → ℕ → ℕ → Bool
swept c k i = if ltb (dist c.frame c.clock_hand i) k then used c i && not (in_at c i) else used c i

-- The state of the loop when it has passed `k` frames and found none that is idle.
record Swept (c : Clock) (k : ℕ) (s : Clock) : Type 0 where
  frame_same : s.frame ≡ c.frame
  in_same : s.in_replacer ≡ c.in_replacer
  use_len : length s.use_bits ≡ c.frame
  use_is : (i : ℕ) → i < c.frame → used s i ≡ swept c k i
  busy : (i : ℕ) → i < c.frame → dist c.frame c.clock_hand i < k → is_idle c i ≡ false

abbrev cleared : Clock → List Bool
cleared s = if in_at s s.clock_hand then set s.use_bits s.clock_hand false else s.use_bits

examine-go :
    (s t : Clock)
    → examine s ≡ go t
    → (is_idle s s.clock_hand ≡ false)
      × (t.frame ≡ s.frame)
      × (t.in_replacer ≡ s.in_replacer)
      × (t.use_bits ≡ cleared s)
      × (t.clock_hand ≡ next_hand s.frame s.clock_hand)
unfolding examine
examine-go s t e = ground arith

examine-stop :
    (s t : Clock) (v : ℕ)
    → examine s ≡ stop t v
    → (v ≡ s.clock_hand)
      × (is_idle s s.clock_hand ≡ true)
      × (t ≡ record s {
        in_replacer = set s.in_replacer s.clock_hand false;
        clock_hand = next_hand s.frame s.clock_hand;
      })
unfolding examine
examine-stop s t v e = ground arith

module _ (c : Clock) (w : IsWellFormed c) where
  -- At the hand the bits are those from before the turn.
  under_hand :
      (k : ℕ) (s : Clock)
      → Swept c k s
      → s.clock_hand < c.frame
      → dist c.frame c.clock_hand s.clock_hand ≡ k
      → (is_idle s s.clock_hand ≡ is_idle c s.clock_hand)
        × (used s s.clock_hand ≡ used c s.clock_hand)
  under_hand k s p h d =
      ground (arith, p.use_is s.clock_hand h, ap (λ l. get_or l s.clock_hand false) p.in_same)

  sweep_one :
      (k : ℕ) (s t : Clock)
      → Swept c k s
      → s.clock_hand < c.frame
      → dist c.frame c.clock_hand s.clock_hand ≡ k
      → examine s ≡ go t
      → Swept c (suc k) t × (t.clock_hand ≡ next_hand c.frame s.clock_hand)
  sweep_one k s t p h d e =
      let (busy, frame, inr_same, uses, hand) = examine-go s t e in
      let (idle_same, used_same) = under_hand k s p h d in
      (
        record {
          frame_same = frame ∙ p.frame_same;
          in_same = inr_same ∙ p.in_same;
          use_len = ground (arith, length-set s.use_bits s.clock_hand false, p.use_len);
          use_is = λ i lt. elim (Bool-cases (nat_eqb s.clock_hand i)) [
            | inl same ↦ ground (
              arith,
              p.use_is i lt,
              get_or-set_self s.use_bits s.clock_hand false false,
              p.use_len,
              ap (λ l. get_or l s.clock_hand false) p.in_same,
              nat_eqb_iff s.clock_hand i,
            )
            | inr other ↦ ground (
              arith,
              p.use_is i lt,
              get_or-set_ne s.use_bits s.clock_hand i false false,
              nat_eqb_iff s.clock_hand i,
              dist-inj c.frame c.clock_hand s.clock_hand i w.hand_in h lt,
            )
          ];
          busy = λ i lt near.
              ground
                (arith, p.busy i lt, dist-inj c.frame c.clock_hand i s.clock_hand w.hand_in lt h);
        },
        hand ∙ ap (λ f. next_hand f s.clock_hand) p.frame_same,
      )

  Swept-start : Swept c 0 c
  Swept-start = record {
    frame_same = refl;
    in_same = refl;
    use_len = w.use_size;
    use_is = λ i lt. ground arith;
    busy = λ i lt near. absurd (omega arith);
  }

-- What `Victim` does to the replacer. It takes the first idle frame from the hand on, removes it from
-- the replacer, puts the hand behind it, and clears the use bits of the replacer's frames that it
-- passed; or no frame is idle, the use bits of all of the replacer's frames are cleared, and the
-- replacer and the hand are as before.
pub data Choice (c : Clock) : Clock × Option ℕ → Type 0 where
  picked :
      (t : Clock) (v : ℕ)
      → v < c.frame
      → is_idle c v ≡ true
      → ((i : ℕ)
          → i < c.frame
          → dist c.frame c.clock_hand i < dist c.frame c.clock_hand v
          → is_idle c i ≡ false)
      → t.in_replacer ≡ set c.in_replacer v false
      → t.clock_hand ≡ next_hand c.frame v
      → ((i : ℕ) → i < c.frame → used t i ≡ swept c (dist c.frame c.clock_hand v) i)
      → Choice c (t, some v)
  nothing :
      (t : Clock)
      → ((i : ℕ) → i < c.frame → is_idle c i ≡ false)
      → t.in_replacer ≡ c.in_replacer
      → t.clock_hand ≡ c.clock_hand
      → ((i : ℕ) → i < c.frame → used t i ≡ used c i && not (in_at c i))
      → Choice c (t, none)

abbrev Outcome : Clock → Run (Clock × Option ℕ) → Type 0
Outcome c out =
    (r : Clock × Option ℕ) × (out ≡ done r) × Choice c r × IsWellFormed r.0 × (r.0.frame ≡ c.frame)

pub count_zero : (bs : List Bool) (i : ℕ) → count bs ≡ 0 → get_or bs i false ≡ false
unfolding count
count_zero [] i h = refl
count_zero (b ∷ bs) zero h = ground arith
count_zero (b ∷ bs) (suc i) h = ground (arith, count_zero bs i)

Ends-Outcome :
    (c : Clock) (w : IsWellFormed c) (out : Run (Clock × Option ℕ))
    → Ends examine hand_of c.frame c.clock_hand w.hand_in (Swept c) out
    → Outcome c out
Ends-Outcome c w out (turned t e p back) = (
  (t, none),
  e,
  nothing t (λ i lt. p.busy i lt (dist-lt c.frame c.clock_hand i w.hand_in lt)) p.in_same back
      (λ i lt. ground (arith, p.use_is i lt, dist-lt c.frame c.clock_hand i w.hand_in lt)),
  record {
    use_size = p.use_len ∙ sym p.frame_same;
    in_size = ap length p.in_same ∙ w.in_size ∙ sym p.frame_same;
    hand_in = omega (arith, w.hand_in, p.frame_same);
  },
  p.frame_same,
)
Ends-Outcome c w out (stopped s t v e b h p) =
    let (here, idle, after) = examine-stop s t v b in
    let (idle_same, used_same) =
      under_hand c w (dist c.frame c.clock_hand s.clock_hand) s p h refl in
    (
      (t, some v),
      e,
      rw here (
          rw after (
            picked _ s.clock_hand h (ground arith) (λ i lt near. p.busy i lt near)
              (ap (λ l. set l s.clock_hand false) p.in_same)
              (ap (λ f. next_hand f s.clock_hand) p.frame_same) (λ i lt. p.use_is i lt))),
      rw after (record {
        use_size = p.use_len ∙ sym p.frame_same;
        in_size =
            length-set s.in_replacer s.clock_hand false
            ∙ ap length p.in_same
            ∙ w.in_size
            ∙ sym p.frame_same;
        hand_in = next_hand-lt s.frame s.clock_hand (omega (arith, p.frame_same));
      }),
      rw after p.frame_same,
    )

-- The loop of `Victim`, which follows its call of `Size`, returns on every well-formed clock. It takes
-- the first frame from the hand on that is in the replacer and not used, removes it, puts the hand
-- behind it and clears the use bits of the replacer's frames that it passed; if there is none it
-- clears them all and takes none. It leaves a well-formed clock of as many frames.
pub turn-Choice :
    (c : Clock)
    → IsWellFormed c
    → (r : Clock × Option ℕ) × (turn c ≡ done r)
      × Choice c r
      × IsWellFormed r.0
      × (r.0.frame ≡ c.frame)
unfolding turn
turn-Choice c w = Ends-Outcome c w (around examine hand_of c.frame c.clock_hand c) (
    turn-Ends examine hand_of c.frame c.clock_hand w.hand_in (Swept c)
      (λ k s t p h d b. sweep_one c w k s t p h d b) c (Swept-start c w) refl)
