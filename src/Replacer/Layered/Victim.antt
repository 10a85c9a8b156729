-- ===== src/Replacer/Layered/Victim.antt =====
-- The answer of `LayeredClock::Victim` (LayeredClock.cpp), from its two rounds.
use altas_dbpro.Prelude.{
  ℕ, suc, ◌+◌, ◌≤◌, ◌<◌, ◌≡◌, ◌≢◌, refl, ◌⊎◌, inl, inr, Bool, true, false, ◌&&◌, Option, none, some,
  List, [], ◌∷◌, arith, if◌then◌else◌, nat_eq, nat_eqb, nat_eqb_iff, Bool-cases, length, get_or,
  set, get_or-set_self, get_or-set_ne, length-set, sym, ◌∙◌, ap,
}
use altas_dbpro.Prelude.Run.{Run, done, blocked, ◌>>=◌}
use altas_dbpro.Replacer.Ring.{
  next_hand, next_hand-lt, dist, dist-inj, dist-lt, Ends, Keeps, turned, stopped, turn-Ends,
}
use altas_dbpro.Replacer.Clock.{count}
use altas_dbpro.Replacer.Clock.Victim.{count_zero}
use altas_dbpro.Replacer.Layered.{
  LayeredClock, Scan, size, evict, first_round, second_round, cold_eviction_priority, scan_hand,
  hand_of, scan_of, after_first, rounds, victim,
}
use altas_dbpro.Replacer.Layered.Rounds.{
  IsWellFormed, in_at, used, hot, is_idle, Same, frame_at, hot_seen, First, first-go, first-stop,
  second-go, second-stop,
}

module _ (c : LayeredClock) (w : IsWellFormed c) where
  Same-start : Same c c
  Same-start = record { frame_same = refl; in_same = refl; hot_same = refl; use_len = w.use_size }

  First-start : First c 0 (scan_of c)
  unfolding frame_at hot_seen
  First-start = record {
    same = Same-start;
    at = refl;
    counted = refl;
    few = omega arith;
    passed = λ i lt near m. absurd (omega arith);
    ahead = λ i lt far. refl;
    no_cold = λ i lt near m. absurd (omega arith);
  }

  -- Under the hand of the first round nothing has changed.
  pub under_hand :
      (k : ℕ) (s : Scan)
      → First c k s
      → s.clock.clock_hand < c.frame_count
      → dist c.frame_count c.clock_hand s.clock.clock_hand ≡ k
      → (is_idle s.clock s.clock.clock_hand ≡ is_idle c s.clock.clock_hand)
        × (hot s.clock s.clock.clock_hand ≡ hot c s.clock.clock_hand)
        × (used s.clock s.clock.clock_hand ≡ used c s.clock.clock_hand)
        × (in_at s.clock s.clock.clock_hand ≡ in_at c s.clock.clock_hand)
  under_hand k s p h d =
      let same_in = ap (λ l. get_or l s.clock.clock_hand false) p.same.in_same in
      let same_use = p.ahead s.clock.clock_hand h (omega arith) in
      (ground arith, ap (λ l. get_or l s.clock.clock_hand false) p.same.hot_same, same_use, same_in)

  First-keep : Keeps first_round scan_hand c.frame_count c.clock_hand w.hand_in (First c)
  unfolding frame_at hot_seen
  First-keep k s t p h d e =
      let (frame, ins, hots, uses, hand, counts, few, cold) = first-go s t e in
      let (idle_s, hot_s, use_s, in_s) = under_hand k s p h d in
      let moved : t.clock.clock_hand ≡ next_hand c.frame_count s.clock.clock_hand =
        hand ∙ ap (λ n. next_hand n s.clock.clock_hand) p.same.frame_same in
      let here : s.clock.clock_hand ≡ frame_at c k = p.at in
      let seen : t.cold_scan_count ≡ hot_seen c (suc k) = rw (← here) (ground (arith, p.counted)) in
      let bit : (i : ℕ)
          → used t.clock i
            ≡ (if nat_eqb s.clock.clock_hand i && in_at c i then false else used s.clock i) =
        λ i. elim (Bool-cases (nat_eqb s.clock.clock_hand i)) [
          | inl q ↦ ground (
            arith,
            nat_eqb_iff s.clock.clock_hand i,
            get_or-set_self s.clock.use_bits s.clock.clock_hand false false,
            p.same.use_len,
          )
          | inr q ↦ ground (
            arith,
            nat_eqb_iff s.clock.clock_hand i,
            get_or-set_ne s.clock.use_bits s.clock.clock_hand i false false,
          )
        ] in
      (
        record {
          same = record {
            frame_same = frame ∙ p.same.frame_same;
            in_same = ins ∙ p.same.in_same;
            hot_same = hots ∙ p.same.hot_same;
            use_len =
                ground
                  (arith, length-set s.clock.use_bits s.clock.clock_hand false, p.same.use_len);
          };
          at = moved ∙ ap (next_hand c.frame_count) here;
          counted = seen;
          few = rw (← seen) (ground (arith, p.counted, p.few));
          passed = λ i lt near m. ground (
            arith,
            bit i,
            p.passed i lt,
            nat_eqb_iff s.clock.clock_hand i,
            dist-inj c.frame_count c.clock_hand i s.clock.clock_hand w.hand_in lt h,
          );
          ahead = λ i lt far. ground (arith, bit i, p.ahead i lt, nat_eqb_iff s.clock.clock_hand i);
          no_cold = λ i lt near m. ground (
            arith,
            p.no_cold i lt,
            dist-inj c.frame_count c.clock_hand i s.clock.clock_hand w.hand_in lt h,
          );
        },
        moved,
      )

-- The second round after `k` frames: those that were passed are not in the replacer.
record Second (c : LayeredClock) (k : ℕ) (s : LayeredClock) : Type 0 where
  same : Same c s
  passed : (i : ℕ) → i < c.frame_count → dist c.frame_count c.clock_hand i < k → in_at c i ≡ false
  ahead : (i : ℕ) → i < c.frame_count → k ≤ dist c.frame_count c.clock_hand i → used s i ≡ used c i

-- No frame of the replacer is marked as used, as after the first round.
abbrev AllUnused : LayeredClock → Type 0
AllUnused c = (i : ℕ) → i < c.frame_count → in_at c i ≡ true → used c i ≡ false

module _ (c : LayeredClock) (w : IsWellFormed c) (unused : AllUnused c) where
  Second-keep : Keeps second_round hand_of c.frame_count c.clock_hand w.hand_in (Second c)
  Second-keep k s t p h d e =
      let (frame, ins, hots, uses, hand, busy) = second-go s t e in
      let in_s : in_at s s.clock_hand ≡ in_at c s.clock_hand =
        ap (λ l. get_or l s.clock_hand false) p.same.in_same in
      let use_s : used s s.clock_hand ≡ used c s.clock_hand =
        p.ahead s.clock_hand h (omega arith) in
      let out : in_at c s.clock_hand ≡ false = ground (arith, unused s.clock_hand h) in
      (
        record {
          same = record {
            frame_same = frame ∙ p.same.frame_same;
            in_same = ins ∙ p.same.in_same;
            hot_same = hots ∙ p.same.hot_same;
            use_len = ground (arith, length-set s.use_bits s.clock_hand false, p.same.use_len);
          };
          passed = λ i lt near. ground (
            arith,
            p.passed i lt,
            dist-inj c.frame_count c.clock_hand i s.clock_hand w.hand_in lt h,
          );
          ahead = λ i lt far. ground (
            arith,
            p.ahead i lt,
            get_or-set_ne s.use_bits s.clock_hand i false false,
            dist-inj c.frame_count c.clock_hand i s.clock_hand w.hand_in lt h,
          );
        },
        hand ∙ ap (λ n. next_hand n s.clock_hand) p.same.frame_same,
      )

  Second-start : Second c 0 c
  Second-start = record {
    same = Same-start c w;
    passed = λ i lt near. absurd (omega arith);
    ahead = λ i lt far. refl;
  }

-- What a `Victim` that returns true has done: a frame of the replacer is taken out of it, and only
-- that one; the temperatures are as before.
pub record Evicted (c t : LayeredClock) (v : ℕ) : Type 0 where
  pub in_range : v < c.frame_count
  pub was_in : in_at c v ≡ true
  pub in_now : t.in_replacer ≡ set c.in_replacer v false
  pub hot_now : t.is_hot ≡ c.is_hot
  pub hand_now : t.clock_hand ≡ next_hand c.frame_count v
  pub frame_now : t.frame_count ≡ c.frame_count
  pub use_len : length t.use_bits ≡ c.frame_count

pub evict-Evicted :
    (c s : LayeredClock) (v : ℕ)
    → Same c s
    → v ≡ s.clock_hand
    → v < c.frame_count
    → is_idle s v ≡ true
    → Evicted c (evict s) v
unfolding evict
evict-Evicted c s v p e lt idle = record {
  in_range = lt;
  was_in = ground (arith, ap (λ l. get_or l v false) p.in_same);
  in_now = rw e (ap (λ l. set l s.clock_hand false) p.in_same);
  hot_now = p.hot_same;
  hand_now = rw e (ap (λ n. next_hand n s.clock_hand) p.frame_same);
  frame_now = p.frame_same;
  use_len = p.use_len;
}

pub Evicted-IsWellFormed :
    {c t : LayeredClock} {v : ℕ} → IsWellFormed c → Evicted c t v → IsWellFormed t
Evicted-IsWellFormed {c} {t} {v} w e = record {
  use_size = e.use_len ∙ sym e.frame_now;
  in_size = ap length e.in_now ∙ length-set c.in_replacer v false ∙ w.in_size ∙ sym e.frame_now;
  hot_size = ap length e.hot_now ∙ w.hot_size ∙ sym e.frame_now;
  hand_in = rw (e.hand_now, e.frame_now) (next_hand-lt c.frame_count v e.in_range);
}

-- A frame of the replacer is found by the second round.
Second-Evicted :
    (c : LayeredClock) (i : ℕ) {out : Run (LayeredClock × Option ℕ)} (w : IsWellFormed c)
    → i < c.frame_count
    → in_at c i ≡ true
    → Ends second_round hand_of c.frame_count c.clock_hand w.hand_in (Second c) out
    → (t : LayeredClock) × (v : ℕ) × (out ≡ done (t, some v)) × Evicted c t v
Second-Evicted c i w lt m (turned t e p back) =
    absurd (ground (arith, p.passed i lt (dist-lt c.frame_count c.clock_hand i w.hand_in lt)))
Second-Evicted c i w lt m (stopped s t v e b h p) =
    let (here, idle, after) = second-stop s t v b in
    (t, v, e, rw after (evict-Evicted c s v p.same here (rw here h) idle))

Same-Evicted : {c s t : LayeredClock} {v : ℕ} → Same c s → Evicted s t v → Evicted c t v
Same-Evicted {c} {s} {t} {v} p e = record {
  in_range = ground (arith, e.in_range, p.frame_same);
  was_in = ground (arith, e.was_in, ap (λ l. get_or l v false) p.in_same);
  in_now = e.in_now ∙ ap (λ l. set l v false) p.in_same;
  hot_now = e.hot_now ∙ p.hot_same;
  hand_now = e.hand_now ∙ ap (λ n. next_hand n v) p.frame_same;
  frame_now = e.frame_now ∙ p.frame_same;
  use_len = e.use_len ∙ p.frame_same;
}

Same-IsWellFormed :
    {c s : LayeredClock} → IsWellFormed c → Same c s → s.clock_hand ≡ c.clock_hand → IsWellFormed s
Same-IsWellFormed {c} {s} w p e = record {
  use_size = p.use_len ∙ sym p.frame_same;
  in_size = ap length p.in_same ∙ w.in_size ∙ sym p.frame_same;
  hot_size = ap length p.hot_same ∙ w.hot_size ∙ sym p.frame_same;
  hand_in = omega (arith, w.hand_in, p.frame_same);
}

-- How `Victim` ends: within the first round, or in the second one after a first that took none.
pub data Chosen (c : LayeredClock) (t : LayeredClock) (v : ℕ) : Type 0 where
  early :
      (s : Scan)
      → v ≡ s.clock.clock_hand
      → First c (dist c.frame_count c.clock_hand s.clock.clock_hand) s
      → (hot s.clock v ≡ false)
        ⊎ (hot s.clock v ≡ true) × (cold_eviction_priority ≤ s.cold_scan_count + 1)
      → is_idle s.clock v ≡ true
      → v < c.frame_count
      → Chosen c t v
  late : (s : Scan) → First c c.frame_count s → Chosen c t v

First-Evicted :
    (c : LayeredClock) (i : ℕ) {out : Run (Scan × Option ℕ)} (w : IsWellFormed c)
    → i < c.frame_count
    → in_at c i ≡ true
    → Ends first_round scan_hand c.frame_count c.clock_hand w.hand_in (First c) out
    → (t : LayeredClock) × (v : ℕ) × ((out >>= after_first) ≡ done (t, some v))
      × Evicted c t v
      × Chosen c t v
unfolding after_first
First-Evicted c i w lt m (stopped s t v e b h p) =
    let (here, idle, after, kind) = first-stop s t v b in
    (
      t.clock,
      v,
      rw e refl,
      rw after (evict-Evicted c s.clock v p.same here (rw here h) idle),
      early s here p kind idle (rw here h),
    )
First-Evicted c i {out} w lt m (turned s e p back) =
    let w' = Same-IsWellFormed w p.same back in
    let near = λ (j : ℕ) (l : j < s.clock.frame_count).
      dist-lt c.frame_count c.clock_hand j w.hand_in (omega (arith, l, p.same.frame_same)) in
    let unused : AllUnused s.clock = λ j l k.
      p.passed j (omega (arith, l, p.same.frame_same)) (near j l)
        (ground (arith, k, ap (λ b. get_or b j false) p.same.in_same)) in
    let (t, v, e', ev) =
      Second-Evicted s.clock i w' (omega (arith, lt, p.same.frame_same))
        (ground (arith, m, ap (λ b. get_or b i false) p.same.in_same))
        (turn-Ends second_round hand_of s.clock.frame_count s.clock.clock_hand w'.hand_in
          (Second s.clock) (Second-keep s.clock w' unused) s.clock (Second-start s.clock w' unused)
          refl) in
    (t, v, rw e e', Same-Evicted p.same ev, late s p)

pub count-pos :
    (bs : List Bool) → count bs ≢ 0 → (i : ℕ) × (i < length bs) × (get_or bs i false ≡ true)
unfolding count
count-pos [] n = absurd (n refl)
count-pos (true ∷ bs) n = (0, omega arith, refl)
count-pos (false ∷ bs) n = let (i, lt, e) = count-pos bs n in (suc i, omega arith, e)

pub rounds-Chosen :
    (c : LayeredClock) (i : ℕ)
    → IsWellFormed c
    → i < c.frame_count
    → in_at c i ≡ true
    → (t : LayeredClock) × (v : ℕ) × (rounds c ≡ done (t, some v)) × Evicted c t v × Chosen c t v
unfolding rounds
rounds-Chosen c i w lt m = First-Evicted c i w lt m (
    turn-Ends first_round scan_hand c.frame_count c.clock_hand w.hand_in (First c) (First-keep c w)
      (scan_of c) (First-start c w) refl)

-- While a frame is in a well-formed replacer, the two rounds of `Victim`, which follow its call of
-- `Size`, return with a frame. It was in the replacer, and is taken out of it; the other frames and all
-- temperatures are as before, the hand is behind the frame, and the replacer is well-formed again.
pub rounds-Evicted :
    (c : LayeredClock) (i : ℕ)
    → IsWellFormed c
    → i < c.frame_count
    → in_at c i ≡ true
    → (t : LayeredClock) × (v : ℕ) × (rounds c ≡ done (t, some v)) × Evicted c t v × IsWellFormed t
rounds-Evicted c i w lt m =
    let (t, v, e, ev, _) = rounds-Chosen c i w lt m in (t, v, e, ev, Evicted-IsWellFormed w ev)

-- What `Victim` answers: false if the replacer is empty, and else true with a frame of the replacer,
-- which is then taken out of it.
abbrev pub Answer : LayeredClock → LayeredClock × Option ℕ → Type 0
Answer c (t, none) = (t ≡ c) × ((i : ℕ) → in_at c i ≡ false)
Answer c (t, some v) = Evicted c t v

-- How a call of `Victim` ends: it waits for the mutex that it holds, if that may not be locked
-- twice, or it answers.
pub data Ended (reentrant : Bool) (c : LayeredClock) : Run (LayeredClock × Option ℕ) → Type 0 where
  waits : reentrant ≡ false → Ended reentrant c blocked
  answers :
      (r : LayeredClock × Option ℕ)
      → reentrant ≡ true
      → Answer c r
      → IsWellFormed r.0
      → Ended reentrant c (done r)

done-Ended :
    (c : LayeredClock) {out : Run (LayeredClock × Option ℕ)} (r : LayeredClock × Option ℕ)
    → out ≡ done r
    → Answer c r
    → IsWellFormed r.0
    → Ended true c out
done-Ended c r e answer w = rw e (answers r refl answer w)

pub victim-Ended :
    (reentrant : Bool) (c : LayeredClock) → IsWellFormed c → Ended reentrant c (victim reentrant c)
unfolding victim size
victim-Ended false c w = waits refl
victim-Ended true c w = elim (Bool-cases (nat_eqb (count c.in_replacer) 0)) [
  | inl z ↦ rw z (answers (c, none) refl (refl, λ i. count_zero c.in_replacer i (ground arith)) w)
  | inr z ↦
      let (i, lt, m) = count-pos c.in_replacer (ground arith) in
      let (t, v, e, ev, well) = rounds-Evicted c i w (omega (arith, lt, w.in_size)) m in
      rw z (done-Ended c (t, some v) e ev well)
]
