-- ===== src/Replacer/Layered/Priority.antt =====
-- How `LayeredClock::Victim` (LayeredClock.cpp) prefers cold pages.
use altas_dbpro.Prelude.{ℕ, suc, ◌+◌, ◌≤◌, ◌<◌, ◌≡◌, refl, ◌⊎◌, inl, inr, true, false, some, arith}
use altas_dbpro.Prelude.Run.{done}
use altas_dbpro.Replacer.Ring.{dist, dist-lt}
use altas_dbpro.Replacer.Layered.{LayeredClock, cold_eviction_priority, rounds}
use altas_dbpro.Replacer.Layered.Rounds.{IsWellFormed, hot, is_idle, frame_at, hot_seen}
use altas_dbpro.Replacer.Layered.Victim.{Chosen, early, late, rounds-Chosen, under_hand}

-- A cold victim, or a hot one that is the fifth idle and hot frame from the hand on.
abbrev pub IsPreferred : LayeredClock → ℕ → Type 0
IsPreferred c v =
    (hot c v ≡ false)
    ⊎ (hot c v ≡ true)
      × (hot_seen c (suc (dist c.frame_count c.clock_hand v)) ≡ cold_eviction_priority)

hot_seen-suc :
    (c : LayeredClock) (k i : ℕ)
    → i ≡ frame_at c k
    → is_idle c i ≡ true
    → hot c i ≡ true
    → hot_seen c (suc k) ≡ hot_seen c k + 1
unfolding hot_seen
hot_seen-suc c k i e idle h = rw (← e, idle, h) refl

Chosen-IsPreferred :
    (c t : LayeredClock) (v j : ℕ)
    → IsWellFormed c
    → j < c.frame_count
    → is_idle c j ≡ true
    → hot c j ≡ false
    → Chosen c t v
    → (dist c.frame_count c.clock_hand v ≤ dist c.frame_count c.clock_hand j) × IsPreferred c v
Chosen-IsPreferred c t v j w lt idle cold (late s p) =
    absurd (ground (arith, p.no_cold j lt (dist-lt c.frame_count c.clock_hand j w.hand_in lt)))
Chosen-IsPreferred c t v j w lt idle cold (early s here p kind idle_v in_range) =
    let k = dist c.frame_count c.clock_hand s.clock.clock_hand in
    let (idle_same, hot_same, _, _) = under_hand c w k s p (ground (arith, in_range, here)) refl in
    (
      ground (arith, p.no_cold j lt, here),
      rw here (elim kind [
        | inl cold_v ↦ inl (ground (arith, here))
        | inr (hot_v, many) ↦
            let hot_c : hot c s.clock.clock_hand ≡ true = ground (arith, here) in
            let idle_c : is_idle c s.clock.clock_hand ≡ true = ground (arith, here) in
            inr (
              hot_c,
              omega (
                arith,
                hot_seen-suc c k s.clock.clock_hand p.at idle_c hot_c,
                p.counted,
                p.few,
                many,
              ),
            )
      ]),
    )

-- On a well-formed replacer, while a cold frame `j` of the replacer has not been used since the hand
-- passed it, the two rounds of `Victim` return and take a frame that is no further from the hand than
-- `j`. It is cold itself, or it is the fifth hot frame from the hand on that is in the replacer and has
-- not been used.
pub rounds-cold :
    (c : LayeredClock) (j : ℕ)
    → IsWellFormed c
    → j < c.frame_count
    → is_idle c j ≡ true
    → hot c j ≡ false
    → (t : LayeredClock) × (v : ℕ) × (rounds c ≡ done (t, some v))
      × (dist c.frame_count c.clock_hand v ≤ dist c.frame_count c.clock_hand j)
      × IsPreferred c v
rounds-cold c j w lt idle cold =
    let (t, v, e, _, chosen) = rounds-Chosen c j w lt (ground arith) in
    let (near, kind) = Chosen-IsPreferred c t v j w lt idle cold chosen in (t, v, e, near, kind)
