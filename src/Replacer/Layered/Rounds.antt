-- ===== src/Replacer/Layered/Rounds.antt =====
-- The two loops of `LayeredClock::Victim` (LayeredClock.cpp): what one pass of each does.
use altas_dbpro.Prelude.{
  ℕ, zero, suc, ◌+◌, ◌≤◌, ◌<◌, ◌≡◌, ◌⊎◌, Bool, true, false, not, ◌&&◌, List, arith, if◌then◌else◌,
  nat_eq, length, get_or, set,
}
use altas_dbpro.Replacer.Ring.{next_hand, dist, stop, go}
use altas_dbpro.Replacer.Layered.{
  LayeredClock, Scan, evict, first_round, second_round, cold_eviction_priority,
}

-- The vectors have an entry for each frame, and the hand points at a frame.
pub record IsWellFormed (c : LayeredClock) : Type 0 where
  pub use_size : length c.use_bits ≡ c.frame_count
  pub in_size : length c.in_replacer ≡ c.frame_count
  pub hot_size : length c.is_hot ≡ c.frame_count
  pub hand_in : c.clock_hand < c.frame_count

abbrev pub in_at : LayeredClock → ℕ → Bool
in_at c i = get_or c.in_replacer i false

abbrev pub used : LayeredClock → ℕ → Bool
used c i = get_or c.use_bits i false

abbrev pub hot : LayeredClock → ℕ → Bool
hot c i = get_or c.is_hot i false

-- In the replacer and not used since the last pass of the hand.
abbrev pub is_idle : LayeredClock → ℕ → Bool
is_idle c i = in_at c i && not (used c i)

-- What a pass of either loop that goes on leaves alone.
pub record Same (c s : LayeredClock) : Type 0 where
  pub frame_same : s.frame_count ≡ c.frame_count
  pub in_same : s.in_replacer ≡ c.in_replacer
  pub hot_same : s.is_hot ≡ c.is_hot
  pub use_len : length s.use_bits ≡ c.frame_count

-- How many of the first `k` frames from the hand on are idle and hot.
unfoldable pub frame_at : LayeredClock → ℕ → ℕ
frame_at c zero = c.clock_hand
frame_at c (suc k) = next_hand c.frame_count (frame_at c k)

unfoldable pub hot_seen : LayeredClock → ℕ → ℕ
unfolding frame_at
hot_seen c zero = 0
hot_seen c (suc k) =
    hot_seen c k + (if is_idle c (frame_at c k) && hot c (frame_at c k) then 1 else 0)

-- The first round after `k` frames from `c`.
pub record First (c : LayeredClock) (k : ℕ) (s : Scan) : Type 0 where
  pub same : Same c s.clock
  pub at : s.clock.clock_hand ≡ frame_at c k
  pub counted : s.cold_scan_count ≡ hot_seen c k
  pub few : hot_seen c k < cold_eviction_priority
  -- A frame that was passed and is in the replacer is not marked as used now.
  pub passed :
      (i : ℕ)
      → i < c.frame_count
      → dist c.frame_count c.clock_hand i < k
      → in_at c i ≡ true
      → used s.clock i ≡ false
  pub ahead :
      (i : ℕ)
      → i < c.frame_count
      → k ≤ dist c.frame_count c.clock_hand i
      → used s.clock i ≡ used c i
  -- No frame that was passed was idle and cold.
  pub no_cold :
      (i : ℕ)
      → i < c.frame_count
      → dist c.frame_count c.clock_hand i < k
      → is_idle c i ≡ true
      → hot c i ≡ true

abbrev cleared : LayeredClock → List Bool
cleared c =
    if in_at c c.clock_hand && used c c.clock_hand
    then set c.use_bits c.clock_hand false
    else c.use_bits

pub first-go :
    (s t : Scan)
    → first_round s ≡ go t
    → (t.clock.frame_count ≡ s.clock.frame_count)
      × (t.clock.in_replacer ≡ s.clock.in_replacer)
      × (t.clock.is_hot ≡ s.clock.is_hot)
      × (t.clock.use_bits ≡ cleared s.clock)
      × (t.clock.clock_hand ≡ next_hand s.clock.frame_count s.clock.clock_hand)
      × (t.cold_scan_count
          ≡ s.cold_scan_count
            + (if is_idle s.clock s.clock.clock_hand && hot s.clock s.clock.clock_hand
                then 1
                else 0))
      × (t.cold_scan_count < cold_eviction_priority ⊎ (t.cold_scan_count ≡ s.cold_scan_count))
      × ((is_idle s.clock s.clock.clock_hand ≡ false) ⊎ (hot s.clock s.clock.clock_hand ≡ true))
unfolding first_round
first-go s t e = ground arith

pub first-stop :
    (s t : Scan) (v : ℕ)
    → first_round s ≡ stop t v
    → (v ≡ s.clock.clock_hand)
      × (is_idle s.clock v ≡ true)
      × (t.clock ≡ evict s.clock)
      × ((hot s.clock v ≡ false)
          ⊎ (hot s.clock v ≡ true) × (cold_eviction_priority ≤ s.cold_scan_count + 1))
unfolding first_round
first-stop s t v e = ground arith

pub second-go :
    (s t : LayeredClock)
    → second_round s ≡ go t
    → (t.frame_count ≡ s.frame_count)
      × (t.in_replacer ≡ s.in_replacer)
      × (t.is_hot ≡ s.is_hot)
      × (t.use_bits
          ≡ (if used s s.clock_hand then set s.use_bits s.clock_hand false else s.use_bits))
      × (t.clock_hand ≡ next_hand s.frame_count s.clock_hand)
      × (is_idle s s.clock_hand ≡ false)
unfolding second_round
second-go s t e = ground arith

pub second-stop :
    (s t : LayeredClock) (v : ℕ)
    → second_round s ≡ stop t v
    → (v ≡ s.clock_hand) × (is_idle s v ≡ true) × (t ≡ evict s)
unfolding second_round
second-stop s t v e = ground arith
