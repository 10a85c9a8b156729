-- ===== src/Replacer/Layered/Tests.antt =====
-- LayeredClock.cpp on four frames.
use altas_dbpro.Prelude.{ℕ, ◌≡◌, refl, ◌≤◌, true, false, some, [], ◌∷◌, arith}
use altas_dbpro.Prelude.Run.{done}
use altas_dbpro.Replacer.Ring.{dist}
use altas_dbpro.Replacer.Layered.{LayeredClock, rounds}
use altas_dbpro.Replacer.Layered.Rounds.{IsWellFormed}
use altas_dbpro.Replacer.Layered.Victim.{Evicted, rounds-Evicted}
use altas_dbpro.Replacer.Layered.Priority.{IsPreferred, rounds-cold}

-- Frame 0 is hot, frame 1 pinned, frame 2 used lately and frame 3 cold.
abbrev clock : LayeredClock
clock = record {
  frame_count = 4;
  use_bits = false ∷ false ∷ true ∷ false ∷ [];
  in_replacer = true ∷ false ∷ true ∷ true ∷ [];
  is_hot = true ∷ true ∷ false ∷ false ∷ [];
  clock_hand = 0;
}

clock-IsWellFormed : IsWellFormed clock
clock-IsWellFormed = record {
  use_size = refl;
  in_size = refl;
  hot_size = refl;
  hand_in = omega arith;
}

rounds-Evicted_example :
    (t : LayeredClock) × (v : ℕ) × (rounds clock ≡ done (t, some v))
    × Evicted clock t v
    × IsWellFormed t
rounds-Evicted_example = rounds-Evicted clock 0 clock-IsWellFormed (omega arith) refl

rounds-cold_example :
    (t : LayeredClock) × (v : ℕ) × (rounds clock ≡ done (t, some v))
    × (dist 4 0 v ≤ dist 4 0 3)
    × IsPreferred clock v
rounds-cold_example = rounds-cold clock 3 clock-IsWellFormed (omega arith) refl refl
