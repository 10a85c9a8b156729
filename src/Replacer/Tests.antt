-- ===== src/Replacer/Tests.antt =====
-- The replacers of MiniDB/src/buffer on four frames.
use altas_dbpro.Prelude.{ℕ, ◌≡◌, refl, true, false, Option, some, [], ◌∷◌, arith}
use altas_dbpro.Prelude.Run.{done}
use altas_dbpro.Replacer.Ring.{dist, map_out}
use altas_dbpro.Replacer.Clock.{Clock}
use altas_dbpro.Replacer.Clock
use altas_dbpro.Replacer.Clock.Victim.{Choice, IsWellFormed, turn-Choice}
use altas_dbpro.Replacer.ClockPro.{ClockPro}
use altas_dbpro.Replacer.ClockPro
use altas_dbpro.Replacer.ClockPro.View.{view, victim-view}

-- Frame 0 was used lately, frame 1 is pinned and frame 2 is idle.
abbrev clock : Clock
clock = record {
  frame = 3;
  use_bits = true ∷ false ∷ false ∷ [];
  in_replacer = true ∷ false ∷ true ∷ [];
  clock_hand = 0;
}

clock-IsWellFormed : IsWellFormed clock
clock-IsWellFormed = record { use_size = refl; in_size = refl; hand_in = omega arith }

turn-Choice_example :
    (r : Clock × Option ℕ) × (Clock.turn clock ≡ done r)
    × Choice clock r
    × IsWellFormed r.0
    × (r.0.frame ≡ 3)
turn-Choice_example = turn-Choice clock clock-IsWellFormed

abbrev pro : ClockPro
pro = record {
  frame = 3;
  u_bits = true ∷ false ∷ false ∷ [];
  p_bits = true ∷ true ∷ true ∷ [];
  in_replacer = true ∷ false ∷ true ∷ [];
  clock_hand = 0;
}

victim-view_example : Clock.victim true (view pro) ≡ map_out view (ClockPro.victim true pro)
victim-view_example = victim-view true pro

abbrev pro_after : ClockPro
pro_after = record {
  frame = 3;
  u_bits = false ∷ false ∷ false ∷ [];
  p_bits = true ∷ true ∷ false ∷ [];
  in_replacer = true ∷ false ∷ false ∷ [];
  clock_hand = 0;
}

victim-pro : ClockPro.victim true pro ≡ done (pro_after, some 2)
unfolding ClockPro.victim altas_dbpro.Replacer.Ring.around ClockPro.examine
victim-pro = refl
