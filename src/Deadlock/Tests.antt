-- ===== src/Deadlock/Tests.antt =====
-- DeadLockDector.cpp on single wait-for graphs.
use altas_dbpro.Prelude.{◌≡◌, refl, ◌↔◌, ◌⊎◌, ◌≢◌, Bool, true, false, Option, some, List, [], ◌∷◌}
use altas_dbpro.Prelude.Ints.{ℤ, pos, eqb_ℤ, int_eq}
use altas_dbpro.Prelude.Maps.{IsMap}
use altas_dbpro.Deadlock.{
  WaitGraph, detect_cycle, has_deadlock, get_victim, add_edge, remove_edge, remove_txn,
}
use altas_dbpro.Deadlock.Correct.{HasCycle, Verdict, has_deadlock_iff, detect_cycle_decides}
use altas_dbpro.Deadlock.Victim.{Victim, get_victim_lem}

-- 4 waits for 1, and 1, 2, 3 wait for each other in a ring.
abbrev ring : WaitGraph
ring = (pos 4, pos 1 ∷ []) ∷ (pos 1, pos 2 ∷ []) ∷ (pos 2, pos 3 ∷ []) ∷ (pos 3, pos 1 ∷ []) ∷ []

has_deadlock_iff_example : (b : Bool) × (has_deadlock ring ≡ some b) × ((b ≡ true) ↔ HasCycle ring)
has_deadlock_iff_example = has_deadlock_iff ring

detect_cycle_decides_example :
    (found : Bool) × (c : List ℤ) × (detect_cycle ring ≡ some (found, c)) × Verdict ring found c
detect_cycle_decides_example = detect_cycle_decides ring

get_victim_lem_example : (v : Option ℤ) × (get_victim ring ≡ some v) × Victim ring v
get_victim_lem_example = get_victim_lem ring

ring-IsMap : IsMap ring
unfolding altas_dbpro.Prelude.Maps.find eqb_ℤ
ring-IsMap = (refl, (refl, (refl, (refl, tt))))

get_victim-ring : get_victim ring ≡ some (some (pos 3))
unfolding get_victim detect_cycle altas_dbpro.Deadlock.each_root altas_dbpro.Prelude.Sets.mem
    altas_dbpro.Deadlock.dfs_cycle altas_dbpro.Deadlock.each_edge altas_dbpro.Deadlock.waits_for
    eqb_ℤ altas_dbpro.Deadlock.enter altas_dbpro.Prelude.Sets.insert altas_dbpro.Deadlock.leave
    altas_dbpro.Deadlock.report altas_dbpro.Deadlock.suffix_from altas_dbpro.Deadlock.max_txn
    altas_dbpro.Prelude.Ints.ltb_ℤ
get_victim-ring = refl
