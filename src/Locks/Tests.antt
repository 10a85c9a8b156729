-- ===== src/Locks/Tests.antt =====
-- LockManager.cpp on a history of calls.
use altas_dbpro.Prelude.{
  ℕ, ◌≡◌, refl, ◌≢◌, ◌↔◌, ◌⊎◌, inr, Bool, true, false, ◌||◌, ◌&&◌, not, some, List, [], ◌∷◌, nat_eq,
  nat_eqb, ℕ, arith,
}
use altas_dbpro.Prelude.Sets.{mem}
use altas_dbpro.Prelude.Ints.{pos, eqb_ℤ, int_eq}
use altas_dbpro.Rid.{Rid, rid_eq, rid_eqb}
use altas_dbpro.Transactions.{new_transaction}
use altas_dbpro.Locks.{
  LockState, grant, granted, held_by_others, exclusive, shared, info_of, lock_shared,
  lock_exclusive, unlock, Call, locks_shared, locks_exclusive, step, run,
}
use altas_dbpro.Locks.Invariant.{Inv, IsFresh, run-fresh-Inv}
use altas_dbpro.Locks.Grants.{lock_shared-granted_iff, lock_exclusive-granted_iff, holders-step}
use altas_dbpro.Locks.Exclusion.{IsExclusive, step-IsExclusive, lock_exclusive-shares}

abbrev fresh_state : LockState
fresh_state = record { table = []; txns = λ a. new_transaction (pos a) }

no_locks : IsFresh fresh_state
no_locks = (refl, λ t. refl)

abbrev first_rid : Rid
first_rid = record { page_id = pos 1; slot_num = pos 0 }

abbrev second_rid : Rid
second_rid = record { page_id = pos 1; slot_num = pos 1 }

-- Two transactions share the first record, and the second is locked exclusively.
abbrev history : List Call
history =
    locks_shared (some 1) first_rid
    ∷ locks_shared (some 2) first_rid
    ∷ locks_exclusive (some 3) second_rid
    ∷ []

abbrev busy : LockState
busy = run fresh_state history

run-fresh-Inv_example : Inv (run fresh_state history)
run-fresh-Inv_example = run-fresh-Inv fresh_state history no_locks

lock_shared-granted_iff_example : ((lock_shared (some 4) second_rid busy).1 ≡ true) ↔ (
    (mem 4 (info_of busy second_rid).holders ≡ true)
    ⊎ ((info_of busy second_rid).lock_type ≢ exclusive))
lock_shared-granted_iff_example = lock_shared-granted_iff busy 4 second_rid run-fresh-Inv_example

lock_exclusive-granted_iff_example : ((lock_exclusive (some 4) first_rid busy).1 ≡ true) ↔ (
    (mem 4 (info_of busy first_rid).holders ≡ true) ⊎ ((info_of busy first_rid).lock_type ≢ shared))
lock_exclusive-granted_iff_example =
    lock_exclusive-granted_iff busy 4 first_rid run-fresh-Inv_example

fresh-Inv : Inv fresh_state
unfolding run
fresh-Inv = run-fresh-Inv fresh_state [] no_locks

fresh-IsExclusive : (r : Rid) → IsExclusive fresh_state r
unfolding info_of altas_dbpro.Prelude.Maps.find
fresh-IsExclusive r = record { single = λ e t u m n. ground arith }

step-IsExclusive_example :
    IsExclusive (step fresh_state (locks_exclusive (some 3) second_rid)) second_rid
unfolding info_of altas_dbpro.Prelude.Maps.find
step-IsExclusive_example =
    step-IsExclusive fresh_state (locks_exclusive (some 3) second_rid) fresh-Inv fresh-IsExclusive
      (inr (λ e. ground arith)) second_rid

holders-step_example :
    (mem 1 (info_of (lock_shared (some 4) first_rid busy).0 first_rid).holders
      ≡ mem 1 (info_of busy first_rid).holders
        || ((nat_eqb 4 1) && (lock_shared (some 4) first_rid busy).1))
    × (mem 1 (info_of (lock_exclusive (some 4) first_rid busy).0 first_rid).holders
        ≡ mem 1 (info_of busy first_rid).holders
          || ((nat_eqb 4 1) && (lock_exclusive (some 4) first_rid busy).1))
    × (mem 1 (info_of (unlock (some 4) first_rid busy).0 first_rid).holders
        ≡ not (nat_eqb 4 1) && mem 1 (info_of busy first_rid).holders)
holders-step_example = holders-step busy 4 1 first_rid

second_entry :
    ((info_of busy second_rid).lock_type ≡ exclusive) × ((info_of busy second_rid).holders ≡ 3 ∷ [])
unfolding run step info_of lock_shared lock_exclusive grant altas_dbpro.Prelude.Maps.find
    altas_dbpro.Prelude.Maps.put mem altas_dbpro.Prelude.Sets.insert rid_eqb eqb_ℤ granted
    held_by_others
second_entry = (refl, refl)

first_entry :
    ((info_of busy first_rid).lock_type ≡ shared) × (mem 1 (info_of busy first_rid).holders ≡ true)
unfolding run step info_of lock_shared lock_exclusive grant altas_dbpro.Prelude.Maps.find
    altas_dbpro.Prelude.Maps.put mem altas_dbpro.Prelude.Sets.insert rid_eqb eqb_ℤ granted
    held_by_others
first_entry = (refl, refl)

lock_exclusive-shares_example :
    ((lock_exclusive (some 4) second_rid busy).1 ≡ true)
    × ((info_of (lock_exclusive (some 4) second_rid busy).0 second_rid).lock_type ≡ exclusive)
    × (mem 3 (info_of (lock_exclusive (some 4) second_rid busy).0 second_rid).holders ≡ true)
    × (mem 4 (info_of (lock_exclusive (some 4) second_rid busy).0 second_rid).holders ≡ true)
lock_exclusive-shares_example =
    lock_exclusive-shares busy 4 3 second_rid second_entry.0
      (rw second_entry.1 (unfold mem in refl)) (rw second_entry.1 (unfold mem in refl))
