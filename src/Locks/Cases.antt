-- ===== src/Locks/Cases.antt =====
-- The ways through `LockShared` and `LockExclusive` (LockManager.cpp).
use altas_dbpro.Prelude.{
  ℕ, ◌≡◌, ◌≢◌, refl, ◌⊎◌, inl, inr, Bool, true, false, not, some, List, [], ◌∷◌, arith, nat_eq,
  nat_eqb_iff, Bool-cases,
}
use altas_dbpro.Prelude.Sets.{mem}
use altas_dbpro.Rid.{Rid, rid_eq}
use altas_dbpro.Locks.{
  LockType, touch, is_shared, is_exclusive, shared, exclusive, LockState, info_of, grant,
  lock_shared, lock_exclusive, has_none, held_by_others,
}

held_by_others-absent :
    (txn : ℕ) (hs : List ℕ) → mem txn hs ≡ false → held_by_others txn hs ≡ not (has_none hs)
unfolding held_by_others mem
held_by_others-absent txn [] m = refl
held_by_others-absent txn (h ∷ hs) m = ground (arith, nat_eqb_iff h txn)

-- The three ways through `LockShared` and `LockExclusive`, for the mode `mode` that is asked for and
-- the mode `foe` that refuses it.
pub data Taken (mode foe : LockType) (txn : ℕ) (rid : Rid) (s : LockState)
    : LockState × Bool → Type 0 where
  held : mem txn (info_of s rid).holders ≡ true → Taken mode foe txn rid s (touch rid s, true)
  refused :
      mem txn (info_of s rid).holders ≡ false
      → has_none (info_of s rid).holders ≡ false
      → (info_of s rid).lock_type ≡ foe
      → Taken mode foe txn rid s (touch rid s, false)
  taken :
      mem txn (info_of s rid).holders ≡ false
      → (has_none (info_of s rid).holders ≡ true) ⊎ ((info_of s rid).lock_type ≢ foe)
      → Taken mode foe txn rid s (grant mode txn rid s, true)

is_shared_lem : (m : LockType) → is_shared m ≡ true → m ≡ shared
is_shared_lem m e = ground arith

is_exclusive_lem : (m : LockType) → is_exclusive m ≡ true → m ≡ exclusive
is_exclusive_lem m e = ground arith

pub lock_shared-Taken :
    (txn : ℕ) (rid : Rid) (s : LockState)
    → Taken shared exclusive txn rid s (lock_shared (some txn) rid s)
unfolding lock_shared
lock_shared-Taken txn rid s = elim (Bool-cases (mem txn (info_of s rid).holders)) [
  | inl m ↦ rw m (held m)
  | inr m ↦
      let others = held_by_others-absent txn (info_of s rid).holders m in
      elim (Bool-cases (has_none (info_of s rid).holders)) [
        | inl e ↦ rw (m, others, e) (taken m (inl e))
        | inr e ↦ elim (Bool-cases (is_exclusive (info_of s rid).lock_type)) [
          | inl x ↦ rw (m, others, e, x) (refused m e (is_exclusive_lem _ x))
          | inr x ↦ rw (m, others, e, x) (taken m (inr (λ q. ground arith)))
        ]
      ]
]

pub lock_exclusive-Taken :
    (txn : ℕ) (rid : Rid) (s : LockState)
    → Taken exclusive shared txn rid s (lock_exclusive (some txn) rid s)
unfolding lock_exclusive
lock_exclusive-Taken txn rid s = elim (Bool-cases (mem txn (info_of s rid).holders)) [
  | inl m ↦ rw m (held m)
  | inr m ↦
      let others = held_by_others-absent txn (info_of s rid).holders m in
      elim (Bool-cases (has_none (info_of s rid).holders)) [
        | inl e ↦ rw (m, others, e) (taken m (inl e))
        | inr e ↦ elim (Bool-cases (is_shared (info_of s rid).lock_type)) [
          | inl x ↦ rw (m, others, e, x) (refused m e (is_shared_lem _ x))
          | inr x ↦ rw (m, others, e, x) (taken m (inr (λ q. ground arith)))
        ]
      ]
]
