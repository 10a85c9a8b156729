-- ===== src/Locks/Grants.antt =====
-- When LockManager.cpp grants a lock, and what a call changes.
use altas_dbpro.Prelude.{
  ℕ, ◌≡◌, ◌≢◌, refl, ◌↔◌, ◌⊎◌, inl, inr, Bool, true, not, ◌&&◌, ◌||◌, none, some, List, [], ◌∷◌,
  arith, ◌==◌, nat_eq, nat_eqb_iff,
}
use altas_dbpro.Prelude.Sets.{mem, mem-insert, mem-erase}
use altas_dbpro.Rid.{Rid, rid_eq, rid_eqb_iff}
use altas_dbpro.Locks.{
  LockType, unlocked, shared, exclusive, LockState, info_of, granted, lock_shared, lock_exclusive,
  has_none, unlock, Call, locks_shared, locks_exclusive, unlocks, step,
}
use altas_dbpro.Locks.Cases.{Taken, held, refused, taken, lock_shared-Taken, lock_exclusive-Taken}
use altas_dbpro.Locks.Invariant.{
  Inv, info_of-touch, info_of-grant, info_of-unlock, holders-released,
}

pub has_none_lem : (hs : List ℕ) → has_none hs ≡ true → hs ≡ []
has_none_lem [] e = refl
has_none_lem (h ∷ hs) e = absurd (ground arith)

-- The answer of a call, told by the entry before it.
Taken-granted :
    {mode foe : LockType} {txn : ℕ} {rid : Rid} {s : LockState} {r : LockState × Bool}
    → (foe ≡ unlocked → ⊥)
    → Inv s
    → Taken mode foe txn rid s r
    → (r.1 ≡ true) ↔ ((mem txn (info_of s rid).holders ≡ true) ⊎ ((info_of s rid).lock_type ≢ foe))
Taken-granted real h (held m) = (λ _. inl m, λ _. refl)
Taken-granted real h (refused m e x) =
    (λ f. absurd (ground arith), λ c. absurd (elim c [ inl m' ↦ ground arith | inr n ↦ n x ]))
Taken-granted {foe = foe} {rid = rid} {s = s} real h (taken m c) = (
  λ _. elim c [
    | inr n ↦ inr n
    | inl e ↦ inr (λ x. real (ground (arith, has_none_lem (info_of s rid).holders, h.typed rid)))
  ],
  λ _. refl,
)

-- Where the lock table and the transactions agree, `LockShared` grants if and only if the transaction is among the holders already, or the record is
-- not in exclusive mode.
pub lock_shared-granted_iff :
    (s : LockState) (txn : ℕ) (rid : Rid)
    → Inv s
    → ((lock_shared (some txn) rid s).1 ≡ true)
      ↔ ((mem txn (info_of s rid).holders ≡ true) ⊎ ((info_of s rid).lock_type ≢ exclusive))
lock_shared-granted_iff s txn rid h =
    Taken-granted (λ e. ground arith) h (lock_shared-Taken txn rid s)

-- Where the lock table and the transactions agree, `LockExclusive` grants if and only if the transaction is among the holders already, in whatever
-- mode, or the record is not in shared mode.
pub lock_exclusive-granted_iff :
    (s : LockState) (txn : ℕ) (rid : Rid)
    → Inv s
    → ((lock_exclusive (some txn) rid s).1 ≡ true)
      ↔ ((mem txn (info_of s rid).holders ≡ true) ⊎ ((info_of s rid).lock_type ≢ shared))
lock_exclusive-granted_iff s txn rid h =
    Taken-granted (λ e. ground arith) h (lock_exclusive-Taken txn rid s)

-- Who holds the record afterwards: all that held it before, and the caller if it was granted.
Taken-holders :
    {mode foe : LockType} {txn : ℕ} {rid : Rid} {s : LockState} {r : LockState × Bool} (t : ℕ)
    → Taken mode foe txn rid s r
    → mem t (info_of r.0 rid).holders ≡ mem t (info_of s rid).holders || ((txn == t) && r.1)
Taken-holders {txn = txn} {rid = rid} {s = s} t (held m) =
    ground (arith, info_of-touch s rid rid, nat_eqb_iff txn t)
Taken-holders {rid = rid} {s = s} t (refused m e x) = ground (arith, info_of-touch s rid rid)
Taken-holders {mode} {foe} {txn} {rid} {s} t (taken m c) =
    unfold granted in
    (ground (
      arith,
      info_of-grant mode txn rid rid s,
      rid_eqb_iff rid rid,
      mem-insert t txn (info_of s rid).holders,
    ))

-- After `LockShared` or `LockExclusive` the holders of the record are those from before, and the
-- caller if the call was granted; after `Unlock` they are those from before without the caller.
pub holders-step :
    (s : LockState) (txn t : ℕ) (rid : Rid)
    → (mem t (info_of (lock_shared (some txn) rid s).0 rid).holders
        ≡ mem t (info_of s rid).holders || ((txn == t) && (lock_shared (some txn) rid s).1))
      × (mem t (info_of (lock_exclusive (some txn) rid s).0 rid).holders
          ≡ mem t (info_of s rid).holders || ((txn == t) && (lock_exclusive (some txn) rid s).1))
      × (mem t (info_of (unlock (some txn) rid s).0 rid).holders
          ≡ not (txn == t) && mem t (info_of s rid).holders)
holders-step s txn t rid = (
  Taken-holders t (lock_shared-Taken txn rid s),
  Taken-holders t (lock_exclusive-Taken txn rid s),
  ground (
    arith,
    info_of-unlock txn rid rid s,
    rid_eqb_iff rid rid,
    holders-released txn (info_of s rid),
    mem-erase t txn (info_of s rid).holders,
  ),
)

abbrev pub record_of : Call → Rid
record_of (locks_shared txn rid) = rid
record_of (locks_exclusive txn rid) = rid
record_of (unlocks txn rid) = rid

Taken-frame :
    {mode foe : LockType} {txn : ℕ} {rid : Rid} {s : LockState} {q : LockState × Bool} (r : Rid)
    → rid ≢ r
    → Taken mode foe txn rid s q
    → info_of q.0 r ≡ info_of s r
Taken-frame {rid = rid} {s = s} r n (held m) = info_of-touch s rid r
Taken-frame {rid = rid} {s = s} r n (refused m e x) = info_of-touch s rid r
Taken-frame {mode} {foe} {txn} {rid} {s} r n (taken m c) =
    ground (arith, info_of-grant mode txn rid r s, rid_eqb_iff rid r)

-- A call leaves the entries of all other records as they were.
pub step-frame :
    (s : LockState) (c : Call) (r : Rid) → record_of c ≢ r → info_of (step s c) r ≡ info_of s r
unfolding step lock_shared lock_exclusive unlock
step-frame s (locks_shared none rid) r n = refl
step-frame s (locks_shared (some txn) rid) r n = Taken-frame r n (lock_shared-Taken txn rid s)
step-frame s (locks_exclusive none rid) r n = refl
step-frame s (locks_exclusive (some txn) rid) r n = Taken-frame r n (lock_exclusive-Taken txn rid s)
step-frame s (unlocks none rid) r n = refl
step-frame s (unlocks (some txn) rid) r n =
    ground (arith, info_of-unlock txn rid r s, rid_eqb_iff rid r)
