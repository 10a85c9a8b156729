-- ===== src/Locks/Invariant.antt =====
-- The two records of who holds what (LockManager.cpp, Transaction.cpp) agree after every history.
use altas_dbpro.Prelude.{
  ℕ, ◌≡◌, refl, ◌↔◌, inl, inr, Bool, not, ◌&&◌, ◌||◌, none, some, List, [], ◌∷◌, arith,
  if◌then◌else◌, ◌==◌, nat_eq, nat_eqb_iff, Option-cases,
}
use altas_dbpro.Prelude.Sets.{mem, insert, erase, mem-insert, mem-erase}
use altas_dbpro.Prelude.Maps.{find, find-put}
use altas_dbpro.Rid.{Rid, rid_eq, rid_eqb_iff}
use altas_dbpro.Transactions.{update, add_lock, remove_lock, has_lock}
use altas_dbpro.Locks.Cases.{Taken, held, refused, taken, lock_shared-Taken, lock_exclusive-Taken}
use altas_dbpro.Locks.{
  LockType, granted, unlocked, LockInfo, new_info, LockState, info_of, grant, set_info, lock_shared,
  lock_exclusive, released, release_entry, unlock, Call, locks_shared, locks_exclusive, unlocks,
  step, run, or_new,
}

pub record Inv (s : LockState) : Type 0 where
  -- A transaction lists a lock exactly if the lock's entry lists the transaction.
  pub mirror : (t : ℕ) (r : Rid) → has_lock r (s.txns t) ≡ mem t (info_of s r).holders
  -- A record without holders has no mode, and one with holders has one.
  pub typed : (r : Rid) → ((info_of s r).lock_type ≡ unlocked) ↔ ((info_of s r).holders ≡ [])

pub info_of-set_info :
    (s : LockState) (rid r : Rid) (info : LockInfo)
    → info_of (set_info rid info s) r ≡ (if rid == r then info else info_of s r)
unfolding info_of
info_of-set_info s rid r info = ground (arith, find-put rid r info s.table)

-- Putting back the entry that was read changes nothing.
pub info_of-touch :
    (s : LockState) (rid r : Rid) → info_of (set_info rid (info_of s rid) s) r ≡ info_of s r
info_of-touch s rid r = ground (arith, info_of-set_info s rid r (info_of s rid), rid_eqb_iff rid r)

touch-Inv : (s : LockState) (rid : Rid) → Inv s → Inv (set_info rid (info_of s rid) s)
touch-Inv s rid h = record {
  mirror = λ t r. rw (info_of-touch s rid r) (h.mirror t r);
  typed = λ r. rw (info_of-touch s rid r) (h.typed r);
}

pub info_of-grant :
    (mode : LockType) (txn : ℕ) (rid r : Rid) (s : LockState)
    → info_of (grant mode txn rid s) r
      ≡ (if rid == r then granted mode txn (info_of s rid) else info_of s r)
unfolding grant info_of
info_of-grant mode txn rid r s =
    ground (arith, find-put rid r (granted mode txn (or_new (find rid s.table))) s.table)

insert-cons : (txn : ℕ) (hs : List ℕ) → insert txn hs ≡ [] → ⊥
unfolding insert mem
insert-cons txn [] e = ground arith
insert-cons txn (h ∷ hs) e = ground arith

has_lock-grant :
    (mode : LockType) (txn t : ℕ) (rid r : Rid) (s : LockState)
    → has_lock r ((grant mode txn rid s).txns t)
      ≡ (if txn == t then (rid == r) || has_lock r (s.txns t) else has_lock r (s.txns t))
unfolding grant update add_lock has_lock
has_lock-grant mode txn t rid r s =
    ground (arith, nat_eqb_iff txn t, mem-insert r rid (s.txns txn).locks_held)

grant-Inv :
    (mode : LockType) (txn : ℕ) (rid : Rid) (s : LockState)
    → (mode ≡ unlocked → ⊥)
    → Inv s
    → Inv (grant mode txn rid s)
unfolding granted
grant-Inv mode txn rid s real h = record {
  mirror = λ t r. ground (
    arith,
    has_lock-grant mode txn t rid r s,
    info_of-grant mode txn rid r s,
    mem-insert t txn (info_of s rid).holders,
    h.mirror t r,
    rid_eqb_iff rid r,
  );
  typed = λ r. ground (
    arith,
    info_of-grant mode txn rid r s,
    insert-cons txn (info_of s rid).holders,
    h.typed r,
    real,
  );
}

Taken-Inv :
    {mode foe : LockType} {txn : ℕ} {rid : Rid} {s : LockState} {r : LockState × Bool}
    → (mode ≡ unlocked → ⊥)
    → Taken mode foe txn rid s r
    → Inv s
    → Inv r.0
Taken-Inv {rid = rid} {s = s} real (held m) h = touch-Inv s rid h
Taken-Inv {rid = rid} {s = s} real (refused m e x) h = touch-Inv s rid h
Taken-Inv {mode} {foe} {txn} {rid} {s} real (taken m x) h = grant-Inv mode txn rid s real h

released_new : (txn : ℕ) → released txn new_info ≡ new_info
unfolding released erase
released_new txn = refl

pub info_of-release :
    (txn : ℕ) (rid r : Rid) (s : LockState)
    → info_of (release_entry txn rid s) r
      ≡ (if rid == r then released txn (info_of s rid) else info_of s r)
unfolding release_entry info_of
info_of-release txn rid r s = elim (Option-cases (find rid s.table)) [
  | inl e ↦ ground (arith, e, released_new txn, rid_eqb_iff rid r)
  | inr (info, e) ↦ ground (arith, e, find-put rid r (released txn info) s.table)
]

pub holders-released :
    (txn : ℕ) (info : LockInfo) → (released txn info).holders ≡ erase txn info.holders
unfolding released
holders-released txn info = ground arith

type-released :
    (txn : ℕ) (info : LockInfo)
    → (info.lock_type ≡ unlocked) ↔ (info.holders ≡ [])
    → ((released txn info).lock_type ≡ unlocked) ↔ (erase txn info.holders ≡ [])
unfolding released
type-released txn info h = ground (arith, erase_nil txn)
  where
    erase_nil : (t : ℕ) → erase t [] ≡ []
    erase_nil t = unfold erase in refl

txns-release : (txn : ℕ) (rid : Rid) (s : LockState) → (release_entry txn rid s).txns ≡ s.txns
unfolding release_entry
txns-release txn rid s = ground arith

has_lock-unlock :
    (txn t : ℕ) (rid r : Rid) (s : LockState)
    → has_lock r ((unlock (some txn) rid s).0.txns t)
      ≡ (if txn == t then not (rid == r) && has_lock r (s.txns t) else has_lock r (s.txns t))
unfolding unlock update remove_lock has_lock
has_lock-unlock txn t rid r s =
    rw (txns-release txn rid s)
      (ground (arith, nat_eqb_iff txn t, mem-erase r rid (s.txns txn).locks_held))

pub info_of-unlock :
    (txn : ℕ) (rid r : Rid) (s : LockState)
    → info_of (unlock (some txn) rid s).0 r
      ≡ (if rid == r then released txn (info_of s rid) else info_of s r)
unfolding unlock info_of
info_of-unlock txn rid r s = info_of-release txn rid r s

unlock-Inv : (txn : ℕ) (rid : Rid) (s : LockState) → Inv s → Inv (unlock (some txn) rid s).0
unlock-Inv txn rid s h = record {
  mirror = λ t r. ground (
    arith,
    has_lock-unlock txn t rid r s,
    info_of-unlock txn rid r s,
    holders-released txn (info_of s rid),
    mem-erase t txn (info_of s rid).holders,
    h.mirror t r,
    rid_eqb_iff rid r,
  );
  typed = λ r. ground (
    arith,
    info_of-unlock txn rid r s,
    holders-released txn (info_of s rid),
    type-released txn (info_of s rid) (h.typed rid),
    h.typed r,
    rid_eqb_iff rid r,
  );
}

-- Each call of `LockShared`, `LockExclusive` and `Unlock`, granted or not and with a null transaction
-- too, keeps the locks of the transactions and the holders of the records in agreement, and a record
-- in a mode exactly while it has holders.
pub step-Inv : (s : LockState) (c : Call) → Inv s → Inv (step s c)
unfolding step lock_shared lock_exclusive unlock
step-Inv s (locks_shared none rid) h = h
step-Inv s (locks_shared (some txn) rid) h =
    Taken-Inv (λ e. ground arith) (lock_shared-Taken txn rid s) h
step-Inv s (locks_exclusive none rid) h = h
step-Inv s (locks_exclusive (some txn) rid) h =
    Taken-Inv (λ e. ground arith) (lock_exclusive-Taken txn rid s) h
step-Inv s (unlocks none rid) h = h
step-Inv s (unlocks (some txn) rid) h = unlock-Inv txn rid s h

run-Inv : (s : LockState) (cs : List Call) → Inv s → Inv (run s cs)
unfolding run
run-Inv s [] h = h
run-Inv s (c ∷ cs) h = run-Inv (step s c) cs (step-Inv s c h)

-- An empty lock table, and transactions that hold nothing yet.
abbrev pub IsFresh : LockState → Type 0
IsFresh s = (s.table ≡ []) × ((t : ℕ) → (s.txns t).locks_held ≡ [])

-- From an empty lock table and transactions without locks, after every history of calls, a
-- transaction lists a lock exactly if it is among the holders of the record, and a record is in no
-- mode exactly if it has no holders.
pub run-fresh-Inv : (s : LockState) (cs : List Call) → IsFresh s → Inv (run s cs)
run-fresh-Inv s cs h = run-Inv s cs start
  where
    start : Inv s
    start = record {
      mirror = λ t r. unfold info_of has_lock mem find in (ground (arith, h.0, h.1 t));
      typed = λ r. unfold info_of find in (ground (arith, h.0));
    }
