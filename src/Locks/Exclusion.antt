-- ===== src/Locks/Exclusion.antt =====
-- The holders of a record in exclusive mode (LockManager.cpp).
use altas_dbpro.Prelude.{
  ℕ, ◌≡◌, ◌≢◌, refl, ◌⊎◌, inl, inr, Bool, true, false, none, some, List, [], arith, nat_eq,
  nat_eqb_iff, Bool-cases, ap, sym, ◌∙◌,
}
use altas_dbpro.Prelude.Sets.{mem, insert, mem-insert, mem-erase}
use altas_dbpro.Rid.{Rid, rid_eq, rid_eqb, rid_eqb_iff}
use altas_dbpro.Locks.{
  LockType, unlocked, shared, exclusive, LockState, info_of, grant, granted, touch, lock_shared,
  lock_exclusive, has_none, unlock, released, Call, locks_shared, locks_exclusive, unlocks, step,
}
use altas_dbpro.Locks.Cases.{Taken, held, refused, taken, lock_shared-Taken, lock_exclusive-Taken}
use altas_dbpro.Locks.Invariant.{
  Inv, info_of-touch, info_of-grant, info_of-unlock, holders-released,
}
use altas_dbpro.Locks.Grants.{has_none_lem}

-- In exclusive mode a record has at most one holder.
pub record IsExclusive (s : LockState) (r : Rid) : Type 0 where
  pub single :
      (info_of s r).lock_type ≡ exclusive
      → (t u : ℕ) → mem t (info_of s r).holders ≡ true
      → mem u (info_of s r).holders ≡ true
      → t ≡ u

-- A request for exclusive mode comes from a holder, or while the mode is not exclusive.
abbrev pub IsCautious : LockState → Call → Type 0
IsCautious s (locks_exclusive (some txn) rid) =
    (mem txn (info_of s rid).holders ≡ true) ⊎ ((info_of s rid).lock_type ≢ exclusive)
IsCautious s _ = Unit

-- An entry that was not made exclusive has no holder that it did not have.
kept :
    (s s' : LockState) (r : Rid)
    → IsExclusive s r
    → ((info_of s' r).lock_type ≡ exclusive → (info_of s r).lock_type ≡ exclusive)
    → ((t : ℕ) → mem t (info_of s' r).holders ≡ true → mem t (info_of s r).holders ≡ true)
    → IsExclusive s' r
kept s s' r x type sub = record {
  single = λ e t u mt mu. x.single (type e) t u (sub t mt) (sub u mu);
}

same_entry :
    (s s' : LockState) (r : Rid) → IsExclusive s r → info_of s' r ≡ info_of s r → IsExclusive s' r
same_entry s s' r x e = kept s s' r x (λ p. rw e at p) (λ t m. rw e at m)

shared-IsExclusive :
    {txn : ℕ} {rid : Rid} {s : LockState} {q : LockState × Bool} (r : Rid)
    → IsExclusive s r
    → Taken shared exclusive txn rid s q
    → IsExclusive q.0 r
shared-IsExclusive {rid = rid} {s = s} r x (held m) =
    same_entry s (touch rid s) r x (info_of-touch s rid r)
shared-IsExclusive {rid = rid} {s = s} r x (refused m e f) =
    same_entry s (touch rid s) r x (info_of-touch s rid r)
shared-IsExclusive {txn} {rid} {s} r x (taken m c) = elim (Bool-cases (rid_eqb rid r)) [
  | inl e ↦ record {
    single = λ p. absurd (unfold granted in (ground (arith, info_of-grant shared txn rid r s)));
  }
  | inr e ↦
      same_entry s (grant shared txn rid s) r x (ground (arith, info_of-grant shared txn rid r s))
]

-- A record that is free to be taken exclusively has no holders.
no_holders :
    (s : LockState) (rid : Rid)
    → Inv s
    → (info_of s rid).lock_type ≢ exclusive
    → (has_none (info_of s rid).holders ≡ true) ⊎ ((info_of s rid).lock_type ≢ shared)
    → (info_of s rid).holders ≡ []
no_holders s rid h n (inl e) = has_none_lem (info_of s rid).holders e
no_holders s rid h n (inr f) = (h.typed rid).0 (mode_left (info_of s rid).lock_type n f)
  where
    mode_left : (m : LockType) → m ≢ exclusive → m ≢ shared → m ≡ unlocked
    mode_left unlocked a b = refl
    mode_left shared a b = absurd (b refl)
    mode_left exclusive a b = absurd (a refl)

only_holder : (txn t : ℕ) (hs : List ℕ) → hs ≡ [] → mem t (insert txn hs) ≡ true → txn ≡ t
only_holder txn t hs e m =
    unfold mem in (ground (arith, mem-insert t txn hs, nat_eqb_iff txn t, ap (mem t) e))

exclusive-IsExclusive :
    {txn : ℕ} {rid : Rid} {s : LockState} {q : LockState × Bool} (r : Rid)
    → Inv s
    → IsExclusive s r
    → (mem txn (info_of s rid).holders ≡ true) ⊎ ((info_of s rid).lock_type ≢ exclusive)
    → Taken exclusive shared txn rid s q
    → IsExclusive q.0 r
exclusive-IsExclusive {rid = rid} {s = s} r h x w (held m) =
    same_entry s (touch rid s) r x (info_of-touch s rid r)
exclusive-IsExclusive {rid = rid} {s = s} r h x w (refused m e f) =
    same_entry s (touch rid s) r x (info_of-touch s rid r)
exclusive-IsExclusive {txn} {rid} {s} r h x w (taken m c) = elim (Bool-cases (rid_eqb rid r)) [
  | inl e ↦
      let free = no_holders s rid h (elim w [ inl m' ↦ absurd (ground arith) | inr n ↦ n ]) c in
      let now : info_of (grant exclusive txn rid s) r ≡ granted exclusive txn (info_of s rid) =
        ground (arith, info_of-grant exclusive txn rid r s) in
      let only : (v : ℕ) → mem v (info_of (grant exclusive txn rid s) r).holders ≡ true → txn ≡ v =
        λ v mv. only_holder txn v (info_of s rid).holders free (unfold granted in (rw now at mv)) in
      record { single = λ p t u mt mu. sym (only t mt) ∙ only u mu }
  | inr e ↦
      same_entry s (grant exclusive txn rid s) r x
        (ground (arith, info_of-grant exclusive txn rid r s))
]

unlock-IsExclusive :
    (txn : ℕ) (rid r : Rid) (s : LockState)
    → IsExclusive s r
    → IsExclusive (unlock (some txn) rid s).0 r
unlock-IsExclusive txn rid r s x =
    kept s (unlock (some txn) rid s).0 r x
      (λ p. unfold released in (ground (arith, info_of-unlock txn rid r s, rid_eqb_iff rid r)))
      (λ t m. ground (
        arith,
        info_of-unlock txn rid r s,
        rid_eqb_iff rid r,
        holders-released txn (info_of s rid),
        mem-erase t txn (info_of s rid).holders,
      ))

-- Where the lock table and the transactions agree, exclusive mode keeps a single holder on every
-- record through every call of `LockShared` and `Unlock`, and through each call of `LockExclusive` that
-- does not ask for a record which only other transactions hold in exclusive mode.
pub step-IsExclusive :
    (s : LockState) (c : Call)
    → Inv s
    → ((r : Rid) → IsExclusive s r)
    → IsCautious s c
    → (r : Rid) → IsExclusive (step s c) r
unfolding step lock_shared lock_exclusive unlock
step-IsExclusive s (locks_shared none rid) h x w r = x r
step-IsExclusive s (locks_shared (some txn) rid) h x w r =
    shared-IsExclusive r (x r) (lock_shared-Taken txn rid s)
step-IsExclusive s (locks_exclusive none rid) h x w r = x r
step-IsExclusive s (locks_exclusive (some txn) rid) h x w r =
    exclusive-IsExclusive r h (x r) w (lock_exclusive-Taken txn rid s)
step-IsExclusive s (unlocks none rid) h x w r = x r
step-IsExclusive s (unlocks (some txn) rid) h x w r = unlock-IsExclusive txn rid r s (x r)

-- A transaction that does not hold a record and asks for exclusive mode, while another one holds the
-- record in exclusive mode, is granted: the record stays in exclusive mode, and both hold it.
pub lock_exclusive-shares :
    (s : LockState) (txn other : ℕ) (rid : Rid)
    → (info_of s rid).lock_type ≡ exclusive
    → mem other (info_of s rid).holders ≡ true
    → mem txn (info_of s rid).holders ≡ false
    → ((lock_exclusive (some txn) rid s).1 ≡ true)
      × ((info_of (lock_exclusive (some txn) rid s).0 rid).lock_type ≡ exclusive)
      × (mem other (info_of (lock_exclusive (some txn) rid s).0 rid).holders ≡ true)
      × (mem txn (info_of (lock_exclusive (some txn) rid s).0 rid).holders ≡ true)
lock_exclusive-shares s txn other rid x m n = shares x (lock_exclusive-Taken txn rid s)
  where
    shares :
        {q : LockState × Bool}
        → (info_of s rid).lock_type ≡ exclusive
        → Taken exclusive shared txn rid s q
        → (q.1 ≡ true)
          × ((info_of q.0 rid).lock_type ≡ exclusive)
          × (mem other (info_of q.0 rid).holders ≡ true)
          × (mem txn (info_of q.0 rid).holders ≡ true)
    shares p (held m') = absurd (ground arith)
    shares p (refused m' e f) = absurd (ground arith)
    shares p (taken m' c) =
        let now : info_of (grant exclusive txn rid s) rid ≡ granted exclusive txn (info_of s rid) =
          ground (arith, info_of-grant exclusive txn rid rid s, rid_eqb_iff rid rid) in
        rw now (
          unfold granted in
          (
            refl,
            refl,
            ground (arith, mem-insert other txn (info_of s rid).holders),
            ground (arith, mem-insert txn txn (info_of s rid).holders, nat_eqb_iff txn txn),
          ))

-- A holder in shared mode that asks for exclusive mode is told that it was granted, and the record
-- stays in shared mode with the same holders; no other record changes.
pub lock_exclusive-no_upgrade :
    (s : LockState) (txn : ℕ) (rid : Rid)
    → (info_of s rid).lock_type ≡ shared
    → mem txn (info_of s rid).holders ≡ true
    → ((lock_exclusive (some txn) rid s).1 ≡ true)
      × ((r : Rid) → info_of (lock_exclusive (some txn) rid s).0 r ≡ info_of s r)
lock_exclusive-no_upgrade s txn rid x m = told (lock_exclusive-Taken txn rid s)
  where
    told :
        {q : LockState × Bool}
        → Taken exclusive shared txn rid s q
        → (q.1 ≡ true) × ((r : Rid) → info_of q.0 r ≡ info_of s r)
    told (held m') = (refl, λ r. info_of-touch s rid r)
    told (refused m' e f) = absurd (ground arith)
    told (taken m' c) = absurd (ground arith)
