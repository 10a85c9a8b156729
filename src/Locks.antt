-- ===== src/Locks.antt =====
-- MiniDB/src/concurrency/LockManager.cpp and its header: shared and exclusive locks on records.
-- The state is the lock table and the store of the transactions, whose `locks_held_` the manager
-- writes. A null `Transaction*` is `none`. Each call runs under `mtx_`, so calls do not overlap.
-- `wait_queue` is a field that no function reads or writes.
pub mod Cases
pub mod Invariant
pub mod Grants
pub mod Exclusion
pub mod Tests
use Prim.Native.String.{String}
use altas_dbpro.Prelude.{
  ℕ, Bool, true, false, not, ◌&&◌, Option, none, some, List, [], ◌∷◌, if◌then◌else◌, ◌==◌, nat_eq,
}
use altas_dbpro.Prelude.Sets.{mem, insert, erase}
use altas_dbpro.Prelude.Maps.{find, put}
use altas_dbpro.Rid.{Rid, rid_eq}
use altas_dbpro.Transactions.{Store, update, add_lock, remove_lock}

pub data LockType : Type 0 where
  unlocked shared exclusive : LockType

pub record LockInfo : Type 0 where
  pub lock_type : LockType
  pub holders : List ℕ
  pub wait_queue : List (ℕ × LockType)

abbrev pub new_info : LockInfo
new_info = record { lock_type = unlocked; holders = []; wait_queue = [] }

pub record LockState : Type 0 where
  pub table : List (Rid × LockInfo)
  pub txns : Store

abbrev pub or_new : Option LockInfo → LockInfo
or_new none = new_info
or_new (some info) = info

-- `lock_table_[rid]`, where a missing entry reads as a new one.
unfoldable pub info_of : LockState → Rid → LockInfo
unfolding find
info_of s rid = or_new (find rid s.table)

abbrev pub is_shared : LockType → Bool
is_shared shared = true
is_shared _ = false

abbrev pub is_exclusive : LockType → Bool
is_exclusive exclusive = true
is_exclusive _ = false

-- The loop that sets `is_held_by_others`.
unfoldable pub held_by_others : ℕ → List ℕ → Bool
held_by_others txn [] = false
held_by_others txn (h ∷ hs) = if not (h == txn) then true else held_by_others txn hs

abbrev pub set_info : Rid → LockInfo → LockState → LockState
set_info rid info s = record s { table = put rid info s.table }

unfoldable pub granted : LockType → ℕ → LockInfo → LockInfo
granted mode txn info = record info { lock_type = mode; holders = insert txn info.holders }

-- `lock_info.lock_type = mode; lock_info.holders.insert(txn); txn->AddLock(rid);`
unfoldable pub grant : LockType → ℕ → Rid → LockState → LockState
unfolding info_of
grant mode txn rid s = record {
  table = put rid (granted mode txn (info_of s rid)) s.table;
  txns = update txn (add_lock rid (s.txns txn)) s.txns;
}

-- The entry that `lock_table_[rid]` makes stays, whatever the call answers.
abbrev pub touch : Rid → LockState → LockState
touch rid s = set_info rid (info_of s rid) s

pub lock_shared : Option ℕ → Rid → LockState → LockState × Bool
unfolding grant held_by_others
lock_shared none rid s = (s, false)
lock_shared (some txn) rid s =
    let info = info_of s rid in
    if mem txn info.holders
    then (touch rid s, true)
    else if held_by_others txn info.holders && is_exclusive info.lock_type
    then (touch rid s, false)
    else (grant shared txn rid s, true)

pub lock_exclusive : Option ℕ → Rid → LockState → LockState × Bool
unfolding grant held_by_others
lock_exclusive none rid s = (s, false)
lock_exclusive (some txn) rid s =
    let info = info_of s rid in
    if mem txn info.holders
    then (touch rid s, true)
    else if held_by_others txn info.holders && is_shared info.lock_type
    then (touch rid s, false)
    else (grant exclusive txn rid s, true)

abbrev pub has_none : List ℕ → Bool
has_none [] = true
has_none (h ∷ hs) = false

-- `holders.erase(txn)`, and no mode once the last holder is gone.
unfoldable pub released : ℕ → LockInfo → LockInfo
released txn info =
    let rest = erase txn info.holders in
    if has_none rest
    then record info { lock_type = unlocked; holders = rest }
    else record info { holders = rest }

unfoldable pub release_entry : ℕ → Rid → LockState → LockState
unfolding released find
release_entry txn rid s = elim (find rid s.table) [
  | none ↦ s
  | some info ↦ set_info rid (released txn info) s
]

pub unlock : Option ℕ → Rid → LockState → LockState × Bool
unfolding release_entry
unlock none rid s = (s, false)
unlock (some txn) rid s =
    let t = release_entry txn rid s in
    (record t { txns = update txn (remove_lock rid (t.txns txn)) t.txns }, true)

abbrev type_name : LockType → String
type_name shared = "SHARED"
type_name exclusive = "EXCLUSIVE"
type_name unlocked = "NONE"

unfoldable pub get_lock_type : Rid → LockState → String
unfolding find
get_lock_type rid s = elim (find rid s.table) [
  | none ↦ "NONE"
  | some info ↦ type_name info.lock_type
]

pub data Call : Type 0 where
  locks_shared locks_exclusive unlocks : Option ℕ → Rid → Call

pub step : LockState → Call → LockState
step s (locks_shared txn rid) = (lock_shared txn rid s).0
step s (locks_exclusive txn rid) = (lock_exclusive txn rid s).0
step s (unlocks txn rid) = (unlock txn rid s).0

pub run : LockState → List Call → LockState
run s [] = s
run s (c ∷ cs) = run (step s c) cs
