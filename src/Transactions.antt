-- ===== src/Transactions.antt =====
-- MiniDB/src/concurrency/Transaction.cpp and TransactionManager.cpp with their headers.
-- A `Transaction*` is an address, and the store gives the object at each address. `transactions_` of
-- the manager is never read or written, and `GetTransaction` is declared without a body: neither has
-- a counterpart. `new` takes an address that the caller of the model names.
use altas_dbpro.Prelude.{ℕ, ◌+◌, Bool, true, List, [], if◌then◌else◌, ◌==◌, nat_eq}
use altas_dbpro.Prelude.Ints.{ℤ, pos}
use altas_dbpro.Prelude.Sets.{mem, insert, erase}
use altas_dbpro.Rid.{Rid, rid_eq}

pub data TransactionState : Type 0 where
  running committed aborted : TransactionState

pub record Transaction : Type 0 where
  pub txn_id : ℤ
  pub state : TransactionState
  pub locks_held : List Rid

abbrev pub new_transaction : ℤ → Transaction
new_transaction txn_id = record { txn_id = txn_id; state = running; locks_held = [] }

unfoldable pub has_lock : Rid → Transaction → Bool
has_lock rid txn = mem rid txn.locks_held

unfoldable pub add_lock : Rid → Transaction → Transaction
add_lock rid txn = record txn { locks_held = insert rid txn.locks_held }

unfoldable pub remove_lock : Rid → Transaction → Transaction
remove_lock rid txn = record txn { locks_held = erase rid txn.locks_held }

unfoldable pub set_state : TransactionState → Transaction → Transaction
set_state state txn = record txn { state = state }

abbrev pub Store : Type 0
Store = ℕ → Transaction

unfoldable pub update : ℕ → Transaction → Store → Store
update a txn store b = if a == b then txn else store b

pub record TransactionManager : Type 0 where
  pub next_txn_id : ℕ

abbrev pub init : TransactionManager
init = record { next_txn_id = 1 }

unfoldable pub begin_transaction : ℕ → TransactionManager → Store → TransactionManager × Store
begin_transaction a m store = (
  record { next_txn_id = m.next_txn_id + 1 },
  update a (new_transaction (pos m.next_txn_id)) store,
)

unfoldable pub commit_transaction : ℕ → Store → Store × Bool
commit_transaction a store = (update a (set_state committed (store a)) store, true)

unfoldable pub abort_transaction : ℕ → Store → Store × Bool
abort_transaction a store = (update a (set_state aborted (store a)) store, true)
