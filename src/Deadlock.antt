-- ===== src/Deadlock.antt =====
-- MiniDB/src/concurrency/DeadLockDector.cpp and its header: the wait-for graph, its updates, the
-- depth-first search for a cycle and the choice of a victim.
-- `wait_graph_` is an association list from a transaction to the set of those that it waits for. The
-- iteration order of the unordered containers is the order of the lists, which is arbitrary: every
-- theorem is for all lists. The recursion of `DFSCycle` runs on fuel, one more than the number of
-- keys; `none` is the exhausted fuel.
pub mod Walks
pub mod Ghost
pub mod Search
pub mod Correct
pub mod Victim
pub mod Updates
pub mod Tests
use altas_dbpro.Prelude.{
  ℕ, zero, suc, Bool, true, false, Option, none, some, List, [], ◌∷◌, ◌++◌, if◌then◌else◌, length,
  ◌==◌,
}
use altas_dbpro.Prelude.Ints.{ℤ, int_eq, ltb_ℤ, eqb_ℤ}
use altas_dbpro.Prelude.Sets.{mem, insert, erase}
use altas_dbpro.Prelude.Maps.{find, put, remove}

abbrev pub WaitGraph : Type 0
WaitGraph = List (ℤ × List ℤ)

abbrev pub or_empty : Option (List ℤ) → List ℤ
or_empty none = []
or_empty (some vs) = vs

-- The transactions that `node` waits for.
unfoldable pub waits_for : WaitGraph → ℤ → List ℤ
unfolding find
waits_for g node = or_empty (find node g)

pub add_edge : ℤ → ℤ → WaitGraph → WaitGraph
unfolding waits_for
add_edge from to g = put from (insert to (waits_for g from)) g

abbrev pub is_empty : List ℤ → Bool
is_empty [] = true
is_empty (v ∷ vs) = false

pub remove_edge : ℤ → ℤ → WaitGraph → WaitGraph
unfolding find
remove_edge from to g = elim (find from g) [
  | none ↦ g
  | some vs ↦ if is_empty (erase to vs) then remove from g else put from (erase to vs) g
]

-- `for (auto& pair : wait_graph_) pair.second.erase(txn);`
pub erase_target : ℤ → WaitGraph → WaitGraph
erase_target txn [] = []
erase_target txn ((k, vs) ∷ g) = (k, erase txn vs) ∷ erase_target txn g

-- The loop that drops the entries whose set became empty.
pub drop_empty : WaitGraph → WaitGraph
drop_empty [] = []
drop_empty ((k, vs) ∷ g) = if is_empty vs then drop_empty g else (k, vs) ∷ drop_empty g

pub remove_txn : ℤ → WaitGraph → WaitGraph
remove_txn txn g = drop_empty (erase_target txn (remove txn g))

-- The arguments that `DFSCycle` takes by reference; the end of `path` is the end of the list.
pub record SearchState : Type 0 where
  pub visited : List ℤ
  pub rec_stack : List ℤ
  pub path : List ℤ
  pub cycle : List ℤ

unfoldable pub pop_back : List ℤ → List ℤ
pop_back [] = []
pop_back (x ∷ []) = []
pop_back (x ∷ y ∷ xs) = x ∷ pop_back (y ∷ xs)

-- The elements of `path` from the first occurrence of `next` on.
unfoldable pub suffix_from : ℤ → List ℤ → List ℤ
suffix_from next [] = []
suffix_from next (x ∷ xs) = if x == next then x ∷ xs else suffix_from next xs

pub enter : ℤ → SearchState → SearchState
enter node s = record s {
  visited = insert node s.visited;
  rec_stack = insert node s.rec_stack;
  path = s.path ++ node ∷ [];
}

pub leave : ℤ → SearchState → SearchState
leave node s = record s { rec_stack = erase node s.rec_stack; path = pop_back s.path }

pub report : ℤ → SearchState → SearchState
report next s = record s { cycle = suffix_from next s.path ++ next ∷ [] }

-- The loop over `it->second`; `call` is the recursive call of `DFSCycle`.
pub each_edge :
    (ℤ → SearchState → Option (Bool × SearchState))
    → ℤ
    → List ℤ
    → SearchState
    → Option (Bool × SearchState)
each_edge call node [] s = some (false, leave node s)
each_edge call node (next ∷ rest) s = elim (mem next s.visited) [
  | false ↦ elim (call next s) [
    | none ↦ none
    | some (found, t) ↦ elim found [ true ↦ some (true, t) | false ↦ each_edge call node rest t ]
  ]
  | true ↦ elim (mem next s.rec_stack) [
    | true ↦ some (true, leave node (report next s))
    | false ↦ each_edge call node rest s
  ]
]

abbrev pub unsearched : SearchState
unsearched = record { visited = []; rec_stack = []; path = []; cycle = [] }

module _ (g : WaitGraph) where
  pub dfs_cycle : ℕ → ℤ → SearchState → Option (Bool × SearchState)
  dfs_cycle zero node s = none
  dfs_cycle (suc fuel) node s = each_edge (dfs_cycle fuel) node (waits_for g node) (enter node s)

  -- The loop over the keys of `wait_graph_` in `HasDeadlock` and `DetectCycle`.
  pub each_root : ℕ → WaitGraph → SearchState → Option (Bool × SearchState)
  each_root fuel [] s = some (false, s)
  each_root fuel ((k, vs) ∷ rest) s = elim (mem k s.visited) [
    | true ↦ each_root fuel rest s
    | false ↦ elim (dfs_cycle fuel k s) [
      | none ↦ none
      | some (found, t) ↦ elim found [ true ↦ some (true, t) | false ↦ each_root fuel rest t ]
    ]
  ]

  abbrev pub search_fuel : ℕ
  search_fuel = suc (length g)

  -- The answer, and the cycle that was found.
  pub detect_cycle : Option (Bool × List ℤ)
  detect_cycle = elim (each_root search_fuel g unsearched) [
    | none ↦ none
    | some (found, s) ↦ some (found, s.cycle)
  ]

  pub has_deadlock : Option Bool
  has_deadlock = elim (each_root search_fuel g unsearched) [
    | none ↦ none
    | some (found, s) ↦ some found
  ]

-- `for (txn_id_t t : cycle) if (t > victim) victim = t;`
pub max_txn : ℤ → List ℤ → ℤ
max_txn victim [] = victim
max_txn victim (t ∷ ts) = max_txn (if ltb_ℤ victim t then t else victim) ts

abbrev pub pick : Bool → List ℤ → Option ℤ
pick false cycle = none
pick true [] = none
pick true (t ∷ ts) = some (max_txn t (t ∷ ts))

-- The outer `none` is the exhausted fuel, the inner one `return false`.
pub get_victim : WaitGraph → Option (Option ℤ)
get_victim g = elim (detect_cycle g) [ none ↦ none | some (found, cycle) ↦ some (pick found cycle) ]
