-- ===== src/Executors/Insert.antt =====
-- InsertExecutor.cpp. The records come from a child or from a list. The table and the indexes share
-- one buffer pool: the table holds it, and a call of an index takes it from there.
use altas_dbpro.Prelude.{
  ℕ, ◌+◌, Bool, true, false, Option, none, some, List, [], ◌∷◌, if◌then◌else◌, leb,
}
use altas_dbpro.Prelude.Run.{Run, done, ◌>>=◌}
use altas_dbpro.Rid.{Rid}
use altas_dbpro.BufferPool.{Disk, Pool}
use altas_dbpro.Tuple.{Tuple, new_tuple, get_int_value}
use altas_dbpro.Heap.{TableHeap, insert_tuple, flush_batch}
use altas_dbpro.Index.Tree.{Tree, insert}
use altas_dbpro.Executors.{Executor}

abbrev pub batch_insert_size : ℕ
batch_insert_size = 1000

module _ (d : Disk) (reentrant : Bool) (child : Executor {1}) where
  -- The records still to be inserted stand for `direct_insert_tuples` from `direct_insert_index` on.
  pub record InsertState : Type 1 where
    pub table : TableHeap d
    pub indexes : List (Tree d)
    pub child_executor : Option child.State
    pub direct_insert_tuples : List Tuple
    pub initialized : Bool
    pub finished : Bool
    pub batch_count : ℕ

  abbrev pub new_insert :
      TableHeap d → List (Tree d) → Option child.State → List Tuple → InsertState
  new_insert h trees c ts = record {
    table = h;
    indexes = trees;
    child_executor = c;
    direct_insert_tuples = ts;
    initialized = false;
    finished = false;
    batch_count = 0;
  }

  abbrev pub init_child : Option child.State → Run (Option child.State)
  init_child none = done none
  init_child (some c) = child.init c >>= λ t. done (some t)

  unfoldable pub init : InsertState → Run InsertState
  init s = init_child s.child_executor >>= λ c.
      done (record s { child_executor = c; initialized = true; finished = false })

  abbrev pub from_child :
      InsertState → child.State × Option (Tuple × Rid) → InsertState × Option Tuple
  from_child s (c, none) = (record s { child_executor = some c }, none)
  from_child s (c, some (t, r)) = (record s { child_executor = some c }, some t)

  -- The next record to insert.
  abbrev pub from_list : InsertState → List Tuple → InsertState × Option Tuple
  from_list s [] = (s, none)
  from_list s (t ∷ ts) = (record s { direct_insert_tuples = ts }, some t)

  abbrev pub source : InsertState → Option child.State → Run (InsertState × Option Tuple)
  source s none = done (from_list s s.direct_insert_tuples)
  source s (some c) = child.next new_tuple c >>= λ r. done (from_child s r)

  -- The loop over the indexes, with the pool that they share.
  unfoldable pub insert_keys : Tuple → Rid → List (Tree d) → Pool d → Run (List (Tree d) × Pool d)
  unfolding insert get_int_value
  insert_keys t rid [] s = done ([], s)
  insert_keys t rid (tree ∷ trees) s =
      insert d reentrant (get_int_value 0 t) rid (record tree { pool = s }) >>= λ r.
      insert_keys t rid trees r.0.pool >>= λ rest. done (r.0 ∷ rest.0, rest.1)

  -- The count of the batch, and the flush when it is full.
  abbrev pub count_batch : InsertState → InsertState
  count_batch s =
      if leb batch_insert_size (s.batch_count + 1)
      then record s { table = flush_batch d s.table; batch_count = 0 }
      else record s { batch_count = s.batch_count + 1 }

  abbrev pub add_keys : Tuple → InsertState → Option Rid → Run (InsertState × Option (Tuple × Rid))
  add_keys t s none = done (s, none)
  add_keys t s (some rid) =
      let u = count_batch s in
      insert_keys t rid u.indexes u.table.pool >>= λ r.
      done (record u { indexes = r.0; table = record u.table { pool = r.1 } }, some (t, rid))

  abbrev pub insert_row : InsertState × Option Tuple → Run (InsertState × Option (Tuple × Rid))
  insert_row (s, none) = done (record s { finished = true }, none)
  insert_row (s, some t) =
      insert_tuple d reentrant t s.table >>= λ r. add_keys t (record s { table = r.0 }) r.1

  unfoldable pub next : Tuple → InsertState → Run (InsertState × Option (Tuple × Rid))
  unfolding init insert_tuple insert_keys
  next old s = (if s.initialized then done s else init s) >>= λ t.
      if t.finished then done (t, none) else (source t t.child_executor >>= insert_row)

  abbrev pub inserting : Executor {1}
  inserting = record { State = InsertState; init = init; next = next }
