-- ===== src/Executors/Scan.antt =====
-- SeqScanExecutor.cpp and IndexScanExecutor.cpp. The loop of the first runs on fuel. The table and
-- the index share one buffer pool: the table holds it, and a call of the index takes it from there. The
-- first class is initialized from its constructor on.
use altas_dbpro.Prelude.{ℕ, zero, suc, Bool, true, false, not, Option, none, some, if◌then◌else◌}
use altas_dbpro.Prelude.Ints.{ℤ}
use altas_dbpro.Prelude.Run.{Run, done, out_of_fuel, ◌>>=◌}
use altas_dbpro.Rid.{Rid}
use altas_dbpro.BufferPool.{Disk}
use altas_dbpro.Tuple.{Tuple}
use altas_dbpro.Heap.{TableHeap, get_tuple}
use altas_dbpro.Heap.Iterator.{TableIterator}
use altas_dbpro.Heap.Iterator as TableScan
use altas_dbpro.Index.Tree.{Tree}
use altas_dbpro.Index.Iterator.{get_rid}
use altas_dbpro.Index.Iterator as IndexScan
use altas_dbpro.Executors.{Executor}

pub data DataLayer : Type 0 where
  hot cold both : DataLayer

-- The rows of the hot or of the cold pages are left out where a layer is wanted; `is_hot` is the
-- layer manager's `IsPageHot`, if there is a manager.
unfoldable pub is_skipped : Option (ℤ → Bool) → DataLayer → Rid → Bool
is_skipped none target r = false
is_skipped (some is_hot) hot r = not (is_hot r.page_id)
is_skipped (some is_hot) cold r = is_hot r.page_id
is_skipped (some is_hot) both r = false

module _ (d : Disk) (reentrant : Bool) where
  pub record SeqScanState : Type 1 where
    pub table : TableHeap d
    pub iter : TableIterator
    pub layer_manager : Option (ℤ → Bool)
    pub target_layer : DataLayer

  abbrev pub new_seq_scan : TableHeap d → Option (ℤ → Bool) → DataLayer → SeqScanState
  new_seq_scan h layers target = record {
    table = h;
    iter = TableScan.begin d h;
    layer_manager = layers;
    target_layer = target;
  }

  abbrev pub seq_init : SeqScanState → Run SeqScanState
  seq_init s = done (record s { iter = TableScan.begin d s.table })

  -- The loop of `Next`.
  unfoldable pub seq_loop : ℕ → SeqScanState → Run (SeqScanState × Option (Tuple × Rid))
  unfolding is_skipped TableScan.iterator_eqb TableScan.current_tuple TableScan.next
  seq_loop zero s = out_of_fuel
  seq_loop (suc fuel) s =
      if TableScan.iterator_eqb s.iter TableScan.end
      then done (s, none)
      else (TableScan.current_tuple d reentrant s.iter s.table >>= λ t.
          TableScan.next d reentrant s.iter t.0 >>= λ n.
          let moved = record s { table = n.0; iter = n.1 } in
          if is_skipped s.layer_manager s.target_layer s.iter.current
          then seq_loop fuel moved
          else done (moved, some (t.1, s.iter.current)))

  abbrev pub seq_scan : ℕ → Executor {1}
  seq_scan fuel = record { State = SeqScanState; init = seq_init; next = λ old s. seq_loop fuel s }

  pub record IndexScanState : Type 1 where
    pub index : Tree d
    pub table : TableHeap d
    pub index_iter : IndexScan.Iterator
    pub initialized : Bool

  abbrev pub new_index_scan : Tree d → TableHeap d → IndexScanState
  new_index_scan i h = record {
    index = i;
    table = h;
    index_iter = IndexScan.end;
    initialized = false;
  }

  unfoldable pub index_init : IndexScanState → Run IndexScanState
  unfolding IndexScan.begin
  index_init s = IndexScan.begin d reentrant (record s.index { pool = s.table.pool }) >>= λ r.
      done (record s {
        index = r.0;
        table = record s.table { pool = r.0.pool };
        index_iter = r.1;
        initialized = true;
      })

  abbrev pub after_get :
      IndexScanState → Rid → TableHeap d × Option Tuple → IndexScanState × Option (Tuple × Rid)
  after_get s r (h, none) = (record s { table = h }, none)
  after_get s r (h, some t) =
      (record s { table = h; index_iter = IndexScan.next d h.pool s.index_iter }, some (t, r))

  unfoldable pub index_next : Tuple → IndexScanState → Run (IndexScanState × Option (Tuple × Rid))
  unfolding index_init get_tuple get_rid IndexScan.iterator_eqb IndexScan.next
  index_next old s = (if s.initialized then done s else index_init s) >>= λ t.
      if IndexScan.iterator_eqb t.index_iter IndexScan.end
      then done (t, none)
      else (let r = get_rid d t.table.pool t.index_iter in
          get_tuple d reentrant r old t.table >>= λ g. done (after_get t r g))

  abbrev pub index_scan : Executor {1}
  index_scan = record { State = IndexScanState; init = index_init; next = index_next }
