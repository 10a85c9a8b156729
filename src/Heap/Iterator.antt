-- ===== src/Heap/Iterator.antt =====
-- The iterator of table_heap.h, and `Begin`, `End` and `GetIterator` of table_heap.cpp. All iterators
-- are of one table.
use altas_dbpro.Prelude.{
  Bool, true, false, not, ◌&&◌, ◌||◌, Option, none, some, if◌then◌else◌, ◌==◌,
}
use altas_dbpro.Prelude.Ints.{pos, ltb_ℤ, ◌+ℤ◌}
use altas_dbpro.Prelude.Run.{Run, done, ◌>>=◌}
use altas_dbpro.Rid.{Rid, no_rid, rid_eq}
use altas_dbpro.BufferPool.{Disk}
use altas_dbpro.Tuple.{Tuple, new_tuple}
use altas_dbpro.Heap.{TableHeap, get_tuple, get_slot_count}

pub record TableIterator : Type 0 where
  pub current : Rid
  pub is_end : Bool

abbrev pub end : TableIterator
end = record { current = no_rid; is_end = true }

abbrev pub get_iterator : Rid → TableIterator
get_iterator rid = record { current = rid; is_end = false }

unfoldable pub iterator_eqb : TableIterator → TableIterator → Bool
iterator_eqb a b =
    (a.is_end && b.is_end)
    || (a.current == b.current && (if a.is_end then b.is_end else not b.is_end))

module _ (d : Disk) where
  unfoldable pub begin : TableHeap d → TableIterator
  unfolding ltb_ℤ
  begin h =
      if ltb_ℤ h.first_page_id (pos 0)
      then end
      else get_iterator (record { page_id = h.first_page_id; slot_num = pos 0 })

  abbrev pub moved : Rid → Rid
  moved r = record r { slot_num = r.slot_num +ℤ pos 1 }

  -- `operator++`.
  unfoldable pub next : Bool → TableIterator → TableHeap d → Run (TableHeap d × TableIterator)
  unfolding get_slot_count ltb_ℤ ◌+ℤ◌
  next reentrant it h =
      if it.is_end
      then done (h, it)
      else (get_slot_count d reentrant it.current.page_id h >>= λ r.
          let rid = moved it.current in
          done (r.0, record { current = rid; is_end = not (ltb_ℤ rid.slot_num r.1) }))

  abbrev pub or_new : Option Tuple → Tuple
  or_new none = new_tuple
  or_new (some t) = t

  -- `operator*`.
  unfoldable pub current_tuple : Bool → TableIterator → TableHeap d → Run (TableHeap d × Tuple)
  unfolding get_tuple
  current_tuple reentrant it h =
      if it.is_end
      then done (h, new_tuple)
      else (get_tuple d reentrant it.current new_tuple h >>= λ r. done (r.0, or_new r.1))
