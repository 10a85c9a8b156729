-- ===== src/Heap.antt =====
-- MiniDB/src/storage/table_heap.cpp and its header: records on the pages of the buffer pool. A page
-- begins with a header of 12 bytes; the offset and the size of the records follow from byte 12 on,
-- and so do the bytes of the records. The numbers of the header are never negative, since only
-- these functions write them. The pool is there, so the tests of its pointer pass.
pub mod Slots
pub mod Layout
pub mod Roundtrip
pub mod Iterator
pub mod Tests
use altas_dbpro.Prelude.{
  ℕ, suc, ◌+◌, ◌*◌, ◌-◌, Bool, true, false, not, ◌||◌, ◌&&◌, Option, none, some, List,
  if◌then◌else◌, ltb, leb, ◌==◌, nat_eq,
}
use altas_dbpro.Prelude.Ints.{ℤ, pos, negsuc, ltb_ℤ, ◌+ℤ◌}
use altas_dbpro.Prelude.Run.{Run, done, undefined, ◌>>=◌}
use altas_dbpro.Rid.{Rid, no_rid, rid_eq, is_valid}
use altas_dbpro.Page.{zero_bytes, page_size}
use altas_dbpro.Bytes.{read_int, write_int, copy_in, copy_out}
use altas_dbpro.BufferPool.{Disk, Pool, fetch_page, new_page_in, unpin_page, flush_all_pages}
use altas_dbpro.BufferPool.Access.{id_of, bytes_of, set_bytes, mark_dirty, at_frame}
use altas_dbpro.Index.Node.{nat_of}
use altas_dbpro.Tuple.{Tuple, new_tuple, set_size, set_rid, max_size}

abbrev pub slot_header : ℕ
slot_header = 12

abbrev pub slot_entry_size : ℕ
slot_entry_size = 8

-- `(PAGE_SIZE - SLOT_HEADER) / (SLOT_ENTRY_SIZE + 32)`.
abbrev pub max_slots_per_page : ℕ
max_slots_per_page = 102

abbrev pub next_free : List ℕ → ℕ
next_free page = nat_of (read_int page 4)

abbrev pub n_slots : List ℕ → ℕ
n_slots page = nat_of (read_int page 8)

abbrev pub set_next_free : ℕ → List ℕ → List ℕ
set_next_free v page = write_int 4 (pos v) page

abbrev pub set_n_slots : ℕ → List ℕ → List ℕ
set_n_slots v page = write_int 8 (pos v) page

abbrev pub slot_at : ℕ → ℕ
slot_at slot_num = slot_header + slot_num * slot_entry_size

-- The offset and the size in a slot.
abbrev pub get_slot : List ℕ → ℕ → ℤ × ℤ
get_slot page slot_num = (read_int page (slot_at slot_num), read_int page (slot_at slot_num + 4))

abbrev pub set_slot : ℕ → ℕ → ℕ → List ℕ → List ℕ
set_slot slot_num offset size page =
    write_int (slot_at slot_num + 4) (pos size) (write_int (slot_at slot_num) (pos offset) page)

-- A page without records.
unfoldable pub empty_page : List ℕ
unfolding write_int zero_bytes
empty_page = set_n_slots 0 (set_next_free slot_header zero_bytes)

abbrev pub copied_size : Tuple → ℕ
copied_size t = if ltb 4020 t.size then 4020 else t.size

-- The page has no room for a record of this size.
unfoldable pub is_full : List ℕ → ℕ → Bool
unfolding read_int
is_full page size =
    leb max_slots_per_page (n_slots page) || ltb page_size (next_free page + size + slot_entry_size)

-- The writes of `InsertTuple` into the page.
unfoldable pub write_record : Tuple → List ℕ → List ℕ
unfolding read_int write_int copy_in copy_out
write_record t page =
    let free = next_free page in
    let n = n_slots page in
    let size = copied_size t in
    set_n_slots (n + 1) (
      set_next_free (free + size)
        (copy_in free (copy_out 0 size t.bytes) (set_slot n free size page)))

-- The copy reads no further than the array of the record, which has `max_size` bytes.
unfoldable pub add_tuple : Tuple → List ℕ → Run (List ℕ)
unfolding write_record
add_tuple t page = if ltb max_size (copied_size t) then undefined else done (write_record t page)

-- What `GetTuple` does at a page: it answers false, or it fills the record, or it goes beyond the
-- bounds of an array or of `int`.
pub data Reading : Type 0 where
  absent : Reading
  reading : Tuple → Reading
  overrun : Reading

unfoldable pub read_slot : Rid → Tuple → List ℕ → ℤ × ℤ → Reading
unfolding copy_in copy_out set_size ltb_ℤ
read_slot rid t page (negsuc offset, pos size) =
    if size == 0 then absent else if ltb (page_size + offset + 1) size then absent else overrun
read_slot rid t page (offset, negsuc size) = absent
read_slot rid t page (pos offset, pos size) =
    if size == 0
    then absent
    else if ltb 2147483647 (offset + size)
    then overrun
    else if ltb page_size (offset + size)
    then absent
    else if ltb max_size size
    then overrun
    else reading (record (set_rid rid (set_size size t)) {
      bytes = copy_in 0 (copy_out offset size page) t.bytes;
    })

unfoldable pub read_tuple : Rid → Tuple → List ℕ → Reading
unfolding read_slot read_int ltb_ℤ
read_tuple rid t page =
    if ltb_ℤ rid.slot_num (pos 0) || not (ltb_ℤ rid.slot_num (read_int page 8))
    then absent
    else read_slot rid t page (get_slot page (nat_of rid.slot_num))

module _ (d : Disk) where
  pub record TableHeap : Type 1 where
    pub pool : Pool d
    pub first_page_id : ℤ
    pub last_page_id : ℤ

  abbrev pub started : ℤ → Pool d → TableHeap
  started id s = record { pool = s; first_page_id = id; last_page_id = id }

  -- The constructor.
  unfoldable pub init : Bool → Pool d → Run TableHeap
  unfolding new_page_in unpin_page write_int
  init reentrant s =
      new_page_in d reentrant s
      >>= at_frame d (λ t. done (started (negsuc 0) t))
          (λ f t.
            let bytes =
              set_n_slots 0 (set_next_free slot_header (write_int 0 (pos 0) (bytes_of d f t))) in
            done
              (started (id_of d f t) (unpin_page d (id_of d f t) true (set_bytes d f bytes t)).0))

  abbrev pub unpinned : ℤ → Bool → TableHeap → TableHeap
  unpinned id dirty h = record h { pool = (unpin_page d id dirty h.pool).0 }

  -- The record goes into the page of the frame, which is the last one of the table.
  unfoldable pub put_tuple : Tuple → ℕ → TableHeap → Run (TableHeap × Option Rid)
  unfolding add_tuple unpin_page read_int
  put_tuple t f h =
      let page = bytes_of d f h.pool in
      add_tuple t page >>= λ now. done (
        unpinned h.last_page_id true
            (record h { pool = mark_dirty d f (set_bytes d f now h.pool) }),
        some (record { page_id = h.last_page_id; slot_num = pos (n_slots page) }),
      )

  -- The new page of the frame becomes the last one.
  abbrev pub append_page : ℕ → TableHeap → TableHeap
  append_page f h = record h {
    last_page_id = id_of d f h.pool;
    pool = set_bytes d f empty_page h.pool;
  }

  unfoldable pub insert_at : Bool → Tuple → ℕ → TableHeap → Run (TableHeap × Option Rid)
  unfolding put_tuple is_full new_page_in unpin_page empty_page
  insert_at reentrant t f h =
      if is_full (bytes_of d f h.pool) (copied_size t)
      then (new_page_in d reentrant (unpinned h.last_page_id false h).pool
          >>= at_frame d (λ s. done (record h { pool = s }, none))
              (λ g s. put_tuple t g (append_page g (record h { pool = s }))))
      else put_tuple t f h

  -- `InsertTuple`: the identifier of the record, or nothing where the source answers false.
  unfoldable pub insert_tuple : Bool → Tuple → TableHeap → Run (TableHeap × Option Rid)
  unfolding insert_at fetch_page new_page_in empty_page ltb_ℤ
  insert_tuple reentrant t h =
      fetch_page d reentrant h.last_page_id h.pool
      >>= at_frame d
          (λ s.
            new_page_in d reentrant s
            >>= at_frame d (λ u. done (record h { pool = u }, none))
                (λ f u.
                  let first =
                    if ltb_ℤ h.first_page_id (pos 0) then id_of d f u else h.first_page_id in
                  insert_at reentrant t f
                    (append_page f (record h { pool = u; first_page_id = first }))))
          (λ f s. insert_at reentrant t f (record h { pool = s }))

  abbrev pub answer : TableHeap → Reading → Run (TableHeap × Option Tuple)
  answer h absent = done (h, none)
  answer h (reading t) = done (h, some t)
  answer h overrun = undefined

  -- `GetTuple(rid, &t)`: what it fills into the record where it answers true.
  unfoldable pub get_tuple : Bool → Rid → Tuple → TableHeap → Run (TableHeap × Option Tuple)
  unfolding fetch_page unpin_page read_tuple is_valid
  get_tuple reentrant rid t h =
      if not (is_valid rid)
      then done (h, none)
      else (fetch_page d reentrant rid.page_id h.pool
          >>= at_frame d (λ s. done (record h { pool = s }, none))
              (λ f s.
                answer (unpinned rid.page_id false (record h { pool = s }))
                  (read_tuple rid t (bytes_of d f s))))

  -- `DeleteTuple`, which marks the page dirty.
  unfoldable pub delete_tuple : Bool → Rid → TableHeap → Run (TableHeap × Bool)
  unfolding fetch_page unpin_page is_valid
  delete_tuple reentrant rid h =
      if not (is_valid rid)
      then done (h, false)
      else (fetch_page d reentrant rid.page_id h.pool
          >>= at_frame d (λ s. done (record h { pool = s }, false))
              (λ f s.
                done (unpinned rid.page_id true (record h { pool = mark_dirty d f s }), true)))

  abbrev pub updated_size : Tuple → ℕ
  updated_size t = if ltb t.size (page_size - 16) then t.size else page_size - 16

  unfoldable pub update_tuple : Bool → Tuple → Rid → TableHeap → Run (TableHeap × Bool)
  unfolding fetch_page unpin_page is_valid copy_in copy_out
  update_tuple reentrant t rid h =
      if not (is_valid rid)
      then done (h, false)
      else (fetch_page d reentrant rid.page_id h.pool
          >>= at_frame d (λ s. done (record h { pool = s }, false))
              (λ f s.
                let page = copy_in 16 (copy_out 0 (updated_size t) t.bytes) (bytes_of d f s) in
                if ltb max_size (updated_size t)
                then undefined
                else done (
                  unpinned rid.page_id true
                      (record h { pool = mark_dirty d f (set_bytes d f page s) }),
                  true,
                )))

  unfoldable pub get_slot_count : Bool → ℤ → TableHeap → Run (TableHeap × ℤ)
  unfolding fetch_page unpin_page read_int ltb_ℤ
  get_slot_count reentrant id h =
      if ltb_ℤ id (pos 0)
      then done (h, pos 0)
      else (fetch_page d reentrant id h.pool
          >>= at_frame d (λ s. done (record h { pool = s }, pos 0))
              (λ f s.
                done (unpinned id false (record h { pool = s }), read_int (bytes_of d f s) 8)))

  abbrev pub flush_batch : TableHeap → TableHeap
  flush_batch h = record h { pool = flush_all_pages d h.pool }
