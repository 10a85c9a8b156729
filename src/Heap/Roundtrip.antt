-- ===== src/Heap/Roundtrip.antt =====
-- `InsertTuple` into a page that the pool holds, and `GetTuple` afterwards (table_heap.cpp).
use altas_dbpro.Prelude.{
  ℕ, ◌+◌, ◌<◌, ◌≤◌, ◌≡◌, refl, ap, sym, ◌∙◌, Bool, true, false, some, List, arith, ltb,
}
use altas_dbpro.Prelude.Ints.{pos, ltb_ℤ}
use altas_dbpro.Prelude.Run.{done}
use altas_dbpro.Rid.{Rid, is_valid}
use altas_dbpro.Bytes.{byte_at}
use altas_dbpro.Page.{Page}
use altas_dbpro.Page
use altas_dbpro.BufferPool.{Disk, Pool, fetch_page, unpin_page, pin_resident}
use altas_dbpro.BufferPool.Access.{bytes_of, set_bytes, mark_dirty}
use altas_dbpro.BufferPool.Resident.{
  Resident, fetch_page-Resident, pin_resident-bytes, pin_resident-Resident, written-Resident,
}
use altas_dbpro.Tuple.{Tuple}
use altas_dbpro.Tuple.Values.{IsTuple}
use altas_dbpro.Heap.{
  TableHeap, next_free, n_slots, slot_at, is_full, copied_size, write_record, read_tuple,
  insert_tuple, insert_at, put_tuple, get_tuple, answer, unpinned,
}
use altas_dbpro.Heap.Slots.{IsHeapPage, add_tuple-write_record}
use altas_dbpro.Heap.Layout.{got, read_tuple-add}

-- The calls once the page is there.
insert_at-put_tuple :
    (d : Disk) (reentrant : Bool) (t : Tuple) (f : ℕ) (h : TableHeap d)
    → is_full (bytes_of d f h.pool) (copied_size t) ≡ false
    → insert_at d reentrant t f h ≡ put_tuple d t f h
unfolding insert_at
insert_at-put_tuple d reentrant t f h e = rw e refl

insert_tuple-insert_at :
    (d : Disk) (reentrant : Bool) (t : Tuple) (h : TableHeap d) (s : Pool d) (f : ℕ)
    → fetch_page d reentrant h.last_page_id h.pool ≡ done (s, some f)
    → insert_tuple d reentrant t h ≡ insert_at d reentrant t f (record h { pool = s })
unfolding insert_tuple
insert_tuple-insert_at d reentrant t h s f e = rw e refl

get_tuple-answer :
    (d : Disk) (reentrant : Bool) (rid : Rid) (old : Tuple) (h : TableHeap d) (s : Pool d) (f : ℕ)
    → is_valid rid ≡ true
    → fetch_page d reentrant rid.page_id h.pool ≡ done (s, some f)
    → get_tuple d reentrant rid old h
      ≡ answer d
          (unpinned d rid.page_id false (record h { pool = s }))
          (read_tuple rid old (bytes_of d f s))
unfolding get_tuple
get_tuple-answer d reentrant rid old h s f v e = rw (v, e) refl

module _ (d : Disk) (reentrant : Bool) (t : Tuple) (h : TableHeap d) (f : ℕ) (p : Page)
    (r : Resident d f p h.pool) (last : h.last_page_id ≡ p.page_id)
    (room : is_full p.page_data (copied_size t) ≡ false) where
  abbrev page : List ℕ
  page = p.page_data

  abbrev pub new_rid : Rid
  new_rid = record { page_id = p.page_id; slot_num = pos (n_slots page) }

  abbrev pinned : Pool d
  pinned = pin_resident d f h.pool

  abbrev stored : TableHeap d
  stored = record h {
    pool =
        (unpin_page d p.page_id true
          (mark_dirty d f (set_bytes d f (write_record t page) pinned))).0;
  }

  put_tuple-stored :
      t.size ≤ 2048 → put_tuple d t f (record h { pool = pinned }) ≡ done (stored, some new_rid)
  unfolding put_tuple
  put_tuple-stored small =
      rw (pin_resident-bytes d f p h.pool r, last, add_tuple-write_record t page small, put_tuple)
        refl

  insert_at-stored :
      t.size ≤ 2048
      → insert_at d reentrant t f (record h { pool = pinned }) ≡ done (stored, some new_rid)
  insert_at-stored small =
      insert_at-put_tuple d reentrant t f (record h { pool = pinned })
        (ap (λ b. is_full b (copied_size t)) (pin_resident-bytes d f p h.pool r) ∙ room)
      ∙ put_tuple-stored small

  insert_tuple-stored : t.size ≤ 2048 → insert_tuple d reentrant t h ≡ done (stored, some new_rid)
  insert_tuple-stored small =
      insert_tuple-insert_at d reentrant t h pinned f (
        ap (λ i. fetch_page d reentrant i h.pool) last
        ∙ fetch_page-Resident d reentrant f p h.pool r)
      ∙ insert_at-stored small

  stored-Resident :
      (q : Page) × (q.page_data ≡ write_record t page)
      × (q.page_id ≡ p.page_id)
      × Resident d f q stored.pool
  unfolding Page.pin
  stored-Resident =
      written-Resident d f (write_record t page) (Page.pin p) pinned
        (pin_resident-Resident d f p h.pool r) (λ e. omega (arith, e))

  new_rid-IsValid : ltb_ℤ p.page_id (pos 0) ≡ false → is_valid new_rid ≡ true
  unfolding is_valid
  new_rid-IsValid valid =
      let low : ltb (n_slots page + 0) 0 ≡ false = ground arith in rw (valid, low) refl

  get_tuple-stored :
      (old : Tuple)
      → ltb_ℤ p.page_id (pos 0) ≡ false
      → get_tuple d reentrant new_rid old stored
        ≡ answer d
            (unpinned d p.page_id false (record stored { pool = pin_resident d f stored.pool }))
            (read_tuple new_rid old (write_record t page))
  get_tuple-stored old valid =
      let (q, bytes, name, there) = stored-Resident in
      let fetched : fetch_page d reentrant p.page_id stored.pool
          ≡ done (pin_resident d f stored.pool, some f) =
        ap (λ i. fetch_page d reentrant i stored.pool) (sym name)
        ∙ fetch_page-Resident d reentrant f q stored.pool there in
      get_tuple-answer d reentrant new_rid old stored (pin_resident d f stored.pool) f
        (new_rid-IsValid valid) fetched
      ∙ ap
          (λ b.
            answer d
              (unpinned d p.page_id false (record stored { pool = pin_resident d f stored.pool }))
              (read_tuple new_rid old b))
          (pin_resident-bytes d f q stored.pool there ∙ bytes)

  -- Where the pool holds the last page of the table, whose id is not negative, the header of the page
  -- is in its bounds, the page has room, the records of the page have reached the end of the new slot,
  -- the record to insert has 1 to 2048 bytes, and the record to fill is one: `InsertTuple` answers true
  -- with the last page's id and the number of the slot, and `GetTuple` of that identifier answers true
  -- then, and fills the record with the size and the bytes that were inserted.
  pub insert_tuple-get_tuple :
      (old : Tuple) (whole : IsHeapPage page) (is : IsTuple old) (positive : 0 < t.size)
      (small : t.size ≤ 2048)
      → ltb_ℤ p.page_id (pos 0) ≡ false
      → slot_at (n_slots page) + 8 ≤ next_free page
      → (now later : TableHeap d) × (read : Tuple) × (insert_tuple d reentrant t h
          ≡ done (now, some new_rid))
        × (get_tuple d reentrant new_rid old now ≡ done (later, some read))
        × (read.size ≡ t.size)
        × ((i : ℕ) → i < t.size → byte_at read.bytes i ≡ byte_at t.bytes i)
  insert_tuple-get_tuple old whole is positive small valid reached =
      let (same, size, bytes) =
        read_tuple-add t page whole room old is p.page_id positive small reached in
      let later : TableHeap d =
        unpinned d p.page_id false (record stored { pool = pin_resident d f stored.pool }) in
      (
        stored,
        later,
        got t page whole room old is p.page_id positive small,
        insert_tuple-stored small,
        get_tuple-stored old valid ∙ ap (answer d later) same,
        size,
        bytes,
      )
