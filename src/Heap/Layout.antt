-- ===== src/Heap/Layout.antt =====
-- `GetTuple` of a record that `InsertTuple` has added to a page, and the first record of a page
-- (table_heap.cpp).
use altas_dbpro.Prelude.{
  ℕ, ◌+◌, ◌-◌, ◌<◌, ◌≤◌, ◌≡◌, refl, ap, subst, ◌∙◌, inr, true, false, List, arith, length,
  length-replicate, ltb, leb, nat_eqb, nat_eq,
}
use altas_dbpro.Prelude.Ints.{ℤ, pos, ltb_ℤ}
use altas_dbpro.Prelude.Run.{done}
use altas_dbpro.Rid.{Rid}
use altas_dbpro.Bytes.{byte_at, read_int, write_int, copy_in, copy_out}
use altas_dbpro.Bytes.Access.{
  byte_at-copy_in, length-write_int, read_int-write_int, read_int-write_elsewhere,
}
use altas_dbpro.Page.{zero_bytes}
use altas_dbpro.Index.Node.{nat_of}
use altas_dbpro.Tuple.{Tuple, set_size}
use altas_dbpro.Tuple.Values.{IsTuple}
use altas_dbpro.Heap.{
  reading, next_free, n_slots, slot_at, get_slot, is_full, copied_size, write_record, add_tuple,
  read_slot, read_tuple, empty_page,
}
use altas_dbpro.Heap.Slots.{
  IsHeapPage, Added, add_tuple-write_record, write_record-Added, write_record-Slotted,
  byte_at-copy_out, length-copy_out,
}

-- At the identifier of the new record, the slot decides.
slot_read :
    (t : Tuple) (page : List ℕ) (old : Tuple) (id : ℤ)
    → IsHeapPage page
    → is_full page (copied_size t) ≡ false
    → read_tuple (record { page_id = id; slot_num = pos (n_slots page) }) old (write_record t page)
      ≡ read_slot
          (record { page_id = id; slot_num = pos (n_slots page) })
          old
          (write_record t page)
          (get_slot (write_record t page) (n_slots page))
unfolding read_tuple ltb_ℤ
slot_read t page old id h room =
    let low : ltb (n_slots page + 0) 0 ≡ false = ground arith in
    let high : ltb (n_slots page + 0) (n_slots page + 1 + 0) ≡ true = ground arith in
    let counted = (write_record-Added t page h room).counted in rw (counted, low, high) refl

module _ (t : Tuple) (page : List ℕ) (h : IsHeapPage page)
    (room : is_full page (copied_size t) ≡ false) (old : Tuple) (is : IsTuple old) (id : ℤ)
    (positive : 0 < t.size) (small : t.size ≤ 2048) where
  abbrev now : List ℕ
  now = write_record t page

  abbrev rid : Rid
  rid = record { page_id = id; slot_num = pos (n_slots page) }

  abbrev pub got : Tuple
  got = record {
    bytes = copy_in 0 (copy_out (next_free page) (copied_size t) now) old.bytes;
    size = copied_size t;
    rid = rid;
  }

  abbrev size : ℕ
  size = copied_size t

  abbrev free : ℕ
  free = next_free page

  same : size ≡ t.size
  same = ground (arith, small)

  added : Added t page h room now
  added = write_record-Added t page h room

  read_slot-got : 0 < size → size ≤ 2048 → read_slot rid old now (pos free, pos size) ≡ reading got
  unfolding read_slot set_size
  read_slot-got positive small =
      let a : nat_eqb size 0 ≡ false = ground (arith, positive) in
      let b : ltb 2147483647 (free + size) ≡ false = ground (arith, added.room_left) in
      let c : ltb 4096 (free + size) ≡ false = ground (arith, added.room_left) in
      let e : ltb 2048 size ≡ false = ground (arith, small) in
      let f : leb size 2048 ≡ true = ground (arith, small) in rw (a, b, c, e, f) refl

  got_byte : (i : ℕ) → i < size → byte_at got.bytes i ≡ byte_at t.bytes i
  got_byte i lt =
      let l : leb 0 i ≡ true = ground arith in
      let r : ltb i (0 + length (copy_out free size now)) ≡ true =
        ground (arith, lt, length-copy_out free size now) in
      byte_at-copy_in 0 (copy_out free size now) old.bytes i
        (omega (arith, is.whole, added.room_left, length-copy_out free size now, small, same))
      ∙ rw (l, r)
          (byte_at-copy_out free size (i - 0) now (omega (arith, lt))
            ∙ ap (λ j. byte_at now (free + j)) (omega arith)
            ∙ added.content i lt)

  -- A record that is not empty and not too large, in a page with room whose records have reached the
  -- end of the new slot: `GetTuple` of the identifier fills a record with the same size, the same
  -- bytes and this identifier.
  pub read_tuple-add :
      slot_at (n_slots page) + 8 ≤ next_free page
      → (read_tuple rid old now ≡ reading got)
        × (got.size ≡ t.size)
        × ((i : ℕ) → i < t.size → byte_at got.bytes i ≡ byte_at t.bytes i)
  read_tuple-add reached = (
    slot_read t page old id h room
        ∙ rw ((write_record-Slotted t page h room).slot reached)
            (read_slot-got (omega (arith, positive, same)) (omega (arith, small, same))),
    same,
    λ i lt. got_byte i (omega (arith, lt, same)),
  )

zero_length : length zero_bytes ≡ 4096
unfolding zero_bytes
zero_length = length-replicate {A = ℕ} 4096 0

abbrev headed : List ℕ
headed = write_int 4 (pos 12) zero_bytes

length-headed : length headed ≡ 4096
length-headed = length-write_int 4 (pos 12) zero_bytes ∙ zero_length

pub empty_free : read_int empty_page 4 ≡ pos 12
unfolding empty_page
empty_free =
    read_int-write_elsewhere 8 4 (pos 0) headed (omega (arith, length-headed)) (inr (omega arith))
    ∙ read_int-write_int 4 (pos 12) zero_bytes (omega arith) (omega (arith, zero_length))

pub empty_slots : read_int empty_page 8 ≡ pos 0
unfolding empty_page
empty_slots = read_int-write_int 8 (pos 0) headed (omega arith) (omega (arith, length-headed))

pub empty_page-IsHeapPage : IsHeapPage empty_page
unfolding empty_page
empty_page-IsHeapPage = record {
  whole = length-write_int 8 (pos 0) headed ∙ length-headed;
  low = rw empty_free (omega arith);
  high = rw empty_free (omega arith);
  slots = rw empty_slots (omega arith);
}

pub empty_page-room : (t : Tuple) → is_full empty_page (copied_size t) ≡ false
unfolding is_full
empty_page-room t = rw (empty_free, empty_slots) (ground arith)

-- The first record of a page, of 8 to 2048 bytes: the writes of `InsertTuple` go through, and its slot
-- lies where its bytes go, so that `GetTuple` of its identifier takes the first two `int`s of the
-- record for its offset and its size.
pub read_tuple-first :
    (t old : Tuple) (id : ℤ)
    → 8 ≤ t.size
    → t.size ≤ 2048
    → (now : List ℕ) × (add_tuple t empty_page ≡ done now)
      × (read_tuple (record { page_id = id; slot_num = pos 0 }) old now
          ≡ read_slot
              (record { page_id = id; slot_num = pos 0 })
              old
              now
              (read_int t.bytes 0, read_int t.bytes 4))
read_tuple-first t old id le small =
    let page = write_record t empty_page in
    let now = write_record-Slotted t empty_page empty_page-IsHeapPage (empty_page-room t) in
    let n : n_slots empty_page ≡ 0 = ap nat_of empty_slots in
    let free : next_free empty_page ≡ 12 = ap nat_of empty_free in
    let over = now.overwritten 0 (omega (arith, n, free)) (ground (arith, le)) in
    let rid : ℕ → Rid = λ m. record { page_id = id; slot_num = pos m } in
    (
      page,
      add_tuple-write_record t empty_page small,
      subst (λ m. read_tuple (rid m) old page ≡ read_slot (rid m) old page (get_slot page m)) n
            (slot_read t empty_page old id empty_page-IsHeapPage (empty_page-room t))
          ∙ ap (read_slot (rid 0) old page)
              (subst (λ m. get_slot page m ≡ (read_int t.bytes 0, read_int t.bytes 4)) n over),
    )
