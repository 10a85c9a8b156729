-- ===== src/Heap/Tests.antt =====
-- Records of 20 bytes, alone and on a page (types.h, table_heap.cpp).
use altas_dbpro.Prelude.{
  some, ℕ, ◌<◌, ◌≡◌, refl, ap, ◌∙◌, false, List, [], ◌∷◌, arith, length-replicate,
}
use altas_dbpro.Prelude.Ints.{pos, eqb_ℤ, ltb_ℤ}
use altas_dbpro.Bytes.{byte_at, read_int}
use altas_dbpro.Index.Node.{nat_of}
use altas_dbpro.Prelude.Maps.{find}
use altas_dbpro.Prelude.Run.{done}
use altas_dbpro.Page.{Page, new_page}
use altas_dbpro.BufferPool.Resident.{Resident}
use altas_dbpro.BufferPool.Tests.{disk, pool}
use altas_dbpro.Heap.Roundtrip.{insert_tuple-get_tuple}
use altas_dbpro.Tuple.{Tuple, new_tuple, no_bytes}
use altas_dbpro.Tuple.Values.{IsTuple}
use altas_dbpro.Heap.{
  TableHeap, insert_tuple, get_tuple, next_free, n_slots, is_full, copied_size, write_record,
  add_tuple, read_slot, read_tuple, empty_page,
}
use altas_dbpro.Heap.Slots.{Added, write_record-Added, add_tuple-Added}
use altas_dbpro.Heap.Layout.{
  empty_page-IsHeapPage, empty_page-room, empty_free, empty_slots, read_tuple-first,
}

abbrev row : Tuple
row = record new_tuple { size = 20 }

row-IsTuple : IsTuple row
unfolding no_bytes
row-IsTuple = record { whole = length-replicate {A = ℕ} 2048 0; used = omega arith }

add_tuple-Added_example :
    (now : List ℕ) × (add_tuple row empty_page ≡ done now)
    × Added row empty_page empty_page-IsHeapPage (empty_page-room row) now
add_tuple-Added_example =
    add_tuple-Added row empty_page empty_page-IsHeapPage (empty_page-room row) (omega arith)

read_tuple-first_example :
    (now : List ℕ) × (add_tuple row empty_page ≡ done now)
    × (read_tuple (record { page_id = pos 7; slot_num = pos 0 }) new_tuple now
        ≡ read_slot
            (record { page_id = pos 7; slot_num = pos 0 })
            new_tuple
            now
            (read_int row.bytes 0, read_int row.bytes 4))
read_tuple-first_example = read_tuple-first row new_tuple (pos 7) (omega arith) (omega arith)

-- The page with one such record.
abbrev page : List ℕ
page = write_record row empty_page

page-Added : Added row empty_page empty_page-IsHeapPage (empty_page-room row) page
page-Added = write_record-Added row empty_page empty_page-IsHeapPage (empty_page-room row)

page_slots : n_slots page ≡ 1
page_slots = ap nat_of page-Added.counted ∙ omega (arith, ap nat_of empty_slots)

page_free : next_free page ≡ 32
page_free = page-Added.moved ∙ omega (arith, ap nat_of empty_free)

page_room : is_full page (copied_size row) ≡ false
unfolding is_full
page_room = rw (page_slots, page_free) refl

abbrev full_page : Page
full_page = record new_page { page_data = page; page_id = pos 7 }

-- The table whose only page is in the only frame of the pool.
abbrev table : TableHeap disk
table = record {
  pool = record pool { pages = some full_page ∷ []; page_table = (pos 7, 0) ∷ [] };
  first_page_id = pos 7;
  last_page_id = pos 7;
}

table-Resident : Resident disk 0 full_page table.pool
unfolding find eqb_ℤ
table-Resident = record { in_range = omega arith; there = refl; listed = refl }

seven_valid : ltb_ℤ (pos 7) (pos 0) ≡ false
unfolding ltb_ℤ
seven_valid = refl

insert_tuple-get_tuple_example :
    (now later : TableHeap disk) × (read : Tuple) × (insert_tuple disk false row table
      ≡ done (now, some (record { page_id = pos 7; slot_num = pos (n_slots page) })))
    × (get_tuple disk false (record { page_id = pos 7; slot_num = pos (n_slots page) }) row now
        ≡ done (later, some read))
    × (read.size ≡ 20)
    × ((i : ℕ) → i < 20 → byte_at read.bytes i ≡ byte_at row.bytes i)
insert_tuple-get_tuple_example =
    insert_tuple-get_tuple disk false row table 0 full_page table-Resident refl page_room row
      page-Added.bounded row-IsTuple (omega arith) (omega arith) seven_valid
      (omega (arith, page_slots, page_free))
