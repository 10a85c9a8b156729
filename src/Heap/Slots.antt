-- ===== src/Heap/Slots.antt =====
-- The page of a table before and after a record is added (table_heap.cpp).
use altas_dbpro.Prelude.{
  ℕ, zero, suc, ◌+◌, ◌<◌, ◌≤◌, ◌≡◌, refl, ap, sym, ◌∙◌, ◌⊎◌, inl, inr, true, false, List, arith,
  length, ltb, leb,
}
use altas_dbpro.Prelude.Ints.{pos}
use altas_dbpro.Prelude.Run.{done}
use altas_dbpro.Bytes.{byte_at, read_int, write_int, copy_in, copy_out}
use altas_dbpro.Bytes.Access.{
  length-write_int, byte_at-write_int, read_int-write_int, read_int-write_elsewhere, length-copy_in,
  byte_at-copy_in, read_int-copy_apart, read_int-copy_in,
}
use altas_dbpro.Index.Node.{nat_of}
use altas_dbpro.Tuple.{Tuple, max_size}
use altas_dbpro.Heap.{
  next_free, n_slots, set_slot, set_next_free, set_n_slots, slot_at, get_slot, is_full, copied_size,
  write_record, add_tuple,
}

pub length-copy_out : (o n : ℕ) (bytes : List ℕ) → length (copy_out o n bytes) ≡ n
unfolding copy_out
length-copy_out o zero bytes = refl
length-copy_out o (suc n) bytes = ap suc (length-copy_out (suc o) n bytes)

pub byte_at-copy_out :
    (o n i : ℕ) (bytes : List ℕ) → i < n → byte_at (copy_out o n bytes) i ≡ byte_at bytes (o + i)
unfolding copy_out
byte_at-copy_out o zero i bytes lt = absurd (omega arith)
byte_at-copy_out o (suc n) zero bytes lt = ap (byte_at bytes) (omega arith)
byte_at-copy_out o (suc n) (suc i) bytes lt =
    byte_at-copy_out (suc o) n i bytes (omega arith) ∙ ap (byte_at bytes) (omega arith)

pub byte_at-prefix :
    (n i : ℕ) (bytes : List ℕ) → i < n → byte_at (copy_out 0 n bytes) i ≡ byte_at bytes i
byte_at-prefix n i bytes lt = byte_at-copy_out 0 n i bytes lt ∙ ap (byte_at bytes) (omega arith)

read_int-prefix :
    (n k : ℕ) (bytes : List ℕ) → k + 4 ≤ n → read_int (copy_out 0 n bytes) k ≡ read_int bytes k
unfolding read_int
read_int-prefix n k bytes le =
    rw
      (
        byte_at-prefix n k bytes (omega arith),
        byte_at-prefix n (k + 1) bytes (omega arith),
        byte_at-prefix n (k + 2) bytes (omega arith),
        byte_at-prefix n (k + 3) bytes (omega arith),
      )
      refl

pub add_tuple-write_record :
    (t : Tuple) (page : List ℕ) → t.size ≤ 2048 → add_tuple t page ≡ done (write_record t page)
unfolding add_tuple
add_tuple-write_record t page small =
    let fits : ltb max_size (copied_size t) ≡ false = ground (arith, small) in rw fits refl

-- A page of a table: its bytes, and the bounds of its header.
pub record IsHeapPage (page : List ℕ) : Type 0 where
  pub whole : length page ≡ 4096
  pub low : 12 ≤ next_free page
  pub high : next_free page ≤ 4096
  pub slots : n_slots page ≤ 102

module _ (t : Tuple) (page : List ℕ) (h : IsHeapPage page)
    (room : is_full page (copied_size t) ≡ false) where
  abbrev size : ℕ
  size = copied_size t

  abbrev free : ℕ
  free = next_free page

  abbrev n : ℕ
  n = n_slots page

  fits : (n < 102) × (free + size + 8 ≤ 4096)
  unfolding is_full
  fits = (ground (arith, room), ground (arith, room))

  abbrev slotted : List ℕ
  slotted = set_slot n free size page

  abbrev source : List ℕ
  source = copy_out 0 size t.bytes

  abbrev copied : List ℕ
  copied = copy_in free source slotted

  abbrev advanced : List ℕ
  advanced = set_next_free (free + size) copied

  abbrev after : List ℕ
  after = set_n_slots (n + 1) advanced

  length-slotted : length slotted ≡ 4096
  length-slotted =
      length-write_int (slot_at n + 4) (pos size) (write_int (slot_at n) (pos free) page)
      ∙ length-write_int (slot_at n) (pos free) page
      ∙ h.whole

  source_fits : free + length source ≤ length slotted
  source_fits = omega (arith, length-copy_out 0 size t.bytes, length-slotted, fits)

  length-copied : length copied ≡ 4096
  length-copied = length-copy_in free source slotted ∙ length-slotted

  length-advanced : length advanced ≡ 4096
  length-advanced = length-write_int 4 (pos (free + size)) copied ∙ length-copied

  header_free : read_int after 4 ≡ pos (free + size)
  header_free =
      read_int-write_elsewhere 8 4 (pos (n + 1)) advanced (omega (arith, length-advanced))
        (inr (omega arith))
      ∙ read_int-write_int 4 (pos (free + size)) copied (omega (arith, fits))
          (omega (arith, length-copied))

  header_slots : read_int after 8 ≡ pos (n + 1)
  header_slots =
      read_int-write_int 8 (pos (n + 1)) advanced (omega (arith, fits))
        (omega (arith, length-advanced))

  -- Behind the header the last two writes are not seen.
  after_int : (o : ℕ) → 12 ≤ o → read_int after o ≡ read_int copied o
  after_int o le =
      read_int-write_elsewhere 8 o (pos (n + 1)) advanced (omega (arith, length-advanced))
        (inl (omega arith))
      ∙ read_int-write_elsewhere 4 o (pos (free + size)) copied (omega (arith, length-copied))
          (inl (omega arith))

  after_byte : (i : ℕ) → 12 ≤ i → byte_at after i ≡ byte_at copied i
  after_byte i le =
      byte_at-write_int 8 (pos (n + 1)) advanced i (omega (arith, length-advanced))
      ∙ ground arith
      ∙ byte_at-write_int 4 (pos (free + size)) copied i (omega (arith, length-copied))
      ∙ ground arith

  -- An `int` that the bytes of the record do not touch, and one that they cover.
  copied_apart :
      (o : ℕ) → (o + 4 ≤ free) ⊎ (free + size ≤ o) → read_int copied o ≡ read_int slotted o
  copied_apart o apart =
      read_int-copy_apart free o source slotted source_fits
        (ground (arith, apart, length-copy_out 0 size t.bytes))

  copied_inside : (k : ℕ) → k + 4 ≤ size → read_int copied (free + k) ≡ read_int t.bytes k
  copied_inside k le =
      read_int-copy_in free k source slotted source_fits
        (omega (arith, le, length-copy_out 0 size t.bytes))
      ∙ read_int-prefix size k t.bytes le

  slotted_offset : read_int slotted (slot_at n) ≡ pos free
  slotted_offset =
      read_int-write_elsewhere (slot_at n + 4) (slot_at n) (pos size)
        (write_int (slot_at n) (pos free) page)
        (omega (arith, fits, h.whole, length-write_int (slot_at n) (pos free) page))
        (inr (omega arith))
      ∙ read_int-write_int (slot_at n) (pos free) page (omega (arith, fits))
          (omega (arith, fits, h.whole))

  slotted_size : read_int slotted (slot_at n + 4) ≡ pos size
  slotted_size =
      read_int-write_int (slot_at n + 4) (pos size) (write_int (slot_at n) (pos free) page)
        (omega (arith, fits))
        (omega (arith, fits, h.whole, length-write_int (slot_at n) (pos free) page))

  slotted_apart :
      (o : ℕ) → (o + 4 ≤ slot_at n) ⊎ (slot_at n + 8 ≤ o) → read_int slotted o ≡ read_int page o
  slotted_apart o apart =
      read_int-write_elsewhere (slot_at n + 4) o (pos size) (write_int (slot_at n) (pos free) page)
        (omega (arith, fits, h.whole, length-write_int (slot_at n) (pos free) page))
        (ground (arith, apart))
      ∙ read_int-write_elsewhere (slot_at n) o (pos free) page (omega (arith, fits, h.whole))
          (ground (arith, apart))

  after-next_free : next_free after ≡ free + size
  after-next_free = ap nat_of header_free

  -- What the page is after the record has been added.
  pub record Added (now : List ℕ) : Type 0 where
    pub bounded : IsHeapPage now
    pub room_left : free + size + 8 ≤ 4096
    pub counted : read_int now 8 ≡ pos (n + 1)
    pub moved : next_free now ≡ free + size
    pub content : (i : ℕ) → i < size → byte_at now (free + i) ≡ byte_at t.bytes i

  -- The slots then. The new slot holds the offset and the size of the record if it lies before the
  -- bytes of the record, and `int`s of the record itself if they cover it. The slots that neither the
  -- record nor the new slot covers are what they were.
  pub record Slotted (now : List ℕ) : Type 0 where
    pub slot : slot_at n + 8 ≤ free → get_slot now n ≡ (pos free, pos size)
    pub overwritten :
        (k : ℕ)
        → free + k ≡ slot_at n
        → k + 8 ≤ size
        → get_slot now n ≡ (read_int t.bytes k, read_int t.bytes (k + 4))
    pub others :
        (m : ℕ)
        → m < n
        → (slot_at m + 8 ≤ free) ⊎ (free + size ≤ slot_at m)
        → get_slot now m ≡ get_slot page m

  above : (i : ℕ) → leb free (free + i) ≡ true
  above i = ground arith

  below : (i : ℕ) → i < size → ltb (free + i) (free + length source) ≡ true
  below i lt = ground (arith, lt, length-copy_out 0 size t.bytes)

  added : Added after
  added = record {
    bounded = record {
      whole = length-write_int 8 (pos (n + 1)) advanced ∙ length-advanced;
      low = rw (ap nat_of header_free) (omega (arith, h.low));
      high = rw (ap nat_of header_free) (omega (arith, fits));
      slots = rw (ap nat_of header_slots) (omega (arith, fits));
    };
    room_left = fits.1;
    counted = header_slots;
    moved = ap nat_of header_free;
    content = λ i lt.
        after_byte (free + i) (omega (arith, h.low))
        ∙ byte_at-copy_in free source slotted (free + i) source_fits
        ∙ rw (above i, below i lt)
            (ap (byte_at source) (omega arith) ∙ byte_at-prefix size i t.bytes lt);
  }

  after-Slotted : Slotted after
  after-Slotted = record {
    slot = λ le.
        let first =
          after_int (slot_at n) (omega arith)
          ∙ copied_apart (slot_at n) (inl (omega (arith, le)))
          ∙ slotted_offset in
        let second =
          after_int (slot_at n + 4) (omega arith)
          ∙ copied_apart (slot_at n + 4) (inl (omega (arith, le)))
          ∙ slotted_size in
        rw (first, second) refl;
    overwritten = λ k e le.
        let first =
          after_int (slot_at n) (omega arith)
          ∙ ap (read_int copied) (sym e)
          ∙ copied_inside k (omega (arith, le)) in
        let second =
          after_int (slot_at n + 4) (omega arith)
          ∙ ap (read_int copied) (omega (arith, e))
          ∙ copied_inside (k + 4) (omega (arith, le)) in
        rw (first, second) refl;
    others = λ m lt apart.
        let first =
          after_int (slot_at m) (omega arith)
          ∙ copied_apart (slot_at m) (ground (arith, apart))
          ∙ slotted_apart (slot_at m) (inl (omega (arith, lt))) in
        let second =
          after_int (slot_at m + 4) (omega arith)
          ∙ copied_apart (slot_at m + 4) (ground (arith, apart))
          ∙ slotted_apart (slot_at m + 4) (inl (omega (arith, lt))) in
        rw (first, second) refl;
  }

  pub write_record-Added : Added (write_record t page)
  unfolding write_record
  write_record-Added = added

  pub write_record-Slotted : Slotted (write_record t page)
  unfolding write_record
  write_record-Slotted = after-Slotted

  -- `InsertTuple` of a record of at most 2048 bytes into a page whose header is in its bounds and that
  -- has room. The writes go through; then the record and a further slot fit behind the others, the
  -- bytes of the record stand there, the header counts the record and its end, and the page is within
  -- its bounds again.
  pub add_tuple-Added : t.size ≤ 2048 → (now : List ℕ) × (add_tuple t page ≡ done now) × Added now
  add_tuple-Added small =
      (write_record t page, add_tuple-write_record t page small, write_record-Added)
