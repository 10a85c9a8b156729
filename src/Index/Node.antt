-- ===== src/Index/Node.antt =====
-- The nodes of BPlusTree.cpp, which are the bytes of a page read as `int`s: the kind, the number of
-- keys, the keys, and behind them the records of a leaf or the children of an inner node. A size is
-- never negative, since only these functions write it.
pub mod Slots
pub mod Finding
pub mod Collecting
pub mod Inserting
pub mod Copying
pub mod Splitting
use altas_dbpro.Prelude.{
  ℕ, zero, suc, ◌+◌, ◌-◌, ◌*◌, ◌/◌, Bool, true, false, not, List, [], ◌∷◌, if◌then◌else◌, ltb, ◌==◌,
  nat_eq,
}
use altas_dbpro.Prelude.Ints.{ℤ, pos, negsuc, int_eq, ltb_ℤ, minus}
use altas_dbpro.Prelude.Run.{Run, done, undefined, out_of_fuel, ◌>>=◌}
use altas_dbpro.Rid.{Rid}
use altas_dbpro.Bytes.{read_int, write_int}

-- `data[i]` and `data[i] = v`.
unfoldable pub int_at : List ℕ → ℕ → ℤ
int_at bytes i = read_int bytes (4 * i)

unfoldable pub put_int : ℕ → ℤ → List ℕ → List ℕ
put_int i v bytes = write_int (4 * i) v bytes

abbrev pub nat_of : ℤ → ℕ
nat_of (pos n) = n
nat_of (negsuc n) = 0

-- `data[1]`.
unfoldable pub size_of : List ℕ → ℕ
size_of bytes = nat_of (int_at bytes 1)

unfoldable pub is_leaf : List ℕ → Bool
is_leaf bytes = int_at bytes 0 == pos 1

abbrev pub key_at : List ℕ → ℕ → ℤ
key_at bytes i = int_at bytes (2 + i)

-- The record of the entry `i` in a leaf with `size` keys.
unfoldable pub rid_at : ℕ → List ℕ → ℕ → Rid
rid_at size bytes i = record {
  page_id = int_at bytes (2 + size + i * 2);
  slot_num = int_at bytes (2 + size + i * 2 + 1);
}

-- A page has room for that many `int`s.
abbrev pub ints_on_page : ℕ
ints_on_page = 1024

-- The loop of `BinarySearch`, on fuel. It reads `data[2 + mid]`, which must stand on the page; a `mid`
-- whose sum does not fit in an `int` is outside of it too.
unfoldable pub search_loop : ℕ → ℤ → List ℕ → ℕ → ℕ → Run ℕ
search_loop zero key bytes left right = if ltb left right then out_of_fuel else done left
search_loop (suc fuel) key bytes left right = elim (ltb left right) [
  | false ↦ done left
  | true ↦ elim (ltb (2 + (left + right) / 2) ints_on_page) [
    | false ↦ undefined
    | true ↦ elim (ltb_ℤ key (key_at bytes ((left + right) / 2))) [
      | false ↦ search_loop fuel key bytes ((left + right) / 2 + 1) right
      | true ↦ search_loop fuel key bytes left ((left + right) / 2)
    ]
  ]
]

unfoldable pub binary_search : ℤ → List ℕ → Run ℕ
unfolding search_loop size_of
binary_search key bytes = search_loop (size_of bytes) key bytes 0 (size_of bytes)

-- The loops of `GetValue`: before `i`, downwards, and the `k` entries from `i` on.
unfoldable pub collect_back : ℤ → ℕ → List ℕ → ℕ → List Rid → List Rid
collect_back key size bytes zero result = result
collect_back key size bytes (suc i) result =
    if key_at bytes i == key
    then collect_back key size bytes i (rid_at size bytes i ∷ result)
    else result

unfoldable pub collect_forward : ℤ → ℕ → List ℕ → ℕ → ℕ → List Rid
collect_forward key size bytes i zero = []
collect_forward key size bytes i (suc k) =
    let rest = collect_forward key size bytes (suc i) k in
    if key_at bytes i == key then rid_at size bytes i ∷ rest else []

-- The body of the loop of `InsertIntoLeaf`.
unfoldable pub move_up : ℕ → ℕ → List ℕ → List ℕ
unfolding put_int int_at
move_up size i bytes =
    let keys = put_int (2 + i) (int_at bytes (2 + i - 1)) bytes in
    let pages = put_int (2 + size + i * 2) (int_at keys (2 + size + (i - 1) * 2)) keys in
    put_int (2 + size + i * 2 + 1) (int_at pages (2 + size + (i - 1) * 2 + 1)) pages

-- Its loop, from `i = at + k` down to `i = at + 1`.
unfoldable pub make_room : ℕ → ℕ → ℕ → List ℕ → List ℕ
make_room size at zero bytes = bytes
make_room size at (suc k) bytes = make_room size at k (move_up size (at + suc k) bytes)

unfoldable pub put_entry : ℕ → ℕ → ℤ → Rid → List ℕ → List ℕ
unfolding put_int
put_entry size at key value bytes = put_int 1 (pos (size + 1)) (
    put_int (2 + size + at * 2 + 1) value.slot_num
      (put_int (2 + size + at * 2) value.page_id (put_int (2 + at) key bytes)))

unfoldable pub insert_into_leaf : ℤ → Rid → List ℕ → Run (List ℕ)
unfolding binary_search make_room put_entry
insert_into_leaf key value bytes = do
  at ← binary_search key bytes
  done (
      put_entry (size_of bytes) at key value
        (make_room (size_of bytes) at (size_of bytes - at) bytes))

-- The loop of `SplitLeafPage` at the `k` entries from `i` on.
unfoldable pub copy_entries : ℕ → ℕ → ℕ → List ℕ → ℕ → ℕ → List ℕ → List ℕ
unfolding put_int int_at
copy_entries old_size split size old i zero new = new
copy_entries old_size split size old i (suc k) new =
    copy_entries old_size split size old (suc i) k (
      put_int (2 + size + i * 2 + 1) (int_at old (2 + old_size + (split + i) * 2 + 1)) (
        put_int (2 + size + i * 2) (int_at old (2 + old_size + (split + i) * 2))
          (put_int (2 + i) (int_at old (2 + split + i)) new)))

-- What a split leaves: the old node, the new one and the key between them.
pub record Split : Type 0 where
  pub old : List ℕ
  pub new : List ℕ
  pub middle_key : ℤ

abbrev pub split_point : ℕ → ℕ
split_point old_size = (old_size + 1) / 2

unfoldable pub split_leaf_page : ℤ → List ℕ → List ℕ → Split
unfolding copy_entries put_int int_at size_of
split_leaf_page new_page_id old new =
    let old_size = size_of old in
    let split = split_point old_size in
    let size = old_size - split in
    let fresh = put_int 1 (pos size) (put_int 0 (pos 1) new) in
    let copied = copy_entries old_size split size old 0 size fresh in
    let cut = put_int 1 (pos split) old in
    let linked = put_int (2 + size + size * 2) (int_at cut (2 + old_size + old_size * 2)) copied in
    record {
      old = put_int (2 + old_size + old_size * 2) new_page_id cut;
      new = linked;
      middle_key = int_at linked 2;
    }

-- The loops of `SplitInternalPage`, over keys and over children.
unfoldable pub copy_ints : ℕ → ℕ → List ℕ → ℕ → List ℕ → List ℕ
unfolding put_int int_at
copy_ints to from old zero new = new
copy_ints to from old (suc k) new =
    copy_ints (suc to) (suc from) old k (put_int to (int_at old from) new)

unfoldable pub split_internal_page : List ℕ → List ℕ → Split
unfolding copy_ints put_int int_at size_of
split_internal_page old new =
    let old_size = size_of old in
    let split = old_size / 2 in
    let size = old_size - split - 1 in
    let fresh = put_int 1 (minus old_size (split + 1)) (put_int 0 (pos 0) new) in
    let keys = copy_ints 2 (2 + split + 1) old size fresh in
    record {
      old = put_int 1 (pos split) old;
      new = copy_ints (2 + size + 1) (2 + old_size + 1 + split + 1) old (old_size - split) keys;
      middle_key = int_at old (2 + split);
    }

-- The body and the loop of `Remove`, at the `k` entries from `i` on.
unfoldable pub move_down : ℕ → ℕ → List ℕ → List ℕ
unfolding put_int int_at
move_down size i bytes =
    let keys = put_int (2 + i) (int_at bytes (2 + i + 1)) bytes in
    let pages = put_int (2 + size + i * 2) (int_at keys (2 + size + (i + 1) * 2)) keys in
    put_int (2 + size + i * 2 + 1) (int_at pages (2 + size + (i + 1) * 2 + 1)) pages

unfoldable pub close_gap : ℕ → ℕ → ℕ → List ℕ → List ℕ
unfolding move_down
close_gap size i zero bytes = bytes
close_gap size i (suc k) bytes = close_gap size (suc i) k (move_down size i bytes)

unfoldable pub remove_entry : ℕ → List ℕ → List ℕ
unfolding close_gap put_int
remove_entry at bytes =
    let size = size_of bytes in put_int 1 (pos (size - 1)) (close_gap size at (size - 1 - at) bytes)
