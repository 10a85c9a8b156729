-- ===== src/Index/Tests.antt =====
-- BPlusTree.cpp and index_iterator.h on small leaves.
use altas_dbpro.Prelude.{
  ℕ, ◌-◌, ◌<◌, ◌≤◌, ◌≡◌, refl, ap, ◌⊎◌, true, false, some, List, [], ◌∷◌, ◌++◌, if◌then◌else◌,
  arith, ◌==◌,
}
use altas_dbpro.Prelude.Ints.{ℤ, pos, negsuc, int_eq, eqb_ℤ, ltb_ℤ, ◌≤ℤ◌}
use altas_dbpro.Prelude.Run.{done}
use altas_dbpro.Rid.{Rid}
use altas_dbpro.Page.{new_page, zero_bytes}
use altas_dbpro.BufferPool.{Pool, first_free}
use altas_dbpro.BufferPool.Tests.{disk, pool}
use altas_dbpro.Index.Node.{
  int_at, nat_of, size_of, key_at, rid_at, binary_search, collect_back, collect_forward,
  insert_into_leaf, split_leaf_page,
}
use altas_dbpro.Index.Node.Slots.{
  IsPage, Writes, AllFit, put_all, put_all-IsPage, int_at-put_all, zero_bytes-IsPage,
}
use altas_dbpro.Index.Node.Finding.{Parts, binary_search-returns}
use altas_dbpro.Index.Node.Collecting.{matches, binary_search-matches}
use altas_dbpro.Index.Node.Inserting.{IsSingle, IsSingle-IsSorted, Lists, insert_into_leaf-Lists}
use altas_dbpro.Index.Node.Splitting.{Halves, split_leaf_page-Halves}
use altas_dbpro.Index.Tree.{Tree, init, insert, get_value}
use altas_dbpro.Index.Tree.Roundtrip.{insert-get_value}
use altas_dbpro.Index.Iterator.{at_leaf, next_leaf, next_times, get_key, get_rid}
use altas_dbpro.Index.Iterator.Scanning.{next_times-entries, next_times-endless}

abbrev rid : Rid
rid = record { page_id = pos 9; slot_num = pos 1 }

-- A leaf with the key 5, linked to the page 3.
abbrev single_writes : Writes
single_writes = (5, pos 3) ∷ (4, pos 1) ∷ (3, pos 9) ∷ (2, pos 5) ∷ (1, pos 1) ∷ (0, pos 1) ∷ []

single_fit : AllFit single_writes
single_fit = (
  omega arith,
  omega arith,
  (
    omega arith,
    omega arith,
    (
      omega arith,
      omega arith,
      (omega arith, omega arith, (omega arith, omega arith, (omega arith, omega arith, tt))),
    ),
  ),
)

abbrev single : List ℕ
single = put_all single_writes zero_bytes

single-IsPage : IsPage single
single-IsPage = put_all-IsPage single_writes zero_bytes single_fit zero_bytes-IsPage

single_count : int_at single 1 ≡ pos 1
single_count = int_at-put_all single_writes zero_bytes 1 single_fit zero_bytes-IsPage

single_size : size_of single ≡ 1
unfolding size_of
single_size = ap nat_of single_count

single-IsSingle : IsSingle single
single-IsSingle = record { page = single-IsPage; one = single_size }

binary_search-returns_example :
    (r : ℕ) × (binary_search (pos 5) single ≡ done r) × (r ≤ size_of single)
binary_search-returns_example = binary_search-returns (pos 5) single (omega (arith, single_size))

binary_search-matches_example :
    (r : ℕ) × (binary_search (pos 5) single ≡ done r)
    × Parts (pos 5) single (size_of single) r
    × (collect_back (pos 5) (size_of single) single r []
          ++ collect_forward (pos 5) (size_of single) single r (size_of single - r)
        ≡ matches (pos 5) (size_of single) single 0 (size_of single))
binary_search-matches_example =
    binary_search-matches (pos 5) single (IsSingle-IsSorted single single-IsSingle)
      (omega (arith, single_size))

insert_into_leaf-Lists_example :
    (after : List ℕ) × (insert_into_leaf (pos 7) rid single ≡ done after)
    × (((key_at single 0 ≤ℤ pos 7)
          × Lists after
              (key_at single 0)
              (pos 7)
              (int_at single 4)
              (pos 9)
              (pos 1)
              (int_at single 7))
        ⊎ (¬ (key_at single 0 ≤ℤ pos 7)
            × Lists after
                (pos 7)
                (pos 9)
                (pos 1)
                (key_at single 0)
                (int_at single 4)
                (int_at single 7)))
insert_into_leaf-Lists_example =
    insert_into_leaf-Lists single (pos 7) rid single-IsSingle (omega arith) (omega arith)
      (omega arith)

-- A leaf with two keys.
abbrev pair_writes : Writes
pair_writes = (3, pos 9) ∷ (2, pos 5) ∷ (1, pos 2) ∷ (0, pos 1) ∷ []

pair_fit : AllFit pair_writes
pair_fit = (
  omega arith,
  omega arith,
  (omega arith, omega arith, (omega arith, omega arith, (omega arith, omega arith, tt))),
)

abbrev pair : List ℕ
pair = put_all pair_writes zero_bytes

pair_size : size_of pair ≡ 2
unfolding size_of
pair_size = ap nat_of (int_at-put_all pair_writes zero_bytes 1 pair_fit zero_bytes-IsPage)

split_leaf_page-Halves_example : Halves pair (pos 12) 2 1 (split_leaf_page (pos 12) pair zero_bytes)
split_leaf_page-Halves_example =
    split_leaf_page-Halves (pos 12) pair zero_bytes 2 (omega arith)
      (put_all-IsPage pair_writes zero_bytes pair_fit zero_bytes-IsPage) zero_bytes-IsPage pair_size
      (omega arith) (omega arith)

abbrev tree : Tree disk
tree = init disk pool (pos 3) (pos 3)

one_free : first_free pool.pages 0 ≡ some 0
unfolding first_free
one_free = refl

eight_is_new : (pos 8 == negsuc 0) ≡ false
unfolding eqb_ℤ
eight_is_new = refl

insert-get_value_example :
    (u v : Tree disk) × (insert disk false (pos 5) rid tree ≡ done (u, true))
    × (get_value disk false (pos 5) [] u
        ≡ done (v, (if pos 5 == pos 5 then rid ∷ [] else []), pos 5 == pos 5))
insert-get_value_example =
    insert-get_value disk tree (pos 5) rid 0 one_free refl eight_is_new (omega arith) (omega arith)
      (omega arith) false (pos 5) []

-- The pool with the leaf in its only frame.
abbrev leaf_pool : Pool disk
leaf_pool = record pool { pages = some (record new_page { page_data = single }) ∷ [] }

next_times-entries_example :
    (next_times disk leaf_pool 0 (at_leaf 0 (pos 0) (pos 7) false)
      ≡ at_leaf 0 (pos 0) (pos 7) false)
    × (get_key disk leaf_pool (at_leaf 0 (pos 0) (pos 7) false) ≡ key_at single 0)
    × (get_rid disk leaf_pool (at_leaf 0 (pos 0) (pos 7) false) ≡ rid_at 1 single 0)
    × (next_times disk leaf_pool 1 (at_leaf 0 (pos 0) (pos 7) false) ≡ (
        if ltb_ℤ (next_leaf single) (pos 0)
        then at_leaf 0 (pos 1) (pos 7) true
        else at_leaf 0 (pos 0) (next_leaf single) false))
next_times-entries_example =
    next_times-entries disk leaf_pool 0 1 (pos 7) single_count 0 (omega arith)

single_link : ltb_ℤ (next_leaf single) (pos 0) ≡ false
unfolding ltb_ℤ
single_link =
    rw (single_size, int_at-put_all single_writes zero_bytes 5 single_fit zero_bytes-IsPage) refl

next_times-endless_example :
    (i : ℕ) × (page_id : ℤ) × (i < 1)
    × (next_times disk leaf_pool 5 (at_leaf 0 (pos 0) (pos 7) false)
        ≡ at_leaf 0 (pos i) page_id false)
next_times-endless_example =
    next_times-endless disk leaf_pool 0 1 (pos 7) single_count (omega arith) single_link 5
