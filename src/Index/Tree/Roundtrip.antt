-- ===== src/Index/Tree/Roundtrip.antt =====
-- `Insert` into the empty tree and `GetValue` afterwards (BPlusTree.cpp).
use altas_dbpro.Prelude.{
  ℕ, ◌≡◌, ◌≢◌, refl, ap, ◌∙◌, inl, inr, Bool, true, false, not, some, List, [], ◌∷◌, ◌++◌, arith,
  if◌then◌else◌, ◌==◌, nat_eq, ==_refl,
}
use altas_dbpro.Prelude.Ints.{ℤ, pos, negsuc, int_eq, eqb_ℤ}
use altas_dbpro.Prelude.Run.{done}
use altas_dbpro.Rid.{Rid}
use altas_dbpro.Bytes.{IsInt}
use altas_dbpro.Page.{Page, set_dirty, set_data, zero_bytes, set_page_id, reset}
use altas_dbpro.Page
use altas_dbpro.BufferPool.{
  Disk, Pool, first_free, make_page, cleared_page, or_new_page, pin_resident,
}
use altas_dbpro.BufferPool.Access.{id_of, bytes_of, release}
use altas_dbpro.BufferPool.Resident.{
  Resident, modify-Resident, release-Resident, fresh_page, make_page-Resident, free_in_range,
  new_page_free, fetch_page-Resident, pin_resident-bytes,
}
use altas_dbpro.Index.Node.{
  int_at, nat_of, key_at, size_of, is_leaf, rid_at, binary_search, collect_back, collect_forward,
}
use altas_dbpro.Index.Node.Slots.{
  zero_bytes-IsPage, IsPage, Writes, put_all, int_at-put_all, put_all-IsPage, AllFit, last_at,
}
use altas_dbpro.Index.Node.Inserting.{IsSingle, single-index}
use altas_dbpro.Index.Tree.{
  Tree, plant, is_empty, publish, find_leaf_page, descend, first_leaf, matches, insert, get_value,
}

one_or_none : (r : Rid) (b : Bool) → (if b then r ∷ [] else []) ++ [] ≡ (if b then r ∷ [] else [])
one_or_none r true = refl
one_or_none r false = refl

one_is_found : (r : Rid) (b : Bool) → not (is_empty (if b then r ∷ [] else [])) ≡ b
one_is_found r true = refl
one_is_found r false = refl

-- The first leaf lists its one entry.
module _ (key : ℤ) (value : Rid) (k : IsInt key) (p : IsInt value.page_id)
    (q : IsInt value.slot_num) (bytes : List ℕ) (page : IsPage bytes) where
  abbrev leaf_writes : Writes
  leaf_writes =
      (5, negsuc 0)
      ∷ (4, value.slot_num)
      ∷ (3, value.page_id)
      ∷ (2, key)
      ∷ (1, pos 1)
      ∷ (0, pos 1)
      ∷ []

  leaf_fit : AllFit leaf_writes
  leaf_fit = (
    omega arith,
    omega arith,
    (
      omega arith,
      q,
      (
        omega arith,
        p,
        (omega arith, k, (omega arith, omega arith, (omega arith, omega arith, tt))),
      ),
    ),
  )

  leaf_at : (j : ℕ) → int_at (put_all leaf_writes bytes) j ≡ last_at leaf_writes j (int_at bytes j)
  leaf_at j = int_at-put_all leaf_writes bytes j leaf_fit page

  leaf_size : size_of (first_leaf key value bytes) ≡ 1
  unfolding size_of first_leaf
  leaf_size = ap nat_of (leaf_at 1)

  leaf_kind : is_leaf (first_leaf key value bytes) ≡ true
  unfolding is_leaf first_leaf eqb_ℤ
  leaf_kind = rw (leaf_at 0) refl

  leaf_rid : rid_at 1 (first_leaf key value bytes) 0 ≡ value
  unfolding rid_at first_leaf
  leaf_rid = rw (leaf_at 3, leaf_at 4) refl

  leaf_key : key_at (first_leaf key value bytes) 0 ≡ key
  unfolding first_leaf
  leaf_key = leaf_at 2

  leaf-IsSingle : IsSingle (first_leaf key value bytes)
  unfolding first_leaf
  leaf-IsSingle = record { page = put_all-IsPage leaf_writes bytes leaf_fit page; one = leaf_size }

  leaf-matches :
      (sought : ℤ)
      → (at : ℕ) × (binary_search sought (first_leaf key value bytes) ≡ done at)
        × (matches sought (first_leaf key value bytes) at
            ≡ (if key == sought then value ∷ [] else []))
  unfolding collect_back collect_forward
  leaf-matches sought = elim (single-index sought (first_leaf key value bytes) leaf-IsSingle) [
    | inl (e, _) ↦ (1, e, rw (leaf_size, leaf_key, leaf_rid) (one_or_none value (key == sought)))
    | inr (e, _) ↦ (0, e, rw (leaf_size, leaf_key, leaf_rid) refl)
  ]

module _ (d : Disk) where
  publish-Resident :
      (f : ℕ) (bytes : List ℕ) (p : Page) (s : Pool d)
      → Resident d f p s
      → p.pin_count ≢ 0
      → Resident d f
          (set_dirty true (Page.unpin (set_dirty true (set_data bytes p))))
          (publish d f bytes s)
  unfolding set_dirty set_data
  publish-Resident f bytes p s r n =
      let a = modify-Resident d f (set_data bytes) p s r refl in
      let b = modify-Resident d f (set_dirty true) (set_data bytes p) _ a refl in
      release-Resident d f (set_dirty true (set_data bytes p)) _ b n

  find_leaf_page-root :
      (reentrant : Bool) (key : ℤ) (left_most : Bool) (f : ℕ) (p : Page) (s : Pool d)
      → Resident d f p s
      → p.page_id == negsuc 0 ≡ false
      → is_leaf p.page_data ≡ true
      → find_leaf_page d reentrant key left_most p.page_id s ≡ done (pin_resident d f s, some f)
  unfolding find_leaf_page descend
  find_leaf_page-root reentrant key left_most f p s r n leaf =
      let kind : is_leaf (bytes_of d f (pin_resident d f s)) ≡ true =
        ap is_leaf (pin_resident-bytes d f p s r) ∙ leaf in
      rw (n, fetch_page-Resident d reentrant f p s r) (rw kind refl)

  -- A tree whose root is a leaf in the pool.
  record OneLeaf (f : ℕ) (p : Page) (t : Tree d) : Type 0 where
    root : t.root_page_id ≡ p.page_id
    named : p.page_id == negsuc 0 ≡ false
    resident : Resident d f p t.pool
    leaf : is_leaf p.page_data ≡ true

  get_value_lem :
      (reentrant : Bool) (key : ℤ) (result : List Rid) (f : ℕ) (p : Page) (t : Tree d) (at : ℕ)
      → OneLeaf f p t
      → binary_search key p.page_data ≡ done at
      → get_value d reentrant key result t
        ≡ done (
          record t { pool = release d f false (pin_resident d f t.pool) },
          matches key p.page_data at,
          not (is_empty (matches key p.page_data at)),
        )
  unfolding get_value
  get_value_lem reentrant key result f p t at h e =
      let bytes = pin_resident-bytes d f p t.pool h.resident in
      rw (h.root, h.named, fetch_page-Resident d reentrant f p t.pool h.resident)
        (rw (ap is_leaf bytes ∙ h.leaf) (rw (bytes, e) refl))

  module _ (t : Tree d) (key : ℤ) (value : Rid) (f : ℕ)
      (free_frame : first_free t.pool.pages 0 ≡ some f) (empty : t.root_page_id ≡ negsuc 0)
      (new : (d.alloc t.pool.disk).0 == negsuc 0 ≡ false) (k : IsInt key) (p : IsInt value.page_id)
      (q : IsInt value.slot_num) where
    abbrev made : Pool d
    made = make_page d f t.pool

    abbrev planted : Tree d
    planted = (plant d key value t (made, some f)).0

    made-Resident : Resident d f (fresh_page d f t.pool) made
    made-Resident = make_page-Resident d f t.pool (free_in_range d t.pool.pages f free_frame)

    insert-planted : (reentrant : Bool) → insert d reentrant key value t ≡ done (planted, true)
    unfolding insert
    insert-planted reentrant =
        rw (empty, ==_refl {A = ℤ} (negsuc 0), new_page_free d reentrant f t.pool free_frame) refl

    planted-OneLeaf :
        (page : Page) × OneLeaf f page planted × (page.page_data ≡ first_leaf key value zero_bytes)
    unfolding set_dirty set_data Page.unpin Page.pin cleared_page set_page_id reset
    planted-OneLeaf =
        let r = made-Resident in
        let name : id_of d f made ≡ (d.alloc t.pool.disk).0 =
          ap (λ o. (or_new_page o).page_id) r.there in
        let bytes : bytes_of d f made ≡ zero_bytes = ap (λ o. (or_new_page o).page_data) r.there in
        let now = first_leaf key value (bytes_of d f made) in
        (
          set_dirty true (Page.unpin (set_dirty true (set_data now (fresh_page d f t.pool)))),
          record {
            root = name;
            named = new;
            resident =
                publish-Resident f now (fresh_page d f t.pool) made r (λ e. omega (arith, e));
            leaf =
                ap (λ b. is_leaf (first_leaf key value b)) bytes
                ∙ leaf_kind key value k p q zero_bytes zero_bytes-IsPage;
          },
          ap (first_leaf key value) bytes,
        )

    -- `Insert` into the empty tree, where the pool has a null entry and the disk manager does not
    -- give the id -1, answers true. `GetValue` of a key returns then, and answers true with exactly
    -- the inserted record for the inserted key, and false with no record for another key, whatever
    -- the result vector held.
    pub insert-get_value :
        (reentrant : Bool) (sought : ℤ) (result : List Rid)
        → (u v : Tree d) × (insert d reentrant key value t ≡ done (u, true))
          × (get_value d reentrant sought result u
              ≡ done (v, (if key == sought then value ∷ [] else []), key == sought))
    insert-get_value reentrant sought result =
        let (page, one, bytes) = planted-OneLeaf in
        let (at, e, found) = leaf-matches key value k p q zero_bytes zero_bytes-IsPage sought in
        let run =
          get_value_lem reentrant sought result f page planted at one
            (ap (binary_search sought) bytes ∙ e) in
        let all : matches sought page.page_data at ≡ (if key == sought then value ∷ [] else []) =
          ap (λ b. matches sought b at) bytes ∙ found in
        let after : Tree d = record planted {
          pool = release d f false (pin_resident d f planted.pool);
        } in
        (
          planted,
          after,
          insert-planted reentrant,
          run
              ∙ ap (λ rs. done (after, rs, not (is_empty rs))) all
              ∙ ap (λ b. done (after, (if key == sought then value ∷ [] else []), b))
                  (one_is_found value (key == sought)),
        )
