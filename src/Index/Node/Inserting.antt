-- ===== src/Index/Node/Inserting.antt =====
-- `InsertIntoLeaf` (BPlusTree.cpp) on a leaf with one entry. The records stand behind the keys, and
-- the place where they begin is not moved when a key is added.
use altas_dbpro.Prelude.{
  ℕ, ◌≡◌, refl, ◌⊎◌, inl, inr, List, [], ◌∷◌, arith, Bool-cases, nat_eqb, subst,
}
use altas_dbpro.Prelude.Ints.{ℤ, pos, ◌≤ℤ◌, ≤ℤ_refl}
use altas_dbpro.Prelude.Run.{done}
use altas_dbpro.Rid.{Rid}
use altas_dbpro.Bytes.{IsInt}
use altas_dbpro.Index.Node.{
  int_at, key_at, rid_at, size_of, binary_search, insert_into_leaf, make_room, move_up, put_entry,
}
use altas_dbpro.Index.Node.Slots.{IsPage, Writes, put_all, int_at-put_all, AllFit, int_at-IsInt}
use altas_dbpro.Index.Node.Finding.{IsSorted, binary_search-Parts}

-- A leaf with one entry.
pub record IsSingle (bytes : List ℕ) : Type 0 where
  pub page : IsPage bytes
  pub one : size_of bytes ≡ 1

pub IsSingle-IsSorted : (bytes : List ℕ) → IsSingle bytes → IsSorted bytes
IsSingle-IsSorted bytes s i j le lt =
    let e : i ≡ j = omega (arith, s.one) in
    subst (λ k. key_at bytes i ≤ℤ key_at bytes k) e (≤ℤ_refl (key_at bytes i))

-- The index of the new entry.
pub single-index :
    (key : ℤ) (bytes : List ℕ) (s : IsSingle bytes)
    → ((binary_search key bytes ≡ done 1) × (key_at bytes 0 ≤ℤ key))
      ⊎ ((binary_search key bytes ≡ done 0) × ¬ (key_at bytes 0 ≤ℤ key))
single-index key bytes s =
    let (r, e, hi, parts) = binary_search-Parts key bytes (omega (arith, s.one)) in
    let p = parts (IsSingle-IsSorted bytes s) in
    elim (Bool-cases (nat_eqb r 0)) [
      | inl z ↦
          let first : r ≡ 0 = ground arith in
          inr (rw first at e, p.above 0 (omega (arith, first)) (omega (arith, s.one)))
      | inr n ↦
          let last : r ≡ 1 = ground (arith, hi, s.one) in
          inl (rw last at e, p.below 0 (omega (arith, last)))
    ]

-- The leaf afterwards: the keys and records that it then lists.
pub record Lists (bytes : List ℕ) (key₀ key₁ page₀ slot₀ page₁ slot₁ : ℤ) : Type 0 where
  pub two : size_of bytes ≡ 2
  pub first_key : key_at bytes 0 ≡ key₀
  pub second_key : key_at bytes 1 ≡ key₁
  pub first_rid : rid_at 2 bytes 0 ≡ record { page_id = page₀; slot_num = slot₀ }
  pub second_rid : rid_at 2 bytes 1 ≡ record { page_id = page₁; slot_num = slot₁ }

module _ (bytes : List ℕ) (key : ℤ) (value : Rid) (s : IsSingle bytes) (k : IsInt key)
    (p : IsInt value.page_id) (q : IsInt value.slot_num) where
  -- The writes where the new key comes last, and where it comes first.
  abbrev last_writes : Writes
  last_writes = (1, pos 2) ∷ (6, value.slot_num) ∷ (5, value.page_id) ∷ (3, key) ∷ []

  abbrev first_writes : Writes
  first_writes =
      (1, pos 2)
      ∷ (4, value.slot_num)
      ∷ (3, value.page_id)
      ∷ (2, key)
      ∷ (6, int_at bytes 4)
      ∷ (5, key_at bytes 0)
      ∷ (3, key_at bytes 0)
      ∷ []

  last_fit : AllFit last_writes
  last_fit = (omega arith, omega arith, (omega arith, q, (omega arith, p, (omega arith, k, tt))))

  moved_fit : AllFit ((6, int_at bytes 4) ∷ (5, key_at bytes 0) ∷ (3, key_at bytes 0) ∷ [])
  moved_fit = (
    omega arith,
    int_at-IsInt bytes 4 s.page,
    (omega arith, int_at-IsInt bytes 2 s.page, (omega arith, int_at-IsInt bytes 2 s.page, tt)),
  )

  first_fit : AllFit first_writes
  first_fit =
      (omega arith, omega arith, (omega arith, q, (omega arith, p, (omega arith, k, moved_fit))))

  moved :
      move_up 1 1 bytes
      ≡ put_all ((6, int_at bytes 4) ∷ (5, key_at bytes 0) ∷ (3, key_at bytes 0) ∷ []) bytes
  unfolding move_up
  moved =
      let key₀ = key_at bytes 0 in
      let fit : AllFit ((3, key₀) ∷ []) = (omega arith, int_at-IsInt bytes 2 s.page, tt) in
      let fit₂ : AllFit ((5, key₀) ∷ (3, key₀) ∷ []) =
        (omega arith, int_at-IsInt bytes 2 s.page, fit) in
      rw
        (
          int_at-put_all ((3, key₀) ∷ []) bytes 3 fit s.page,
          int_at-put_all ((5, key₀) ∷ (3, key₀) ∷ []) bytes 4 fit₂ s.page,
        )
        refl

  -- `InsertIntoLeaf` returns on a leaf with one entry. Either the new key is not less than the old one;
  -- then the leaf lists both keys, and the first record is the old slot number and the new page id,
  -- the second one the new slot number and what stood behind. Or the new key is less; then the leaf
  -- lists the new key and, in the place of the old one, the new page id.
  pub insert_into_leaf-Lists :
      (after : List ℕ) × (insert_into_leaf key value bytes ≡ done after)
      × (((key_at bytes 0 ≤ℤ key)
            × Lists after
                (key_at bytes 0)
                key
                (int_at bytes 4)
                value.page_id
                value.slot_num
                (int_at bytes 7))
          ⊎ (¬ (key_at bytes 0 ≤ℤ key)
              × Lists after key value.page_id value.slot_num
                  (key_at bytes 0)
                  (int_at bytes 4)
                  (int_at bytes 7)))
  unfolding insert_into_leaf put_entry make_room
  insert_into_leaf-Lists = elim (single-index key bytes s) [
    | inl (e, le) ↦
        let now = λ (j : ℕ). int_at-put_all last_writes bytes j last_fit s.page in
        (
          put_all last_writes bytes,
          rw (e, s.one) refl,
          inl (
            le,
            record {
              two = unfold size_of in (rw (now 1) refl);
              first_key = now 2;
              second_key = now 3;
              first_rid = unfold rid_at in (rw (now 4, now 5) refl);
              second_rid = unfold rid_at in (rw (now 6, now 7) refl);
            },
          ),
        )
    | inr (e, n) ↦
        let now = λ (j : ℕ). int_at-put_all first_writes bytes j first_fit s.page in
        (
          put_all first_writes bytes,
          rw (e, s.one, moved) refl,
          inr (
            n,
            record {
              two = unfold size_of in (rw (now 1) refl);
              first_key = now 2;
              second_key = now 3;
              first_rid = unfold rid_at in (rw (now 4, now 5) refl);
              second_rid = unfold rid_at in (rw (now 6, now 7) refl);
            },
          ),
        )
  ]
