-- ===== src/Index/Node/Finding.antt =====
-- `BinarySearch` (BPlusTree.cpp).
use altas_dbpro.Prelude.{
  ℕ, zero, suc, ◌+◌, ◌/◌, ◌<◌, ◌≤◌, ◌≡◌, refl, ◌∙◌, inl, inr, true, false, List, arith, ltb,
  Bool-cases,
}
use altas_dbpro.Prelude.Ints.{ℤ, ltb_ℤ, ◌≤ℤ◌, not_ltb_ℤ, ≤ℤ_trans, ltb_ℤ_lt}
use altas_dbpro.Prelude.Run.{done}
use altas_dbpro.Index.Node.{ints_on_page, key_at, size_of, search_loop, binary_search}

-- So many keys fit on a page, behind its kind and its size.
abbrev pub FitsKeys : ℕ → Type 0
FitsKeys n = 2 + n ≤ ints_on_page

-- The keys of the node stand in ascending order.
abbrev pub IsSorted : List ℕ → Type 0
IsSorted bytes = (i j : ℕ) → i ≤ j → j < size_of bytes → key_at bytes i ≤ℤ key_at bytes j

-- `r` parts the first `n` keys into those that are at most `key` and those that are greater.
pub record Parts (key : ℤ) (bytes : List ℕ) (n r : ℕ) : Type 0 where
  pub within : r ≤ n
  pub below : (i : ℕ) → i < r → key_at bytes i ≤ℤ key
  pub above : (i : ℕ) → r ≤ i → i < n → ¬ (key_at bytes i ≤ℤ key)

module _ (fuel : ℕ) (key : ℤ) (bytes : List ℕ) (left right : ℕ) where
  search_loop-stop :
      ltb left right ≡ false → search_loop (suc fuel) key bytes left right ≡ done left
  unfolding search_loop
  search_loop-stop p = rw (p, search_loop) refl

  search_loop-less :
      ltb left right ≡ true
      → ltb (2 + (left + right) / 2) ints_on_page ≡ true
      → ltb_ℤ key (key_at bytes ((left + right) / 2)) ≡ true
      → search_loop (suc fuel) key bytes left right
        ≡ search_loop fuel key bytes left ((left + right) / 2)
  unfolding search_loop
  search_loop-less p on q = rw (p, search_loop) (rw (on, search_loop) (rw (q, search_loop) refl))

  search_loop-more :
      ltb left right ≡ true
      → ltb (2 + (left + right) / 2) ints_on_page ≡ true
      → ltb_ℤ key (key_at bytes ((left + right) / 2)) ≡ false
      → search_loop (suc fuel) key bytes left right
        ≡ search_loop fuel key bytes ((left + right) / 2 + 1) right
  unfolding search_loop
  search_loop-more p on q = rw (p, search_loop) (rw (on, search_loop) (rw (q, search_loop) refl))

module _ (key : ℤ) (bytes : List ℕ) where
  -- What is known of the keys outside of the range.
  record Outside (left right : ℕ) : Type 0 where
    before : (i : ℕ) → i < left → key_at bytes i ≤ℤ key
    behind : (i : ℕ) → right ≤ i → i < size_of bytes → ¬ (key_at bytes i ≤ℤ key)

  -- The loop returns as soon as there is fuel for each key of the range and the keys are on the page.
  search_loop-Outside :
      (fuel left right : ℕ)
      → left ≤ right
      → right ≤ left + fuel
      → right ≤ size_of bytes
      → FitsKeys (size_of bytes)
      → (r : ℕ) × (search_loop fuel key bytes left right ≡ done r)
        × (r ≤ right)
        × (IsSorted bytes → Outside left right → Outside r r)
  search_loop-Outside zero left right p q fits room =
      let e : left ≡ right = omega arith in
      (left, unfold search_loop in (ground arith), omega arith, λ s o. rw (← e) at o)
  search_loop-Outside (suc fuel) left right p q fits room = elim (Bool-cases (ltb left right)) [
    | inr stop ↦
        let e : left ≡ right = ground arith in
        (left, search_loop-stop fuel key bytes left right stop, omega arith, λ s o. rw (← e) at o)
    | inl wide ↦
        let middle = (left + right) / 2 in
        let on : ltb (2 + middle) ints_on_page ≡ true = ground arith in
        elim (Bool-cases (ltb_ℤ key (key_at bytes middle))) [
          | inl less ↦
              let (r, e, hi, keep) =
                search_loop-Outside fuel left middle (ground arith) (ground arith) (ground arith)
                  room in
              (
                r,
                search_loop-less fuel key bytes left right wide on less ∙ e,
                ground arith,
                λ s o. keep s (record {
                  before = o.before;
                  behind = λ i from lt le.
                      (ltb_ℤ_lt key (key_at bytes middle)).0 less (
                        ≤ℤ_trans (key_at bytes middle) (key_at bytes i) key (s middle i from lt)
                          le);
                }),
              )
          | inr more ↦
              let (r, e, hi, keep) =
                search_loop-Outside fuel (middle + 1) right (ground arith) (ground arith) fits
                  room in
              (
                r,
                search_loop-more fuel key bytes left right wide on more ∙ e,
                hi,
                λ s o. keep s (record {
                  before = λ i lt.
                      ≤ℤ_trans (key_at bytes i) (key_at bytes middle) key
                        (s i middle (omega arith) (ground arith))
                        (not_ltb_ℤ key (key_at bytes middle) more);
                  behind = o.behind;
                }),
              )
        ]
  ]

  -- The index, with what it is on sorted keys.
  pub binary_search-Parts :
      FitsKeys (size_of bytes)
      → (r : ℕ) × (binary_search key bytes ≡ done r)
        × (r ≤ size_of bytes)
        × (IsSorted bytes → Parts key bytes (size_of bytes) r)
  unfolding binary_search
  binary_search-Parts room =
      let (r, e, hi, keep) =
        search_loop-Outside (size_of bytes) 0 (size_of bytes) (omega arith) (omega arith)
          (omega arith) room in
      (
        r,
        e,
        hi,
        λ s.
            let o = keep s (record {
              before = λ i lt. absurd (omega arith);
              behind = λ i from lt. absurd (omega arith);
            }) in
            record { within = hi; below = o.before; above = o.behind },
      )

  -- `BinarySearch` returns on every page with at most 1022 keys, as many as fit on it, sorted or not,
  -- with an index that is at most the number of keys; it reads no key outside of the page.
  pub binary_search-returns :
      FitsKeys (size_of bytes) → (r : ℕ) × (binary_search key bytes ≡ done r) × (r ≤ size_of bytes)
  binary_search-returns room = let (r, e, hi, _) = binary_search-Parts room in (r, e, hi)
