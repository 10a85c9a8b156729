-- ===== src/Index/Node/Collecting.antt =====
-- The two loops of `GetValue` (BPlusTree.cpp) against the list of all entries of the key.
use mathlib.Core.List.{append-nil, append_assoc}
use altas_dbpro.Prelude.{
  ℕ, zero, suc, ◌+◌, ◌*◌, ◌-◌, ◌<◌, ◌≤◌, ◌≡◌, ◌≢◌, refl, ap, sym, ◌∙◌, inl, inr, true, false, List,
  [], ◌∷◌, ◌++◌, arith, if◌then◌else◌, Bool-cases, ◌==◌, subst,
}
use altas_dbpro.Prelude.Ints.{ℤ, int_eq, eqb_ℤ, eqb_ℤ_iff, ◌≤ℤ◌, ≤ℤ_antisym}
use altas_dbpro.Rid.{Rid}
use altas_dbpro.Prelude.Run.{done}
use altas_dbpro.Index.Node.{
  ints_on_page, binary_search, key_at, rid_at, size_of, collect_back, collect_forward,
}
use altas_dbpro.Index.Node.Finding.{binary_search-Parts, IsSorted, Parts}

module _ (key : ℤ) (size : ℕ) (bytes : List ℕ) where
  unfoldable pub match : ℕ → List Rid
  match i = if key_at bytes i == key then rid_at size bytes i ∷ [] else []

  -- The records of the key among the `k` entries from `i` on.
  unfoldable pub matches : ℕ → ℕ → List Rid
  matches i zero = []
  matches i (suc k) = match i ++ matches (suc i) k

  matches-plus : (i a b : ℕ) → matches i (a + b) ≡ matches i a ++ matches (i + a) b
  unfolding matches
  matches-plus i zero b =
      let left : 0 + b ≡ b = omega arith in
      let right : i + 0 ≡ i = omega arith in ap (matches i) left ∙ ap (λ j. matches j b) (sym right)
  matches-plus i (suc a) b =
      let left : suc a + b ≡ suc (a + b) = omega arith in
      let right : suc i + a ≡ i + suc a = omega arith in
      ap (matches i) left
      ∙ ap (λ l. match i ++ l)
          (matches-plus (suc i) a b ∙ ap (λ j. matches (suc i) a ++ matches j b) right)
      ∙ sym (append_assoc (match i) (matches (suc i) a) (matches (i + suc a) b))

  matches-snoc : (r : ℕ) → matches 0 (suc r) ≡ matches 0 r ++ match r
  matches-snoc r =
      let left : suc r ≡ r + 1 = omega arith in
      let right : 0 + r ≡ r = omega arith in
      ap (matches 0) left
      ∙ matches-plus 0 r 1
      ∙ ap (λ j. matches 0 r ++ matches j 1) right
      ∙ ap (λ l. matches 0 r ++ l) (unfold matches in (append-nil (match r)))

  match_other : (i : ℕ) → key_at bytes i ≢ key → match i ≡ []
  unfolding match
  match_other i n =
      let other : eqb_ℤ (key_at bytes i) key ≡ false =
        ground (arith, eqb_ℤ_iff (key_at bytes i) key) in
      rw other refl

  match_same : (i : ℕ) → eqb_ℤ (key_at bytes i) key ≡ true → match i ≡ rid_at size bytes i ∷ []
  unfolding match
  match_same i same = rw same refl

  no_matches : (i k : ℕ) → ((j : ℕ) → i ≤ j → j < i + k → key_at bytes j ≢ key) → matches i k ≡ []
  unfolding matches
  no_matches i zero h = refl
  no_matches i (suc k) h =
      rw (match_other i (h i (omega arith) (omega arith)))
        (no_matches (suc i) k (λ j from lt. h j (omega arith) (omega arith)))

  collect_forward-none :
      (i k : ℕ)
      → ((j : ℕ) → i ≤ j → j < i + k → key_at bytes j ≢ key)
      → collect_forward key size bytes i k ≡ []
  unfolding collect_forward
  collect_forward-none i zero h = refl
  collect_forward-none i (suc k) h =
      let other : eqb_ℤ (key_at bytes i) key ≡ false =
        ground (arith, eqb_ℤ_iff (key_at bytes i) key, h i (omega arith) (omega arith)) in
      rw other refl

  collect_back-matches :
      (r : ℕ) (result : List Rid)
      → ((i j : ℕ) → i ≤ j → j < r → key_at bytes i ≤ℤ key_at bytes j)
      → ((i : ℕ) → i < r → key_at bytes i ≤ℤ key)
      → collect_back key size bytes r result ≡ matches 0 r ++ result
  unfolding collect_back
  collect_back-matches zero result s below = unfold matches in refl
  collect_back-matches (suc r) result s below = elim (Bool-cases (eqb_ℤ (key_at bytes r) key)) [
    | inl same ↦
        rw (same, matches-snoc r, match_same r same)
          (collect_back-matches r (rid_at size bytes r ∷ result)
              (λ i j le lt. s i j le (omega arith)) (λ i lt. below i (omega arith))
            ∙ sym (append_assoc (matches 0 r) (rid_at size bytes r ∷ []) result))
    | inr other ↦
        rw
          (
            other,
            no_matches 0 (suc r) (λ j from lt e.
                let up : key ≤ℤ key_at bytes r =
                  subst (λ k. k ≤ℤ key_at bytes r) e (s j r (omega arith) (omega arith)) in
                let same : key_at bytes r ≡ key =
                  ≤ℤ_antisym (key_at bytes r) key (below r (omega arith)) up in
                absurd (ground (arith, eqb_ℤ_iff (key_at bytes r) key))),
          )
          refl
  ]

  pub collect-matches :
      (r : ℕ)
      → IsSorted bytes
      → size ≡ size_of bytes
      → Parts key bytes size r
      → collect_back key size bytes r [] ++ collect_forward key size bytes r (size - r)
        ≡ matches 0 size
  collect-matches r s len p =
      let other : (j : ℕ) → r ≤ j → j < r + (size - r) → key_at bytes j ≢ key = λ j from lt e.
        p.above j from (omega (arith, p.within)) (subst (λ k. k ≤ℤ key) (sym e) (omega arith)) in
      let back =
        collect_back-matches r [] (λ i j le lt. s i j le (omega (arith, p.within, len))) p.below in
      let whole : size ≡ r + (size - r) = omega (arith, p.within) in
      let start : 0 + r ≡ r = omega arith in
      rw (collect_forward-none r (size - r) other) (
        append-nil (collect_back key size bytes r [])
        ∙ back
        ∙ sym (
            ap (matches 0) whole
            ∙ matches-plus 0 r (size - r)
            ∙ ap (λ j. matches 0 r ++ matches j (size - r)) start
            ∙ ap (λ l. matches 0 r ++ l) (no_matches r (size - r) other)))

-- In a leaf whose keys and records fit on its page, with the keys in ascending order, `BinarySearch`
-- returns an index before which the keys are at most `key` and from which on they are not, and the two
-- loops of `GetValue` from there collect exactly the records of the entries with the key, in their
-- order.
pub binary_search-matches :
    (key : ℤ) (bytes : List ℕ)
    → IsSorted bytes
    → 2 + 3 * size_of bytes ≤ ints_on_page
    → (r : ℕ) × (binary_search key bytes ≡ done r)
      × Parts key bytes (size_of bytes) r
      × (collect_back key (size_of bytes) bytes r []
            ++ collect_forward key (size_of bytes) bytes r (size_of bytes - r)
          ≡ matches key (size_of bytes) bytes 0 (size_of bytes))
binary_search-matches key bytes s room =
    let (r, e, hi, parts) = binary_search-Parts key bytes (omega (arith, room)) in
    (r, e, parts s, collect-matches key (size_of bytes) bytes r s refl (parts s))
