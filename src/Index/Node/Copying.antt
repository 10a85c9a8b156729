-- ===== src/Index/Node/Copying.antt =====
-- The loop of `SplitLeafPage` (BPlusTree.cpp), which fills the new leaf.
use altas_dbpro.Prelude.{
  ℕ, zero, suc, ◌+◌, ◌*◌, ◌<◌, ◌≤◌, ◌≡◌, ◌≢◌, refl, ◌∙◌, ◌⊎◌, inl, inr, List, [], ◌∷◌, arith,
  Bool-cases, nat_eqb, nat_eqb_iff, subst,
}
use altas_dbpro.Prelude.Ints.{ℤ}
use altas_dbpro.Index.Node.{int_at, copy_entries}
use altas_dbpro.Index.Node.Slots.{
  IsPage, Writes, put_all, int_at-put_all, AllFit, last_at, int_at-IsInt, put_all-IsPage,
}

module _ (old_size split size : ℕ) (old : List ℕ) where
  -- A place that the copies of the `k` entries from `i` on do not write.
  abbrev Untouched : ℕ → ℕ → ℕ → Type 0
  Untouched i k j =
      (j < 2 + i) ⊎ ((2 + i + k ≤ j) × (j < 2 + size + i * 2)) ⊎ (2 + size + (i + k) * 2 ≤ j)

  -- The `k` entries from `i` on have been copied, and nothing else has changed.
  pub record Copied (new now : List ℕ) (i k : ℕ) : Type 0 where
    pub page : IsPage now
    pub keys : (m : ℕ) → i ≤ m → m < i + k → int_at now (2 + m) ≡ int_at old (2 + split + m)
    pub pages :
        (m : ℕ)
        → i ≤ m
        → m < i + k
        → int_at now (2 + size + m * 2) ≡ int_at old (2 + old_size + (split + m) * 2)
    pub slots :
        (m : ℕ)
        → i ≤ m
        → m < i + k
        → int_at now (2 + size + m * 2 + 1) ≡ int_at old (2 + old_size + (split + m) * 2 + 1)
    pub rest : (j : ℕ) → Untouched i k j → int_at now j ≡ int_at new j

  abbrev entry_writes : ℕ → Writes
  entry_writes i =
      (2 + size + i * 2 + 1, int_at old (2 + old_size + (split + i) * 2 + 1))
      ∷ (2 + size + i * 2, int_at old (2 + old_size + (split + i) * 2))
      ∷ (2 + i, int_at old (2 + split + i))
      ∷ []

  last_first :
      (a b c : ℕ) (x y z old_value : ℤ) → last_at ((a, x) ∷ (b, y) ∷ (c, z) ∷ []) a old_value ≡ x
  last_first a b c x y z old_value = rw ((nat_eqb_iff a a).1 refl) refl

  last_second :
      (a b c : ℕ) (x y z old_value : ℤ)
      → a ≢ b
      → last_at ((a, x) ∷ (b, y) ∷ (c, z) ∷ []) b old_value ≡ y
  last_second a b c x y z old_value n = ground (arith, nat_eqb_iff a b, nat_eqb_iff b b)

  last_third :
      (a b c : ℕ) (x y z old_value : ℤ)
      → a ≢ c
      → b ≢ c
      → last_at ((a, x) ∷ (b, y) ∷ (c, z) ∷ []) c old_value ≡ z
  last_third a b c x y z old_value n m =
      ground (arith, nat_eqb_iff a c, nat_eqb_iff b c, nat_eqb_iff c c)

  last_none :
      (a b c j : ℕ) (x y z old_value : ℤ)
      → a ≢ j
      → b ≢ j
      → c ≢ j
      → last_at ((a, x) ∷ (b, y) ∷ (c, z) ∷ []) j old_value ≡ old_value
  last_none a b c j x y z old_value n m o =
      ground (arith, nat_eqb_iff a j, nat_eqb_iff b j, nat_eqb_iff c j)

  module _ (fits : 2 + size + size * 2 < 1024) (from : IsPage old) where
    entry_fit : (i : ℕ) → i < size → AllFit (entry_writes i)
    entry_fit i lt = (
      omega (arith, lt, fits),
      int_at-IsInt old _ from,
      (
        omega (arith, lt, fits),
        int_at-IsInt old _ from,
        (omega (arith, lt, fits), int_at-IsInt old _ from, tt),
      ),
    )

    pub copy_entries-Copied :
        (k i : ℕ) (new : List ℕ)
        → i + k ≤ size
        → IsPage new
        → Copied new (copy_entries old_size split size old i k new) i k
    unfolding copy_entries
    copy_entries-Copied zero i new le page = record {
      page = page;
      keys = λ m a b. absurd (omega arith);
      pages = λ m a b. absurd (omega arith);
      slots = λ m a b. absurd (omega arith);
      rest = λ j u. refl;
    }
    copy_entries-Copied (suc k) i new le page =
        let fit = entry_fit i (omega (arith, le)) in
        let one = put_all (entry_writes i) new in
        let c =
          copy_entries-Copied k (suc i) one (omega (arith, le))
            (put_all-IsPage (entry_writes i) new fit page) in
        let now = λ (j : ℕ). int_at-put_all (entry_writes i) new j fit page in
        let at_slot = 2 + size + i * 2 + 1 in
        let at_page = 2 + size + i * 2 in
        let now_entries = copy_entries old_size split size old (suc i) k one in
        let key : int_at now_entries (2 + i) ≡ int_at old (2 + split + i) =
          c.rest (2 + i) (inl (omega arith))
          ∙ now (2 + i)
          ∙ last_third at_slot at_page (2 + i) _ _ _ _ (omega arith) (omega arith) in
        let page_id : int_at now_entries at_page ≡ int_at old (2 + old_size + (split + i) * 2) =
          c.rest (2 + size + i * 2) (inr (inl (omega (arith, le), omega arith)))
          ∙ now (2 + size + i * 2)
          ∙ last_second at_slot at_page (2 + i) _ _ _ _ (omega arith) in
        let slot : int_at now_entries at_slot ≡ int_at old (2 + old_size + (split + i) * 2 + 1) =
          c.rest (2 + size + i * 2 + 1) (inr (inl (omega (arith, le), omega arith)))
          ∙ now (2 + size + i * 2 + 1)
          ∙ last_first at_slot at_page (2 + i) _ _ _ _ in
        record {
          page = c.page;
          keys = λ m a b. elim (Bool-cases (nat_eqb i m)) [
            | inr later ↦ c.keys m (ground (arith, nat_eqb_iff i m)) (omega arith)
            | inl here ↦
                subst (λ x. int_at now_entries (2 + x) ≡ int_at old (2 + split + x))
                  ((nat_eqb_iff i m).0 here) key
          ];
          pages = λ m a b. elim (Bool-cases (nat_eqb i m)) [
            | inr later ↦ c.pages m (ground (arith, nat_eqb_iff i m)) (omega arith)
            | inl here ↦
                subst
                  (λ x.
                    int_at now_entries (2 + size + x * 2)
                    ≡ int_at old (2 + old_size + (split + x) * 2))
                  ((nat_eqb_iff i m).0 here) page_id
          ];
          slots = λ m a b. elim (Bool-cases (nat_eqb i m)) [
            | inr later ↦ c.slots m (ground (arith, nat_eqb_iff i m)) (omega arith)
            | inl here ↦
                subst
                  (λ x.
                    int_at now_entries (2 + size + x * 2 + 1)
                    ≡ int_at old (2 + old_size + (split + x) * 2 + 1))
                  ((nat_eqb_iff i m).0 here) slot
          ];
          rest = λ j u.
              c.rest j (ground (arith, u))
              ∙ now j
              ∙ last_none at_slot at_page (2 + i) j _ _ _ _ (ground (arith, u, le))
                  (ground (arith, u, le)) (ground (arith, u, le));
        }
