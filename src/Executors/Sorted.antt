-- ===== src/Executors/Sorted.antt =====
-- The order in which SortExecutor.cpp gives its rows, from what the C++ standard says of `std::sort`.
use mathlib.Core.List.{Perm}
use altas_dbpro.Prelude.{ℕ, ◌<◌, ◌≡◌, Bool, true, false, List, [], ◌∷◌, length, arith}
use altas_dbpro.Prelude.Ints.{◌≤ℤ◌, ltb_ℤ, not_ltb_ℤ}
use altas_dbpro.Rid.{Rid}
use altas_dbpro.Tuple.{Tuple, get_int_value}
use altas_dbpro.Executors.{Executor}
use altas_dbpro.Executors.Rows.{Starts, tuples}
use altas_dbpro.Executors.Sort.{SortState, key_less, sorting, with_rids, sorting_lem}

-- What `Compare` promises to `std::sort`: a strict weak order.
pub record IsStrictWeak {ℓ} {A : Type ℓ} (less : A → A → Bool) : Type ℓ where
  pub irreflexive : (a : A) → less a a ≡ false
  pub transitive : (a b c : A) → less a b ≡ true → less b c ≡ true → less a c ≡ true
  pub through :
      (a b c : A)
      → less a b ≡ false
      → less b a ≡ false
      → less b c ≡ false
      → less c b ≡ false
      → less a c ≡ false

abbrev pub All {ℓ} : {A : Type ℓ} → (A → Type 0) → List A → Type 0
All P [] = Unit
All P (x ∷ xs) = P x × All P xs

-- Each element has the relation to every later one.
abbrev pub Ordered {ℓ} : {A : Type ℓ} → (A → A → Type 0) → List A → Type 0
Ordered R [] = Unit
Ordered R (x ∷ xs) = All (R x) xs × Ordered R xs

-- What `std::sort` promises then: the elements are permuted, and no later one is less than an earlier
-- one.
abbrev pub Sorts : ((Tuple → Tuple → Bool) → List Tuple → List Tuple) → Type 0
Sorts sort =
    (less : Tuple → Tuple → Bool) (ts : List Tuple)
    → IsStrictWeak less
    → Perm (sort less ts) ts × Ordered (λ t u. less u t ≡ false) (sort less ts)

All-map {ℓ} :
    {A : Type ℓ} (P Q : A → Type 0) (xs : List A) → ((a : A) → P a → Q a) → All P xs → All Q xs
All-map P Q [] f h = tt
All-map P Q (x ∷ xs) f h = (f x h.0, All-map P Q xs f h.1)

Ordered-map {ℓ} :
    {A : Type ℓ} (R S : A → A → Type 0) (xs : List A)
    → ((a b : A) → R a b → S a b)
    → Ordered R xs
    → Ordered S xs
Ordered-map R S [] f h = tt
Ordered-map R S (x ∷ xs) f h = (All-map (R x) (S x) xs (f x) h.0, Ordered-map R S xs f h.1)

module _ {ℓ} (child : Executor {ℓ}) (sort : (Tuple → Tuple → Bool) → List Tuple → List Tuple)
    (key_offset fuel : ℕ) where
  key_less-IsStrictWeak : IsStrictWeak (key_less child sort key_offset fuel)
  unfolding key_less ltb_ℤ
  key_less-IsStrictWeak = record {
    irreflexive = λ a. ground arith;
    transitive = λ a b c h k. ground (arith, h, k);
    through = λ a b c h i j k. ground (arith, h, i, j, k);
  }

  key_less_le :
      (t u : Tuple)
      → key_less child sort key_offset fuel u t ≡ false
      → get_int_value key_offset t ≤ℤ get_int_value key_offset u
  unfolding key_less
  key_less_le t u e = not_ltb_ℤ (get_int_value key_offset u) (get_int_value key_offset t) e

  -- `SortExecutor`, where `std::sort` permutes the elements and leaves none behind a greater one for
  -- every strict weak order, of a child that gives its rows after `Init`, with more fuel than rows: it
  -- gives a permutation of the child's records, each with the identifier that it carries, in which the
  -- `int`s at the key's offset ascend.
  pub sorting-Starts :
      (s : SortState child) (rows : List (Tuple × Rid))
      → Sorts sort
      → Starts child s.child_state rows
      → length rows < fuel
      → (ordered : List Tuple) × Starts
          (sorting child sort key_offset fuel)
          s
          (with_rids child sort key_offset fuel ordered)
        × Perm ordered (tuples rows)
        × Ordered (λ t u. get_int_value key_offset t ≤ℤ get_int_value key_offset u) ordered
  sorting-Starts s rows sorts starts lt =
      let less = key_less child sort key_offset fuel in
      let (permuted, order) = sorts less (tuples rows) key_less-IsStrictWeak in
      (
        sort less (tuples rows),
        sorting_lem child sort key_offset fuel s rows starts lt,
        permuted,
        Ordered-map (λ t u. less u t ≡ false)
            (λ t u. get_int_value key_offset t ≤ℤ get_int_value key_offset u)
            (sort less (tuples rows)) key_less_le order,
      )
