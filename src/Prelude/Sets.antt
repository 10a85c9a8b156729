-- ===== src/Prelude/Sets.antt =====
-- `std::unordered_set` as a list without an order that matters: `mem`, `insert`, `erase`.
use mathlib.Core.Path.{◌≡◌, refl}
use mathlib.Core.Logic.{◌↔◌, ◌⊎◌, inl, inr}
use mathlib.Core.Bool.{Bool, true, false, ◌||◌, ◌&&◌, not}
use mathlib.Core.List.{List, [], ◌∷◌, ◌++◌}
use native.Mathlib.Omega.{arith}
use altas_dbpro.Prelude.Tests.{Eq, ◌==◌, if◌then◌else◌, Bool-cases}

module _ {ℓ} {A : Type ℓ} ⦃e : Eq A⦄ where
  unfoldable pub mem : A → List A → Bool
  mem a [] = false
  mem a (x ∷ xs) = (x == a) || mem a xs

  unfoldable pub insert : A → List A → List A
  insert a xs = if mem a xs then xs else a ∷ xs

  unfoldable pub erase : A → List A → List A
  erase a [] = []
  erase a (x ∷ xs) = if x == a then erase a xs else x ∷ erase a xs

  pub mem-cons : (a x : A) (xs : List A) → (mem a (x ∷ xs) ≡ true) ↔ ((x ≡ a) ⊎ (mem a xs ≡ true))
  unfolding mem
  mem-cons a x xs = ground (arith, e.eqb_iff x a)

  pub mem-insert : (b a : A) (xs : List A) → mem b (insert a xs) ≡ (a == b) || mem b xs
  unfolding insert mem
  mem-insert b a xs = elim (Bool-cases (e.eqb a b)) [
    | inl same ↦ ground (arith, e.eqb_iff a b)
    | inr other ↦ ground arith
  ]

  pub mem-erase : (b a : A) (xs : List A) → mem b (erase a xs) ≡ not (a == b) && mem b xs
  unfolding erase mem
  mem-erase b a [] = ground arith
  mem-erase b a (x ∷ xs) =
      ground (arith, mem-erase b a xs, e.eqb_iff x a, e.eqb_iff x b, e.eqb_iff a b)

  pub erase_absent : (a : A) (xs : List A) → mem a xs ≡ false → erase a xs ≡ xs
  unfolding erase mem
  erase_absent a [] h = refl
  erase_absent a (x ∷ xs) h = ground (arith, erase_absent a xs)

  pub mem-append : (a : A) (xs ys : List A) → mem a (xs ++ ys) ≡ mem a xs || mem a ys
  unfolding mem
  mem-append a [] ys = refl
  mem-append a (x ∷ xs) ys = ground (arith, mem-append a xs ys)
