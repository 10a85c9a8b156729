-- ===== src/Deadlock/Walks.antt =====
-- What the search of DeadLockDector.cpp is to find: walks and cycles of the wait-for graph.
use altas_dbpro.Prelude.{◌≡◌, refl, inl, inr, true, List, [], ◌∷◌, ◌++◌, arith, Bool-cases}
use altas_dbpro.Prelude.Ints.{ℤ, int_eq, eqb_ℤ, eqb_ℤ_iff}
use altas_dbpro.Prelude.Sets.{mem, mem-cons}
use altas_dbpro.Deadlock.{WaitGraph, waits_for, suffix_from, pop_back}

abbrev pub Edge : WaitGraph → ℤ → ℤ → Type 0
Edge g u v = mem v (waits_for g u) ≡ true

-- At least one edge leads from `u` to the index.
pub data Reach (g : WaitGraph) (u : ℤ) : ℤ → Type 0 where
  one : {v : ℤ} → Edge g u v → Reach g u v
  more : {v w : ℤ} → Reach g u v → Edge g v w → Reach g u w

-- Each entry of the list waits for the next one.
abbrev pub Walk : WaitGraph → List ℤ → Type 0
Walk g [] = Unit
Walk g (x ∷ []) = Unit
Walk g (x ∷ y ∷ xs) = Edge g x y × Walk g (y ∷ xs)

abbrev pub IsCycle : WaitGraph → List ℤ → Type 0
IsCycle g c = (x : ℤ) × (mid : List ℤ) × (c ≡ x ∷ (mid ++ x ∷ [])) × Walk g c

module _ (g : WaitGraph) where
  pub Walk-snoc :
      (xs : List ℤ) (a b : ℤ)
      → Walk g (xs ++ a ∷ [])
      → Edge g a b
      → Walk g ((xs ++ a ∷ []) ++ b ∷ [])
  Walk-snoc [] a b w e = (e, tt)
  Walk-snoc (x ∷ []) a b w e = (w.0, (e, tt))
  Walk-snoc (x ∷ y ∷ xs) a b w e = (w.0, Walk-snoc (y ∷ xs) a b w.1 e)

  Walk-tail : (x : ℤ) (xs : List ℤ) → Walk g (x ∷ xs) → Walk g xs
  Walk-tail x [] w = tt
  Walk-tail x (y ∷ xs) w = w.1

  pub Walk-suffix : (x : ℤ) (xs : List ℤ) → Walk g xs → Walk g (suffix_from x xs)
  unfolding suffix_from
  Walk-suffix x [] w = tt
  Walk-suffix x (y ∷ xs) w = elim (Bool-cases (eqb_ℤ y x)) [
    | inl e ↦ rw e w
    | inr e ↦ rw e (Walk-suffix x xs (Walk-tail y xs w))
  ]

  prepend : {a b c : ℤ} → Edge g a b → Reach g b c → Reach g a c
  prepend e (one d) = more (one e) d
  prepend e (more r d) = more (prepend e r) d

  pub Reach-trans : {a b c : ℤ} → Reach g a b → Reach g b c → Reach g a c
  Reach-trans p (one e) = more p e
  Reach-trans p (more q e) = more (Reach-trans p q) e

  -- A walk from `x` to `y` gives a chain of edges.
  pub Walk-Reach : (x y : ℤ) (mid : List ℤ) → Walk g (x ∷ (mid ++ y ∷ [])) → Reach g x y
  Walk-Reach x y [] w = one w.0
  Walk-Reach x y (m ∷ mid) w = prepend w.0 (Walk-Reach m y mid w.1)

  -- A node in between is reached, and reaches the end.
  pub Walk-Reach_mid :
      (x y t : ℤ) (mid : List ℤ)
      → Walk g (x ∷ (mid ++ y ∷ []))
      → mem t mid ≡ true
      → Reach g x t × Reach g t y
  Walk-Reach_mid x y t [] w m = absurd (unfold mem in (ground arith))
  Walk-Reach_mid x y t (z ∷ mid) w m = elim ((mem-cons t z mid).0 m) [
    | inl e ↦ (one (rw (← e) w.0), rw (← e) (Walk-Reach z y mid w.1))
    | inr later ↦ let (p, q) = Walk-Reach_mid z y t mid w.1 later in (prepend w.0 p, q)
  ]

pub suffix_from-mem :
    (x : ℤ) (xs : List ℤ) → mem x xs ≡ true → (mid : List ℤ) × (suffix_from x xs ≡ x ∷ mid)
unfolding suffix_from mem
suffix_from-mem x [] h = absurd (ground arith)
suffix_from-mem x (y ∷ xs) h = elim (Bool-cases (eqb_ℤ y x)) [
  | inl e ↦ (xs, ground (arith, eqb_ℤ_iff y x))
  | inr e ↦ let (mid, p) = suffix_from-mem x xs (ground arith) in (mid, ground arith)
]

pub suffix_from-append :
    (x : ℤ) (xs ys : List ℤ) → mem x xs ≡ true → suffix_from x (xs ++ ys) ≡ suffix_from x xs ++ ys
unfolding suffix_from mem
suffix_from-append x [] ys h = absurd (ground arith)
suffix_from-append x (y ∷ xs) ys h = ground (arith, suffix_from-append x xs ys)

pub pop_back-append : (xs : List ℤ) (x : ℤ) → pop_back (xs ++ x ∷ []) ≡ xs
unfolding pop_back
pop_back-append [] x = refl
pop_back-append (y ∷ []) x = refl
pop_back-append (y ∷ z ∷ xs) x = rw (pop_back-append (z ∷ xs) x)
