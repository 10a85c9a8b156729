-- ===== src/BufferPool/Frames.antt =====
-- The frames of BufferPoolManager.cpp: the search for a null entry, and single writes.
use altas_dbpro.Prelude.{
  ℕ, zero, suc, ◌+◌, ◌<◌, ◌≡◌, refl, ap, ◌∙◌, inl, inr, Option, none, some, List, [], ◌∷◌, arith,
  if◌then◌else◌, length, set, get_or-set_self, get_or-set_ne, nat_eq, nat_eqb, nat_eqb_iff,
  Bool-cases,
}
use altas_dbpro.Page.{Page}
use altas_dbpro.BufferPool.{page_at, first_free}

-- What the search for a null entry finds.
pub data Search (pages : List (Option Page)) : Option ℕ → Type 0 where
  free : (f : ℕ) → f < length pages → page_at pages f ≡ none → Search pages (some f)
  full : ((f : ℕ) → f < length pages → (p : Page) × (page_at pages f ≡ some p)) → Search pages none

-- The search from frame `i` on answers `i` more than the search in the list alone.
abbrev pub plus : ℕ → Option ℕ → Option ℕ
plus i none = none
plus i (some f) = some (f + i)

pub first_free-Search :
    (pages : List (Option Page)) (i : ℕ)
    → (o : Option ℕ) × (first_free pages i ≡ plus i o) × Search pages o
unfolding first_free
first_free-Search [] i = (none, refl, full (λ f lt. absurd (omega arith)))
first_free-Search (none ∷ pages) i = (some 0, ap some (omega arith), free 0 (omega arith) refl)
first_free-Search (some p ∷ pages) i =
    let (o, e, found) = first_free-Search pages (i + 1) in extend p i o e found
  where
    all_suc :
        (p : Page)
        → ((f : ℕ) → f < length pages → (q : Page) × (page_at pages f ≡ some q))
        → (f : ℕ) → f < length (some p ∷ pages)
        → (q : Page) × (page_at (some p ∷ pages) f ≡ some q)
    all_suc p all zero lt = (p, refl)
    all_suc p all (suc f) lt = all f (omega arith)

    extend :
        {q : Option ℕ} (p : Page) (i : ℕ) (o : Option ℕ)
        → q ≡ plus (i + 1) o
        → Search pages o
        → (o' : Option ℕ) × (q ≡ plus i o') × Search (some p ∷ pages) o'
    extend p i _ e (free f lt empty) =
        (some (suc f), e ∙ ap some (omega arith), free (suc f) (omega arith) empty)
    extend p i _ e (full all) = (none, e, full (all_suc p all))

pub page_at-set :
    (pages : List (Option Page)) (f g : ℕ) (o : Option Page)
    → f < length pages
    → page_at (set pages f o) g ≡ (if nat_eqb f g then o else page_at pages g)
page_at-set pages f g o lt = elim (Bool-cases (nat_eqb f g)) [
  | inl e ↦ ground (arith, get_or-set_self pages f o none, nat_eqb_iff f g)
  | inr e ↦ ground (arith, get_or-set_ne pages f g o none, nat_eqb_iff f g)
]
