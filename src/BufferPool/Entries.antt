-- ===== src/BufferPool/Entries.antt =====
-- The entries of a page table (BufferPoolManager.cpp).
use altas_dbpro.Prelude.{
  ℕ, ◌≡◌, Bool, false, ◌||◌, true, some, List, [], ◌∷◌, arith, nat_eqb, nat_eqb_iff, ap,
}
use altas_dbpro.Prelude.Ints.{ℤ, int_eq, eqb_ℤ_iff}
use altas_dbpro.Prelude.Maps.{find, IsMap}

abbrev pub Table : Type 0
Table = List (ℤ × ℕ)

abbrev pub AllEntries : (ℤ → ℕ → Type 0) → Table → Type 0
AllEntries P [] = Unit
AllEntries P ((id, f) ∷ rest) = P id f × AllEntries P rest

pub AllEntries-map :
    (P Q : ℤ → ℕ → Type 0) (m : Table)
    → ((id : ℤ) (f : ℕ) → P id f → Q id f)
    → AllEntries P m
    → AllEntries Q m
AllEntries-map P Q [] h a = tt
AllEntries-map P Q ((id, f) ∷ rest) h a = (h id f a.0, AllEntries-map P Q rest h a.1)

pub AllEntries-both :
    (P Q R : ℤ → ℕ → Type 0) (m : Table)
    → ((id : ℤ) (f : ℕ) → P id f → Q id f → R id f)
    → AllEntries P m
    → AllEntries Q m
    → AllEntries R m
AllEntries-both P Q R [] h a b = tt
AllEntries-both P Q R ((id, f) ∷ rest) h a b =
    (h id f a.0 b.0, AllEntries-both P Q R rest h a.1 b.1)

abbrev pub Listed : Table → ℤ → ℕ → Type 0
Listed m id f = find id m ≡ some f

-- Each entry of a map is found.
pub entries-Listed : (m : Table) → IsMap m → AllEntries (Listed m) m
unfolding find
entries-Listed [] w = tt
entries-Listed ((j, v) ∷ m) w = (
  ground (arith, eqb_ℤ_iff j j),
  AllEntries-map (Listed m) (Listed ((j, v) ∷ m)) m
      (λ id f e. ground (arith, eqb_ℤ_iff j id, e, w.0, ap (λ k. find k m))) (entries-Listed m w.1),
)

-- An entry of the table names the frame.
abbrev pub names : Table → ℕ → Bool
names [] g = false
names ((id, f) ∷ rest) g = nat_eqb f g || names rest g

pub find-names : (m : Table) (id : ℤ) (f : ℕ) → find id m ≡ some f → names m f ≡ true
unfolding find
find-names [] id f e = absurd (cc e)
find-names ((j, v) ∷ m) id f e = ground (arith, find-names m id f, nat_eqb_iff v f)
