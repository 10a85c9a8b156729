-- ===== src/Index/Node/Slots.antt =====
-- The `int`s of a node, written and read.
use altas_dbpro.Prelude.{
  ℕ, ◌*◌, ◌<◌, ◌≡◌, ◌≢◌, refl, ap, sym, ◌∙◌, inl, inr, List, [], ◌∷◌, arith, if◌then◌else◌, length,
  nat_eqb, nat_eqb_iff, Bool-cases, length-replicate, get_or-replicate, subst,
}
use altas_dbpro.Prelude.Ints.{ℤ}
use altas_dbpro.Page.{zero_bytes}
use altas_dbpro.Bytes.{IsInt}
use altas_dbpro.Bytes.Access.{
  length-write_int, read_int-write_int, read_int-write_elsewhere, AreBytes, read_int-IsInt,
  write_int-AreBytes,
}
use altas_dbpro.Index.Node.{int_at, put_int}

-- The bytes of a page.
pub record IsPage (bytes : List ℕ) : Type 0 where
  pub size : length bytes ≡ 4096
  pub raw : AreBytes bytes

pub put_int-IsPage :
    (i : ℕ) (v : ℤ) (bytes : List ℕ) → i < 1024 → IsPage bytes → IsPage (put_int i v bytes)
unfolding put_int
put_int-IsPage i v bytes lt h = record {
  size = length-write_int (4 * i) v bytes ∙ h.size;
  raw = write_int-AreBytes (4 * i) v bytes (omega (arith, h.size)) h.raw;
}

pub int_at-IsInt : (bytes : List ℕ) (i : ℕ) → IsPage bytes → IsInt (int_at bytes i)
unfolding int_at
int_at-IsInt bytes i h = read_int-IsInt bytes (4 * i) h.raw

-- One `int` of the page after a write.
pub int_at-put_int :
    (i j : ℕ) (v : ℤ) (bytes : List ℕ)
    → i < 1024
    → IsInt v
    → IsPage bytes
    → int_at (put_int i v bytes) j ≡ (if nat_eqb i j then v else int_at bytes j)
unfolding int_at put_int
int_at-put_int i j v bytes lt h page = elim (Bool-cases (nat_eqb i j)) [
  | inl same ↦
      let e : i ≡ j = (nat_eqb_iff i j).0 same in
      rw (same, ← e) (read_int-write_int (4 * i) v bytes h (omega (arith, page.size)))
  | inr other ↦ rw other (
      read_int-write_elsewhere (4 * i) (4 * j) v bytes (omega (arith, page.size))
        (ground (arith, nat_eqb_iff i j)))
]

-- Writes of a chosen `int` at the place, and elsewhere.
pub int_at-put_self :
    (i : ℕ) (v : ℤ) (bytes : List ℕ)
    → i < 1024
    → IsInt v
    → IsPage bytes
    → int_at (put_int i v bytes) i ≡ v
int_at-put_self i v bytes lt h page =
    ground (arith, int_at-put_int i i v bytes lt h page, nat_eqb_iff i i)

pub int_at-put_ne :
    (i j : ℕ) (v : ℤ) (bytes : List ℕ)
    → i < 1024
    → i ≢ j
    → IsInt v
    → IsPage bytes
    → int_at (put_int i v bytes) j ≡ int_at bytes j
int_at-put_ne i j v bytes lt n h page =
    ground (arith, int_at-put_int i j v bytes lt h page, nat_eqb_iff i j)

-- Several writes, the last one first.
abbrev pub Writes : Type 0
Writes = List (ℕ × ℤ)

abbrev pub AllFit : Writes → Type 0
AllFit [] = Unit
AllFit ((i, v) ∷ ws) = (i < 1024) × IsInt v × AllFit ws

abbrev pub put_all : Writes → List ℕ → List ℕ
put_all [] bytes = bytes
put_all ((i, v) ∷ ws) bytes = put_int i v (put_all ws bytes)

abbrev pub last_at : Writes → ℕ → ℤ → ℤ
last_at [] j old = old
last_at ((i, v) ∷ ws) j old = if nat_eqb i j then v else last_at ws j old

pub put_all-IsPage :
    (ws : Writes) (bytes : List ℕ) → AllFit ws → IsPage bytes → IsPage (put_all ws bytes)
put_all-IsPage [] bytes f page = page
put_all-IsPage ((i, v) ∷ ws) bytes (lt, _, f) page =
    put_int-IsPage i v (put_all ws bytes) lt (put_all-IsPage ws bytes f page)

pub int_at-put_all :
    (ws : Writes) (bytes : List ℕ) (j : ℕ)
    → AllFit ws
    → IsPage bytes
    → int_at (put_all ws bytes) j ≡ last_at ws j (int_at bytes j)
int_at-put_all [] bytes j f page = refl
int_at-put_all ((i, v) ∷ ws) bytes j (lt, h, f) page =
    int_at-put_int i j v (put_all ws bytes) lt h (put_all-IsPage ws bytes f page)
    ∙ ap (λ x. if nat_eqb i j then v else x) (int_at-put_all ws bytes j f page)

pub zero_bytes-IsPage : IsPage zero_bytes
unfolding zero_bytes
zero_bytes-IsPage = record {
  size = length-replicate {A = ℕ} 4096 0;
  raw = λ i. subst (λ b. b < 256) (sym (get_or-replicate 4096 i 0)) (omega arith);
}
