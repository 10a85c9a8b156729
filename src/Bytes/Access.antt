-- ===== src/Bytes/Access.antt =====
-- Reads after writes in raw memory.
use altas_dbpro.Prelude.{
  ℕ, suc, ◌+◌, ◌-◌, ◌<◌, ◌≤◌, ◌≡◌, refl, ap, ◌∙◌, ◌⊎◌, inl, inr, List, [], ◌∷◌, arith,
  if◌then◌else◌, ltb, leb, ◌&&◌, set, length, length-set, get_or-set_self, get_or-set_ne, nat_eqb,
  nat_eqb_iff, Bool-cases,
}
use altas_dbpro.Prelude.Ints.{ℤ, pos, negsuc}
use altas_dbpro.Bytes.{IsInt, bits, signed, byte_at, word, read_int, byte_of, write_int, copy_in}

pub length-write_int :
    (o : ℕ) (v : ℤ) (bytes : List ℕ) → length (write_int o v bytes) ≡ length bytes
unfolding write_int
length-write_int o v bytes =
    let w = bits v in
    let one = set bytes o (byte_of w 1) in
    let two = set one (o + 1) (byte_of w 256) in
    let three = set two (o + 2) (byte_of w 65536) in
    length-set three (o + 3) (byte_of w 16777216)
    ∙ length-set two (o + 2) (byte_of w 65536)
    ∙ length-set one (o + 1) (byte_of w 256)
    ∙ length-set bytes o (byte_of w 1)

pub byte_at-set :
    (bs : List ℕ) (j i b : ℕ)
    → j < length bs
    → byte_at (set bs j b) i ≡ (if nat_eqb j i then b else byte_at bs i)
byte_at-set bs j i b lt = elim (Bool-cases (nat_eqb j i)) [
  | inl e ↦ ground (arith, get_or-set_self bs j b 0, nat_eqb_iff j i)
  | inr e ↦ ground (arith, get_or-set_ne bs j i b 0, nat_eqb_iff j i)
]

-- One byte of the list after `write_int`.
pub byte_at-write_int :
    (o : ℕ) (v : ℤ) (bytes : List ℕ) (i : ℕ)
    → o + 4 ≤ length bytes
    → byte_at (write_int o v bytes) i ≡ (
        if nat_eqb (o + 3) i
        then byte_of (bits v) 16777216
        else if nat_eqb (o + 2) i
        then byte_of (bits v) 65536
        else if nat_eqb (o + 1) i
        then byte_of (bits v) 256
        else if nat_eqb o i
        then byte_of (bits v) 1
        else byte_at bytes i)
unfolding write_int
byte_at-write_int o v bytes i fits =
    let b₀ = byte_of (bits v) 1 in
    let b₁ = byte_of (bits v) 256 in
    let b₂ = byte_of (bits v) 65536 in
    let b₃ = byte_of (bits v) 16777216 in
    let one = set bytes o b₀ in
    let two = set one (o + 1) b₁ in
    let three = set two (o + 2) b₂ in
    let len₁ : length one ≡ length bytes = length-set bytes o b₀ in
    let len₂ : length two ≡ length bytes = length-set one (o + 1) b₁ ∙ len₁ in
    let len₃ : length three ≡ length bytes = length-set two (o + 2) b₂ ∙ len₂ in
    byte_at-set three (o + 3) i b₃ (omega (arith, len₃))
    ∙ ap (λ x. if nat_eqb (o + 3) i then b₃ else x)
        (byte_at-set two (o + 2) i b₂ (omega (arith, len₂))
          ∙ ap (λ x. if nat_eqb (o + 2) i then b₂ else x)
              (byte_at-set one (o + 1) i b₁ (omega (arith, len₁))
                ∙ ap (λ x. if nat_eqb (o + 1) i then b₁ else x)
                    (byte_at-set bytes o i b₀ (omega (arith, fits)))))

signed-bits : (v : ℤ) → IsInt v → signed (bits v) ≡ v
signed-bits (pos n) h = ground arith
signed-bits (negsuc n) h = ground arith

bits-lt : (v : ℤ) → bits v < 4294967296
bits-lt (pos n) = omega arith
bits-lt (negsuc n) = omega arith

word-bytes :
    (w : ℕ)
    → w < 4294967296
    → word (byte_of w 1) (byte_of w 256) (byte_of w 65536) (byte_of w 16777216) ≡ w
word-bytes w h = omega arith

-- What `write_int` wrote is read back.
pub read_int-write_int :
    (o : ℕ) (v : ℤ) (bytes : List ℕ)
    → IsInt v
    → o + 4 ≤ length bytes
    → read_int (write_int o v bytes) o ≡ v
unfolding read_int
read_int-write_int o v bytes h fits =
    ap signed (
      ground (
        arith,
        byte_at-write_int o v bytes o fits,
        byte_at-write_int o v bytes (o + 1) fits,
        byte_at-write_int o v bytes (o + 2) fits,
        byte_at-write_int o v bytes (o + 3) fits,
        word-bytes (bits v) (bits-lt v),
      ))
    ∙ signed-bits v h

-- Two ranges of four bytes that do not meet.
abbrev pub Apart : ℕ → ℕ → Type 0
Apart o p = (o + 4 ≤ p) ⊎ (p + 4 ≤ o)

-- An `int` elsewhere is not changed by `write_int`.
pub read_int-write_elsewhere :
    (o p : ℕ) (v : ℤ) (bytes : List ℕ)
    → o + 4 ≤ length bytes
    → Apart o p
    → read_int (write_int o v bytes) p ≡ read_int bytes p
unfolding read_int
read_int-write_elsewhere o p v bytes fits apart = ap signed (
    ground (
      arith,
      byte_at-write_int o v bytes p fits,
      byte_at-write_int o v bytes (p + 1) fits,
      byte_at-write_int o v bytes (p + 2) fits,
      byte_at-write_int o v bytes (p + 3) fits,
    ))

pub length-copy_in :
    (o : ℕ) (source bytes : List ℕ) → length (copy_in o source bytes) ≡ length bytes
unfolding copy_in
length-copy_in o [] bytes = refl
length-copy_in o (b ∷ bs) bytes =
    length-set (copy_in (suc o) bs bytes) o b ∙ length-copy_in (suc o) bs bytes

-- One byte of the list after `copy_in`.
pub byte_at-copy_in :
    (o : ℕ) (source bytes : List ℕ) (i : ℕ)
    → o + length source ≤ length bytes
    → byte_at (copy_in o source bytes) i
      ≡ (if leb o i && ltb i (o + length source) then byte_at source (i - o) else byte_at bytes i)
unfolding copy_in
byte_at-copy_in o [] bytes i fits = ground arith
byte_at-copy_in o (b ∷ bs) bytes i fits =
    let len = length-copy_in (suc o) bs bytes in
    let rest = byte_at-copy_in (suc o) bs bytes i (omega (arith, fits)) in
    let top = byte_at-set (copy_in (suc o) bs bytes) o i b (omega (arith, len, fits)) in
    elim (Bool-cases (leb (suc o) i)) [
      | inl later ↦
          let e : i - o ≡ suc (i - suc o) = ground arith in
          let moved : byte_at (b ∷ bs) (i - o) ≡ byte_at bs (i - suc o) = ap (byte_at (b ∷ bs)) e in
          ground (arith, rest, top)
      | inr early ↦ elim (Bool-cases (nat_eqb o i)) [
        | inl here ↦
            let e : i - o ≡ 0 = ground arith in
            let moved : byte_at (b ∷ bs) (i - o) ≡ b = ap (byte_at (b ∷ bs)) e in
            ground (arith, rest, top)
        | inr before ↦ ground (arith, rest, top)
      ]
    ]

pub read_int-copy_apart :
    (o p : ℕ) (source bytes : List ℕ)
    → o + length source ≤ length bytes
    → (p + 4 ≤ o) ⊎ (o + length source ≤ p)
    → read_int (copy_in o source bytes) p ≡ read_int bytes p
unfolding read_int
read_int-copy_apart o p source bytes fits apart = ap signed (
    ground (
      arith,
      byte_at-copy_in o source bytes p fits,
      byte_at-copy_in o source bytes (p + 1) fits,
      byte_at-copy_in o source bytes (p + 2) fits,
      byte_at-copy_in o source bytes (p + 3) fits,
    ))

-- Within the copy, an `int` is that of the source.
pub read_int-copy_in :
    (o k : ℕ) (source bytes : List ℕ)
    → o + length source ≤ length bytes
    → k + 4 ≤ length source
    → read_int (copy_in o source bytes) (o + k) ≡ read_int source k
unfolding read_int
read_int-copy_in o k source bytes fits inside = ap signed (
    ground (
      arith,
      at k (omega (arith, inside)),
      at (k + 1) (omega (arith, inside)),
      at (k + 2) (omega (arith, inside)),
      at (k + 3) (omega (arith, inside)),
    ))
  where
    at : (j : ℕ) → j < length source → byte_at (copy_in o source bytes) (o + j) ≡ byte_at source j
    at j lt =
        let e : o + j - o ≡ j = omega arith in
        let moved : byte_at source (o + j - o) ≡ byte_at source j = ap (byte_at source) e in
        ground (arith, byte_at-copy_in o source bytes (o + j) fits)

-- Every byte is one.
abbrev pub AreBytes : List ℕ → Type 0
AreBytes bytes = (i : ℕ) → byte_at bytes i < 256

pub read_int-IsInt : (bytes : List ℕ) (o : ℕ) → AreBytes bytes → IsInt (read_int bytes o)
unfolding read_int
read_int-IsInt bytes o h =
    signed-IsInt
      (word (byte_at bytes o) (byte_at bytes (o + 1)) (byte_at bytes (o + 2))
        (byte_at bytes (o + 3)))
      (omega (arith, h o, h (o + 1), h (o + 2), h (o + 3)))
  where
    signed-IsInt : (w : ℕ) → w < 4294967296 → IsInt (signed w)
    signed-IsInt w lt = elim (Bool-cases (ltb w 2147483648)) [
      | inl low ↦ rw low (ground arith)
      | inr high ↦ rw high (ground arith)
    ]

pub write_int-AreBytes :
    (o : ℕ) (v : ℤ) (bytes : List ℕ)
    → o + 4 ≤ length bytes
    → AreBytes bytes
    → AreBytes (write_int o v bytes)
write_int-AreBytes o v bytes fits h i = ground (arith, byte_at-write_int o v bytes i fits, h i)
