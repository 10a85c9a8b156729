-- ===== src/Bytes.antt =====
-- Raw memory as the sources use it: `memcpy` of an `int`, `reinterpret_cast<int*>` and `memcpy` of
-- bytes. A byte is a number below 256, an `int` has four bytes, the least significant one first. A
-- read past the end of the list gives 0 and a write there changes nothing.
pub mod Access
use altas_dbpro.Prelude.{
  ℕ, zero, suc, ◌+◌, ◌-◌, ◌*◌, ◌/◌, ◌%◌, ◌<◌, Bool, List, [], ◌∷◌, if◌then◌else◌, ltb, get_or, set,
  length,
}
use altas_dbpro.Prelude.Ints.{ℤ, pos, negsuc}

-- The values of an `int`.
abbrev pub IsInt : ℤ → Type 0
IsInt (pos n) = n < 2147483648
IsInt (negsuc n) = n < 2147483648

-- The bits of an `int` as a number below 2 ^ 32, and back.
abbrev pub bits : ℤ → ℕ
bits (pos n) = n % 4294967296
bits (negsuc n) = 4294967295 - n % 4294967296

abbrev pub signed : ℕ → ℤ
signed w = if ltb w 2147483648 then pos w else negsuc (4294967295 - w)

abbrev pub byte_at : List ℕ → ℕ → ℕ
byte_at bytes i = get_or bytes i 0

-- The number of four bytes, and the bytes of a number.
abbrev pub word : ℕ → ℕ → ℕ → ℕ → ℕ
word a b c d = a + 256 * b + 65536 * c + 16777216 * d

-- `memcpy(&v, bytes + o, 4)`.
unfoldable pub read_int : List ℕ → ℕ → ℤ
read_int bytes o =
    signed (
      word (byte_at bytes o) (byte_at bytes (o + 1)) (byte_at bytes (o + 2))
        (byte_at bytes (o + 3)))

-- The low byte of the number shifted right.
abbrev pub byte_of : ℕ → ℕ → ℕ
byte_of w unit = (w / unit) % 256

-- `memcpy(bytes + o, &v, 4)`.
unfoldable pub write_int : ℕ → ℤ → List ℕ → List ℕ
write_int o v bytes =
    let w = bits v in
    set (set (set (set bytes o (byte_of w 1)) (o + 1) (byte_of w 256)) (o + 2) (byte_of w 65536))
      (o + 3) (byte_of w 16777216)

-- `memcpy(bytes + o, source, n)` for the `n` bytes of `source`.
unfoldable pub copy_in : ℕ → List ℕ → List ℕ → List ℕ
copy_in o [] bytes = bytes
copy_in o (b ∷ bs) bytes = set (copy_in (suc o) bs bytes) o b

-- The `n` bytes from `o` on.
unfoldable pub copy_out : ℕ → ℕ → List ℕ → List ℕ
copy_out o zero bytes = []
copy_out o (suc n) bytes = byte_at bytes o ∷ copy_out (suc o) n bytes
