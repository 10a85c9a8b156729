-- ===== src/Tuple/Values.antt =====
-- `GetIntValue` after `SetIntValue` (types.h).
use altas_dbpro.Prelude.{ℕ, ◌+◌, ◌≤◌, ◌≡◌, ◌∙◌, true, arith, if◌then◌else◌, ltb, leb, length}
use altas_dbpro.Prelude.Ints.{ℤ}
use altas_dbpro.Bytes.{IsInt}
use altas_dbpro.Bytes.Access.{Apart, length-write_int, read_int-write_int, read_int-write_elsewhere}
use altas_dbpro.Tuple.{Tuple, get_int_value, set_int_value, max_size}

-- A record has its 2048 bytes, and not more of them in use.
pub record IsTuple (t : Tuple) : Type 0 where
  pub whole : length t.bytes ≡ max_size
  pub used : t.size ≤ max_size

-- `SetIntValue(offset, value)` at an offset where four bytes fit into a record: the record is one
-- again, `GetIntValue` there answers the value, and at an offset in use that is four bytes or more
-- away it answers what it did.
pub get_int_value-set :
    (t : Tuple) (offset other : ℕ) (value : ℤ)
    → IsTuple t
    → IsInt value
    → offset + 4 ≤ max_size
    → Apart offset other
    → other + 4 ≤ t.size
    → IsTuple (set_int_value offset value t)
      × (get_int_value offset (set_int_value offset value t) ≡ value)
      × (get_int_value other (set_int_value offset value t) ≡ get_int_value other t)
unfolding get_int_value set_int_value
get_int_value-set t offset other value h v fits apart lt =
    let e : leb (offset + 4) max_size ≡ true = ground (arith, fits) in
    let now = if ltb t.size (offset + 4) then offset + 4 else t.size in
    let inside : leb (offset + 4) now ≡ true = ground arith in
    let was : leb (other + 4) t.size ≡ true = ground (arith, lt) in
    let is : leb (other + 4) now ≡ true = ground (arith, lt) in
    (
      rw e (record {
        whole = length-write_int offset value t.bytes ∙ h.whole;
        used = ground (arith, h.used, fits);
      }),
      rw (e, inside) (read_int-write_int offset value t.bytes v (omega (arith, fits, h.whole))),
      rw (e, is, was)
          (read_int-write_elsewhere offset other value t.bytes (omega (arith, fits, h.whole))
            apart),
    )
