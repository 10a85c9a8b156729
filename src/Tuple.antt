-- ===== src/Tuple.antt =====
-- MiniDB/include/common/types.h: the records, 2048 bytes each with the number of bytes in use. The
-- copy constructor and the assignment copy every field. Offsets and sizes are far below 2 ^ 64.
pub mod Values
use altas_dbpro.Prelude.{ℕ, ◌+◌, ◌<◌, Bool, List, if◌then◌else◌, ltb, leb, replicate}
use altas_dbpro.Prelude.Ints.{ℤ, pos}
use altas_dbpro.Rid.{Rid, no_rid}
use altas_dbpro.Bytes.{read_int, write_int, copy_in}

abbrev pub max_size : ℕ
max_size = 2048

unfoldable pub no_bytes : List ℕ
no_bytes = replicate max_size 0

pub record Tuple : Type 0 where
  pub bytes : List ℕ
  pub size : ℕ
  pub rid : Rid

abbrev pub new_tuple : Tuple
new_tuple = record { bytes = no_bytes; size = 0; rid = no_rid }

-- `Tuple(data, size, rid)` where `data` points to these bytes: a size that is too large is kept.
unfoldable pub tuple_of : List ℕ → ℕ → Rid → Tuple
unfolding no_bytes copy_in
tuple_of source size rid = record {
  bytes = if leb size max_size then copy_in 0 source no_bytes else no_bytes;
  size = size;
  rid = rid;
}

unfoldable pub set_size : ℕ → Tuple → Tuple
set_size size t = if leb size max_size then record t { size = size } else t

abbrev pub set_rid : Rid → Tuple → Tuple
set_rid rid t = record t { rid = rid }

unfoldable pub get_int_value : ℕ → Tuple → ℤ
unfolding read_int
get_int_value offset t = if leb (offset + 4) t.size then read_int t.bytes offset else pos 0

unfoldable pub set_int_value : ℕ → ℤ → Tuple → Tuple
unfolding write_int
set_int_value offset value t =
    if leb (offset + 4) max_size
    then record t {
      bytes = write_int offset value t.bytes;
      size = if ltb t.size (offset + 4) then offset + 4 else t.size;
    }
    else t
