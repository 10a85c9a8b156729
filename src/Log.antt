-- ===== src/Log.antt =====
-- MiniDB/src/log/LogBuffer.cpp and its header, with LogRecord.h: records that wait in memory until
-- there are enough of them, and then go to the write-ahead log. The destructor calls `flush`.
pub mod Order
pub mod Tests
use altas_dbpro.Prelude.{
  ℕ, ◌+◌, ◌*◌, ◌%◌, Bool, true, false, ◌&&◌, Option, none, some, List, [], ◌∷◌, ◌++◌, if◌then◌else◌,
  length, ltb, leb,
}
use altas_dbpro.Prelude.Ints.{ℤ}
use altas_dbpro.Sql.{Text}
use altas_dbpro.Bytes.{bits, byte_of, copy_out}
use altas_dbpro.Layers.{WalManager, write_log}

pub data LogRecordType : Type 0 where
  insert update delete commit abort : LogRecordType

-- `lsn` is below 2 ^ 64.
pub record LogRecord : Type 0 where
  pub type : LogRecordType
  pub txn_id : ℤ
  pub lsn : ℕ
  pub bytes : List ℕ

abbrev pub type_code : LogRecordType → ℕ
type_code insert = 0
type_code update = 1
type_code delete = 2
type_code commit = 3
type_code abort = 4

-- The four bytes of a number, from the unit on.
abbrev pub four_bytes : ℕ → ℕ → Text
four_bytes w unit =
    byte_of w unit
    ∷ byte_of w (unit * 256)
    ∷ byte_of w (unit * 65536)
    ∷ byte_of w (unit * 16777216)
    ∷ []

-- The line of a record: its type, its transaction, its number and the first 64 of its bytes.
unfoldable pub entry : LogRecord → Text
unfolding copy_out
entry r =
    type_code r.type ∷ four_bytes (bits r.txn_id) 1
    ++ four_bytes r.lsn 1
    ++ four_bytes r.lsn 4294967296
    ++ copy_out 0 64 r.bytes

pub record LogBuffer : Type 0 where
  pub buffer_size : ℕ
  pub records : List LogRecord
  pub wal : Option WalManager

abbrev pub init : ℕ → Option WalManager → LogBuffer
init n wal = record { buffer_size = n; records = []; wal = wal }

abbrev pub set_wal : Option WalManager → LogBuffer → LogBuffer
set_wal wal b = record b { wal = wal }

-- The loop of `Flush`.
unfoldable pub write_each : List LogRecord → WalManager → WalManager
unfolding write_log entry
write_each [] w = w
write_each (r ∷ rs) w = write_each rs (write_log (entry r) w).0

abbrev pub flush_to : LogBuffer → Option WalManager → LogBuffer
flush_to b none = b
flush_to b (some w) = record b { records = []; wal = some (write_each b.records w) }

abbrev pub no_records : List LogRecord → Bool
no_records [] = true
no_records (r ∷ rs) = false

unfoldable pub flush : LogBuffer → LogBuffer
unfolding write_each
flush b = if no_records b.records then b else flush_to b b.wal

unfoldable pub append_log : LogRecord → LogBuffer → LogBuffer
unfolding flush
append_log r b =
    let longer = record b { records = b.records ++ r ∷ [] } in
    if leb b.buffer_size (length longer.records) && ltb 0 b.buffer_size
    then flush longer
    else longer

-- Several calls of `AppendLog`.
unfoldable pub append_all : List LogRecord → LogBuffer → LogBuffer
unfolding append_log
append_all [] b = b
append_all (r ∷ rs) b = append_all rs (append_log r b)
