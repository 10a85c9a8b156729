-- ===== src/Layers.antt =====
-- MiniDB/src/storage/LayerManager.cpp and MiniDB/src/log/WALManager.cpp with their headers: the hot
-- pages, the limit on migrated rows, and the log of the migrations. A null `wal_manager_` is `none`.
-- Times of the steady clock are nanoseconds that a caller of the model gives, as are the time stamps.
-- A `double` and its text in a stream are parameters. `ofstream` is the bytes written and whether it
-- is open; `flush` changes neither.
pub mod Migrations
pub mod Tests
use Prim.Native.String.{String}
use altas_dbpro.Prelude.{
  ℕ, zero, suc, ◌+◌, ◌-◌, Bool, true, false, not, Option, none, some, List, [], ◌∷◌, ◌++◌,
  if◌then◌else◌, ltb, leb, length,
}
use altas_dbpro.Prelude.Ints.{ℤ, pos, int_eq, ltb_ℤ, ◌+ℤ◌}
use altas_dbpro.Prelude.Sets.{mem, insert, erase}
use altas_dbpro.Sql.{Text, codes}

-- `log_file_` of the write-ahead log.
pub record WalManager : Type 0 where
  pub written : Text
  pub is_open : Bool

unfoldable pub write_log : Text → WalManager → WalManager × Bool
write_log entry w =
    if not w.is_open
    then (w, false)
    else (record w { written = w.written ++ entry ++ 10 ∷ [] }, true)

abbrev pub ok_word : Bool → Text
ok_word true = codes "OK"
ok_word false = codes "FAIL"

abbrev pub write_line : Text → Option WalManager → Option WalManager
write_line line none = none
write_line line (some w) = some (write_log line w).0

module _ (Duration : Type 0) where
  pub record MigrationLogEntry : Type 0 where
    pub timestamp : ℕ
    pub row_count : ℤ
    pub duration_sec : Duration
    pub success : Bool
    pub reason : Text
    pub table_name : Text

  pub record LayerManager : Type 0 where
    pub hot_page_ids : List ℤ
    pub hot_threshold_days : ℤ
    pub migration_rate_limit : ℤ
    pub last_migration_time : ℕ
    pub rows_migrated_this_second : ℤ
    pub wal_manager : Option WalManager
    pub migration_logs : List MigrationLogEntry

  abbrev pub init : Option WalManager → LayerManager
  init wal = record {
    hot_page_ids = [];
    hot_threshold_days = pos 3;
    migration_rate_limit = pos 1000;
    last_migration_time = 0;
    rows_migrated_this_second = pos 0;
    wal_manager = wal;
    migration_logs = [];
  }

module _ {Duration : Type 0} where
  unfoldable pub set_hot_threshold : ℤ → LayerManager Duration → LayerManager Duration
  set_hot_threshold days m = record m { hot_threshold_days = days }

  unfoldable pub set_migration_rate_limit : ℤ → LayerManager Duration → LayerManager Duration
  set_migration_rate_limit rows m = record m { migration_rate_limit = rows }

  unfoldable pub is_page_hot : ℤ → LayerManager Duration → Bool
  unfolding mem
  is_page_hot page_id m = mem page_id m.hot_page_ids

  unfoldable pub mark_page_hot : ℤ → LayerManager Duration → LayerManager Duration
  mark_page_hot page_id m = record m { hot_page_ids = insert page_id m.hot_page_ids }

  unfoldable pub mark_page_cold : ℤ → LayerManager Duration → LayerManager Duration
  mark_page_cold page_id m = record m { hot_page_ids = erase page_id m.hot_page_ids }

  unfoldable pub can_migrate_more : ℕ → LayerManager Duration → LayerManager Duration × Bool
  can_migrate_more now m =
      let n =
        if leb 1000000000 (now - m.last_migration_time)
        then record m { rows_migrated_this_second = pos 0; last_migration_time = now }
        else m in
      (n, ltb_ℤ n.rows_migrated_this_second n.migration_rate_limit)

  unfoldable pub record_migration_start : ℕ → LayerManager Duration → LayerManager Duration
  record_migration_start now m = record m { last_migration_time = now }

  unfoldable pub record_migration_rows : ℤ → LayerManager Duration → LayerManager Duration
  record_migration_rows rows m = record m {
    rows_migrated_this_second = m.rows_migrated_this_second +ℤ rows;
  }

  abbrev pub drop_first : List (MigrationLogEntry Duration) → List (MigrationLogEntry Duration)
  drop_first [] = []
  drop_first (e ∷ es) = es

  -- `push_back`, and `erase(begin())` beyond 10000 entries.
  unfoldable pub keep_log :
      MigrationLogEntry Duration → LayerManager Duration → LayerManager Duration
  keep_log entry m =
      let logs = m.migration_logs ++ entry ∷ [] in
      record m { migration_logs = if ltb 10000 (length logs) then drop_first logs else logs }

  -- The text of the stream `oss`.
  unfoldable pub log_line : (ℤ → Text) → (Duration → Text) → MigrationLogEntry Duration → Text
  log_line show_int show_duration e =
      codes "MIGRATION|"
      ++ e.table_name
      ++ codes "|"
      ++ show_int e.row_count
      ++ codes "|"
      ++ show_duration e.duration_sec
      ++ codes "|"
      ++ ok_word e.success
      ++ codes "|"
      ++ e.reason

  -- `LogMigration` with the fields of its `entry`.
  unfoldable pub log_migration :
      (ℤ → Text)
      → (Duration → Text)
      → MigrationLogEntry Duration
      → LayerManager Duration
      → LayerManager Duration
  unfolding keep_log
  log_migration show_int show_duration entry m =
      let n = keep_log entry m in
      record n { wal_manager = write_line (log_line show_int show_duration entry) n.wal_manager }

  unfoldable pub clear_migration_logs : LayerManager Duration → LayerManager Duration
  clear_migration_logs m = record m { migration_logs = [] }
