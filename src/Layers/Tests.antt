-- ===== src/Layers/Tests.antt =====
-- LayerManager.cpp on a few calls. A duration is a number of seconds, printed in base one.
use altas_dbpro.Prelude.{ℕ, suc, ◌≡◌, refl, Bool, true, false, some, List, [], ◌∷◌, ◌++◌, replicate}
use altas_dbpro.Prelude.Ints.{ℤ, pos, negsuc}
use altas_dbpro.Sql.{Text, codes}
use altas_dbpro.Layers.{
  LayerManager, MigrationLogEntry, WalManager, init, is_page_hot, mark_page_hot, mark_page_cold,
}
use altas_dbpro.Layers.Migrations.{last, log_each, lines, migration_logs-log_each}

abbrev ticks : ℕ → Text
ticks n = replicate n 49

abbrev show_int : ℤ → Text
show_int (pos n) = ticks n
show_int (negsuc n) = 45 ∷ ticks (suc n)

abbrev open_log : WalManager
open_log = record { written = codes "old"; is_open = true }

abbrev manager : LayerManager ℕ
manager = init ℕ (some open_log)

abbrev entry : Bool → MigrationLogEntry ℕ
entry ok = record {
  timestamp = 7;
  row_count = pos 2;
  duration_sec = 1;
  success = ok;
  reason = codes "cold";
  table_name = codes "t";
}

abbrev entries : List (MigrationLogEntry ℕ)
entries = entry true ∷ entry false ∷ []

migration_logs-log_each_example :
    (log_each show_int ticks entries manager).migration_logs ≡ last 10000 entries
migration_logs-log_each_example = migration_logs-log_each show_int ticks entries manager refl

lines-entry : lines show_int ticks (entry true ∷ []) ≡ codes "MIGRATION|t|11|1|OK|cold" ++ 10 ∷ []
unfolding lines altas_dbpro.Layers.log_line
lines-entry = refl
