-- ===== src/Log/Tests.antt =====
-- LogBuffer.cpp with a buffer for two records.
use altas_dbpro.Prelude.{◌≡◌, some, List, [], ◌∷◌, ◌++◌, length, replicate}
use altas_dbpro.Prelude.Ints.{pos}
use altas_dbpro.Log.{LogRecord, insert, init, append_all, flush}
use altas_dbpro.Log.Order.{IsBelow, open_log, lines, flush-append_all}

abbrev first : LogRecord
first = record { type = insert; txn_id = pos 1; lsn = 0; bytes = replicate 1024 0 }

abbrev records : List LogRecord
records = first ∷ first ∷ first ∷ []

flush-append_all_example :
    IsBelow 2 (length (append_all records (init 2 (some (open_log [])))).records)
    × ((flush (append_all records (init 2 (some (open_log []))))).records ≡ [])
    × ((flush (append_all records (init 2 (some (open_log []))))).wal
        ≡ some (open_log ([] ++ lines records)))
flush-append_all_example = flush-append_all 2 [] records
