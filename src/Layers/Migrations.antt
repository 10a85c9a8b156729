-- ===== src/Layers/Migrations.antt =====
-- The hot pages and the migration log of LayerManager.cpp over histories of calls.
use mathlib.Core.List.{append-nil, append_assoc}
use altas_dbpro.Prelude.{
  ℕ, ◌≤◌, ◌<◌, ◌≡◌, refl, ap, ◌∙◌, inl, inr, true, false, some, List, [], ◌∷◌, ◌++◌, arith,
  if◌then◌else◌, ltb, length, length-append, Bool-cases,
}
use altas_dbpro.Prelude.Ints.{ℤ, int_eq, eqb_ℤ, eqb_ℤ_iff}
use altas_dbpro.Prelude.Sets.{mem-insert, mem-erase}
use altas_dbpro.Sql.{Text}
use altas_dbpro.Layers.{
  LayerManager, MigrationLogEntry, WalManager, is_page_hot, mark_page_hot, mark_page_cold,
  drop_first, keep_log, log_line, log_migration, write_log,
}

module _ {Duration : Type 0} where
  -- `MarkPageHot` makes exactly its page hot, `MarkPageCold` makes exactly its page not hot, and
  -- every other page stays as it was.
  pub is_page_hot-mark :
      (m : LayerManager Duration) (page_id other : ℤ)
      → (is_page_hot other (mark_page_hot page_id m)
          ≡ (if eqb_ℤ page_id other then true else is_page_hot other m))
        × (is_page_hot other (mark_page_cold page_id m)
            ≡ (if eqb_ℤ page_id other then false else is_page_hot other m))
  unfolding is_page_hot mark_page_hot mark_page_cold
  is_page_hot-mark m page_id other = (
    ground (arith, mem-insert other page_id m.hot_page_ids, eqb_ℤ_iff page_id other),
    ground (arith, mem-erase other page_id m.hot_page_ids, eqb_ℤ_iff page_id other),
  )

  -- The last `n` elements.
  unfoldable pub last : ℕ → List (MigrationLogEntry Duration) → List (MigrationLogEntry Duration)
  last n [] = []
  last n (e ∷ es) = if ltb n (length (e ∷ es)) then last n es else e ∷ es

  last-short : (n : ℕ) (es : List (MigrationLogEntry Duration)) → length es ≤ n → last n es ≡ es
  unfolding last
  last-short n [] h = refl
  last-short n (e ∷ es) h = ground arith

  length-last : (n : ℕ) (es : List (MigrationLogEntry Duration)) → length (last n es) ≤ n
  unfolding last
  length-last n [] = omega arith
  length-last n (e ∷ es) = ground (arith, length-last n es)

  trim : ℕ → List (MigrationLogEntry Duration) → List (MigrationLogEntry Duration)
  trim n es = if ltb n (length es) then drop_first es else es

  -- Trimming by one after each push keeps the last ones.
  last-snoc :
      (n : ℕ) (es : List (MigrationLogEntry Duration)) (e : MigrationLogEntry Duration)
      → 0 < n
      → trim n (last n es ++ e ∷ []) ≡ last n (es ++ e ∷ [])
  unfolding last trim
  last-snoc n [] e h = ground arith
  last-snoc n (x ∷ es) e h = elim (Bool-cases (ltb n (length (x ∷ es)))) [
    | inl long ↦ ground (arith, last-snoc n es e h, length-append es (e ∷ []))
    | inr short ↦ ground (arith, length-append es (e ∷ []), last-short n (es ++ e ∷ []))
  ]

  module _ (show_int : ℤ → Text) (show_duration : Duration → Text) where
    -- `LogMigration` for each entry in turn.
    unfoldable pub log_each :
        List (MigrationLogEntry Duration) → LayerManager Duration → LayerManager Duration
    unfolding log_migration
    log_each [] m = m
    log_each (e ∷ es) m = log_each es (log_migration show_int show_duration e m)

    logs-log_migration :
        (e : MigrationLogEntry Duration) (m : LayerManager Duration)
        → (log_migration show_int show_duration e m).migration_logs
          ≡ trim 10000 (m.migration_logs ++ e ∷ [])
    unfolding log_migration keep_log trim
    logs-log_migration e m = refl

    unfoldable pub lines : List (MigrationLogEntry Duration) → Text
    lines [] = []
    lines (e ∷ es) = log_line show_int show_duration e ++ 10 ∷ lines es

    logs-log_each :
        (es before : List (MigrationLogEntry Duration)) (m : LayerManager Duration)
        → m.migration_logs ≡ last 10000 before
        → (log_each es m).migration_logs ≡ last 10000 (before ++ es)
    unfolding log_each
    logs-log_each [] before m h = rw (append-nil before) h
    logs-log_each (e ∷ es) before m h = rw (← append_assoc before (e ∷ []) es) (
        logs-log_each es (before ++ e ∷ []) (log_migration show_int show_duration e m) (
          logs-log_migration e m
          ∙ ap (λ l. trim 10000 (l ++ e ∷ [])) h
          ∙ last-snoc 10000 before e (omega arith)))

    -- On an empty log, after `LogMigration` for each entry of a list in turn, the log is the last
    -- 10000 entries of the list.
    pub migration_logs-log_each :
        (es : List (MigrationLogEntry Duration)) (m : LayerManager Duration)
        → m.migration_logs ≡ []
        → (log_each es m).migration_logs ≡ last 10000 es
    unfolding last
    migration_logs-log_each es m h = logs-log_each es [] m h

    wal-log_migration :
        (e : MigrationLogEntry Duration) (m : LayerManager Duration) (w : WalManager)
        → w.is_open ≡ true
        → m.wal_manager ≡ some w
        → (log_migration show_int show_duration e m).wal_manager
          ≡ some (record w { written = w.written ++ log_line show_int show_duration e ++ 10 ∷ [] })
    unfolding log_migration keep_log write_log
    wal-log_migration e m w o h = rw (h, write_log) (rw o refl)

    -- With an open log file, `LogMigration` for each entry of a list in turn appends to the file one
    -- line for each entry, in the order of the list, and nothing else.
    pub wal-log_each :
        (es : List (MigrationLogEntry Duration)) (m : LayerManager Duration) (w : WalManager)
        → w.is_open ≡ true
        → m.wal_manager ≡ some w
        → (log_each es m).wal_manager ≡ some (record w { written = w.written ++ lines es })
    unfolding log_each lines
    wal-log_each [] m w o h = rw (append-nil w.written) h
    wal-log_each (e ∷ es) m w o h =
        let line = log_line show_int show_duration e in
        wal-log_each es (log_migration show_int show_duration e m)
          (record w { written = w.written ++ line ++ 10 ∷ [] }) o (wal-log_migration e m w o h)
        ∙ ap (λ l. some (record w { written = l }))
            (append_assoc (w.written ++ line) (10 ∷ []) (lines es)
              ∙ append_assoc w.written line (10 ∷ lines es))
