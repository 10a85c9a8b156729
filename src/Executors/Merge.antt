-- ===== src/Executors/Merge.antt =====
-- MergeExecutor.cpp: the rows of the hot operator, then those of the cold one. Either may be missing.
use altas_dbpro.Prelude.{
  ◌≡◌, refl, Bool, true, false, Option, none, some, List, ◌++◌, if◌then◌else◌,
}
use altas_dbpro.Prelude.Run.{Run, done, ◌>>=◌}
use altas_dbpro.Rid.{Rid}
use altas_dbpro.Tuple.{Tuple}
use altas_dbpro.Executors.{Executor}
use altas_dbpro.Executors.Rows.{Yields, stop, step, Starts}

-- `if (executor) executor->Init()`
abbrev pub init_child {ℓ} : (e : Executor {ℓ}) → Option e.State → Run (Option e.State)
init_child e none = done none
init_child e (some s) = e.init s >>= λ t. done (some t)

module _ {ℓ} (hot cold : Executor {ℓ}) where
  pub record MergeState : Type ℓ where
    pub hot_state : Option hot.State
    pub cold_state : Option cold.State
    pub use_hot : Bool
    pub hot_done : Bool
    pub cold_done : Bool
    pub initialized : Bool

  abbrev pub new_merge : Option hot.State → Option cold.State → MergeState
  new_merge h c = record {
    hot_state = h;
    cold_state = c;
    use_hot = true;
    hot_done = false;
    cold_done = false;
    initialized = false;
  }

  unfoldable pub init : MergeState → Run MergeState
  init s = init_child hot s.hot_state >>= λ h.
      init_child cold s.cold_state >>= λ c. done (record (new_merge h c) { initialized = true })

  abbrev pub after_cold :
      MergeState → cold.State × Option (Tuple × Rid) → MergeState × Option (Tuple × Rid)
  after_cold s (c, some row) = (record s { cold_state = some c }, some row)
  after_cold s (c, none) = (record s { cold_state = some c; cold_done = true }, none)

  abbrev pub from_cold :
      Tuple → MergeState → Option cold.State → Run (MergeState × Option (Tuple × Rid))
  from_cold old s none = done (s, none)
  from_cold old s (some c) = cold.next old c >>= λ r. done (after_cold s r)

  abbrev pub after_hot :
      Tuple
      → MergeState
      → hot.State × Option (Tuple × Rid)
      → Run (MergeState × Option (Tuple × Rid))
  after_hot old s (h, some row) = done (record s { hot_state = some h }, some row)
  after_hot old s (h, none) =
      from_cold old (record s { hot_state = some h; hot_done = true; use_hot = false }) s.cold_state

  abbrev pub from_hot :
      Tuple → MergeState → Option hot.State → Run (MergeState × Option (Tuple × Rid))
  from_hot old s none = from_cold old s s.cold_state
  from_hot old s (some h) = hot.next old h >>= after_hot old s

  abbrev pub ready : MergeState → Run MergeState
  ready s = if s.initialized then done s else init s

  unfoldable pub next : Tuple → MergeState → Run (MergeState × Option (Tuple × Rid))
  unfolding init
  next old s = ready s >>= λ t.
      if t.use_hot then from_hot old t t.hot_state else from_cold old t t.cold_state

  abbrev pub merge : Executor {ℓ}
  merge = record { State = MergeState; init = init; next = next }

  -- The state with both operators, before and after the hot one is exhausted.
  abbrev reading_hot : hot.State → cold.State → MergeState
  reading_hot h c = record (new_merge (some h) (some c)) { initialized = true }

  abbrev reading_cold : hot.State → cold.State → MergeState
  reading_cold h c = record (new_merge (some h) (some c)) {
    initialized = true;
    hot_done = true;
    use_hot = false;
  }

  cold-Yields :
      (h : hot.State) (c : cold.State) (rows : List (Tuple × Rid))
      → Yields cold c rows
      → Yields merge (reading_cold h c) rows
  unfolding next
  cold-Yields h c _ (stop _ t e) =
      stop _ (record (reading_cold h t) { cold_done = true }) (λ old. rw (e old) refl)
  cold-Yields h c _ (step _ t row rows e y) =
      step _ (reading_cold h t) row rows (λ old. rw (e old) refl) (cold-Yields h t rows y)

  hot-Yields :
      (h : hot.State) (c : cold.State) (rows rest : List (Tuple × Rid))
      → Yields hot h rows
      → Yields cold c rest
      → Yields merge (reading_hot h c) (rows ++ rest)
  unfolding next
  hot-Yields h c _ _ (stop _ t e) (stop _ u f) =
      stop _ (record (reading_cold t u) { cold_done = true }) (λ old. rw (e old, f old) refl)
  hot-Yields h c _ _ (stop _ t e) (step _ u row rest f y) =
      step _ (reading_cold t u) row rest (λ old. rw (e old, f old) refl) (cold-Yields t u rest y)
  hot-Yields h c _ rest (step _ t row rows e y) z =
      step _ (reading_hot t c) row (rows ++ rest) (λ old. rw (e old) refl)
        (hot-Yields t c rows rest y z)

  -- `MergeExecutor` of two operators that give their rows after `Init`: after its own `Init` it gives
  -- the rows of the hot operator and then those of the cold one, each once and in their order.
  pub merge-Starts :
      (h : hot.State) (c : cold.State) (rows rest : List (Tuple × Rid)) (s : MergeState)
      → s.hot_state ≡ some h
      → s.cold_state ≡ some c
      → Starts hot h rows
      → Starts cold c rest
      → Starts merge s (rows ++ rest)
  unfolding init
  merge-Starts h c rows rest s here there (h', e, y) (c', f, z) =
      (reading_hot h' c', rw (here, there, e, f) refl, hot-Yields h' c' rows rest y z)
