-- ===== src/Executors/Rows.antt =====
-- The rows that an operator gives, one `Next` after the other, whatever record it is called with.
use altas_dbpro.Prelude.{ℕ, zero, suc, ◌<◌, length, arith, refl, ◌≡◌, none, some, List, [], ◌∷◌}
use altas_dbpro.Prelude.Run.{Run, done, out_of_fuel, ◌>>=◌}
use altas_dbpro.Rid.{Rid}
use altas_dbpro.Tuple.{Tuple}
use altas_dbpro.Executors.{Executor}

abbrev pub tuples : List (Tuple × Rid) → List Tuple
tuples [] = []
tuples ((t, r) ∷ rows) = t ∷ tuples rows

abbrev pub fold {κ} : {A : Type κ} → (A → Tuple → A) → A → List Tuple → A
fold body a [] = a
fold body a (t ∷ ts) = fold body (body a t) ts

module _ {ℓ} (e : Executor {ℓ}) where
  open e use {State, init, next}

  pub data Yields : State → List (Tuple × Rid) → Type ℓ where
    stop : (s t : State) → ((old : Tuple) → next old s ≡ done (t, none)) → Yields s []
    step :
        (s t : State) (row : Tuple × Rid) (rows : List (Tuple × Rid))
        → ((old : Tuple) → next old s ≡ done (t, some row))
        → Yields t rows
        → Yields s (row ∷ rows)

  -- `Init` returns from the state, and the operator gives the rows then.
  abbrev pub Starts : State → List (Tuple × Rid) → Type ℓ
  Starts s rows = (t : State) × (init s ≡ done t) × Yields t rows

  -- `while (child->Next(&t, ...))`, on fuel, which hands each record to `body`.
  unfoldable pub drain {κ} :
      {A : Type κ} → (A → Tuple → A) → ℕ → Tuple → A → State → Run (State × A)
  drain body zero old a s = out_of_fuel
  drain body (suc fuel) old a s = next old s >>= λ r. elim r.1 [
    | none ↦ done (r.0, a)
    | some row ↦ drain body fuel row.0 (body a row.0) r.0
  ]

  -- The loop ends if the fuel is more than the number of rows, and has then seen each row once.
  pub drain-Yields {κ} :
      {A : Type κ} (body : A → Tuple → A) (fuel : ℕ) (old : Tuple) (a : A) (s : State)
      (rows : List (Tuple × Rid))
      → Yields s rows
      → length rows < fuel
      → (t : State) × (drain body fuel old a s ≡ done (t, fold body a (tuples rows)))
  unfolding drain
  drain-Yields body zero old a s rows y lt = absurd (omega arith)
  drain-Yields body (suc fuel) old a s _ (stop _ t e) lt = (t, rw (e old) refl)
  drain-Yields body (suc fuel) old a s _ (step _ t row rows e y) lt =
      let (u, f) = drain-Yields body fuel row.0 (body a row.0) t rows y (omega arith) in
      (u, rw (e old) f)
