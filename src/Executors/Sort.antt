-- ===== src/Executors/Sort.antt =====
-- SortExecutor.cpp. `sort` is `std::sort`; the loop that reads the child runs on fuel.
use mathlib.Core.List.{append-nil, append_assoc}
use altas_dbpro.Prelude.{
  ℕ, zero, suc, ◌≡◌, refl, ap, ◌∙◌, Bool, Option, none, some, List, [], ◌∷◌, ◌++◌, length, ◌⊎◌, inl,
  inr, ◌<◌, arith, sym, ◌+◌,
}
use altas_dbpro.Prelude.Ints.{ltb_ℤ}
use altas_dbpro.Prelude.Run.{Run, done, ◌>>=◌}
use altas_dbpro.Rid.{Rid}
use altas_dbpro.Tuple.{Tuple, new_tuple, get_int_value}
use altas_dbpro.Executors.{Executor}
use altas_dbpro.Executors.Rows.{Yields, stop, step, Starts, drain, drain-Yields, tuples, fold}

module _ {ℓ} (child : Executor {ℓ}) where
  pub record SortState : Type ℓ where
    pub child_state : child.State
    pub sorted : List Tuple
    pub cursor : ℕ

  abbrev pub new_sort : child.State → SortState
  new_sort c = record { child_state = c; sorted = []; cursor = 0 }

  module _ (sort : (Tuple → Tuple → Bool) → List Tuple → List Tuple) (key_offset fuel : ℕ) where
    unfoldable pub key_less : Tuple → Tuple → Bool
    unfolding get_int_value ltb_ℤ
    key_less a b = ltb_ℤ (get_int_value key_offset a) (get_int_value key_offset b)

    abbrev pub push_back : List Tuple → Tuple → List Tuple
    push_back ts t = ts ++ t ∷ []

    unfoldable pub init : SortState → Run SortState
    unfolding drain key_less
    init s = child.init s.child_state >>= λ c. drain child push_back fuel new_tuple [] c >>= λ r.
        done (record { child_state = r.0; sorted = sort key_less r.1; cursor = 0 })

    -- `sorted_[cursor_]`, if it is there.
    abbrev pub row_at : List Tuple → ℕ → Option (Tuple × Rid)
    row_at [] i = none
    row_at (t ∷ ts) zero = some (t, t.rid)
    row_at (t ∷ ts) (suc i) = row_at ts i

    abbrev pub after : SortState → Option (Tuple × Rid) → SortState
    after s none = s
    after s (some row) = record s { cursor = s.cursor + 1 }

    unfoldable pub next : Tuple → SortState → Run (SortState × Option (Tuple × Rid))
    next old s = let row = row_at s.sorted s.cursor in done (after s row, row)

    abbrev pub sorting : Executor {ℓ}
    sorting = record { State = SortState; init = init; next = next }

    abbrev pub with_rids : List Tuple → List (Tuple × Rid)
    with_rids [] = []
    with_rids (t ∷ ts) = (t, t.rid) ∷ with_rids ts

    abbrev drop : ℕ → List Tuple → List Tuple
    drop zero ts = ts
    drop (suc i) [] = []
    drop (suc i) (t ∷ ts) = drop i ts

    pushed : (before ts : List Tuple) → fold push_back before ts ≡ before ++ ts
    pushed before [] = sym (append-nil before)
    pushed before (t ∷ ts) = pushed (before ++ t ∷ []) ts ∙ append_assoc before (t ∷ []) ts

    -- What is left at the cursor.
    from_cursor :
        (ts : List Tuple) (i : ℕ)
        → ((row_at ts i ≡ none) × (drop i ts ≡ []))
          ⊎ ((t : Tuple) × (row_at ts i ≡ some (t, t.rid)) × (drop i ts ≡ t ∷ drop (suc i) ts))
    from_cursor [] zero = inl (refl, refl)
    from_cursor [] (suc i) = inl (refl, refl)
    from_cursor (t ∷ ts) zero = inr (t, refl, refl)
    from_cursor (t ∷ ts) (suc i) = from_cursor ts i

    left-Yields :
        (rest : List Tuple) (s : SortState)
        → drop s.cursor s.sorted ≡ rest
        → ((row_at s.sorted s.cursor ≡ none) × (drop s.cursor s.sorted ≡ []))
          ⊎ ((t : Tuple) × (row_at s.sorted s.cursor ≡ some (t, t.rid))
              × (drop s.cursor s.sorted ≡ t ∷ drop (suc s.cursor) s.sorted))
        → Yields sorting s (with_rids rest)
    unfolding next
    left-Yields [] s e (inl (none_left, _)) = stop s s (λ old. rw none_left refl)
    left-Yields [] s e (inr (t, _, more)) = absurd (cc (e, more))
    left-Yields (t ∷ rest) s e (inl (_, over)) = absurd (cc (e, over))
    left-Yields (t ∷ rest) s e (inr (u, at, more)) =
        let same : u ≡ t = cc (e, more) in
        let tail : drop (suc s.cursor) s.sorted ≡ rest = cc (e, more) in
        let on = record s { cursor = s.cursor + 1 } in
        let next_cursor : s.cursor + 1 ≡ suc s.cursor = omega arith in
        let tail_on : drop on.cursor s.sorted ≡ rest =
          ap (λ i. drop i s.sorted) next_cursor ∙ tail in
        step s on (t, t.rid) (with_rids rest) (λ old. rw (at, same) refl)
          (left-Yields rest on tail_on (from_cursor s.sorted on.cursor))

    -- The operator gives the records of the child as `sort` leaves them for `key_less`.
    pub sorting_lem :
        (s : SortState) (rows : List (Tuple × Rid))
        → Starts child s.child_state rows
        → length rows < fuel
        → Starts sorting s (with_rids (sort key_less (tuples rows)))
    unfolding init
    sorting_lem s rows (c, e, y) lt =
        let (u, f) = drain-Yields child push_back fuel new_tuple [] c rows y lt in
        let all = pushed [] (tuples rows) in
        let begun : SortState = record {
          child_state = u;
          sorted = sort key_less (tuples rows);
          cursor = 0;
        } in
        (
          begun,
          rw (e, f, all) refl,
          left-Yields (sort key_less (tuples rows)) begun refl (from_cursor begun.sorted 0),
        )
