-- ===== src/Executors/Pairs.antt =====
-- The pairs of rows that JoinExecutor.cpp gives.
use altas_dbpro.Prelude.{
  ℕ, zero, suc, ◌<◌, ◌≤◌, ◌≡◌, refl, ◌∙◌, true, false, Option, none, some, List, [], ◌∷◌, ◌++◌,
  length, arith,
}
use altas_dbpro.Prelude.Run.{Run, done, ◌>>=◌}
use altas_dbpro.Rid.{Rid}
use altas_dbpro.Tuple.{Tuple, new_tuple}
use altas_dbpro.Executors.{Executor}
use altas_dbpro.Executors.Rows.{Yields, stop, step, Starts}
use altas_dbpro.Executors.Join.{JoinState, joined, init, search, next}

abbrev pub Pairs : Type 0
Pairs = List (Tuple × Tuple)

-- One row of the left with each row of the right, and all of them.
abbrev pub with_left : Tuple → List (Tuple × Rid) → Pairs
with_left l [] = []
with_left l (row ∷ rows) = (l, row.0) ∷ with_left l rows

abbrev pub product : List (Tuple × Rid) → List (Tuple × Rid) → Pairs
product [] rows = []
product (l ∷ ls) rows = with_left l.0 rows ++ product ls rows

module _ {ℓ} (left right : Executor {ℓ}) where
  abbrev at_row : left.State → right.State → Tuple → JoinState left right
  at_row l r t = record {
    left_state = l;
    right_state = r;
    left_current = t;
    left_has_current = true;
    initialized = true;
  }

  -- The pairs that the loop of `Next` gives, one after the other, with `k` or more units of fuel.
  data Finds (k : ℕ) : JoinState left right → Pairs → Type ℓ where
    no_pair :
        (s t : JoinState left right)
        → s.initialized ≡ true
        → ((n : ℕ) (old : Tuple) → k ≤ n → search left right n old s ≡ done (t, none))
        → Finds k s []
    one_pair :
        (s t : JoinState left right) (l r : Tuple) (pairs : Pairs)
        → s.initialized ≡ true
        → ((n : ℕ) (old : Tuple)
            → k ≤ n
            → search left right n old s ≡ (joined l r old >>= λ u. done (t, some (u, l.rid))))
        → Finds k t pairs
        → Finds k s ((l, r) ∷ pairs)

  more_fuel :
      (k : ℕ) (s : JoinState left right) (pairs : Pairs) → Finds k s pairs → Finds (suc k) s pairs
  more_fuel k s _ (no_pair _ t i e) = no_pair s t i (λ n old le. e n old (omega arith))
  more_fuel k s _ (one_pair _ t l r pairs i e f) =
      one_pair s t l r pairs i (λ n old le. e n old (omega arith)) (more_fuel k t pairs f)

  -- A turn of the loop that leads to another state.
  after_turn :
      (k : ℕ) (s u : JoinState left right) (pairs : Pairs)
      → s.initialized ≡ true
      → ((n : ℕ) (old : Tuple) → search left right (suc n) old s ≡ search left right n old u)
      → Finds k u pairs
      → Finds (suc k) s pairs
  after_turn k s u pairs i turn f = go pairs f
    where
      lower :
          {out : Run (JoinState left right × Option (Tuple × Rid))} (n : ℕ) (old : Tuple)
          → suc k ≤ n
          → ((m : ℕ) → k ≤ m → search left right m old u ≡ out)
          → search left right n old s ≡ out
      lower zero old le e = absurd (omega arith)
      lower (suc m) old le e = turn m old ∙ e m (omega arith)

      go : (pairs : Pairs) → Finds k u pairs → Finds (suc k) s pairs
      go _ (no_pair _ t j e) = no_pair s t i (λ n old le. lower n old le (λ m. e m old))
      go _ (one_pair _ t l r pairs j e f) =
          one_pair s t l r pairs i (λ n old le. lower n old le (λ m. e m old))
            (more_fuel k t pairs f)

  search_pair :
      (n : ℕ) (old : Tuple) (l : left.State) (r t : right.State) (current : Tuple)
      (row : Tuple × Rid)
      → 1 ≤ n
      → right.next new_tuple r ≡ done (t, some row)
      → search left right n old (at_row l r current)
        ≡ (joined current row.0 old >>= λ u. done (at_row l t current, some (u, current.rid)))
  unfolding search
  search_pair zero old l r t current row le e = absurd (omega arith)
  search_pair (suc n) old l r t current row le e = rw e refl

  -- The rows of the right operator that are left, and then what is found when there are none.
  right-Finds :
      (k : ℕ) (l : left.State) (current : Tuple) (tail : Pairs)
      → ((r t : right.State)
          → ((old : Tuple) → right.next old r ≡ done (t, none))
          → Finds (suc k) (at_row l r current) tail)
      → (r : right.State) (rows : List (Tuple × Rid)) → Yields right r rows
      → Finds (suc k) (at_row l r current) (with_left current rows ++ tail)
  right-Finds k l current tail h r _ (stop _ t e) = h r t e
  right-Finds k l current tail h r _ (step _ t row rows e y) =
      one_pair (at_row l r current) (at_row l t current) current row.0
        (with_left current rows ++ tail) refl
        (λ n old le. search_pair n old l r t current row (omega arith) (e new_tuple))
        (right-Finds k l current tail h t rows y)

  last_turn :
      (n : ℕ) (old : Tuple) (l m : left.State) (r t u : right.State) (current : Tuple)
      → 1 ≤ n
      → right.next new_tuple r ≡ done (t, none)
      → right.init t ≡ done u
      → left.next current l ≡ done (m, none)
      → search left right n old (at_row l r current)
        ≡ done (record (at_row m u current) { left_has_current = false }, none)
  unfolding search
  last_turn zero old l m r t u current le e f g = absurd (omega arith)
  last_turn (suc zero) old l m r t u current le e f g = rw (e, f, g) refl
  last_turn (suc (suc n)) old l m r t u current le e f g = rw (e, f, g) refl

  next_turn :
      (n : ℕ) (old : Tuple) (l m : left.State) (r t u : right.State) (current : Tuple)
      (row : Tuple × Rid)
      → right.next new_tuple r ≡ done (t, none)
      → right.init t ≡ done u
      → left.next current l ≡ done (m, some row)
      → search left right (suc n) old (at_row l r current)
        ≡ search left right n old (at_row m u row.0)
  unfolding search
  next_turn n old l m r t u current row e f g = rw (e, f, g) refl

  module _ (rows : List (Tuple × Rid)) (restart : (s : right.State) → Starts right s rows) where
    -- All pairs from a row of the left on, of which the right has `rest` left.
    left-Finds :
        (l : left.State) (ls : List (Tuple × Rid)) (current : Tuple)
        → Yields left l ls
        → (r : right.State) (rest : List (Tuple × Rid)) → Yields right r rest
        → Finds (suc (length ls)) (at_row l r current) (with_left current rest ++ product ls rows)
    left-Finds l _ current (stop _ m e) r rest y =
        right-Finds 0 l current []
          (λ q t none_left.
            let (u, i, _) = restart t in
            no_pair (at_row l q current) (record (at_row m u current) { left_has_current = false })
              refl
              (λ n old le.
                last_turn n old l m q t u current (omega arith) (none_left new_tuple) i
                  (e current)))
          r rest y
    left-Finds l _ current (step _ m row ls e z) r rest y =
        right-Finds (suc (length ls)) l current (product (row ∷ ls) rows)
          (λ q t none_left.
            let (u, i, again) = restart t in
            after_turn (suc (length ls)) (at_row l q current) (at_row m u row.0)
              (product (row ∷ ls) rows) refl
              (λ n old. next_turn n old l m q t u current row (none_left new_tuple) i (e current))
              (left-Finds m ls row.0 z u rows again))
          r rest y

  module _ (fuel : ℕ) where
    -- The pairs that the operator gives, one `Next` after the other: each as the record that their
    -- bytes make in the one that `Next` was given, with the identifier of the left row; where a left
    -- row is larger than a record, `Next` leaves the arrays, as `joined` says.
    pub data Joins : JoinState left right → Pairs → Type ℓ where
      over :
          (s t : JoinState left right)
          → ((old : Tuple) → next left right fuel old s ≡ done (t, none))
          → Joins s []
      pair :
          (s t : JoinState left right) (l r : Tuple) (pairs : Pairs)
          → ((old : Tuple)
              → next left right fuel old s ≡ (joined l r old >>= λ u. done (t, some (u, l.rid))))
          → Joins t pairs
          → Joins s ((l, r) ∷ pairs)

    next_ready :
        (s : JoinState left right) (old : Tuple)
        → s.initialized ≡ true
        → next left right fuel old s ≡ search left right fuel old s
    unfolding next
    next_ready s old i = rw i refl

    Finds-Joins :
        (k : ℕ) (s : JoinState left right) (pairs : Pairs)
        → k ≤ fuel
        → Finds k s pairs
        → Joins s pairs
    Finds-Joins k s _ le (no_pair _ t i e) = over s t (λ old. next_ready s old i ∙ e fuel old le)
    Finds-Joins k s _ le (one_pair _ t l r pairs i e f) =
        pair s t l r pairs (λ old. next_ready s old i ∙ e fuel old le) (Finds-Joins k t pairs le f)

    search_over :
        (n : ℕ) (old : Tuple) (s : JoinState left right)
        → s.left_has_current ≡ false
        → search left right n old s ≡ done (s, none)
    unfolding search
    search_over zero old s e = rw e refl
    search_over (suc n) old s e = rw e refl

    init_empty :
        (s : JoinState left right) (l m : left.State) (r : right.State)
        → left.init s.left_state ≡ done l
        → right.init s.right_state ≡ done r
        → left.next s.left_current l ≡ done (m, none)
        → init left right s ≡ done (record (at_row m r s.left_current) { left_has_current = false })
    unfolding init
    init_empty s l m r e f g = rw (e, f, g) refl

    init_row :
        (s : JoinState left right) (l m : left.State) (r : right.State) (row : Tuple × Rid)
        → left.init s.left_state ≡ done l
        → right.init s.right_state ≡ done r
        → left.next s.left_current l ≡ done (m, some row)
        → init left right s ≡ done (at_row m r row.0)
    unfolding init
    init_row s l m r row e f g = rw (e, f, g) refl

    -- `JoinExecutor` of a left operator that gives its rows after `Init` and a right one that gives its
    -- rows after every `Init`, with more fuel than left rows: `Init` returns, and as long as the left
    -- rows have at most 2048 bytes `Next` gives each left row with each right row, once and in the order
    -- of the rows, the right ones the faster; at a larger left row the call of `Next` is undefined.
    pub init-Joins :
        (s : JoinState left right) (ls rows : List (Tuple × Rid))
        → Starts left s.left_state ls
        → ((r : right.State) → Starts right r rows)
        → length ls < fuel
        → (t : JoinState left right) × (init left right s ≡ done t) × Joins t (product ls rows)
    init-Joins s _ rows (l, e, stop _ m f) restart lt =
        let (r, i, _) = restart s.right_state in
        let t : JoinState left right = record (at_row m r s.left_current) {
          left_has_current = false;
        } in
        (
          t,
          init_empty s l m r e i (f s.left_current),
          over t t (λ old. next_ready t old refl ∙ search_over fuel old t refl),
        )
    init-Joins s _ rows (l, e, step _ m row ls f y) restart lt =
        let (r, i, again) = restart s.right_state in
        (
          at_row m r row.0,
          init_row s l m r row e i (f s.left_current),
          Finds-Joins (suc (length ls)) (at_row m r row.0) (product (row ∷ ls) rows) (omega arith)
              (left-Finds rows restart m ls row.0 y r rows again),
        )
