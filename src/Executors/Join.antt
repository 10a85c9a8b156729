-- ===== src/Executors/Join.antt =====
-- JoinExecutor.cpp: for each row of the left operator, all rows of the right one, which is started
-- again for the next row. The loop of `Next` runs on fuel.
use altas_dbpro.Prelude.{
  ℕ, zero, suc, ◌+◌, ◌-◌, Bool, true, false, Option, none, some, if◌then◌else◌, ltb, leb,
}
use altas_dbpro.Prelude.Run.{Run, done, undefined, out_of_fuel, ◌>>=◌}
use altas_dbpro.Rid.{Rid}
use altas_dbpro.Bytes.{copy_in, copy_out}
use altas_dbpro.Tuple.{Tuple, new_tuple, max_size, set_size}
use altas_dbpro.Executors.{Executor}

-- How much of the right record fits behind the left one, and the record that the bytes of both make
-- in the record that `Next` was given.
abbrev pub copied_right : Tuple → Tuple → ℕ
copied_right l r =
    if leb (l.size + r.size) max_size
    then r.size
    else if ltb l.size max_size
    then max_size - l.size
    else 0

unfoldable pub combined : Tuple → Tuple → Tuple → Tuple
unfolding copy_in copy_out set_size
combined l r old = set_size (l.size + copied_right l r) (record old {
  bytes =
      copy_in l.size (copy_out 0 (copied_right l r) r.bytes)
        (copy_in 0 (copy_out 0 l.size l.bytes) old.bytes);
})

-- The copy of a left row of more than `max_size` bytes goes beyond the arrays.
unfoldable pub joined : Tuple → Tuple → Tuple → Run Tuple
unfolding combined
joined l r old = if ltb max_size l.size then undefined else done (combined l r old)

module _ {ℓ} (left right : Executor {ℓ}) where
  pub record JoinState : Type ℓ where
    pub left_state : left.State
    pub right_state : right.State
    pub left_current : Tuple
    pub left_has_current : Bool
    pub initialized : Bool

  abbrev pub new_join : left.State → right.State → JoinState
  new_join l r = record {
    left_state = l;
    right_state = r;
    left_current = new_tuple;
    left_has_current = false;
    initialized = false;
  }

  -- `left_has_current_ = left_->Next(&left_current_, nullptr)`
  abbrev pub taken : JoinState → left.State × Option (Tuple × Rid) → JoinState
  taken s (l, none) = record s { left_state = l; left_has_current = false }
  taken s (l, some (t, _)) = record s { left_state = l; left_current = t; left_has_current = true }

  unfoldable pub init : JoinState → Run JoinState
  init s = left.init s.left_state >>= λ l. right.init s.right_state >>= λ r.
      left.next s.left_current l >>= λ o.
      done (record (taken (record s { right_state = r }) o) { initialized = true })

  -- The loop of `Next`.
  unfoldable pub search : ℕ → Tuple → JoinState → Run (JoinState × Option (Tuple × Rid))
  unfolding joined
  search zero old s = if s.left_has_current then out_of_fuel else done (s, none)
  search (suc fuel) old s =
      if s.left_has_current
      then (right.next new_tuple s.right_state >>= λ o. elim o.1 [
        | some row ↦ joined s.left_current row.0 old >>= λ u.
            done (record s { right_state = o.0 }, some (u, s.left_current.rid))
        | none ↦ right.init o.0 >>= λ r. left.next s.left_current s.left_state >>= λ l.
            search fuel old (taken (record s { right_state = r }) l)
      ])
      else done (s, none)

  module _ (fuel : ℕ) where
    abbrev pub ready : JoinState → Run JoinState
    ready s = if s.initialized then done s else init s

    unfoldable pub next : Tuple → JoinState → Run (JoinState × Option (Tuple × Rid))
    unfolding search init
    next old s = ready s >>= λ t. search fuel old t

    abbrev pub join : Executor {ℓ}
    join = record { State = JoinState; init = init; next = next }
