-- ===== src/Executors/Bounds.antt =====
-- The totals of AggregationExecutor.cpp over the rows of the child.
use altas_dbpro.Prelude.{
  ℕ, ◌+◌, ◌<◌, ◌≡◌, refl, ◌∙◌, subst, ◌⊎◌, inl, inr, Bool, true, false, Bool-cases, none, some,
  List, [], ◌∷◌, not, if◌then◌else◌, length, arith,
}
use altas_dbpro.Prelude.Ints.{ℤ, ltb_ℤ, ◌≤ℤ◌, ≤ℤ_refl, ≤ℤ_trans, not_ltb_ℤ, ltb_ℤ_le}
use altas_dbpro.Prelude.Run.{done}
use altas_dbpro.Rid.{Rid, no_rid}
use altas_dbpro.Tuple.{Tuple, get_int_value, new_tuple}
use altas_dbpro.Executors.{Executor}
use altas_dbpro.Executors.Rows.{Starts, drain, drain-Yields, tuples, fold}
use altas_dbpro.Executors.Aggregation.{
  AggregationType, Totals, AggregationState, add_value, add_row, cleared, init, next, result_row,
}

-- A bound of the values at the offset, and a value that is one of them.
abbrev pub Among : ℕ → ℤ → List Tuple → Type 0
Among offset v [] = ⊥
Among offset v (t ∷ ts) = (v ≡ get_int_value offset t) ⊎ Among offset v ts

abbrev pub NotAbove : ℕ → ℤ → List Tuple → Type 0
NotAbove offset v [] = Unit
NotAbove offset v (t ∷ ts) = (v ≤ℤ get_int_value offset t) × NotAbove offset v ts

abbrev pub NotBelow : ℕ → ℤ → List Tuple → Type 0
NotBelow offset v [] = Unit
NotBelow offset v (t ∷ ts) = (get_int_value offset t ≤ℤ v) × NotBelow offset v ts

abbrev pub is_empty : List Tuple → Bool
is_empty [] = true
is_empty (t ∷ ts) = false

smaller : (v m : ℤ) → ((if ltb_ℤ v m then v else m) ≤ℤ v) × ((if ltb_ℤ v m then v else m) ≤ℤ m)
smaller v m = elim (Bool-cases (ltb_ℤ v m)) [
  | inl e ↦ rw e (≤ℤ_refl v, ltb_ℤ_le v m e)
  | inr e ↦ rw e (not_ltb_ℤ v m e, ≤ℤ_refl m)
]

larger : (v m : ℤ) → (v ≤ℤ (if ltb_ℤ m v then v else m)) × (m ≤ℤ (if ltb_ℤ m v then v else m))
larger v m = elim (Bool-cases (ltb_ℤ m v)) [
  | inl e ↦ rw e (≤ℤ_refl v, ltb_ℤ_le m v e)
  | inr e ↦ rw e (not_ltb_ℤ m v e, ≤ℤ_refl m)
]

module _ (offset : ℕ) where
  -- The totals `b` after the rows, from totals `a` that have a value.
  record Further (a b : Totals) (ts : List Tuple) : Type 0 where
    counted : b.counted ≡ a.counted + length ts
    has : b.has_value ≡ true
    least : (b.min_val ≤ℤ a.min_val) × NotAbove offset b.min_val ts
    greatest : (a.max_val ≤ℤ b.max_val) × NotBelow offset b.max_val ts
    least_among : (b.min_val ≡ a.min_val) ⊎ Among offset b.min_val ts
    greatest_among : (b.max_val ≡ a.max_val) ⊎ Among offset b.max_val ts

  abbrev total : Totals → List Tuple → Totals
  total = fold (add_row offset)

  picked : (b : Bool) (v m : ℤ) → ((if b then v else m) ≡ m) ⊎ ((if b then v else m) ≡ v)
  picked true v m = inr refl
  picked false v m = inl refl

  Among-step :
      (b : Bool) (w v m : ℤ) (t : Tuple) (ts : List Tuple)
      → v ≡ get_int_value offset t
      → (w ≡ (if b then v else m)) ⊎ Among offset w ts
      → (w ≡ m) ⊎ Among offset w (t ∷ ts)
  Among-step b w v m t ts e (inr later) = inr (inr later)
  Among-step b w v m t ts e (inl now) = elim (picked b v m) [
    | inl old ↦ inl (now ∙ old)
    | inr new ↦ inr (inl (now ∙ new ∙ e))
  ]

  -- From totals that have a value.
  total-Further : (a : Totals) (ts : List Tuple) → a.has_value ≡ true → Further a (total a ts) ts
  unfolding add_row add_value
  total-Further a [] e = record {
    counted = omega arith;
    has = e;
    least = (≤ℤ_refl a.min_val, tt);
    greatest = (≤ℤ_refl a.max_val, tt);
    least_among = inl refl;
    greatest_among = inl refl;
  }
  total-Further a (t ∷ ts) e =
      let v = get_int_value offset t in
      let next = add_row offset a t in
      let rest = total-Further next ts refl in
      let low : next.min_val ≡ (if ltb_ℤ v a.min_val then v else a.min_val) = rw e refl in
      let high : next.max_val ≡ (if ltb_ℤ a.max_val v then v else a.max_val) = rw e refl in
      let (under, under_old) = smaller v a.min_val in
      let (over, over_old) = larger v a.max_val in
      let m = (total next ts).min_val in
      let n = (total next ts).max_val in
      let m_le = subst (λ x. m ≤ℤ x) low rest.least.0 in
      let n_ge = subst (λ x. x ≤ℤ n) high rest.greatest.0 in
      record {
        counted = omega (arith, rest.counted);
        has = rest.has;
        least = (≤ℤ_trans m _ a.min_val m_le under_old, (≤ℤ_trans m _ v m_le under, rest.least.1));
        greatest =
            (≤ℤ_trans a.max_val _ n over_old n_ge, (≤ℤ_trans v _ n over n_ge, rest.greatest.1));
        least_among =
            Among-step (ltb_ℤ v a.min_val) m v a.min_val t ts refl
              (subst (λ x. (m ≡ x) ⊎ Among offset m ts) low rest.least_among);
        greatest_among =
            Among-step (ltb_ℤ a.max_val v) n v a.max_val t ts refl
              (subst (λ x. (n ≡ x) ⊎ Among offset n ts) high rest.greatest_among);
      }

  -- The totals of some rows: their number, and, if there is one, their least and their greatest value.
  pub record Summary (b : Totals) (ts : List Tuple) : Type 0 where
    pub counted : b.counted ≡ length ts
    pub has : b.has_value ≡ not (is_empty ts)
    pub range :
        (ts ≡ [])
        ⊎ (NotAbove offset b.min_val ts
            × Among offset b.min_val ts
            × NotBelow offset b.max_val ts
            × Among offset b.max_val ts)

  Among-here :
      (w v : ℤ) (t : Tuple) (ts : List Tuple)
      → v ≡ get_int_value offset t
      → (w ≡ v) ⊎ Among offset w ts
      → Among offset w (t ∷ ts)
  Among-here w v t ts e (inl s) = inl (s ∙ e)
  Among-here w v t ts e (inr later) = inr later

  total-Summary : (a : Totals) (ts : List Tuple) → Summary (total (cleared a) ts) ts
  unfolding add_row add_value
  total-Summary a [] = record { counted = refl; has = refl; range = inl refl }
  total-Summary a (t ∷ ts) =
      let v = get_int_value offset t in
      let f = total-Further (add_row offset (cleared a) t) ts refl in
      record {
        counted = omega (arith, f.counted);
        has = f.has;
        range = inr (
          (f.least.0, f.least.1),
          Among-here _ v t ts refl f.least_among,
          (f.greatest.0, f.greatest.1),
          Among-here _ v t ts refl f.greatest_among,
        );
      }

module _ {ℓ} (child : Executor {ℓ}) (agg_type : AggregationType) (offset fuel : ℕ) where
  abbrev begun : child.State → Totals → AggregationState child
  begun d b = record { child_state = d; finished = false; initialized = true; totals = b }

  init_begun :
      (s : AggregationState child) (c d : child.State) (b : Totals)
      → child.init s.child_state ≡ done c
      → drain child (add_row offset) fuel new_tuple (cleared s.totals) c ≡ done (d, b)
      → init child agg_type offset fuel s ≡ done (begun d b)
  unfolding init
  init_begun s c d b e f = rw (e, f) refl

  next_begun :
      (d : child.State) (b : Totals) (old : Tuple)
      → next child agg_type offset fuel old (begun d b)
        ≡ done (record (begun d b) { finished = true }, some (result_row agg_type b old, no_rid))
  unfolding next
  next_begun d b old = refl

  next_finished :
      (d : child.State) (b : Totals) (old : Tuple)
      → next child agg_type offset fuel old (record (begun d b) { finished = true })
        ≡ done (record (begun d b) { finished = true }, none)
  unfolding next
  next_finished d b old = refl

  -- `AggregationExecutor` of a child that gives its rows after `Init`, with more fuel than rows:
  -- `Init` returns; the first `Next` answers true with the result for totals that are the number of
  -- the rows and, if there are any, the least and the greatest of their values; the second `Next`
  -- answers false.
  pub aggregation-Summary :
      (s : AggregationState child) (rows : List (Tuple × Rid)) (old older : Tuple)
      → Starts child s.child_state rows
      → length rows < fuel
      → (t u : AggregationState child) × (init child agg_type offset fuel s ≡ done t)
        × Summary offset t.totals (tuples rows)
        × (next child agg_type offset fuel old t
            ≡ done (u, some (result_row agg_type t.totals old, no_rid)))
        × (next child agg_type offset fuel older u ≡ done (u, none))
  aggregation-Summary s rows old older (c, e, y) lt =
      let (d, f) =
        drain-Yields child (add_row offset) fuel new_tuple (cleared s.totals) c rows y lt in
      let b = fold (add_row offset) (cleared s.totals) (tuples rows) in
      (
        begun d b,
        record (begun d b) { finished = true },
        init_begun s c d b e f,
        total-Summary offset s.totals (tuples rows),
        next_begun d b old,
        next_finished d b older,
      )
