-- ===== src/Executors/Tests.antt =====
-- The operators over a list of rows.
use mathlib.Core.List.{Perm}
use mathlib.Core.List.Perm
use altas_dbpro.Prelude.{
  ◌≡◌, inl, inr, true, false, Bool-cases, if◌then◌else◌, refl, Bool, Option, none, some, List, [],
  ◌∷◌, ◌++◌, arith,
}
use altas_dbpro.Prelude.Ints.{pos, ◌≤ℤ◌}
use altas_dbpro.Prelude.Run.{Run, done}
use altas_dbpro.Rid.{Rid, no_rid}
use altas_dbpro.Tuple.{Tuple, new_tuple, get_int_value, set_int_value}
use altas_dbpro.Executors.{Executor}
use altas_dbpro.Executors.Rows.{Yields, stop, step, Starts, tuples}
use altas_dbpro.Executors.Merge.{MergeState, new_merge, merge, merge-Starts}
use altas_dbpro.Executors.Sort.{new_sort, sorting, with_rids}
use altas_dbpro.Executors.Sorted.{IsStrictWeak, All, Ordered, Sorts, sorting-Starts}
use altas_dbpro.Executors.Aggregation.{
  AggregationState, AggregationType, max, new_aggregation, result_row,
}
use altas_dbpro.Executors.Aggregation
use altas_dbpro.Executors.Join
use altas_dbpro.Executors.Join.{JoinState, new_join}
use altas_dbpro.Executors.Pairs.{Joins, product, init-Joins}
use altas_dbpro.Executors.Bounds.{Summary, aggregation-Summary}

abbrev Rows : Type 0
Rows = List (Tuple × Rid)

abbrev next_row : Rows → Run (Rows × Option (Tuple × Rid))
next_row [] = done ([], none)
next_row (row ∷ rows) = done (rows, some row)

-- An operator that gives the rows of a list; `Init` does not go back.
abbrev from_list : Executor {0}
from_list = record { State = Rows; init = λ s. done s; next = λ old s. next_row s }

abbrev rows : Rows
rows = (new_tuple, no_rid) ∷ []

list-Yields : (rows : Rows) → Yields from_list rows rows
list-Yields [] = stop [] [] (λ old. refl)
list-Yields (row ∷ rows) = step (row ∷ rows) rows row rows (λ old. refl) (list-Yields rows)

rows-Yields : Yields from_list rows rows
rows-Yields = step rows [] (new_tuple, no_rid) [] (λ old. refl) (stop [] [] (λ old. refl))

rows-Starts : Starts from_list rows rows
rows-Starts = (rows, refl, rows-Yields)

abbrev merged : MergeState from_list from_list
merged = new_merge from_list from_list (some rows) (some rows)

merge-Starts_example : Starts (merge from_list from_list) merged (rows ++ rows)
merge-Starts_example =
    merge-Starts from_list from_list rows rows rows rows merged refl refl rows-Starts rows-Starts

-- Sorting by insertion keeps what is promised of `std::sort`.
insert_by : (Tuple → Tuple → Bool) → Tuple → List Tuple → List Tuple
insert_by less t [] = t ∷ []
insert_by less t (u ∷ us) =
    let rest = insert_by less t us in if less u t then u ∷ rest else t ∷ u ∷ us

insertion_sort : (Tuple → Tuple → Bool) → List Tuple → List Tuple
insertion_sort less [] = []
insertion_sort less (t ∷ ts) = insert_by less t (insertion_sort less ts)

insert_by-perm :
    (less : Tuple → Tuple → Bool) (t : Tuple) (us : List Tuple)
    → Perm (insert_by less t us) (t ∷ us)
unfolding insert_by
insert_by-perm less t [] = Perm.refl (t ∷ [])
insert_by-perm less t (u ∷ us) = elim (Bool-cases (less u t)) [
  | inl e ↦ rw e (Perm.trans (Perm.cons u (insert_by-perm less t us)) (Perm.swap t u us))
  | inr e ↦ rw e (Perm.refl (t ∷ u ∷ us))
]

insert_by-All :
    (P : Tuple → Type 0) (less : Tuple → Tuple → Bool) (t : Tuple) (us : List Tuple)
    → P t
    → All P us
    → All P (insert_by less t us)
unfolding insert_by
insert_by-All P less t [] p h = (p, tt)
insert_by-All P less t (u ∷ us) p h = elim (Bool-cases (less u t)) [
  | inl e ↦ rw e (h.0, insert_by-All P less t us p h.1)
  | inr e ↦ rw e (p, h)
]

-- What is not less than `u` is not less than a `t` that `u` is not less than.
not_less_trans :
    (less : Tuple → Tuple → Bool) (t u v : Tuple)
    → IsStrictWeak less
    → less u t ≡ false
    → less v u ≡ false
    → less v t ≡ false
not_less_trans less t u v w e h =
    ground (arith, w.transitive u v t, w.transitive v t u, w.through v u t)

not_less_All :
    (less : Tuple → Tuple → Bool) (t u : Tuple) (us : List Tuple)
    → IsStrictWeak less
    → less u t ≡ false
    → All (λ v. less v u ≡ false) us
    → All (λ v. less v t ≡ false) us
not_less_All less t u [] w e h = tt
not_less_All less t u (v ∷ us) w e h =
    (not_less_trans less t u v w e h.0, not_less_All less t u us w e h.1)

asymmetric :
    (less : Tuple → Tuple → Bool) (t u : Tuple)
    → IsStrictWeak less
    → less u t ≡ true
    → less t u ≡ false
asymmetric less t u w e = ground (arith, w.transitive t u t, w.irreflexive t)

insert_by-Ordered :
    (less : Tuple → Tuple → Bool) (t : Tuple) (us : List Tuple)
    → IsStrictWeak less
    → Ordered (λ a b. less b a ≡ false) us
    → Ordered (λ a b. less b a ≡ false) (insert_by less t us)
unfolding insert_by
insert_by-Ordered less t [] w h = (tt, tt)
insert_by-Ordered less t (u ∷ us) w h = elim (Bool-cases (less u t)) [
  | inl e ↦ rw e (
    insert_by-All (λ v. less v u ≡ false) less t us (asymmetric less t u w e) h.0,
    insert_by-Ordered less t us w h.1,
  )
  | inr e ↦ rw e ((e, not_less_All less t u us w e h.0), h)
]

insertion_sort-Sorts : Sorts insertion_sort
unfolding insertion_sort
insertion_sort-Sorts less [] w = (Perm.refl [], tt)
insertion_sort-Sorts less (t ∷ ts) w =
    let (permuted, order) = insertion_sort-Sorts less ts w in
    (
      Perm.trans (insert_by-perm less t (insertion_sort less ts)) (Perm.cons t permuted),
      insert_by-Ordered less t (insertion_sort less ts) w order,
    )

-- Two rows, the greater first.
abbrev two_rows : Rows
two_rows =
    (set_int_value 0 (pos 5) new_tuple, no_rid) ∷ (set_int_value 0 (pos 3) new_tuple, no_rid) ∷ []

two_rows-Starts : Starts from_list two_rows two_rows
two_rows-Starts = (two_rows, refl, list-Yields two_rows)

sorting-Starts_example :
    (ordered : List Tuple) × Starts
      (sorting from_list insertion_sort 0 3)
      (new_sort from_list two_rows)
      (with_rids from_list insertion_sort 0 3 ordered)
    × Perm ordered (tuples two_rows)
    × Ordered (λ t u. get_int_value 0 t ≤ℤ get_int_value 0 u) ordered
sorting-Starts_example =
    sorting-Starts from_list insertion_sort 0 3 (new_sort from_list two_rows) two_rows
      insertion_sort-Sorts two_rows-Starts (omega arith)

aggregation-Summary_example :
    (t u : AggregationState from_list) × (Aggregation.init from_list max 0 2
        (new_aggregation from_list rows)
      ≡ done t)
    × Summary 0 t.totals (tuples rows)
    × (Aggregation.next from_list max 0 2 new_tuple t
        ≡ done (u, some (result_row max t.totals new_tuple, no_rid)))
    × (Aggregation.next from_list max 0 2 new_tuple u ≡ done (u, none))
aggregation-Summary_example =
    aggregation-Summary from_list max 0 2 (new_aggregation from_list rows) rows new_tuple new_tuple
      rows-Starts (omega arith)

-- An operator that starts again with each `Init`.
abbrev restarting : Executor {0}
restarting = record { State = Rows; init = λ s. done rows; next = λ old s. next_row s }

restarting-Starts : (s : Rows) → Starts restarting s rows
restarting-Starts s =
    (rows, refl, step rows [] (new_tuple, no_rid) [] (λ old. refl) (stop [] [] (λ old. refl)))

abbrev joining : JoinState restarting restarting
joining = new_join restarting restarting [] []

init-Joins_example :
    (t : JoinState restarting restarting) × (Join.init restarting restarting joining ≡ done t)
    × Joins restarting restarting 2 t (product rows rows)
init-Joins_example =
    init-Joins restarting restarting 2 joining rows rows (restarting-Starts []) restarting-Starts
      (omega arith)
