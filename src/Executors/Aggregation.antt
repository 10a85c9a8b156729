-- ===== src/Executors/Aggregation.antt =====
-- AggregationExecutor.cpp: one row with the count, the sum, the mean, the least or the greatest of the
-- `int`s at an offset. The count and the sum stay within their 64 bits, and the casts keep the low
-- 32. The loop that reads the child runs on fuel.
use altas_dbpro.Prelude.{
  ℕ, zero, suc, ◌+◌, ◌-◌, ◌/◌, ◌%◌, Bool, true, false, Option, none, some, if◌then◌else◌, ◌==◌,
  nat_eq,
}
use altas_dbpro.Prelude.Ints.{ℤ, pos, negsuc, ltb_ℤ, ◌+ℤ◌}
use altas_dbpro.Prelude.Run.{Run, done, ◌>>=◌}
use altas_dbpro.Rid.{Rid, no_rid}
use altas_dbpro.Bytes.{write_int, signed}
use altas_dbpro.Tuple.{Tuple, new_tuple, get_int_value, set_size}
use altas_dbpro.Executors.{Executor}
use altas_dbpro.Executors.Rows.{drain}

pub data AggregationType : Type 0 where
  count sum avg min max : AggregationType

-- The fields that the loop of `Init` fills.
pub record Totals : Type 0 where
  pub counted : ℕ
  pub summed : ℤ
  pub min_val : ℤ
  pub max_val : ℤ
  pub has_value : Bool

abbrev pub no_totals : Totals
no_totals = record {
  counted = 0;
  summed = pos 0;
  min_val = pos 0;
  max_val = pos 0;
  has_value = false;
}

unfoldable pub add_value : ℤ → Totals → Totals
unfolding ltb_ℤ ◌+ℤ◌
add_value v a = record {
  counted = a.counted + 1;
  summed = a.summed +ℤ v;
  min_val = if a.has_value then (if ltb_ℤ v a.min_val then v else a.min_val) else v;
  max_val = if a.has_value then (if ltb_ℤ a.max_val v then v else a.max_val) else v;
  has_value = true;
}

-- `sum_ / count_`, towards 0, and `static_cast<int>`, with the residue of `-(n + 1)` written out.
abbrev pub minus_nat : ℕ → ℤ
minus_nat zero = pos 0
minus_nat (suc m) = negsuc m

abbrev pub quotient : ℤ → ℕ → ℤ
quotient (pos n) k = pos (n / k)
quotient (negsuc n) k = minus_nat ((n + 1) / k)

abbrev pub to_int : ℤ → ℤ
to_int (pos n) = signed (n % 4294967296)
to_int (negsuc n) = signed (4294967295 - n % 4294967296)

unfoldable pub result : AggregationType → Totals → ℤ
unfolding ◌+ℤ◌
result count a = to_int (pos a.counted)
result sum a = to_int a.summed
result avg a = if a.counted == 0 then pos 0 else to_int (quotient a.summed a.counted)
result min a = if a.has_value then a.min_val else pos 0
result max a = if a.has_value then a.max_val else pos 0

-- The fields at the start of `Init`: the least and the greatest value stay, and are not read.
abbrev pub cleared : Totals → Totals
cleared a = record a { counted = 0; summed = pos 0; has_value = false }

unfoldable pub add_row : ℕ → Totals → Tuple → Totals
unfolding add_value get_int_value
add_row key_offset a t = add_value (get_int_value key_offset t) a

-- The row in the record that `Next` was given.
unfoldable pub result_row : AggregationType → Totals → Tuple → Tuple
unfolding result write_int set_size
result_row agg_type a old = record (set_size 4 old) {
  bytes = write_int 0 (result agg_type a) old.bytes;
}

module _ {ℓ} (child : Executor {ℓ}) where
  pub record AggregationState : Type ℓ where
    pub child_state : child.State
    pub finished : Bool
    pub initialized : Bool
    pub totals : Totals

  abbrev pub new_aggregation : child.State → AggregationState
  new_aggregation c = record {
    child_state = c;
    finished = false;
    initialized = false;
    totals = no_totals;
  }

  module _ (agg_type : AggregationType) (key_offset fuel : ℕ) where
    unfoldable pub init : AggregationState → Run AggregationState
    unfolding drain add_row
    init s = child.init s.child_state >>= λ c.
        drain child (add_row key_offset) fuel new_tuple (cleared s.totals) c >>= λ r.
        done (record { child_state = r.0; finished = false; initialized = true; totals = r.1 })

    abbrev pub ready : AggregationState → Run AggregationState
    ready s = if s.initialized then done s else init s

    unfoldable pub next : Tuple → AggregationState → Run (AggregationState × Option (Tuple × Rid))
    unfolding init result_row
    next old s = ready s >>= λ t.
        if t.finished
        then done (t, none)
        else done (record t { finished = true }, some (result_row agg_type t.totals old, no_rid))

    abbrev pub aggregation : Executor {ℓ}
    aggregation = record { State = AggregationState; init = init; next = next }
