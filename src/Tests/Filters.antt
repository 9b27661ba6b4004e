-- ===== src/Tests/Filters.antt =====
-- Theorems on filters at concrete inputs.
use cloudpebble.Base.{ℕ, Bool, true, Option, some, List, [], ◌∷◌, ◌≡◌, refl, arith}
use cloudpebble.Base.Order.{Bytes, equal_bytes}
use cloudpebble.Base.Int64.{pos}
use cloudpebble.Bigtable.Filter.Message
use cloudpebble.Bigtable.Filter.Message.{RowFilter, ColumnRange, closed, exclusive, unset}
use cloudpebble.Bigtable.Filter.Leaves.{CellInfo, value_bitmask_evaluate}
use cloudpebble.Bigtable.Filter.Evaluator.{cells_per_row_limit, reset, build_evaluator}
use cloudpebble.Bigtable.Filter.Reset.{is_sampling, after, reset-after-build_evaluator}
use cloudpebble.Bigtable.Filter.Ranges.{value_bitmask_longer}

abbrev cell : ℕ → CellInfo
cell t = record {
  row_key = 97 ∷ [];
  family = 102 ∷ [];
  qualifier = 113 ∷ [];
  ts = t;
  value = 5 ∷ 3 ∷ [];
}

abbrev cells : List CellInfo
cells = cell 9 ∷ cell 8 ∷ cell 7 ∷ []

abbrev starts_with_a : Bytes → Bool
starts_with_a b = equal_bytes b (97 ∷ [])

-- every expression stands for the same test
abbrev compile : Bytes → Option (Bytes → Bool)
compile s = some starts_with_a

reset-after-build_evaluator_example :
    reset (after (cells_per_row_limit (pos 2) 0) cells 0) ≡ cells_per_row_limit (pos 2) 0
unfolding build_evaluator is_sampling
reset-after-build_evaluator_example =
    reset-after-build_evaluator compile (Message.cells_per_row_limit (pos 2))
      (cells_per_row_limit (pos 2) 0) cells 0 refl refl

abbrev columns : ColumnRange
columns = record {
  family_name = 102 ∷ [];
  start_qualifier = closed (112 ∷ []);
  end_qualifier = exclusive (114 ∷ []);
}

abbrev bare : CellInfo
bare = record { row_key = 97 ∷ []; family = 102 ∷ []; qualifier = []; ts = 9; value = [] }

abbrev padded : CellInfo
padded = record {
  row_key = 97 ∷ [];
  family = 102 ∷ [];
  qualifier = [];
  ts = 9;
  value = 5 ∷ 0 ∷ 0 ∷ [];
}

value_bitmask_longer_example : value_bitmask_evaluate (4 ∷ []) padded ≡ true
value_bitmask_longer_example =
    value_bitmask_longer (4 ∷ []) (5 ∷ []) 2 padded (omega arith) refl refl
