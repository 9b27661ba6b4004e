-- ===== src/Bigtable/Filter/Evaluator.antt =====
-- pkg/bigtable/filter.go: the evaluation tree. An evaluator is changed by `evaluate`, so it comes
-- back beside the result, with the number of random draws made so far. A compiled regular
-- expression is its `Match` function. The fields `matched` and `evaluated` of a condition filter,
-- which nothing reads, are left out.
use cloudpebble.Base.{
  ℕ, ◌+◌, Bool, true, false, ◌&&◌, Option, some, List, [], ◌∷◌, ◌++◌, ◌==◌, if◌then◌else◌,
}
use cloudpebble.Base.Order.{Bytes, equal_bytes}
use cloudpebble.Base.Int64.{ℤ}
use cloudpebble.Base.OptionMonad.{◌>>=◌}
use cloudpebble.Bigtable.Mutate.{TimestampRange}
use cloudpebble.Bigtable.Filter.Message
use cloudpebble.Bigtable.Filter.Message.{RowFilter, Filters, MaybeFilter}
use cloudpebble.Bigtable.Filter.Leaves.{
  CellInfo, ColumnRangeFilter, build_column_range_filter, column_range_evaluate,
  timestamp_range_evaluate, ValueRangeFilter, build_value_range_filter, value_range_evaluate,
  value_bitmask_evaluate, exceeds, reaches,
}

-- `cellIdentity`
pub record CellIdentity : Type 0 where
  pub family : Bytes
  pub qualifier : Bytes
  pub ts : ℕ

mutual
  pub data Evaluator : Type 0 where
    chain : Evaluators → Evaluator
    interleave : Evaluators → List CellIdentity → Evaluator
    condition : Evaluator → MaybeEvaluator → MaybeEvaluator → Evaluator
    pass_all block_all : Evaluator
    row_key_regex family_regex qualifier_regex : (Bytes → Bool) → Evaluator
    column_range : ColumnRangeFilter → Evaluator
    timestamp_range : TimestampRange → Evaluator
    cells_per_row_offset cells_per_row_limit : ℤ → ℕ → Evaluator
    cells_per_column_limit : ℤ → List (Bytes × ℕ) → Evaluator
    strip_value : Evaluator
    apply_label : Bytes → Evaluator
    value_regex : (Bytes → Bool) → Evaluator
    value_range : ValueRangeFilter → Evaluator
    value_bitmask : Bytes → Evaluator
    row_sample : (ℕ → Bool) → Bytes → Bool → Evaluator

  pub data Evaluators : Type 0 where
    none_left : Evaluators
    more : Evaluator → Evaluators → Evaluators

  pub data MaybeEvaluator : Type 0 where
    absent : MaybeEvaluator
    present : Evaluator → MaybeEvaluator

abbrev pub identity : CellInfo → CellIdentity
identity cell = record { family = cell.family; qualifier = cell.qualifier; ts = cell.ts }

unfoldable pub same_identity : CellIdentity → CellIdentity → Bool
same_identity a b =
    equal_bytes a.family b.family && equal_bytes a.qualifier b.qualifier && a.ts == b.ts

-- `il.seen[id]`
unfoldable pub seen_in : CellIdentity → List CellIdentity → Bool
unfolding same_identity
seen_in id [] = false
seen_in id (s ∷ seen) = if same_identity id s then true else seen_in id seen

-- the key of a column in `colCounts`, and the count there, 0 if there is none
abbrev pub column_of : CellInfo → Bytes
column_of cell = cell.family ++ (0 ∷ cell.qualifier)

unfoldable pub count_of : Bytes → List (Bytes × ℕ) → ℕ
count_of col [] = 0
count_of col ((k, n) ∷ counts) = if equal_bytes col k then n else count_of col counts

-- an evaluator's answer, its state after it, and the draws
abbrev pub Answer : Type 0 → Type 0
Answer E = Bool × E × ℕ

unfoldable mutual
  unfolding seen_in count_of column_range_evaluate timestamp_range_evaluate value_range_evaluate
      value_bitmask_evaluate exceeds reaches

  pub evaluate : Evaluator → CellInfo → ℕ → Answer Evaluator
  evaluate (chain fs) cell draws =
      let (p, fs', draws') = evaluate_chain fs cell draws in (p, chain fs', draws')
  evaluate (interleave fs seen) cell draws =
      let (p, fs', draws') = evaluate_first fs cell draws in
      if p
      then (if seen_in (identity cell) seen
          then (false, interleave fs' seen, draws')
          else (true, interleave fs' (identity cell ∷ seen), draws'))
      else (false, interleave fs' seen, draws')
  evaluate (condition pred tf ff) cell draws =
      let (p, pred', draws') = evaluate pred cell draws in
      let (r, tf', draws1) = evaluate_maybe tf true cell draws' in
      let (s, ff', draws2) = evaluate_maybe ff false cell draws' in
      if p then (r, condition pred' tf' ff, draws1) else (s, condition pred' tf ff', draws2)
  evaluate pass_all cell draws = (true, pass_all, draws)
  evaluate block_all cell draws = (false, block_all, draws)
  evaluate (row_key_regex re) cell draws = (re cell.row_key, row_key_regex re, draws)
  evaluate (family_regex re) cell draws = (re cell.family, family_regex re, draws)
  evaluate (qualifier_regex re) cell draws = (re cell.qualifier, qualifier_regex re, draws)
  evaluate (column_range c) cell draws = (column_range_evaluate c cell, column_range c, draws)
  evaluate (timestamp_range t) cell draws =
      (timestamp_range_evaluate t cell, timestamp_range t, draws)
  evaluate (cells_per_row_offset offset n) cell draws =
      (exceeds (n + 1) offset, cells_per_row_offset offset (n + 1), draws)
  evaluate (cells_per_row_limit limit n) cell draws =
      if reaches n limit
      then (false, cells_per_row_limit limit n, draws)
      else (true, cells_per_row_limit limit (n + 1), draws)
  evaluate (cells_per_column_limit limit counts) cell draws =
      let n = count_of (column_of cell) counts in
      if reaches n limit
      then (false, cells_per_column_limit limit counts, draws)
      else (true, cells_per_column_limit limit ((column_of cell, n + 1) ∷ counts), draws)
  evaluate strip_value cell draws = (true, strip_value, draws)
  evaluate (apply_label l) cell draws = (true, apply_label l, draws)
  evaluate (value_regex re) cell draws = (re cell.value, value_regex re, draws)
  evaluate (value_range v) cell draws = (value_range_evaluate v cell, value_range v, draws)
  evaluate (value_bitmask m) cell draws = (value_bitmask_evaluate m cell, value_bitmask m, draws)
  evaluate (row_sample below row sampled) cell draws =
      if equal_bytes cell.row_key row
      then (sampled, row_sample below row sampled, draws)
      else (below draws, row_sample below cell.row_key (below draws), draws + 1)

  -- the loop of a chain, which stops at the first filter that refuses the cell
  pub evaluate_chain : Evaluators → CellInfo → ℕ → Answer Evaluators
  evaluate_chain none_left cell draws = (true, none_left, draws)
  evaluate_chain (more f fs) cell draws =
      let (p, f', draws') = evaluate f cell draws in
      let (r, fs', draws'') = evaluate_chain fs cell draws' in
      if p then (r, more f' fs', draws'') else (false, more f' fs, draws')

  -- the loop of an interleave, which stops at the first filter that passes the cell
  pub evaluate_first : Evaluators → CellInfo → ℕ → Answer Evaluators
  evaluate_first none_left cell draws = (false, none_left, draws)
  evaluate_first (more f fs) cell draws =
      let (p, f', draws') = evaluate f cell draws in
      let (r, fs', draws'') = evaluate_first fs cell draws' in
      if p then (true, more f' fs, draws') else (r, more f' fs', draws'')

  -- a branch of a condition, which may be nil
  pub evaluate_maybe : MaybeEvaluator → Bool → CellInfo → ℕ → Answer MaybeEvaluator
  evaluate_maybe absent otherwise cell draws = (otherwise, absent, draws)
  evaluate_maybe (present f) otherwise cell draws =
      let (p, f', draws') = evaluate f cell draws in (p, present f', draws')

unfoldable mutual
  pub reset : Evaluator → Evaluator
  reset (chain fs) = chain (reset_all fs)
  reset (interleave fs seen) = interleave (reset_all fs) []
  reset (condition pred tf ff) = condition (reset pred) (reset_maybe tf) (reset_maybe ff)
  reset (cells_per_row_offset offset n) = cells_per_row_offset offset 0
  reset (cells_per_row_limit limit n) = cells_per_row_limit limit 0
  reset (cells_per_column_limit limit counts) = cells_per_column_limit limit []
  reset (row_sample below row sampled) = row_sample below [] sampled
  reset e = e

  pub reset_all : Evaluators → Evaluators
  reset_all none_left = none_left
  reset_all (more f fs) = more (reset f) (reset_all fs)

  pub reset_maybe : MaybeEvaluator → MaybeEvaluator
  reset_maybe absent = absent
  reset_maybe (present f) = present (reset f)

-- `regexp.Compile`, which may refuse an expression
module _ (compile : Bytes → Option (Bytes → Bool)) where
  unfoldable mutual
    unfolding build_column_range_filter build_value_range_filter

    pub build_evaluator : RowFilter → Option Evaluator
    build_evaluator (Message.chain fs) = do fs' ← build_all fs; some (chain fs')
    build_evaluator (Message.interleave fs) = do fs' ← build_all fs; some (interleave fs' [])
    build_evaluator (Message.condition pred tf ff) = do
      pred' ← build_predicate pred
      tf' ← build_maybe tf
      ff' ← build_maybe ff
      some (condition pred' tf' ff')
    build_evaluator Message.pass_all = some pass_all
    build_evaluator Message.block_all = some block_all
    build_evaluator (Message.row_key_regex s) = do re ← compile s; some (row_key_regex re)
    build_evaluator (Message.family_name_regex s) = do re ← compile s; some (family_regex re)
    build_evaluator (Message.column_qualifier_regex s) = do
      re ← compile s
      some (qualifier_regex re)
    build_evaluator (Message.column_range cr) = some (column_range (build_column_range_filter cr))
    build_evaluator (Message.timestamp_range tr) = some (timestamp_range tr)
    build_evaluator (Message.cells_per_row_offset n) = some (cells_per_row_offset n 0)
    build_evaluator (Message.cells_per_row_limit n) = some (cells_per_row_limit n 0)
    build_evaluator (Message.cells_per_column_limit n) = some (cells_per_column_limit n [])
    build_evaluator Message.strip_value = some strip_value
    build_evaluator (Message.apply_label l) = some (apply_label l)
    build_evaluator (Message.value_regex s) = do re ← compile s; some (value_regex re)
    build_evaluator (Message.value_range vr) = some (value_range (build_value_range_filter vr))
    build_evaluator (Message.value_bitmask m) = some (value_bitmask m)
    build_evaluator (Message.row_sample below) = some (row_sample below [] false)
    build_evaluator Message.unsupported = some pass_all

    pub build_all : Filters → Option Evaluators
    build_all Message.none_left = some none_left
    build_all (Message.more f fs) = do
      f' ← build_evaluator f
      fs' ← build_all fs
      some (more f' fs')

    -- the predicate of a condition: nil passes everything
    pub build_predicate : MaybeFilter → Option Evaluator
    build_predicate Message.absent = some pass_all
    build_predicate (Message.present f) = build_evaluator f

    pub build_maybe : MaybeFilter → Option MaybeEvaluator
    build_maybe Message.absent = some absent
    build_maybe (Message.present f) = do f' ← build_evaluator f; some (present f')
