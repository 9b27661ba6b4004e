-- ===== src/Bigtable/Filter/Engine.antt =====
-- pkg/bigtable/filter.go: `rowFilterEngine` and its use on the cells of an iterator, which are given
-- as the entries that the iterator goes through.
use cloudpebble.Base.{
  ℕ, Bool, true, false, ◌||◌, Option, none, some, List, [], ◌∷◌, ◌++◌, if◌then◌else◌,
}
use cloudpebble.Base.Order.{Bytes}
use cloudpebble.Base.OptionMonad.{◌>>=◌}
use cloudpebble.Pebble.{Entries}
use cloudpebble.Bigtable.Encoding.Decoder.{CellKey, CellDecoder, decode}
use cloudpebble.Bigtable.Filter.Message.{MaybeFilter, absent, present}
use cloudpebble.Bigtable.Filter.Leaves.{CellInfo}
use cloudpebble.Bigtable.Filter.Evaluator
use cloudpebble.Bigtable.Filter.Evaluator.{
  Evaluator, Evaluators, MaybeEvaluator, chain, interleave, condition, pass_all, strip_value,
  apply_label, none_left, more, evaluate, reset, build_evaluator,
}

-- `evaluatorHasStripValue`
unfoldable mutual
  pub has_strip_value : Evaluator → Bool
  has_strip_value strip_value = true
  has_strip_value (chain fs) = any_strip_value fs
  has_strip_value (interleave fs seen) = any_strip_value fs
  has_strip_value (condition pred tf ff) =
      has_strip_value pred || maybe_strip_value tf || maybe_strip_value ff
  has_strip_value e = false

  pub any_strip_value : Evaluators → Bool
  any_strip_value none_left = false
  any_strip_value (more f fs) = has_strip_value f || any_strip_value fs

  pub maybe_strip_value : MaybeEvaluator → Bool
  maybe_strip_value Evaluator.absent = false
  maybe_strip_value (Evaluator.present f) = has_strip_value f

-- `evaluatorCollectLabels`
unfoldable mutual
  pub collect_labels : Evaluator → List Bytes
  collect_labels (apply_label l) = l ∷ []
  collect_labels (chain fs) = collect_all_labels fs
  collect_labels (interleave fs seen) = collect_all_labels fs
  collect_labels (condition pred tf ff) =
      collect_labels pred ++ (collect_maybe_labels tf ++ collect_maybe_labels ff)
  collect_labels e = []

  pub collect_all_labels : Evaluators → List Bytes
  collect_all_labels none_left = []
  collect_all_labels (more f fs) = collect_labels f ++ collect_all_labels fs

  pub collect_maybe_labels : MaybeEvaluator → List Bytes
  collect_maybe_labels Evaluator.absent = []
  collect_maybe_labels (Evaluator.present f) = collect_labels f

pub record RowFilterEngine : Type 0 where
  pub eval : Evaluator
  pub strips : Bool
  pub labels : List Bytes

-- `newRowFilterEngine`; `none` is an error of `regexp.Compile`
unfoldable pub new_row_filter_engine :
    (Bytes → Option (Bytes → Bool)) → MaybeFilter → Option RowFilterEngine
unfolding has_strip_value collect_labels
new_row_filter_engine compile absent =
    some (record { eval = pass_all; strips = false; labels = [] })
new_row_filter_engine compile (present filter) = do
  eval ← build_evaluator compile filter
  some (record { eval = eval; strips = has_strip_value eval; labels = collect_labels eval })

abbrev pub cell_info : CellKey → Bytes → CellInfo
cell_info c value = record {
  row_key = c.row_key;
  family = c.family;
  qualifier = c.qualifier;
  ts = c.timestamp_micros;
  value = value;
}

-- The loop of `hasMatch`: whether a cell passes, and the evaluator and the draws when it ends.
unfoldable pub match_loop : Evaluator → ℕ → CellDecoder → Entries → Bool × Evaluator × ℕ
match_loop eval draws dec [] = (false, eval, draws)
match_loop eval draws dec ((key, value) ∷ entries) =
    let (dec', decoded) = decode dec key in
    let skip = match_loop eval draws dec' entries in
    elim decoded [
      | none ↦ skip
      | some c ↦
          (let (p, eval', draws') = evaluate eval (cell_info c value) draws in
            let rest = match_loop eval' draws' dec' entries in
            if p then (true, eval', draws') else rest)
    ]

abbrev pub new_decoder : CellDecoder
new_decoder = record { row_key_buf = []; qualifier_buf = [] }

-- `hasMatch`
unfoldable pub has_match : RowFilterEngine → ℕ → Entries → Bool × Evaluator × ℕ
unfolding match_loop
has_match engine draws entries = match_loop (reset engine.eval) draws new_decoder entries

-- `matchesCell`
unfoldable pub matches_cell : RowFilterEngine → CellInfo → ℕ → Bool × RowFilterEngine × ℕ
matches_cell engine cell draws =
    let (p, eval', draws') = evaluate engine.eval cell draws in
    (p, record engine { eval = eval' }, draws')

-- `process`, with the callback's state `S`: the callback is told the cell, its value (nil when it is
-- stripped) and the labels, and says whether to go on. The second result is `rp.Matched`.
module _ {S : Type 0} (on_cell : S → CellKey → Bytes → List Bytes → S × Bool) (strips : Bool)
    (labels : List Bytes) where
  unfoldable pub process_loop : Evaluator → ℕ → CellDecoder → Entries → S → Bool → S × Bool
  process_loop eval draws dec [] s matched = (s, matched)
  process_loop eval draws dec ((key, value) ∷ entries) s matched =
      let (dec', decoded) = decode dec key in
      let skip = process_loop eval draws dec' entries s matched in
      elim decoded [
        | none ↦ skip
        | some c ↦
            (let (p, eval', draws') = evaluate eval (cell_info c value) draws in
              let refused = process_loop eval' draws' dec' entries s matched in
              let (s', go_on) = on_cell s c (if strips then [] else value) labels in
              let rest = process_loop eval' draws' dec' entries s' true in
              if p then (if go_on then rest else (s', true)) else refused)
      ]

unfoldable pub process :
    {S : Type 0}
    → (S → CellKey → Bytes → List Bytes → S × Bool)
    → RowFilterEngine
    → ℕ
    → Entries
    → S
    → Bool
    → S × Bool
unfolding process_loop
process on_cell engine draws entries s matched =
    process_loop on_cell engine.strips engine.labels (reset engine.eval) draws new_decoder entries s
      matched
