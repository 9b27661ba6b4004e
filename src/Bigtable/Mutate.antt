-- ===== src/Bigtable/Mutate.antt =====
-- pkg/bigtable/mutate.go: mutations as batch operations, and the handlers `MutateRow` and
-- `MutateRows`. A batch is changed in place, so it comes back beside an error too. The i-th
-- mutation of a request reads the clock at `clock i`. The engine of the table is an argument: `opening`
-- is the error of `getEngine`, and `commit b` that of `Engine.Apply` for the batch `b`, if any; a
-- batch that is applied changes the database, and one that fails leaves it.
pub mod Cells
pub mod Effects
pub mod Isolation
pub mod Rows
use Prim.Native.String.{String}
use cloudpebble.Base.{
  ℕ, suc, ◌+◌, Bool, true, false, Option, none, some, List, [], ◌∷◌, ◌++◌, ◌==◌, ltb, if◌then◌else◌,
  length, map,
}
use cloudpebble.Base.Order.{Bytes}
use cloudpebble.Base.Int64.{minus_one}
use cloudpebble.Pebble.{Op, set, delete_range, Batch, Pebble}
use cloudpebble.Bigtable.Status.{
  unknown, invalid_argument, unimplemented, internal, Status, error, errorf, Result, ok, err,
  code_number,
}
use cloudpebble.Bigtable.Encoding.{
  encode_row_prefix, encode_family_prefix, encode_column_prefix, encode_cell_key, row_end_key,
  family_end_key, column_end_key, encode_timestamp_range_bounds,
}

-- `bigtablepb.TimestampRange`
pub record TimestampRange : Type 0 where
  pub start_timestamp_micros : ℕ
  pub end_timestamp_micros : ℕ

-- `bigtablepb.Mutation`; `unset` is a mutation with no kind, or of a kind that is not known
pub data Mutation : Type 0 where
  set_cell :
      (family_name column_qualifier : Bytes) (timestamp_micros : ℕ) (value : Bytes) → Mutation
  delete_from_column :
      (family_name column_qualifier : Bytes) (time_range : Option TimestampRange) → Mutation
  delete_from_family : (family_name : Bytes) → Mutation
  delete_from_row add_to_cell merge_to_cell unset : Mutation

-- a batch after a call, and the call's error
abbrev pub Applied : Type 0
Applied = Batch × Option Status

unfoldable pub apply_set_cell : Batch → Bytes → Bytes → Bytes → ℕ → Bytes → ℕ → Applied
apply_set_cell batch row_key family qualifier timestamp value now =
    if ltb 255 (length family)
    then (batch, some (error invalid_argument "family name too long (max 255 bytes)"))
    else if ltb 65535 (length qualifier)
    then (batch, some (error invalid_argument "column qualifier too long (max 65535 bytes)"))
    else (let ts = if timestamp == minus_one then now else timestamp in
        (batch ++ set (encode_cell_key row_key family qualifier ts) value ∷ [], none))

unfoldable pub apply_delete_from_column :
    Batch → Bytes → Bytes → Bytes → Option TimestampRange → ℕ → Applied
apply_delete_from_column batch row_key family qualifier time_range now =
    let fp = encode_family_prefix (encode_row_prefix row_key) family in
    let cp = encode_column_prefix fp qualifier in
    elim time_range [
      | none ↦ (batch ++ delete_range cp (column_end_key cp) ∷ [], none)
      | some tr ↦
          (let end_ts = if tr.end_timestamp_micros == 0 then now else tr.end_timestamp_micros in
            let bounds = encode_timestamp_range_bounds cp tr.start_timestamp_micros end_ts in
            (batch ++ delete_range bounds.0 bounds.1 ∷ [], none))
    ]

unfoldable pub apply_delete_from_family : Batch → Bytes → Bytes → Applied
apply_delete_from_family batch row_key family =
    let fp = encode_family_prefix (encode_row_prefix row_key) family in
    (batch ++ delete_range fp (family_end_key fp) ∷ [], none)

unfoldable pub apply_delete_from_row : Batch → Bytes → Applied
apply_delete_from_row batch row_key =
    let rp = encode_row_prefix row_key in (batch ++ delete_range rp (row_end_key rp) ∷ [], none)

unfoldable pub apply_mutation_to_batch : Batch → Bytes → Mutation → ℕ → Applied
unfolding apply_set_cell apply_delete_from_column apply_delete_from_family apply_delete_from_row
apply_mutation_to_batch batch row_key (set_cell f q ts v) now =
    apply_set_cell batch row_key f q ts v now
apply_mutation_to_batch batch row_key (delete_from_column f q tr) now =
    apply_delete_from_column batch row_key f q tr now
apply_mutation_to_batch batch row_key (delete_from_family f) now =
    apply_delete_from_family batch row_key f
apply_mutation_to_batch batch row_key delete_from_row now = apply_delete_from_row batch row_key
apply_mutation_to_batch batch row_key add_to_cell now =
    (batch, some (error unimplemented "AddToCell not supported"))
apply_mutation_to_batch batch row_key merge_to_cell now =
    (batch, some (error unimplemented "MergeToCell not supported"))
apply_mutation_to_batch batch row_key unset now =
    (batch, some (error invalid_argument "unknown mutation type"))

-- The loop of `applyMutationsToBatch`: it stops at the first error.
unfoldable pub apply_mutations_to_batch : Batch → Bytes → List Mutation → (ℕ → ℕ) → Applied
apply_mutations_to_batch batch row_key [] clock = (batch, none)
apply_mutations_to_batch batch row_key (m ∷ ms) clock =
    let (batch', e) = apply_mutation_to_batch batch row_key m (clock 0) in
    let rest = apply_mutations_to_batch batch' row_key ms (λ i. clock (suc i)) in
    elim e [ some status ↦ (batch', some status) | none ↦ rest ]

-- `bigtablepb.MutateRowsRequest.Entry`
pub record Entry : Type 0 where
  pub row_key : Bytes
  pub mutations : List Mutation

-- `rpcstatus.Status`: its code, 0 for OK, and the error that it was made from
pub record EntryStatus : Type 0 where
  pub index : ℕ
  pub code : ℕ
  pub detail : Option Status

-- `toBigtableStatus`, with `statusCodeInt32`, whose bound no code reaches; an error that is no
-- status, as the engine's, has been read as one with the code Unknown
unfoldable pub to_bigtable_status : ℕ → Status → EntryStatus
to_bigtable_status i s = record { index = i; code = code_number s.code; detail = some s }

-- `okStatus`
unfoldable pub ok_status : ℕ → EntryStatus
ok_status i = record { index = i; code = 0; detail = none }

-- The first loop of `MutateRows`, from entry `i`: the batch, and the errors with their entries.
unfoldable pub build_batch : Batch → ℕ → List Entry → (ℕ → ℕ → ℕ) → Batch × List (ℕ × Status)
build_batch batch i [] clock = (batch, [])
build_batch batch i (entry ∷ entries) clock =
    let (batch', e) = apply_mutations_to_batch batch entry.row_key entry.mutations (clock i) in
    let (final, errors) = build_batch batch' (i + 1) entries clock in
    (final, elim e [ none ↦ errors | some status ↦ (i, status) ∷ errors ])

-- `errSet[i]`
unfoldable pub in_err_set : ℕ → List (ℕ × Status) → Bool
in_err_set i [] = false
in_err_set i ((j, s) ∷ errors) = if i == j then true else in_err_set i errors

-- the loops over `entries` that add a status for each index from `i` on
unfoldable pub ok_entries : List (ℕ × Status) → ℕ → List Entry → List EntryStatus
unfolding in_err_set ok_status
ok_entries errors i [] = []
ok_entries errors i (entry ∷ entries) =
    let rest = ok_entries errors (i + 1) entries in
    if in_err_set i errors then rest else ok_status i ∷ rest

unfoldable pub failed_entries : Status → ℕ → List Entry → List EntryStatus
unfolding to_bigtable_status
failed_entries s i [] = []
failed_entries s i (entry ∷ entries) = to_bigtable_status i s ∷ failed_entries s (i + 1) entries

unfoldable pub error_entries : List (ℕ × Status) → List EntryStatus
unfolding to_bigtable_status
error_entries [] = []
error_entries ((i, s) ∷ errors) = to_bigtable_status i s ∷ error_entries errors

module _ (pebble : Pebble) (opening : Option String) (commit : Batch → Option String) where
  -- `MutateRow`
  unfoldable pub mutate_row :
      pebble.DB → Bytes → List Mutation → (ℕ → ℕ) → Result (Unit {0}) × pebble.DB
  mutate_row db [] mutations clock = (err (error invalid_argument "row_key is required"), db)
  mutate_row db (c ∷ row_key) [] clock = (err (error invalid_argument "mutations is required"), db)
  mutate_row db (c ∷ row_key) (m ∷ mutations) clock = elim opening [
    | some cause ↦ (err (errorf internal "opening table: %v" cause), db)
    | none ↦
        (let (batch, e) = apply_mutations_to_batch [] (c ∷ row_key) (m ∷ mutations) clock in
          elim e [
            | some status ↦ (err status, db)
            | none ↦ elim (commit batch) [
              | some cause ↦ (err (errorf internal "applying mutations: %v" cause), db)
              | none ↦ (ok tt, pebble.apply db batch)
            ]
          ])
  ]

  -- `MutateRows`: the statuses that it sends, or the error that it returns
  unfoldable pub mutate_rows :
      pebble.DB → List Entry → (ℕ → ℕ → ℕ) → Result (List EntryStatus) × pebble.DB
  mutate_rows db [] clock = (err (error invalid_argument "entries is required"), db)
  mutate_rows db (entry ∷ more) clock = elim opening [
    | some cause ↦ (err (errorf internal "opening table: %v" cause), db)
    | none ↦
        (let entries = entry ∷ more in
          let (batch, errors) = build_batch [] 0 entries clock in
          elim errors [
            | (first ∷ rest) ↦
                (ok (error_entries (first ∷ rest) ++ ok_entries (first ∷ rest) 0 entries), db)
            | [] ↦ elim (commit batch) [
              | some cause ↦ (ok (failed_entries (error unknown cause) 0 entries), db)
              | none ↦ (ok (ok_entries [] 0 entries), pebble.apply db batch)
            ]
          ])
  ]
