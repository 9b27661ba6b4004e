-- ===== src/Bigtable/ReadModifyWrite.antt =====
-- pkg/bigtable/readmodifywrite.go. The indexed batch shows the database with the operations of the
-- batch on top. The map `modified` is a list of cells with their values, each cell once; the order in
-- which Go goes through it is not modelled, so the response is this list. `now` is the clock's time
-- and the table is given as in `Bigtable.Mutate`. `NewIter` is taken to succeed.
pub mod Rules
pub mod Response
use Prim.Native.String.{String}
use cloudpebble.Base.{
  ℕ, ◌-◌, ◌^◌, Bool, true, false, ◌&&◌, not, Option, none, some, List, [], ◌∷◌, ◌++◌, ◌==◌, ltb,
  if◌then◌else◌, length,
}
use cloudpebble.Base.Order.{Bytes, equal_bytes, has_prefix}
use cloudpebble.Base.BigEndian.{put_uint64, uint}
use cloudpebble.Base.Int64.{max_int64, add64}
use cloudpebble.Pebble.{Op, set, Batch, Entries, Pebble}
use cloudpebble.Bigtable.Status.{
  failed_precondition, out_of_range, invalid_argument, internal, Status, error, errorf, Result, ok,
  err,
}
use cloudpebble.Bigtable.Encoding.{
  encode_row_prefix, encode_family_prefix, encode_column_prefix, encode_cell_key, column_end_key,
}

-- the kinds of a `ReadModifyWriteRule`; an amount is the bit pattern of an int64
pub data RuleKind : Type 0 where
  append_value : Bytes → RuleKind
  increment_amount : ℕ → RuleKind
  rule_unset : RuleKind

pub record Rule : Type 0 where
  pub family_name : Bytes
  pub column_qualifier : Bytes
  pub rule : RuleKind

-- the sum of an increment, refused when its sign bit is set
unfoldable pub incremented : ℕ → ℕ → Result Bytes
incremented current_int amount =
    let new_int = add64 current_int amount in
    if ltb max_int64 new_int
    then err (error out_of_range "increment result is negative")
    else ok (put_uint64 new_int)

-- the `switch` over the kind of a rule
unfoldable pub new_value : Bytes → RuleKind → Result Bytes
unfolding incremented
new_value current (append_value v) = ok (current ++ v)
new_value current (increment_amount amount) =
    if length current == 0
    then incremented 0 amount
    else if not (length current == 8)
    then err (error failed_precondition "existing cell value must be 8 bytes for increment")
    else if ltb max_int64 (uint current)
    then err (error failed_precondition "existing cell value exceeds int64 range")
    else incremented (uint current) amount
new_value current rule_unset = err (error invalid_argument "unknown rule type")

-- a bound that is nil is none
abbrev pub bound : Bytes → Option Bytes
bound [] = none
bound (c ∷ cs) = some (c ∷ cs)

-- the value of the first entry, if it is one of the column
unfoldable pub first_value : Bytes → Entries → Bytes
first_value column_prefix [] = []
first_value column_prefix ((key, value) ∷ entries) =
    if has_prefix key column_prefix then value else []

-- `modified[family][qualifier]`
pub record Modified : Type 0 where
  pub family : Bytes
  pub qualifier : Bytes
  pub value : Bytes

unfoldable pub put_modified : Bytes → Bytes → Bytes → List Modified → List Modified
put_modified f q v [] = record { family = f; qualifier = q; value = v } ∷ []
put_modified f q v (m ∷ ms) =
    let rest = put_modified f q v ms in
    if equal_bytes f m.family && equal_bytes q m.qualifier
    then record { family = f; qualifier = q; value = v } ∷ ms
    else m ∷ rest

module _ (pebble : Pebble) where
  -- `readCellValue`
  unfoldable pub read_cell_value : pebble.DB → Batch → Bytes → Bytes → Bytes → Bytes
  unfolding first_value
  read_cell_value db batch row_key family qualifier =
      let fp = encode_family_prefix (encode_row_prefix row_key) family in
      let cp = encode_column_prefix fp qualifier in
      first_value cp (pebble.scan (pebble.apply db batch) (bound cp) (bound (column_end_key cp)))

  -- The loop over the rules, from the batch and the map so far.
  unfoldable pub apply_rules :
      pebble.DB → Bytes → ℕ → List Rule → Batch → List Modified → Result (Batch × List Modified)
  apply_rules db row_key ts [] batch modified = ok (batch, modified)
  apply_rules db row_key ts (r ∷ rules) batch modified =
      let current = read_cell_value db batch row_key r.family_name r.column_qualifier in
      let key = encode_cell_key row_key r.family_name r.column_qualifier ts in
      elim (new_value current r.rule) [
        | err status ↦ err status
        | ok v ↦
            apply_rules db row_key ts rules (batch ++ set key v ∷ [])
              (put_modified r.family_name r.column_qualifier v modified)
      ]

  -- `ReadModifyWriteRow`: the cells of the response, and the database
  unfoldable pub read_modify_write_row :
      Option String
      → (Batch → Option String)
      → pebble.DB
      → Bytes
      → List Rule
      → ℕ
      → Result (List Modified) × pebble.DB
  read_modify_write_row opening commit db [] rules now =
      (err (error invalid_argument "row_key is required"), db)
  read_modify_write_row opening commit db (c ∷ row_key) [] now =
      (err (error invalid_argument "rules is required"), db)
  read_modify_write_row opening commit db (c ∷ row_key) (r ∷ rules) now = elim opening [
    | some cause ↦ (err (errorf internal "opening table: %v" cause), db)
    | none ↦ elim (apply_rules db (c ∷ row_key) now (r ∷ rules) [] []) [
      | err status ↦ (err status, db)
      | ok (batch, modified) ↦ elim (commit batch) [
        | some cause ↦ (err (errorf internal "applying batch: %v" cause), db)
        | none ↦ (ok modified, pebble.apply db batch)
      ]
    ]
  ]
