-- ===== src/Bigtable/CheckAndMutate.antt =====
-- pkg/bigtable/mutate.go: the handler `CheckAndMutateRow`. The row's lock makes the calls on one row
-- follow each other, so a call is one step. `listed` says whether the table is still in the server's map
-- after it has been opened; the other arguments are those of `Bigtable.Mutate`. `NewIter` is taken
-- to succeed.
use Prim.Native.String.{String}
use cloudpebble.Base.{
  ℕ, Bool, true, false, Option, none, some, List, [], ◌∷◌, if◌then◌else◌, ◌≡◌, ltb, length, ◌⊎◌,
}
use cloudpebble.Base.Order.{Bytes}
use cloudpebble.Pebble.{Batch, Entries, Pebble}
use cloudpebble.Bigtable.Status.{
  invalid_argument, not_found, internal, Status, error, errorf, Result, ok, err,
}
use cloudpebble.Bigtable.Encoding.{row_key_range_bounds}
use cloudpebble.Bigtable.Encoding.Decoder.{CellKey}
use cloudpebble.Bigtable.Filter.Message.{MaybeFilter, absent, present}
use cloudpebble.Bigtable.Filter.Engine.{new_row_filter_engine, has_match}
use cloudpebble.Bigtable.Filter.Yield.{yielded}
use cloudpebble.Bigtable.Mutate.{Mutation, apply_mutations_to_batch}
use cloudpebble.Bigtable.Mutate.Cells.{mutate_cell_all}
use cloudpebble.Bigtable.Mutate.Isolation.{cell_of}

abbrev pub any_entry : Entries → Bool
any_entry [] = false
any_entry (e ∷ entries) = true

abbrev pub is_nonempty : Entries → Bool
is_nonempty entries = ltb 0 (length entries)

module _ (pebble : Pebble) (compile : Bytes → Option (Bytes → Bool)) where
  -- What the predicate of a call is to be: whether the filter yields a cell of the row, or, if there is
  -- no filter or one that does not compile, whether the row has an entry.
  unfoldable pub predicate : pebble.DB → Bytes → MaybeFilter → Bool
  predicate db row_key filter =
      let (lo, hi) = row_key_range_bounds row_key in
      let entries = pebble.scan db (some lo) (some hi) in
      elim filter [
        | absent ↦ is_nonempty entries
        | present f ↦ elim (new_row_filter_engine compile (present f)) [
          | none ↦ is_nonempty entries
          | some engine ↦ ltb 0 (yielded engine entries)
        ]
      ]

  -- `rowHasCells`
  unfoldable pub row_has_cells : pebble.DB → Bytes → MaybeFilter → Bool
  row_has_cells db row_key filter =
      let (lo, hi) = row_key_range_bounds row_key in
      let entries = pebble.scan db (some lo) (some hi) in
      elim filter [
        | absent ↦ any_entry entries
        | present f ↦ elim (new_row_filter_engine compile (present f)) [
          | none ↦ any_entry entries
          | some engine ↦ (has_match engine 0 entries).0
        ]
      ]

  module _ (opening : Option String) (listed : Bool) (commit : Batch → Option String) where
    -- what follows the choice of the mutations: whether the predicate matched, and the database
    unfoldable pub apply_chosen :
        pebble.DB → Bytes → Bool → List Mutation → (ℕ → ℕ) → Result Bool × pebble.DB
    apply_chosen db row_key matched [] clock = (ok matched, db)
    apply_chosen db row_key matched (m ∷ ms) clock =
        let (batch, e) = apply_mutations_to_batch [] row_key (m ∷ ms) clock in
        elim e [
          | some status ↦ (err status, db)
          | none ↦ elim (commit batch) [
            | some cause ↦ (err (errorf internal "applying mutations: %v" cause), db)
            | none ↦ (ok matched, pebble.apply db batch)
          ]
        ]

    -- `CheckAndMutateRow`
    unfoldable pub check_and_mutate_row :
        pebble.DB
        → Bytes
        → MaybeFilter
        → List Mutation
        → List Mutation
        → (ℕ → ℕ)
        → Result Bool × pebble.DB
    check_and_mutate_row db [] filter true_mutations false_mutations clock =
        (err (error invalid_argument "row_key is required"), db)
    check_and_mutate_row db (c ∷ row_key) filter true_mutations false_mutations clock =
        elim opening [
          | some cause ↦ (err (errorf internal "opening table: %v" cause), db)
          | none ↦
              if listed
              then (let matched = row_has_cells db (c ∷ row_key) filter in
                  let mutations = if matched then true_mutations else false_mutations in
                  apply_chosen db (c ∷ row_key) matched mutations clock)
              else (err (error not_found "table %q not found"), db)
        ]

    -- What a call may do to a cell: fail and change nothing, or answer `matched` and make of it what
    -- the mutations make of it.
    abbrev pub Outcome :
        pebble.DB
        → Bytes
        → Bool
        → List Mutation
        → (ℕ → ℕ)
        → CellKey
        → Result Bool × pebble.DB
        → Type 0
    Outcome db row matched ms clock cell answer =
        ((s : Status) × (answer ≡ (err s, db)))
        ⊎ ((db' : pebble.DB) × (answer ≡ (ok matched, db'))
            × (cell_of pebble opening commit db' cell
                ≡ mutate_cell_all row ms clock cell (cell_of pebble opening commit db cell)))
