-- ===== src/Tests/Handlers.antt =====
-- Theorems on the handlers at concrete inputs, over the table of `Pebble.Table`.
use Prim.Native.String.{String}
use cloudpebble.Base.{
  ℕ, Bool, false, Option, none, some, List, [], ◌∷◌, ltb, length, if◌then◌else◌, ◌≡◌, ◌≢◌, ◌⊎◌, ◌^◌,
  refl, ap, arith,
}
use cloudpebble.Base.Order.{Bytes, equal_bytes}
use cloudpebble.Base.BigEndian.{put_uint64}
use cloudpebble.Pebble.{Batch, Entries}
use cloudpebble.Pebble.Table.{table, apply_all, scan_table}
use cloudpebble.Bigtable.SampleKeys.{Tables, levels, max_int64, sample_row_keys}
use cloudpebble.Bigtable.SampleKeys.Offsets.{IsRising, sample_row_keys-IsRising}
use cloudpebble.Bigtable.Status.{Status, ok, err, error, failed_precondition}
use cloudpebble.Bigtable.Encoding.{encode_cell_key, inverted_timestamp}
use cloudpebble.Bigtable.Encoding.Decoder.{CellKey}
use cloudpebble.Bigtable.Mutate.{
  Mutation, set_cell, add_to_cell, Entry, EntryStatus, mutate_row, mutate_rows, build_batch,
  in_err_set, apply_mutations_to_batch, apply_mutation_to_batch, apply_set_cell,
}
use cloudpebble.Bigtable.Mutate.Cells.{IsPlain, mutate_cell_all}
use cloudpebble.Bigtable.Mutate.Isolation.{cell_of, mutate_row_refines, mutate_row-ok}
use cloudpebble.Bigtable.Mutate.Rows.{answers, code_of, answers-mutate_rows, mutate_rows_unwritten}
use cloudpebble.Bigtable.ReadModifyWrite.{
  Rule, Modified, append_value, increment_amount, new_value, read_modify_write_row, apply_rules,
  put_modified, read_cell_value,
}
use cloudpebble.Bigtable.ReadModifyWrite.Rules.{exact_sum, answer, new_value-increment}
use cloudpebble.Bigtable.ReadModifyWrite.Response.{lookup, read_modify_write_row-response}

-- an engine that takes every batch, a clock, a stream that takes every response
abbrev takes : Batch → Option String
takes b = none

abbrev clock : ℕ → ℕ
clock i = 7

abbrev accepts : ℕ → Option Status
accepts n = none

abbrev refuses_all : Bytes → Option (Bytes → Bool)
refuses_all s = none

-- a row, a cell of another row, and mutations
abbrev row : Bytes
row = 97 ∷ []

abbrev write : Mutation
write = set_cell (102 ∷ []) (113 ∷ []) 5 (1 ∷ 2 ∷ [])

abbrev other : CellKey
other = record {
  row_key = 98 ∷ 98 ∷ [];
  family = 102 ∷ [];
  qualifier = 113 ∷ [];
  timestamp_micros = 5;
}

other-IsPlain : IsPlain other
unfolding inverted_timestamp
other-IsPlain = record {
  family_short = omega arith;
  qualifier_short = omega arith;
  timestamp_fits = omega arith;
  timestamp_high = omega arith;
}

row-ne_other : row ≢ other.row_key
row-ne_other e = let l : 1 ≡ 2 = ap length e in absurd (omega (arith, l))

mutate_row_refines_example :
    ((s : Status) × (mutate_row table none takes [] row (write ∷ []) clock ≡ (err s, [])))
    ⊎ ((db' : Entries) × (mutate_row table none takes [] row (write ∷ []) clock ≡ (ok tt, db'))
        × (cell_of table none takes db' other
            ≡ mutate_cell_all row (write ∷ []) clock other (cell_of table none takes [] other)))
mutate_row_refines_example =
    mutate_row_refines table none takes [] row (write ∷ []) clock other
      ((omega arith, omega arith), tt) other-IsPlain

mutate_row-ok_example : (mutate_row table none takes [] row (write ∷ []) clock).0 ≡ ok tt
mutate_row-ok_example =
    mutate_row-ok table none takes [] row (write ∷ []) clock (λ e. cc) (λ e. cc) refl (λ b. refl)
      ((omega arith, omega arith), tt)

-- a good entry and one with a mutation that is not supported
abbrev entries : List Entry
entries =
    record { row_key = row; mutations = write ∷ [] }
    ∷ record { row_key = row; mutations = add_to_cell ∷ [] }
    ∷ []

abbrev clocks : ℕ → ℕ → ℕ
clocks i j = 7

refused : (build_batch [] 0 entries clocks).1 ≢ []
unfolding build_batch apply_mutations_to_batch apply_mutation_to_batch apply_set_cell
refused e = cc

first_fine : in_err_set 0 (build_batch [] 0 entries clocks).1 ≡ false
unfolding build_batch apply_mutations_to_batch apply_mutation_to_batch apply_set_cell in_err_set
first_fine = refl

mutate_rows_unwritten_example :
    (ss : List EntryStatus) × (mutate_rows table none takes [] entries clocks ≡ (ok ss, []))
    × (code_of 0 ss ≡ some 0)
mutate_rows_unwritten_example =
    mutate_rows_unwritten table none takes [] entries clocks 0 refl refused (omega arith) first_fine

answers-mutate_rows_example :
    answers 1 mutate_rows_unwritten_example.0 ≡ (if ltb 1 (length entries) then 1 else 0)
answers-mutate_rows_example =
    answers-mutate_rows table none takes [] [] entries clocks mutate_rows_unwritten_example.0 1
      mutate_rows_unwritten_example.1

-- a table with one cell
abbrev stored : Entries
stored = (encode_cell_key row (102 ∷ []) (113 ∷ []) 5, 1 ∷ 2 ∷ []) ∷ []

new_value-increment_example :
    (new_value [] (increment_amount 3) ≡ answer (exact_sum 0 3))
    × (new_value (put_uint64 4) (increment_amount 3) ≡ answer (exact_sum 4 3))
    × (new_value (1 ∷ []) (increment_amount 3)
        ≡ err (error failed_precondition "existing cell value must be 8 bytes for increment"))
    × (new_value (put_uint64 (2 ^ 63)) (increment_amount 3)
        ≡ err (error failed_precondition "existing cell value exceeds int64 range"))
new_value-increment_example =
    new_value-increment 4 3 (2 ^ 63) (1 ∷ []) (omega arith) (omega arith) (omega arith)
      (omega arith) (λ k. omega (arith, k)) (λ k. omega (arith, k))

abbrev rules : List Rule
rules =
    record { family_name = 102 ∷ []; column_qualifier = 113 ∷ []; rule = append_value (1 ∷ []) }
    ∷ []

abbrev changed : List Modified
changed = record { family = 102 ∷ []; qualifier = 113 ∷ []; value = 1 ∷ [] } ∷ []

abbrev after_call : Entries
after_call = (encode_cell_key row (102 ∷ []) (113 ∷ []) 7, 1 ∷ []) ∷ []

called : read_modify_write_row table none takes [] row rules 7 ≡ (ok changed, after_call)
unfolding read_modify_write_row apply_rules new_value put_modified apply_all read_cell_value
    scan_table
called = refl

looked_up : lookup (102 ∷ []) (113 ∷ []) changed ≡ some (1 ∷ [])
unfolding lookup equal_bytes
looked_up = refl

read_modify_write_row-response_example :
    table.get after_call (encode_cell_key row (102 ∷ []) (113 ∷ []) 7) ≡ some (1 ∷ [])
read_modify_write_row-response_example =
    read_modify_write_row-response table none takes [] row rules 7 changed after_call (102 ∷ [])
      (113 ∷ []) (1 ∷ []) (omega arith) ((omega arith, omega arith), tt) (omega arith) (omega arith)
      called looked_up

-- the key of row "r", family "f", qualifier "q"
abbrev cell_key_at : Bytes
cell_key_at =
    b'r' ∷ 0 ∷ 0 ∷ 1 ∷ b'f' ∷ 0 ∷ 0 ∷ 1 ∷ b'q' ∷ 0 ∷ 127 ∷ 255 ∷ 255 ∷ 255 ∷ 255 ∷ 255 ∷ 255 ∷ 255
    ∷ []

-- tables of two levels, the last one with the largest size
abbrev two_levels : Tables
two_levels = levels (
    (record { smallest = cell_key_at; size = 10 } ∷ [])
    ∷ (record { smallest = cell_key_at; size = max_int64 }
        ∷ record { smallest = cell_key_at; size = 1 }
        ∷ [])
    ∷ [])

sample_row_keys-IsRising_example : IsRising 0 max_int64 (sample_row_keys (λ s. none) two_levels).0
sample_row_keys-IsRising_example = sample_row_keys-IsRising (λ s. none) two_levels
