-- ===== src/Bigtable/Mutate/Cells.antt =====
-- pkg/bigtable/mutate.go against a table of cells: what each mutation does to a cell.
use cloudpebble.Base.{
  ℕ, suc, ◌*◌, ◌≤◌, ◌<◌, ◌^◌, Bool, not, ◌&&◌, Option, none, some, List, [], ◌∷◌, ◌==◌,
  if◌then◌else◌, length, ◌≢◌,
}
use cloudpebble.Base.Order.{Bytes, equal_bytes}
use cloudpebble.Base.Int64.{minus_one, lt_int64}
use cloudpebble.Bigtable.Encoding.{inverted_timestamp}
use cloudpebble.Bigtable.Encoding.Decoder.{CellKey}
use cloudpebble.Bigtable.Mutate.{
  TimestampRange, Mutation, set_cell, delete_from_column, delete_from_family, delete_from_row,
}

-- whether the cell is of the row, the family and the column
abbrev pub in_row : Bytes → CellKey → Bool
in_row row c = equal_bytes row c.row_key

abbrev pub in_family : Bytes → Bytes → CellKey → Bool
in_family row f c = equal_bytes row c.row_key && equal_bytes f c.family

abbrev pub in_column : Bytes → Bytes → Bytes → CellKey → Bool
in_column row f q c =
    equal_bytes row c.row_key && equal_bytes f c.family && equal_bytes q c.qualifier

-- `start ≤ t < end`, where an end of 0 stands for the time of the call
abbrev pub end_of : TimestampRange → ℕ → ℕ
end_of tr now = if tr.end_timestamp_micros == 0 then now else tr.end_timestamp_micros

abbrev pub in_time : TimestampRange → ℕ → CellKey → Bool
in_time tr now c =
    not (lt_int64 c.timestamp_micros tr.start_timestamp_micros)
    && lt_int64 c.timestamp_micros (end_of tr now)

-- What a mutation of a row at a time makes of the value of a cell.
unfoldable pub mutate_cell : Bytes → Mutation → ℕ → CellKey → Option Bytes → Option Bytes
mutate_cell row (set_cell f q ts v) now c old =
    if in_column row f q c && (if ts == minus_one then now else ts) == c.timestamp_micros
    then some v
    else old
mutate_cell row (delete_from_column f q none) now c old = if in_column row f q c then none else old
mutate_cell row (delete_from_column f q (some tr)) now c old =
    if in_column row f q c && in_time tr now c then none else old
mutate_cell row (delete_from_family f) now c old = if in_family row f c then none else old
mutate_cell row delete_from_row now c old = if in_row row c then none else old
mutate_cell row _ now c old = old

-- The limits within which the ranges of a row, a family and a column hold the cell.
pub record IsPlain (c : CellKey) : Type 0 where
  pub family_short : length c.family < 255
  pub qualifier_short : length c.qualifier < 65280
  pub timestamp_fits : c.timestamp_micros < 2 ^ 64
  pub timestamp_high : inverted_timestamp c.timestamp_micros < 255 * 2 ^ 56

-- an int64 other than the least
abbrev pub IsTime : ℕ → Type 0
IsTime t = (t < 2 ^ 64) × (t ≢ 2 ^ 63)

-- The names of a mutation are within the limits of the encoding, and its times are int64 values,
-- other than the least in a time range.
abbrev pub Fits : Mutation → ℕ → Type 0
Fits (set_cell f q ts v) now = (ts < 2 ^ 64) × (now < 2 ^ 64)
Fits (delete_from_column f q none) now = (length f ≤ 255) × (length q ≤ 65535)
Fits (delete_from_column f q (some tr)) now =
    (length f ≤ 255)
    × (length q ≤ 65535)
    × IsTime tr.start_timestamp_micros
    × IsTime tr.end_timestamp_micros
    × IsTime now
Fits (delete_from_family f) now = length f ≤ 255
Fits _ now = Unit

-- What the mutations of a request make of a cell, one after the other.
unfoldable pub mutate_cell_all :
    Bytes → List Mutation → (ℕ → ℕ) → CellKey → Option Bytes → Option Bytes
unfolding mutate_cell
mutate_cell_all row [] clock c old = old
mutate_cell_all row (m ∷ ms) clock c old =
    mutate_cell_all row ms (λ i. clock (suc i)) c (mutate_cell row m (clock 0) c old)

abbrev pub AllFit : List Mutation → (ℕ → ℕ) → Type 0
AllFit [] clock = Unit
AllFit (m ∷ ms) clock = Fits m (clock 0) × AllFit ms (λ i. clock (suc i))
