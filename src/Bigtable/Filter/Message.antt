-- ===== src/Bigtable/Filter/Message.antt =====
-- pkg/bigtable/bigtablepb: the message `RowFilter`, as far as filter.go reads it.
use cloudpebble.Base.{ℕ, Bool}
use cloudpebble.Base.Order.{Bytes}
use cloudpebble.Base.Int64.{ℤ}
use cloudpebble.Bigtable.Mutate.{TimestampRange}

-- a `oneof` of an inclusive and an exclusive limit
pub data Bound : Type 0 where
  unset : Bound
  closed : Bytes → Bound
  exclusive : Bytes → Bound

pub record ColumnRange : Type 0 where
  pub family_name : Bytes
  pub start_qualifier : Bound
  pub end_qualifier : Bound

pub record ValueRange : Type 0 where
  pub start_value : Bound
  pub end_value : Bound

-- A sampling rate is the test `randFloat64() < rate` on the n-th number drawn. The counts are int32.
mutual
  pub data RowFilter : Type 0 where
    chain : Filters → RowFilter
    interleave : Filters → RowFilter
    condition : MaybeFilter → MaybeFilter → MaybeFilter → RowFilter
    pass_all block_all : RowFilter
    row_key_regex family_name_regex column_qualifier_regex : Bytes → RowFilter
    column_range : ColumnRange → RowFilter
    timestamp_range : TimestampRange → RowFilter
    cells_per_row_offset cells_per_row_limit cells_per_column_limit : ℤ → RowFilter
    strip_value : RowFilter
    apply_label : Bytes → RowFilter
    value_regex : Bytes → RowFilter
    value_range : ValueRange → RowFilter
    value_bitmask : Bytes → RowFilter
    row_sample : (ℕ → Bool) → RowFilter
    unsupported : RowFilter

  pub data Filters : Type 0 where
    none_left : Filters
    more : RowFilter → Filters → Filters

  -- a filter that may be nil
  pub data MaybeFilter : Type 0 where
    absent : MaybeFilter
    present : RowFilter → MaybeFilter
