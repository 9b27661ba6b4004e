-- ===== src/Bigtable/Filter/Leaves.antt =====
-- pkg/bigtable/filter.go: the tests of the filters that have no parts and no state.
use Prim.Native.Nat.{bit_and}
use cloudpebble.Base.{
  ℕ, Bool, true, false, not, ◌&&◌, ◌||◌, [], ◌∷◌, ◌==◌, ltb, leb, if◌then◌else◌, length, Ordering,
}
use cloudpebble.Base.Order.{Bytes, compare_bytes, equal_bytes}
use cloudpebble.Base.Int64.{ℤ, pos, negsuc, lt_int64}
use cloudpebble.Bigtable.Mutate.{TimestampRange}
use cloudpebble.Bigtable.Filter.Message.{Bound, unset, closed, exclusive, ColumnRange, ValueRange}

-- `cellInfo`
pub record CellInfo : Type 0 where
  pub row_key : Bytes
  pub family : Bytes
  pub qualifier : Bytes
  pub ts : ℕ
  pub value : Bytes

-- `columnRangeFilter`
pub record ColumnRangeFilter : Type 0 where
  pub family : Bytes
  pub start_qualifier : Bytes
  pub end_qualifier : Bytes
  pub start_inclusive : Bool
  pub end_inclusive : Bool
  pub range_set : Bool

abbrev pub limit_of : Bound → Bytes
limit_of unset = []
limit_of (closed b) = b
limit_of (exclusive b) = b

abbrev pub is_closed : Bound → Bool
is_closed unset = false
is_closed (closed b) = true
is_closed (exclusive b) = false

abbrev pub is_set : Bound → Bool
is_set unset = false
is_set (closed b) = true
is_set (exclusive b) = true

-- `buildColumnRangeFilter`
unfoldable pub build_column_range_filter : ColumnRange → ColumnRangeFilter
build_column_range_filter cr = record {
  family = cr.family_name;
  start_qualifier = limit_of cr.start_qualifier;
  end_qualifier = limit_of cr.end_qualifier;
  start_inclusive = is_closed cr.start_qualifier;
  end_inclusive = is_closed cr.end_qualifier;
  range_set = is_set cr.start_qualifier || is_set cr.end_qualifier;
}

-- The test against the start: a start of length 0 is no limit.
unfoldable pub after_start : Bytes → Bool → Bytes → Bool
after_start [] inclusive b = true
after_start (c ∷ start) inclusive b =
    let cmp = compare_bytes b (c ∷ start) in
    if inclusive
    then elim cmp [ Ordering.lt ↦ false | _ ↦ true ]
    else elim cmp [ Ordering.gt ↦ true | _ ↦ false ]

-- The test against the end.
unfoldable pub before_end : Bytes → Bool → Bytes → Bool
before_end [] inclusive b = true
before_end (c ∷ end) inclusive b =
    let cmp = compare_bytes b (c ∷ end) in
    if inclusive
    then elim cmp [ Ordering.gt ↦ false | _ ↦ true ]
    else elim cmp [ Ordering.lt ↦ true | _ ↦ false ]

unfoldable pub column_range_evaluate : ColumnRangeFilter → CellInfo → Bool
unfolding after_start before_end
column_range_evaluate c cell =
    if not (equal_bytes c.family []) && not (equal_bytes cell.family c.family)
    then false
    else if not c.range_set
    then true
    else (after_start c.start_qualifier c.start_inclusive cell.qualifier
        && before_end c.end_qualifier c.end_inclusive cell.qualifier)

-- `timestampRangeFilter` has the fields of the message, so `buildTimestampRangeFilter` is the identity.
unfoldable pub timestamp_range_evaluate : TimestampRange → CellInfo → Bool
timestamp_range_evaluate t cell =
    if lt_int64 0 t.start_timestamp_micros && lt_int64 cell.ts t.start_timestamp_micros
    then false
    else if lt_int64 0 t.end_timestamp_micros && not (lt_int64 cell.ts t.end_timestamp_micros)
    then false
    else true

-- `valueRangeFilter` and `buildValueRangeFilter`
pub record ValueRangeFilter : Type 0 where
  pub start_value : Bytes
  pub end_value : Bytes
  pub start_inclusive : Bool
  pub end_inclusive : Bool

unfoldable pub build_value_range_filter : ValueRange → ValueRangeFilter
build_value_range_filter vr = record {
  start_value = limit_of vr.start_value;
  end_value = limit_of vr.end_value;
  start_inclusive = is_closed vr.start_value;
  end_inclusive = is_closed vr.end_value;
}

unfoldable pub value_range_evaluate : ValueRangeFilter → CellInfo → Bool
unfolding after_start before_end
value_range_evaluate v cell =
    after_start v.start_value v.start_inclusive cell.value
    && before_end v.end_value v.end_inclusive cell.value

-- The two loops of `valueBitmaskFilter`: over the mask, and over the value behind the mask.
unfoldable pub all_zero : Bytes → Bool
all_zero [] = true
all_zero (c ∷ cs) = if c == 0 then all_zero cs else false

unfoldable pub masked : Bytes → Bytes → Bool
unfolding all_zero
masked value [] = all_zero value
masked [] (m ∷ mask) = false
masked (c ∷ value) (m ∷ mask) = if bit_and c m == m then masked value mask else false

unfoldable pub value_bitmask_evaluate : Bytes → CellInfo → Bool
unfolding masked
value_bitmask_evaluate mask cell =
    if ltb (length cell.value) (length mask) then false else masked cell.value mask

-- `count > offset` and `count >= limit` for a count that is not negative
unfoldable pub exceeds : ℕ → ℤ → Bool
exceeds count (pos offset) = ltb offset count
exceeds count (negsuc n) = true

unfoldable pub reaches : ℕ → ℤ → Bool
reaches count (pos limit) = leb limit count
reaches count (negsuc n) = true
