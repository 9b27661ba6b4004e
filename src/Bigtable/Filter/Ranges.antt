-- ===== src/Bigtable/Filter/Ranges.antt =====
-- pkg/bigtable/filter.go: the column and value ranges and the bitmask against what the message says
-- (proto/google/bigtable/v2/data.proto).
use Prim.Native.Nat.{bit_and}
use cloudpebble.Base.{
  ℕ, Bool, true, false, ◌&&◌, [], ◌∷◌, ◌++◌, ◌==◌, length, ◌≡◌, refl, arith, replicate,
  length-append,
}
use cloudpebble.Base.Order.{Bytes, compare_bytes, lt_bytes, le_bytes, equal_bytes}
use cloudpebble.Bigtable.Filter.Message.{Bound, unset, closed, exclusive}
use cloudpebble.Bigtable.Filter.Leaves.{
  CellInfo, build_column_range_filter, column_range_evaluate, value_bitmask_evaluate, masked,
  all_zero, after_start, before_end,
}

-- what the message says of a start and of an end
abbrev pub from_start : Bound → Bytes → Bool
from_start unset b = true
from_start (closed s) b = le_bytes s b
from_start (exclusive s) b = lt_bytes s b

abbrev pub to_end : Bound → Bytes → Bool
to_end unset b = true
to_end (closed e) b = le_bytes b e
to_end (exclusive e) b = lt_bytes b e

-- An exclusive start at the empty qualifier is not kept to: the cell with the empty qualifier passes,
-- though the range begins behind it.
pub column_range_open_start :
    (family : Bytes) (cell : CellInfo)
    → equal_bytes cell.family family ≡ true
    → cell.qualifier ≡ []
    → (column_range_evaluate
          (build_column_range_filter (record {
            family_name = family;
            start_qualifier = exclusive [];
            end_qualifier = unset;
          }))
          cell
        ≡ true)
      × (from_start (exclusive []) cell.qualifier ≡ false)
unfolding column_range_evaluate build_column_range_filter compare_bytes after_start before_end
column_range_open_start family cell h q = ground arith

-- every byte of the value has the bits of the mask's byte, for lists of one length
abbrev pub has_bits : Bytes → Bytes → Bool
has_bits [] [] = true
has_bits (c ∷ value) (m ∷ mask) = bit_and c m == m && has_bits value mask
has_bits [] (m ∷ mask) = false
has_bits (c ∷ value) [] = false

masked-same_length :
    (value mask : Bytes) → length value ≡ length mask → masked value mask ≡ has_bits value mask
unfolding masked
masked-same_length [] [] h = refl
masked-same_length [] (m ∷ mask) h = absurd (omega arith)
masked-same_length (c ∷ value) [] h = absurd (omega arith)
masked-same_length (c ∷ value) (m ∷ mask) h = ground (arith, masked-same_length value mask)

masked-padded :
    (value mask : Bytes) (n : ℕ)
    → length value ≡ length mask
    → masked (value ++ replicate n 0) mask ≡ has_bits value mask
unfolding masked
masked-padded [] [] n h = zeros n
  where
    zeros : (n : ℕ) → all_zero (replicate n 0) ≡ true
    zeros ℕ.zero = refl
    zeros (ℕ.suc n) = zeros n
masked-padded [] (m ∷ mask) n h = absurd (omega arith)
masked-padded (c ∷ value) [] n h = absurd (omega arith)
masked-padded (c ∷ value) (m ∷ mask) n h = ground (arith, masked-padded value mask n)

-- The bitmask filter on a value as long as its mask is the test that the message states.
pub value_bitmask_evaluate_lem :
    (mask : Bytes) (cell : CellInfo)
    → length cell.value ≡ length mask
    → value_bitmask_evaluate mask cell ≡ has_bits cell.value mask
unfolding value_bitmask_evaluate
value_bitmask_evaluate_lem mask cell h = ground (arith, masked-same_length cell.value mask h)

-- A value that is longer than the mask is no match by the message, and yet passes when its first
-- bytes have the bits of the mask and the others are zero.
pub value_bitmask_longer :
    (mask value : Bytes) (n : ℕ) (cell : CellInfo)
    → length value ≡ length mask
    → cell.value ≡ value ++ replicate n 0
    → has_bits value mask ≡ true
    → value_bitmask_evaluate mask cell ≡ true
unfolding value_bitmask_evaluate
value_bitmask_longer mask value n cell h e b =
    rw e (ground (arith, masked-padded value mask n h, length-append value (replicate n 0)))
