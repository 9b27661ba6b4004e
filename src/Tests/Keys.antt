-- ===== src/Tests/Keys.antt =====
-- Theorems on cell keys, key ranges and the write-ahead log at concrete inputs.
use cloudpebble.Base.{
  ◌%◌, ◌^◌, ◌&&◌, some, [], ◌∷◌, ◌++◌, ltb, length, ◌≡◌, ◌≢◌, refl, ap, arith, compare, take, drop,
}
use cloudpebble.Base.Order.{Bytes, compare_bytes, equal_bytes}
use cloudpebble.Base.Int64.{biased}
use cloudpebble.Base.BigEndian.{from_be}
use cloudpebble.Pebble.{bounded}
use cloudpebble.Bigtable.Encoding.{
  encode_row_prefix, encode_cell_key, row_key_range_bounds, timestamp_from_inverted,
}
use cloudpebble.Bigtable.Encoding.Decoder.{
  CellKey, decode_cell_key, scan_row, parse_family, parse_qualifier, parse_timestamp, row_of,
}
use cloudpebble.Bigtable.Encoding.RowKeys.{compare_bytes-encode_row_prefix}
use cloudpebble.Bigtable.Encoding.RoundTrip.{decode_cell_key-encode_cell_key}
use cloudpebble.Bigtable.Encoding.Canonical.{key_of, IsCellKey, encode_cell_key-decode_cell_key}
use cloudpebble.Bigtable.Encoding.Ranges.{within, within-row_key_range_bounds}
use cloudpebble.Bigtable.Encoding.Times.{compare_bytes-encode_cell_key}
use cloudpebble.Bigtable.ReadRows.{RowRange, start_key_open, end_key_closed, row_range_to_bounds}
use cloudpebble.Bigtable.ReadRows.Bounds.{after_start, before_end, bounded-row_range_to_bounds}
use cloudpebble.Wal.Batches.{
  merge_batch_segments, merge_batch_segments-parts, batch_count, records, bodies, all_valid,
}
use cloudpebble.Wal.Paths.{wal_path, parse_wal_seq, parse_wal_seq-wal_path}

-- a row key with a null byte
abbrev row : Bytes
row = 97 ∷ 0 ∷ []

abbrev family : Bytes
family = 102 ∷ []

abbrev qualifier : Bytes
qualifier = 113 ∷ []

abbrev cell : CellKey
cell = record { row_key = row; family = family; qualifier = qualifier; timestamp_micros = 5 }

-- the key of `cell`
abbrev cell_bytes : Bytes
cell_bytes =
    97 ∷ 0 ∷ 255 ∷ 0 ∷ 0 ∷ 1 ∷ 102 ∷ 0 ∷ 0 ∷ 1 ∷ 113 ∷ 0 ∷ 127 ∷ 255 ∷ 255 ∷ 255 ∷ 255 ∷ 255 ∷ 255
    ∷ 250 ∷ []

decode_cell_key-encode_cell_key_example :
    decode_cell_key (encode_cell_key row family qualifier 5) ≡ some cell
decode_cell_key-encode_cell_key_example =
    decode_cell_key-encode_cell_key row family qualifier 5 (omega arith) (omega arith) (omega arith)

cell_bytes-decode : decode_cell_key cell_bytes ≡ some cell
unfolding decode_cell_key scan_row parse_family parse_qualifier from_be parse_timestamp row_of
    timestamp_from_inverted
cell_bytes-decode = refl

encode_cell_key-decode_cell_key_example : (key_of cell ≡ cell_bytes) × IsCellKey cell
encode_cell_key-decode_cell_key_example =
    encode_cell_key-decode_cell_key cell_bytes cell (ground arith) cell_bytes-decode

short-ne_row : (97 ∷ []) ≢ row
short-ne_row e = let l : 1 ≡ 2 = ap length e in absurd (omega (arith, l))

compare_bytes-encode_row_prefix_example :
    compare_bytes (encode_row_prefix (97 ∷ []) ++ 255 ∷ []) (encode_row_prefix row ++ 1 ∷ [])
    ≡ compare_bytes (97 ∷ []) row
compare_bytes-encode_row_prefix_example =
    compare_bytes-encode_row_prefix (97 ∷ []) row (255 ∷ []) (1 ∷ []) short-ne_row

compare_bytes-encode_cell_key_example :
    compare_bytes (encode_cell_key row family qualifier 5) (encode_cell_key row family qualifier 7)
    ≡ compare (biased 7) (biased 5)
compare_bytes-encode_cell_key_example =
    compare_bytes-encode_cell_key row family qualifier 5 7 (omega arith) (omega arith) (omega arith)
      (omega arith)

within-row_key_range_bounds_example :
    within (row_key_range_bounds (97 ∷ [])) (encode_cell_key row family qualifier 5)
    ≡ (equal_bytes (97 ∷ []) row && ltb (length family) 255)
within-row_key_range_bounds_example =
    within-row_key_range_bounds row family qualifier 5 (omega arith) (omega arith) (97 ∷ [])

abbrev range : RowRange
range = record { start_key = start_key_open (97 ∷ []); end_key = end_key_closed row }

bounded-row_range_to_bounds_example :
    bounded
      (row_range_to_bounds range).0
      (row_range_to_bounds range).1
      (encode_cell_key row family qualifier 5)
    ≡ (after_start (start_key_open (97 ∷ [])) row && before_end (end_key_closed row) row)
bounded-row_range_to_bounds_example =
    bounded-row_range_to_bounds range row family qualifier 5 (omega arith) (omega arith)

-- batches of one record and of two
abbrev one : Bytes
one = 1 ∷ 0 ∷ 0 ∷ 0 ∷ 0 ∷ 0 ∷ 0 ∷ 0 ∷ 1 ∷ 0 ∷ 0 ∷ 0 ∷ 65 ∷ []

abbrev two : Bytes
two = 9 ∷ 0 ∷ 0 ∷ 0 ∷ 0 ∷ 0 ∷ 0 ∷ 0 ∷ 2 ∷ 0 ∷ 0 ∷ 0 ∷ 66 ∷ 67 ∷ []

merge_batch_segments-parts_example :
    (take 8 (merge_batch_segments (one ∷ two ∷ [])) ≡ take 8 one)
    × (batch_count (merge_batch_segments (one ∷ two ∷ [])) ≡ records (one ∷ two ∷ []) % 2 ^ 32)
    × (drop 12 (merge_batch_segments (one ∷ two ∷ [])) ≡ bodies (one ∷ two ∷ []))
unfolding all_valid
merge_batch_segments-parts_example = merge_batch_segments-parts one two [] refl (ground arith)

parse_wal_seq-wal_path_example : parse_wal_seq (wal_path family 42) ≡ some 42
parse_wal_seq-wal_path_example = parse_wal_seq-wal_path family 42 (omega arith)
