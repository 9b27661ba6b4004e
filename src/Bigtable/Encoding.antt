-- ===== src/Bigtable/Encoding.antt =====
-- pkg/bigtable/encoding.go: the encoders, and the key ranges that the handlers scan and delete.
-- A Go `nil` slice is the empty list; buffers that are made and filled in one go are appends.
-- `encode_row_prefix_escaped` keeps its buffer, the write position and the two passes.
pub mod Decoder
pub mod RowKeys
pub mod RoundTrip
pub mod Prefixes
pub mod Ranges
pub mod Times
pub mod Canonical
use cloudpebble.Base.{
  ℕ, ◌+◌, ◌-◌, Bool, List, [], ◌∷◌, ◌++◌, ◌==◌, ltb, if◌then◌else◌, length, set, replicate,
}
use cloudpebble.Base.Order.{Bytes, has_prefix}
use cloudpebble.Base.BigEndian.{put_uint16, put_uint64}
use cloudpebble.Base.Int64.{max_int64, minus_one, add64, sub64}

-- `MaxInt64 - t` at int64, read as uint64
unfoldable pub inverted_timestamp : ℕ → ℕ
inverted_timestamp timestamp_micros = sub64 max_int64 timestamp_micros

unfoldable pub timestamp_from_inverted : ℕ → ℕ
timestamp_from_inverted inv = sub64 max_int64 inv

-- `slices.Contains(rowKey, 0x00)`
unfoldable pub contains_null : Bytes → Bool
contains_null [] = Bool.false
contains_null (c ∷ cs) = if c == 0 then Bool.true else contains_null cs

-- the first loop of `encodeRowPrefixEscaped`
unfoldable pub null_count : Bytes → ℕ
null_count [] = 0
null_count (c ∷ cs) = (if c == 0 then 1 else 0) + null_count cs

-- the second loop, over the row key left, the position `pos` and the buffer
unfoldable pub write_escaped : Bytes → ℕ → Bytes → Bytes
write_escaped [] pos buf = buf
write_escaped (c ∷ cs) pos buf =
    write_escaped cs (if c == 0 then pos + 2 else pos + 1)
      (if c == 0 then set (set buf pos 0) (pos + 1) 255 else set buf pos c)

unfoldable pub encode_row_prefix_escaped : Bytes → Bytes
unfolding write_escaped null_count
encode_row_prefix_escaped row_key =
    let escaped_len = length row_key + null_count row_key in
    let buf = write_escaped row_key 0 (replicate (escaped_len + 2) 0) in
    set (set buf escaped_len 0) (escaped_len + 1) 0

unfoldable pub encode_row_prefix : Bytes → Bytes
unfolding contains_null encode_row_prefix_escaped
encode_row_prefix row_key =
    if contains_null row_key then encode_row_prefix_escaped row_key else row_key ++ 0 ∷ 0 ∷ []

-- [row_prefix][family_len:1][family][0x00], or nil for a family of more than 255 bytes
unfoldable pub encode_family_prefix : Bytes → Bytes → Bytes
encode_family_prefix row_prefix family =
    if ltb 255 (length family) then [] else row_prefix ++ (length family ∷ (family ++ 0 ∷ []))

-- [family_prefix][qual_len:2][qualifier][0x00], or nil for a qualifier of more than 65535 bytes
unfoldable pub encode_column_prefix : Bytes → Bytes → Bytes
encode_column_prefix family_prefix qualifier =
    if ltb 65535 (length qualifier)
    then []
    else family_prefix ++ (put_uint16 (length qualifier) ++ (qualifier ++ 0 ∷ []))

-- `EncodeCellKey`
unfoldable pub encode_cell_key : Bytes → Bytes → Bytes → ℕ → Bytes
encode_cell_key row_key family qualifier timestamp_micros =
    let rp = encode_row_prefix row_key in
    let fp = encode_family_prefix rp family in
    let cp = encode_column_prefix fp qualifier in
    cp ++ put_uint64 (inverted_timestamp timestamp_micros)

unfoldable pub row_end_key : Bytes → Bytes
row_end_key row_prefix = row_prefix ++ 255 ∷ []

unfoldable pub family_end_key : Bytes → Bytes
family_end_key family_prefix = family_prefix ++ 255 ∷ []

unfoldable pub column_end_key : Bytes → Bytes
column_end_key column_prefix = column_prefix ++ 255 ∷ []

-- `inv + 1` at uint64, with MaxUint64 in place of a wrapped 0
unfoldable pub shifted : ℕ → ℕ
shifted inv = let next = add64 inv 1 in if next == 0 then minus_one else next

unfoldable pub encode_timestamp_range_bounds : Bytes → ℕ → ℕ → Bytes × Bytes
unfolding shifted
encode_timestamp_range_bounds column_prefix start_micros end_micros =
    let start_inv = inverted_timestamp start_micros in
    let end_inv = inverted_timestamp end_micros in
    (column_prefix ++ put_uint64 (shifted end_inv), column_prefix ++ put_uint64 (shifted start_inv))

unfoldable pub row_key_range_bounds : Bytes → Bytes × Bytes
unfolding row_end_key
row_key_range_bounds row_key = let rp = encode_row_prefix row_key in (rp, row_end_key rp)

unfoldable pub row_key_family_bounds : Bytes → Bytes → Bytes × Bytes
unfolding family_end_key
row_key_family_bounds row_key family =
    let fp = encode_family_prefix (encode_row_prefix row_key) family in (fp, family_end_key fp)

unfoldable pub row_key_column_bounds : Bytes → Bytes → Bytes → Bytes × Bytes
unfolding column_end_key
row_key_column_bounds row_key family qualifier =
    let fp = encode_family_prefix (encode_row_prefix row_key) family in
    let cp = encode_column_prefix fp qualifier in (cp, column_end_key cp)

unfoldable pub key_has_row_prefix : Bytes → Bytes → Bool
key_has_row_prefix key row_key = has_prefix key (encode_row_prefix row_key)
