-- ===== src/Bigtable/ReadRows.antt =====
-- pkg/bigtable/readrows.go: the chunks of a cell, and the key bounds of a row range. An `int32` or
-- `int64` field that is not set is 0, a bytes field that is not set is empty.
pub mod Scan
pub mod Chunks
pub mod Bounds
pub mod Streamed
pub mod Stream
use cloudpebble.Base.{
  ℕ, zero, suc, ◌+◌, ◌-◌, ◌^◌, Option, none, some, List, [], ◌∷◌, ◌++◌, ◌==◌, ltb, leb,
  if◌then◌else◌, length, take, drop, min,
}
use cloudpebble.Base.Order.{Bytes}
use cloudpebble.Bigtable.Encoding.{encode_row_prefix, row_end_key}

abbrev pub cell_chunk_buffer_size : ℕ
cell_chunk_buffer_size = 100

abbrev pub max_cell_chunk_value_size : ℕ
max_cell_chunk_value_size = 65536

-- `math.MaxInt32`
abbrev pub max_int32 : ℕ
max_int32 = 2 ^ 31 - 1

pub data RowStatus : Type 0 where
  commit_row reset_row : RowStatus

-- `ReadRowsResponse_CellChunk`; the wrapped family and qualifier may be absent
pub record CellChunk : Type 0 where
  pub row_key : Bytes
  pub family_name : Option Bytes
  pub qualifier : Option Bytes
  pub timestamp_micros : ℕ
  pub labels : List Bytes
  pub value : Bytes
  pub value_size : ℕ
  pub row_status : Option RowStatus

abbrev wrapped : Bytes → Option Bytes
wrapped [] = none
wrapped (c ∷ cs) = some (c ∷ cs)

-- `cellChunk`
unfoldable pub cell_chunk : Bytes → Bytes → Bytes → ℕ → Bytes → List Bytes → CellChunk
cell_chunk row_key family qualifier timestamp_micros value labels = record {
  row_key = row_key;
  family_name = wrapped family;
  qualifier = wrapped qualifier;
  timestamp_micros = timestamp_micros;
  labels = labels;
  value = value;
  value_size = 0;
  row_status = none;
}

-- a chunk that carries only a value
abbrev pub continuation : Bytes → CellChunk
continuation value = record {
  row_key = [];
  family_name = none;
  qualifier = none;
  timestamp_micros = 0;
  labels = [];
  value = value;
  value_size = 0;
  row_status = none;
}

-- The chunk that the loop of `appendCellChunks` makes at `offset`.
unfoldable pub chunk_at : Bytes → Bytes → Bytes → ℕ → Bytes → ℕ → CellChunk
unfolding cell_chunk
chunk_at row_key family qualifier timestamp_micros value offset =
    let total_size = length value in
    let end_offset = min (offset + max_cell_chunk_value_size) total_size in
    let part = take (end_offset - offset) (drop offset value) in
    let chunk =
      if offset == 0
      then cell_chunk row_key family qualifier timestamp_micros part []
      else continuation part in
    if ltb end_offset total_size
    then record chunk { value_size = if ltb max_int32 total_size then max_int32 else total_size }
    else chunk

-- The loop from `offset` on; fuel of the value's length is enough, as every chunk takes a byte.
unfoldable pub chunks_from : ℕ → Bytes → Bytes → Bytes → ℕ → Bytes → ℕ → List CellChunk
unfolding chunk_at
chunks_from zero row_key family qualifier timestamp_micros value offset = []
chunks_from (suc fuel) row_key family qualifier timestamp_micros value offset =
    let rest =
      chunks_from fuel row_key family qualifier timestamp_micros value
        (offset + max_cell_chunk_value_size) in
    if ltb offset (length value)
    then chunk_at row_key family qualifier timestamp_micros value offset ∷ rest
    else []

-- `appendCellChunks`
unfoldable pub append_cell_chunks :
    List CellChunk → Bytes → Bytes → Bytes → ℕ → Bytes → List CellChunk
unfolding cell_chunk chunks_from
append_cell_chunks buf row_key family qualifier timestamp_micros value =
    if leb (length value) max_cell_chunk_value_size
    then buf ++ cell_chunk row_key family qualifier timestamp_micros value [] ∷ []
    else buf ++ chunks_from (length value) row_key family qualifier timestamp_micros value 0

pub data StartKey : Type 0 where
  start_key_closed start_key_open : Bytes → StartKey
  start_unset : StartKey

pub data EndKey : Type 0 where
  end_key_closed end_key_open : Bytes → EndKey
  end_unset : EndKey

-- `bigtablepb.RowRange`
pub record RowRange : Type 0 where
  pub start_key : StartKey
  pub end_key : EndKey

unfoldable pub start_bound : StartKey → Option Bytes
start_bound (start_key_closed row) = some (encode_row_prefix row)
start_bound (start_key_open row) = some (encode_row_prefix row ++ 255 ∷ [])
start_bound start_unset = none

unfoldable pub end_bound : EndKey → Option Bytes
end_bound (end_key_closed row) = some (row_end_key (encode_row_prefix row))
end_bound (end_key_open row) = some (encode_row_prefix row)
end_bound end_unset = none

-- `rowRangeToBounds`; a nil bound is `none`
unfoldable pub row_range_to_bounds : RowRange → Option Bytes × Option Bytes
unfolding start_bound end_bound
row_range_to_bounds rr = (start_bound rr.start_key, end_bound rr.end_key)
