-- ===== src/Bigtable/Encoding/RoundTrip.antt =====
-- pkg/bigtable/encoding.go: `DecodeCellKey` reads back what `EncodeCellKey` writes, and accepts
-- nothing else.
use cloudpebble.Base.{
  ℕ, ◌+◌, ◌≤◌, ◌<◌, ◌^◌, true, false, some, [], ◌∷◌, ◌++◌, ◌==◌, ltb, length, take, drop, ◌≡◌, refl,
  ap, ◌∙◌, arith, Bool-cases, inl, inr, append_assoc, take-append_exact, drop-append_exact,
  get_elem?-append_exact, length-append, ◌/◌, ◌%◌,
}
use native.Mathlib.Nat.{zero-add}
use cloudpebble.Base.Order.{Bytes}
use cloudpebble.Base.BigEndian.{put_uint64, be_bytes, uint, from_be-be_bytes, length-be_bytes}
use cloudpebble.Bigtable.Encoding.{null_count, encode_cell_key, inverted_timestamp}
use cloudpebble.Bigtable.Encoding.RowKeys.{escape, encode_row_prefix-escape}
use cloudpebble.Bigtable.Encoding.Prefixes.{family_part, column_part, encode_cell_key_lem}
use cloudpebble.Bigtable.Encoding.Times.{
  timestamp_from_inverted-inverted_timestamp, inverted_timestamp-lt,
}
use cloudpebble.Bigtable.Encoding.Decoder.{
  scan_row, unescape, row_of, sentinel_at, parse_family, parse_qualifier, parse_timestamp,
  decode_cell_key,
}

pub scan_row-cons :
    (c : ℕ) (rest : Bytes) (pos esc : ℕ)
    → (c == 0) ≡ false
    → scan_row (c ∷ rest) pos esc ≡ scan_row rest (pos + 1) esc
unfolding scan_row
scan_row-cons c [] pos esc h = refl
scan_row-cons c (d ∷ rest) pos esc h = rw (h, scan_row)

unescape-cons : (c : ℕ) (rest : Bytes) → (c == 0) ≡ false → unescape (c ∷ rest) ≡ c ∷ unescape rest
unfolding unescape
unescape-cons c [] h = refl
unescape-cons c (d ∷ rest) h = rw (h, unescape)

-- The scan stops behind the terminator of an escaped row key, having counted its null bytes.
scan_row-escape :
    (row x : Bytes) (pos esc : ℕ)
    → scan_row (escape row ++ (0 ∷ 0 ∷ x)) pos esc
      ≡ some (pos + length (escape row), esc + null_count row, x)
unfolding scan_row escape null_count
scan_row-escape [] x pos esc = ground arith
scan_row-escape (c ∷ cs) x pos esc = elim (Bool-cases (c == 0)) [
  | inl z ↦ rw z (scan_row-escape cs x (pos + 2) (esc + 1) ∙ ground arith)
  | inr nz ↦ rw nz (
      scan_row-cons c (escape cs ++ (0 ∷ 0 ∷ x)) pos esc nz
      ∙ scan_row-escape cs x (pos + 1) esc
      ∙ ground arith)
]

unescape-escape : (row : Bytes) → unescape (escape row) ≡ row
unfolding unescape escape
unescape-escape [] = refl
unescape-escape (c ∷ cs) = elim (Bool-cases (c == 0)) [
  | inl z ↦ rw z (ground (arith, unescape-escape cs))
  | inr nz ↦ rw nz (unescape-cons c (escape cs) nz ∙ ap (◌∷◌ c) (unescape-escape cs))
]

escape-no_nulls : (row : Bytes) → null_count row ≡ 0 → escape row ≡ row
unfolding escape null_count
escape-no_nulls [] h = refl
escape-no_nulls (c ∷ cs) h = ground (arith, escape-no_nulls cs)

-- The row key that the decoder returns, on both its paths.
pub row_of-escape :
    (row x : Bytes) → row_of (escape row ++ x) (length (escape row)) (null_count row) ≡ row
unfolding row_of
row_of-escape row x =
    rw (take-append_exact (escape row) x, unescape-escape row)
      (elim (Bool-cases (ltb 0 (null_count row))) [
        | inl e ↦ rw e
        | inr none_left ↦ rw none_left (escape-no_nulls row (ground arith))
      ])

-- A field of `n` bytes, its sentinel and what follows.
sentinel_at-field : (f y : Bytes) → sentinel_at (length f) ((f ++ 0 ∷ []) ++ y) ≡ true
unfolding sentinel_at
sentinel_at-field f y =
    rw (append_assoc f (0 ∷ []) y) (ground (arith, get_elem?-append_exact f 0 y))

take_field : (f y : Bytes) → take (length f) ((f ++ 0 ∷ []) ++ y) ≡ f
take_field f y = rw (append_assoc f (0 ∷ []) y) (take-append_exact f (0 ∷ y))

drop_field : (f y : Bytes) → drop (length f + 1) ((f ++ 0 ∷ []) ++ y) ≡ y
drop_field f y = rw (← length-append f (0 ∷ [])) (drop-append_exact (f ++ 0 ∷ []) y)

parse_family-family_part : (f y : Bytes) → parse_family (family_part f ++ y) ≡ some (f, y)
unfolding parse_family
parse_family-family_part f y = rw (sentinel_at-field f y, take_field f y, drop_field f y)

parse_qualifier-column_part :
    (q y : Bytes) → length q ≤ 65535 → parse_qualifier (column_part q ++ y) ≡ some (q, y)
unfolding parse_qualifier be_bytes
parse_qualifier-column_part q y h =
    let n : uint ((length q / 256 % 256) ∷ (length q % 256) ∷ []) ≡ length q =
      from_be-be_bytes 2 (length q) (omega arith) in
    rw n (rw (sentinel_at-field q y, take_field q y, drop_field q y))

parse_timestamp-put_uint64 :
    (t : ℕ) → t < 2 ^ 64 → parse_timestamp (put_uint64 (inverted_timestamp t)) ≡ some t
unfolding parse_timestamp
parse_timestamp-put_uint64 t h = rw (
  length-be_bytes 8 (inverted_timestamp t),
  from_be-be_bytes 8 (inverted_timestamp t) (inverted_timestamp-lt t),
  timestamp_from_inverted-inverted_timestamp t h,
)

-- Decoding an encoded cell key gives back its row key, family, qualifier and timestamp, for a family
-- of at most 255 bytes, a qualifier of at most 65535 and any int64 timestamp.
pub decode_cell_key-encode_cell_key :
    (row family qualifier : Bytes) (ts : ℕ)
    → length family ≤ 255
    → length qualifier ≤ 65535
    → ts < 2 ^ 64
    → decode_cell_key (encode_cell_key row family qualifier ts)
      ≡ some
          (record { row_key = row; family = family; qualifier = qualifier; timestamp_micros = ts })
unfolding decode_cell_key
decode_cell_key-encode_cell_key row family qualifier ts hf hq ht =
    rw
      (
        encode_cell_key_lem row family qualifier ts hf hq,
        encode_row_prefix-escape row,
        append_assoc (escape row) (0 ∷ 0 ∷ []),
      )
      (let rest = column_part qualifier ++ put_uint64 (inverted_timestamp ts) in
        rw (
          scan_row-escape row (family_part family ++ rest) 0 0,
          parse_family-family_part family rest,
          parse_qualifier-column_part qualifier (put_uint64 (inverted_timestamp ts)) hq,
          parse_timestamp-put_uint64 ts ht,
          zero-add,
          zero-add,
          row_of-escape row (0 ∷ 0 ∷ (family_part family ++ rest)),
        ))
