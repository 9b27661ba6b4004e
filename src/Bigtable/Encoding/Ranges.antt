-- ===== src/Bigtable/Encoding/Ranges.antt =====
-- pkg/bigtable/encoding.go: which cells lie in the key ranges of a row, a family and a column
-- (`rowKeyRangeBounds`, `rowKeyFamilyBounds`, `rowKeyColumnBounds`). Their end keys are the prefix
-- and one byte 0xFF, so a cell whose key goes on with 0xFF is left out.
use cloudpebble.Base.{
  ℕ, ◌*◌, ◌/◌, ◌%◌, ◌≤◌, ◌<◌, ◌^◌, Bool, ◌&&◌, [], ◌∷◌, ◌++◌, ltb, length, ◌≡◌, sym, ◌∙◌, arith,
  Bool-cases, inl, inr, append_assoc,
}
use cloudpebble.Base.Order.{
  Bytes, equal_bytes, equal_bytes_iff, in_range, in_range-prefix, in_range-diverges_prefix,
}
use cloudpebble.Base.BigEndian.{put_uint64, be_bytes}
use cloudpebble.Bigtable.Encoding.{
  encode_row_prefix, encode_cell_key, inverted_timestamp, row_key_range_bounds,
  row_key_family_bounds, row_key_column_bounds,
}
use cloudpebble.Bigtable.Encoding.RowKeys.{encode_row_prefix-diverges}
use cloudpebble.Bigtable.Encoding.Prefixes.{
  family_part, column_part, family_prefix, column_prefix, encode_family_prefix_lem,
  encode_column_prefix_lem, encode_cell_key_lem, family_prefix-diverges, column_prefix-diverges,
}

-- whether a key lies in a pair of bounds
abbrev pub within : Bytes × Bytes → Bytes → Bool
within bounds key = in_range bounds.0 bounds.1 key

module _ (row family qualifier : Bytes) (ts : ℕ) (hf : length family ≤ 255)
    (hq : length qualifier ≤ 65535) where
  key_after_row :
      encode_cell_key row family qualifier ts
      ≡ encode_row_prefix row
        ++ length family
          ∷ ((family ++ 0 ∷ []) ++ (column_part qualifier ++ put_uint64 (inverted_timestamp ts)))
  key_after_row = encode_cell_key_lem row family qualifier ts hf hq

  pub key_after_family :
      encode_cell_key row family qualifier ts
      ≡ family_prefix row family ++ (column_part qualifier ++ put_uint64 (inverted_timestamp ts))
  key_after_family =
      encode_cell_key_lem row family qualifier ts hf hq
      ∙ sym (append_assoc (encode_row_prefix row) (family_part family) _)

  pub key_after_column :
      encode_cell_key row family qualifier ts
      ≡ column_prefix row family qualifier ++ put_uint64 (inverted_timestamp ts)
  key_after_column =
      key_after_family ∙ sym (append_assoc (family_prefix row family) (column_part qualifier) _)

  -- The bounds of row `r` hold, of the cells with names within the limits of the encoding, exactly
  -- those of that row in families shorter than 255 bytes.
  pub within-row_key_range_bounds :
      (r : Bytes)
      → within (row_key_range_bounds r) (encode_cell_key row family qualifier ts)
        ≡ (equal_bytes r row && ltb (length family) 255)
  unfolding row_key_range_bounds
  within-row_key_range_bounds r = rw key_after_row (elim (Bool-cases (equal_bytes r row)) [
    | inl e ↦
        rw (e, (equal_bytes_iff r row).0 e)
          (in_range-prefix (encode_row_prefix row) 255 (length family) _)
    | inr ne ↦ rw ne (
        in_range-diverges_prefix (encode_row_prefix r) (255 ∷ []) (encode_row_prefix row) _
          (encode_row_prefix-diverges r row ne))
  ])

  in_range-qualifier :
      (p : Bytes) (x : Bytes)
      → in_range p (p ++ 255 ∷ []) (p ++ (column_part qualifier ++ x))
        ≡ ltb (length qualifier) 65280
  unfolding be_bytes
  in_range-qualifier p x = in_range-prefix p 255 (length qualifier / 256 % 256) _ ∙ ground arith

  -- The bounds of family `f` in row `r` hold, of the cells with names within the limits of the
  -- encoding, exactly those of that family and row whose qualifier is shorter than 65280 bytes.
  pub within-row_key_family_bounds :
      (r f : Bytes)
      → length f ≤ 255
      → within (row_key_family_bounds r f) (encode_cell_key row family qualifier ts)
        ≡ ((equal_bytes r row && equal_bytes f family) && ltb (length qualifier) 65280)
  unfolding row_key_family_bounds
  within-row_key_family_bounds r f hf' =
      rw (encode_family_prefix_lem (encode_row_prefix r) f hf', key_after_family)
        (elim (Bool-cases (equal_bytes r row && equal_bytes f family)) [
          | inl e ↦
              let er : r ≡ row = (equal_bytes_iff r row).0 (ground arith) in
              let ef : f ≡ family = (equal_bytes_iff f family).0 (ground arith) in
              rw (e, er, ef) (in_range-qualifier (family_prefix row family) _)
          | inr ne ↦ rw ne (
              in_range-diverges_prefix (family_prefix r f) (255 ∷ []) _ _
                (family_prefix-diverges r row f family ne))
        ])

  in_range-timestamp :
      (p : Bytes) (v : ℕ)
      → v < 2 ^ 64
      → in_range p (p ++ 255 ∷ []) (p ++ put_uint64 v) ≡ ltb v (255 * 2 ^ 56)
  unfolding be_bytes
  in_range-timestamp p v h =
      in_range-prefix p 255 (v / 256 / 256 / 256 / 256 / 256 / 256 / 256 % 256) _ ∙ ground arith

  -- The bounds of a column hold, of the cells with names within the limits of the encoding, exactly
  -- those of that column whose inverted timestamp is below 255 * 2 ^ 56.
  pub within-row_key_column_bounds :
      (r f q : Bytes)
      → length f ≤ 255
      → length q ≤ 65535
      → within (row_key_column_bounds r f q) (encode_cell_key row family qualifier ts) ≡ (
          (equal_bytes r row && equal_bytes f family && equal_bytes q qualifier)
          && ltb (inverted_timestamp ts) (255 * 2 ^ 56))
  unfolding row_key_column_bounds
  within-row_key_column_bounds r f q hf' hq' =
      rw
        (
          encode_family_prefix_lem (encode_row_prefix r) f hf',
          encode_column_prefix_lem (family_prefix r f) q hq',
          key_after_column,
        )
        (elim (Bool-cases (equal_bytes r row && equal_bytes f family && equal_bytes q qualifier)) [
          | inl e ↦
              let er : r ≡ row = (equal_bytes_iff r row).0 (ground arith) in
              let ef : f ≡ family = (equal_bytes_iff f family).0 (ground arith) in
              let eq : q ≡ qualifier = (equal_bytes_iff q qualifier).0 (ground arith) in
              rw (e, er, ef, eq)
                (in_range-timestamp (column_prefix row family qualifier) (inverted_timestamp ts)
                  (unfold inverted_timestamp in omega arith))
          | inr ne ↦ rw ne (
              in_range-diverges_prefix (column_prefix r f q) (255 ∷ []) _ _
                (column_prefix-diverges r row f family q qualifier hq' hq ne))
        ])
