-- ===== src/Bigtable/Encoding/Times.antt =====
-- pkg/bigtable/encoding.go: inverted timestamps, the order of the cells of a column, and the key
-- range of a timestamp range. Timestamps are int64 bit patterns.
use cloudpebble.Base.{
  ℕ, ◌≤◌, ◌<◌, ◌^◌, true, not, ◌&&◌, ◌++◌, ltb, leb, length, ◌≡◌, ◌≢◌, ◌↔◌, ◌∙◌, arith, Bool-cases,
  inl, inr, compare,
}
use cloudpebble.Base.Order.{
  Bytes, compare_bytes, compare_bytes_append, equal_bytes, equal_bytes_iff, in_range,
  in_range-diverges,
}
use cloudpebble.Base.BigEndian.{put_uint64, compare_bytes-be_bytes}
use cloudpebble.Base.Int64.{lt_int64, biased, signed, ◌<ℤ◌}
use cloudpebble.Bigtable.Encoding.{
  encode_row_prefix, encode_family_prefix, encode_column_prefix, encode_cell_key,
  inverted_timestamp, timestamp_from_inverted, encode_timestamp_range_bounds, shifted,
}
use cloudpebble.Bigtable.Encoding.Prefixes.{
  column_prefix, family_prefix, encode_family_prefix_lem, encode_column_prefix_lem,
  column_prefix-diverges,
}
use cloudpebble.Bigtable.Encoding.Ranges.{within, key_after_column}

-- Inverting twice gives the timestamp back, for every int64.
pub timestamp_from_inverted-inverted_timestamp :
    (t : ℕ) → t < 2 ^ 64 → timestamp_from_inverted (inverted_timestamp t) ≡ t
unfolding timestamp_from_inverted inverted_timestamp
timestamp_from_inverted-inverted_timestamp t h = omega arith

pub inverted_timestamp-timestamp_from_inverted :
    (v : ℕ) → v < 2 ^ 64 → inverted_timestamp (timestamp_from_inverted v) ≡ v
unfolding timestamp_from_inverted inverted_timestamp
inverted_timestamp-timestamp_from_inverted v h = omega arith

pub inverted_timestamp-lt : (t : ℕ) → inverted_timestamp t < 2 ^ 64
unfolding inverted_timestamp
inverted_timestamp-lt t = omega arith

-- The test on patterns is the order of the integers that they stand for.
pub lt_int64_iff :
    (s t : ℕ) → s < 2 ^ 64 → t < 2 ^ 64 → (lt_int64 s t ≡ true) ↔ ◌<ℤ◌ (signed s) (signed t)
unfolding signed
lt_int64_iff s t hs ht = ground arith

-- Inverted timestamps compare the other way round, over all of int64.
pub compare-inverted_timestamp :
    (s t : ℕ)
    → s < 2 ^ 64
    → t < 2 ^ 64
    → compare (inverted_timestamp s) (inverted_timestamp t) ≡ compare (biased t) (biased s)
unfolding inverted_timestamp
compare-inverted_timestamp s t hs ht = ground arith

-- The cells of one column, its names within the limits of the encoding, are in the order of their
-- int64 timestamps, the newest first.
pub compare_bytes-encode_cell_key :
    (row family qualifier : Bytes) (s t : ℕ)
    → length family ≤ 255
    → length qualifier ≤ 65535
    → s < 2 ^ 64
    → t < 2 ^ 64
    → compare_bytes
        (encode_cell_key row family qualifier s)
        (encode_cell_key row family qualifier t)
      ≡ compare (biased t) (biased s)
compare_bytes-encode_cell_key row family qualifier s t hf hq hs ht =
    rw
      (key_after_column row family qualifier s hf hq, key_after_column row family qualifier t hf hq)
      (compare_bytes_append (column_prefix row family qualifier) _ _
        ∙ compare_bytes-be_bytes 8 (inverted_timestamp s) (inverted_timestamp t)
            (inverted_timestamp-lt s) (inverted_timestamp-lt t)
        ∙ compare-inverted_timestamp s t hs ht)

in_range-put_uint64 :
    (p : Bytes) (a b v : ℕ)
    → a < 2 ^ 64
    → b < 2 ^ 64
    → v < 2 ^ 64
    → in_range (p ++ put_uint64 a) (p ++ put_uint64 b) (p ++ put_uint64 v) ≡ (leb a v && ltb v b)
unfolding in_range
in_range-put_uint64 p a b v ha hb hv = ground (
  arith,
  compare_bytes_append p (put_uint64 a) (put_uint64 v),
  compare_bytes_append p (put_uint64 v) (put_uint64 b),
  compare_bytes-be_bytes 8 a v ha hv,
  compare_bytes-be_bytes 8 v b hv hb,
)

abbrev pub column_prefix_of : Bytes → Bytes → Bytes → Bytes
column_prefix_of row family qualifier =
    encode_column_prefix (encode_family_prefix (encode_row_prefix row) family) qualifier

shifted-lt : (v : ℕ) → shifted v < 2 ^ 64
unfolding shifted
shifted-lt v = ground arith

-- The tests on inverted and shifted timestamps.
range_test :
    (s e t : ℕ)
    → s < 2 ^ 64
    → e < 2 ^ 64
    → t < 2 ^ 64
    → s ≢ 2 ^ 63
    → e ≢ 2 ^ 63
    → (leb (shifted (inverted_timestamp e)) (inverted_timestamp t)
        && ltb (inverted_timestamp t) (shifted (inverted_timestamp s)))
      ≡ (not (lt_int64 t s) && lt_int64 t e)
unfolding shifted inverted_timestamp
range_test s e t hs he ht ns ne = ground arith

-- The bounds of a timestamp range in a column hold exactly the cells of that column whose timestamp
-- is at least the start and below the end, unless a limit is the least int64. The names are within
-- the limits of the encoding and the times are int64 values.
pub within-encode_timestamp_range_bounds :
    (r f q row family qualifier : Bytes) (s e t : ℕ)
    → length f ≤ 255
    → length q ≤ 65535
    → length family ≤ 255
    → length qualifier ≤ 65535
    → s < 2 ^ 64
    → e < 2 ^ 64
    → t < 2 ^ 64
    → s ≢ 2 ^ 63
    → e ≢ 2 ^ 63
    → within
        (encode_timestamp_range_bounds (column_prefix_of r f q) s e)
        (encode_cell_key row family qualifier t)
      ≡ ((equal_bytes r row && equal_bytes f family && equal_bytes q qualifier)
          && (not (lt_int64 t s) && lt_int64 t e))
unfolding encode_timestamp_range_bounds
within-encode_timestamp_range_bounds r f q row family qualifier s e t hf hq hf' hq' hs he ht ns ne =
    rw
      (
        encode_family_prefix_lem (encode_row_prefix r) f hf,
        encode_column_prefix_lem (family_prefix r f) q hq,
        key_after_column row family qualifier t hf' hq',
      )
      (elim (Bool-cases (equal_bytes r row && equal_bytes f family && equal_bytes q qualifier)) [
        | inl same ↦
            let er : r ≡ row = (equal_bytes_iff r row).0 (ground arith) in
            let ef : f ≡ family = (equal_bytes_iff f family).0 (ground arith) in
            let eq : q ≡ qualifier = (equal_bytes_iff q qualifier).0 (ground arith) in
            rw (same, er, ef, eq)
              (in_range-put_uint64 (column_prefix row family qualifier) _ _ (inverted_timestamp t)
                  (shifted-lt (inverted_timestamp e)) (shifted-lt (inverted_timestamp s))
                  (inverted_timestamp-lt t)
                ∙ range_test s e t hs he ht ns ne)
        | inr other ↦ rw other (
            in_range-diverges (column_prefix r f q) _ _ _ _
              (column_prefix-diverges r row f family q qualifier hq hq' other))
      ])
