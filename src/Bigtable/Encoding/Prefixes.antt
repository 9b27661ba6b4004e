-- ===== src/Bigtable/Encoding/Prefixes.antt =====
-- pkg/bigtable/encoding.go: the parts of a cell key as separate pieces, and why keys of different
-- columns never run into one another.
use cloudpebble.Base.{
  ℕ, ◌≤◌, true, false, [], ◌∷◌, ◌++◌, ◌==◌, length, ◌≡◌, ◌≢◌, sym, ap, ◌∙◌, arith, Bool-cases, inl,
  inr, append_assoc, le→ltb, ◌&&◌,
}
use cloudpebble.Base.Order.{
  Bytes, diverges, equal_bytes, equal_bytes_iff, diverges-append, diverges-append_left,
  diverges-of_length,
}
use cloudpebble.Base.BigEndian.{put_uint16, put_uint64, uint, from_be-be_bytes, length-be_bytes}
use cloudpebble.Bigtable.Encoding.{
  encode_row_prefix, encode_family_prefix, encode_column_prefix, encode_cell_key,
  inverted_timestamp,
}
use cloudpebble.Bigtable.Encoding.RowKeys.{encode_row_prefix-diverges}

-- the piece of a family and of a qualifier in a key
abbrev pub family_part : Bytes → Bytes
family_part family = length family ∷ (family ++ 0 ∷ [])

abbrev pub column_part : Bytes → Bytes
column_part qualifier = put_uint16 (length qualifier) ++ (qualifier ++ 0 ∷ [])

pub encode_family_prefix_lem :
    (rp family : Bytes)
    → length family ≤ 255
    → encode_family_prefix rp family ≡ rp ++ family_part family
unfolding encode_family_prefix
encode_family_prefix_lem rp family h = rw (le→ltb 255 (length family) h)

pub encode_column_prefix_lem :
    (fp qualifier : Bytes)
    → length qualifier ≤ 65535
    → encode_column_prefix fp qualifier ≡ fp ++ column_part qualifier
unfolding encode_column_prefix
encode_column_prefix_lem fp qualifier h = rw (le→ltb 65535 (length qualifier) h)

-- A cell key is its pieces one after the other.
pub encode_cell_key_lem :
    (row family qualifier : Bytes) (ts : ℕ)
    → length family ≤ 255
    → length qualifier ≤ 65535
    → encode_cell_key row family qualifier ts
      ≡ encode_row_prefix row
        ++ (family_part family ++ (column_part qualifier ++ put_uint64 (inverted_timestamp ts)))
unfolding encode_cell_key
encode_cell_key_lem row family qualifier ts hf hq =
    rw
      (
        encode_family_prefix_lem (encode_row_prefix row) family hf,
        encode_column_prefix_lem (encode_row_prefix row ++ family_part family) qualifier hq,
      )
      (append_assoc (encode_row_prefix row ++ family_part family) (column_part qualifier) _
        ∙ append_assoc (encode_row_prefix row) (family_part family) _)

family_part-diverges :
    (f g : Bytes) → equal_bytes f g ≡ false → diverges (family_part f) (family_part g) ≡ true
unfolding diverges
family_part-diverges f g h = elim (Bool-cases (length f == length g)) [
  | inl e ↦ rw e (diverges-append f g (0 ∷ []) (0 ∷ []) (diverges-of_length f g (ground arith) h))
  | inr ne ↦ rw ne
]

put_uint16-ne :
    (m n : ℕ) → m ≤ 65535 → n ≤ 65535 → m ≢ n → equal_bytes (put_uint16 m) (put_uint16 n) ≡ false
put_uint16-ne m n hm hn ne = elim (Bool-cases (equal_bytes (put_uint16 m) (put_uint16 n))) [
  | inr h ↦ h
  | inl h ↦ absurd (
      ne (
        sym (from_be-be_bytes 2 m (omega arith))
        ∙ ap uint ((equal_bytes_iff (put_uint16 m) (put_uint16 n)).0 h)
        ∙ from_be-be_bytes 2 n (omega arith)))
]

column_part-diverges :
    (p q : Bytes)
    → length p ≤ 65535
    → length q ≤ 65535
    → equal_bytes p q ≡ false
    → diverges (column_part p) (column_part q) ≡ true
column_part-diverges p q hp hq h = elim (Bool-cases (length p == length q)) [
  | inl e ↦
      let l : length p ≡ length q = ground arith in
      rw l (
        diverges-append_left (put_uint16 (length q)) (p ++ 0 ∷ []) (q ++ 0 ∷ [])
        ∙ diverges-append p q (0 ∷ []) (0 ∷ []) (diverges-of_length p q l h))
  | inr ne ↦
      diverges-append (put_uint16 (length p)) (put_uint16 (length q)) (p ++ 0 ∷ []) (q ++ 0 ∷ []) (
        diverges-of_length (put_uint16 (length p)) (put_uint16 (length q))
          (length-be_bytes 2 (length p) ∙ sym (length-be_bytes 2 (length q)))
          (put_uint16-ne (length p) (length q) hp hq (ground arith)))
]

-- the encoded prefix of a family and of a column
abbrev pub family_prefix : Bytes → Bytes → Bytes
family_prefix row family = encode_row_prefix row ++ family_part family

abbrev pub column_prefix : Bytes → Bytes → Bytes → Bytes
column_prefix row family qualifier = family_prefix row family ++ column_part qualifier

pub family_prefix-diverges :
    (r r' f f' : Bytes)
    → (equal_bytes r r' && equal_bytes f f') ≡ false
    → diverges (family_prefix r f) (family_prefix r' f') ≡ true
family_prefix-diverges r r' f f' h = elim (Bool-cases (equal_bytes r r')) [
  | inl e ↦ rw ((equal_bytes_iff r r').0 e) (
      diverges-append_left (encode_row_prefix r') (family_part f) (family_part f')
      ∙ family_part-diverges f f' (ground arith))
  | inr ne ↦
      diverges-append (encode_row_prefix r) (encode_row_prefix r') (family_part f) (family_part f')
        (encode_row_prefix-diverges r r' ne)
]

pub column_prefix-diverges :
    (r r' f f' q q' : Bytes)
    → length q ≤ 65535
    → length q' ≤ 65535
    → (equal_bytes r r' && equal_bytes f f' && equal_bytes q q') ≡ false
    → diverges (column_prefix r f q) (column_prefix r' f' q') ≡ true
column_prefix-diverges r r' f f' q q' hq hq' h =
    elim (Bool-cases (equal_bytes r r' && equal_bytes f f')) [
      | inl e ↦
          let er : r ≡ r' = (equal_bytes_iff r r').0 (ground arith) in
          let ef : f ≡ f' = (equal_bytes_iff f f').0 (ground arith) in
          rw (er, ef)
            (diverges-append_left (family_prefix r' f') (column_part q) (column_part q')
              ∙ column_part-diverges q q' hq hq' (ground arith))
      | inr ne ↦
          diverges-append (family_prefix r f) (family_prefix r' f') (column_part q) (column_part q')
            (family_prefix-diverges r r' f f' ne)
    ]
