-- ===== src/Bigtable/Encoding/RowKeys.antt =====
-- pkg/bigtable/encoding.go: the escaped row key. The two-pass encoder writes the plain
-- null-escape encoding, and that encoding keeps the order of row keys.
use cloudpebble.Base.{
  ℕ, zero, suc, ◌+◌, true, false, [], ◌∷◌, ◌++◌, ◌==◌, if◌then◌else◌, length, set, replicate, ◌≡◌,
  ◌≢◌, refl, ap, ◌∙◌, arith, Bool-cases, inl, inr, Ordering, length-append, set-append_exact,
  append_assoc, append-nil,
}
use cloudpebble.Base.Order.{
  Bytes, compare_bytes, diverges, equal_bytes, equal_bytes_iff, compare_bytes_swap,
  compare_bytes-eq, has_prefix-append, has_prefix-diverges,
}
use cloudpebble.Bigtable.Encoding.{
  contains_null, null_count, write_escaped, encode_row_prefix_escaped, encode_row_prefix,
  key_has_row_prefix,
}

-- The null-escape encoding: 0x00 becomes 0x00 0xFF.
unfoldable pub escape : Bytes → Bytes
escape [] = []
escape (c ∷ cs) = if c == 0 then 0 ∷ 255 ∷ escape cs else c ∷ escape cs

pub length-escape : (row : Bytes) → length (escape row) ≡ length row + null_count row
unfolding escape null_count
length-escape [] = refl
length-escape (c ∷ cs) = ground (arith, length-escape cs)

-- One write of the loop, and the two writes for a null byte.
set_next :
    (buf : Bytes) (v n m pos : ℕ)
    → n ≡ suc m
    → pos ≡ length buf
    → set (buf ++ replicate n 0) pos v ≡ (buf ++ v ∷ []) ++ replicate m 0
set_next buf v n m pos h e = rw (h, e, append_assoc) (set-append_exact buf 0 v (replicate m 0))

set_next_two :
    (buf : Bytes) (n m pos : ℕ)
    → n ≡ suc (suc m)
    → pos ≡ length buf
    → set (set (buf ++ replicate n 0) pos 0) (pos + 1) 255 ≡ (buf ++ 0 ∷ 255 ∷ []) ++ replicate m 0
set_next_two buf n m pos h e = rw (set_next buf 0 n (suc m) pos h e) (
    set_next (buf ++ 0 ∷ []) 255 (suc m) m (pos + 1) refl
      (omega (arith, length-append buf (0 ∷ [])))
    ∙ ap (λ b. b ++ replicate m 0) (append_assoc buf (0 ∷ []) (255 ∷ [])))

-- The write loop, on a buffer that is filled up to the position and zero behind it.
write_escaped-escape :
    (row buf : Bytes) (n m pos : ℕ)
    → n ≡ length (escape row) + m
    → pos ≡ length buf
    → write_escaped row pos (buf ++ replicate n 0) ≡ (buf ++ escape row) ++ replicate m 0
unfolding write_escaped escape
write_escaped-escape [] buf n m pos h e =
    rw append-nil (ap (λ k. buf ++ replicate k 0) (omega arith))
write_escaped-escape (c ∷ cs) buf n m pos h e = elim (Bool-cases (c == 0)) [
  | inl z ↦
      let k = length (escape cs) + m in
      let h' : n ≡ suc (suc k) = ground arith in
      rw z (
        rw (set_next_two buf n k pos h' e) (
          write_escaped-escape cs (buf ++ 0 ∷ 255 ∷ []) k m (pos + 2) refl
            (omega (arith, length-append buf (0 ∷ 255 ∷ [])))
          ∙ ap (λ b. b ++ replicate m 0) (append_assoc buf (0 ∷ 255 ∷ []) (escape cs))))
  | inr nz ↦
      let k = length (escape cs) + m in
      let h' : n ≡ suc k = ground arith in
      rw nz (
        rw (set_next buf c n k pos h' e) (
          write_escaped-escape cs (buf ++ c ∷ []) k m (pos + 1) refl
            (omega (arith, length-append buf (c ∷ [])))
          ∙ ap (λ b. b ++ replicate m 0) (append_assoc buf (c ∷ []) (escape cs))))
]

set_second :
    (xs : Bytes) (x y v i : ℕ) → i ≡ length xs + 1 → set (xs ++ x ∷ y ∷ []) i v ≡ xs ++ x ∷ v ∷ []
set_second [] x y v i e = rw e
set_second (z ∷ xs) x y v zero e = absurd (omega arith)
set_second (z ∷ xs) x y v (suc i) e = ap (◌∷◌ z) (set_second xs x y v i (omega arith))

encode_row_prefix_escaped-escape :
    (row : Bytes) → encode_row_prefix_escaped row ≡ escape row ++ 0 ∷ 0 ∷ []
unfolding encode_row_prefix_escaped
encode_row_prefix_escaped-escape row =
    let e = length row + null_count row in
    let w : write_escaped row 0 (replicate (e + 2) 0) ≡ escape row ++ 0 ∷ 0 ∷ [] =
      write_escaped-escape row [] (e + 2) 2 0 (omega (arith, length-escape row)) refl in
    rw w (
      rw (← length-escape row) (
        rw (set-append_exact (escape row) 0 0 (0 ∷ []))
          (set_second (escape row) 0 0 0 (length (escape row) + 1) refl)))

escape-no_null : (row : Bytes) → contains_null row ≡ false → escape row ≡ row
unfolding escape contains_null
escape-no_null [] h = refl
escape-no_null (c ∷ cs) h = ground (arith, escape-no_null cs)

-- The encoder of both paths writes the escaped row key and the terminator 0x00 0x00.
pub encode_row_prefix-escape : (row : Bytes) → encode_row_prefix row ≡ escape row ++ 0 ∷ 0 ∷ []
unfolding encode_row_prefix
encode_row_prefix-escape row = elim (Bool-cases (contains_null row)) [
  | inl z ↦ rw z (encode_row_prefix_escaped-escape row)
  | inr nz ↦ rw (nz, escape-no_null row nz)
]

compare_escape :
    (a b x y : Bytes)
    → compare_bytes a b ≡ Ordering.lt
    → compare_bytes ((escape a ++ 0 ∷ 0 ∷ []) ++ x) ((escape b ++ 0 ∷ 0 ∷ []) ++ y) ≡ Ordering.lt
unfolding compare_bytes escape
compare_escape [] [] x y h = cc
compare_escape [] (d ∷ b) x y h = ground arith
compare_escape (c ∷ a) [] x y h = cc
compare_escape (c ∷ a) (d ∷ b) x y h = ground (arith, compare_escape a b x y)

-- Keys of different rows compare as the rows' keys, whatever follows the encoded row keys.
pub compare_bytes-encode_row_prefix :
    (a b x y : Bytes)
    → a ≢ b
    → compare_bytes (encode_row_prefix a ++ x) (encode_row_prefix b ++ y) ≡ compare_bytes a b
compare_bytes-encode_row_prefix a b x y ne =
    rw (encode_row_prefix-escape a, encode_row_prefix-escape b)
      (ground (
        arith,
        compare_escape a b x y,
        compare_escape b a y x,
        compare_bytes_swap a b,
        compare_bytes_swap ((escape b ++ 0 ∷ 0 ∷ []) ++ y) ((escape a ++ 0 ∷ 0 ∷ []) ++ x),
        compare_bytes-eq a b,
      ))

escape-diverges :
    (a b : Bytes)
    → equal_bytes a b ≡ false
    → diverges (escape a ++ 0 ∷ 0 ∷ []) (escape b ++ 0 ∷ 0 ∷ []) ≡ true
unfolding diverges escape equal_bytes
escape-diverges [] [] h = cc
escape-diverges [] (d ∷ b) h = ground arith
escape-diverges (c ∷ a) [] h = ground arith
escape-diverges (c ∷ a) (d ∷ b) h = ground (arith, escape-diverges a b)

-- The encoded prefixes of different row keys differ at a position that both have.
pub encode_row_prefix-diverges :
    (a b : Bytes)
    → equal_bytes a b ≡ false
    → diverges (encode_row_prefix a) (encode_row_prefix b) ≡ true
encode_row_prefix-diverges a b h =
    rw (encode_row_prefix-escape a, encode_row_prefix-escape b) (escape-diverges a b h)

-- A key that starts with a row's encoded prefix has another row's prefix only if the rows are one.
pub key_has_row_prefix-encode_row_prefix :
    (row row' x : Bytes)
    → key_has_row_prefix (encode_row_prefix row' ++ x) row ≡ equal_bytes row row'
unfolding key_has_row_prefix
key_has_row_prefix-encode_row_prefix row row' x = elim (Bool-cases (equal_bytes row row')) [
  | inl e ↦ rw (e, (equal_bytes_iff row row').0 e) (has_prefix-append (encode_row_prefix row') x)
  | inr ne ↦ rw ne (
      has_prefix-diverges (encode_row_prefix row) (encode_row_prefix row') x
        (encode_row_prefix-diverges row row' ne))
]
