-- ===== src/Bigtable/ReadRows/Bounds.antt =====
-- pkg/bigtable/readrows.go: the cells that the bounds of a row range hold (`rowRangeToBounds`).
use cloudpebble.Base.{
  ℕ, ◌≤◌, ◌<◌, Bool, true, false, ◌&&◌, Option, none, some, [], ◌∷◌, ◌++◌, length, ◌≡◌, ◌≢◌, refl,
  sym, ap, ◌∙◌, arith, Bool-cases, inl, inr, append-nil, Ordering,
}
use cloudpebble.Base.Order.{
  Bytes, equal_bytes, equal_bytes_iff, compare_bytes, compare_bytes_append, compare_bytes_refl,
  compare_bytes-eq, then_compare, le_bytes, lt_bytes,
}
use cloudpebble.Pebble.{bounded}
use cloudpebble.Bigtable.Encoding.{
  encode_row_prefix, encode_cell_key, row_end_key, inverted_timestamp,
}
use cloudpebble.Base.BigEndian.{put_uint64}
use cloudpebble.Bigtable.Encoding.RowKeys.{compare_bytes-encode_row_prefix}
use cloudpebble.Bigtable.Encoding.Prefixes.{column_part, encode_cell_key_lem}
use cloudpebble.Bigtable.ReadRows.{
  StartKey, start_key_closed, start_key_open, start_unset, EndKey, end_key_closed, end_key_open,
  end_unset, RowRange, start_bound, end_bound, row_range_to_bounds,
}

-- The rows of a range, as the order of the row keys says.
unfoldable pub after_start : StartKey → Bytes → Bool
after_start (start_key_closed a) row = le_bytes a row
after_start (start_key_open a) row = lt_bytes a row
after_start start_unset row = true

unfoldable pub before_end : EndKey → Bytes → Bool
before_end (end_key_closed a) row = le_bytes row a
before_end (end_key_open a) row = lt_bytes row a
before_end end_unset row = true

true-ne_false : true ≢ false
true-ne_false e = cc

then_compare-ne : (o p : Ordering) → o ≢ Ordering.eq → then_compare o p ≡ o
then_compare-ne Ordering.lt p h = refl
then_compare-ne Ordering.eq p h = absurd (h refl)
then_compare-ne Ordering.gt p h = refl

-- Row prefixes compare as the rows, and what comes after them decides where the rows are equal.
compare_bytes-rows :
    (a b x y : Bytes)
    → compare_bytes (encode_row_prefix a ++ x) (encode_row_prefix b ++ y)
      ≡ then_compare (compare_bytes a b) (compare_bytes x y)
compare_bytes-rows a b x y = elim (Bool-cases (equal_bytes a b)) [
  | inl e ↦
      let p = (equal_bytes_iff a b).0 e in
      rw (p, compare_bytes_refl b) (compare_bytes_append (encode_row_prefix b) x y)
  | inr n ↦
      let ne : a ≢ b = λ p. true-ne_false (sym ((equal_bytes_iff a b).1 p) ∙ n) in
      compare_bytes-encode_row_prefix a b x y ne
      ∙ sym (
          then_compare-ne (compare_bytes a b) (compare_bytes x y)
            (λ q. ne (compare_bytes-eq a b q)))
]

abbrev is_le : Ordering → Bool
is_le o = elim o [ Ordering.gt ↦ false | _ ↦ true ]

abbrev is_lt : Ordering → Bool
is_lt o = elim o [ Ordering.lt ↦ true | _ ↦ false ]

is_le-then-lt : (o : Ordering) → is_le (then_compare o Ordering.lt) ≡ is_le o
is_le-then-lt Ordering.lt = refl
is_le-then-lt Ordering.eq = refl
is_le-then-lt Ordering.gt = refl

is_le-then-gt : (o : Ordering) → is_le (then_compare o Ordering.gt) ≡ is_lt o
is_le-then-gt Ordering.lt = refl
is_le-then-gt Ordering.eq = refl
is_le-then-gt Ordering.gt = refl

is_lt-then-lt : (o : Ordering) → is_lt (then_compare o Ordering.lt) ≡ is_le o
is_lt-then-lt Ordering.lt = refl
is_lt-then-lt Ordering.eq = refl
is_lt-then-lt Ordering.gt = refl

is_lt-then-gt : (o : Ordering) → is_lt (then_compare o Ordering.gt) ≡ is_lt o
is_lt-then-gt Ordering.lt = refl
is_lt-then-gt Ordering.eq = refl
is_lt-then-gt Ordering.gt = refl

&&-true : (b : Bool) → (b && true) ≡ b
&&-true true = refl
&&-true false = refl

bounded-both :
    (lo hi : Option Bytes) (k : Bytes) → bounded lo hi k ≡ (bounded lo none k && bounded none hi k)
unfolding bounded
bounded-both none hi k = refl
bounded-both (some a) hi k = rw (&&-true (le_bytes a k)) refl

module _ (row : Bytes) (l : ℕ) (t : Bytes) where
  abbrev key : Bytes
  key = encode_row_prefix row ++ l ∷ t

  start-closed : (a : Bytes) → le_bytes (encode_row_prefix a) key ≡ le_bytes a row
  unfolding compare_bytes
  start-closed a =
      ap (λ p. le_bytes p key) (sym (append-nil (encode_row_prefix a)))
      ∙ ap is_le (compare_bytes-rows a row [] (l ∷ t))
      ∙ is_le-then-lt (compare_bytes a row)

  end-open : (a : Bytes) → lt_bytes key (encode_row_prefix a) ≡ lt_bytes row a
  unfolding compare_bytes
  end-open a =
      ap (λ p. lt_bytes key p) (sym (append-nil (encode_row_prefix a)))
      ∙ ap is_lt (compare_bytes-rows row a (l ∷ t) [])
      ∙ is_lt-then-gt (compare_bytes row a)

  module _ (small : l < 255) where
    start-open : (a : Bytes) → le_bytes (encode_row_prefix a ++ 255 ∷ []) key ≡ lt_bytes a row
    start-open a =
        let c : compare_bytes (255 ∷ []) (l ∷ t) ≡ Ordering.gt =
          unfold compare_bytes in ground (arith, small) in
        ap is_le (compare_bytes-rows a row (255 ∷ []) (l ∷ t))
        ∙ rw c (is_le-then-gt (compare_bytes a row))

    end-closed : (a : Bytes) → lt_bytes key (encode_row_prefix a ++ 255 ∷ []) ≡ le_bytes row a
    end-closed a =
        let c : compare_bytes (l ∷ t) (255 ∷ []) ≡ Ordering.lt =
          unfold compare_bytes in ground (arith, small) in
        ap is_lt (compare_bytes-rows row a (l ∷ t) (255 ∷ []))
        ∙ rw c (is_lt-then-lt (compare_bytes row a))

    lower : (start : StartKey) → bounded (start_bound start) none key ≡ after_start start row
    unfolding bounded start_bound after_start
    lower (start_key_closed a) = rw (start-closed a) (&&-true (le_bytes a row))
    lower (start_key_open a) = rw (start-open a) (&&-true (lt_bytes a row))
    lower start_unset = refl

    upper : (end_key : EndKey) → bounded none (end_bound end_key) key ≡ before_end end_key row
    unfolding bounded end_bound before_end row_end_key
    upper (end_key_closed a) = end-closed a
    upper (end_key_open a) = end-open a
    upper end_unset = refl

-- The bounds of a row range hold a cell, in a family of fewer than 255 bytes and with a qualifier of
-- at most 65535 bytes, exactly when its row
-- lies in the range: from the start key on, or after it when it is open, and up to the end key, or
-- before it when it is open.
pub bounded-row_range_to_bounds :
    (rr : RowRange) (row family qualifier : Bytes) (ts : ℕ)
    → length family < 255
    → length qualifier ≤ 65535
    → let bounds = row_range_to_bounds rr in
      bounded bounds.0 bounds.1 (encode_cell_key row family qualifier ts)
      ≡ (after_start rr.start_key row && before_end rr.end_key row)
unfolding row_range_to_bounds
bounded-row_range_to_bounds rr row family qualifier ts hf hq =
    let t = (family ++ 0 ∷ []) ++ (column_part qualifier ++ put_uint64 (inverted_timestamp ts)) in
    ap (bounded (start_bound rr.start_key) (end_bound rr.end_key))
      (encode_cell_key_lem row family qualifier ts (omega (arith, hf)) hq)
    ∙ bounded-both (start_bound rr.start_key) (end_bound rr.end_key) _
    ∙ rw (lower row (length family) t hf rr.start_key, upper row (length family) t hf rr.end_key)
        refl
