-- ===== src/Bigtable/Filter/Counting.antt =====
-- pkg/bigtable/filter.go: the filters that count, over the cells of one row.
use cloudpebble.Base.{
  ℕ, zero, suc, ◌+◌, ◌-◌, ◌≤◌, true, false, List, [], ◌∷◌, ltb, leb, if◌then◌else◌, take, drop, min,
  ◌≡◌, refl, ◌∙◌, ap, arith, Bool-cases, inl, inr,
}
use mathlib.Core.Path.{ap₂}
use cloudpebble.Base.Order.{Bytes, equal_bytes, equal_bytes_iff}
use cloudpebble.Base.Int64.{pos}
use cloudpebble.Bigtable.Filter.Leaves.{CellInfo}
use cloudpebble.Bigtable.Filter.Evaluator.{
  CellIdentity, Evaluator, Evaluators, chain, interleave, cells_per_row_offset, cells_per_row_limit,
  cells_per_column_limit, none_left, more, identity, same_identity, seen_in, column_of, count_of,
  evaluate, evaluate_first,
}

-- the cells of a row that a filter passes
unfoldable pub kept : Evaluator → List CellInfo → ℕ → List CellInfo
kept e [] draws = []
kept e (cell ∷ cells) draws =
    let (p, e', draws') = evaluate e cell draws in
    let rest = kept e' cells draws' in if p then cell ∷ rest else rest

-- A per-row limit of `k` with `n` cells passed before keeps the first `k - n` cells.
pub kept-cells_per_row_limit :
    (k n : ℕ) (cells : List CellInfo) (draws : ℕ)
    → kept (cells_per_row_limit (pos k) n) cells draws ≡ take (k - n) cells
unfolding kept evaluate
kept-cells_per_row_limit k n [] draws = take-nil (k - n)
  where
    take-nil : (m : ℕ) → [] ≡ take {A = CellInfo} m []
    take-nil zero = refl
    take-nil (suc m) = refl
kept-cells_per_row_limit k n (cell ∷ cells) draws = elim (Bool-cases (leb k n)) [
  | inl full ↦
      let z : k - n ≡ 0 = ground arith in
      rw (full, z) (kept-cells_per_row_limit k n cells draws ∙ rw z)
  | inr room ↦
      let s : k - n ≡ suc (k - (n + 1)) = ground arith in
      rw (room, s) (ap (◌∷◌ cell) (kept-cells_per_row_limit k (n + 1) cells draws))
]

-- A per-row offset of `k` with `n` cells seen before drops the first `k - n` cells.
pub kept-cells_per_row_offset :
    (k n : ℕ) (cells : List CellInfo) (draws : ℕ)
    → kept (cells_per_row_offset (pos k) n) cells draws ≡ drop (k - n) cells
unfolding kept evaluate
kept-cells_per_row_offset k n [] draws = drop-nil (k - n)
  where
    drop-nil : (m : ℕ) → [] ≡ drop {A = CellInfo} m []
    drop-nil zero = refl
    drop-nil (suc m) = refl
kept-cells_per_row_offset k n (cell ∷ cells) draws = elim (Bool-cases (ltb k (n + 1))) [
  | inl passed ↦
      let z : k - n ≡ 0 = ground arith in
      let z' : k - (n + 1) ≡ 0 = ground arith in
      rw (passed, z) (ap (◌∷◌ cell) (kept-cells_per_row_offset k (n + 1) cells draws ∙ rw z'))
  | inr skipped ↦
      let s : k - n ≡ suc (k - (n + 1)) = ground arith in
      rw (skipped, s) (kept-cells_per_row_offset k (n + 1) cells draws)
]

take-drop-nil : (m k : ℕ) → [] ≡ take m (drop {A = CellInfo} k [])
take-drop-nil zero zero = refl
take-drop-nil zero (suc k) = refl
take-drop-nil (suc m) zero = refl
take-drop-nil (suc m) (suc k) = refl

-- a chain of an offset and a limit, with their counts
abbrev pub page : ℕ → ℕ → ℕ → ℕ → Evaluator
page offset n limit m = chain (
    more (cells_per_row_offset (pos offset) n) (more (cells_per_row_limit (pos limit) m) none_left))

kept-page_open :
    (offset n limit m : ℕ) (cells : List CellInfo) (draws : ℕ)
    → kept (page offset n limit m) cells draws ≡ take (limit - m) (drop (offset - n) cells)
unfolding kept evaluate
kept-page_open offset n limit m [] draws = take-drop-nil (limit - m) (offset - n)
kept-page_open offset n limit m (cell ∷ cells) draws = elim (Bool-cases (ltb offset (n + 1))) [
  | inr skipped ↦
      let s : offset - n ≡ suc (offset - (n + 1)) = ground arith in
      rw (skipped, s) (kept-page_open offset (n + 1) limit m cells draws)
  | inl passed ↦
      let z : offset - n ≡ 0 = ground arith in
      let z' : offset - (n + 1) ≡ 0 = ground arith in
      elim (Bool-cases (leb limit m)) [
        | inl full ↦
            let y : limit - m ≡ 0 = ground arith in
            rw (passed, full, z, y) (kept-page_open offset (n + 1) limit m cells draws ∙ rw (z', y))
        | inr room ↦
            let y : limit - m ≡ suc (limit - (m + 1)) = ground arith in
            rw (passed, room, z, y)
              (ap (◌∷◌ cell) (kept-page_open offset (n + 1) limit (m + 1) cells draws ∙ rw z'))
      ]
]

-- A chain of an offset and a limit keeps one page of the row: `limit` cells behind the first
-- `offset` cells.
pub kept-page :
    (offset limit : ℕ) (cells : List CellInfo) (draws : ℕ)
    → kept (page offset 0 limit 0) cells draws ≡ take limit (drop offset cells)
kept-page offset limit cells draws =
    kept-page_open offset 0 limit 0 cells draws
    ∙ ap₂ (λ a b. take a (drop b cells)) {x = limit - 0} {y = limit} (omega arith) (omega arith)

-- how many cells are of a column
unfoldable pub cells_in : Bytes → List CellInfo → ℕ
cells_in col [] = 0
cells_in col (cell ∷ cells) =
    (if equal_bytes col (column_of cell) then 1 else 0) + cells_in col cells

-- A per-column limit keeps, of each column, as many cells as there are up to the limit.
pub cells_in-kept :
    (k : ℕ) (counts : List (Bytes × ℕ)) (cells : List CellInfo) (draws : ℕ) (col : Bytes)
    → cells_in col (kept (cells_per_column_limit (pos k) counts) cells draws)
      ≡ min (cells_in col cells) (k - count_of col counts)
unfolding kept evaluate cells_in
cells_in-kept k counts [] draws col = ground arith
cells_in-kept k counts (cell ∷ cells) draws col =
    elim (Bool-cases (leb k (count_of (column_of cell) counts))) [
      | inl full ↦ rw full (
          ground
            (arith, cells_in-kept k counts cells draws col, equal_bytes_iff col (column_of cell)))
      | inr room ↦ rw room (
          ground (
            arith,
            cells_in-kept k ((column_of cell, count_of (column_of cell) counts + 1) ∷ counts) cells
                draws col,
            equal_bytes_iff col (column_of cell),
          ))
    ]

-- how many cells have an identity
unfoldable pub cells_with : CellIdentity → List CellInfo → ℕ
cells_with id [] = 0
cells_with id (cell ∷ cells) =
    (if same_identity id (identity cell) then 1 else 0) + cells_with id cells

same_identity-eq : (a b : CellIdentity) → same_identity a b ≡ true → a ≡ b
unfolding same_identity
same_identity-eq a b h =
    ground (arith, equal_bytes_iff a.family b.family, equal_bytes_iff a.qualifier b.qualifier)

-- counting one more cell that has not been seen
once :
    (id new : CellIdentity) (seen : List CellIdentity) (n : ℕ)
    → seen_in new seen ≡ false
    → n ≤ (if seen_in id (new ∷ seen) then 0 else 1)
    → (if same_identity id new then 1 else 0) + n ≤ (if seen_in id seen then 0 else 1)
unfolding seen_in
once id new seen n h b = elim (Bool-cases (same_identity id new)) [
  | inl same ↦
      let e : seen_in id seen ≡ false = rw (same_identity-eq id new same) h in
      rw (same, e) (ground arith)
  | inr other ↦ rw other (ground arith)
]

-- An interleave passes a cell of one family, qualifier and timestamp at most once in a row, and not
-- at all when it has passed one before.
pub cells_with-kept :
    (fs : Evaluators) (seen : List CellIdentity) (cells : List CellInfo) (draws : ℕ)
    (id : CellIdentity)
    → cells_with id (kept (interleave fs seen) cells draws) ≤ (if seen_in id seen then 0 else 1)
unfolding kept evaluate cells_with
cells_with-kept fs seen [] draws id = ground arith
cells_with-kept fs seen (cell ∷ cells) draws id =
    let fs' = (evaluate_first fs cell draws).1 in
    let draws' = (evaluate_first fs cell draws).2 in
    elim (Bool-cases (evaluate_first fs cell draws).0) [
      | inr refused ↦ rw refused (cells_with-kept fs' seen cells draws' id)
      | inl p ↦ elim (Bool-cases (seen_in (identity cell) seen)) [
        | inl old ↦ rw (p, old) (cells_with-kept fs' seen cells draws' id)
        | inr new ↦
            rw (p, new)
              (once id (identity cell) seen _ new
                (cells_with-kept fs' (identity cell ∷ seen) cells draws' id))
      ]
    ]
