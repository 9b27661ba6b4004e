-- ===== src/Bigtable/Mutate/Isolation.antt =====
-- pkg/bigtable/mutate.go: `MutateRow` against the table of cells.
use Prim.Native.String.{String}
use cloudpebble.Base.{
  ℕ, suc, ◌≤◌, false, Option, none, some, List, [], ◌∷◌, length, ◌≡◌, ◌≢◌, ◌⊎◌, refl, ◌∙◌, arith,
  inl, inr, Option-cases, le→ltb,
}
use cloudpebble.Base.Order.{Bytes, equal_bytes, equal_bytes_iff}
use cloudpebble.Pebble.{Batch, effects, Pebble}
use cloudpebble.Bigtable.Status.{internal, Status, errorf, ok, err}
use cloudpebble.Bigtable.Encoding.Decoder.{CellKey}
use cloudpebble.Bigtable.Encoding.Canonical.{key_of}
use cloudpebble.Bigtable.Mutate.{
  Mutation, set_cell, delete_from_column, delete_from_family, delete_from_row, add_to_cell,
  merge_to_cell, unset, apply_mutation_to_batch, apply_mutations_to_batch, mutate_row,
}
use cloudpebble.Bigtable.Mutate.Cells.{mutate_cell, mutate_cell_all, IsPlain, AllFit}
use cloudpebble.Bigtable.Mutate.Effects.{effects-apply_mutations_to_batch}

-- A mutation leaves the cells of other rows alone.
mutate_cell-other :
    (row : Bytes) (m : Mutation) (now : ℕ) (c : CellKey) (old : Option Bytes)
    → equal_bytes row c.row_key ≡ false
    → mutate_cell row m now c old ≡ old
unfolding mutate_cell
mutate_cell-other row (delete_from_column f q none) now c old h = ground arith
mutate_cell-other row (delete_from_column f q (some tr)) now c old h = ground arith
mutate_cell-other row _ now c old h = ground arith

pub mutate_cell_all-other :
    (row : Bytes) (ms : List Mutation) (clock : ℕ → ℕ) (c : CellKey) (old : Option Bytes)
    → equal_bytes row c.row_key ≡ false
    → mutate_cell_all row ms clock c old ≡ old
unfolding mutate_cell_all
mutate_cell_all-other row [] clock c old h = refl
mutate_cell_all-other row (m ∷ ms) clock c old h =
    mutate_cell_all-other row ms (λ i. clock (suc i)) c (mutate_cell row m (clock 0) c old) h
    ∙ mutate_cell-other row m (clock 0) c old h

-- The mutations that the handler carries out: not those that it does not support, and no cell whose
-- names are too long.
abbrev pub IsSupported : Mutation → Type 0
IsSupported (set_cell f q ts v) = (length f ≤ 255) × (length q ≤ 65535)
IsSupported add_to_cell = ⊥
IsSupported merge_to_cell = ⊥
IsSupported unset = ⊥
IsSupported _ = Unit

abbrev pub AllSupported : List Mutation → Type 0
AllSupported [] = Unit
AllSupported (m ∷ ms) = IsSupported m × AllSupported ms

IsSupported-ok :
    (batch : Batch) (row : Bytes) (m : Mutation) (now : ℕ)
    → IsSupported m
    → (apply_mutation_to_batch batch row m now).1 ≡ none
unfolding apply_mutation_to_batch
IsSupported-ok batch row (set_cell f q ts v) now h =
    rw (le→ltb 255 (length f) h.0, le→ltb 65535 (length q) h.1)
IsSupported-ok batch row (delete_from_column f q none) now h = refl
IsSupported-ok batch row (delete_from_column f q (some tr)) now h = refl
IsSupported-ok batch row (delete_from_family f) now h = refl
IsSupported-ok batch row delete_from_row now h = refl
IsSupported-ok batch row add_to_cell now h = absurd h
IsSupported-ok batch row merge_to_cell now h = absurd h
IsSupported-ok batch row unset now h = absurd h

pub AllSupported-ok :
    (batch : Batch) (row : Bytes) (ms : List Mutation) (clock : ℕ → ℕ)
    → AllSupported ms
    → (apply_mutations_to_batch batch row ms clock).1 ≡ none
unfolding apply_mutations_to_batch
AllSupported-ok batch row [] clock h = refl
AllSupported-ok batch row (m ∷ ms) clock h = ground (
  arith,
  IsSupported-ok batch row m (clock 0) h.0,
  AllSupported-ok (apply_mutation_to_batch batch row m (clock 0)).0 row ms (λ i. clock (suc i)) h.1,
)

module _ (pebble : Pebble) (opening : Option String) (commit : Batch → Option String) where
  -- the state of the database that a client sees at a cell
  abbrev pub cell_of : pebble.DB → CellKey → Option Bytes
  cell_of db c = pebble.get db (key_of c)

  -- What a call of `MutateRow` does to a cell: the call fails and changes nothing, or it succeeds
  -- and makes of the cell what the mutations make of it, one after the other. The names and times of
  -- the mutations fit the encoding, and the cell is one that the key ranges hold.
  pub mutate_row_refines :
      (db : pebble.DB) (row : Bytes) (ms : List Mutation) (clock : ℕ → ℕ) (cell : CellKey)
      → AllFit ms clock
      → IsPlain cell
      → ((s : Status) × (mutate_row pebble opening commit db row ms clock ≡ (err s, db)))
        ⊎ ((db' : pebble.DB) × (mutate_row pebble opening commit db row ms clock ≡ (ok tt, db'))
            × (cell_of db' cell ≡ mutate_cell_all row ms clock cell (cell_of db cell)))
  unfolding mutate_row effects
  mutate_row_refines db [] ms clock cell fits plain = inl (_, refl)
  mutate_row_refines db (b ∷ row) [] clock cell fits plain = inl (_, refl)
  mutate_row_refines db (b ∷ row) (m ∷ ms) clock cell fits plain = elim (Option-cases opening) [
    | inr (cause, o) ↦ inl (errorf internal "opening table: %v" cause, ground arith)
    | inl o ↦
        let batch = (apply_mutations_to_batch [] (b ∷ row) (m ∷ ms) clock).0 in
        elim (Option-cases (apply_mutations_to_batch [] (b ∷ row) (m ∷ ms) clock).1) [
          | inr (s, e) ↦ inl (s, ground arith)
          | inl e ↦ elim (Option-cases (commit batch)) [
            | inr (cause, f) ↦ inl (errorf internal "applying mutations: %v" cause, ground arith)
            | inl f ↦ inr (
              pebble.apply db batch,
              ground arith,
              pebble.get-apply db batch (key_of cell)
                  ∙ effects-apply_mutations_to_batch (b ∷ row) (m ∷ ms) clock cell [] batch
                      (pebble.get db (key_of cell)) plain fits (ground arith),
            )
          ]
        ]
  ]

  -- `MutateRow` fails only for a reason: on a request with a row key and mutations that are all
  -- supported, with a table that opens and a batch that the engine takes, it succeeds.
  pub mutate_row-ok :
      (db : pebble.DB) (row : Bytes) (ms : List Mutation) (clock : ℕ → ℕ)
      → row ≢ []
      → ms ≢ []
      → opening ≡ none
      → ((b : Batch) → commit b ≡ none)
      → AllSupported ms
      → (mutate_row pebble opening commit db row ms clock).0 ≡ ok tt
  unfolding mutate_row
  mutate_row-ok db [] ms clock hr hm o f h = absurd (hr refl)
  mutate_row-ok db (b ∷ row) [] clock hr hm o f h = absurd (hm refl)
  mutate_row-ok db (b ∷ row) (m ∷ ms) clock hr hm o f h = ground (
    arith,
    AllSupported-ok [] (b ∷ row) (m ∷ ms) clock h,
    f (apply_mutations_to_batch [] (b ∷ row) (m ∷ ms) clock).0,
  )

  -- `MutateRow` on one row leaves every cell of every other row as it was, whatever it returns, for
  -- mutations that fit the encoding and cells that the key ranges hold.
  pub mutate_row-other_rows :
      (db : pebble.DB) (row : Bytes) (ms : List Mutation) (clock : ℕ → ℕ) (c : CellKey)
      → AllFit ms clock
      → IsPlain c
      → row ≢ c.row_key
      → cell_of (mutate_row pebble opening commit db row ms clock).1 c ≡ cell_of db c
  mutate_row-other_rows db row ms clock c fits plain ne =
      let other : equal_bytes row c.row_key ≡ false =
        ground (arith, equal_bytes_iff row c.row_key) in
      elim (mutate_row_refines db row ms clock c fits plain) [
        | inl (s, e) ↦ rw e
        | inr (db', e, cells) ↦ rw e (cells ∙ mutate_cell_all-other row ms clock c _ other)
      ]
