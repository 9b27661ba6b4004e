-- ===== src/Bigtable/ReadRows/Chunks.antt =====
-- pkg/bigtable/readrows.go: how `appendCellChunks` cuts the value of a cell.
use cloudpebble.Base.{
  ℕ, ◌+◌, ◌-◌, ◌≤◌, Bool, List, [], ◌∷◌, ◌++◌, ltb, if◌then◌else◌, length, take, drop, min, ◌≡◌,
  All,
}
use cloudpebble.Base.Order.{Bytes}
use cloudpebble.Bigtable.ReadRows.{
  CellChunk, cell_chunk, continuation, max_int32, max_cell_chunk_value_size,
}

-- the values of the chunks, joined
unfoldable pub values : List CellChunk → Bytes
values [] = []
values (c ∷ cs) = c.value ++ values cs

-- a size that fits the hint's 32 bits
abbrev pub clamped : ℕ → ℕ
clamped total = if ltb max_int32 total then max_int32 else total

-- the hint is on all chunks but the last
abbrev pub IsHinted : ℕ → List CellChunk → Type 0
IsHinted total [] = Unit
IsHinted total (c ∷ []) = c.value_size ≡ 0
IsHinted total (c ∷ d ∷ cs) = (c.value_size ≡ clamped total) × IsHinted total (d ∷ cs)

abbrev pub FitsChunk : CellChunk → Type 0
FitsChunk c = length c.value ≤ max_cell_chunk_value_size

-- only the first chunk names the cell
abbrev pub IsOfCell : Bytes → Bytes → Bytes → ℕ → List CellChunk → Type 0
IsOfCell row family qualifier ts [] = ⊥
IsOfCell row family qualifier ts (c ∷ cs) =
    (record c { value = []; value_size = 0 } ≡ cell_chunk row family qualifier ts [] [])
    × All (λ (d : CellChunk). record d { value = []; value_size = 0 } ≡ continuation []) cs

module _ (row family qualifier : Bytes) (ts : ℕ) (v : Bytes) where
  part : ℕ → Bytes
  part o = take (min (o + max_cell_chunk_value_size) (length v) - o) (drop o v)

  -- the chunk's fields: `first` for the first chunk, `more` for one that others follow
  IsChunk : Bool → Bool → Bytes → ℕ → CellChunk → Type 0
  IsChunk first more p hint c =
      (c.value ≡ p)
      × (c.value_size ≡ (if more then hint else 0))
      × (record c { value = []; value_size = 0 }
          ≡ (if first then cell_chunk row family qualifier ts [] [] else continuation []))
