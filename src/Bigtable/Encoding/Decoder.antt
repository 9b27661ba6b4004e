-- ===== src/Bigtable/Encoding/Decoder.antt =====
-- pkg/bigtable/encoding.go: `DecodeCellKey` and `CellDecoder.Decode`. The position in the key is the
-- suffix that is left; a return with `ok` false is `none`.
use cloudpebble.Base.{
  ℕ, ◌+◌, Bool, true, false, ◌&&◌, Option, none, some, [], ◌∷◌, ◌==◌, ltb, if◌then◌else◌, length,
  get_elem?, take, drop, ◌≡◌, arith,
}
use cloudpebble.Base.Order.{Bytes}
use cloudpebble.Base.BigEndian.{uint}
use cloudpebble.Base.OptionMonad.{◌>>=◌}
use cloudpebble.Bigtable.Encoding.{timestamp_from_inverted}

pub record CellKey : Type 0 where
  pub row_key : Bytes
  pub family : Bytes
  pub qualifier : Bytes
  pub timestamp_micros : ℕ

-- The scan for the row terminator from position `pos`, with `esc` escapes so far: the length of the
-- escaped row key, its escapes, and what follows the terminator.
unfoldable pub scan_row : Bytes → ℕ → ℕ → Option (ℕ × ℕ × Bytes)
scan_row [] pos esc = none
scan_row (c ∷ []) pos esc = none
scan_row (c ∷ d ∷ rest) pos esc = elim (c == 0) [
  | false ↦ scan_row (d ∷ rest) (pos + 1) esc
  | true ↦ elim (d == 255) [
    | true ↦ scan_row rest (pos + 2) (esc + 1)
    | false ↦ if d == 0 then some (pos, esc, rest) else none
  ]
]

-- the loop that writes the row key with 0x00 0xFF read as 0x00
unfoldable pub unescape : Bytes → Bytes
unescape [] = []
unescape (c ∷ []) = c ∷ []
unescape (c ∷ d ∷ rest) = elim (c == 0 && d == 255) [
  | true ↦ 0 ∷ unescape rest
  | false ↦ c ∷ unescape (d ∷ rest)
]

unfoldable pub row_of : Bytes → ℕ → ℕ → Bytes
unfolding unescape
row_of key row_len esc = if ltb 0 esc then unescape (take row_len key) else take row_len key

-- whether the key goes on to position `n` and holds 0x00 there
unfoldable pub sentinel_at : ℕ → Bytes → Bool
sentinel_at n rest = elim (get_elem? rest n) [ none ↦ false | some c ↦ c == 0 ]

unfoldable pub parse_family : Bytes → Option (Bytes × Bytes)
unfolding sentinel_at
parse_family [] = none
parse_family (fam_len ∷ rest) =
    if sentinel_at fam_len rest then some (take fam_len rest, drop (fam_len + 1) rest) else none

unfoldable pub parse_qualifier : Bytes → Option (Bytes × Bytes)
unfolding sentinel_at
parse_qualifier [] = none
parse_qualifier (hi ∷ []) = none
parse_qualifier (hi ∷ lo ∷ rest) =
    let qual_len = uint (hi ∷ lo ∷ []) in
    if sentinel_at qual_len rest then some (take qual_len rest, drop (qual_len + 1) rest) else none

unfoldable pub parse_timestamp : Bytes → Option ℕ
parse_timestamp rest = if length rest == 8 then some (timestamp_from_inverted (uint rest)) else none

-- `DecodeCellKey`
unfoldable pub decode_cell_key : Bytes → Option CellKey
decode_cell_key key = do
  (row_len, esc, rest) ← scan_row key 0 0
  (family, rest') ← parse_family rest
  (qualifier, rest'') ← parse_qualifier rest'
  timestamp_micros ← parse_timestamp rest''
  some (record {
    row_key = row_of key row_len esc;
    family = family;
    qualifier = qualifier;
    timestamp_micros = timestamp_micros;
  })

-- The decoder's buffers; `Decode` returns slices of them.
pub record CellDecoder : Type 0 where
  pub row_key_buf : Bytes
  pub qualifier_buf : Bytes

-- the part of `Decode` behind the row key, which is a slice of the key or of the buffer
unfoldable pub decode_columns : CellDecoder → Bytes → Bytes → CellDecoder × Option CellKey
decode_columns d row_key rest = elim (parse_family rest) [
  | none ↦ (d, none)
  | some (family, rest') ↦ elim (parse_qualifier rest') [
    | none ↦ (d, none)
    | some (qualifier, rest'') ↦ (
      record d { qualifier_buf = qualifier },
      elim (parse_timestamp rest'') [
        | none ↦ none
        | some ts ↦ some (record {
          row_key = row_key;
          family = family;
          qualifier = qualifier;
          timestamp_micros = ts;
        })
      ],
    )
  ]
]

-- `CellDecoder.Decode`
unfoldable pub decode : CellDecoder → Bytes → CellDecoder × Option CellKey
unfolding decode_columns
decode d key = elim (scan_row key 0 0) [
  | none ↦ (d, none)
  | some (row_len, esc, rest) ↦
      (let row_key = row_of key row_len esc in
        decode_columns (if ltb 0 esc then record d { row_key_buf = row_key } else d) row_key rest)
]

-- The reusable decoder returns what `DecodeCellKey` returns, whatever its buffers hold.
pub decode-eq-decode_cell_key :
    (d : CellDecoder) (key : Bytes) → (decode d key).1 ≡ decode_cell_key key
unfolding decode decode_cell_key
decode-eq-decode_cell_key d key = ground arith
