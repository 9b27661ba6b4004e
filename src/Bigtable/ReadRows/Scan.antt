-- ===== src/Bigtable/ReadRows/Scan.antt =====
-- pkg/bigtable/readrows.go: the handler `ReadRows`. The variables of the handler are a record that
-- every step passes on. `send n` is the error of the n-th call of `stream.Send`, if any; a response
-- whose sending fails is not among those sent. `db.NewIter` is taken to succeed.
use Prim.Native.String.{String}
use cloudpebble.Base.{
  ℕ, ◌+◌, Bool, true, false, not, ◌&&◌, Option, none, some, List, [], ◌∷◌, ◌++◌, ltb, leb,
  if◌then◌else◌, length, map,
}
use cloudpebble.Base.Order.{Bytes, equal_bytes}
use cloudpebble.Base.Int64.{max_int64}
use cloudpebble.Pebble.{Entries, Pebble}
use cloudpebble.Bigtable.Status.{internal, invalid_argument, Status, errorf}
use cloudpebble.Bigtable.Encoding.{row_key_range_bounds}
use cloudpebble.Bigtable.Encoding.Decoder.{CellKey, CellDecoder, decode}
use cloudpebble.Bigtable.Filter.Message.{MaybeFilter, absent, present}
use cloudpebble.Bigtable.Filter.Evaluator.{reset}
use cloudpebble.Bigtable.Filter.Engine.{
  RowFilterEngine, new_row_filter_engine, matches_cell, cell_info, new_decoder,
}
use cloudpebble.Bigtable.ReadRows.{
  CellChunk, RowStatus, RowRange, append_cell_chunks, row_range_to_bounds, cell_chunk_buffer_size,
}

-- `ReadRowsResponse`
pub record Response : Type 0 where
  pub chunks : List CellChunk
  pub last_scanned : Bytes

-- The handler's variables; `draws` counts the random numbers that the filter has drawn.
pub record Scan : Type 0 where
  pub chunk_buf : List CellChunk
  pub last_scanned_row_key : Bytes
  pub row_count : ℕ
  pub filter_engine : Option RowFilterEngine
  pub draws : ℕ
  pub dec : CellDecoder
  pub sent : List Response
  pub last_row_key : Bytes
  pub row_started : Bool

-- `commitLastChunk`
unfoldable pub commit_last_chunk : List CellChunk → List CellChunk
commit_last_chunk [] = []
commit_last_chunk (c ∷ []) = record c { row_status = some RowStatus.commit_row } ∷ []
commit_last_chunk (c ∷ d ∷ cs) = c ∷ commit_last_chunk (d ∷ cs)

-- the end of a row: the last chunk is committed and the row is the last one scanned
unfoldable pub end_row : Scan → Scan
end_row s =
    if s.row_started
    then record s {
      chunk_buf = commit_last_chunk s.chunk_buf;
      last_scanned_row_key = s.last_row_key;
    }
    else s

unfoldable pub flush : (ℕ → Option Status) → Scan → Scan × Option Status
flush send s = elim s.chunk_buf [
  | [] ↦ (s, none)
  | (c ∷ cs) ↦ elim (send (length s.sent)) [
    | some status ↦ (record s { chunk_buf = [] }, some status)
    | none ↦ (
      record s {
        chunk_buf = [];
        sent = s.sent ++ record { chunks = c ∷ cs; last_scanned = s.last_scanned_row_key } ∷ [];
      },
      none,
    )
  ]
]

-- `rowsLimit > 0 && rowCount > rowsLimit`, with the limit's bit pattern
unfoldable pub over_limit : ℕ → ℕ → Bool
over_limit limit count = (ltb 0 limit && leb limit max_int64) && ltb limit count

-- `rowsLimit > 0 && rowCount >= rowsLimit`
unfoldable pub at_limit : ℕ → ℕ → Bool
at_limit limit count = (ltb 0 limit && leb limit max_int64) && leb limit count

-- What a cell of a new row does before the limit is looked at.
unfoldable pub leave_row : Scan → Scan
leave_row s = let t = end_row s in record t { row_count = t.row_count + 1 }

abbrev reset_engine : RowFilterEngine → RowFilterEngine
reset_engine e = record e { eval = reset e.eval }

-- What it does when the limit allows the row.
unfoldable pub start_row : Bytes → Scan → Scan
start_row row_key s = record s {
  filter_engine = elim s.filter_engine [ none ↦ none | some e ↦ some (reset_engine e) ];
  last_row_key = row_key;
  row_started = true;
}

-- The filter on a cell: whether it passes, whether its value is stripped.
unfoldable pub filter_cell : CellKey → Bytes → Scan → (Bool × Bool) × Scan
unfolding matches_cell
filter_cell c value s = elim s.filter_engine [
  | none ↦ ((true, false), s)
  | some e ↦
      (let (p, e', draws') = matches_cell e (cell_info c value) s.draws in
        ((p, e'.strips), record s { filter_engine = some e'; draws = draws' }))
]

-- The end of the loop's body, for a cell of the row that has been started.
unfoldable pub emit_cell : (ℕ → Option Status) → CellKey → Bytes → Scan → Scan × Option Status
emit_cell send c value s =
    let ((passes, strips), s') = filter_cell c value s in
    if passes
    then (let buf =
          append_cell_chunks s'.chunk_buf c.row_key c.family c.qualifier c.timestamp_micros
            (if strips then [] else value) in
        let s'' = record s' { chunk_buf = buf } in
        if leb cell_chunk_buffer_size (length buf) then flush send s'' else (s'', none))
    else (s', none)

-- The check of the row boundary, when the limit does not end the loop.
unfoldable pub enter_row : Bytes → Scan → Scan
enter_row row_key s =
    if equal_bytes row_key s.last_row_key then s else start_row row_key (leave_row s)

-- whether the limit ends the loop at a cell of this row
unfoldable pub stops : ℕ → Bytes → Scan → Bool
stops limit row_key s =
    not (equal_bytes row_key s.last_row_key) && over_limit limit (leave_row s).row_count

-- How the loop goes on from the variables and the error that a cell leaves: a `break` ends it
-- without an error.
unfoldable pub go_on :
    Bool → Scan → Scan → Option Status → Scan × Option Status → Scan × Option Status
go_on true stopped s e rest = (stopped, none)
go_on false stopped s (some status) rest = (s, some status)
go_on false stopped s none rest = rest

-- The loop over the entries of one range.
unfoldable pub scan_entries : (ℕ → Option Status) → ℕ → Entries → Scan → Scan × Option Status
scan_entries send limit [] s = (s, none)
scan_entries send limit ((key, value) ∷ entries) s =
    let (dec', decoded) = decode s.dec key in
    let s0 = record s { dec = dec' } in
    let skip = scan_entries send limit entries s0 in
    elim decoded [
      | none ↦ skip
      | some c ↦
          (let (s1, e) = emit_cell send c value (enter_row c.row_key s0) in
            let rest = scan_entries send limit entries s1 in
            go_on (stops limit c.row_key s0) (leave_row s0) s1 e rest)
    ]

-- The loop over the ranges, which are given as the entries that the iterator shows.
unfoldable pub scan_ranges : (ℕ → Option Status) → ℕ → List Entries → Scan → Scan × Option Status
scan_ranges send limit [] s = (s, none)
scan_ranges send limit (entries ∷ ranges) s =
    let s0 = record s { last_row_key = []; row_started = false } in
    let (s1, e) = scan_entries send limit entries s0 in
    let s2 = end_row s1 in
    let rest = scan_ranges send limit ranges s2 in
    elim e [
      | some status ↦ (s1, some status)
      | none ↦ if at_limit limit s2.row_count then (s2, none) else rest
    ]

-- `ReadRowsRequest`; a row set that is nil is one without keys and ranges
pub record Request : Type 0 where
  pub row_keys : List Bytes
  pub row_ranges : List RowRange
  pub filter : MaybeFilter
  pub rows_limit : ℕ
  pub reversed : Bool

abbrev key_bounds : Bytes → Option Bytes × Option Bytes
key_bounds row = let (lo, hi) = row_key_range_bounds row in (some lo, some hi)

-- `scanRanges`
unfoldable pub request_ranges : List Bytes → List RowRange → List (Option Bytes × Option Bytes)
unfolding row_range_to_bounds
request_ranges [] [] = (none, none) ∷ []
request_ranges [] (r ∷ rs) = map row_range_to_bounds (r ∷ rs)
request_ranges (k ∷ ks) rs = map key_bounds (k ∷ ks) ++ map row_range_to_bounds rs

unfoldable pub reverse_entries : Entries → Entries
reverse_entries [] = []
reverse_entries (e ∷ entries) = reverse_entries entries ++ e ∷ []

-- the variables at the start
abbrev pub initial : Option RowFilterEngine → Scan
initial engine = record {
  chunk_buf = [];
  last_scanned_row_key = [];
  row_count = 0;
  filter_engine = engine;
  draws = 0;
  dec = new_decoder;
  sent = [];
  last_row_key = [];
  row_started = false;
}

-- the entries that the iterator of a range goes through
abbrev pub range_entries :
    (pebble : Pebble) → pebble.DB → Bool → Option Bytes × Option Bytes → Entries
range_entries pebble db reversed bounds =
    let entries = pebble.scan db bounds.0 bounds.1 in
    if reversed then reverse_entries entries else entries

module _ (pebble : Pebble) (opening : Option String) (compile : Bytes → Option (Bytes → Bool))
    (send : ℕ → Option Status) where
  -- `filterEngine`: `none` is an error, `some none` is no filter
  unfoldable pub request_engine : MaybeFilter → Option (Option RowFilterEngine)
  request_engine absent = some none
  request_engine (present f) = elim (new_row_filter_engine compile (present f)) [
    | none ↦ none
    | some e ↦ some (some e)
  ]

  -- `ReadRows`: the responses sent, and the error returned
  unfoldable pub read_rows : pebble.DB → Request → List Response × Option Status
  read_rows db req = elim opening [
    | some cause ↦ ([], some (errorf internal "opening table: %v" cause))
    | none ↦ elim (request_engine req.filter) [
      | none ↦ ([], some (errorf invalid_argument "invalid filter: %v" ""))
      | some engine ↦
          (let ranges = request_ranges req.row_keys req.row_ranges in
            let (s, e) =
              scan_ranges send req.rows_limit (map (range_entries pebble db req.reversed) ranges)
                (initial engine) in
            let (t, e') = flush send s in
            elim e [ some status ↦ (s.sent, some status) | none ↦ (t.sent, e') ])
    ]
  ]
