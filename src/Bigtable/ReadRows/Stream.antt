-- ===== src/Bigtable/ReadRows/Stream.antt =====
-- pkg/bigtable/readrows.go: what `ReadRows` streams of the cells that its iterators go through.
use cloudpebble.Base.{ℕ, Bool, Option, none, List, ◌≡◌}
use cloudpebble.Base.Order.{Bytes}
use cloudpebble.Pebble.{Pebble}
use cloudpebble.Bigtable.Status.{Status}
use cloudpebble.Bigtable.Encoding.Decoder.{CellKey, decode}
use cloudpebble.Bigtable.Filter.Message.{absent}
use cloudpebble.Bigtable.ReadRows.{RowRange}
use cloudpebble.Bigtable.ReadRows.Scan.{Scan, Request, emit_cell, enter_row}

module _ (send : ℕ → Option Status) (sends : (n : ℕ) → send n ≡ none) where
  -- the variables after a cell that could be decoded
  cell_step : CellKey → Bytes → Bytes → Scan → Scan
  cell_step c key value s =
      (emit_cell send c value (enter_row c.row_key (record s { dec = (decode s.dec key).0 }))).0

-- a request without filter and limit
abbrev pub plain_request : List Bytes → List RowRange → Bool → Request
plain_request row_keys row_ranges reversed = record {
  row_keys = row_keys;
  row_ranges = row_ranges;
  filter = absent;
  rows_limit = 0;
  reversed = reversed;
}
