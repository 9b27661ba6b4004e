-- ===== src/Bigtable/ReadRows/Streamed.antt =====
-- pkg/bigtable/readrows.go: the chunks that a stream has, sent and in the buffer, and what the steps at a
-- row boundary add to them.
use cloudpebble.Base.{
  ℕ, none, some, List, [], ◌∷◌, ◌++◌, leb, length, ◌≡◌, refl, sym, ap, ◌∙◌, Bool-cases, inl, inr,
  append_assoc, append-nil,
}
use cloudpebble.Base.Order.{Bytes}
use cloudpebble.Pebble.{Entries}
use cloudpebble.Bigtable.Encoding.Decoder.{CellKey, decode_cell_key}
use cloudpebble.Bigtable.ReadRows.{CellChunk, append_cell_chunks}
use cloudpebble.Bigtable.ReadRows.Scan.{
  Response, Scan, commit_last_chunk, end_row, leave_row, start_row,
}

-- the chunks without their row status
unfoldable pub uncommitted : List CellChunk → List CellChunk
uncommitted [] = []
uncommitted (c ∷ cs) = record c { row_status = none } ∷ uncommitted cs

-- the chunks of the responses
unfoldable pub all_chunks : List Response → List CellChunk
all_chunks [] = []
all_chunks (r ∷ rs) = r.chunks ++ all_chunks rs

abbrev pub cell_chunks : CellKey → Bytes → List CellChunk
cell_chunks c value = append_cell_chunks [] c.row_key c.family c.qualifier c.timestamp_micros value

-- the chunks of the cells among the entries, in their order
unfoldable pub chunks_of : Entries → List CellChunk
chunks_of [] = []
chunks_of ((key, value) ∷ entries) = elim (decode_cell_key key) [
  | none ↦ chunks_of entries
  | some c ↦ uncommitted (cell_chunks c value) ++ chunks_of entries
]

unfoldable pub all_chunks_of : List Entries → List CellChunk
all_chunks_of [] = []
all_chunks_of (entries ∷ ranges) = chunks_of entries ++ all_chunks_of ranges

pub uncommitted-append :
    (a b : List CellChunk) → uncommitted (a ++ b) ≡ uncommitted a ++ uncommitted b
unfolding uncommitted
uncommitted-append [] b = refl
uncommitted-append (c ∷ a) b = rw (uncommitted-append a b)

pub uncommitted-commit_last_chunk :
    (cs : List CellChunk) → uncommitted (commit_last_chunk cs) ≡ uncommitted cs
unfolding uncommitted commit_last_chunk
uncommitted-commit_last_chunk [] = refl
uncommitted-commit_last_chunk (c ∷ []) = refl
uncommitted-commit_last_chunk (c ∷ d ∷ cs) = rw (uncommitted-commit_last_chunk (d ∷ cs)) refl

pub all_chunks-append : (a b : List Response) → all_chunks (a ++ b) ≡ all_chunks a ++ all_chunks b
unfolding all_chunks
all_chunks-append [] b = refl
all_chunks-append (r ∷ a) b = rw (all_chunks-append a b, append_assoc) refl

-- what a state has streamed or holds to be streamed
abbrev pub streamed : Scan → List CellChunk
streamed s = uncommitted (all_chunks s.sent) ++ uncommitted s.chunk_buf

-- `t` is as `s`, without a filter, with the chunks `cs` added.
abbrev pub Adds : Scan → Scan → List CellChunk → Type 0
Adds s t cs = (t.filter_engine ≡ none) × (streamed t ≡ streamed s ++ cs)

pub append_cell_chunks-append :
    (buf : List CellChunk) (row family qualifier : Bytes) (ts : ℕ) (v : Bytes)
    → append_cell_chunks buf row family qualifier ts v
      ≡ buf ++ append_cell_chunks [] row family qualifier ts v
unfolding append_cell_chunks
append_cell_chunks-append buf row family qualifier ts v = elim (Bool-cases (leb (length v) 65536)) [
  | inl e ↦ rw e refl
  | inr e ↦ rw e refl
]

pub sent-streamed :
    (sent : List Response) (r : Response)
    → uncommitted (all_chunks (sent ++ r ∷ [])) ++ uncommitted []
      ≡ (uncommitted (all_chunks sent) ++ uncommitted r.chunks) ++ []
unfolding uncommitted all_chunks
sent-streamed sent r =
    rw
      (
        all_chunks-append sent (r ∷ []),
        append-nil r.chunks,
        uncommitted-append (all_chunks sent) r.chunks,
      )
      refl

pub held :
    (done buf : List CellChunk) (c : CellKey) (value : Bytes)
    → done
        ++ uncommitted
            (append_cell_chunks buf c.row_key c.family c.qualifier c.timestamp_micros value)
      ≡ (done ++ uncommitted buf) ++ uncommitted (cell_chunks c value)
held done buf c value =
    rw
      (
        append_cell_chunks-append buf c.row_key c.family c.qualifier c.timestamp_micros value,
        uncommitted-append buf (cell_chunks c value),
      )
      (sym (append_assoc done (uncommitted buf) _))

pub Adds-trans : (s t u : Scan) (a b : List CellChunk) → Adds s t a → Adds t u b → Adds s u (a ++ b)
Adds-trans s t u a b h k = (k.0, k.1 ∙ ap (λ xs. xs ++ b) h.1 ∙ append_assoc (streamed s) a b)

pub streamed-empty : (s : Scan) → s.chunk_buf ≡ [] → streamed s ≡ uncommitted (all_chunks s.sent)
unfolding uncommitted
streamed-empty s e = rw e (append-nil _)

pub end_row-Adds : (s : Scan) → s.filter_engine ≡ none → Adds s (end_row s) []
unfolding end_row
end_row-Adds s h = elim (Bool-cases s.row_started) [
  | inl e ↦ rw e (h, rw (uncommitted-commit_last_chunk s.chunk_buf) (sym (append-nil _)))
  | inr e ↦ rw e (h, sym (append-nil _))
]

pub leave_row-Adds : (s : Scan) → s.filter_engine ≡ none → Adds s (leave_row s) []
unfolding leave_row
leave_row-Adds s h = end_row-Adds s h

pub start_row-Adds : (row : Bytes) (s : Scan) → s.filter_engine ≡ none → Adds s (start_row row s) []
unfolding start_row
start_row-Adds row s h = (rw h refl, sym (append-nil _))
