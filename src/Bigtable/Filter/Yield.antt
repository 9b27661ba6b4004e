-- ===== src/Bigtable/Filter/Yield.antt =====
-- pkg/bigtable/filter.go: `hasMatch` beside `process`.
use cloudpebble.Base.{
  ℕ, ◌+◌, ◌≤◌, Bool, true, false, none, some, List, [], ◌∷◌, ltb, ◌≡◌, refl, sym, ◌∙◌, ap, arith,
  Bool-cases, Option-cases, inl, inr,
}
use cloudpebble.Base.Order.{Bytes}
use cloudpebble.Pebble.{Entries}
use cloudpebble.Bigtable.Encoding.Decoder.{CellKey, CellDecoder, decode}
use cloudpebble.Bigtable.Filter.Evaluator.{Evaluator, evaluate, reset}
use cloudpebble.Bigtable.Filter.Engine.{
  RowFilterEngine, cell_info, match_loop, new_decoder, has_match, process_loop, process,
}

-- a callback that counts the cells that it is told, and goes on
abbrev pub count_cell : ℕ → CellKey → Bytes → List Bytes → ℕ × Bool
count_cell n cell value labels = (n + 1, true)

-- how many cells `process` yields
unfoldable pub yielded : RowFilterEngine → Entries → ℕ
yielded engine entries = (process count_cell engine 0 entries 0 false).0

module _ (strips : Bool) (labels : List Bytes) where
  abbrev counted : Evaluator → ℕ → CellDecoder → Entries → ℕ → Bool → ℕ
  counted eval draws dec entries n m =
      (process_loop count_cell strips labels eval draws dec entries n m).0

  abbrev matched : Evaluator → ℕ → CellDecoder → Entries → Bool
  matched eval draws dec entries = (match_loop eval draws dec entries).0

  -- the decoder after an entry, and what evaluating its cell gives
  abbrev after : CellDecoder → Bytes → CellDecoder
  after dec key = (decode dec key).0

  counted-skipped :
      (eval : Evaluator) (draws : ℕ) (dec : CellDecoder) (key value : Bytes) (es : Entries) (n : ℕ)
      (m : Bool)
      → (decode dec key).1 ≡ none
      → (counted eval draws dec ((key, value) ∷ es) n m ≡ counted eval draws (after dec key) es n m)
        × (matched eval draws dec ((key, value) ∷ es) ≡ matched eval draws (after dec key) es)
  unfolding process_loop match_loop
  counted-skipped eval draws dec key value es n m h =
      (rw (h, counted, process_loop) refl, ground (arith, h))

  counted-refused :
      (eval : Evaluator) (draws : ℕ) (dec : CellDecoder) (key value : Bytes) (es : Entries) (n : ℕ)
      (m : Bool) (c : CellKey)
      → (decode dec key).1 ≡ some c
      → (evaluate eval (cell_info c value) draws).0 ≡ false
      → let e = (evaluate eval (cell_info c value) draws).1 in
        let d = (evaluate eval (cell_info c value) draws).2 in
        (counted eval draws dec ((key, value) ∷ es) n m ≡ counted e d (after dec key) es n m)
        × (matched eval draws dec ((key, value) ∷ es) ≡ matched e d (after dec key) es)
  unfolding process_loop match_loop
  counted-refused eval draws dec key value es n m c h g =
      (rw (h, g, counted, process_loop) refl, ground (arith, h, g))

  counted-passed :
      (eval : Evaluator) (draws : ℕ) (dec : CellDecoder) (key value : Bytes) (es : Entries) (n : ℕ)
      (m : Bool) (c : CellKey)
      → (decode dec key).1 ≡ some c
      → (evaluate eval (cell_info c value) draws).0 ≡ true
      → let e = (evaluate eval (cell_info c value) draws).1 in
        let d = (evaluate eval (cell_info c value) draws).2 in
        (counted eval draws dec ((key, value) ∷ es) n m
          ≡ counted e d (after dec key) es (n + 1) true)
        × (matched eval draws dec ((key, value) ∷ es) ≡ true)
  unfolding process_loop match_loop
  counted-passed eval draws dec key value es n m c h g =
      (rw (h, g, counted, process_loop) refl, ground (arith, h, g))

  -- The count does not go down.
  counted-le :
      (eval : Evaluator) (draws : ℕ) (dec : CellDecoder) (es : Entries) (n : ℕ) (m : Bool)
      → n ≤ counted eval draws dec es n m
  counted-le eval draws dec [] n m = unfold process_loop in omega arith
  counted-le eval draws dec ((key, value) ∷ es) n m = elim (Option-cases (decode dec key).1) [
    | inl h ↦
        let e = (counted-skipped eval draws dec key value es n m h).0 in
        omega (arith, e, counted-le eval draws (after dec key) es n m)
    | inr (c, h) ↦
        let r = evaluate eval (cell_info c value) draws in
        elim (Bool-cases r.0) [
          | inl g ↦
              let e = (counted-passed eval draws dec key value es n m c h g).0 in
              omega (arith, e, counted-le r.1 r.2 (after dec key) es (n + 1) true)
          | inr g ↦
              let e = (counted-refused eval draws dec key value es n m c h g).0 in
              omega (arith, e, counted-le r.1 r.2 (after dec key) es n m)
        ]
  ]

  matched-counted :
      (eval : Evaluator) (draws : ℕ) (dec : CellDecoder) (es : Entries) (n : ℕ) (m : Bool)
      → matched eval draws dec es ≡ ltb n (counted eval draws dec es n m)
  matched-counted eval draws dec [] n m = unfold match_loop in unfold process_loop in ground arith
  matched-counted eval draws dec ((key, value) ∷ es) n m = elim (Option-cases (decode dec key).1) [
    | inl h ↦
        let (e, f) = counted-skipped eval draws dec key value es n m h in
        f ∙ matched-counted eval draws (after dec key) es n m ∙ ap (ltb n) (sym e)
    | inr (c, h) ↦
        let r = evaluate eval (cell_info c value) draws in
        elim (Bool-cases r.0) [
          | inr g ↦
              let (e, f) = counted-refused eval draws dec key value es n m c h g in
              f ∙ matched-counted r.1 r.2 (after dec key) es n m ∙ ap (ltb n) (sym e)
          | inl g ↦
              let (e, f) = counted-passed eval draws dec key value es n m c h g in
              let up = counted-le r.1 r.2 (after dec key) es (n + 1) true in
              let more : ltb n (counted r.1 r.2 (after dec key) es (n + 1) true) ≡ true =
                ground (arith, up) in
              f ∙ sym more ∙ ap (ltb n) (sym e)
        ]
  ]

-- `hasMatch` says whether `process` yields a cell of the same entries.
pub has_match-yielded :
    (engine : RowFilterEngine) (entries : Entries)
    → (has_match engine 0 entries).0 ≡ ltb 0 (yielded engine entries)
unfolding has_match yielded process
has_match-yielded engine entries =
    matched-counted engine.strips engine.labels (reset engine.eval) 0 new_decoder entries 0 false
