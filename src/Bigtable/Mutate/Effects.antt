-- ===== src/Bigtable/Mutate/Effects.antt =====
-- pkg/bigtable/mutate.go: the batches of mutations make of a cell what the mutations make of it.
use native.Mathlib.Omega.{arith}
use mathlib.Core.Path.{subst}
use mathlib.Core.Option.{some-injective}
use cloudpebble.Base.{
  ℕ, suc, ◌*◌, ◌≤◌, ◌<◌, ◌^◌, false, ◌&&◌, Option, none, some, List, [], ◌∷◌, ◌++◌, ◌==◌, ltb,
  if◌then◌else◌, length, ◌≡◌, sym, ap, ◌∙◌, Bool-cases, inl, inr, lt→ltb,
}
use cloudpebble.Base.Order.{Bytes, equal_bytes, equal_bytes_iff, equal_bytes_refl}
use cloudpebble.Base.Int64.{minus_one}
use cloudpebble.Pebble.{Op, set, Batch, effect, effects, effects-append}
use cloudpebble.Bigtable.Status.{Status}
use cloudpebble.Bigtable.Encoding.{
  encode_cell_key, inverted_timestamp, row_key_range_bounds, row_key_family_bounds,
  row_key_column_bounds,
}
use cloudpebble.Bigtable.Encoding.Decoder.{CellKey, decode_cell_key}
use cloudpebble.Bigtable.Encoding.Canonical.{key_of}
use cloudpebble.Bigtable.Encoding.RoundTrip.{decode_cell_key-encode_cell_key}
use cloudpebble.Bigtable.Encoding.Ranges.{
  within-row_key_range_bounds, within-row_key_family_bounds, within-row_key_column_bounds,
}
use cloudpebble.Bigtable.Encoding.Times.{within-encode_timestamp_range_bounds}
use cloudpebble.Bigtable.Mutate.{
  TimestampRange, Mutation, set_cell, delete_from_column, delete_from_family, delete_from_row,
  add_to_cell, merge_to_cell, unset, apply_mutation_to_batch, apply_mutations_to_batch,
}
use cloudpebble.Bigtable.Mutate.Cells.{
  in_column, end_of, mutate_cell, IsPlain, Fits, mutate_cell_all, AllFit,
}

key_of-injective :
    (c d : CellKey)
    → length c.family ≤ 255
    → length c.qualifier ≤ 65535
    → c.timestamp_micros < 2 ^ 64
    → length d.family ≤ 255
    → length d.qualifier ≤ 65535
    → d.timestamp_micros < 2 ^ 64
    → key_of c ≡ key_of d
    → c ≡ d
key_of-injective c d h1 h2 h3 h4 h5 h6 e = some-injective c d (
    sym (decode_cell_key-encode_cell_key c.row_key c.family c.qualifier c.timestamp_micros h1 h2 h3)
    ∙ ap decode_cell_key e
    ∙ decode_cell_key-encode_cell_key d.row_key d.family d.qualifier d.timestamp_micros h4 h5 h6)

differ :
    (c : CellKey) (row f q : Bytes) (ts : ℕ)
    → c ≡ record { row_key = row; family = f; qualifier = q; timestamp_micros = ts }
    → (in_column row f q c && ts == c.timestamp_micros) ≡ false
    → ⊥
differ c row f q ts p h =
    let er : c.row_key ≡ row = ap (λ (d : CellKey). d.row_key) p in
    let ef : c.family ≡ f = ap (λ (d : CellKey). d.family) p in
    let eq : c.qualifier ≡ q = ap (λ (d : CellKey). d.qualifier) p in
    let et : c.timestamp_micros ≡ ts = ap (λ (d : CellKey). d.timestamp_micros) p in
    ground (
      arith,
      (equal_bytes_iff row c.row_key).1 (sym er),
      (equal_bytes_iff f c.family).1 (sym ef),
      (equal_bytes_iff q c.qualifier).1 (sym eq),
    )

-- Two cells have one key exactly when they are one cell.
pub equal_bytes-encode_cell_key :
    (c : CellKey) (row f q : Bytes) (ts : ℕ)
    → length c.family ≤ 255
    → length c.qualifier ≤ 65535
    → c.timestamp_micros < 2 ^ 64
    → length f ≤ 255
    → length q ≤ 65535
    → ts < 2 ^ 64
    → equal_bytes (key_of c) (encode_cell_key row f q ts)
      ≡ (in_column row f q c && ts == c.timestamp_micros)
equal_bytes-encode_cell_key c row f q ts h1 h2 h3 h4 h5 h6 =
    elim (Bool-cases (in_column row f q c && ts == c.timestamp_micros)) [
      | inl same ↦
          let er : row ≡ c.row_key = (equal_bytes_iff row c.row_key).0 (ground arith) in
          let ef : f ≡ c.family = (equal_bytes_iff f c.family).0 (ground arith) in
          let eq : q ≡ c.qualifier = (equal_bytes_iff q c.qualifier).0 (ground arith) in
          let et : ts ≡ c.timestamp_micros = ground arith in
          rw same (rw (er, ef, eq, et) (equal_bytes_refl (key_of c)))
      | inr other ↦ elim (Bool-cases (equal_bytes (key_of c) (encode_cell_key row f q ts))) [
        | inr ne ↦ rw other ne
        | inl e ↦
            let cell : CellKey = record {
              row_key = row;
              family = f;
              qualifier = q;
              timestamp_micros = ts;
            } in
            let p : c ≡ cell =
              key_of-injective c cell h1 h2 h3 h4 h5 h6 ((equal_bytes_iff _ _).0 e) in
            absurd (differ c row f q ts p other)
      ]
    ]

effects-concat :
    (batch : Batch) (op : Op) (k : Bytes) (old : Option Bytes)
    → effects (batch ++ op ∷ []) k old ≡ effect op k (effects batch k old)
unfolding effects
effects-concat batch op k old = effects-append batch (op ∷ []) k old

same_batch :
    {x : Batch × Option Status} {b : Batch} (k : Bytes) (old : Option Bytes) {new : Option Bytes}
    → x ≡ (b, none)
    → effects x.0 k old ≡ new
    → effects b k old ≡ new
same_batch k old {new} p h = subst (λ (y : Batch × Option Status). effects y.0 k old ≡ new) p h

module _ (row : Bytes) (now : ℕ) (c : CellKey) (plain : IsPlain c) (batch : Batch) where
  family_fits : length c.family ≤ 255
  family_fits = omega (arith, plain.family_short)

  qualifier_fits : length c.qualifier ≤ 65535
  qualifier_fits = omega (arith, plain.qualifier_short)

  effects-set_cell :
      (f q : Bytes) (ts : ℕ) (v : Bytes) (b : Batch) (old : Option Bytes)
      → Fits (set_cell f q ts v) now
      → apply_mutation_to_batch batch row (set_cell f q ts v) now ≡ (b, none)
      → effects b (key_of c) old
        ≡ mutate_cell row (set_cell f q ts v) now c (effects batch (key_of c) old)
  unfolding apply_mutation_to_batch mutate_cell effect
  effects-set_cell f q ts v b old fits h = elim (Bool-cases (ltb 255 (length f))) [
    | inl long ↦ ground arith
    | inr fs ↦ elim (Bool-cases (ltb 65535 (length q))) [
      | inl long ↦ ground arith
      | inr qs ↦
          let t : ℕ = if ts == minus_one then now else ts in
          let e : b ≡ batch ++ set (encode_cell_key row f q t) v ∷ [] = ground arith in
          rw (
            e,
            effects-concat batch _ (key_of c) old,
            equal_bytes-encode_cell_key c row f q t family_fits qualifier_fits plain.timestamp_fits
                (ground arith) (ground arith) (ground arith),
          )
    ]
  ]

  effects-delete_from_row :
      (old : Option Bytes)
      → effects (apply_mutation_to_batch batch row delete_from_row now).0 (key_of c) old
        ≡ mutate_cell row delete_from_row now c (effects batch (key_of c) old)
  unfolding apply_mutation_to_batch mutate_cell effect row_key_range_bounds
  effects-delete_from_row old =
      rw
        (
          effects-concat batch _ (key_of c) old,
          within-row_key_range_bounds c.row_key c.family c.qualifier c.timestamp_micros family_fits
              qualifier_fits row,
          lt→ltb (length c.family) 255 plain.family_short,
        )
        (ground arith)

  effects-delete_from_family :
      (f : Bytes) (old : Option Bytes)
      → length f ≤ 255
      → effects (apply_mutation_to_batch batch row (delete_from_family f) now).0 (key_of c) old
        ≡ mutate_cell row (delete_from_family f) now c (effects batch (key_of c) old)
  unfolding apply_mutation_to_batch mutate_cell effect row_key_family_bounds
  effects-delete_from_family f old hf =
      rw
        (
          effects-concat batch _ (key_of c) old,
          within-row_key_family_bounds c.row_key c.family c.qualifier c.timestamp_micros family_fits
              qualifier_fits row f hf,
          lt→ltb (length c.qualifier) 65280 plain.qualifier_short,
        )
        (ground arith)

  effects-delete_column :
      (f q : Bytes) (old : Option Bytes)
      → length f ≤ 255
      → length q ≤ 65535
      → effects
          (apply_mutation_to_batch batch row (delete_from_column f q none) now).0
          (key_of c)
          old
        ≡ mutate_cell row (delete_from_column f q none) now c (effects batch (key_of c) old)
  unfolding apply_mutation_to_batch mutate_cell effect row_key_column_bounds
  effects-delete_column f q old hf hq =
      rw
        (
          effects-concat batch _ (key_of c) old,
          within-row_key_column_bounds c.row_key c.family c.qualifier c.timestamp_micros family_fits
              qualifier_fits row f q hf hq,
          lt→ltb (inverted_timestamp c.timestamp_micros) (255 * 2 ^ 56) plain.timestamp_high,
        )
        (ground arith)

  effects-delete_times :
      (f q : Bytes) (tr : TimestampRange) (old : Option Bytes)
      → Fits (delete_from_column f q (some tr)) now
      → effects
          (apply_mutation_to_batch batch row (delete_from_column f q (some tr)) now).0
          (key_of c)
          old
        ≡ mutate_cell row (delete_from_column f q (some tr)) now c (effects batch (key_of c) old)
  unfolding apply_mutation_to_batch mutate_cell effect
  effects-delete_times f q tr old fits = rw (
    effects-concat batch _ (key_of c) old,
    within-encode_timestamp_range_bounds row f q c.row_key c.family c.qualifier
        tr.start_timestamp_micros (end_of tr now) c.timestamp_micros fits.0 fits.1 family_fits
        qualifier_fits (ground arith) (ground arith) plain.timestamp_fits (ground arith)
        (ground arith),
  )

  -- The operation that a mutation adds to a batch does to the cell's key what the mutation does to
  -- the cell.
  pub effects-apply_mutation_to_batch :
      (m : Mutation) (b : Batch) (old : Option Bytes)
      → Fits m now
      → apply_mutation_to_batch batch row m now ≡ (b, none)
      → effects b (key_of c) old ≡ mutate_cell row m now c (effects batch (key_of c) old)
  effects-apply_mutation_to_batch (set_cell f q ts v) b old fits h =
      effects-set_cell f q ts v b old fits h
  effects-apply_mutation_to_batch (delete_from_column f q none) b old fits h =
      same_batch (key_of c) old h (effects-delete_column f q old fits.0 fits.1)
  effects-apply_mutation_to_batch (delete_from_column f q (some tr)) b old fits h =
      same_batch (key_of c) old h (effects-delete_times f q tr old fits)
  effects-apply_mutation_to_batch (delete_from_family f) b old fits h =
      same_batch (key_of c) old h (effects-delete_from_family f old fits)
  effects-apply_mutation_to_batch delete_from_row b old fits h =
      same_batch (key_of c) old h (effects-delete_from_row old)
  effects-apply_mutation_to_batch add_to_cell b old fits h = unfold apply_mutation_to_batch in cc
  effects-apply_mutation_to_batch merge_to_cell b old fits h = unfold apply_mutation_to_batch in cc
  effects-apply_mutation_to_batch unset b old fits h = unfold apply_mutation_to_batch in cc

-- A list of mutations succeeds only if its first one and the others do.
pub apply_mutations_to_batch-cons :
    (row : Bytes) (m : Mutation) (ms : List Mutation) (clock : ℕ → ℕ) (batch b : Batch)
    → apply_mutations_to_batch batch row (m ∷ ms) clock ≡ (b, none)
    → (b1 : Batch) × (apply_mutation_to_batch batch row m (clock 0) ≡ (b1, none))
      × (apply_mutations_to_batch b1 row ms (λ i. clock (suc i)) ≡ (b, none))
unfolding apply_mutations_to_batch
apply_mutations_to_batch-cons row m ms clock batch b h =
    ((apply_mutation_to_batch batch row m (clock 0)).0, ground arith, ground arith)

-- The batch that the mutations of a request build does to a cell's key what they do to the cell.
pub effects-apply_mutations_to_batch :
    (row : Bytes) (ms : List Mutation) (clock : ℕ → ℕ) (c : CellKey) (batch b : Batch)
    (old : Option Bytes)
    → IsPlain c
    → AllFit ms clock
    → apply_mutations_to_batch batch row ms clock ≡ (b, none)
    → effects b (key_of c) old ≡ mutate_cell_all row ms clock c (effects batch (key_of c) old)
unfolding apply_mutations_to_batch mutate_cell_all
effects-apply_mutations_to_batch row [] clock c batch b old plain fits h =
    sym (ap (λ (x : Batch × Option Status). effects x.0 (key_of c) old) h)
effects-apply_mutations_to_batch row (m ∷ ms) clock c batch b old plain fits h =
    let (b1, first, later) = apply_mutations_to_batch-cons row m ms clock batch b h in
    effects-apply_mutations_to_batch row ms (λ i. clock (suc i)) c b1 b old plain fits.1 later
    ∙ ap (mutate_cell_all row ms (λ i. clock (suc i)) c)
        (effects-apply_mutation_to_batch row (clock 0) c plain batch m b1 old fits.0 first)
