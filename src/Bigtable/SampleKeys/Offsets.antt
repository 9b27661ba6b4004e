-- ===== src/Bigtable/SampleKeys/Offsets.antt =====
-- pkg/bigtable/samplekeys.go: the offsets of the samples.
use cloudpebble.Base.{
  ℕ, ◌≤◌, Option, List, [], ◌∷◌, ◌++◌, arith, Option-cases, List-cases, inl, inr,
}
use cloudpebble.Bigtable.Encoding.Decoder.{decode}
use cloudpebble.Bigtable.Status.{Status}
use cloudpebble.Bigtable.SampleKeys.{
  SsTable, Sample, Sampling, Tables, unlisted, levels, max_int64, add_size, sample_table,
  sample_level, sample_levels, sample_row_keys,
}

-- offsets that never go down, from a number on and up to another
abbrev pub IsRising : ℕ → ℕ → List Sample → Type 0
IsRising lo hi [] = lo ≤ hi
IsRising lo hi (s ∷ ss) = (lo ≤ s.offset_bytes) × IsRising s.offset_bytes hi ss

IsRising-snoc :
    (lo hi top : ℕ) (ss : List Sample) (s : Sample)
    → IsRising lo hi ss
    → hi ≤ s.offset_bytes
    → s.offset_bytes ≤ top
    → IsRising lo top (ss ++ s ∷ [])
IsRising-snoc lo hi top [] s h k l = (omega (arith, h, k), l)
IsRising-snoc lo hi top (t ∷ ss) s h k l = (h.0, IsRising-snoc t.offset_bytes hi top ss s h.1 k l)

IsRising-top :
    (lo hi top : ℕ) (ss : List Sample) → IsRising lo hi ss → hi ≤ top → IsRising lo top ss
IsRising-top lo hi top [] h k = omega (arith, h, k)
IsRising-top lo hi top (t ∷ ss) h k = (h.0, IsRising-top t.offset_bytes hi top ss h.1 k)

add_size-le : (o n : ℕ) → o ≤ max_int64 → (o ≤ add_size o n) × (add_size o n ≤ max_int64)
unfolding add_size
add_size-le o n h = ground (arith, h)

abbrev IsSound : Sampling → Type 0
IsSound s = IsRising 0 s.offset s.sent × (s.offset ≤ max_int64)

module _ (send : Sample → Option Status) where
  sample_table-IsSound :
      (t : SsTable) (s : Sampling) → IsSound s → IsSound (sample_table send t s).0
  unfolding sample_table
  sample_table-IsSound t s h =
      let (up, top) = add_size-le s.offset t.size h.1 in
      elim (List-cases t.smallest) [
        | inl e ↦
            rw (e, sample_table)
              (IsRising-top 0 s.offset (add_size s.offset t.size) s.sent h.0 up, top)
        | inr (c, cs, e) ↦ elim (Option-cases (decode s.decoder (c ∷ cs)).1) [
          | inl f ↦ rw (e, f, sample_table) h
          | inr (k, f) ↦ elim (List-cases k.row_key) [
            | inl g ↦ rw (e, f, g, sample_table) h
            | inr (r, rs, g) ↦
                let sample : Sample = record { row_key = r ∷ rs; offset_bytes = s.offset } in
                elim (Option-cases (send sample)) [
                  | inr (status, x) ↦ rw (e, f, g, x, sample_table) h
                  | inl x ↦
                      rw (e, f, g, x, sample_table)
                        (
                          IsRising-snoc 0 s.offset (add_size s.offset t.size) s.sent sample h.0
                              (omega arith) up,
                          top,
                        )
                ]
          ]
        ]
      ]

  sample_level-IsSound :
      (ts : List SsTable) (s : Sampling) → IsSound s → IsSound (sample_level send ts s).0
  unfolding sample_level
  sample_level-IsSound [] s h = h
  sample_level-IsSound (t ∷ ts) s h =
      let k = sample_table-IsSound t s h in
      elim (Option-cases (sample_table send t s).1) [
        | inr (status, e) ↦ rw (e, sample_level) k
        | inl e ↦ rw (e, sample_level) (sample_level-IsSound ts (sample_table send t s).0 k)
      ]

  sample_levels-IsSound :
      (tss : List (List SsTable)) (s : Sampling) → IsSound s → IsSound (sample_levels send tss s).0
  unfolding sample_levels
  sample_levels-IsSound [] s h = h
  sample_levels-IsSound (ts ∷ tss) s h =
      let k = sample_level-IsSound ts s h in
      elim (Option-cases (sample_level send ts s).1) [
        | inr (status, e) ↦ rw (e, sample_levels) k
        | inl e ↦ rw (e, sample_levels) (sample_levels-IsSound tss (sample_level send ts s).0 k)
      ]

  -- The offsets that SampleRowKeys sends never go down, and are int64 numbers that are not negative,
  -- whatever the sizes of the tables, and whether all is sent or not.
  pub sample_row_keys-IsRising :
      (tables : Tables) → IsRising 0 max_int64 (sample_row_keys send tables).0
  unfolding sample_row_keys
  sample_row_keys-IsRising (unlisted cause) = omega arith
  sample_row_keys-IsRising (levels tss) =
      let start : Sampling = record {
        decoder = record { row_key_buf = []; qualifier_buf = [] };
        offset = 0;
        sent = [];
      } in
      let (rising, top) = sample_levels-IsSound tss start (omega arith, omega arith) in
      IsRising-top 0 (sample_levels send tss start).0.offset max_int64
        (sample_levels send tss start).0.sent rising top
