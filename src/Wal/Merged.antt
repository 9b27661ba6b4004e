-- ===== src/Wal/Merged.antt =====
-- pkg/walcloud/manager.go: a merged log object is the representation of the batches of its segments.
-- The format of a batch is Pebble's, and is a parameter with what its documentation says of it.
use cloudpebble.Base.{
  ℕ, ◌+◌, ◌^◌, ◌≤◌, ◌<◌, true, Option, some, List, [], ◌∷◌, ◌++◌, length, drop, ◌≡◌, refl, sym, ap,
  ◌∙◌, arith, append-nil, length-append,
}
use cloudpebble.Base.Order.{Bytes, IsBytes}
use cloudpebble.Pebble.{Batch}
use cloudpebble.Wal.Batches.{
  merge_batch_segments, merge_batch_segments-parts, batch_count, records, bodies, all_valid,
  set_batch_count-long, total_count,
}

-- the records of a batch, how many there are, and `SetRepr`: it reads as many records as the header
-- says from what follows the header
pub record Format : Type 0 where
  pub body : Batch → Bytes
  pub count : Batch → ℕ
  pub read : Bytes → Option Batch
  pub body-nil : body [] ≡ []
  pub count-nil : count [] ≡ 0
  pub body-append : (b c : Batch) → body (b ++ c) ≡ body b ++ body c
  pub count-append : (b c : Batch) → count (b ++ c) ≡ count b + count c
  pub read-header :
      (d : Bytes) (b : Batch)
      → 12 ≤ length d
      → batch_count d ≡ count b
      → drop 12 d ≡ body b
      → read d ≡ some b

-- the batches one after the other
unfoldable pub joined : List Batch → Batch
joined [] = []
joined (b ∷ bs) = b ++ joined bs

merge_batch_segments-one : (s : Bytes) → merge_batch_segments (s ∷ []) ≡ s
unfolding merge_batch_segments
merge_batch_segments-one s = refl

merge_batch_segments-long :
    (s t : Bytes) (ss : List Bytes)
    → all_valid (s ∷ t ∷ ss) ≡ true
    → 12 ≤ length s
    → 12 ≤ length (merge_batch_segments (s ∷ t ∷ ss))
unfolding merge_batch_segments
merge_batch_segments-long s t ss valid l =
    let m = s ++ bodies (t ∷ ss) in
    let lm : 12 ≤ length m = omega (arith, l, length-append s (bodies (t ∷ ss))) in
    rw valid (set_batch_count-long m (total_count (batch_count s) (t ∷ ss)) lm)

module _ (format : Format) where
  -- a segment is the representation of a batch, with any sequence number
  abbrev pub IsSegment : Bytes → Batch → Type 0
  IsSegment s b =
      (12 ≤ length s) × IsBytes s × (batch_count s ≡ format.count b) × (drop 12 s ≡ format.body b)

  abbrev pub AllSegments : List Bytes → List Batch → Type 0
  AllSegments [] [] = Unit
  AllSegments [] (b ∷ bs) = ⊥
  AllSegments (s ∷ ss) [] = ⊥
  AllSegments (s ∷ ss) (b ∷ bs) = IsSegment s b × AllSegments ss bs

  joined-one : (b : Batch) → joined (b ∷ []) ≡ b
  unfolding joined
  joined-one b = append-nil b

  segments-all_valid : (ss : List Bytes) (bs : List Batch) → AllSegments ss bs → all_valid ss ≡ true
  unfolding all_valid
  segments-all_valid [] bs h = refl
  segments-all_valid (s ∷ ss) [] h = absurd h
  segments-all_valid (s ∷ ss) (b ∷ bs) h = ground (arith, h.0.0, segments-all_valid ss bs h.1)

  segments-bodies :
      (ss : List Bytes) (bs : List Batch) → AllSegments ss bs → bodies ss ≡ format.body (joined bs)
  unfolding bodies joined
  segments-bodies [] [] h = sym format.body-nil
  segments-bodies [] (b ∷ bs) h = absurd h
  segments-bodies (s ∷ ss) [] h = absurd h
  segments-bodies (s ∷ ss) (b ∷ bs) h =
      ap (λ x. x ++ bodies ss) h.0.3
      ∙ ap (λ x. format.body b ++ x) (segments-bodies ss bs h.1)
      ∙ sym (format.body-append b (joined bs))

  segments-records :
      (ss : List Bytes) (bs : List Batch)
      → AllSegments ss bs
      → records ss ≡ format.count (joined bs)
  unfolding records joined
  segments-records [] [] h = sym format.count-nil
  segments-records [] (b ∷ bs) h = absurd h
  segments-records (s ∷ ss) [] h = absurd h
  segments-records (s ∷ ss) (b ∷ bs) h =
      omega (arith, h.0.2, segments-records ss bs h.1, format.count-append b (joined bs))

  -- The merge of segments that represent batches with fewer than 2^32 records in all reads as these
  -- batches, one after the other.
  pub read-merge_batch_segments :
      (s : Bytes) (ss : List Bytes) (b : Batch) (bs : List Batch)
      → AllSegments (s ∷ ss) (b ∷ bs)
      → format.count (joined (b ∷ bs)) < 2 ^ 32
      → format.read (merge_batch_segments (s ∷ ss)) ≡ some (joined (b ∷ bs))
  read-merge_batch_segments s [] b [] h small =
      ap format.read (merge_batch_segments-one s)
      ∙ format.read-header s b h.0.0 h.0.2 h.0.3
      ∙ ap some (sym (joined-one b))
  read-merge_batch_segments s [] b (c ∷ bs) h small = absurd h.1
  read-merge_batch_segments s (t ∷ ss) b [] h small = absurd h.1
  read-merge_batch_segments s (t ∷ ss) b (c ∷ bs) h small =
      let valid = segments-all_valid (s ∷ t ∷ ss) (b ∷ c ∷ bs) h in
      let (p, q, r) = merge_batch_segments-parts s t ss valid h.0.1 in
      let n = segments-records (s ∷ t ∷ ss) (b ∷ c ∷ bs) h in
      let big = merge_batch_segments-long s t ss valid h.0.0 in
      format.read-header (merge_batch_segments (s ∷ t ∷ ss)) (joined (b ∷ c ∷ bs)) big
        (q ∙ omega (arith, n, small)) (r ∙ segments-bodies (s ∷ t ∷ ss) (b ∷ c ∷ bs) h)
