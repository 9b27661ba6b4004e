-- ===== src/Wal/Batches.antt =====
-- pkg/walcloud/manager.go: merging the batches of a window into one. A batch in Pebble's
-- representation is 8 bytes of sequence number, a 32-bit little-endian count of its records, and the
-- records.
use cloudpebble.Base.{
  ℕ, zero, suc, ◌+◌, ◌*◌, ◌/◌, ◌%◌, ◌^◌, ◌≤◌, ◌<◌, Bool, true, ◌&&◌, List, [], ◌∷◌, ◌++◌, ltb, leb,
  if◌then◌else◌, length, take, drop, ◌≡◌, refl, sym, ap, ◌∙◌, arith, Bool-cases, inl, inr,
  append_assoc, length-append, length-take, take-append_exact, subst, All-drop, drop-append_exact,
  le→ltb,
}
use cloudpebble.Base.Order.{Bytes, IsBytes}

abbrev pub batch_header_len : ℕ
batch_header_len = 12

-- The four bytes of a count, the lowest first; joined by `|` of shifted bytes, which is their sum.
unfoldable pub count_in : Bytes → ℕ
count_in (a ∷ b ∷ c ∷ d ∷ rest) = a + b * 2 ^ 8 + c * 2 ^ 16 + d * 2 ^ 24
count_in _ = 0

-- `batchCount`
unfoldable pub batch_count : Bytes → ℕ
unfolding count_in
batch_count batch = if ltb (length batch) batch_header_len then 0 else count_in (drop 8 batch)

-- `binary.LittleEndian.PutUint32`
unfoldable pub put_uint32 : ℕ → Bytes
put_uint32 n = (n % 256) ∷ (n / 2 ^ 8 % 256) ∷ (n / 2 ^ 16 % 256) ∷ (n / 2 ^ 24 % 256) ∷ []

-- `setBatchCount`
unfoldable pub set_batch_count : Bytes → ℕ → Bytes
unfolding put_uint32
set_batch_count batch n = take 8 batch ++ (put_uint32 n ++ drop 12 batch)

unfoldable pub all_valid : List Bytes → Bool
all_valid [] = true
all_valid (s ∷ segments) = leb batch_header_len (length s) && all_valid segments

-- the fall-back: all segments as they are
unfoldable pub concatenation : List Bytes → Bytes
concatenation [] = []
concatenation (s ∷ segments) = s ++ concatenation segments

-- the segments behind the first, without their headers
unfoldable pub bodies : List Bytes → Bytes
bodies [] = []
bodies (s ∷ segments) = drop batch_header_len s ++ bodies segments

-- `totalCount`, a uint32, from the count so far
unfoldable pub total_count : ℕ → List Bytes → ℕ
total_count n [] = n
total_count n (s ∷ segments) = total_count ((n + batch_count s) % 2 ^ 32) segments

-- `mergeBatchSegments`
unfoldable pub merge_batch_segments : List Bytes → Bytes
unfolding all_valid concatenation bodies total_count
merge_batch_segments [] = []
merge_batch_segments (s ∷ []) = s
merge_batch_segments (s ∷ t ∷ segments) =
    if all_valid (s ∷ t ∷ segments)
    then set_batch_count (s ++ bodies (t ∷ segments)) (total_count (batch_count s) (t ∷ segments))
    else concatenation (s ∷ t ∷ segments)

-- the sum of the counts
unfoldable pub records : List Bytes → ℕ
records [] = 0
records (s ∷ segments) = batch_count s + records segments

count_in-lt : (cs : Bytes) → IsBytes cs → count_in cs < 2 ^ 32
unfolding count_in
count_in-lt [] h = omega arith
count_in-lt (a ∷ []) h = omega arith
count_in-lt (a ∷ b ∷ []) h = omega arith
count_in-lt (a ∷ b ∷ c ∷ []) h = omega arith
count_in-lt (a ∷ b ∷ c ∷ d ∷ rest) h = omega arith

count_in-put_uint32 : (n : ℕ) (rest : Bytes) → n < 2 ^ 32 → count_in (put_uint32 n ++ rest) ≡ n
unfolding count_in put_uint32
count_in-put_uint32 n rest h = omega arith

total_count-records :
    (n : ℕ) (segments : List Bytes)
    → n < 2 ^ 32
    → total_count n segments ≡ (n + records segments) % 2 ^ 32
unfolding total_count records
total_count-records n [] h = omega arith
total_count-records n (s ∷ segments) h =
    omega (arith, total_count-records ((n + batch_count s) % 2 ^ 32) segments (omega arith))

take-append_at : (n : ℕ) (xs ys : Bytes) → length xs ≡ n → take n (xs ++ ys) ≡ xs
take-append_at n xs ys h = subst (λ k. take k (xs ++ ys) ≡ xs) h (take-append_exact xs ys)

drop-append_at : (n : ℕ) (xs ys : Bytes) → length xs ≡ n → drop n (xs ++ ys) ≡ ys
drop-append_at n xs ys h = subst (λ k. drop k (xs ++ ys) ≡ ys) h (drop-append_exact xs ys)

drop-take_header :
    (batch cs rest : Bytes)
    → 8 ≤ length batch
    → length cs ≡ 4
    → drop 12 (take 8 batch ++ (cs ++ rest)) ≡ rest
drop-take_header batch cs rest h l =
    ap (drop 12) (sym (append_assoc (take 8 batch) cs rest))
    ∙ drop-append_at 12 (take 8 batch ++ cs) rest
        (omega (arith, length-append (take 8 batch) cs, length-take 8 batch, l, h))

batch_count-drop : (batch : Bytes) → 12 ≤ length batch → batch_count batch ≡ count_in (drop 8 batch)
unfolding batch_count
batch_count-drop batch h = rw (le→ltb (length batch) 12 h)

pub set_batch_count-long :
    (batch : Bytes) (n : ℕ) → 12 ≤ length batch → 12 ≤ length (set_batch_count batch n)
unfolding set_batch_count put_uint32
set_batch_count-long batch n h =
    omega
      (arith, length-append (take 8 batch) (put_uint32 n ++ drop 12 batch), length-take 8 batch, h)

-- Replacing the count keeps the rest of a batch that has a header.
set_batch_count-parts :
    (batch : Bytes) (n : ℕ)
    → 12 ≤ length batch
    → n < 2 ^ 32
    → (batch_count (set_batch_count batch n) ≡ n)
      × (take 8 (set_batch_count batch n) ≡ take 8 batch)
      × (drop 12 (set_batch_count batch n) ≡ drop 12 batch)
unfolding set_batch_count
set_batch_count-parts batch n h lt =
    let l : length (take 8 batch) ≡ 8 = omega (arith, length-take 8 batch, h) in
    let d = drop-append_at 8 (take 8 batch) (put_uint32 n ++ drop 12 batch) l in
    let big : 12 ≤ length (set_batch_count batch n) = set_batch_count-long batch n h in
    (
      batch_count-drop (set_batch_count batch n) big
          ∙ ap count_in d
          ∙ count_in-put_uint32 n (drop 12 batch) lt,
      take-append_at 8 (take 8 batch) (put_uint32 n ++ drop 12 batch) l,
      drop-take_header batch (put_uint32 n) (drop 12 batch) (omega (arith, h))
          (unfold put_uint32 in refl),
    )

drop-append_within : (n : ℕ) (xs ys : Bytes) → n ≤ length xs → drop n (xs ++ ys) ≡ drop n xs ++ ys
drop-append_within zero xs ys h = refl
drop-append_within (suc n) [] ys h = absurd (omega (arith, h))
drop-append_within (suc n) (x ∷ xs) ys h = drop-append_within n xs ys (omega (arith, h))

take-append_within : (n : ℕ) (xs ys : Bytes) → n ≤ length xs → take n (xs ++ ys) ≡ take n xs
take-append_within zero xs ys h = refl
take-append_within (suc n) [] ys h = absurd (omega (arith, h))
take-append_within (suc n) (x ∷ xs) ys h =
    ap (◌∷◌ x) (take-append_within n xs ys (omega (arith, h)))

all_valid-bound :
    (s : Bytes) (segments : List Bytes) → all_valid (s ∷ segments) ≡ true → 12 ≤ length s
unfolding all_valid
all_valid-bound s segments h = ground arith

batch_count-lt : (s : Bytes) → IsBytes s → batch_count s < 2 ^ 32
unfolding batch_count
batch_count-lt s h = elim (Bool-cases (ltb (length s) 12)) [
  | inl e ↦ rw e (omega arith)
  | inr e ↦ rw e (count_in-lt (drop 8 s) (All-drop (λ c. c < 256) 8 s h))
]

-- The merge of two or more segments that all have a header, the first of them bytes, is one batch: it keeps the first
-- segment's sequence number, its count is the sum of the counts modulo 2^32, and its records are
-- those of the segments in their order.
pub merge_batch_segments-parts :
    (s t : Bytes) (segments : List Bytes)
    → all_valid (s ∷ t ∷ segments) ≡ true
    → IsBytes s
    → (take 8 (merge_batch_segments (s ∷ t ∷ segments)) ≡ take 8 s)
      × (batch_count (merge_batch_segments (s ∷ t ∷ segments))
          ≡ records (s ∷ t ∷ segments) % 2 ^ 32)
      × (drop 12 (merge_batch_segments (s ∷ t ∷ segments)) ≡ bodies (s ∷ t ∷ segments))
unfolding merge_batch_segments
merge_batch_segments-parts s t segments h hs =
    let l = all_valid-bound s (t ∷ segments) h in
    let total = total_count-records (batch_count s) (t ∷ segments) (batch_count-lt s hs) in
    let n = total_count (batch_count s) (t ∷ segments) in
    let m = s ++ bodies (t ∷ segments) in
    let lm : 12 ≤ length m = omega (arith, l, length-append s (bodies (t ∷ segments))) in
    let (p, q, r) = set_batch_count-parts m n lm (omega (arith, total)) in
    rw (h) (
      q ∙ take-append_within 8 s (bodies (t ∷ segments)) (omega (arith, l)),
      p ∙ total ∙ (unfold records in refl),
      r ∙ drop-append_within 12 s (bodies (t ∷ segments)) l ∙ (unfold bodies in refl),
    )
