-- ===== src/Pebble/Table.antt =====
-- A database as an association list: the laws of `Pebble` can hold.
use cloudpebble.Base.{
  Bool, true, Option, none, some, [], ◌∷◌, ◌≡◌, refl, if◌then◌else◌, not, All, arith, Ordering, ◌∙◌,
  ap,
}
use cloudpebble.Base.Order.{
  Bytes, equal_bytes, equal_bytes_iff, in_range, lt_bytes, compare_bytes, compare_bytes-eq,
  compare_bytes_refl, compare_bytes_swap, lt_bytes_trans,
}
use cloudpebble.Pebble.{
  Op, set, delete, delete_range, Batch, Entries, find, IsSorted, bounded, effect, effects, Pebble,
}

unfoldable pub insert : Bytes → Bytes → Entries → Entries
insert k v [] = (k, v) ∷ []
insert k v ((j, w) ∷ m) =
    let rest = insert k v m in
    elim (compare_bytes k j) [
      | Ordering.lt ↦ (k, v) ∷ (j, w) ∷ m
      | Ordering.eq ↦ (k, v) ∷ m
      | Ordering.gt ↦ (j, w) ∷ rest
    ]

unfoldable pub keep : (Bytes → Bool) → Entries → Entries
keep p [] = []
keep p ((k, v) ∷ m) = if p k then (k, v) ∷ keep p m else keep p m

pub find-insert :
    (k j v : Bytes) (m : Entries)
    → find j (insert k v m) ≡ (if equal_bytes j k then some v else find j m)
unfolding find insert
find-insert k j v [] = refl
find-insert k j v ((i, w) ∷ m) = ground (
  arith,
  find-insert k j v m,
  compare_bytes-eq k i,
  equal_bytes_iff j k,
  equal_bytes_iff j i,
  compare_bytes_refl k,
)

pub find-keep :
    (p : Bytes → Bool) (k : Bytes) (m : Entries)
    → find k (keep p m) ≡ (if p k then find k m else none)
unfolding find keep
find-keep p k [] = ground arith
find-keep p k ((j, v) ∷ m) = ground (arith, find-keep p k m, equal_bytes_iff k j)

-- all keys of the entries are above `k`
abbrev Above : Bytes → Entries → Type 0
Above k = All (λ (e : Bytes × Bytes). lt_bytes k e.0 ≡ true)

Above-trans : (k j : Bytes) (m : Entries) → lt_bytes k j ≡ true → Above j m → Above k m
Above-trans k j [] h a = tt
Above-trans k j ((i, w) ∷ m) h a = (lt_bytes_trans k j i h a.0, Above-trans k j m h a.1)

Above-insert :
    (i k v : Bytes) (m : Entries) → lt_bytes i k ≡ true → Above i m → Above i (insert k v m)
unfolding insert
Above-insert i k v [] h a = (h, tt)
Above-insert i k v ((j, w) ∷ m) h a = ground (arith, Above-insert i k v m h a.1)

-- the key at the head after an insertion that goes further down
gt→lt : (k j : Bytes) → compare_bytes k j ≡ Ordering.gt → lt_bytes j k ≡ true
gt→lt k j h = ground (arith, compare_bytes_swap k j)

insert-IsSorted : (k v : Bytes) (m : Entries) → IsSorted m → IsSorted (insert k v m)
unfolding insert
insert-IsSorted k v [] s = (tt, tt)
insert-IsSorted k v ((j, w) ∷ m) s = ground (
  arith,
  insert-IsSorted k v m s.1,
  Above-trans k j m,
  Above-insert j k v m,
  gt→lt k j,
  compare_bytes-eq k j,
)

Above-keep : (p : Bytes → Bool) (k : Bytes) (m : Entries) → Above k m → Above k (keep p m)
unfolding keep
Above-keep p k [] a = tt
Above-keep p k ((j, v) ∷ m) a = ground (arith, Above-keep p k m a.1)

keep-IsSorted : (p : Bytes → Bool) (m : Entries) → IsSorted m → IsSorted (keep p m)
unfolding keep
keep-IsSorted p [] s = tt
keep-IsSorted p ((k, v) ∷ m) s = ground (arith, keep-IsSorted p m s.1, Above-keep p k m s.0)

unfoldable pub apply_op : Op → Entries → Entries
unfolding insert keep
apply_op (set k v) m = insert k v m
apply_op (delete k) m = keep (λ j. not (equal_bytes j k)) m
apply_op (delete_range lo hi) m = keep (λ j. not (in_range lo hi j)) m

unfoldable pub apply_all : Batch → Entries → Entries
unfolding apply_op
apply_all [] m = m
apply_all (op ∷ ops) m = apply_all ops (apply_op op m)

find-apply_op :
    (op : Op) (k : Bytes) (m : Entries) → find k (apply_op op m) ≡ effect op k (find k m)
unfolding apply_op effect
find-apply_op (set j v) k m = find-insert j k v m
find-apply_op (delete j) k m = ground (arith, find-keep (λ i. not (equal_bytes i j)) k m)
find-apply_op (delete_range lo hi) k m = ground (arith, find-keep (λ i. not (in_range lo hi i)) k m)

pub find-apply_all :
    (ops : Batch) (k : Bytes) (m : Entries) → find k (apply_all ops m) ≡ effects ops k (find k m)
unfolding apply_all effects
find-apply_all [] k m = refl
find-apply_all (op ∷ ops) k m =
    find-apply_all ops k (apply_op op m) ∙ ap (effects ops k) (find-apply_op op k m)

-- the entries once more, in order
unfoldable pub sorted : Entries → Entries
unfolding insert
sorted [] = []
sorted ((k, v) ∷ m) = insert k v (sorted m)

find-sorted : (k : Bytes) (m : Entries) → find k (sorted m) ≡ find k m
unfolding sorted find
find-sorted k [] = refl
find-sorted k ((j, v) ∷ m) = find-insert j k v (sorted m) ∙ ground (arith, find-sorted k m)

sorted-IsSorted : (m : Entries) → IsSorted (sorted m)
unfolding sorted
sorted-IsSorted [] = tt
sorted-IsSorted ((k, v) ∷ m) = insert-IsSorted k v (sorted m) (sorted-IsSorted m)

unfoldable pub scan_table : Entries → Option Bytes → Option Bytes → Entries
unfolding sorted keep
scan_table m lo hi = keep (bounded lo hi) (sorted m)

pub find-scan_table :
    (m : Entries) (lo hi : Option Bytes) (k : Bytes)
    → find k (scan_table m lo hi) ≡ (if bounded lo hi k then find k m else none)
unfolding scan_table
find-scan_table m lo hi k = find-keep (bounded lo hi) k (sorted m) ∙ rw find-sorted

pub scan_table-IsSorted : (m : Entries) (lo hi : Option Bytes) → IsSorted (scan_table m lo hi)
unfolding scan_table
scan_table-IsSorted m lo hi = keep-IsSorted (bounded lo hi) (sorted m) (sorted-IsSorted m)

abbrev pub table : Pebble
table = record {
  DB = Entries;
  get = λ m k. find k m;
  apply = λ m b. apply_all b m;
  scan = scan_table;
  get-apply = λ m b k. find-apply_all b k m;
  find-scan = find-scan_table;
  scan-IsSorted = scan_table-IsSorted;
}
