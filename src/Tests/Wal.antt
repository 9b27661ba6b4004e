-- ===== src/Tests/Wal.antt =====
-- Runs of the log in object storage at concrete inputs.
use cloudpebble.Base.{
  List, ◌++◌, some, length, drop, length-append, append_assoc, ap, sym, ◌∙◌, ◌*◌, ◌≤◌, ◌<◌, false,
  none, [], ◌∷◌, ◌≡◌, refl, arith,
}
use cloudpebble.Base.Order.{Bytes, equal_bytes, has_prefix}
use cloudpebble.Objstore.{Store}
use cloudpebble.Objstore.Memory.{memory, write, remove, keys}
use cloudpebble.Pebble.{Entries, find, Batch, set, delete, delete_range}
use cloudpebble.Wal.Merged.{Format, joined, read-merge_batch_segments}
use cloudpebble.Engine.Table.{
  join_fields, split_fields, batch_fields, batch_of, batch_of-batch_fields,
  split_fields-join_fields,
}
use cloudpebble.Wal.Paths.{wal_path, wal_prefix, parse_wal_seq}
use cloudpebble.Wal.Batches.{merge_batch_segments, batch_count, count_in}
use cloudpebble.Wal.Objects.{new_manager, gc, list_wals, gc_loop}
use cloudpebble.Wal.Objects.Listed.{new_manager-above}
use cloudpebble.Wal.Objects.Collected.{gc-deletes}
use cloudpebble.Wal.Manager.{
  Flight, System, initial, launch, land, collect, collects, write_record, started_by, after, writes,
  lands, Reachable, here, there,
}
use cloudpebble.Wal.Manager.Numbers.{uses}
use cloudpebble.Wal.Manager.Durable.{IsStored, used_once, acknowledged-IsStored}
use cloudpebble.Wal.Manager.Found.{found-IsStored}

abbrev store : Store
store = memory (λ p. false)

-- "db"
abbrev ns : Bytes
ns = b'd' ∷ b'b' ∷ []

abbrev data_seven : Bytes
data_seven = 7 ∷ 8 ∷ []

-- one object, of number 5
abbrev one_object : Entries
one_object = (wal_path ns 5, data_seven) ∷ []

gc-deletes_example : store.content (gc store ns one_object 6 0 100).objects (wal_path ns 5) ≡ none
unfolding gc gc_loop list_wals keys has_prefix wal_prefix wal_path parse_wal_seq remove
gc-deletes_example = gc-deletes store ns one_object 6 0 100 5 refl (omega arith) (omega arith)

new_manager-above_example : 5 < 6
unfolding new_manager list_wals keys has_prefix wal_prefix wal_path parse_wal_seq find equal_bytes
new_manager-above_example =
    new_manager-above store ns one_object 6 5 data_seven refl (λ k. omega (arith, k)) (omega arith)
      refl

-- a write of caller 1, with its `Put` on the way and when it has come back
abbrev first_flight : Flight
first_flight = record { seq = 6; segments = data_seven ∷ []; waiters = 1 ∷ [] }

abbrev before_write : System Entries
before_write = initial false 6 one_object

abbrev written : System Entries
written =
    launch (write_record 1 data_seven before_write.manager).0
      (started_by (write_record 1 data_seven before_write.manager).1) before_write

abbrev landed : System Entries
landed = land store ns [] first_flight [] written

-- and after a collection up to number 4 with a time limit of 200, at time 100
abbrev swept : System Entries
swept = collect store ns 4 200 100 landed

run : Reachable store ns before_write swept
unfolding launch write_record started_by initial after
run =
    there
      (there (there here (writes 1 data_seven before_write (omega arith)))
        (lands [] first_flight [] written refl))
      (collects 4 200 100 landed)

used_once_example : uses 6 swept ≤ 1
used_once_example = used_once store ns false 6 one_object swept run (omega arith) 6

acknowledged-IsStored_example : IsStored store ns 6 data_seven swept
unfolding land launch write_record started_by initial write merge_batch_segments after collect
acknowledged-IsStored_example =
    acknowledged-IsStored store ns false 6 one_object swept run (omega arith) []
      (record { flight = first_flight; error = none }) [] refl refl

found-IsStored_example : IsStored store ns 5 data_seven swept
unfolding new_manager list_wals keys has_prefix wal_prefix wal_path parse_wal_seq find equal_bytes
found-IsStored_example =
    found-IsStored store ns false 6 one_object swept 5 data_seven refl (λ k. omega (arith, k))
      (omega arith) (omega arith) refl run

-- a format with the records of `Engine.Table`
join_fields-append :
    (xs ys : List Bytes) → join_fields (xs ++ ys) ≡ join_fields xs ++ join_fields ys
unfolding join_fields
join_fields-append [] ys = refl
join_fields-append (x ∷ xs) ys =
    ap (λ r. length x ∷ (x ++ r)) (join_fields-append xs ys)
    ∙ ap (◌∷◌ (length x)) (sym (append_assoc x (join_fields xs) (join_fields ys)))

batch_fields-append : (b c : Batch) → batch_fields (b ++ c) ≡ batch_fields b ++ batch_fields c
unfolding batch_fields
batch_fields-append [] c = refl
batch_fields-append (set k v ∷ b) c = ap (λ r. [] ∷ k ∷ v ∷ r) (batch_fields-append b c)
batch_fields-append (delete k ∷ b) c = ap (λ r. (1 ∷ []) ∷ k ∷ [] ∷ r) (batch_fields-append b c)
batch_fields-append (delete_range k v ∷ b) c =
    ap (λ r. (1 ∷ 1 ∷ []) ∷ k ∷ v ∷ r) (batch_fields-append b c)

length-batch_fields : (b : Batch) → length (batch_fields b) ≡ 3 * length b
unfolding batch_fields
length-batch_fields [] = refl
length-batch_fields (set k v ∷ b) = omega (arith, length-batch_fields b)
length-batch_fields (delete k ∷ b) = omega (arith, length-batch_fields b)
length-batch_fields (delete_range k v ∷ b) = omega (arith, length-batch_fields b)

read_fields :
    (d : Bytes) (b : Batch)
    → batch_count d ≡ length b
    → drop 12 d ≡ join_fields (batch_fields b)
    → batch_of (split_fields (3 * batch_count d) (drop 12 d)) ≡ b
read_fields d b n r =
    ap (λ x. batch_of (split_fields x (drop 12 d)))
      (ap (λ x. 3 * x) n ∙ sym (length-batch_fields b))
    ∙ ap (λ x. batch_of (split_fields (length (batch_fields b)) x)) r
    ∙ ap batch_of (split_fields-join_fields (batch_fields b))
    ∙ batch_of-batch_fields b

abbrev field_format : Format
field_format = record {
  body = λ b. join_fields (batch_fields b);
  count = λ b. length b;
  read = λ d. some (batch_of (split_fields (3 * batch_count d) (drop 12 d)));
  body-nil = unfold join_fields in unfold batch_fields in refl;
  count-nil = refl;
  body-append = λ b c.
      ap join_fields (batch_fields-append b c)
      ∙ join_fields-append (batch_fields b) (batch_fields c);
  count-append = λ b c. length-append b c;
  read-header = λ d b l n r. ap some (read_fields d b n r);
}

abbrev header_one : Bytes
header_one = 0 ∷ 0 ∷ 0 ∷ 0 ∷ 0 ∷ 0 ∷ 0 ∷ 0 ∷ 1 ∷ 0 ∷ 0 ∷ 0 ∷ []

abbrev first_set : Batch
first_set = set (1 ∷ []) (2 ∷ []) ∷ []

abbrev second_set : Batch
second_set = delete (3 ∷ []) ∷ []

abbrev segment_of : Batch → Bytes
segment_of b = header_one ++ join_fields (batch_fields b)

read-merge_batch_segments_example :
    field_format.read (merge_batch_segments (segment_of first_set ∷ segment_of second_set ∷ []))
    ≡ some (joined (first_set ∷ second_set ∷ []))
unfolding joined batch_count count_in join_fields batch_fields
read-merge_batch_segments_example =
    read-merge_batch_segments field_format (segment_of first_set) (segment_of second_set ∷ [])
      first_set (second_set ∷ [])
      ((omega arith, ground arith, refl, refl), ((omega arith, ground arith, refl, refl), tt))
      (omega arith)
