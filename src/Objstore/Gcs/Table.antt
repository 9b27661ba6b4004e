-- ===== src/Objstore/Gcs/Table.antt =====
-- A bucket that keeps its objects in a list: the laws of `Bucket` can hold.
use cloudpebble.Base.{
  false, true, not, ◌&&◌, Option, none, some, List, [], ◌∷◌, ◌≡◌, refl, ◌∙◌, sym, arith, map,
  length,
}
use cloudpebble.Base.Order.{Bytes, equal_bytes, equal_bytes_refl, has_prefix}
use cloudpebble.Pebble.{Entries, find}
use cloudpebble.Pebble.Table.{insert, keep, find-insert, find-keep}
use cloudpebble.Objstore.{is_listed, is_some}
use cloudpebble.Objstore.Memory.{keys, list-keys}
use cloudpebble.Objstore.Gcs.{
  ClientError, object_not_exist, Reading, reading, unreadable, named, ObjectAttrs, all_names,
  is_not_exist, Bucket,
}

unfoldable pub open_reader : Entries → Bytes → Option ClientError
open_reader o n = elim (find n o) [ none ↦ some object_not_exist | some d ↦ none ]

unfoldable pub remove : Entries → Bytes → Entries × Option ClientError
unfolding open_reader
remove o n = (keep (λ q. not (equal_bytes q n)) o, open_reader o n)

unfoldable pub attributes : Entries → Bytes → Reading ObjectAttrs
attributes o n = elim (find n o) [
  | none ↦ unreadable object_not_exist
  | some d ↦ reading (record { size = length d; created = 0 })
]

all_names-named : (names : List Bytes) → all_names (map named names) ≡ some names
unfolding all_names
all_names-named [] = refl
all_names-named (n ∷ names) = rw (all_names-named names) refl

pub insert-stored : (o : Entries) (n d : Bytes) → find n (insert n d o) ≡ some d
insert-stored o n d = ground (arith, find-insert n n d o, equal_bytes_refl n)

pub insert-other :
    (o : Entries) (n d m : Bytes) → equal_bytes m n ≡ false → find m (insert n d o) ≡ find m o
insert-other o n d m h = ground (arith, find-insert n m d o)

pub open_reader-missing :
    (o : Entries) (n : Bytes) (e : ClientError)
    → open_reader o n ≡ some e
    → is_not_exist e ≡ true
    → find n o ≡ none
unfolding open_reader
open_reader-missing o n e h i = ground arith

pub removed : (o : Entries) (n : Bytes) → find n (remove o n).0 ≡ none
unfolding remove
removed o n = ground (arith, find-keep (λ q. not (equal_bytes q n)) n o, equal_bytes_refl n)

pub remove-other :
    (o : Entries) (n m : Bytes) → equal_bytes m n ≡ false → find m (remove o n).0 ≡ find m o
unfolding remove
remove-other o n m h = ground (arith, find-keep (λ q. not (equal_bytes q n)) m o)

pub attributes-created :
    (o : Entries) (n : Bytes) (a : ObjectAttrs) → attributes o n ≡ reading a → 0 ≡ a.created
unfolding attributes
attributes-created o n a h = ground arith

pub keys-content :
    (o : Entries) (prefix n : Bytes) (names : List Bytes)
    → all_names (map named (keys prefix o)) ≡ some names
    → is_listed n names ≡ (has_prefix n prefix && is_some (find n o))
keys-content o prefix n names h =
    list-keys o prefix n names (sym (all_names-named (keys prefix o)) ∙ h)

abbrev pub bucket : Bucket
bucket = record {
  Objects = Entries;
  content = λ o n. find n o;
  write = λ o n d. none;
  close = λ o n d. (insert n d o, none);
  close_failed = λ o n d. o;
  new_reader = open_reader;
  read_all = λ o n. find n o;
  delete = remove;
  objects = λ o prefix. map named (keys prefix o);
  attrs = attributes;
  created = λ o n. 0;
  close-stored = λ o n d h. insert-stored o n d;
  close-other = insert-other;
  close_failed-other = λ o n d m h. refl;
  read_all-content = λ o n d h e. e;
  new_reader-missing = open_reader-missing;
  delete-gone = λ o n h. removed o n;
  delete-missing = λ o n e h i. removed o n;
  delete-other = remove-other;
  attrs-created = attributes-created;
  delete-created = λ o n m h. refl;
  objects-content = keys-content;
}
