-- ===== src/Objstore/Local/Table.antt =====
-- Files in a list, by their paths: the laws of `FileSystem` can hold.
use Prim.Native.String.{String}
use cloudpebble.Base.{
  Bool, true, false, not, Option, none, some, [], ◌∷◌, ◌++◌, ◌≡◌, refl, ◌∙◌, sym, ap, arith, map,
  length, Bool-cases, inl, inr,
}
use cloudpebble.Base.Order.{Bytes, equal_bytes, equal_bytes_iff, equal_bytes_refl}
use cloudpebble.Pebble.{Entries, find}
use cloudpebble.Pebble.Table.{insert, keep, find-insert, find-keep}
use cloudpebble.Objstore.Memory.{keys, fetch, fetch-found, fetch-missing}
use cloudpebble.Wal.Paths.{slash}
use cloudpebble.Objstore.Filepath.{clean}
use cloudpebble.Objstore.Local.{Stat, present, absent, file, FileSystem}

unfoldable pub remove : Entries → Bytes → Entries × Option (Bool × String)
remove f p = (
  keep (λ q. not (equal_bytes q p)) f,
  elim (find p f) [ none ↦ some (true, "no such file") | some d ↦ none ],
)

unfoldable pub status : Entries → Bytes → Stat
status f p = elim (find p f) [
  | some d ↦ present (length d) 0
  | none ↦ elim (keys (p ++ slash ∷ []) f) [ [] ↦ absent | q ∷ qs ↦ present 0 0 ]
]

other_files : (p q : Bytes) → equal_bytes (clean q) (clean p) ≡ false → equal_bytes q p ≡ false
other_files p q h = elim (Bool-cases (equal_bytes q p)) [
  | inr e ↦ e
  | inl e ↦
      let same =
        sym h
        ∙ ap (λ r. equal_bytes (clean r) (clean p)) ((equal_bytes_iff q p).0 e)
        ∙ equal_bytes_refl (clean p) in
      cc
]

pub insert-stored : (f : Entries) (p d : Bytes) → find p (insert p d f) ≡ some d
insert-stored f p d = ground (arith, find-insert p p d f, equal_bytes_refl p)

pub insert-other :
    (f : Entries) (p d q : Bytes)
    → equal_bytes (clean q) (clean p) ≡ false
    → find q (insert p d f) ≡ find q f
insert-other f p d q h = let o = other_files p q h in ground (arith, find-insert p q d f)

pub removed : (f : Entries) (p : Bytes) → find p (remove f p).0 ≡ none
unfolding remove
removed f p = ground (arith, find-keep (λ q. not (equal_bytes q p)) p f, equal_bytes_refl p)

pub remove-other :
    (f : Entries) (p q : Bytes)
    → equal_bytes (clean q) (clean p) ≡ false
    → find q (remove f p).0 ≡ find q f
unfolding remove
remove-other f p q h =
    let o = other_files p q h in ground (arith, find-keep (λ q. not (equal_bytes q p)) q f)

abbrev pub files : FileSystem
files = record {
  Files = Entries;
  content = λ f p. find p f;
  mkdir_all = λ f d. (f, none);
  write_file = λ f p d. (insert p d f, none);
  read_file = fetch;
  create = λ f p. (insert p [] f, none);
  fill = λ f p d. (insert p d f, none);
  open_file = fetch;
  remove = remove;
  stat = status;
  walk = λ f p. map file (keys (p ++ slash ∷ []) f);
  mkdir_all-content = λ f d p. refl;
  write_file-stored = λ f p d h. insert-stored f p d;
  fill-stored = λ f p d h. insert-stored f p d;
  write_file-other = insert-other;
  read_file-found = fetch-found;
  read_file-missing = fetch-missing;
  remove-gone = λ f p h. removed f p;
  remove-missing = λ f p cause h. removed f p;
  remove-other = remove-other;
}
