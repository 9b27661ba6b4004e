-- ===== src/Engine/Table.antt =====
-- A local side whose database is two association lists, all values and those in its tables, and whose
-- checkpoint is one file: the laws of `Local` can hold.
use cloudpebble.Base.{
  ℕ, zero, suc, Bool, true, false, not, Option, none, some, List, [], ◌∷◌, ◌++◌, ◌≡◌, refl, sym,
  subst, ◌∙◌, ap, length, take, drop, take-append_exact, drop-append_exact, arith,
}
use mathlib.Core.Option.{some-injective}
use cloudpebble.Base.Order.{Bytes, equal_bytes}
use cloudpebble.Pebble.{Pebble, Op, set, delete, delete_range, Batch, Entries, find}
use cloudpebble.Pebble.Table.{
  apply_all, find-apply_all, scan_table, find-scan_table, scan_table-IsSorted, insert, keep,
  find-insert,
}
use cloudpebble.Engine.{Manifest, ManifestFile, Local, IsDirectory, IsName}

-- byte strings in one, each after its length, after their number
unfoldable pub join_fields : List Bytes → Bytes
join_fields [] = []
join_fields (b ∷ bs) = length b ∷ (b ++ join_fields bs)

abbrev pub join : List Bytes → Bytes
join bs = length bs ∷ join_fields bs

unfoldable pub split_fields : ℕ → Bytes → List Bytes
split_fields zero xs = []
split_fields (suc n) [] = []
split_fields (suc n) (l ∷ xs) = take l xs ∷ split_fields n (drop l xs)

abbrev pub split : Bytes → List Bytes
split [] = []
split (n ∷ xs) = split_fields n xs

pub split_fields-join_fields : (bs : List Bytes) → split_fields (length bs) (join_fields bs) ≡ bs
unfolding split_fields join_fields
split_fields-join_fields [] = refl
split_fields-join_fields (b ∷ bs) =
    rw
      (
        take-append_exact b (join_fields bs),
        drop-append_exact b (join_fields bs),
        split_fields-join_fields bs,
      )
      refl

-- operations
unfoldable pub batch_fields : Batch → List Bytes
batch_fields [] = []
batch_fields (set k v ∷ ops) = [] ∷ k ∷ v ∷ batch_fields ops
batch_fields (delete k ∷ ops) = (1 ∷ []) ∷ k ∷ [] ∷ batch_fields ops
batch_fields (delete_range lo hi ∷ ops) = (1 ∷ 1 ∷ []) ∷ lo ∷ hi ∷ batch_fields ops

abbrev pub op_of : Bytes → Bytes → Bytes → Op
op_of [] k v = set k v
op_of (t ∷ []) k v = delete k
op_of (t ∷ u ∷ ts) k v = delete_range k v

unfoldable pub batch_of : List Bytes → Batch
batch_of [] = []
batch_of (t ∷ []) = []
batch_of (t ∷ k ∷ []) = []
batch_of (t ∷ k ∷ v ∷ fs) = op_of t k v ∷ batch_of fs

pub batch_of-batch_fields : (b : Batch) → batch_of (batch_fields b) ≡ b
unfolding batch_of batch_fields
batch_of-batch_fields [] = refl
batch_of-batch_fields (set k v ∷ b) = ap (◌∷◌ (set k v)) (batch_of-batch_fields b)
batch_of-batch_fields (delete k ∷ b) = ap (◌∷◌ (delete k)) (batch_of-batch_fields b)
batch_of-batch_fields (delete_range k v ∷ b) = ap (◌∷◌ (delete_range k v)) (batch_of-batch_fields b)

-- entries
unfoldable pub entry_fields : Entries → List Bytes
entry_fields [] = []
entry_fields ((k, v) ∷ m) = k ∷ v ∷ entry_fields m

unfoldable pub entries_of : List Bytes → Entries
entries_of [] = []
entries_of (k ∷ []) = []
entries_of (k ∷ v ∷ fs) = (k, v) ∷ entries_of fs

entries_of-entry_fields : (m : Entries) → entries_of (entry_fields m) ≡ m
unfolding entries_of entry_fields
entries_of-entry_fields [] = refl
entries_of-entry_fields ((k, v) ∷ m) = ap (◌∷◌ (k, v)) (entries_of-entry_fields m)

-- manifests
unfoldable pub file_fields : List ManifestFile → List Bytes
file_fields [] = []
file_fields (f ∷ fs) = f.name ∷ (f.size ∷ f.checksum) ∷ file_fields fs

unfoldable pub files_of : List Bytes → List ManifestFile
files_of [] = []
files_of (n ∷ []) = []
files_of (n ∷ [] ∷ fs) = []
files_of (n ∷ (s ∷ c) ∷ fs) = record { name = n; size = s; checksum = c } ∷ files_of fs

files_of-file_fields : (fs : List ManifestFile) → files_of (file_fields fs) ≡ fs
unfolding files_of file_fields
files_of-file_fields [] = refl
files_of-file_fields (f ∷ fs) = ap (◌∷◌ f) (files_of-file_fields fs)

abbrev pub manifest_of : List Bytes → Manifest × Bool
manifest_of ((v ∷ m ∷ c ∷ p ∷ []) ∷ fs) = (
  record { version = v; max_wal_seq = m; created_at = c; prev_version = p; files = files_of fs },
  true,
)
manifest_of fs =
    (record { version = 0; max_wal_seq = 0; created_at = 0; prev_version = 0; files = [] }, false)

abbrev pub manifest_fields : Manifest → List Bytes
manifest_fields m =
    (m.version ∷ m.max_wal_seq ∷ m.created_at ∷ m.prev_version ∷ []) ∷ file_fields m.files

-- the one file of a checkpoint
abbrev pub checkpoint_name : Bytes
checkpoint_name = b'd' ∷ b'b' ∷ []

-- all values, and those in the tables
abbrev pub Cached : Type 0
Cached = Entries × Entries

unfoldable pub opened : Entries → Option Cached
opened dir = elim (find checkpoint_name dir) [
  | none ↦ some ([], [])
  | some d ↦ some (entries_of (split d), entries_of (split d))
]

pub split-join : (bs : List Bytes) → split (join bs) ≡ bs
split-join bs = split_fields-join_fields bs

found_one :
    (db : Entries)
    → find checkpoint_name ((checkpoint_name, join (entry_fields db)) ∷ [])
      ≡ some (join (entry_fields db))
unfolding find equal_bytes
found_one db = refl

pub opened-checkpoint :
    (db fs dir : Entries)
    → some ((checkpoint_name, join (entry_fields db)) ∷ []) ≡ some fs
    → ((n : Bytes) → find n dir ≡ find n fs)
    → (db' : Cached) × (opened dir ≡ some db') × ((k : Bytes) → find k db'.0 ≡ find k db)
unfolding opened
opened-checkpoint db fs dir h same =
    let e = some-injective _ _ h in
    let one : find checkpoint_name dir ≡ some (join (entry_fields db)) =
      same checkpoint_name ∙ ap (find checkpoint_name) (sym e) ∙ found_one db in
    let back : entries_of (split (join (entry_fields db))) ≡ db =
      ap entries_of (split-join (entry_fields db)) ∙ entries_of-entry_fields db in
    ((db, db), rw (one, back, opened) refl, λ k. refl)

pub manifest_of-manifest_fields : (m : Manifest) → manifest_of (manifest_fields m) ≡ (m, true)
manifest_of-manifest_fields m = rw (files_of-file_fields m.files) refl

pub one_file :
    (db fs : Entries)
    → some ((checkpoint_name, join (entry_fields db)) ∷ []) ≡ some fs
    → IsDirectory fs
one_file db fs h =
    let named : IsName checkpoint_name = (λ k. omega (arith, k), (λ k. omega (arith, k), tt)) in
    subst IsDirectory (some-injective _ _ h) (named, tt, tt)

abbrev pub cached : Pebble
cached = record {
  DB = Cached;
  get = λ m k. find k m.0;
  apply = λ m b. (apply_all b m.0, m.1);
  scan = λ m lo hi. scan_table m.0 lo hi;
  get-apply = λ m b k. find-apply_all b k m.0;
  find-scan = λ m lo hi k. find-scan_table m.0 lo hi k;
  scan-IsSorted = λ m lo hi. scan_table-IsSorted m.0 lo hi;
}

abbrev pub local_table : Local
local_table = record {
  pebble = cached;
  open_files = opened;
  flush = λ db. ((db.0, db.0), none);
  stored = λ db k. find k db.1;
  stored-flush = λ db k h. refl;
  checkpoint = λ db. some ((checkpoint_name, join (entry_fields db.1)) ∷ []);
  unread = λ n d. none;
  refuses = λ db b. false;
  repr = λ b. join (batch_fields b);
  set_repr = λ d. some (batch_of (split d));
  write_file = λ dir n d. some (insert n d dir);
  remove_file = λ dir n. keep (λ m. not (equal_bytes m n)) dir;
  sha256 = λ d. d;
  marshal = λ m. join (manifest_fields m);
  unmarshal = λ d. manifest_of (split d);
  unmarshal_old = λ d. none;
  checkpoint-IsDirectory = λ db fs h. one_file db.1 fs h;
  open_files-checkpoint = λ db fs dir h same. opened-checkpoint db.1 fs dir h same;
  set_repr-repr =
      λ b. ap some (ap batch_of (split-join (batch_fields b)) ∙ batch_of-batch_fields b);
  find-write_file =
      λ dir dir' n d m h. ap (find m) (sym (some-injective _ _ h)) ∙ find-insert n m d dir;
  unmarshal-marshal =
      λ m. ap manifest_of (split-join (manifest_fields m)) ∙ manifest_of-manifest_fields m;
}
