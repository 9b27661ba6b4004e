-- ===== src/Objstore/Local.antt =====
-- pkg/objstore/local/local.go: the store in a directory, over a file system.
pub mod Paths
pub mod Stored
pub mod Table
use Prim.Native.String.{String}
use cloudpebble.Base.{
  ℕ, Bool, true, false, not, ◌&&◌, ◌||◌, Option, none, some, List, [], ◌∷◌, ◌++◌, ◌≡◌,
  if◌then◌else◌, length, drop, take, ◌==◌,
}
use cloudpebble.Base.Order.{Bytes, equal_bytes, has_prefix}
use cloudpebble.Objstore.{Reader, Fetched, found, missing, failed}
use cloudpebble.Objstore.Filepath.{dot, clean, join, dir_of}
use cloudpebble.Wal.Paths.{slash}
use cloudpebble.Engine.Sync.{sort_strings}

-- what `os.Stat` gives
pub data Stat : Type 0 where
  present : ℕ → ℕ → Stat
  absent : Stat
  unknown : String → Stat

-- a call of the function of `WalkDir`: for a file, for a directory, or with an error
pub data Walked : Type 0 where
  file : Bytes → Walked
  directory : Bytes → Walked
  denied : Walked
  broken : String → Walked

-- The calls of `os` and `filepath` that touch files. `read` is the content of a file.
pub record FileSystem : Type 1 where
  pub Files : Type 0
  pub content : Files → Bytes → Option Bytes
  pub mkdir_all : Files → Bytes → Files × Option String
  pub write_file : Files → Bytes → Bytes → Files × Option String
  pub read_file : Files → Bytes → Fetched
  -- `Create`, and the writes to the new file; `Open`, with `missing` for `ErrNotExist`
  pub create : Files → Bytes → Files × Option String
  pub fill : Files → Bytes → Bytes → Files × Option String
  pub open_file : Files → Bytes → Fetched
  -- `Remove`: the error, with whether it is `ErrNotExist`
  pub remove : Files → Bytes → Files × Option (Bool × String)
  pub stat : Files → Bytes → Stat
  pub walk : Files → Bytes → List Walked
  pub mkdir_all-content : (f : Files) (d p : Bytes) → content (mkdir_all f d).0 p ≡ content f p
  pub write_file-stored :
      (f : Files) (p d : Bytes)
      → (write_file f p d).1 ≡ none
      → content (write_file f p d).0 p ≡ some d
  pub fill-stored :
      (f : Files) (p d : Bytes) → (fill f p d).1 ≡ none → content (fill f p d).0 p ≡ some d
  pub write_file-other :
      (f : Files) (p d q : Bytes)
      → equal_bytes (clean q) (clean p) ≡ false
      → content (write_file f p d).0 q ≡ content f q
  pub read_file-found : (f : Files) (p d : Bytes) → read_file f p ≡ found d → content f p ≡ some d
  pub read_file-missing : (f : Files) (p : Bytes) → read_file f p ≡ missing → content f p ≡ none
  pub remove-gone :
      (f : Files) (p : Bytes) → (remove f p).1 ≡ none → content (remove f p).0 p ≡ none
  pub remove-missing :
      (f : Files) (p : Bytes) (cause : String)
      → (remove f p).1 ≡ some (true, cause)
      → content (remove f p).0 p ≡ none
  pub remove-other :
      (f : Files) (p q : Bytes)
      → equal_bytes (clean q) (clean p) ≡ false
      → content (remove f p).0 q ≡ content f q

-- `path`; `none` is the error that a path escapes the root
unfoldable pub path : Bytes → Bytes → Option Bytes
path root p =
    let full = join root p in
    let base = clean root in
    if not (has_prefix full (base ++ slash ∷ [])) && not (equal_bytes full base)
    then none
    else some full

-- `filepath.Rel` of the root to a path that a walk of the root gives
unfoldable pub relative : Bytes → Bytes → Bytes
relative root p =
    let base = clean root in
    if equal_bytes p base
    then dot
    else if equal_bytes base dot
    then p
    else if equal_bytes base (slash ∷ [])
    then drop 1 p
    else drop (length (base ++ slash ∷ [])) p

module _ (fs : FileSystem) (root : Bytes) where
  -- `New`, which only makes the root
  unfoldable pub new_store : fs.Files → fs.Files × Option String
  new_store f = fs.mkdir_all f root

  unfoldable pub put : fs.Files → Bytes → Bytes → fs.Files × Option String
  put f p d = elim (path root p) [
    | none ↦ (f, some "escapes root")
    | some full ↦
        let (f', error) = fs.mkdir_all f (dir_of full) in
        elim error [ some cause ↦ (f', some cause) | none ↦ fs.write_file f' full d ]
  ]

  -- `io.CopyN` to a new file, and the tests of what it returns
  unfoldable pub copy : fs.Files → Bytes → Reader → ℕ → fs.Files × Option String
  copy f full r size =
      let (f', error) = fs.fill f full (take size r.given) in
      elim error [
        | some cause ↦ (f', some cause)
        | none ↦
            if length (take size r.given) == size
            then (f', none)
            else (f', elim r.fault [ some cause ↦ some cause | none ↦ some "wrote fewer bytes" ])
      ]

  -- `PutReader` of a size that is not negative; an error of `Close` is lost
  unfoldable pub put_reader : fs.Files → Bytes → Reader → ℕ → fs.Files × Option String
  put_reader f p r size = elim (path root p) [
    | none ↦ (f, some "escapes root")
    | some full ↦
        let (f', error) = fs.mkdir_all f (dir_of full) in
        elim error [
          | some cause ↦ (f', some cause)
          | none ↦
              let (f'', failure) = fs.create f' full in
              elim failure [ some cause ↦ (f'', some cause) | none ↦ copy f'' full r size ]
        ]
  ]

  -- `GetReader`, whose reader stands for what it gives
  unfoldable pub get_reader : fs.Files → Bytes → Fetched
  get_reader f p = elim (path root p) [
    | none ↦ failed "escapes root"
    | some full ↦ fs.open_file f full
  ]

  unfoldable pub get : fs.Files → Bytes → Fetched
  get f p = elim (path root p) [ none ↦ failed "escapes root" | some full ↦ fs.read_file f full ]

  unfoldable pub delete : fs.Files → Bytes → fs.Files × Option String
  delete f p = elim (path root p) [
    | none ↦ (f, some "escapes root")
    | some full ↦
        let (f', error) = fs.remove f full in
        elim error [ none ↦ (f', none) | some e ↦ if e.0 then (f', none) else (f', some e.1) ]
  ]

  -- the function that `List` gives to `WalkDir`, over its calls
  unfoldable pub found_files : List Walked → Option (List Bytes)
  found_files [] = some []
  found_files (file p ∷ ws) = elim (found_files ws) [
    | none ↦ none
    | some ps ↦ some (relative root p ∷ ps)
  ]
  found_files (directory p ∷ ws) = found_files ws
  found_files (denied ∷ ws) = found_files ws
  found_files (broken cause ∷ ws) = none

  -- `List`; `none` is an error
  unfoldable pub list : fs.Files → Bytes → Option (List Bytes)
  list f prefix = elim (path root prefix) [
    | none ↦ none
    | some full ↦ elim (fs.stat f full) [
      | absent ↦ some []
      | unknown cause ↦ none
      | present size modified ↦ elim (found_files (fs.walk f full)) [
        | none ↦ none
        | some ps ↦ some (sort_strings ps)
      ]
    ]
  ]

  -- `Exists`; `none` is an error
  unfoldable pub exists : fs.Files → Bytes → Option Bool
  exists f p = elim (path root p) [
    | none ↦ none
    | some full ↦ elim (fs.stat f full) [
      | present size modified ↦ some true
      | absent ↦ some false
      | unknown cause ↦ none
    ]
  ]

  -- `Attrs`: the size and the time of the last change; `none` is an error
  unfoldable pub attrs : fs.Files → Bytes → Option (ℕ × ℕ)
  attrs f p = elim (path root p) [
    | none ↦ none
    | some full ↦ elim (fs.stat f full) [
      | present size modified ↦ some (size, modified)
      | absent ↦ none
      | unknown cause ↦ none
    ]
  ]
