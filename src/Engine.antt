-- ===== src/Engine.antt =====
-- pkg/engine/engine.go: the engine of one namespace, which is proper names between slashes
-- (`Engine.Namespaces`). What it uses of the local disk, of Pebble, of JSON and of SHA-256 is the
-- interface `Local`.
pub mod Namespaces
pub mod Recovery
pub mod Writes
pub mod Sync
pub mod Open
pub mod Table
use Prim.Native.String.{String}
use cloudpebble.Base.{
  ℕ, zero, suc, ◌/◌, max, Bool, true, false, Option, none, some, List, [], ◌∷◌, ◌++◌, ltb,
  if◌then◌else◌, ◌==◌, not, All, ◌≡◌, ◌≢◌,
}
use cloudpebble.Base.Order.{Bytes, equal_bytes}
use cloudpebble.Pebble.{Pebble, Batch, Entries, find}
use cloudpebble.Wal.Manager.{Manager}
use cloudpebble.Wal.Paths.{slash, decimal}

pub record ManifestFile : Type 0 where
  pub name : Bytes
  pub size : ℕ
  pub checksum : Bytes

pub record Manifest : Type 0 where
  pub version : ℕ
  pub max_wal_seq : ℕ
  pub created_at : ℕ
  pub prev_version : ℕ
  pub files : List ManifestFile

-- a file name: no slash
abbrev pub IsName : Bytes → Type 0
IsName = All (λ (c : ℕ). c ≢ slash)

-- the names of files are different from each other
abbrev pub IsDirectory : Entries → Type 0
IsDirectory [] = Unit
IsDirectory ((n, d) ∷ fs) =
    IsName n × All (λ (f : Bytes × Bytes). equal_bytes f.0 n ≡ false) fs × IsDirectory fs

-- The local side of an engine. A directory is the list of its files with their contents.
pub record Local : Type 1 where
  pub pebble : Pebble
  -- `pebble.Open` on a directory, `AsyncFlush` with its wait, `DB.Checkpoint` with the files
  -- that it leaves. Pebble's own log is off: a database has its tables and, in memory, what
  -- was written since the last flush.
  pub open_files : Entries → Option pebble.DB
  pub flush : pebble.DB → pebble.DB × Option String
  pub checkpoint : pebble.DB → Option Entries
  -- the error, if any, of `os.ReadFile` for a file of a checkpoint with its name and content
  pub unread : Bytes → Bytes → Option String
  -- the values in the tables, without the part in memory
  pub stored : pebble.DB → Bytes → Option Bytes
  -- whether `DB.Apply` refuses a batch
  pub refuses : pebble.DB → Batch → Bool
  -- `Batch.Repr` and `Batch.SetRepr`
  pub repr : Batch → Bytes
  pub set_repr : Bytes → Option Batch
  -- `os.WriteFile`, `os.Remove`
  pub write_file : Entries → Bytes → Bytes → Option Entries
  pub remove_file : Entries → Bytes → Entries
  pub sha256 : Bytes → Bytes
  pub marshal : Manifest → Bytes
  -- `json.Unmarshal`: the manifest as far as it was decoded, and whether there was no error
  pub unmarshal : Bytes → Manifest × Bool
  -- the same for a struct with `MaxWALSeq` only
  pub unmarshal_old : Bytes → Option ℕ
  pub checkpoint-IsDirectory :
      (db : pebble.DB) (fs : Entries) → checkpoint db ≡ some fs → IsDirectory fs
  -- A flush without an error brings all values into the tables; a checkpoint has the tables only.
  pub stored-flush :
      (db : pebble.DB) (k : Bytes) → (flush db).1 ≡ none → stored (flush db).0 k ≡ pebble.get db k
  pub open_files-checkpoint :
      (db : pebble.DB) (fs dir : Entries)
      → checkpoint db ≡ some fs
      → ((n : Bytes) → find n dir ≡ find n fs)
      → (db' : pebble.DB) × (open_files dir ≡ some db')
        × ((k : Bytes) → pebble.get db' k ≡ stored db k)
  pub set_repr-repr : (b : Batch) → set_repr (repr b) ≡ some b
  pub find-write_file :
      (dir dir' : Entries) (n d m : Bytes)
      → write_file dir n d ≡ some dir'
      → find m dir' ≡ (if equal_bytes m n then some d else find m dir)
  pub unmarshal-marshal : (m : Manifest) → unmarshal (marshal m) ≡ (m, true)

-- `strong` is `ConsistencyStrong`. `dir` is the local directory, `local_wals` the one below it with
-- the local log.
pub record Engine (D : Type 0) : Type 0 where
  pub db : D
  pub manager : Manager
  pub strong : Bool
  pub async_wal : Bool
  pub orphan_ttl : ℕ
  pub max_wal_seq : ℕ
  pub uploaded : List Bytes
  pub manifest_version : ℕ
  pub dir : Entries
  pub local_wals : Entries

-- "manifest", "data", "manifests"
abbrev pub manifest_name : Bytes
manifest_name = b'm' ∷ b'a' ∷ b'n' ∷ b'i' ∷ b'f' ∷ b'e' ∷ b's' ∷ b't' ∷ []

abbrev pub data_dir : Bytes
data_dir = b'd' ∷ b'a' ∷ b't' ∷ b'a' ∷ []

abbrev pub manifests_dir : Bytes
manifests_dir = manifest_name ++ b's' ∷ []

-- ".json"
abbrev pub json_ext : Bytes
json_ext = b'.' ∷ b'j' ∷ b's' ∷ b'o' ∷ b'n' ∷ []

-- how many decimal digits a number has, up to one more than the fuel
unfoldable pub digit_count : ℕ → ℕ → ℕ
digit_count zero v = 1
digit_count (suc fuel) v = let rest = digit_count fuel (v / 10) in if ltb v 10 then 1 else suc rest

-- `%0*d`: as many digits as the number has, and at least `width`; an int has 19 at most
unfoldable pub zero_padded : ℕ → ℕ → Bytes
unfolding digit_count
zero_padded width v = decimal (max width (digit_count 18 v)) v

unfoldable pub manifest_path : Bytes → Bytes
manifest_path ns = ns ++ (slash ∷ manifest_name)

unfoldable pub manifest_versions_prefix : Bytes → Bytes
manifest_versions_prefix ns = ns ++ (slash ∷ (manifests_dir ++ slash ∷ []))

unfoldable pub manifest_version_path : Bytes → ℕ → Bytes
unfolding zero_padded
manifest_version_path ns v =
    ns ++ (slash ∷ (manifests_dir ++ (slash ∷ (zero_padded 6 v ++ json_ext))))

unfoldable pub data_prefix : Bytes → Bytes
data_prefix ns = ns ++ (slash ∷ (data_dir ++ slash ∷ []))

-- the path of a data file, the `remotePath`
unfoldable pub data_path : Bytes → Bytes → Bytes
data_path ns name = ns ++ (slash ∷ (data_dir ++ (slash ∷ name)))
