-- ===== src/Engine/Sync.antt =====
-- pkg/engine/engine.go: `Sync` and its parts, as one step. The result is the engine and the store, as
-- far as they were changed, and the error. A version is a number below 2^63.
pub mod Paths
pub mod Kept
pub mod Outside
pub mod Uploaded
pub mod Checkpoint
pub mod Completed
pub mod Restored
pub mod Recovered
use Prim.Native.String.{String}
use cloudpebble.Base.{
  ℕ, suc, ◌+◌, ◌-◌, Bool, true, false, not, ◌&&◌, ◌||◌, Option, none, some, List, [], ◌∷◌, ◌++◌,
  ltb, if◌then◌else◌, length, take,
}
use cloudpebble.Base.Order.{Bytes, equal_bytes, lt_bytes, has_prefix}
use cloudpebble.Pebble.{Entries}
use cloudpebble.Objstore.{Store, is_listed}
use cloudpebble.Wal.Batches.{merge_batch_segments}
use cloudpebble.Wal.Manager.{Flight, flush, close}
use cloudpebble.Wal.Objects.{Collection, gc}
use cloudpebble.Wal.Paths.{base_from, wal_path}
use cloudpebble.Engine.{
  Local, Engine, Manifest, ManifestFile, data_path, manifest_path, manifest_version_path,
  manifest_versions_prefix,
}

abbrev pub max_manifest_history : ℕ
max_manifest_history = 10

-- "CURRENT", "MANIFEST-", "OPTIONS-", "marker.format-version" and "marker.manifest"
abbrev current_name : Bytes
current_name = b'C' ∷ b'U' ∷ b'R' ∷ b'R' ∷ b'E' ∷ b'N' ∷ b'T' ∷ []

abbrev manifest_start : Bytes
manifest_start = b'M' ∷ b'A' ∷ b'N' ∷ b'I' ∷ b'F' ∷ b'E' ∷ b'S' ∷ b'T' ∷ b'-' ∷ []

abbrev options_start : Bytes
options_start = b'O' ∷ b'P' ∷ b'T' ∷ b'I' ∷ b'O' ∷ b'N' ∷ b'S' ∷ b'-' ∷ []

abbrev marker_start : Bytes
marker_start = b'm' ∷ b'a' ∷ b'r' ∷ b'k' ∷ b'e' ∷ b'r' ∷ b'.' ∷ []

abbrev format_version : Bytes
format_version =
    b'f' ∷ b'o' ∷ b'r' ∷ b'm' ∷ b'a' ∷ b't' ∷ b'-' ∷ b'v' ∷ b'e' ∷ b'r' ∷ b's' ∷ b'i' ∷ b'o' ∷ b'n'
    ∷ []

abbrev manifest_end : Bytes
manifest_end = b'm' ∷ b'a' ∷ b'n' ∷ b'i' ∷ b'f' ∷ b'e' ∷ b's' ∷ b't' ∷ []

-- `isMutable`
unfoldable pub is_mutable : Bytes → Bool
is_mutable name =
    equal_bytes name current_name
    || has_prefix name manifest_start
    || has_prefix name options_start
    || has_prefix name (marker_start ++ format_version)
    || has_prefix name (marker_start ++ manifest_end)

-- whether a checkpoint has a file of this name, `checkpointFiles`
unfoldable pub has_file : Bytes → Entries → Bool
has_file name [] = false
has_file name ((n, d) ∷ fs) = if equal_bytes name n then true else has_file name fs

-- `sort.Strings`
unfoldable pub insert_string : Bytes → List Bytes → List Bytes
insert_string s [] = s ∷ []
insert_string s (t ∷ ts) =
    let rest = insert_string s ts in if lt_bytes t s then t ∷ rest else s ∷ t ∷ ts

unfoldable pub sort_strings : List Bytes → List Bytes
unfolding insert_string
sort_strings [] = []
sort_strings (s ∷ ss) = insert_string s (sort_strings ss)

module _ (local : Local) (store : Store) (ns : Bytes) where
  abbrev pub Outcome : Type 0
  Outcome = Engine local.pebble.DB × store.Objects × Option String

  unfoldable pub manifest_files : Entries → List ManifestFile
  manifest_files [] = []
  manifest_files ((n, d) ∷ fs) =
      record { name = n; size = length d; checksum = local.sha256 d } ∷ manifest_files fs

  -- whether a file is not uploaded again
  unfoldable pub is_skipped : List Bytes → Bytes → Bool
  is_skipped prev name = is_listed (data_path ns name) prev && not (is_mutable name)

  -- the loop over the files of a checkpoint, with the paths uploaded so far
  unfoldable pub upload_files :
      List Bytes → Entries → store.Objects → List Bytes → store.Objects × List Bytes × Option String
  unfolding is_skipped
  upload_files prev [] o uploaded = (o, uploaded, none)
  upload_files prev ((n, d) ∷ fs) o uploaded = elim (local.unread n d) [
    | some cause ↦ (o, uploaded, some cause)
    | none ↦ elim (is_skipped prev n) [
      | true ↦ upload_files prev fs o (data_path ns n ∷ uploaded)
      | false ↦
          let (o', error) = store.put o (data_path ns n) d in
          elim error [
            | some cause ↦ (o', uploaded, some cause)
            | none ↦ upload_files prev fs o' (data_path ns n ∷ uploaded)
          ]
    ]
  ]

  -- the loop over `prevFiles`; errors of `Delete` are logged only
  unfoldable pub delete_stale : List Bytes → Entries → store.Objects → store.Objects
  delete_stale [] fs o = o
  delete_stale (p ∷ ps) fs o = elim (has_file (base_from [] p) fs) [
    | true ↦ delete_stale ps fs o
    | false ↦ delete_stale ps fs (store.delete o p).0
  ]

  unfoldable pub delete_all : List Bytes → store.Objects → store.Objects
  delete_all [] o = o
  delete_all (p ∷ ps) o = delete_all ps (store.delete o p).0

  -- the old versions of the manifest
  unfoldable pub trim_versions : store.Objects → store.Objects
  unfolding delete_all
  trim_versions o = elim (store.list o (manifest_versions_prefix ns)) [
    | none ↦ o
    | some vs ↦
        if ltb max_manifest_history (length vs)
        then delete_all (take (length vs - max_manifest_history) (sort_strings vs)) o
        else o
  ]

  -- the rest of `Sync`, from the collection on
  unfoldable pub collect_wals : ℕ → store.Objects → Engine local.pebble.DB → Outcome
  collect_wals now o e =
      let c = gc store ns o e.max_wal_seq e.orphan_ttl now in (e, c.objects, c.error)

  unfoldable pub new_manifest : ℕ → Entries → Engine local.pebble.DB → Manifest
  unfolding manifest_files
  new_manifest now fs e = record {
    version = e.manifest_version + 1;
    max_wal_seq = e.max_wal_seq;
    created_at = now;
    prev_version = e.manifest_version;
    files = manifest_files fs;
  }

  -- the rest of `Sync`, from the manifest on
  unfoldable pub write_manifest : ℕ → Entries → store.Objects → Engine local.pebble.DB → Outcome
  unfolding new_manifest trim_versions collect_wals
  write_manifest now fs o e =
      let m = new_manifest now fs e in
      let (o', error) = store.put o (manifest_version_path ns m.version) (local.marshal m) in
      elim error [
        | some cause ↦ (e, o', some cause)
        | none ↦
            let (o'', error') = store.put o' (manifest_path ns) (local.marshal m) in
            elim error' [
              | some cause ↦ (e, o'', some cause)
              | none ↦
                  collect_wals now (trim_versions o'') (record e { manifest_version = m.version })
            ]
      ]

  -- the rest of `Sync`, from the uploads on
  unfoldable pub upload_checkpoint : ℕ → Entries → store.Objects → Engine local.pebble.DB → Outcome
  unfolding upload_files delete_stale write_manifest
  upload_checkpoint now fs o e =
      let (o', uploaded, error) = upload_files e.uploaded fs o [] in
      let e' = record e { uploaded = uploaded } in
      elim error [
        | some cause ↦ (e', o', some cause)
        | none ↦ write_manifest now fs (delete_stale e.uploaded fs o') e'
      ]

  -- the `Put` of `Flush`, if there is a window; its wait for earlier flights changes nothing here
  unfoldable pub put_window : Option Flight → store.Objects → store.Objects × Option String
  put_window none o = (o, none)
  put_window (some f) o = store.put o (wal_path ns f.seq) (merge_batch_segments f.segments)

  -- `Sync`
  unfoldable pub sync : ℕ → store.Objects → Engine local.pebble.DB → Outcome
  unfolding put_window upload_checkpoint flush
  sync now o e =
      let (db, unflushed) = local.flush e.db in
      elim unflushed [
        | some cause ↦ (record e { db = db }, o, some cause)
        | none ↦
            let (m, window) = flush e.manager in
            let e' = record e { db = db; manager = m } in
            let (o', error) = put_window window o in
            elim error [
              | some cause ↦ (e', o', some cause)
              | none ↦ elim (local.checkpoint e'.db) [
                | none ↦ (e', o', some "checkpoint")
                | some fs ↦ upload_checkpoint now fs o' e'
              ]
            ]
      ]

  -- `Close`: a last `Sync`, and the manager is closed whatever it returns
  unfoldable pub close_engine : ℕ → store.Objects → Engine local.pebble.DB → Outcome
  unfolding sync close
  close_engine now o e =
      let (e', o', error) = sync now o e in (record e' { manager = close e'.manager }, o', error)
