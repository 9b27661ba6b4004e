-- ===== src/Engine/Recovery.antt =====
-- pkg/engine/engine.go: `recover`, `replayWALs` and `replayLocalWALs`. The result is the engine, as far
-- as it was changed, and the error.
pub mod Replay
pub mod Uploaded
use Prim.Native.String.{String}
use cloudpebble.Base.{
  ℕ, max, Bool, true, false, Option, none, some, List, [], ◌∷◌, leb, if◌then◌else◌,
}
use cloudpebble.Base.Order.{Bytes}
use cloudpebble.Pebble.{Entries}
use cloudpebble.Objstore.{Store, Fetched, found, missing, failed}
use cloudpebble.Wal.Objects.{WalEntry, Read, data_of, unread, list_wals, read_record}
use cloudpebble.Engine.{Local, Engine, Manifest, ManifestFile, manifest_path, data_path}

-- the manifest in the store: none for any error of `Get`, whatever it is
pub data ManifestRead : Type 0 where
  absent : ManifestRead
  undecodable : ManifestRead
  present : Manifest → ManifestRead

module _ (local : Local) (store : Store) (ns : Bytes) where
  abbrev pub Result : Type 0
  Result = Engine local.pebble.DB × Option String

  -- an old manifest gives its number; the other fields are what was decoded of them
  unfoldable pub decode_manifest : Bytes → ManifestRead
  decode_manifest d =
      let (m, ok) = local.unmarshal d in
      if ok then present m else elim (local.unmarshal_old d) [
        | none ↦ undecodable
        | some n ↦ present (record m { max_wal_seq = n })
      ]

  unfoldable pub read_manifest : store.Objects → ManifestRead
  read_manifest o = elim (store.get o (manifest_path ns)) [
    | found d ↦ decode_manifest d
    | missing ↦ absent
    | failed cause ↦ absent
  ]

  -- the loop over the files of a manifest
  unfoldable pub download : List ManifestFile → store.Objects → Engine local.pebble.DB → Result
  download [] o e = (e, none)
  download (f ∷ fs) o e = elim (store.get o (data_path ns f.name)) [
    | found d ↦ elim (local.write_file e.dir f.name d) [
      | none ↦ (e, some "writing local")
      | some dir ↦
          download fs o (record e { dir = dir; uploaded = data_path ns f.name ∷ e.uploaded })
    ]
    | missing ↦ (e, some "downloading")
    | failed cause ↦ (e, some "downloading")
  ]

  unfoldable pub open_db : Engine local.pebble.DB → Result
  open_db e = elim (local.open_files e.dir) [
    | none ↦ (e, some "opening pebble")
    | some db ↦ (record e { db = db }, none)
  ]

  -- `recover`, up to the replays
  unfoldable pub restore : store.Objects → Engine local.pebble.DB → Result
  unfolding read_manifest download open_db
  restore o e = elim (read_manifest o) [
    | absent ↦ open_db (record e { uploaded = [] })
    | undecodable ↦ (record e { uploaded = [] }, some "decoding manifest")
    | present m ↦
        let (e', error) =
          download m.files o (record e { uploaded = []; manifest_version = m.version }) in
        elim error [
          | some cause ↦ (e', some cause)
          | none ↦ open_db (record e' { max_wal_seq = m.max_wal_seq })
        ]
  ]

  -- the loop of `replayWALs`
  unfoldable pub replay_entries : List WalEntry → store.Objects → Engine local.pebble.DB → Result
  replay_entries [] o e = (e, none)
  replay_entries (w ∷ ws) o e = elim (leb w.seq e.max_wal_seq) [
    | true ↦ replay_entries ws o e
    | false ↦ elim (read_record store ns o w.seq) [
      | unread cause ↦ (e, some "reading WAL")
      | data_of d ↦ elim (local.set_repr d) [
        | none ↦ (e, some "setting WAL repr")
        | some b ↦ elim (local.refuses e.db b) [
          | true ↦ (e, some "replaying WAL")
          | false ↦
              replay_entries ws o
                (record e { db = local.pebble.apply e.db b; max_wal_seq = max e.max_wal_seq w.seq })
        ]
      ]
    ]
  ]

  -- `replayWALs`
  unfoldable pub replay_wals : store.Objects → Engine local.pebble.DB → Result
  unfolding replay_entries
  replay_wals o e = elim (list_wals store ns o) [
    | none ↦ (e, some "listing WALs")
    | some ws ↦ replay_entries ws o e
  ]

  -- the loop of `replayLocalWALs`, over the files of its directory, which can be read
  unfoldable pub replay_files : Entries → Engine local.pebble.DB → Result
  replay_files [] e = (e, none)
  replay_files ((name, d) ∷ fs) e = elim (local.set_repr d) [
    | none ↦ (e, some "setting local WAL repr")
    | some b ↦ elim (local.refuses e.db b) [
      | true ↦ (e, some "replaying local WAL")
      | false ↦ replay_files fs (record e {
        db = local.pebble.apply e.db b;
        local_wals = local.remove_file e.local_wals name;
      })
    ]
  ]

  -- `replayLocalWALs`
  unfoldable pub replay_local_wals : Engine local.pebble.DB → Result
  unfolding replay_files
  replay_local_wals e = replay_files e.local_wals e

  -- what `recover` does after it has opened the database, and after the log in the store
  unfoldable pub then_replay_wals : store.Objects → Result → Result
  unfolding replay_wals
  then_replay_wals o (e, some cause) = (e, some cause)
  then_replay_wals o (e, none) = if e.strong then replay_wals o e else (e, none)

  unfoldable pub then_replay_local : Result → Result
  unfolding replay_local_wals
  then_replay_local (e, some cause) = (e, some cause)
  then_replay_local (e, none) = replay_local_wals e

  -- `recover`
  unfoldable pub recover : store.Objects → Engine local.pebble.DB → Result
  unfolding restore then_replay_wals then_replay_local
  recover o e = then_replay_local (then_replay_wals o (restore o e))
