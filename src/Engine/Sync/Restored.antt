-- ===== src/Engine/Sync/Restored.antt =====
-- pkg/engine/engine.go: what `recover` opens after a `Sync`.
use Prim.Native.String.{String}
use cloudpebble.Base.{ℕ, ◌+◌, Option, none, some, [], ◌≡◌, refl, ◌∙◌, ap}
use cloudpebble.Base.Order.{Bytes}
use cloudpebble.Pebble.{Entries, find}
use cloudpebble.Objstore.{Store, found}
use cloudpebble.Engine.{Local, Engine, Manifest, manifest_path}
use cloudpebble.Engine.Recovery.{
  download, open_db, read_manifest, decode_manifest, present, restore,
}
use cloudpebble.Engine.Sync.{new_manifest, sync, manifest_files}
use cloudpebble.Engine.Sync.Uploaded.{AllSkippedStored, download-files, or_else}
use cloudpebble.Engine.Sync.Checkpoint.{HasCheckpoint}
use cloudpebble.Engine.Sync.Completed.{sync-HasCheckpoint, sync-flushed}

module _ (local : Local) (store : Store) (ns : Bytes) where
  or_else-none : (n : Bytes) (x : Option Bytes) → or_else x (find n []) ≡ x
  unfolding or_else find
  or_else-none n none = refl
  or_else-none n (some d) = refl

  restore-eq :
      (o : store.Objects) (m : Manifest) (e e1 : Engine local.pebble.DB)
      → read_manifest local store ns o ≡ present m
      → download local store ns m.files o (record e { uploaded = []; manifest_version = m.version })
        ≡ (e1, none)
      → restore local store ns o e
        ≡ open_db local store ns (record e1 { max_wal_seq = m.max_wal_seq })
  unfolding restore
  restore-eq o m e e1 r d =
      rw (r, d, restore)
        (ap
          (λ (x : Engine local.pebble.DB × Option String).
            open_db local store ns (record x.0 { max_wal_seq = m.max_wal_seq }))
          d)

  open_db-eq :
      (e : Engine local.pebble.DB) (db : local.pebble.DB)
      → local.open_files e.dir ≡ some db
      → open_db local store ns e ≡ (record e { db = db }, none)
  unfolding open_db
  open_db-eq e db h = rw (h, open_db) refl

  reads_manifest :
      (o : store.Objects) (m : Manifest)
      → store.content o (manifest_path ns) ≡ some (local.marshal m)
      → ((p d : Bytes) → store.content o p ≡ some d → store.get o p ≡ found d)
      → read_manifest local store ns o ≡ present m
  unfolding read_manifest decode_manifest
  reads_manifest o m h reads =
      rw
        (
          reads (manifest_path ns) (local.marshal m) h,
          local.unmarshal-marshal m,
          read_manifest,
          decode_manifest,
        )
        refl

  -- What `recover` opens from a checkpoint, on an empty disk, when the store and the disk answer.
  pub restore-checkpoint :
      (fs : Entries) (db : local.pebble.DB) (o : store.Objects) (m : Manifest)
      (e : Engine local.pebble.DB)
      → local.checkpoint db ≡ some fs
      → HasCheckpoint local store ns o fs m
      → m.files ≡ manifest_files local store ns fs
      → e.dir ≡ []
      → ((p d : Bytes) → store.content o p ≡ some d → store.get o p ≡ found d)
      → ((dir : Entries) (n d : Bytes) → (dir' : Entries) × (local.write_file dir n d ≡ some dir'))
      → (e' : Engine local.pebble.DB) × (restore local store ns o e ≡ (e', none))
        × ((k : Bytes) → local.pebble.get e'.db k ≡ local.stored db k)
        × (e'.max_wal_seq ≡ m.max_wal_seq)
        × (e'.manifest_version ≡ m.version)
        × (e'.strong ≡ e.strong)
        × (e'.local_wals ≡ e.local_wals)
  unfolding HasCheckpoint
  restore-checkpoint fs db o m e c h files empty reads writes =
      let e0 = record e { uploaded = []; manifest_version = m.version } in
      let (e1, d, finds, version, strong, wals) =
        download-files local store ns fs o e0 (local.checkpoint-IsDirectory db fs c) h.1 reads
          writes in
      let all : (n : Bytes) → find n e1.dir ≡ find n fs = λ n.
        finds n ∙ ap (λ dir. or_else (find n fs) (find n dir)) empty ∙ or_else-none n (find n fs) in
      let (db', opened, same) = local.open_files-checkpoint db fs e1.dir c all in
      let r : read_manifest local store ns o ≡ present m = reads_manifest o m h.0 reads in
      (
        record e1 { max_wal_seq = m.max_wal_seq; db = db' },
        restore-eq o m e e1 r (ap (λ ms. download local store ns ms o e0) files ∙ d)
            ∙ open_db-eq (record e1 { max_wal_seq = m.max_wal_seq }) db' opened,
        same,
        refl,
        version,
        strong,
        wals,
      )

  -- After a `Sync` that returns no error, `recover`, up to its replays, succeeds on an empty
  -- directory, and opens a database with the values of the one that was synced, at its sequence number
  -- and the next version, with its local log as it was: when the store has the files that `Sync` does not upload again, and the
  -- store answers every `Get` and the disk takes every file.
  pub restore-sync :
      (now : ℕ) (o : store.Objects) (e e0 : Engine local.pebble.DB) (fs : Entries) (k : Bytes)
      → (sync local store ns now o e).2 ≡ none
      → local.checkpoint (local.flush e.db).0 ≡ some fs
      → AllSkippedStored local store ns e.uploaded o fs
      → e0.dir ≡ []
      → ((p d : Bytes)
          → store.content (sync local store ns now o e).1 p ≡ some d
          → store.get (sync local store ns now o e).1 p ≡ found d)
      → ((dir : Entries) (n d : Bytes) → (dir' : Entries) × (local.write_file dir n d ≡ some dir'))
      → (e' : Engine local.pebble.DB) × (restore local store ns (sync local store ns now o e).1 e0
          ≡ (e', none))
        × (local.pebble.get e'.db k ≡ local.pebble.get e.db k)
        × (e'.max_wal_seq ≡ e.max_wal_seq)
        × (e'.manifest_version ≡ e.manifest_version + 1)
        × (e'.strong ≡ e0.strong)
        × (e'.local_wals ≡ e0.local_wals)
  unfolding new_manifest
  restore-sync now o e e0 fs k ok c h empty reads writes =
      let m = new_manifest local store ns now fs e in
      let has = sync-HasCheckpoint local store ns now o e fs ok c h in
      let (e', r, same, max_seq, version, strong, wals) =
        restore-checkpoint fs (local.flush e.db).0 (sync local store ns now o e).1 m e0 c has refl
          empty reads writes in
      (
        e',
        r,
        same k ∙ local.stored-flush e.db k (sync-flushed local store ns now o e ok),
        max_seq,
        version,
        strong,
        wals,
      )
