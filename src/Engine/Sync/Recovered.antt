-- ===== src/Engine/Sync/Recovered.antt =====
-- pkg/engine/engine.go: `Sync` on one machine and `recover` on another.
use cloudpebble.Base.{
  ℕ, true, false, none, some, List, [], ◌++◌, ◌≡◌, refl, sym, ◌∙◌, ap, subst, if_true,
}
use cloudpebble.Base.Order.{Bytes}
use cloudpebble.Pebble.{Batch, Entries, effects}
use cloudpebble.Objstore.{Store, found}
use cloudpebble.Wal.Objects.{WalEntry, list_wals}
use cloudpebble.Engine.{Local, Engine, Manifest}
use cloudpebble.Engine.Recovery.{
  restore, replay_wals, replay_local_wals, replay_files, then_replay_wals, then_replay_local,
  recover,
}
use cloudpebble.Engine.Recovery.Replay.{
  IsAbove, AllCovered, last_seq, read_batches, replay_wals-applies,
}
use cloudpebble.Engine.Sync.{sync, new_manifest, manifest_files}
use cloudpebble.Engine.Sync.Checkpoint.{HasCheckpoint}
use cloudpebble.Engine.Sync.Completed.{sync-HasCheckpoint, sync-flushed}
use cloudpebble.Engine.Sync.Restored.{restore-checkpoint}
use cloudpebble.Engine.Sync.Uploaded.{AllSkippedStored}

module _ (local : Local) (store : Store) (ns : Bytes) where
  replay_local_wals-none :
      (e : Engine local.pebble.DB)
      → e.local_wals ≡ []
      → replay_local_wals local store ns e ≡ (e, none)
  unfolding replay_local_wals replay_files
  replay_local_wals-none e h = ap (λ fs. replay_files local store ns fs e) h

  strongly :
      (o : store.Objects) (e : Engine local.pebble.DB)
      → e.strong ≡ true
      → then_replay_wals local store ns o (e, none) ≡ replay_wals local store ns o e
  unfolding then_replay_wals
  strongly o e s = if_true _ _ s

  recover-eq :
      (o : store.Objects) (e e1 e2 : Engine local.pebble.DB)
      → restore local store ns o e ≡ (e1, none)
      → e1.strong ≡ true
      → replay_wals local store ns o e1 ≡ (e2, none)
      → recover local store ns o e ≡ replay_local_wals local store ns e2
  unfolding recover then_replay_wals then_replay_local
  recover-eq o e e1 e2 r s w =
      ap (λ x. then_replay_local local store ns (then_replay_wals local store ns o x)) r
      ∙ ap (then_replay_local local store ns) (strongly o e1 s ∙ w)

  -- `recover` on an empty directory, from a store that has a checkpoint and log objects, with strong
  -- consistency and no local log, gives the values of the checkpoint, changed by exactly the batches of
  -- the log objects above the number of the manifest, and ends at the last number.
  pub recover-checkpoint :
      (fs : Entries) (db : local.pebble.DB) (o : store.Objects) (m : Manifest)
      (e0 : Engine local.pebble.DB) (k : Bytes) (old new : List WalEntry) (all : Batch)
      → local.checkpoint db ≡ some fs
      → HasCheckpoint local store ns o fs m
      → m.files ≡ manifest_files local store ns fs
      → e0.dir ≡ []
      → e0.strong ≡ true
      → e0.local_wals ≡ []
      → ((p d : Bytes) → store.content o p ≡ some d → store.get o p ≡ found d)
      → ((dir : Entries) (n d : Bytes) → (dir' : Entries) × (local.write_file dir n d ≡ some dir'))
      → ((db' : local.pebble.DB) (b : Batch) → local.refuses db' b ≡ false)
      → list_wals store ns o ≡ some (old ++ new)
      → AllCovered m.max_wal_seq old
      → IsAbove m.max_wal_seq new
      → read_batches local store ns o new ≡ some all
      → (e' : Engine local.pebble.DB) × (recover local store ns o e0 ≡ (e', none))
        × (local.pebble.get e'.db k ≡ effects all k (local.stored db k))
        × (e'.max_wal_seq ≡ last_seq m.max_wal_seq new)
  recover-checkpoint fs db o m e0 k old new all c has files empty s wals reads writes takes listed
        covered above r =
      let (e1, run, got, top, version, strong, same) =
        restore-checkpoint local store ns fs db o m e0 c has files empty reads writes in
      let (e2, run', got', top', same') =
        replay_wals-applies local store ns o k takes old new all e1 listed
          (subst (λ n. AllCovered n old) (sym top) covered)
          (subst (λ n. IsAbove n new) (sym top) above) r in
      (
        e2,
        recover-eq o e0 e1 e2 run (strong ∙ s) run'
            ∙ replay_local_wals-none e2 (same' ∙ same ∙ wals),
        got' ∙ ap (effects all k) (got k),
        top' ∙ ap (λ n. last_seq n new) top,
      )

  -- After a `Sync` that returns no error, `recover` on an empty directory, with strong consistency and
  -- no local log, succeeds and gives the values of the database that was synced, changed by exactly the
  -- batches of the log objects above its sequence number, in their order, and ends at the last number.
  -- The store has the files that `Sync` does not upload again; after the `Sync` it answers every `Get`
  -- and lists entries that are not above the number, then entries above it in strictly ascending
  -- order, whose objects all hold batches; the disk takes every file and Pebble every batch.
  pub recover-sync :
      (now : ℕ) (o : store.Objects) (e e0 : Engine local.pebble.DB) (fs : Entries) (k : Bytes)
      (old new : List WalEntry) (all : Batch)
      → (sync local store ns now o e).2 ≡ none
      → local.checkpoint (local.flush e.db).0 ≡ some fs
      → AllSkippedStored local store ns e.uploaded o fs
      → e0.dir ≡ []
      → e0.strong ≡ true
      → e0.local_wals ≡ []
      → ((p d : Bytes)
          → store.content (sync local store ns now o e).1 p ≡ some d
          → store.get (sync local store ns now o e).1 p ≡ found d)
      → ((dir : Entries) (n d : Bytes) → (dir' : Entries) × (local.write_file dir n d ≡ some dir'))
      → ((db : local.pebble.DB) (b : Batch) → local.refuses db b ≡ false)
      → list_wals store ns (sync local store ns now o e).1 ≡ some (old ++ new)
      → AllCovered e.max_wal_seq old
      → IsAbove e.max_wal_seq new
      → read_batches local store ns (sync local store ns now o e).1 new ≡ some all
      → (e' : Engine local.pebble.DB) × (recover local store ns (sync local store ns now o e).1 e0
          ≡ (e', none))
        × (local.pebble.get e'.db k ≡ effects all k (local.pebble.get e.db k))
        × (e'.max_wal_seq ≡ last_seq e.max_wal_seq new)
  unfolding new_manifest
  recover-sync now o e e0 fs k old new all ok c h empty s wals reads writes takes listed covered
        above r =
      let (e', run, got, top) =
        recover-checkpoint fs (local.flush e.db).0 (sync local store ns now o e).1
          (new_manifest local store ns now fs e) e0 k old new all c
          (sync-HasCheckpoint local store ns now o e fs ok c h) refl empty s wals reads writes takes
          listed covered above r in
      (
        e',
        run,
        got
            ∙ ap (effects all k)
                (local.stored-flush e.db k (sync-flushed local store ns now o e ok)),
        top,
      )
