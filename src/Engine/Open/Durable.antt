-- ===== src/Engine/Open/Durable.antt =====
-- pkg/engine/engine.go: a write that was acknowledged, and `Open` on an empty directory after it.
use cloudpebble.Base.{
  ℕ, ◌<◌, false, true, none, some, List, [], ◌∷◌, ◌++◌, ◌≡◌, refl, ◌∙◌, ap, append-nil,
}
use cloudpebble.Base.Order.{Bytes, equal_bytes}
use cloudpebble.Pebble.{Batch, Entries, effects}
use cloudpebble.Objstore.{Store, found}
use cloudpebble.Wal.Objects.{WalEntry, list_wals, first_seq, read_record}
use cloudpebble.Wal.Paths.{wal_path}
use cloudpebble.Engine.{Local, Engine, Manifest, data_path, manifest_path}
use cloudpebble.Engine.Recovery.Replay.{AllCovered, read_batches, read_batch}
use cloudpebble.Engine.Writes.{Answer, applied, write_wal_and_apply}
use cloudpebble.Engine.Writes.Logged.{write_wal_and_apply-logged}
use cloudpebble.Engine.Sync.{sync, new_manifest}
use cloudpebble.Engine.Sync.Checkpoint.{HasCheckpoint, AllStored-same}
use cloudpebble.Engine.Sync.Completed.{sync-HasCheckpoint, sync-flushed}
use cloudpebble.Engine.Sync.Paths.{data_path-wal_path, manifest_path-wal_path}
use cloudpebble.Engine.Sync.Recovered.{recover-checkpoint}
use cloudpebble.Engine.Sync.Uploaded.{AllSkippedStored}
use cloudpebble.Engine.Open.{
  Options, Place, Running, opened, open_engine, with_defaults, unrecovered,
}
use cloudpebble.Engine.Open.Restarted.{IsComplete, IsEmpty, open_engine-recovered}

module _ (local : Local) (store : Store) (ns : Bytes) where
  -- A checkpoint stays when only a log object changes.
  HasCheckpoint-logged :
      (n : ℕ) (o o' : store.Objects) (fs : Entries) (m : Manifest)
      → ((p : Bytes)
          → equal_bytes p (wal_path ns n) ≡ false
          → store.content o' p ≡ store.content o p)
      → HasCheckpoint local store ns o fs m
      → HasCheckpoint local store ns o' fs m
  unfolding HasCheckpoint
  HasCheckpoint-logged n o o' fs m same h = (
    same (manifest_path ns) (manifest_path-wal_path ns n) ∙ h.0,
    AllStored-same local store ns o o' fs (λ f. same (data_path ns f) (data_path-wal_path ns f n))
        h.1,
  )

  read_batches-logged :
      (o : store.Objects) (w : WalEntry) (b : Batch)
      → store.get o (wal_path ns w.seq) ≡ found (local.repr b)
      → read_batches local store ns o (w ∷ []) ≡ some (b ++ [])
  unfolding read_batches read_batch read_record
  read_batches-logged o w b h =
      rw (h, local.set_repr-repr b, read_batches, read_batch, read_record) refl

module _ (local : Local) (store : Store) (opts : Options) (now : ℕ) (o : store.Objects)
    (e : Engine local.pebble.DB) where
  abbrev ns : Bytes
  ns = (with_defaults opts).namespace

  -- the store after a `Sync` of an engine
  abbrev pub synced : store.Objects
  synced = (sync local store ns now o e).1

  module _ (caller : ℕ) (batch : Batch) (answer : Answer) (writer : Engine local.pebble.DB) where
    -- the store after a write of an engine that found it so
    abbrev pub after_write : store.Objects
    after_write = (write_wal_and_apply local store ns caller batch answer synced writer).1

    -- A write that is acknowledged is not lost. After a `Sync` without an error an engine of the same
    -- namespace, which is neither asynchronous nor batching nor closed, writes a batch and returns a number above
    -- that of the `Sync`. Then `Open` on an empty directory, with strong consistency, succeeds, and has
    -- the values of the database that was synced, changed by exactly that batch: when the store has the
    -- files that `Sync` does not upload again, answers every `Get` and lists the log object of the
    -- number once and last, after objects up to the number of the `Sync`; the disk takes every file and
    -- Pebble every batch.
    pub open_engine-write :
        (place : Place local.pebble.DB) (fs : Entries) (k : Bytes) (old : List WalEntry)
        (w : WalEntry)
        → IsComplete local store opts
        → IsEmpty local store place
        → opts.strong ≡ true
        → (sync local store ns now o e).2 ≡ none
        → local.checkpoint (local.flush e.db).0 ≡ some fs
        → AllSkippedStored local store ns e.uploaded o fs
        → writer.async_wal ≡ false
        → writer.manager.closed ≡ false
        → writer.manager.batching ≡ false
        → (write_wal_and_apply local store ns caller batch answer synced writer).2 ≡ applied w.seq
        → e.max_wal_seq < w.seq
        → ((p d : Bytes) → store.content after_write p ≡ some d → store.get after_write p ≡ found d)
        → ((dir : Entries) (n d : Bytes)
            → (dir' : Entries) × (local.write_file dir n d ≡ some dir'))
        → ((db : local.pebble.DB) (b : Batch) → local.refuses db b ≡ false)
        → list_wals store ns after_write ≡ some (old ++ w ∷ [])
        → AllCovered e.max_wal_seq old
        → (x : Running local.pebble.DB) × (open_engine local store opts place after_write
            ≡ opened x)
          × (local.pebble.get x.engine.db k ≡ effects batch k (local.pebble.get e.db k))
    unfolding unrecovered with_defaults new_manifest
    open_engine-write place fs k old w complete empty strong ok c h sync_wal live direct done above
          reads writes takes listed covered =
        let (first, stored, applies, reached, kept) =
          write_wal_and_apply-logged local store ns caller batch answer synced writer w.seq k done
            sync_wal live direct in
        let has =
          HasCheckpoint-logged local store ns w.seq synced after_write fs
            (new_manifest local store ns now fs e) kept
            (sync-HasCheckpoint local store ns now o e fs ok c h) in
        let batches =
          read_batches-logged local store ns after_write w batch
            (reads (wal_path ns w.seq) (local.repr batch) stored) in
        let (e', run, got, top) =
          recover-checkpoint local store ns fs (local.flush e.db).0 after_write
            (new_manifest local store ns now fs e)
            (unrecovered local store (with_defaults opts) place (first_seq (old ++ w ∷ []))) k old
            (w ∷ []) (batch ++ []) c has refl empty.0 strong empty.1 reads writes takes listed
            covered (above, tt) batches in
        let (x, eq, same) =
          open_engine-recovered local store opts place after_write (old ++ w ∷ []) e' complete empty
            listed run in
        (
          x,
          eq,
          ap (λ z. local.pebble.get z.db k) same
              ∙ got
              ∙ ap (effects (batch ++ []) k)
                  (local.stored-flush e.db k (sync-flushed local store ns now o e ok))
              ∙ ap (λ b. effects b k (local.pebble.get e.db k)) (append-nil batch),
        )
