-- ===== src/Engine/Open/Restarted.antt =====
-- pkg/engine/engine.go: `Open` on an empty directory, after a `Sync` of another engine.
use cloudpebble.Base.{ℕ, true, false, none, some, List, [], ◌∷◌, ◌++◌, ◌≡◌, refl, ◌∙◌, ap, if_true}
use cloudpebble.Base.Order.{Bytes}
use cloudpebble.Pebble.{Batch, Entries, effects}
use cloudpebble.Objstore.{Store, found}
use cloudpebble.Wal.Objects.{WalEntry, list_wals, new_manager, first_seq}
use cloudpebble.Engine.{Local, Engine}
use cloudpebble.Engine.Recovery.{recover}
use cloudpebble.Engine.Recovery.Replay.{IsAbove, AllCovered, last_seq, read_batches}
use cloudpebble.Engine.Sync.{sync}
use cloudpebble.Engine.Sync.Recovered.{recover-sync}
use cloudpebble.Engine.Sync.Uploaded.{AllSkippedStored}
use cloudpebble.Engine.Open.{
  Options, Place, Running, opened, open_engine, open_at, with_defaults, recovered_engine,
  unrecovered,
}

module _ (local : Local) (store : Store) where
  -- a directory of its own, with a store
  abbrev pub IsComplete : Options → Type 0
  IsComplete opts = (c : ℕ) × (cs : Bytes) × (opts.dir ≡ c ∷ cs) × (opts.has_store ≡ true)

  -- a new and empty place
  abbrev pub IsEmpty : Place local.pebble.DB → Type 0
  IsEmpty place =
      (place.files ≡ [])
      × (place.local_wals ≡ [])
      × (place.mkdir ≡ none)
      × (place.mkdir_wals ≡ none)

  recovered_engine-eq :
      (opts : Options) (place : Place local.pebble.DB) (first : ℕ) (o : store.Objects)
      (e : Engine local.pebble.DB)
      → recover local store opts.namespace o (unrecovered local store opts place first) ≡ (e, none)
      → (x : Running local.pebble.DB) × (recovered_engine local store opts place first o ≡ opened x)
        × (x.engine ≡ e)
  unfolding recovered_engine
  recovered_engine-eq opts place first o e h = rw (h, recovered_engine) (_, refl, ap (λ r. r.0) h)

  open_at-eq :
      (opts : Options) (place : Place local.pebble.DB) (first : ℕ) (o : store.Objects)
      → new_manager store opts.namespace o ≡ some first
      → IsEmpty place
      → open_at local store opts place o ≡ recovered_engine local store opts place first o
  unfolding open_at recovered_engine unrecovered
  open_at-eq opts place first o n (f, w, m, d) = rw (n, m, d, open_at) refl

  open_engine-eq :
      (opts : Options) (place : Place local.pebble.DB) (o : store.Objects)
      → IsComplete opts
      → open_engine local store opts place o ≡ open_at local store (with_defaults opts) place o
  unfolding open_engine with_defaults open_at recovered_engine unrecovered
  open_engine-eq opts place o (c, cs, d, h) = rw (d, open_engine) (if_true _ _ h)

  new_manager-listed :
      (ns : Bytes) (o : store.Objects) (ws : List WalEntry)
      → list_wals store ns o ≡ some ws
      → new_manager store ns o ≡ some (first_seq ws)
  unfolding new_manager
  new_manager-listed ns o ws h = rw (h, new_manager) refl

  -- `Open` on an empty place gives the engine that `recover` gives.
  pub open_engine-recovered :
      (opts : Options) (place : Place local.pebble.DB) (o : store.Objects) (ws : List WalEntry)
      (e : Engine local.pebble.DB)
      → IsComplete opts
      → IsEmpty place
      → list_wals store (with_defaults opts).namespace o ≡ some ws
      → recover local store
          (with_defaults opts).namespace
          o
          (unrecovered local store (with_defaults opts) place (first_seq ws))
        ≡ (e, none)
      → (x : Running local.pebble.DB) × (open_engine local store opts place o ≡ opened x)
        × (x.engine ≡ e)
  open_engine-recovered opts place o ws e complete empty listed run =
      let opts' = with_defaults opts in
      let (x, eq, same) = recovered_engine-eq opts' place (first_seq ws) o e run in
      (
        x,
        open_engine-eq opts place o complete
            ∙ open_at-eq opts' place (first_seq ws) o
                (new_manager-listed opts'.namespace o ws listed) empty
            ∙ eq,
        same,
      )

  -- After a `Sync` of a namespace that returns no error, `Open` on an empty directory, with strong
  -- consistency and for the same namespace, succeeds with an engine that has the values of the database
  -- that was synced, those in memory included, changed by exactly the batches of the log objects above its sequence number, in
  -- their order, and that ends at the last number. The conditions on the store, the disk and Pebble are
  -- those of the theorem on `recover`: the store has the files that `Sync` does not upload again, and
  -- after the `Sync` it answers every `Get` and lists entries that are not above the number, then
  -- entries above it in strictly ascending order, whose objects all hold batches; the disk takes every
  -- file and Pebble every batch.
  pub open_engine-sync :
      (opts : Options) (place : Place local.pebble.DB) (now : ℕ) (o : store.Objects)
      (e : Engine local.pebble.DB) (fs : Entries) (k : Bytes) (old new : List WalEntry)
      (all : Batch)
      → IsComplete opts
      → IsEmpty place
      → opts.strong ≡ true
      → (sync local store (with_defaults opts).namespace now o e).2 ≡ none
      → local.checkpoint (local.flush e.db).0 ≡ some fs
      → AllSkippedStored local store (with_defaults opts).namespace e.uploaded o fs
      → ((p d : Bytes)
          → store.content (sync local store (with_defaults opts).namespace now o e).1 p ≡ some d
          → store.get (sync local store (with_defaults opts).namespace now o e).1 p ≡ found d)
      → ((dir : Entries) (n d : Bytes) → (dir' : Entries) × (local.write_file dir n d ≡ some dir'))
      → ((db : local.pebble.DB) (b : Batch) → local.refuses db b ≡ false)
      → list_wals store
          (with_defaults opts).namespace
          (sync local store (with_defaults opts).namespace now o e).1
        ≡ some (old ++ new)
      → AllCovered e.max_wal_seq old
      → IsAbove e.max_wal_seq new
      → read_batches local store
          (with_defaults opts).namespace
          (sync local store (with_defaults opts).namespace now o e).1
          new
        ≡ some all
      → (x : Running local.pebble.DB) × (open_engine local store opts place
            (sync local store (with_defaults opts).namespace now o e).1
          ≡ opened x)
        × (local.pebble.get x.engine.db k ≡ effects all k (local.pebble.get e.db k))
        × (x.engine.max_wal_seq ≡ last_seq e.max_wal_seq new)
  unfolding unrecovered with_defaults
  open_engine-sync opts place now o e fs k old new all complete empty strong ok c h reads writes
        takes listed covered above r =
      let opts' = with_defaults opts in
      let ns = opts'.namespace in
      let e0 = unrecovered local store opts' place (first_seq (old ++ new)) in
      let (e', run, got, top) =
        recover-sync local store ns now o e e0 fs k old new all ok c h empty.0 strong empty.1 reads
          writes takes listed covered above r in
      let (x, eq, same) =
        open_engine-recovered opts place (sync local store ns now o e).1 (old ++ new) e' complete
          empty listed run in
      (x, eq, ap (λ z. local.pebble.get z.db k) same ∙ got, ap (λ z. z.max_wal_seq) same ∙ top)
