-- ===== src/Engine/Open.antt =====
-- pkg/engine/engine.go: `Open`, and what the goroutines that it starts do at a tick. Durations and sizes
-- are patterns of int64. The default logger and the options of Pebble have no effect here.
pub mod Run
pub mod Defaults
pub mod Restarted
pub mod Durable
use Prim.Native.String.{String}
use cloudpebble.Base.{
  ℕ, ◌*◌, ◌+◌, ◌^◌, Bool, true, false, not, Option, none, some, List, [], ◌∷◌, ◌++◌, ◌==◌, ltb, leb,
  if◌then◌else◌, length,
}
use cloudpebble.Base.Int64.{lt_int64}
use cloudpebble.Base.Order.{Bytes}
use cloudpebble.Pebble.{Entries}
use cloudpebble.Objstore.{Store}
use cloudpebble.Wal.Manager.{started}
use cloudpebble.Wal.Objects.{new_manager}
use cloudpebble.Engine.{Local, Engine}
use cloudpebble.Engine.Recovery.{recover, replay_wals}
use cloudpebble.Engine.Sync.{sync}
use cloudpebble.Engine.Writes.{Misses}

-- a second, in nanoseconds
abbrev second : ℕ
second = 10 ^ 9

abbrev pub default_sync_interval : ℕ
default_sync_interval = 30 * second

abbrev pub default_cold_miss_threshold : ℕ
default_cold_miss_threshold = 3

abbrev pub default_orphan_wal_ttl : ℕ
default_orphan_wal_ttl = 3600 * second

abbrev pub default_batch_window : ℕ
default_batch_window = 200 * 10 ^ 6

-- "default"
abbrev pub default_namespace : Bytes
default_namespace = b'd' ∷ b'e' ∷ b'f' ∷ b'a' ∷ b'u' ∷ b'l' ∷ b't' ∷ []

-- how many errors the channel of an engine holds
abbrev pub error_capacity : ℕ
error_capacity = 16

-- `has_store` is a `Store` that is not nil
pub record Options : Type 0 where
  pub dir : Bytes
  pub has_store : Bool
  pub namespace : Bytes
  pub sync_interval : ℕ
  pub cold_miss_threshold : ℕ
  pub strong : Bool
  pub async_wal : Bool
  pub orphan_wal_ttl : ℕ
  pub batch_window : ℕ
  pub max_local_bytes : ℕ

-- What `Open` finds at the local directory: its files and those of the local log, and the errors of
-- `os.MkdirAll` for both. `unset` is the database of an engine that has none yet.
pub record Place (D : Type 0) : Type 0 where
  pub unset : D
  pub files : Entries
  pub local_wals : Entries
  pub mkdir : Option String
  pub mkdir_wals : Option String

-- An engine with its goroutines. `replays` is a running `walReplayLoop`, `errors` the channel of errors.
pub record Running (D : Type 0) : Type 0 where
  pub ns : Bytes
  pub engine : Engine D
  pub misses : Misses
  pub max_local_bytes : ℕ
  pub sync_interval : ℕ
  pub replays : Bool
  pub errors : List String
  pub healthy : Bool
  pub ready : Bool

pub data Opened (D : Type 0) : Type 0 where
  opened : Running D → Opened D
  not_opened : String → Opened D

-- a positive value, or else a default
abbrev positive_or : ℕ → ℕ → ℕ
positive_or d v = if lt_int64 0 v then v else d

-- the defaults of `Open`
unfoldable pub with_defaults : Options → Options
with_defaults opts = record opts {
  namespace = elim opts.namespace [ [] ↦ default_namespace | c ∷ cs ↦ c ∷ cs ];
  sync_interval = positive_or default_sync_interval opts.sync_interval;
  cold_miss_threshold = positive_or default_cold_miss_threshold opts.cold_miss_threshold;
  orphan_wal_ttl = positive_or default_orphan_wal_ttl opts.orphan_wal_ttl;
  batch_window = if opts.batch_window == 0 then default_batch_window else opts.batch_window;
}

-- a send to the channel of errors, which drops what it has no room for
unfoldable pub report : String → List String → List String
report cause errors = if ltb (length errors) error_capacity then errors ++ cause ∷ [] else errors

module _ (local : Local) (store : Store) where
  -- the engine before `recover`, for the first number of its manager
  unfoldable pub unrecovered : Options → Place local.pebble.DB → ℕ → Engine local.pebble.DB
  unrecovered opts place first = record {
    db = place.unset;
    manager = started (lt_int64 0 opts.batch_window) first;
    strong = opts.strong;
    async_wal = opts.async_wal;
    orphan_ttl = opts.orphan_wal_ttl;
    max_wal_seq = 0;
    uploaded = [];
    manifest_version = 0;
    dir = place.files;
    local_wals = place.local_wals;
  }

  -- `Open` for options with their defaults, from `recover` on
  unfoldable pub recovered_engine :
      Options → Place local.pebble.DB → ℕ → store.Objects → Opened local.pebble.DB
  recovered_engine opts place first o =
      let (e, error) = recover local store opts.namespace o (unrecovered opts place first) in
      elim error [
        | some cause ↦ not_opened cause
        | none ↦ opened (record {
          ns = opts.namespace;
          engine = e;
          misses = record { count = 0; threshold = opts.cold_miss_threshold; recovering = false };
          max_local_bytes = opts.max_local_bytes;
          sync_interval = opts.sync_interval;
          replays = not opts.strong;
          errors = [];
          healthy = true;
          ready = true;
        })
      ]

  -- `Open` for options with their defaults
  unfoldable pub open_at : Options → Place local.pebble.DB → store.Objects → Opened local.pebble.DB
  open_at opts place o = elim (new_manager store opts.namespace o) [
    | none ↦ not_opened "creating WAL manager"
    | some first ↦ elim place.mkdir [
      | some cause ↦ not_opened cause
      | none ↦ elim place.mkdir_wals [
        | some cause ↦ not_opened cause
        | none ↦ recovered_engine opts place first o
      ]
    ]
  ]

  -- `Open`
  unfoldable pub open_engine :
      Options → Place local.pebble.DB → store.Objects → Opened local.pebble.DB
  open_engine opts place o = elim opts.dir [
    | [] ↦ not_opened "Dir is required"
    | c ∷ cs ↦
        if opts.has_store
        then open_at (with_defaults opts) place o
        else not_opened "objstore.Store is required"
  ]

  -- Pebble's `Metrics().DiskSpaceUsage()` and `Compact`
  module _ (usage : local.pebble.DB → ℕ) (compact : local.pebble.DB → local.pebble.DB) where
    abbrev pub State : Type 0
    State = Running local.pebble.DB × store.Objects

    -- `checkEviction`
    unfoldable pub check_eviction : ℕ → State → State
    check_eviction now (x, o) =
        let e = record x.engine { db = compact x.engine.db } in
        let (e', o', error) = sync local store x.ns now o e in
        if lt_int64 0 x.max_local_bytes
        then if leb (usage x.engine.db) x.max_local_bytes
          then (x, o)
          else (record x { engine = e' }, o')
        else (x, o)

    -- a tick of `syncLoop`, up to `checkEviction`
    unfoldable pub periodic_sync : ℕ → State → State
    periodic_sync now (x, o) =
        let (e', o', error) = sync local store x.ns now o x.engine in
        elim error [
          | some cause ↦
              (record x { engine = e'; healthy = false; errors = report cause x.errors }, o')
          | none ↦ (record x { engine = e'; healthy = true }, o')
        ]

    unfoldable pub sync_tick : ℕ → ℕ → State → State
    sync_tick now later s = check_eviction later (periodic_sync now s)

    -- a tick of `walReplayLoop`
    unfoldable pub replay_tick : State → State
    replay_tick (x, o) =
        let (e', error) = replay_wals local store x.ns o x.engine in
        elim error [
          | some cause ↦ (record x { engine = e'; errors = report cause x.errors }, o)
          | none ↦ (record x { engine = e' }, o)
        ]
