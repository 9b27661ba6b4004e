-- ===== src/Bigtable/Server.antt =====
-- pkg/bigtable/server.go: the tables of a server and their engines. The calls of one server are steps, as
-- its mutex orders them.
pub mod Tables
use Prim.Native.String.{String}
use cloudpebble.Base.{
  ℕ, Bool, true, false, Option, none, some, List, [], ◌∷◌, ◌++◌, ◌==◌, ◌||◌, if◌then◌else◌,
}
use cloudpebble.Base.Order.{Bytes, equal_bytes}
use cloudpebble.Objstore.{Store}
use cloudpebble.Wal.Paths.{slash}
use cloudpebble.Engine.{Local}
use cloudpebble.Engine.Sync.{close_engine}
use cloudpebble.Engine.Open.{Options, Place, Running, Opened, opened, not_opened, open_engine}
use cloudpebble.Bigtable.Status.{
  Status, Result, ok, err, error, errorf, invalid_argument, internal, unimplemented,
}

-- "bigtable"
abbrev pub default_prefix : Bytes
default_prefix = b'b' ∷ b'i' ∷ b'g' ∷ b't' ∷ b'a' ∷ b'b' ∷ b'l' ∷ b'e' ∷ []

-- `tables` is the map of the tables that are open; `batch_window` and `async_wal` are the overrides
pub record Server (D : Type 0) : Type 0 where
  pub dir : Bytes
  pub ns_prefix : Bytes
  pub tables : List (Bytes × Running D)
  pub batch_window : ℕ
  pub async_wal : Bool

-- the calls that are not supported
pub data Unsupported : Type 0 where
  open_authorized_view open_materialized_view generate_initial_change_stream_partitions :
      Unsupported
  read_change_stream prepare_query execute_query : Unsupported

unfoldable pub answer_unsupported : Unsupported → Status
answer_unsupported open_authorized_view = error unimplemented "authorized views not supported"
answer_unsupported open_materialized_view = error unimplemented "materialized views not supported"
answer_unsupported generate_initial_change_stream_partitions =
    error unimplemented "change streams not supported"
answer_unsupported read_change_stream = error unimplemented "change streams not supported"
answer_unsupported prepare_query = error unimplemented "SQL queries not supported"
answer_unsupported execute_query = error unimplemented "SQL queries not supported"

module _ {D : Type 0} where
  -- the engine of a table that is open
  unfoldable pub table_of : Bytes → List (Bytes × Running D) → Option (Running D)
  table_of t [] = none
  table_of t ((u, x) ∷ ts) = if equal_bytes t u then some x else table_of t ts

  -- `NewServer`
  unfoldable pub new_server : Bytes → Server D
  new_server dir = record {
    dir = dir;
    ns_prefix = [];
    tables = [];
    batch_window = 0;
    async_wal = false;
  }

  -- `SetAsyncWAL`
  unfoldable pub set_async_wal : Bool → Server D → Server D
  set_async_wal v s = record s { async_wal = v }

  -- `nsPrefix`, or "bigtable"
  unfoldable pub namespace_root : Server D → Bytes
  namespace_root s = elim s.ns_prefix [ [] ↦ default_prefix | c ∷ cs ↦ c ∷ cs ]

  unfoldable pub table_namespace : Server D → Bytes → Bytes
  table_namespace s t = namespace_root s ++ (slash ∷ t)

  -- the options of a table; a field that is not set is the zero value
  unfoldable pub table_options : Server D → Bytes → Options
  table_options s t = record {
    dir = s.dir ++ (slash ∷ t);
    has_store = true;
    namespace = table_namespace s t;
    sync_interval = 0;
    cold_miss_threshold = 0;
    strong = true;
    async_wal = s.async_wal;
    orphan_wal_ttl = 0;
    batch_window = s.batch_window;
    max_local_bytes = 0;
  }

-- `place` is what `Open` finds at a directory.
module _ (local : Local) (store : Store) (place : Bytes → Place local.pebble.DB) where
  -- what a call gives of an engine
  pub data Engines : Type 0 where
    engine_of : Running local.pebble.DB → Engines
    opening_failed : String → Engines

  -- `getEngine`
  unfoldable pub get_engine :
      store.Objects → Bytes → Server local.pebble.DB → Server local.pebble.DB × Engines
  get_engine o t s = elim (table_of t s.tables) [
    | some x ↦ (s, engine_of x)
    | none ↦
        let opts = table_options s t in
        elim (open_engine local store opts (place opts.dir) o) [
          | not_opened cause ↦ (s, opening_failed cause)
          | opened x ↦ (record s { tables = (t, x) ∷ s.tables }, engine_of x)
        ]
  ]

  -- `PingAndWarm`
  unfoldable pub ping_and_warm :
      store.Objects → Bytes → Server local.pebble.DB → Server local.pebble.DB × Result {0} Unit
  unfolding get_engine
  ping_and_warm o [] s = (s, err (error invalid_argument "name is required"))
  ping_and_warm o (c ∷ cs) s =
      let (s', e) = get_engine o (c ∷ cs) s in
      elim e [
        | engine_of x ↦ (s', ok tt)
        | opening_failed cause ↦ (s', err (errorf internal "opening table: %v" cause))
      ]

  -- the loop of `Close`, with the errors that are joined
  unfoldable pub close_tables :
      ℕ → List (Bytes × Running local.pebble.DB) → store.Objects → store.Objects × List String
  close_tables now [] o = (o, [])
  close_tables now ((t, x) ∷ ts) o =
      let (e, o', error) = close_engine local store x.ns now o x.engine in
      let (o'', errors) = close_tables now ts o' in
      (o'', elim error [ none ↦ errors | some cause ↦ cause ∷ errors ])

  -- `Close`
  unfoldable pub close_server :
      ℕ
      → store.Objects
      → Server local.pebble.DB
      → Server local.pebble.DB × store.Objects × List String
  unfolding close_tables
  close_server now o s =
      let (o', errors) = close_tables now s.tables o in (record s { tables = [] }, o', errors)
