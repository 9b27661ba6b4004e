-- ===== src/Tests/Server.antt =====
-- The server and a session at concrete inputs.
use cloudpebble.Base.{arith, ℕ, suc, false, none, some, List, [], ◌∷◌, ◌++◌, ◌≡◌, refl}
use cloudpebble.Base.Order.{Bytes, has_prefix, equal_bytes}
use cloudpebble.Objstore.{Store}
use cloudpebble.Objstore.Memory.{memory, fetch, keys}
use cloudpebble.Pebble.{Entries, find}
use cloudpebble.Wal.Paths.{slash, wal_prefix}
use cloudpebble.Engine.{manifest_path}
use cloudpebble.Wal.Objects.{new_manager, list_wals}
use cloudpebble.Engine.Recovery.{recover}
use cloudpebble.Engine.Open.{
  Place, Running, open_engine, open_at, recovered_engine, unrecovered, with_defaults,
}
use cloudpebble.Engine.Open.Run.{Tick, sync_due, replay_due, run}
use cloudpebble.Engine.Sync.{close_engine}
use cloudpebble.Engine.Table.{Cached, local_table, opened}
use cloudpebble.Bigtable.Server.{
  Server, new_server, get_engine, Engines, engine_of, table_of, table_options, table_namespace,
  namespace_root, default_prefix,
}
use cloudpebble.Engine.Namespaces.{IsNamespace}
use cloudpebble.Objstore.Filepath.{
  clean, join_parts, is_void, render, is_rooted, reversed, clean_parts, parts,
}
use cloudpebble.Objstore.Filepath.Names.{IsProper}
use cloudpebble.Bigtable.Server.Tables.{get_engine-again, tables-isolated}
use cloudpebble.Bigtable.Session.{
  VirtualRpc, end_of_file, rpc_error, Protocol, Handlers, answer, fails, dispatch_vrpc,
  handle_session,
}
use cloudpebble.Bigtable.Session.Unopened.{
  calling, unknown, received, taking, handle_session-unopened, errors, dispatch_vrpc-check,
}

abbrev store : Store
store = memory (λ p. false)

abbrev place : Bytes → Place Cached
place dir = record {
  unset = ([], []);
  files = [];
  local_wals = [];
  mkdir = none;
  mkdir_wals = none;
}

abbrev server : Server Cached
server = new_server (b'd' ∷ [])

-- the tables "t" and "u"
abbrev t : Bytes
t = b't' ∷ []

abbrev u : Bytes
u = b'u' ∷ []

-- an object of "u", in "bigtable/u"
abbrev object_of_u : Bytes
object_of_u = table_namespace server u ++ (slash ∷ b'x' ∷ [])

abbrev objects : Entries
objects = (object_of_u, 1 ∷ []) ∷ []

abbrev get : Bytes → Server Cached → Server Cached × Engines local_table store place
get n s = get_engine local_table store place objects n s

open_t : (x : Running Cached) × (get t server ≡ ((get t server).0, engine_of x))
unfolding get_engine table_of new_server open_engine table_options open_at new_manager list_wals
    recovered_engine recover fetch find opened unrecovered with_defaults keys equal_bytes
    manifest_path table_namespace namespace_root has_prefix wal_prefix
open_t = (_, refl)

get_engine-again_example :
    get t (get u (get t server).0).0 ≡ ((get u (get t server).0).0, engine_of open_t.0)
get_engine-again_example =
    get_engine-again local_table store place objects objects objects t u server (get t server).0
      open_t.0 open_t.1

-- no limit of the local size
abbrev size : Cached → ℕ
size db = 0

abbrev same : Cached → Cached
same db = db

abbrev ticks : List Tick
ticks = sync_due 1 2 ∷ replay_due ∷ []

named_t : IsProper t
unfolding is_void equal_bytes
named_t = ((λ k. omega (arith, k), tt), refl, refl)

named_u : IsProper u
unfolding is_void equal_bytes
named_u = ((λ k. omega (arith, k), tt), refl, refl)

named_prefix : IsProper default_prefix
unfolding is_void equal_bytes
named_prefix = (
  (
    λ k. omega (arith, k),
    (
      λ k. omega (arith, k),
      (
        λ k. omega (arith, k),
        (
          λ k. omega (arith, k),
          (
            λ k. omega (arith, k),
            (λ k. omega (arith, k), (λ k. omega (arith, k), (λ k. omega (arith, k), tt))),
          ),
        ),
      ),
    ),
  ),
  refl,
  refl,
)

namespace : (v : Bytes) → IsProper v → IsNamespace (table_namespace server v)
unfolding join_parts new_server table_namespace namespace_root
namespace v h = (default_prefix, v ∷ [], (named_prefix, (h, tt)), refl)

tables-isolated_example :
    let r = run local_table store size same ticks (open_t.0, objects) in
    find object_of_u (close_engine local_table store r.0.ns 3 r.1 r.0.engine).1
    ≡ find object_of_u objects
unfolding has_prefix table_of new_server table_namespace namespace_root clean render is_rooted
    reversed clean_parts parts is_void equal_bytes join_parts
tables-isolated_example =
    tables-isolated local_table store place size same objects t u server (get t server).0 open_t.0
      ticks 3 object_of_u refl open_t.1 (namespace t named_t) (namespace u named_u) (refl, refl)
      refl

-- messages are their encodings; no payload is a ReadRows
abbrev messages : Protocol
messages = record {
  ReadRows = Bytes;
  CheckAndMutateRow = Bytes;
  MutateRow = Bytes;
  MutateRows = Bytes;
  SampleRowKeys = Bytes;
  PingAndWarm = Bytes;
  Message = Bytes;
  read_rows = λ d. none;
  check_and_mutate_row = λ d. some d;
  mutate_row = λ d. some d;
  mutate_rows = λ d. none;
  sample_row_keys = λ d. none;
  ping_and_warm = λ d. none;
  open_table = λ d. some d;
  read_table = λ q. q;
  with_read_table = λ t q. t;
  check_row_key = λ q. q;
  mutate_row_key = λ q. q;
  has_entries = λ q. false;
  sample_table = λ q. q;
  ping_name = λ q. q;
  marshal = λ m. some m;
}

-- handlers that count the calls of MutateRow
abbrev handlers : Handlers messages ℕ
handlers = record {
  read_rows = λ q f w s. (w, s, none);
  check_and_mutate_row = λ q w. (w, answer q);
  mutate_row = λ q w. (suc w, answer q);
  mutate_rows = λ q f w s. (w, s, none);
  sample_row_keys = λ q f w s. (w, s, none);
  ping_and_warm = λ q w. (w, answer q);
}

abbrev rpc : VirtualRpc
rpc = record { rpc_id = 7; payload = 1 ∷ [] }

handle_session-unopened_example :
    handle_session messages handlers
      (received (calling rpc ∷ unknown ∷ []) ++ end_of_file ∷ [])
      []
      0
      (taking [])
    ≡ (0, taking (rpc_error 7 ∷ []), none)
unfolding errors
handle_session-unopened_example =
    handle_session-unopened messages handlers (calling rpc ∷ unknown ∷ []) [] 0 []

dispatch_vrpc-check_example :
    dispatch_vrpc messages handlers t rpc 0 (taking [])
    ≡ dispatch_vrpc messages
        (record handlers { mutate_row = λ q w. (w, fails "unused") })
        t
        rpc
        0
        (taking [])
dispatch_vrpc-check_example =
    dispatch_vrpc-check messages handlers (λ q w. (w, fails "unused")) t rpc 0 (taking []) (1 ∷ [])
      refl refl
