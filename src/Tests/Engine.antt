-- ===== src/Tests/Engine.antt =====
-- Runs of the engine at concrete inputs.
use cloudpebble.Base.{ℕ, Bool, true, false, none, some, List, [], ◌∷◌, ◌≡◌, refl, arith}
use cloudpebble.Base.Order.{Bytes, equal_bytes, has_prefix, compare_bytes}
use cloudpebble.Objstore.{Store, found, is_listed}
use cloudpebble.Objstore.Memory.{memory, write, remove, fetch, keys}
use cloudpebble.Pebble.{Batch, Entries, find, set, effects}
use cloudpebble.Pebble.Table.{insert}
use cloudpebble.Wal.Paths.{wal_path, wal_prefix, parse_wal_seq}
use cloudpebble.Wal.Objects.{WalEntry, list_wals, read_record, gc, gc_loop}
use cloudpebble.Wal.Manager.{started}
use cloudpebble.Engine.{
  Engine, data_path, manifest_path, manifest_version_path, manifest_versions_prefix,
}
use cloudpebble.Engine.Recovery.Replay.{read_batches, last_seq}
use cloudpebble.Engine.Sync.{sync, is_skipped, trim_versions, sort_strings, delete_all, is_mutable}
use cloudpebble.Engine.Open.{Options, Place, Running, opened, open_engine, with_defaults}
use cloudpebble.Engine.Open.Durable.{after_write, open_engine-write}
use cloudpebble.Engine.Open.Restarted.{open_engine-sync}
use cloudpebble.Engine.Table.{
  Cached, local_table, join, entry_fields, batch_fields, checkpoint_name, split_fields, join_fields,
  batch_of,
}
use cloudpebble.Engine.Writes.{committed, write_wal_and_apply, apply_then_wal_async, local_wal_name}
use cloudpebble.Engine.Writes.Async.{both, async-overwrites}

abbrev store : Store
store = memory (λ p. false)

-- "d"
abbrev ns : Bytes
ns = b'd' ∷ []

abbrev next_number : ℕ
next_number = 7

abbrev engine : Bool → Bool → Cached → ℕ → Engine Cached
engine batching async db max_seq = record {
  db = db;
  manager = started batching 7;
  strong = true;
  async_wal = async;
  orphan_ttl = 0;
  max_wal_seq = max_seq;
  uploaded = [];
  manifest_version = 0;
  dir = [];
  local_wals = [];
}

abbrev table_one : Entries
table_one = (1 ∷ [], 2 ∷ []) ∷ []

-- the database that has it in memory only
abbrev in_memory : Cached
in_memory = (table_one, [])

abbrev set_three : Batch
set_three = set (1 ∷ []) (3 ∷ []) ∷ []

-- the log of the batch, at number 5
abbrev log_five : Entries
log_five = (wal_path ns 5, join (batch_fields set_three)) ∷ []

abbrev entry_five : List WalEntry
entry_five = record { seq = 5; path = wal_path ns 5 } ∷ []

reads : (o : Entries) (p d : Bytes) → find p o ≡ some d → fetch o p ≡ found d
unfolding fetch
reads o p d h = rw (h, fetch) refl

-- the namespace "d" at an empty place
abbrev options : Options
options = record {
  dir = b'/' ∷ [];
  has_store = true;
  namespace = ns;
  sync_interval = 0;
  cold_miss_threshold = 0;
  strong = true;
  async_wal = false;
  orphan_wal_ttl = 0;
  batch_window = 0;
  max_local_bytes = 0;
}

abbrev place : Place Cached
place = record { unset = ([], []); files = []; local_wals = []; mkdir = none; mkdir_wals = none }

abbrev after_sync : Entries
after_sync = (sync local_table store ns 100 log_five (engine false false in_memory 3)).1

open_engine-sync_example :
    (x : Running Cached) × (open_engine local_table store options place after_sync ≡ opened x)
    × (find (1 ∷ []) x.engine.db.0 ≡ effects set_three (1 ∷ []) (find (1 ∷ []) table_one))
    × (x.engine.max_wal_seq ≡ last_seq 3 entry_five)
unfolding list_wals sync started is_listed write gc keys insert compare_bytes data_path wal_path
    manifest_version_path manifest_path has_prefix manifest_versions_prefix wal_prefix parse_wal_seq
    read_batches equal_bytes read_record fetch find batch_of split_fields batch_fields join_fields
    last_seq is_skipped trim_versions gc_loop remove sort_strings delete_all is_mutable
    with_defaults
open_engine-sync_example =
    open_engine-sync local_table store options place 100 log_five (engine false false in_memory 3)
      ((checkpoint_name, join (entry_fields table_one)) ∷ []) (1 ∷ []) [] entry_five set_three
      (b'/', [], refl, refl) (refl, refl, refl, refl) refl refl refl (λ k. cc, tt)
      (reads after_sync) (λ dir n d. (insert n d dir, refl)) (λ db b. refl) refl tt
      (omega arith, tt) refl

-- a write of number 7 after the `Sync`, by an engine that starts at that number
abbrev log_seven : WalEntry
log_seven = record { seq = 7; path = wal_path ns 7 }

abbrev after_both : Entries
after_both =
    after_write local_table store options 100 [] (engine false false in_memory 3) 1 set_three
      committed (engine false false in_memory 3)

open_engine-write_example :
    (x : Running Cached) × (open_engine local_table store options place after_both ≡ opened x)
    × (find (1 ∷ []) x.engine.db.0 ≡ effects set_three (1 ∷ []) (find (1 ∷ []) table_one))
unfolding sync started with_defaults is_listed write gc list_wals keys insert compare_bytes
    manifest_version_path data_path manifest_path has_prefix manifest_versions_prefix wal_prefix
    write_wal_and_apply wal_path parse_wal_seq
open_engine-write_example =
    open_engine-write local_table store options 100 [] (engine false false in_memory 3) 1 set_three
      committed (engine false false in_memory 3) place
      ((checkpoint_name, join (entry_fields table_one)) ∷ []) (1 ∷ []) [] log_seven
      (b'/', [], refl, refl) (refl, refl, refl, refl) refl refl refl (λ k. cc, tt) refl refl refl
      refl (omega arith) (reads after_both) (λ dir n d. (insert n d dir, refl)) (λ db b. refl) refl
      tt

async-overwrites_example :
    (next_number ≡ next_number)
    × (find
          (local_wal_name 7)
          (both local_table store ns 1 2 set_three
            (set (2 ∷ []) (4 ∷ []) ∷ [])
            []
            (engine true true in_memory 3)).0.local_wals
        ≡ some (join (batch_fields (set (2 ∷ []) (4 ∷ []) ∷ []))))
unfolding apply_then_wal_async started
async-overwrites_example =
    async-overwrites local_table store ns 1 2 set_three (set (2 ∷ []) (4 ∷ []) ∷ []) []
      (engine true true in_memory 3) 7 7 refl refl refl refl
