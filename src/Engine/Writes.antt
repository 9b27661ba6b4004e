-- ===== src/Engine/Writes.antt =====
-- pkg/engine/engine.go: the write path and `Get`. Between the start of a write and its end, when it
-- waits for a window, other calls may change the engine.
pub mod Logged
pub mod Async
use Prim.Native.String.{String}
use cloudpebble.Base.{
  ℕ, suc, max, Bool, true, false, not, ◌&&◌, Option, none, some, [], ◌∷◌, ◌++◌, leb, ltb,
  if◌then◌else◌,
}
use cloudpebble.Base.Order.{Bytes}
use cloudpebble.Pebble.{Op, set, delete, Batch}
use cloudpebble.Objstore.{Store}
use cloudpebble.Wal.Batches.{merge_batch_segments}
use cloudpebble.Wal.Manager.{Written, refused, putting, waiting, write_record}
use cloudpebble.Wal.Paths.{wal_path, decimal, wal_ext}
use cloudpebble.Engine.{Local, Engine}

-- what the channel of a window or the context of a caller gives
pub data Answer : Type 0 where
  committed : Answer
  uncommitted : String → Answer
  cancelled : Answer

-- what a write returns: its sequence number or an error
pub data Applied : Type 0 where
  applied : ℕ → Applied
  not_applied : String → Applied

-- a write after `WriteRecord`: it has failed, its object is stored, or it waits for a window
pub data Begun : Type 0 where
  failed_write : String → Begun
  logged : ℕ → Begun
  waits : ℕ → Begun

-- `coldMissCount`, `coldMissThresh` and `recovering`
pub record Misses : Type 0 where
  pub count : ℕ
  pub threshold : ℕ
  pub recovering : Bool

-- a miss in `Get`, with `triggerColdRecovery` up to its goroutine
unfoldable pub missed : Misses → Misses
missed m =
    if ltb 0 m.threshold && not m.recovering
    then record m { count = suc m.count; recovering = leb m.threshold (suc m.count) }
    else m

-- the end of the goroutine of `triggerColdRecovery`
unfoldable pub recovered : Misses → Misses
recovered m = record m { count = 0; recovering = false }

-- the name of a local log file
unfoldable pub local_wal_name : ℕ → Bytes
local_wal_name seq = decimal 20 seq ++ wal_ext

module _ (local : Local) (store : Store) (ns : Bytes) where
  -- `WriteRecord` of a batch, with its own `Put` when no window is used
  unfoldable pub begin_write :
      ℕ
      → Batch
      → store.Objects
      → Engine local.pebble.DB
      → Engine local.pebble.DB × store.Objects × Begun
  unfolding write_record
  begin_write caller batch o e =
      let (m, written) = write_record caller (local.repr batch) e.manager in
      let e' = record e { manager = m } in
      elim written [
        | refused ↦ (e', o, failed_write "manager is closed")
        | waiting seq ↦ (e', o, waits seq)
        | putting f ↦
            let (o', error) = store.put o (wal_path ns f.seq) (merge_batch_segments f.segments) in
            elim error [ some cause ↦ (e', o', failed_write cause) | none ↦ (e', o', logged f.seq) ]
      ]

  -- the local `Apply` and the new `maxWALSeq`
  unfoldable pub apply_written :
      ℕ → Batch → Engine local.pebble.DB → Engine local.pebble.DB × Applied
  apply_written seq batch e = if local.refuses e.db batch then (e, not_applied "applying") else (
    record e { db = local.pebble.apply e.db batch; max_wal_seq = max e.max_wal_seq seq },
    applied seq,
  )

  -- the rest of a write that waits
  unfoldable pub end_write :
      ℕ → Batch → Answer → Engine local.pebble.DB → Engine local.pebble.DB × Applied
  unfolding apply_written
  end_write seq batch committed e = apply_written seq batch e
  end_write seq batch (uncommitted cause) e = (e, not_applied cause)
  end_write seq batch cancelled e = (e, not_applied "context")

  -- the local log file and `Apply` of `applyThenWALAsync`
  unfoldable pub apply_async : ℕ → Batch → Engine local.pebble.DB → Engine local.pebble.DB × Applied
  unfolding apply_written local_wal_name
  apply_async seq batch e =
      elim (local.write_file e.local_wals (local_wal_name seq) (local.repr batch)) [
        | none ↦ (e, not_applied "writing local WAL")
        | some files ↦ apply_written seq batch (record e { local_wals = files })
      ]

  -- `applyThenWALAsync`, up to its goroutine
  unfoldable pub apply_then_wal_async :
      ℕ
      → Batch
      → store.Objects
      → Engine local.pebble.DB
      → Engine local.pebble.DB × store.Objects × Applied
  unfolding begin_write apply_async
  apply_then_wal_async caller batch o e =
      let (e', o', begun) = begin_write caller batch o e in
      elim begun [
        | failed_write cause ↦ (e', o', not_applied cause)
        | logged seq ↦ let (e'', result) = apply_async seq batch e' in (e'', o', result)
        | waits seq ↦ let (e'', result) = apply_async seq batch e' in (e'', o', result)
      ]

  -- the goroutine of `applyThenWALAsync`, when the window answers
  unfoldable pub uploaded_async : ℕ → Answer → Engine local.pebble.DB → Engine local.pebble.DB
  unfolding local_wal_name
  uploaded_async seq committed e = record e {
    local_wals = local.remove_file e.local_wals (local_wal_name seq);
  }
  uploaded_async seq (uncommitted cause) e = e
  uploaded_async seq cancelled e = e

  -- `writeWALAndApply`, when nothing else happens until the window answers
  unfoldable pub write_wal_and_apply :
      ℕ
      → Batch
      → Answer
      → store.Objects
      → Engine local.pebble.DB
      → Engine local.pebble.DB × store.Objects × Applied
  unfolding begin_write end_write apply_then_wal_async
  write_wal_and_apply caller batch answer o e =
      if e.async_wal
      then apply_then_wal_async caller batch o e
      else let (e', o', begun) = begin_write caller batch o e in
        elim begun [
          | failed_write cause ↦ (e', o', not_applied cause)
          | logged seq ↦ let (e'', result) = apply_written seq batch e' in (e'', o', result)
          | waits seq ↦ let (e'', result) = end_write seq batch answer e' in (e'', o', result)
        ]

  -- `Set`, `Delete`
  unfoldable pub set_key :
      ℕ
      → Bytes
      → Bytes
      → Answer
      → store.Objects
      → Engine local.pebble.DB
      → Engine local.pebble.DB × store.Objects × Applied
  unfolding write_wal_and_apply
  set_key caller key value answer o e = write_wal_and_apply caller (set key value ∷ []) answer o e

  unfoldable pub delete_key :
      ℕ
      → Bytes
      → Answer
      → store.Objects
      → Engine local.pebble.DB
      → Engine local.pebble.DB × store.Objects × Applied
  unfolding write_wal_and_apply
  delete_key caller key answer o e = write_wal_and_apply caller (delete key ∷ []) answer o e

  -- `Get`
  unfoldable pub get_key : Bytes → Engine local.pebble.DB → Misses → Option Bytes × Misses
  unfolding missed
  get_key key e m = elim (local.pebble.get e.db key) [
    | none ↦ (none, missed m)
    | some value ↦ (some value, record m { count = 0 })
  ]
