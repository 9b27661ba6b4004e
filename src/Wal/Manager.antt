-- ===== src/Wal/Manager.antt =====
-- pkg/walcloud/manager.go: the state of a `Manager` and its calls. `System` is a manager with the
-- object store, the calls of `Put` that are on their way, and what they have answered; a `Step` is
-- what happens at once: a call up to its `Put`, the end of a `Put`, or a collection.
pub mod Numbers
pub mod Durable
pub mod Found
use Prim.Native.String.{String}
use cloudpebble.Base.{
  ℕ, suc, ◌+◌, ◌%◌, ◌^◌, ◌<◌, Bool, true, false, Option, none, some, List, [], ◌∷◌, ◌++◌,
  if◌then◌else◌, ◌≡◌, max, ◌||◌,
}
use cloudpebble.Base.Order.{Bytes}
use cloudpebble.Objstore.{Store}
use cloudpebble.Wal.Batches.{merge_batch_segments}
use cloudpebble.Wal.Objects.{gc, Collection, is_expired}
use cloudpebble.Wal.Paths.{wal_path}

-- `batching` is a positive `batchWindow`, `timer` is a `commitTimer` that is not nil. A waiter is the
-- number of a caller. No window is open when `pending` is empty, which stands for nil: an open window
-- has the segment of the call that opened it.
pub record Manager : Type 0 where
  pub batching : Bool
  pub next_seq : ℕ
  pub pending : List Bytes
  pub pending_seq : ℕ
  pub waiters : List ℕ
  pub timer : Bool
  pub closed : Bool

-- a `Put` that is on its way, of the merged segments, and who waits for it
pub record Flight : Type 0 where
  pub seq : ℕ
  pub segments : List Bytes
  pub waiters : List ℕ

-- a `Put` that has come back; its waiters have received the error
pub record Outcome : Type 0 where
  pub flight : Flight
  pub error : Option String

-- what `WriteRecord` does at once: it refuses, its own `Put` starts, or the call waits for the window
pub data Written : Type 0 where
  refused : Written
  putting : Flight → Written
  waiting : ℕ → Written

-- the uint64 `nextSeq` after `AddUint64(&m.nextSeq, 1)`
unfoldable pub after : ℕ → ℕ
after n = (n + 1) % 2 ^ 64

-- `WriteRecord` of `caller`. A `Put` of its own is that of a single segment, which merges to itself.
unfoldable pub write_record : ℕ → Bytes → Manager → Manager × Written
unfolding after
write_record caller segment m =
    if m.closed
    then (m, refused)
    else if m.batching
    then elim m.pending [
      | [] ↦ (
        record m {
          next_seq = after m.next_seq;
          pending = segment ∷ [];
          pending_seq = m.next_seq;
          waiters = m.waiters ++ caller ∷ [];
          timer = true;
        },
        waiting m.next_seq,
      )
      | first ∷ others ↦ (
        record m { pending = first ∷ others ++ segment ∷ []; waiters = m.waiters ++ caller ∷ [] },
        waiting m.pending_seq,
      )
    ]
    else (
      record m { next_seq = after m.next_seq },
      putting (record { seq = m.next_seq; segments = segment ∷ []; waiters = caller ∷ [] }),
    )

-- the `Put` of an open window
unfoldable pub window : Manager → Option Flight
window m = elim m.pending [
  | [] ↦ none
  | first ∷ others ↦
      some (record { seq = m.pending_seq; segments = first ∷ others; waiters = m.waiters })
]

-- the manager without its window, and with this timer
unfoldable pub emptied : Bool → Manager → Manager
emptied timer m = record m { pending = []; pending_seq = 0; waiters = []; timer = timer }

-- `flushPending`, up to the `Put` of its goroutine
unfoldable pub flush_pending : Manager → Manager × Option Flight
unfolding window emptied
flush_pending m = (emptied m.timer m, window m)

-- `Flush`, up to its `Put`
unfoldable pub flush : Manager → Manager × Option Flight
unfolding window emptied
flush m = (emptied false m, window m)

-- `Close`, up to its wait for the flights
unfoldable pub close : Manager → Manager
close m = record m { timer = false; closed = true }

-- the manager that `NewManager` returns, for the first sequence number that it finds
unfoldable pub started : Bool → ℕ → Manager
started batching n = record {
  batching = batching;
  next_seq = n;
  pending = [];
  pending_seq = 0;
  waiters = [];
  timer = false;
  closed = false;
}

-- `done` are the outcomes, the last one first; `collected` is the greatest number that a collection
-- was told to delete up to; `expired` are the numbers whose object a collection found older than its
-- time limit for orphans.
pub record System (O : Type 0) : Type 0 where
  pub manager : Manager
  pub flights : List Flight
  pub done : List Outcome
  pub objects : O
  pub collected : ℕ
  pub expired : ℕ → Bool

unfoldable pub launch : {O : Type 0} → Manager → Option Flight → System O → System O
launch m f s = record s {
  manager = m;
  flights = elim f [ none ↦ s.flights | some g ↦ g ∷ s.flights ];
}

-- the `Put` that a `WriteRecord` starts
unfoldable pub started_by : Written → Option Flight
started_by refused = none
started_by (putting f) = some f
started_by (waiting n) = none

module _ (store : Store) (ns : Bytes) where
  -- The `Put` of a flight comes back, the flights around it still on their way: `Put` and the answers
  -- to the waiters.
  unfoldable pub land :
      List Flight → Flight → List Flight → System store.Objects → System store.Objects
  land fs f gs s =
      let (o, error) = store.put s.objects (wal_path ns f.seq) (merge_batch_segments f.segments) in
      record s {
        flights = fs ++ gs;
        done = record { flight = f; error = error } ∷ s.done;
        objects = o;
      }

  -- `GC`
  unfoldable pub collect : ℕ → ℕ → ℕ → System store.Objects → System store.Objects
  collect max_seq orphan_ttl now s = record s {
    objects = (gc store ns s.objects max_seq orphan_ttl now).objects;
    collected = max s.collected max_seq;
    expired = λ n. s.expired n || is_expired store s.objects (wal_path ns n) orphan_ttl now;
  }

  pub data Step : System store.Objects → System store.Objects → Type 0 where
    -- the counter is not at its last number
    writes :
        (caller : ℕ) (segment : Bytes) (s : System store.Objects)
        → s.manager.next_seq + 1 < 2 ^ 64
        → Step s (
            launch
              (write_record caller segment s.manager).0
              (started_by (write_record caller segment s.manager).1)
              s)
    fires :
        (s : System store.Objects)
        → Step s (launch (flush_pending s.manager).0 (flush_pending s.manager).1 s)
    flushes : (s : System store.Objects) → Step s (launch (flush s.manager).0 (flush s.manager).1 s)
    closes : (s : System store.Objects) → Step s (launch (close s.manager) none s)
    lands :
        (fs : List Flight) (f : Flight) (gs : List Flight) (s : System store.Objects)
        → s.flights ≡ fs ++ f ∷ gs
        → Step s (land fs f gs s)
    collects :
        (max_seq orphan_ttl now : ℕ) (s : System store.Objects)
        → Step s (collect max_seq orphan_ttl now s)

  pub data Reachable (s : System store.Objects) : System store.Objects → Type 0 where
    here : Reachable s s
    there : {t u : System store.Objects} → Reachable s t → Step t u → Reachable s u

-- the system of a new manager
unfoldable pub initial : {O : Type 0} → Bool → ℕ → O → System O
unfolding started
initial batching n o = record {
  manager = started batching n;
  flights = [];
  done = [];
  objects = o;
  collected = 0;
  expired = λ n. false;
}
