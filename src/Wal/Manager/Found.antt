-- ===== src/Wal/Manager/Found.antt =====
-- pkg/walcloud/manager.go: a new manager leaves the log objects that it finds.
use cloudpebble.Base.{ℕ, ◌^◌, ◌<◌, Bool, some, ◌≡◌, ◌≢◌, arith, ◌==◌, Bool-cases, inl, inr, ==_iff}
use cloudpebble.Base.Order.{Bytes}
use cloudpebble.Objstore.{Store}
use cloudpebble.Wal.Paths.{wal_path}
use cloudpebble.Wal.Objects.{new_manager}
use cloudpebble.Wal.Objects.Listed.{new_manager-above}
use cloudpebble.Wal.Manager.{System, Step, Reachable, here, there, initial}
use cloudpebble.Wal.Manager.Numbers.{in_flights, IsNumbered, Step-IsNumbered, initial-IsNumbered}
use cloudpebble.Wal.Manager.Durable.{IsStored, Step-IsStored}

module _ (store : Store) (ns : Bytes) where
  old :
      (start n : ℕ) (s : System store.Objects)
      → IsNumbered start s
      → n < start
      → in_flights n s.flights ≡ 0
  old start n s h lt = elim (Bool-cases (in_flights n s.flights == 0)) [
    | inl e ↦ (==_iff (in_flights n s.flights) 0).0 e
    | inr e ↦
        let nz : in_flights n s.flights ≢ 0 = λ k. ground (arith, e, k) in
        let used = h.3 n (λ k. nz (omega (arith, k))) in omega (arith, used.0, lt)
  ]

  Step-IsStored-old :
      (start n : ℕ) (d : Bytes) (s t : System store.Objects)
      → Step store ns s t
      → IsNumbered start s
      → n < start
      → IsStored store ns n d s
      → IsStored store ns n d t
  Step-IsStored-old start n d s t st h lt c =
      Step-IsStored store ns start n d st h (omega (arith, lt, h.0, h.1)) (old start n s h lt) c

  -- A number below that of the first manager is in no flight.
  Reachable-IsStored :
      (start : ℕ) {s t : System store.Objects} (n : ℕ) (d : Bytes)
      → Reachable store ns s t
      → IsNumbered start s
      → n < start
      → IsStored store ns n d s
      → IsNumbered start t × IsStored store ns n d t
  Reachable-IsStored start n d here h lt c = (h, c)
  Reachable-IsStored start n d (there r st) h lt c =
      let (h', c') = Reachable-IsStored start n d r h lt c in
      (Step-IsNumbered store ns start st h', Step-IsStored-old start n d _ _ st h' lt c')

  -- A run of a manager that `NewManager` starts, with collections of any time limit for orphans,
  -- leaves every log object that it has found as it was, unless a collection was told to delete up to
  -- its number or found the object older than its time limit: when the manager has not started at 0
  -- and its counter does not wrap around.
  pub found-IsStored :
      (batching : Bool) (n : ℕ) (o : store.Objects) (t : System store.Objects) (seq : ℕ) (d : Bytes)
      → new_manager store ns o ≡ some n
      → n ≢ 0
      → n < 2 ^ 64
      → seq < 2 ^ 64
      → store.content o (wal_path ns seq) ≡ some d
      → Reachable store ns (initial batching n o) t
      → IsStored store ns seq d t
  unfolding initial
  found-IsStored batching n o t seq d e nz small lt c run =
      let below = new_manager-above store ns o n seq d e nz lt c in
      let numbered = initial-IsNumbered batching n o small in
      (Reachable-IsStored n seq d run numbered below (inr (inr c))).1
