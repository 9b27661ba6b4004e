-- ===== src/Wal/Manager/Numbers.antt =====
-- pkg/walcloud/manager.go: each sequence number of a manager belongs to one object.
use cloudpebble.Base.{
  ℕ, ◌+◌, ◌^◌, ◌≤◌, ◌<◌, Bool, true, false, Option, none, some, List, [], ◌∷◌, ◌++◌, if◌then◌else◌,
  ◌&&◌, ◌≡◌, ◌≢◌, refl, ◌∙◌, arith, ◌==◌, Bool-cases, List-cases, inl, inr, ==_iff,
}
use cloudpebble.Base.Order.{Bytes}
use cloudpebble.Objstore.{Store}
use cloudpebble.Wal.Manager.{
  Manager, Flight, Outcome, after, write_record, window, emptied, flush_pending, flush, close,
  System, launch, started_by, land, collect, Step, writes, fires, flushes, closes, lands, collects,
  Reachable, here, there, initial,
}

-- how often a number stands for the open window, for a flight and for an outcome
unfoldable pub in_option : ℕ → Option Flight → ℕ
in_option n none = 0
in_option n (some f) = if f.seq == n then 1 else 0

unfoldable pub in_flights : ℕ → List Flight → ℕ
in_flights n [] = 0
in_flights n (f ∷ fs) = (if f.seq == n then 1 else 0) + in_flights n fs

unfoldable pub in_done : ℕ → List Outcome → ℕ
in_done n [] = 0
in_done n (d ∷ ds) = (if d.flight.seq == n then 1 else 0) + in_done n ds

abbrev pub uses : {O : Type 0} → ℕ → System O → ℕ
uses n s = in_option n (window s.manager) + (in_flights n s.flights + in_done n s.done)

-- Every number in use is in use once, and was given out by this manager, which started at `start`.
abbrev pub IsNumbered : {O : Type 0} → ℕ → System O → Type 0
IsNumbered start s =
    (start ≤ s.manager.next_seq)
    × (s.manager.next_seq < 2 ^ 64)
    × ((n : ℕ) → uses n s ≤ 1)
    × ((n : ℕ) → uses n s ≢ 0 → (start ≤ n) × (n < s.manager.next_seq))

in_flights-append :
    (n : ℕ) (fs gs : List Flight) → in_flights n (fs ++ gs) ≡ in_flights n fs + in_flights n gs
unfolding in_flights
in_flights-append n [] gs = omega arith
in_flights-append n (f ∷ fs) gs = omega (arith, in_flights-append n fs gs)

pub in_flights-middle :
    (n : ℕ) (fs : List Flight) (f : Flight) (gs : List Flight)
    → in_flights n (fs ++ f ∷ gs) ≡ (if f.seq == n then 1 else 0) + in_flights n (fs ++ gs)
unfolding in_flights
in_flights-middle n fs f gs =
    rw (in_flights-append n fs (f ∷ gs), in_flights-append n fs gs) (omega arith)

-- what a call changes: the window, and the flight that it starts
pub uses-launch :
    {O : Type 0} (n : ℕ) (m : Manager) (f : Option Flight) (s : System O)
    → uses n (launch m f s)
      ≡ in_option n (window m) + (in_option n f + (in_flights n s.flights + in_done n s.done))
unfolding launch in_flights in_option
uses-launch n m none s = omega arith
uses-launch n m (some f) s = omega arith

-- a manager that has taken the next number, or has not
abbrev next : Bool → ℕ → ℕ
next took n = if took then n + 1 else n

abbrev taken : Bool → ℕ → ℕ → ℕ
taken took m n = if took && m == n then 1 else 0

-- A write takes the next number or none.
uses-write_record :
    (caller : ℕ) (segment : Bytes) (m : Manager)
    → m.next_seq + 1 < 2 ^ 64
    → (took : Bool) × ((write_record caller segment m).0.next_seq ≡ next took m.next_seq)
      × ((n : ℕ)
          → in_option n (window (write_record caller segment m).0)
              + in_option n (started_by (write_record caller segment m).1)
            ≡ in_option n (window m) + taken took m.next_seq n)
unfolding write_record in_option window started_by after
uses-write_record caller segment m lt = elim (Bool-cases m.closed) [
  | inl c ↦ rw c (false, refl, λ n. omega arith)
  | inr c ↦ elim (Bool-cases m.batching) [
    | inr b ↦ rw (c, b) (true, omega (arith, lt), λ n. omega arith)
    | inl b ↦ elim (List-cases m.pending) [
      | inl p ↦ rw (c, b, p) (true, omega (arith, lt), λ n. omega arith)
      | inr (d, ds, p) ↦ rw (c, b, p) (false, refl, λ n. omega arith)
    ]
  ]
]

unused :
    {O : Type 0} (s : System O) (start : ℕ)
    → IsNumbered start s
    → (n : ℕ) → s.manager.next_seq ≤ n
    → uses n s ≡ 0
unused s start h n le = elim (Bool-cases (uses n s == 0)) [
  | inl e ↦ (==_iff (uses n s) 0).0 e
  | inr e ↦
      let nz : uses n s ≢ 0 = λ k. ground (arith, e, k) in
      let k = h.3 n nz in omega (arith, k.1, le)
]

IsNumbered-same :
    {O : Type 0} (start : ℕ) (s t : System O)
    → IsNumbered start s
    → t.manager.next_seq ≡ s.manager.next_seq
    → ((n : ℕ) → uses n t ≡ uses n s)
    → IsNumbered start t
IsNumbered-same start s t h e u = (
  omega (arith, e, h.0),
  omega (arith, e, h.1),
  λ n. omega (arith, u n, h.2 n),
  λ n nz. let (a, b) = h.3 n (λ k. nz (u n ∙ k)) in (a, omega (arith, b, e)),
)

-- Whatever keeps the numbers in use, but for the next one when it is taken, keeps them sound.
IsNumbered-next :
    {O : Type 0} (start : ℕ) (s t : System O) (took : Bool)
    → IsNumbered start s
    → s.manager.next_seq + 1 < 2 ^ 64
    → t.manager.next_seq ≡ next took s.manager.next_seq
    → ((n : ℕ) → uses n t ≡ uses n s + taken took s.manager.next_seq n)
    → IsNumbered start t
IsNumbered-next start s t true h lt e u = (
  omega (arith, e, h.0),
  omega (arith, e, lt),
  λ n. grind (arith, u n, h.2 n, unused s start h n),
  λ n nz. elim (Bool-cases (s.manager.next_seq == n)) [
    | inl q ↦
        let m = (==_iff s.manager.next_seq n).0 q in (omega (arith, m, h.0), omega (arith, m, e))
    | inr q ↦
        let k : uses n s ≢ 0 = λ z. nz (u n ∙ rw (q, z) refl) in
        let (a, b) = h.3 n k in (a, omega (arith, b, e))
  ],
)
IsNumbered-next start s t false h lt e u = IsNumbered-same start s t h e (λ n. omega (arith, u n))

-- Closing the window into a flight, or leaving it, moves its number.
uses-window : (n : ℕ) (t : Bool) (m : Manager) → in_option n (window (emptied t m)) ≡ 0
unfolding window emptied in_option
uses-window n t m = refl

uses-land :
    (store : Store) (ns : Bytes) (n : ℕ) (fs : List Flight) (f : Flight) (gs : List Flight)
    (s : System store.Objects)
    → s.flights ≡ fs ++ f ∷ gs
    → uses n (land store ns fs f gs s) ≡ uses n s
unfolding land in_done
uses-land store ns n fs f gs s e = let k = in_flights-middle n fs f gs in rw (e, k) (omega arith)

module _ (store : Store) (ns : Bytes) (start : ℕ) where
  emptied-IsNumbered :
      (timer : Bool) (s : System store.Objects)
      → IsNumbered start s
      → IsNumbered start (launch (emptied timer s.manager) (window s.manager) s)
  emptied-IsNumbered timer s h =
      let t = launch (emptied timer s.manager) (window s.manager) s in
      IsNumbered-same start s t h (unfold launch in unfold emptied in refl) (λ n.
        uses-launch n (emptied timer s.manager) (window s.manager) s
        ∙ omega (arith, uses-window n timer s.manager))

  pub Step-IsNumbered :
      {s t : System store.Objects} → Step store ns s t → IsNumbered start s → IsNumbered start t
  unfolding launch flush_pending flush close collect
  Step-IsNumbered (writes caller segment s lt) h =
      let (took, e, u) = uses-write_record caller segment s.manager lt in
      let m = write_record caller segment s.manager in
      IsNumbered-next start s (launch m.0 (started_by m.1) s) took h lt e
        (λ n. uses-launch n m.0 (started_by m.1) s ∙ omega (arith, u n))
  Step-IsNumbered (fires s) h = emptied-IsNumbered s.manager.timer s h
  Step-IsNumbered (flushes s) h = emptied-IsNumbered false s h
  Step-IsNumbered (closes s) h = h
  Step-IsNumbered (lands fs f gs s e) h =
      IsNumbered-same start s (land store ns fs f gs s) h (unfold land in refl)
        (λ n. uses-land store ns n fs f gs s e)
  Step-IsNumbered (collects max_seq ttl now s) h = h

  -- In a system that a new manager is started in, with a counter that does not wrap around, no two of
  -- the open window, the flights and the outcomes have the same sequence number, and all have numbers
  -- from the first one on, below the next one.
  pub Reachable-IsNumbered :
      {s t : System store.Objects}
      → Reachable store ns s t
      → IsNumbered start s
      → IsNumbered start t
  Reachable-IsNumbered here h = h
  Reachable-IsNumbered (there r st) h = Step-IsNumbered st (Reachable-IsNumbered r h)

pub initial-IsNumbered :
    {O : Type 0} (batching : Bool) (n : ℕ) (o : O)
    → n < 2 ^ 64
    → IsNumbered n (initial batching n o)
unfolding initial in_option in_flights in_done window
initial-IsNumbered batching n o lt = (omega arith, lt, λ k. omega arith, λ k nz. absurd (nz refl))
