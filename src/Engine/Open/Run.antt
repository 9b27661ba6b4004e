-- ===== src/Engine/Open/Run.antt =====
-- pkg/engine/engine.go: an engine from `Open` on, through the ticks of its goroutines, to `Close`. The
-- calls of `Sync` and of the replay are one step each.
use Prim.Native.String.{String}
use cloudpebble.Base.{
  ℕ, ◌≤◌, List, [], ◌∷◌, ◌≡◌, refl, ◌∙◌, sym, subst, arith, All, leb, length, length-append,
  Bool-cases, Option-cases, List-cases, inl, inr, if_true, if_false,
}
use cloudpebble.Base.Int64.{lt_int64}
use cloudpebble.Base.Order.{Bytes}
use cloudpebble.Objstore.{Store}
use cloudpebble.Wal.Objects.{new_manager}
use cloudpebble.Engine.{Local}
use cloudpebble.Engine.Recovery.{recover, replay_wals}
use cloudpebble.Engine.Recovery.Uploaded.{recover-IsBelow, replay_wals-KeepsBelow}
use cloudpebble.Engine.Sync.{sync, close_engine}
use cloudpebble.Engine.Sync.Outside.{IsBelow, IsOutside, sync-outside, sync-IsBelow}
use cloudpebble.Engine.Open.{
  Options, Place, Running, Opened, opened, not_opened, State, open_engine, open_at, with_defaults,
  recovered_engine, unrecovered, check_eviction, periodic_sync, sync_tick, replay_tick, report,
  error_capacity,
}

-- A tick of `syncLoop`, at the times of its two calls of `Sync`, or of `walReplayLoop`.
pub data Tick : Type 0 where
  sync_due : ℕ → ℕ → Tick
  replay_due : Tick

length-report :
    (cause : String) (errors : List String)
    → length errors ≤ error_capacity
    → length (report cause errors) ≤ error_capacity
unfolding report
length-report cause errors le = ground (arith, length-append errors (cause ∷ []))

module _ (local : Local) (store : Store) (usage : local.pebble.DB → ℕ)
    (compact : local.pebble.DB → local.pebble.DB) where
  abbrev Now : Type 0
  Now = State local store usage compact

  unfoldable pub tick : Tick → Now → Now
  tick (sync_due now later) s = sync_tick local store usage compact now later s
  tick replay_due s = replay_tick local store usage compact s

  -- the ticks of an engine, one after the other
  unfoldable pub run : List Tick → Now → Now
  unfolding tick
  run [] s = s
  run (t ∷ ts) s = run ts (tick t s)

  -- The uploaded files of an engine are in its namespace, and no more errors wait than there is room for.
  abbrev pub IsSound : Now → Type 0
  IsSound s = All (IsBelow s.0.ns) s.0.engine.uploaded × (length s.0.errors ≤ error_capacity)

  -- The namespace is the same, the state is sound, and the object at a path is the same.
  abbrev Keeps : Bytes → Now → Now → Type 0
  Keeps p s s' = (s'.0.ns ≡ s.0.ns) × IsSound s' × (store.content s'.1 p ≡ store.content s.1 p)

  periodic_sync-Keeps :
      (now : ℕ) (p : Bytes) (s : Now)
      → IsSound s
      → IsOutside s.0.ns p
      → Keeps p s (periodic_sync local store usage compact now s)
  unfolding periodic_sync
  periodic_sync-Keeps now p (x, o) b out =
      let inside = sync-IsBelow local store x.ns now o x.engine b.0 in
      let same = sync-outside local store x.ns p out now o x.engine b.0 in
      elim (Option-cases (sync local store x.ns now o x.engine).2) [
        | inr (c, e) ↦ rw (e, periodic_sync) (refl, (inside, length-report c x.errors b.1), same)
        | inl e ↦ rw (e, periodic_sync) (refl, (inside, b.1), same)
      ]

  check_eviction-Keeps :
      (now : ℕ) (p : Bytes) (s : Now)
      → IsSound s
      → IsOutside s.0.ns p
      → Keeps p s (check_eviction local store usage compact now s)
  unfolding check_eviction
  check_eviction-Keeps now p (x, o) b out =
      let e = record x.engine { db = compact x.engine.db } in
      let inside = sync-IsBelow local store x.ns now o e b.0 in
      let same = sync-outside local store x.ns p out now o e b.0 in
      elim (Bool-cases (lt_int64 0 x.max_local_bytes)) [
        | inr h ↦ subst (Keeps p (x, o)) (sym (if_false _ _ h)) (refl, b, refl)
        | inl h ↦ elim (Bool-cases (leb (usage x.engine.db) x.max_local_bytes)) [
          | inl g ↦ subst (Keeps p (x, o)) (sym (if_true _ _ h ∙ if_true _ _ g)) (refl, b, refl)
          | inr g ↦
              subst (Keeps p (x, o)) (sym (if_true _ _ h ∙ if_false _ _ g))
                (refl, (inside, b.1), same)
        ]
      ]

  Keeps-trans :
      (p : Bytes) (s s' s'' : Now)
      → Keeps p s s'
      → (IsOutside s'.0.ns p → Keeps p s' s'')
      → IsOutside s.0.ns p
      → Keeps p s s''
  Keeps-trans p s s' s'' (n, b, c) next out =
      let (n', b', c') = next (subst (λ m. IsOutside m p) (sym n) out) in (n' ∙ n, b', c' ∙ c)

  tick-Keeps :
      (t : Tick) (p : Bytes) (s : Now) → IsSound s → IsOutside s.0.ns p → Keeps p s (tick t s)
  unfolding tick sync_tick replay_tick
  tick-Keeps (sync_due now later) p s b out =
      let k = periodic_sync-Keeps now p s b out in
      let s' = periodic_sync local store usage compact now s in
      let s'' = check_eviction local store usage compact later s' in
      Keeps-trans p s s' s'' k (check_eviction-Keeps later p s' k.1) out
  tick-Keeps replay_due p (x, o) b out =
      let inside = replay_wals-KeepsBelow local store x.ns o x.engine b.0 in
      elim (Option-cases (replay_wals local store x.ns o x.engine).1) [
        | inr (c, e) ↦ rw (e, replay_tick) (refl, (inside, length-report c x.errors b.1), refl)
        | inl e ↦ rw (e, replay_tick) (refl, (inside, b.1), refl)
      ]

  run-Keeps :
      (ts : List Tick) (p : Bytes) (s : Now) → IsSound s → IsOutside s.0.ns p → Keeps p s (run ts s)
  unfolding run
  run-Keeps [] p s b out = (refl, b, refl)
  run-Keeps (t ∷ ts) p s b out =
      let k = tick-Keeps t p s b out in
      Keeps-trans p s (tick t s) (run ts (tick t s)) k (run-Keeps ts p (tick t s) k.1) out

  -- an engine that was opened is at a namespace, and sound for any objects
  abbrev OpensAt : Bytes → Opened local.pebble.DB → Type 0
  OpensAt ns r = elim r [
    | opened x ↦ (x.ns ≡ ns) × ((o : store.Objects) → IsSound (x, o))
    | not_opened c ↦ Unit
  ]

  recovered_engine-OpensAt :
      (opts : Options) (place : Place local.pebble.DB) (first : ℕ) (o : store.Objects)
      → OpensAt opts.namespace (recovered_engine local store opts place first o)
  unfolding recovered_engine
  recovered_engine-OpensAt opts place first o =
      let e0 = unrecovered local store opts place first in
      elim (Option-cases (recover local store opts.namespace o e0).1) [
        | inr (c, e) ↦ rw (e, recovered_engine) tt
        | inl e ↦
            rw (e, recovered_engine)
              (refl, λ o'. (recover-IsBelow local store opts.namespace o e0, omega arith))
      ]

  open_at-OpensAt :
      (opts : Options) (place : Place local.pebble.DB) (o : store.Objects)
      → OpensAt opts.namespace (open_at local store opts place o)
  unfolding open_at
  open_at-OpensAt opts place o = elim (Option-cases (new_manager store opts.namespace o)) [
    | inl n ↦ rw (n, open_at) tt
    | inr (first, n) ↦ elim (Option-cases place.mkdir) [
      | inr (c, m) ↦ rw (n, m, open_at) tt
      | inl m ↦ elim (Option-cases place.mkdir_wals) [
        | inr (c, w) ↦ rw (n, m, w, open_at) tt
        | inl w ↦ rw (n, m, w, open_at) (recovered_engine-OpensAt opts place first o)
      ]
    ]
  ]

  open_engine-OpensAt :
      (opts : Options) (place : Place local.pebble.DB) (o : store.Objects)
      → OpensAt (with_defaults opts).namespace (open_engine local store opts place o)
  unfolding open_engine with_defaults
  open_engine-OpensAt opts place o =
      let At = OpensAt (with_defaults opts).namespace in
      elim (List-cases opts.dir) [
        | inl d ↦ rw (d, open_engine) tt
        | inr (c, cs, d) ↦
            rw (d, open_engine)
              (elim (Bool-cases opts.has_store) [
                | inr h ↦ subst At (sym (if_false _ _ h)) tt
                | inl h ↦
                    subst At (sym (if_true _ _ h)) (open_at-OpensAt (with_defaults opts) place o)
              ])
      ]

  -- the engine that `Open` returns
  pub opened-IsSound :
      (opts : Options) (place : Place local.pebble.DB) (o : store.Objects)
      (x : Running local.pebble.DB)
      → open_engine local store opts place o ≡ opened x
      → (x.ns ≡ (with_defaults opts).namespace) × ((o' : store.Objects) → IsSound (x, o'))
  opened-IsSound opts place o x h =
      subst (OpensAt (with_defaults opts).namespace) h (open_engine-OpensAt opts place o)

  -- An engine that `Open` returned changes no object outside of its namespace, by any ticks of its
  -- goroutines and a `Close` after them, whatever of it fails.
  pub run-outside :
      (opts : Options) (place : Place local.pebble.DB) (o : store.Objects)
      (x : Running local.pebble.DB) (ts : List Tick) (now : ℕ) (p : Bytes)
      → open_engine local store opts place o ≡ opened x
      → IsOutside x.ns p
      → let s = run ts (x, o) in
        store.content (close_engine local store s.0.ns now s.1 s.0.engine).1 p ≡ store.content o p
  unfolding close_engine
  run-outside opts place o x ts now p h out =
      let s = run ts (x, o) in
      let (same, sound, kept) = run-Keeps ts p (x, o) ((opened-IsSound opts place o x h).1 o) out in
      sync-outside local store s.0.ns p (subst (λ m. IsOutside m p) (sym same) out) now s.1
        s.0.engine sound.0
      ∙ kept
