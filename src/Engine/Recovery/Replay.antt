-- ===== src/Engine/Recovery/Replay.antt =====
-- pkg/engine/engine.go: what `replayWALs` applies.
use Prim.Native.String.{String}
use cloudpebble.Base.{
  ℕ, ◌≤◌, ◌<◌, max, true, false, Option, none, some, List, [], ◌∷◌, ◌++◌, leb, ◌≡◌, ◌⊎◌, refl, sym,
  ◌∙◌, ap, subst, arith, All, Option-cases, inl, inr,
}
use mathlib.Core.Option.{some-injective}
use cloudpebble.Base.Order.{Bytes}
use cloudpebble.Pebble.{Batch, effects, effects-append}
use cloudpebble.Objstore.{Store}
use cloudpebble.Wal.Objects.{WalEntry, Read, data_of, unread, list_wals, read_record}
use cloudpebble.Engine.{Local, Engine}
use cloudpebble.Engine.Recovery.{replay_entries, replay_wals}

pub Read-cases :
    (r : Read) → ((c : Option String) × (r ≡ unread c)) ⊎ ((d : Bytes) × (r ≡ data_of d))
Read-cases (unread c) = inl (c, refl)
Read-cases (data_of d) = inr (d, refl)

none-ne_some : {b : Batch} → none ≡ some b → ⊥
none-ne_some h = cc

-- entries in strictly ascending order, above a number
abbrev pub IsAbove : ℕ → List WalEntry → Type 0
IsAbove n [] = Unit
IsAbove n (w ∷ ws) = (n < w.seq) × IsAbove w.seq ws

-- entries that are not above a number
abbrev pub AllCovered : ℕ → List WalEntry → Type 0
AllCovered n = All (λ (w : WalEntry). w.seq ≤ n)

-- the last number, or `n` if there is none
unfoldable pub last_seq : ℕ → List WalEntry → ℕ
last_seq n [] = n
last_seq n (w ∷ ws) = last_seq w.seq ws

module _ (local : Local) (store : Store) (ns : Bytes) where
  -- the operations that a log object holds
  unfoldable pub read_batch : store.Objects → WalEntry → Option Batch
  read_batch o w = elim (read_record store ns o w.seq) [
    | unread cause ↦ none
    | data_of d ↦ local.set_repr d
  ]

  -- the operations that the log objects hold, one after the other
  unfoldable pub read_batches : store.Objects → List WalEntry → Option Batch
  unfolding read_batch
  read_batches o [] = some []
  read_batches o (w ∷ ws) = elim (read_batch o w) [
    | none ↦ none
    | some b ↦ elim (read_batches o ws) [ none ↦ none | some bs ↦ some (b ++ bs) ]
  ]

  replay :
      List WalEntry
      → store.Objects
      → Engine local.pebble.DB
      → Engine local.pebble.DB × Option String
  replay ws o e = replay_entries local store ns ws o e

  replay-covered :
      (w : WalEntry) (ws : List WalEntry) (o : store.Objects) (e : Engine local.pebble.DB)
      → w.seq ≤ e.max_wal_seq
      → replay (w ∷ ws) o e ≡ replay ws o e
  unfolding replay replay_entries
  replay-covered w ws o e h =
      let t : leb w.seq e.max_wal_seq ≡ true = ground (arith, h) in rw (t, replay_entries) refl

  replay-old :
      (old ws : List WalEntry) (o : store.Objects) (e : Engine local.pebble.DB)
      → AllCovered e.max_wal_seq old
      → replay (old ++ ws) o e ≡ replay ws o e
  replay-old [] ws o e h = refl
  replay-old (w ∷ old) ws o e h = replay-covered w (old ++ ws) o e h.0 ∙ replay-old old ws o e h.1

  -- the engine after one log object
  replayed : WalEntry → Batch → Engine local.pebble.DB → Engine local.pebble.DB
  replayed w b e = record e {
    db = local.pebble.apply e.db b;
    max_wal_seq = max e.max_wal_seq w.seq;
  }

  replay-applied :
      (w : WalEntry) (ws : List WalEntry) (o : store.Objects) (e : Engine local.pebble.DB)
      (b : Batch)
      → e.max_wal_seq < w.seq
      → read_batch o w ≡ some b
      → local.refuses e.db b ≡ false
      → replay (w ∷ ws) o e ≡ replay ws o (replayed w b e)
  unfolding replay replay_entries read_batch replayed
  replay-applied w ws o e b h r ok =
      let t : leb w.seq e.max_wal_seq ≡ false = ground (arith, h) in
      elim (Read-cases (read_record store ns o w.seq)) [
        | inl (x, f) ↦ let k = rw (f, read_batch) at r in absurd (none-ne_some k)
        | inr (d, f) ↦
            let k : local.set_repr d ≡ some b = rw (f, read_batch) at r in
            rw (t, f, k, ok, replay_entries) refl
      ]

  read_batches-first :
      (w : WalEntry) (ws : List WalEntry) (o : store.Objects) (all : Batch)
      → read_batches o (w ∷ ws) ≡ some all
      → (b : Batch) × (bs : Batch) × (read_batch o w ≡ some b)
        × (read_batches o ws ≡ some bs)
        × (b ++ bs ≡ all)
  unfolding read_batches
  read_batches-first w ws o all h = elim (Option-cases (read_batch o w)) [
    | inl e ↦ let k = rw (e, read_batches) at h in absurd (none-ne_some k)
    | inr (b, e) ↦ elim (Option-cases (read_batches o ws)) [
      | inl f ↦ let k = rw (e, f, read_batches) at h in absurd (none-ne_some k)
      | inr (bs, f) ↦ let k = rw (e, f, read_batches) at h in (b, bs, e, f, some-injective _ _ k)
    ]
  ]

  read_batches-none : (o : store.Objects) (all : Batch) → read_batches o [] ≡ some all → [] ≡ all
  unfolding read_batches
  read_batches-none o all h = some-injective _ _ h

  module _ (o : store.Objects) (k : Bytes)
      (takes : (db : local.pebble.DB) (b : Batch) → local.refuses db b ≡ false) where
    replay-new :
        (new : List WalEntry) (all : Batch) (e : Engine local.pebble.DB)
        → IsAbove e.max_wal_seq new
        → read_batches o new ≡ some all
        → (e' : Engine local.pebble.DB) × (replay new o e ≡ (e', none))
          × (local.pebble.get e'.db k ≡ effects all k (local.pebble.get e.db k))
          × (e'.max_wal_seq ≡ last_seq e.max_wal_seq new)
          × (e'.local_wals ≡ e.local_wals)
    unfolding last_seq replayed effects
    replay-new [] all e above h = (
      e,
      unfold replay in unfold replay_entries in refl,
      ap (λ b. effects b k (local.pebble.get e.db k)) (read_batches-none o all h),
      refl,
      refl,
    )
    replay-new (w ∷ ws) all e above h =
        let (b, bs, r, rs, joined) = read_batches-first w ws o all h in
        let e1 = replayed w b e in
        let step = replay-applied w ws o e b above.0 r (takes e.db b) in
        let top1 : max e.max_wal_seq w.seq ≡ w.seq = omega (arith, above.0) in
        let (e', run, got, top, wals) =
          replay-new ws bs e1 (subst (λ n. IsAbove n ws) (sym top1) above.1) rs in
        (
          e',
          step ∙ run,
          got
              ∙ ap (effects bs k) (local.pebble.get-apply e.db b k)
              ∙ sym (effects-append b bs k (local.pebble.get e.db k))
              ∙ ap (λ c. effects c k (local.pebble.get e.db k)) joined,
          top ∙ ap (λ n. last_seq n ws) top1,
          wals,
        )

    -- When the log lists entries that are not above the engine's number and then, in strictly ascending
    -- order, entries above it, whose objects all hold batches, and the database takes every batch:
    -- `replayWALs` succeeds, applies exactly the batches of the later entries, in their order, and ends
    -- at the number of the last one. The local log stays.
    pub replay_wals-applies :
        (old new : List WalEntry) (all : Batch) (e : Engine local.pebble.DB)
        → list_wals store ns o ≡ some (old ++ new)
        → AllCovered e.max_wal_seq old
        → IsAbove e.max_wal_seq new
        → read_batches o new ≡ some all
        → (e' : Engine local.pebble.DB) × (replay_wals local store ns o e ≡ (e', none))
          × (local.pebble.get e'.db k ≡ effects all k (local.pebble.get e.db k))
          × (e'.max_wal_seq ≡ last_seq e.max_wal_seq new)
          × (e'.local_wals ≡ e.local_wals)
    unfolding replay_wals replay
    replay_wals-applies old new all e listed covered above h =
        let (e', run, got, top, wals) = replay-new new all e above h in
        (e', rw (listed, replay_wals) (replay-old old new o e covered ∙ run), got, top, wals)
