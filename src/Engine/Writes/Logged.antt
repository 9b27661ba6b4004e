-- ===== src/Engine/Writes/Logged.antt =====
-- pkg/engine/engine.go: what a write has done when it returns.
use Prim.Native.String.{String}
use cloudpebble.Base.{
  ℕ, ◌≤◌, true, false, Option, none, some, [], ◌∷◌, ◌≡◌, ◌⊎◌, refl, sym, subst, ◌∙◌, ap, arith,
  Bool-cases, Option-cases, inl, inr, if_true, if_false,
}
use cloudpebble.Base.Order.{Bytes, equal_bytes}
use cloudpebble.Pebble.{Batch, effects}
use cloudpebble.Objstore.{Store}
use cloudpebble.Wal.Batches.{merge_batch_segments}
use cloudpebble.Wal.Manager.{
  Written, refused, putting, waiting, write_record, Flight, Manager, after,
}
use cloudpebble.Wal.Paths.{wal_path}
use cloudpebble.Engine.{Local, Engine}
use cloudpebble.Engine.Writes.{
  Answer, committed, uncommitted, cancelled, Applied, applied, not_applied, Begun, failed_write,
  logged, waits, begin_write, apply_written, end_write, write_wal_and_apply, apply_async,
  apply_then_wal_async, local_wal_name,
}

write_record-direct :
    (caller : ℕ) (segment : Bytes) (m : Manager)
    → m.closed ≡ false
    → m.batching ≡ false
    → write_record caller segment m ≡ (
      record m { next_seq = after m.next_seq },
      putting (record { seq = m.next_seq; segments = segment ∷ []; waiters = caller ∷ [] }),
    )
unfolding write_record
write_record-direct caller segment m c b = if_false _ _ c ∙ if_false _ _ b

Begun-cases :
    (b : Begun)
    → ((c : String) × (b ≡ failed_write c)) ⊎ ((n : ℕ) × (b ≡ logged n)) ⊎ ((n : ℕ) × (b ≡ waits n))
Begun-cases (failed_write c) = inl (c, refl)
Begun-cases (logged n) = inr (inl (n, refl))
Begun-cases (waits n) = inr (inr (n, refl))

Written-cases :
    (w : Written) → (w ≡ refused) ⊎ ((f : Flight) × (w ≡ putting f)) ⊎ ((n : ℕ) × (w ≡ waiting n))
Written-cases refused = inl refl
Written-cases (putting f) = inr (inl (f, refl))
Written-cases (waiting n) = inr (inr (n, refl))

applied-number : {n m : ℕ} → applied n ≡ applied m → n ≡ m
applied-number h = cc

applied-ne_not_applied : {n : ℕ} {c : String} → applied n ≡ not_applied c → ⊥
applied-ne_not_applied h = cc

module _ (local : Local) (store : Store) (ns : Bytes) where
  -- a write that returns an error has left the database and its sequence number
  abbrev IsUnchanged : Engine local.pebble.DB → Engine local.pebble.DB → Type 0
  IsUnchanged e e' = (e'.db ≡ e.db) × (e'.max_wal_seq ≡ e.max_wal_seq)

  apply_written-error :
      (seq : ℕ) (batch : Batch) (e : Engine local.pebble.DB) (c : String)
      → (apply_written local store ns seq batch e).1 ≡ not_applied c
      → IsUnchanged e (apply_written local store ns seq batch e).0
  unfolding apply_written
  apply_written-error seq batch e c h = elim (Bool-cases (local.refuses e.db batch)) [
    | inl r ↦ rw r (refl, refl)
    | inr r ↦ let k = rw r at h in absurd (applied-ne_not_applied k)
  ]

  end_write-error :
      (seq : ℕ) (batch : Batch) (answer : Answer) (e : Engine local.pebble.DB) (c : String)
      → (end_write local store ns seq batch answer e).1 ≡ not_applied c
      → IsUnchanged e (end_write local store ns seq batch answer e).0
  unfolding end_write
  end_write-error seq batch committed e c h = apply_written-error seq batch e c h
  end_write-error seq batch (uncommitted cause) e c h = (refl, refl)
  end_write-error seq batch cancelled e c h = (refl, refl)

  apply_async-error :
      (seq : ℕ) (batch : Batch) (e : Engine local.pebble.DB) (c : String)
      → (apply_async local store ns seq batch e).1 ≡ not_applied c
      → IsUnchanged e (apply_async local store ns seq batch e).0
  unfolding apply_async
  apply_async-error seq batch e c h =
      elim (Option-cases (local.write_file e.local_wals (local_wal_name seq) (local.repr batch))) [
        | inl w ↦ rw (w, apply_async) (refl, refl)
        | inr (files, w) ↦
            let k = rw (w, apply_async) at h in
            rw (w, apply_async)
              (apply_written-error seq batch (record e { local_wals = files }) c k)
      ]

  begin_write-same :
      (caller : ℕ) (batch : Batch) (o : store.Objects) (e : Engine local.pebble.DB)
      → IsUnchanged e (begin_write local store ns caller batch o e).0
  unfolding begin_write
  begin_write-same caller batch o e =
      elim (Written-cases (write_record caller (local.repr batch) e.manager).1) [
        | inl w ↦ rw (w, begin_write) (refl, refl)
        | inr (inr (n, w)) ↦ rw (w, begin_write) (refl, refl)
        | inr (inl (f, w)) ↦
            elim (Option-cases
              (store.put o (wal_path ns f.seq) (merge_batch_segments f.segments)).1) [
                | inl p ↦ rw (w, p, begin_write) (refl, refl)
                | inr (x, p) ↦ rw (w, p, begin_write) (refl, refl)
              ]
      ]

  module _ (caller : ℕ) (batch : Batch) (answer : Answer) (o : store.Objects)
      (e : Engine local.pebble.DB) where
    begun : Engine local.pebble.DB × store.Objects × Begun
    begun = begin_write local store ns caller batch o e

    written : Engine local.pebble.DB × store.Objects × Applied
    written = write_wal_and_apply local store ns caller batch answer o e

    written-failed :
        (c : String) → begun.2 ≡ failed_write c → written ≡ (begun.0, begun.1, not_applied c)
    unfolding begun written write_wal_and_apply apply_then_wal_async
    written-failed c f = elim (Bool-cases e.async_wal) [
      | inl a ↦ if_true _ _ a ∙ rw (f, apply_then_wal_async) refl
      | inr a ↦ if_false _ _ a ∙ rw f refl
    ]

    written-async :
        (n : ℕ)
        → e.async_wal ≡ true
        → (begun.2 ≡ logged n) ⊎ (begun.2 ≡ waits n)
        → let r = apply_async local store ns n batch begun.0 in written ≡ (r.0, begun.1, r.1)
    unfolding begun written write_wal_and_apply apply_then_wal_async
    written-async n a (inl f) = if_true _ _ a ∙ rw (f, apply_then_wal_async) refl
    written-async n a (inr f) = if_true _ _ a ∙ rw (f, apply_then_wal_async) refl

    written-logged :
        (n : ℕ)
        → e.async_wal ≡ false
        → begun.2 ≡ logged n
        → let r = apply_written local store ns n batch begun.0 in written ≡ (r.0, begun.1, r.1)
    unfolding begun written write_wal_and_apply
    written-logged n a f = if_false _ _ a ∙ rw f refl

    written-waits :
        (n : ℕ)
        → e.async_wal ≡ false
        → begun.2 ≡ waits n
        → let r = end_write local store ns n batch answer begun.0 in written ≡ (r.0, begun.1, r.1)
    unfolding begun written write_wal_and_apply
    written-waits n a f = if_false _ _ a ∙ rw f refl

    IsUnchanged-trans :
        (e1 e2 : Engine local.pebble.DB) → IsUnchanged e e1 → IsUnchanged e1 e2 → IsUnchanged e e2
    IsUnchanged-trans e1 e2 h k = (k.0 ∙ h.0, k.1 ∙ h.1)

    -- what the end of a write leaves, the whole write leaves
    kept_by :
        (r : Engine local.pebble.DB × Applied) (c : String)
        → written ≡ (r.0, begun.1, r.1)
        → written.2 ≡ not_applied c
        → (r.1 ≡ not_applied c → IsUnchanged begun.0 r.0)
        → IsUnchanged e written.0
    unfolding begun
    kept_by r c eq h k =
        subst (λ x. IsUnchanged e x) (sym (ap (λ x. x.0) eq))
          (IsUnchanged-trans begun.0 r.0 (begin_write-same caller batch o e)
            (k (sym (ap (λ x. x.2) eq) ∙ h)))

    -- A write that returns an error has changed neither the database nor the sequence number up to
    -- which it is applied, in all modes.
    pub write_wal_and_apply-error :
        (c : String)
        → (write_wal_and_apply local store ns caller batch answer o e).2 ≡ not_applied c
        → ((write_wal_and_apply local store ns caller batch answer o e).0.db ≡ e.db)
          × ((write_wal_and_apply local store ns caller batch answer o e).0.max_wal_seq
              ≡ e.max_wal_seq)
    unfolding begun written
    write_wal_and_apply-error c h = elim (Begun-cases begun.2) [
      | inl (x, f) ↦ kept_by (begun.0, not_applied x) c (written-failed x f) h (λ k. (refl, refl))
      | inr (inl (n, f)) ↦ elim (Bool-cases e.async_wal) [
        | inl a ↦
            kept_by (apply_async local store ns n batch begun.0) c (written-async n a (inl f)) h
              (apply_async-error n batch begun.0 c)
        | inr a ↦
            kept_by (apply_written local store ns n batch begun.0) c (written-logged n a f) h
              (apply_written-error n batch begun.0 c)
      ]
      | inr (inr (n, f)) ↦ elim (Bool-cases e.async_wal) [
        | inl a ↦
            kept_by (apply_async local store ns n batch begun.0) c (written-async n a (inr f)) h
              (apply_async-error n batch begun.0 c)
        | inr a ↦
            kept_by (end_write local store ns n batch answer begun.0) c (written-waits n a f) h
              (end_write-error n batch answer begun.0 c)
      ]
    ]

    -- the `Put` of a write with an object of its own
    abbrev own_put : store.Objects × Option String
    own_put = store.put o (wal_path ns e.manager.next_seq) (local.repr batch)

    begun-stored :
        e.manager.closed ≡ false
        → e.manager.batching ≡ false
        → own_put.1 ≡ none
        → (begun.1 ≡ own_put.0) × (begun.2 ≡ logged e.manager.next_seq)
    unfolding begun begin_write merge_batch_segments
    begun-stored c b p =
        let w = write_record-direct caller (local.repr batch) e.manager c b in
        rw (w, p, begin_write) (refl, refl)

    begun-unstored :
        (cause : String)
        → e.manager.closed ≡ false
        → e.manager.batching ≡ false
        → own_put.1 ≡ some cause
        → begun.2 ≡ failed_write cause
    unfolding begun begin_write merge_batch_segments
    begun-unstored cause c b p =
        let w = write_record-direct caller (local.repr batch) e.manager c b in
        rw (w, p, begin_write) refl

    apply_written-eq :
        (n : ℕ) (e1 : Engine local.pebble.DB) (seq : ℕ)
        → (apply_written local store ns n batch e1).1 ≡ applied seq
        → (n ≡ seq)
          × ((apply_written local store ns n batch e1).0.db ≡ local.pebble.apply e1.db batch)
          × (seq ≤ (apply_written local store ns n batch e1).0.max_wal_seq)
    unfolding apply_written
    apply_written-eq n e1 seq h = elim (Bool-cases (local.refuses e1.db batch)) [
      | inl r ↦ let k = rw r at h in absurd (applied-ne_not_applied (sym k))
      | inr r ↦ let k = applied-number (rw r at h) in rw r (k, refl, omega (arith, k))
    ]

    -- When a write that is not asynchronous succeeds and the manager does not batch, the log has the
    -- batch at the sequence number that the write returns, which is the next one, the database has the
    -- batch applied, the number up to which it is applied is not below, and every other object of the
    -- store is as it was.
    pub write_wal_and_apply-logged :
        (seq : ℕ) (k : Bytes)
        → (write_wal_and_apply local store ns caller batch answer o e).2 ≡ applied seq
        → e.async_wal ≡ false
        → e.manager.closed ≡ false
        → e.manager.batching ≡ false
        → let r = write_wal_and_apply local store ns caller batch answer o e in
          (seq ≡ e.manager.next_seq)
          × (store.content r.1 (wal_path ns seq) ≡ some (local.repr batch))
          × (local.pebble.get r.0.db k ≡ effects batch k (local.pebble.get e.db k))
          × (seq ≤ r.0.max_wal_seq)
          × ((p : Bytes)
              → equal_bytes p (wal_path ns seq) ≡ false
              → store.content r.1 p ≡ store.content o p)
    unfolding begun written
    write_wal_and_apply-logged seq k h a c b = elim (Option-cases own_put.1) [
      | inr (cause, p) ↦
          let f = ap (λ x. x.2) (written-failed cause (begun-unstored cause c b p)) in
          absurd (applied-ne_not_applied (sym h ∙ f))
      | inl p ↦
          let n = e.manager.next_seq in
          let (o', l) = begun-stored c b p in
          let eq = written-logged n a l in
          let (same, db, le) = apply_written-eq n begun.0 seq (sym (ap (λ x. x.2) eq) ∙ h) in
          let stored : store.content begun.1 (wal_path ns n) ≡ some (local.repr batch) =
            ap (λ x. store.content x (wal_path ns n)) o'
            ∙ store.put-stored o (wal_path ns n) (local.repr batch) p in
          let db0 = (begin_write-same caller batch o e).0 in
          (
            sym same,
            ap (λ x. store.content x.1 (wal_path ns seq)) eq
                ∙ ap (λ x. store.content begun.1 (wal_path ns x)) (sym same)
                ∙ stored,
            ap (λ x. local.pebble.get x.0.db k) eq
                ∙ ap (λ x. local.pebble.get x k) db
                ∙ local.pebble.get-apply begun.0.db batch k
                ∙ ap (λ x. effects batch k (local.pebble.get x k)) db0,
            subst (λ x. seq ≤ x.0.max_wal_seq) (sym eq) le,
            λ p ne.
                ap (λ x. store.content x.1 p) eq
                ∙ ap (λ x. store.content x p) o'
                ∙ store.put-other o (wal_path ns n) (local.repr batch) p
                    (ap (λ x. equal_bytes p (wal_path ns x)) same ∙ ne),
          )
    ]
