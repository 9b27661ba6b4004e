-- ===== src/Engine/Writes/Async.antt =====
-- pkg/engine/engine.go: the local log files of asynchronous writes.
use Prim.Native.String.{String}
use cloudpebble.Base.{
  ℕ, true, false, some, List, [], ◌∷◌, ◌++◌, ◌≡◌, refl, sym, subst, ◌∙◌, ap, Bool-cases,
  Option-cases, List-cases, inl, inr, if_true, if_false,
}
use cloudpebble.Base.Order.{Bytes, equal_bytes_refl}
use cloudpebble.Pebble.{Batch, find}
use cloudpebble.Objstore.{Store}
use cloudpebble.Wal.Manager.{Manager, Written, waiting, after, write_record}
use cloudpebble.Engine.{Local, Engine}
use cloudpebble.Engine.Writes.{
  Applied, applied, not_applied, Begun, waits, logged, failed_write, begin_write, apply_written,
  apply_async, apply_then_wal_async, local_wal_name,
}

-- a manager with an open window that a write may join
abbrev IsOpen : Manager → Type 0
IsOpen m =
    (m.closed ≡ false)
    × (m.batching ≡ true)
    × (d : Bytes) × (ds : List Bytes) × (m.pending ≡ d ∷ ds)

-- A write that joins a window, and one that opens it, waits for its number and leaves it open.
write_record-joins :
    (caller : ℕ) (segment : Bytes) (m : Manager)
    → IsOpen m
    → (m' : Manager) × (write_record caller segment m ≡ (m', waiting m.pending_seq))
      × IsOpen m'
      × (m'.pending_seq ≡ m.pending_seq)
unfolding write_record
write_record-joins caller segment m (c, b, d, ds, p) = (
  record m { pending = d ∷ ds ++ segment ∷ []; waiters = m.waiters ++ caller ∷ [] },
  if_false _ _ c ∙ if_true _ _ b ∙ rw p refl,
  (c, b, d, ds ++ segment ∷ [], refl),
  refl,
)

write_record-waits :
    (caller : ℕ) (segment : Bytes) (m : Manager)
    → m.closed ≡ false
    → m.batching ≡ true
    → (m' : Manager) × (n : ℕ) × (write_record caller segment m ≡ (m', waiting n))
      × IsOpen m'
      × (m'.pending_seq ≡ n)
unfolding write_record
write_record-waits caller segment m c b = elim (List-cases m.pending) [
  | inr (d, ds, p) ↦
      let (m', e, o, same) = write_record-joins caller segment m (c, b, d, ds, p) in
      (m', m.pending_seq, e, o, same)
  | inl p ↦ (
    record m {
      next_seq = after m.next_seq;
      pending = segment ∷ [];
      pending_seq = m.next_seq;
      waiters = m.waiters ++ caller ∷ [];
      timer = true;
    },
    m.next_seq,
    if_false _ _ c ∙ if_true _ _ b ∙ rw p refl,
    (c, b, segment, [], refl),
    refl,
  )
]

module _ (local : Local) (store : Store) (ns : Bytes) where
  async-eq :
      (caller : ℕ) (batch : Batch) (o : store.Objects) (e : Engine local.pebble.DB) (m : Manager)
      (n : ℕ)
      → write_record caller (local.repr batch) e.manager ≡ (m, waiting n)
      → let r = apply_async local store ns n batch (record e { manager = m }) in
        apply_then_wal_async local store ns caller batch o e ≡ (r.0, o, r.1)
  unfolding apply_then_wal_async begin_write
  async-eq caller batch o e m n w =
      let b : begin_write local store ns caller batch o e ≡ (record e { manager = m }, o, waits n) =
        rw (w, begin_write)
          (ap (λ (x : Manager × Written). (record e { manager = x.0 }, o, waits n)) w) in
      ap
        (λ (x : Engine local.pebble.DB × store.Objects × Begun).
          elim x.2 as (λ y. Engine local.pebble.DB × store.Objects × Applied) [
            | failed_write cause ↦ (x.0, x.1, not_applied cause)
            | logged seq ↦ (
              (apply_async local store ns seq batch x.0).0,
              x.1,
              (apply_async local store ns seq batch x.0).1,
            )
            | waits seq ↦ (
              (apply_async local store ns seq batch x.0).0,
              x.1,
              (apply_async local store ns seq batch x.0).1,
            )
          ])
        b

  number-ne_error : {n : ℕ} {c : String} → not_applied c ≡ applied n → ⊥
  number-ne_error h = cc

  number_of : {m n : ℕ} → applied m ≡ applied n → m ≡ n
  number_of h = cc

  -- what is left when a write has a number
  apply_async-files :
      (n : ℕ) (batch : Batch) (e : Engine local.pebble.DB) (k : ℕ)
      → (apply_async local store ns n batch e).1 ≡ applied k
      → (n ≡ k)
        × (find (local_wal_name n) (apply_async local store ns n batch e).0.local_wals
            ≡ some (local.repr batch))
        × ((apply_async local store ns n batch e).0.manager ≡ e.manager)
        × ((apply_async local store ns n batch e).0.async_wal ≡ e.async_wal)
  unfolding apply_async apply_written
  apply_async-files n batch e k h =
      elim (Option-cases (local.write_file e.local_wals (local_wal_name n) (local.repr batch))) [
        | inl w ↦ let f = rw (w, apply_async) at h in absurd (number-ne_error f)
        | inr (files, w) ↦ elim (Bool-cases (local.refuses e.db batch)) [
          | inl r ↦ let f = rw (w, r, apply_async) at h in absurd (number-ne_error f)
          | inr r ↦
              let f = rw (w, r, apply_async) at h in
              let name = local_wal_name n in
              let at_name : find name files ≡ some (local.repr batch) =
                local.find-write_file e.local_wals files name (local.repr batch) name w
                ∙ if_true _ _ (equal_bytes_refl name) in
              rw (w, r, apply_async) (number_of f, at_name, refl, refl)
        ]
      ]

  -- two asynchronous writes, one after the other
  abbrev pub both :
      ℕ
      → ℕ
      → Batch
      → Batch
      → store.Objects
      → Engine local.pebble.DB
      → Engine local.pebble.DB × store.Objects × Applied
  both first second b c o e =
      let r = apply_then_wal_async local store ns first b o e in
      apply_then_wal_async local store ns second c r.1 r.0

  -- Two asynchronous writes into one window return the same number, and after the second the local
  -- log file of that number holds its batch alone, when the manager batches and is not closed: the
  -- batch of the first is not on the local disk any more.
  pub async-overwrites :
      (first second : ℕ) (b c : Batch) (o : store.Objects) (e : Engine local.pebble.DB) (m n : ℕ)
      → e.manager.closed ≡ false
      → e.manager.batching ≡ true
      → (apply_then_wal_async local store ns first b o e).2 ≡ applied m
      → (both first second b c o e).2 ≡ applied n
      → (m ≡ n)
        × (find (local_wal_name m) (both first second b c o e).0.local_wals ≡ some (local.repr c))
  async-overwrites first second b c o e m n closed batching h k =
      let (m1, n1, w, open1, at1) =
        write_record-waits first (local.repr b) e.manager closed batching in
      let e1 = record e { manager = m1 } in
      let eq1 = async-eq first b o e m1 n1 w in
      let (same1, files1, kept1, mode1) =
        apply_async-files n1 b e1 m (sym (ap (λ x. x.2) eq1) ∙ h) in
      let r1 = apply_then_wal_async local store ns first b o e in
      let manager1 : r1.0.manager ≡ m1 = ap (λ x. x.0.manager) eq1 ∙ kept1 in
      let (m2, w2, open2, at2) =
        write_record-joins second (local.repr c) r1.0.manager (subst IsOpen (sym manager1) open1) in
      let n2 = r1.0.manager.pending_seq in
      let e2 = record r1.0 { manager = m2 } in
      let eq2 = async-eq second c r1.1 r1.0 m2 n2 w2 in
      let (same2, files2, kept2, mode2) =
        apply_async-files n2 c e2 n (sym (ap (λ x. x.2) eq2) ∙ k) in
      let number : n2 ≡ m = ap (λ x. x.pending_seq) manager1 ∙ at1 ∙ same1 in
      (
        sym number ∙ same2,
        ap (λ x. find (local_wal_name m) x.0.local_wals) eq2
            ∙ ap (λ x. find (local_wal_name x) (apply_async local store ns n2 c e2).0.local_wals)
                (sym number)
            ∙ files2,
      )
