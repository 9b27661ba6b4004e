-- ===== src/Engine/Sync/Completed.antt =====
-- pkg/engine/engine.go: what a `Sync` without an error has stored.
use Prim.Native.String.{String}
use cloudpebble.Base.{
  ℕ, Option, none, some, List, [], ◌∷◌, ◌≡◌, refl, sym, ◌∙◌, ap, subst, Option-cases, inl, inr,
}
use cloudpebble.Base.Order.{Bytes}
use cloudpebble.Pebble.{Entries}
use cloudpebble.Objstore.{Store}
use cloudpebble.Wal.Manager.{Flight, flush}
use cloudpebble.Wal.Batches.{merge_batch_segments}
use cloudpebble.Wal.Paths.{wal_path}
use cloudpebble.Engine.{Local, Engine, IsDirectory, data_path}
use cloudpebble.Engine.Sync.{
  upload_files, delete_stale, new_manifest, write_manifest, upload_checkpoint, put_window, sync,
}
use cloudpebble.Engine.Sync.Paths.{data_path-wal_path}
use cloudpebble.Engine.Sync.Uploaded.{AllSkippedStored, uploads-AllStored, some-ne_none}
use cloudpebble.Engine.Sync.Checkpoint.{
  IsName-All, has_file-All, HasCheckpoint, delete_stale-AllStored, write_manifest-HasCheckpoint,
}

module _ (local : Local) (store : Store) (ns : Bytes) where
  -- the data files are not those of the log
  put_window-AllSkippedStored :
      (w : Option Flight) (prev : List Bytes) (o : store.Objects) (fs : Entries)
      → AllSkippedStored local store ns prev o fs
      → AllSkippedStored local store ns prev (put_window local store ns w o).0 fs
  unfolding put_window
  put_window-AllSkippedStored none prev o fs h = h
  put_window-AllSkippedStored (some f) prev o [] h = tt
  put_window-AllSkippedStored (some f) prev o ((n, d) ∷ fs) h = (
    λ k.
        store.put-other o (wal_path ns f.seq) (merge_batch_segments f.segments) (data_path ns n)
          (data_path-wal_path ns n f.seq)
        ∙ h.0 k,
    put_window-AllSkippedStored (some f) prev o fs h.1,
  )

  upload_checkpoint-failed :
      (now : ℕ) (fs : Entries) (o : store.Objects) (e : Engine local.pebble.DB) (c : String)
      → (upload_files local store ns e.uploaded fs o []).2 ≡ some c
      → (upload_checkpoint local store ns now fs o e).2 ≡ some c
  unfolding upload_checkpoint
  upload_checkpoint-failed now fs o e c h = rw (h, upload_checkpoint) refl

  upload_checkpoint-eq :
      (now : ℕ) (fs : Entries) (o : store.Objects) (e : Engine local.pebble.DB)
      → let up = upload_files local store ns e.uploaded fs o [] in
        up.2 ≡ none
        → upload_checkpoint local store ns now fs o e
          ≡ write_manifest local store ns now fs
              (delete_stale local store ns e.uploaded fs up.0)
              (record e { uploaded = up.1 })
  unfolding upload_checkpoint
  upload_checkpoint-eq now fs o e h = rw (h, upload_checkpoint) refl

  upload_checkpoint-HasCheckpoint :
      (now : ℕ) (fs : Entries) (o : store.Objects) (e : Engine local.pebble.DB)
      → (upload_checkpoint local store ns now fs o e).2 ≡ none
      → IsDirectory fs
      → AllSkippedStored local store ns e.uploaded o fs
      → HasCheckpoint local store ns
          (upload_checkpoint local store ns now fs o e).1
          fs
          (new_manifest local store ns now fs e)
  unfolding HasCheckpoint new_manifest
  upload_checkpoint-HasCheckpoint now fs o e ok dir h =
      let up = upload_files local store ns e.uploaded fs o [] in
      let m = new_manifest local store ns now fs e in
      elim (Option-cases up.2) [
        | inr (c, k) ↦ absurd (some-ne_none (sym (upload_checkpoint-failed now fs o e c k) ∙ ok))
        | inl k ↦
            let eq = upload_checkpoint-eq now fs o e k in
            let o1 = delete_stale local store ns e.uploaded fs up.0 in
            let e1 = record e { uploaded = up.1 } in
            let stored =
              delete_stale-AllStored local store ns e.uploaded fs fs up.0 (IsName-All fs dir)
                (has_file-All fs) (uploads-AllStored local store ns e.uploaded fs o [] dir h k) in
            let (o', same, has, e') =
              write_manifest-HasCheckpoint local store ns now fs o1 e1 (sym (ap (λ r. r.2) eq) ∙ ok)
                stored in
            subst (λ x. HasCheckpoint local store ns x fs m) (sym (ap (λ r. r.1) eq ∙ same)) has
      ]

  sync-unflushed :
      (now : ℕ) (o : store.Objects) (e : Engine local.pebble.DB) (c : String)
      → (local.flush e.db).1 ≡ some c
      → (sync local store ns now o e).2 ≡ some c
  unfolding sync
  sync-unflushed now o e c h = rw (h, sync) refl

  -- A `Sync` that returns no error has flushed the database.
  pub sync-flushed :
      (now : ℕ) (o : store.Objects) (e : Engine local.pebble.DB)
      → (sync local store ns now o e).2 ≡ none
      → (local.flush e.db).1 ≡ none
  sync-flushed now o e ok = elim (Option-cases (local.flush e.db).1) [
    | inl f ↦ f
    | inr (x, f) ↦ absurd (some-ne_none (sym (sync-unflushed now o e x f) ∙ ok))
  ]

  sync-unput :
      (now : ℕ) (o : store.Objects) (e : Engine local.pebble.DB) (c : String)
      → (local.flush e.db).1 ≡ none
      → (put_window local store ns (flush e.manager).1 o).1 ≡ some c
      → (sync local store ns now o e).2 ≡ some c
  unfolding sync
  sync-unput now o e c h k = rw (h, k, sync) refl

  sync-eq :
      (now : ℕ) (o : store.Objects) (e : Engine local.pebble.DB) (fs : Entries)
      → (local.flush e.db).1 ≡ none
      → (put_window local store ns (flush e.manager).1 o).1 ≡ none
      → local.checkpoint (local.flush e.db).0 ≡ some fs
      → sync local store ns now o e
        ≡ upload_checkpoint local store ns now fs
            (put_window local store ns (flush e.manager).1 o).0
            (record e { db = (local.flush e.db).0; manager = (flush e.manager).0 })
  unfolding sync
  sync-eq now o e fs h k c = rw (h, k, c, sync) refl

  pub sync-HasCheckpoint :
      (now : ℕ) (o : store.Objects) (e : Engine local.pebble.DB) (fs : Entries)
      → (sync local store ns now o e).2 ≡ none
      → local.checkpoint (local.flush e.db).0 ≡ some fs
      → AllSkippedStored local store ns e.uploaded o fs
      → HasCheckpoint local store ns
          (sync local store ns now o e).1
          fs
          (new_manifest local store ns now fs e)
  unfolding new_manifest
  sync-HasCheckpoint now o e fs ok c h =
      let w = (flush e.manager).1 in
      let put = put_window local store ns w o in
      elim (Option-cases (local.flush e.db).1) [
        | inr (x, f) ↦ absurd (some-ne_none (sym (sync-unflushed now o e x f) ∙ ok))
        | inl f ↦ elim (Option-cases put.1) [
          | inr (x, k) ↦ absurd (some-ne_none (sym (sync-unput now o e x f k) ∙ ok))
          | inl k ↦
              let eq = sync-eq now o e fs f k c in
              let e1 = record e { db = (local.flush e.db).0; manager = (flush e.manager).0 } in
              let has =
                upload_checkpoint-HasCheckpoint now fs put.0 e1 (sym (ap (λ r. r.2) eq) ∙ ok)
                  (local.checkpoint-IsDirectory (local.flush e.db).0 fs c)
                  (put_window-AllSkippedStored w e.uploaded o fs h) in
              subst (λ x. HasCheckpoint local store ns x fs (new_manifest local store ns now fs e))
                (sym (ap (λ r. r.1) eq)) has
        ]
      ]
