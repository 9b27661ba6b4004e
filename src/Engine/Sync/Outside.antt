-- ===== src/Engine/Sync/Outside.antt =====
-- pkg/engine/engine.go: `Sync` writes and deletes below its namespace only.
use cloudpebble.Base.{
  subst, ℕ, true, false, none, some, List, [], ◌∷◌, ◌++◌, ◌≡◌, refl, ◌∙◌, sym, ap, All,
  Option-cases, Bool-cases, inl, inr, append_assoc, Option,
}
use cloudpebble.Base.Order.{
  Bytes, has_prefix, equal_bytes-prefix, has_prefix-append, has_prefix-longer,
}
use cloudpebble.Pebble.{Entries}
use cloudpebble.Objstore.{Store}
use cloudpebble.Wal.Manager.{Flight, flush}
use cloudpebble.Wal.Paths.{slash, wal_path, wal_prefix, base_from}
use cloudpebble.Engine.{
  Local, Engine, data_path, manifest_path, manifest_version_path, manifest_versions_prefix,
}
use cloudpebble.Engine.Sync.{
  is_skipped, has_file, upload_files, delete_stale, trim_versions, write_manifest,
  upload_checkpoint, put_window, sync, collect_wals, new_manifest,
}
use cloudpebble.Engine.Sync.Kept.{trim_versions-kept, gc-other}

-- a path below a namespace
abbrev pub IsBelow : Bytes → Bytes → Type 0
IsBelow ns p = has_prefix p (ns ++ slash ∷ []) ≡ true

abbrev pub IsOutside : Bytes → Bytes → Type 0
IsOutside ns p = has_prefix p (ns ++ slash ∷ []) ≡ false

below : (ns x : Bytes) → IsBelow ns (ns ++ (slash ∷ x))
below ns x =
    ap (λ q. has_prefix q (ns ++ slash ∷ [])) (sym (append_assoc ns (slash ∷ []) x))
    ∙ has_prefix-append (ns ++ slash ∷ []) x

outside-longer : (ns p x : Bytes) → IsOutside ns p → has_prefix p (ns ++ (slash ∷ x)) ≡ false
outside-longer ns p x h = elim (Bool-cases (has_prefix p (ns ++ (slash ∷ x)))) [
  | inr e ↦ e
  | inl e ↦
      let long = ap (has_prefix p) (append_assoc ns (slash ∷ []) x) ∙ e in
      let short = sym h ∙ has_prefix-longer p (ns ++ slash ∷ []) x long in cc
]

pub data_path-IsBelow : (ns n : Bytes) → IsBelow ns (data_path ns n)
unfolding data_path
data_path-IsBelow ns n = below ns _

manifest_path-IsBelow : (ns : Bytes) → IsBelow ns (manifest_path ns)
unfolding manifest_path
manifest_path-IsBelow ns = below ns _

version-IsBelow : (ns : Bytes) (v : ℕ) → IsBelow ns (manifest_version_path ns v)
unfolding manifest_version_path
version-IsBelow ns v = below ns _

wal_path-IsBelow : (ns : Bytes) (n : ℕ) → IsBelow ns (wal_path ns n)
unfolding wal_path
wal_path-IsBelow ns n = below ns _

module _ (local : Local) (store : Store) (ns p : Bytes) (out : IsOutside ns p) where
  put-below :
      (o : store.Objects) (q d : Bytes)
      → IsBelow ns q
      → store.content (store.put o q d).0 p ≡ store.content o p
  put-below o q d b = store.put-other o q d p (equal_bytes-prefix p q _ out b)

  upload_files-outside :
      (prev : List Bytes) (fs : Entries) (o : store.Objects) (uploaded : List Bytes)
      → store.content (upload_files local store ns prev fs o uploaded).0 p ≡ store.content o p
  unfolding upload_files
  upload_files-outside prev [] o uploaded = refl
  upload_files-outside prev ((n, d) ∷ fs) o uploaded = elim (Option-cases (local.unread n d)) [
    | inr (cause, r) ↦ rw (r, upload_files) refl
    | inl r ↦ elim (Bool-cases (is_skipped local store ns prev n)) [
      | inl k ↦ rw (r, k, upload_files) (upload_files-outside prev fs o _)
      | inr k ↦
          let same = put-below o (data_path ns n) d (data_path-IsBelow ns n) in
          elim (Option-cases (store.put o (data_path ns n) d).1) [
            | inr (cause, e) ↦ rw (r, k, e, upload_files) same
            | inl e ↦
                rw (r, k, e, upload_files)
                  (upload_files-outside prev fs (store.put o (data_path ns n) d).0 _ ∙ same)
          ]
    ]
  ]

  delete_stale-outside :
      (ps : List Bytes) (fs : Entries) (o : store.Objects)
      → All (IsBelow ns) ps
      → store.content (delete_stale local store ns ps fs o) p ≡ store.content o p
  unfolding delete_stale
  delete_stale-outside [] fs o b = refl
  delete_stale-outside (q ∷ ps) fs o b = elim (Bool-cases (has_file (base_from [] q) fs)) [
    | inl k ↦ rw (k, delete_stale) (delete_stale-outside ps fs o b.1)
    | inr k ↦
        rw (k, delete_stale)
          (delete_stale-outside ps fs (store.delete o q).0 b.1
            ∙ store.delete-other o q p (equal_bytes-prefix p q _ out b.0))
  ]

  collect_wals-outside :
      (now : ℕ) (o : store.Objects) (e : Engine local.pebble.DB)
      → store.content (collect_wals local store ns now (trim_versions local store ns o) e).1 p
        ≡ store.content o p
  unfolding collect_wals wal_prefix manifest_versions_prefix
  collect_wals-outside now o e =
      gc-other store ns e.max_wal_seq e.orphan_ttl now p _ (outside-longer ns p _ out)
      ∙ trim_versions-kept local store ns p o (outside-longer ns p _ out)

  write_manifest-outside :
      (now : ℕ) (fs : Entries) (o : store.Objects) (e : Engine local.pebble.DB)
      → store.content (write_manifest local store ns now fs o e).1 p ≡ store.content o p
  unfolding write_manifest
  write_manifest-outside now fs o e =
      let m = new_manifest local store ns now fs e in
      let d = local.marshal m in
      let first = put-below o _ d (version-IsBelow ns m.version) in
      elim (Option-cases (store.put o (manifest_version_path ns m.version) d).1) [
        | inr (cause, x) ↦ rw (x, write_manifest) first
        | inl x ↦
            let o' = (store.put o (manifest_version_path ns m.version) d).0 in
            let second = put-below o' _ d (manifest_path-IsBelow ns) ∙ first in
            elim (Option-cases (store.put o' (manifest_path ns) d).1) [
              | inr (cause, y) ↦ rw (x, y, write_manifest) second
              | inl y ↦
                  rw (x, y, write_manifest)
                    (collect_wals-outside now _ (record e { manifest_version = m.version })
                      ∙ second)
            ]
      ]

  upload_checkpoint-outside :
      (now : ℕ) (fs : Entries) (o : store.Objects) (e : Engine local.pebble.DB)
      → All (IsBelow ns) e.uploaded
      → store.content (upload_checkpoint local store ns now fs o e).1 p ≡ store.content o p
  unfolding upload_checkpoint
  upload_checkpoint-outside now fs o e b =
      let up = upload_files local store ns e.uploaded fs o [] in
      let first = upload_files-outside e.uploaded fs o [] in
      elim (Option-cases up.2) [
        | inr (cause, x) ↦ rw (x, upload_checkpoint) first
        | inl x ↦
            rw (x, upload_checkpoint)
              (write_manifest-outside now fs _ (record e { uploaded = up.1 })
                ∙ delete_stale-outside e.uploaded fs up.0 b
                ∙ first)
      ]

  put_window-outside :
      (window : Option Flight) (o : store.Objects)
      → store.content (put_window local store ns window o).0 p ≡ store.content o p
  unfolding put_window
  put_window-outside none o = refl
  put_window-outside (some f) o = put-below o _ _ (wal_path-IsBelow ns f.seq)

  -- `Sync` changes no object outside of its namespace, whatever it returns and whatever the store
  -- refuses, when the uploaded files that it remembers are in the namespace.
  pub sync-outside :
      (now : ℕ) (o : store.Objects) (e : Engine local.pebble.DB)
      → All (IsBelow ns) e.uploaded
      → store.content (sync local store ns now o e).1 p ≡ store.content o p
  unfolding sync
  sync-outside now o e b = elim (Option-cases (local.flush e.db).1) [
    | inr (cause, x) ↦ rw (x, sync) refl
    | inl x ↦
        let window = (flush e.manager).1 in
        let first = put_window-outside window o in
        elim (Option-cases (put_window local store ns window o).1) [
          | inr (cause, y) ↦ rw (x, y, sync) first
          | inl y ↦ elim (Option-cases (local.checkpoint (local.flush e.db).0)) [
            | inl z ↦ rw (x, y, z, sync) first
            | inr (fs, z) ↦
                rw (x, y, z, sync)
                  (upload_checkpoint-outside now fs _
                      (record e { db = (local.flush e.db).0; manager = (flush e.manager).0 }) b
                    ∙ first)
          ]
        ]
  ]

module _ (local : Local) (store : Store) (ns : Bytes) where
  upload_files-IsBelow :
      (prev : List Bytes) (fs : Entries) (o : store.Objects) (uploaded : List Bytes)
      → All (IsBelow ns) uploaded
      → All (IsBelow ns) (upload_files local store ns prev fs o uploaded).1
  unfolding upload_files
  upload_files-IsBelow prev [] o uploaded b = b
  upload_files-IsBelow prev ((n, d) ∷ fs) o uploaded b = elim (Option-cases (local.unread n d)) [
    | inr (cause, r) ↦ rw (r, upload_files) b
    | inl r ↦ elim (Bool-cases (is_skipped local store ns prev n)) [
      | inl k ↦
          rw (r, k, upload_files) (upload_files-IsBelow prev fs o _ (data_path-IsBelow ns n, b))
      | inr k ↦ elim (Option-cases (store.put o (data_path ns n) d).1) [
        | inr (cause, e) ↦ rw (r, k, e, upload_files) b
        | inl e ↦
            rw (r, k, e, upload_files)
              (upload_files-IsBelow prev fs _ _ (data_path-IsBelow ns n, b))
      ]
    ]
  ]

  write_manifest-uploaded :
      (now : ℕ) (fs : Entries) (o : store.Objects) (e : Engine local.pebble.DB)
      → (write_manifest local store ns now fs o e).0.uploaded ≡ e.uploaded
  unfolding write_manifest collect_wals
  write_manifest-uploaded now fs o e =
      let m = new_manifest local store ns now fs e in
      let put1 = store.put o (manifest_version_path ns m.version) (local.marshal m) in
      elim (Option-cases put1.1) [
        | inr (cause, x) ↦ rw (x, write_manifest) refl
        | inl x ↦ elim (Option-cases (store.put put1.0 (manifest_path ns) (local.marshal m)).1) [
          | inr (cause, y) ↦ rw (x, y, write_manifest) refl
          | inl y ↦ rw (x, y, write_manifest) refl
        ]
      ]

  upload_checkpoint-IsBelow :
      (now : ℕ) (fs : Entries) (o : store.Objects) (e : Engine local.pebble.DB)
      → All (IsBelow ns) (upload_checkpoint local store ns now fs o e).0.uploaded
  unfolding upload_checkpoint
  upload_checkpoint-IsBelow now fs o e =
      let up = upload_files local store ns e.uploaded fs o [] in
      let b = upload_files-IsBelow e.uploaded fs o [] tt in
      elim (Option-cases up.2) [
        | inr (cause, x) ↦ rw (x, upload_checkpoint) b
        | inl x ↦
            rw (x, upload_checkpoint)
              (subst (All (IsBelow ns))
                (sym (write_manifest-uploaded now fs _ (record e { uploaded = up.1 }))) b)
      ]

  -- `Sync` keeps that the uploaded files are in the namespace.
  pub sync-IsBelow :
      (now : ℕ) (o : store.Objects) (e : Engine local.pebble.DB)
      → All (IsBelow ns) e.uploaded
      → All (IsBelow ns) (sync local store ns now o e).0.uploaded
  unfolding sync
  sync-IsBelow now o e b = elim (Option-cases (local.flush e.db).1) [
    | inr (cause, x) ↦ rw (x, sync) b
    | inl x ↦ elim (Option-cases (put_window local store ns (flush e.manager).1 o).1) [
      | inr (cause, y) ↦ rw (x, y, sync) b
      | inl y ↦ elim (Option-cases (local.checkpoint (local.flush e.db).0)) [
        | inl z ↦ rw (x, y, z, sync) b
        | inr (fs, z) ↦
            rw (x, y, z, sync)
              (upload_checkpoint-IsBelow now fs _
                (record e { db = (local.flush e.db).0; manager = (flush e.manager).0 }))
      ]
    ]
  ]
