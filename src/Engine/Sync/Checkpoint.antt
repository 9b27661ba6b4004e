-- ===== src/Engine/Sync/Checkpoint.antt =====
-- pkg/engine/engine.go: the manifest that `Sync` writes, and what its end leaves of the checkpoint.
use Prim.Native.String.{String}
use cloudpebble.Base.{
  ℕ, ◌+◌, true, false, none, some, List, [], ◌∷◌, ◌≡◌, refl, sym, ◌∙◌, ap, arith, All, Option-cases,
  inl, inr,
}
use cloudpebble.Base.Order.{Bytes, equal_bytes_refl, has_prefix}
use cloudpebble.Pebble.{Entries}
use cloudpebble.Objstore.{Store}
use cloudpebble.Wal.Objects.{gc}
use cloudpebble.Wal.Paths.{wal_prefix}
use cloudpebble.Engine.{
  Local, Engine, Manifest, IsName, IsDirectory, data_path, manifest_path, manifest_version_path,
  manifest_versions_prefix,
}
use cloudpebble.Engine.Sync.{
  delete_stale, trim_versions, new_manifest, collect_wals, write_manifest, has_file,
}
use cloudpebble.Engine.Sync.Kept.{trim_versions-kept, delete_stale-kept, gc-other}
use cloudpebble.Engine.Sync.Paths.{
  data_path-manifest_path, data_path-version, data_path-versions, data_path-wals,
  manifest_path-versions, manifest_path-wals,
}
use cloudpebble.Engine.Sync.Uploaded.{AllStored, some-ne_none}

pub IsName-All : (fs : Entries) → IsDirectory fs → All (λ (f : Bytes × Bytes). IsName f.0) fs
IsName-All [] h = tt
IsName-All ((n, d) ∷ fs) h = (h.0, IsName-All fs h.2)

has_file-later :
    (m d : Bytes) (fs gs : Entries)
    → All (λ (g : Bytes × Bytes). has_file g.0 fs ≡ true) gs
    → All (λ (g : Bytes × Bytes). has_file g.0 ((m, d) ∷ fs) ≡ true) gs
unfolding has_file
has_file-later m d fs [] h = tt
has_file-later m d fs (g ∷ gs) h = (ground (arith, h.0), has_file-later m d fs gs h.1)

pub has_file-All : (fs : Entries) → All (λ (f : Bytes × Bytes). has_file f.0 fs ≡ true) fs
unfolding has_file
has_file-All [] = tt
has_file-All ((n, d) ∷ fs) =
    (rw (equal_bytes_refl n) refl, has_file-later n d fs fs (has_file-All fs))

module _ (local : Local) (store : Store) (ns : Bytes) where
  pub AllStored-same :
      (o o' : store.Objects) (fs : Entries)
      → ((n : Bytes) → store.content o' (data_path ns n) ≡ store.content o (data_path ns n))
      → AllStored local store ns o fs
      → AllStored local store ns o' fs
  AllStored-same o o' [] same h = tt
  AllStored-same o o' (f ∷ fs) same h = (same f.0 ∙ h.0, AllStored-same o o' fs same h.1)

  pub delete_stale-AllStored :
      (ps : List Bytes) (gs fs : Entries) (o : store.Objects)
      → All (λ (f : Bytes × Bytes). IsName f.0) fs
      → All (λ (f : Bytes × Bytes). has_file f.0 gs ≡ true) fs
      → AllStored local store ns o fs
      → AllStored local store ns (delete_stale local store ns ps gs o) fs
  delete_stale-AllStored ps gs [] o names has h = tt
  delete_stale-AllStored ps gs (f ∷ fs) o names has h = (
    delete_stale-kept local store ns f.0 ps gs o names.0 has.0 ∙ h.0,
    delete_stale-AllStored ps gs fs o names.1 has.1 h.1,
  )

  -- the store has a checkpoint: its files, and the manifest that lists them
  unfoldable pub HasCheckpoint : store.Objects → Entries → Manifest → Type 0
  HasCheckpoint o fs m =
      (store.content o (manifest_path ns) ≡ some (local.marshal m)) × AllStored local store ns o fs

  -- what a `Sync` does whose two writes of the manifest succeed
  write_manifest-eq :
      (now : ℕ) (fs : Entries) (o : store.Objects) (e : Engine local.pebble.DB)
      → let m = new_manifest local store ns now fs e in
        let put1 = store.put o (manifest_version_path ns m.version) (local.marshal m) in
        let put2 = store.put put1.0 (manifest_path ns) (local.marshal m) in
        put1.1 ≡ none
        → put2.1 ≡ none
        → write_manifest local store ns now fs o e
          ≡ collect_wals local store ns now
              (trim_versions local store ns put2.0)
              (record e { manifest_version = m.version })
  unfolding write_manifest
  write_manifest-eq now fs o e f g = rw (f, g, write_manifest) refl

  unversioned :
      (now : ℕ) (fs : Entries) (o : store.Objects) (e : Engine local.pebble.DB) (c : String)
      → let m = new_manifest local store ns now fs e in
        (store.put o (manifest_version_path ns m.version) (local.marshal m)).1 ≡ some c
        → (write_manifest local store ns now fs o e).2 ≡ some c
  unfolding write_manifest
  unversioned now fs o e c f = rw (f, write_manifest) refl

  unnamed :
      (now : ℕ) (fs : Entries) (o : store.Objects) (e : Engine local.pebble.DB) (c : String)
      → let m = new_manifest local store ns now fs e in
        let put1 = store.put o (manifest_version_path ns m.version) (local.marshal m) in
        put1.1 ≡ none
        → (store.put put1.0 (manifest_path ns) (local.marshal m)).1 ≡ some c
        → (write_manifest local store ns now fs o e).2 ≡ some c
  unfolding write_manifest
  unnamed now fs o e c f g = rw (f, g, write_manifest) refl

  -- The end of a `Sync` without an error leaves the manifest and the files.
  pub write_manifest-HasCheckpoint :
      (now : ℕ) (fs : Entries) (o : store.Objects) (e : Engine local.pebble.DB)
      → (write_manifest local store ns now fs o e).2 ≡ none
      → AllStored local store ns o fs
      → (o' : store.Objects) × ((write_manifest local store ns now fs o e).1 ≡ o')
        × HasCheckpoint o' fs (new_manifest local store ns now fs e)
        × ((write_manifest local store ns now fs o e).0
            ≡ record e { manifest_version = e.manifest_version + 1 })
  unfolding HasCheckpoint collect_wals new_manifest
  write_manifest-HasCheckpoint now fs o e ok h =
      let m = new_manifest local store ns now fs e in
      let p = manifest_version_path ns m.version in
      let q = manifest_path ns in
      let put1 = store.put o p (local.marshal m) in
      let put2 = store.put put1.0 q (local.marshal m) in
      let o3 = trim_versions local store ns put2.0 in
      elim (Option-cases put1.1) [
        | inr (c, f) ↦ absurd (some-ne_none (sym (unversioned now fs o e c f) ∙ ok))
        | inl f ↦ elim (Option-cases put2.1) [
          | inr (c, g) ↦ absurd (some-ne_none (sym (unnamed now fs o e c f g) ∙ ok))
          | inl g ↦
              let eq = write_manifest-eq now fs o e f g in
              let kept =
                λ (x : Bytes) (v : has_prefix x (manifest_versions_prefix ns) ≡ false)
                    (w : has_prefix x (wal_prefix ns) ≡ false).
                  gc-other store ns e.max_wal_seq e.orphan_ttl now x o3 w
                  ∙ trim_versions-kept local store ns x put2.0 v in
              (
                (gc store ns o3 e.max_wal_seq e.orphan_ttl now).objects,
                ap (λ r. r.1) eq,
                (
                  kept q (manifest_path-versions ns) (manifest_path-wals ns)
                      ∙ store.put-stored put1.0 q (local.marshal m) g,
                  AllStored-same o (gc store ns o3 e.max_wal_seq e.orphan_ttl now).objects fs
                      (λ n.
                        kept (data_path ns n) (data_path-versions ns n) (data_path-wals ns n)
                        ∙ store.put-other put1.0 q (local.marshal m) (data_path ns n)
                            (data_path-manifest_path ns n)
                        ∙ store.put-other o p (local.marshal m) (data_path ns n)
                            (data_path-version ns n m.version))
                      h,
                ),
                ap (λ r. r.0) eq,
              )
        ]
      ]
