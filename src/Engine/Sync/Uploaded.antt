-- ===== src/Engine/Sync/Uploaded.antt =====
-- pkg/engine/engine.go: what the uploads of `Sync` store, and what `recover` downloads.
use Prim.Native.String.{String}
use cloudpebble.Base.{
  true, false, Option, none, some, List, [], ◌∷◌, ◌≡◌, refl, sym, subst, ◌∙◌, ap, arith, All,
  Bool-cases, Option-cases, inl, inr, if◌then◌else◌,
}
use cloudpebble.Base.Order.{Bytes, equal_bytes, equal_bytes_iff}
use cloudpebble.Pebble.{Entries, find}
use cloudpebble.Objstore.{Store, found}
use cloudpebble.Engine.{Local, Engine, IsDirectory, data_path}
use cloudpebble.Engine.Recovery.{download}
use cloudpebble.Engine.Sync.{is_skipped, upload_files, manifest_files}
use cloudpebble.Engine.Sync.Paths.{equal_bytes-data_path}

pub some-ne_none : {c : String} → some c ≡ none → ⊥
some-ne_none h = cc

equal_bytes_swap : (a b : Bytes) → equal_bytes a b ≡ false → equal_bytes b a ≡ false
equal_bytes_swap a b h = ground (arith, h, equal_bytes_iff a b, equal_bytes_iff b a)

-- the names of the files are not this one
abbrev IsNew : Bytes → Entries → Type 0
IsNew n = All (λ (f : Bytes × Bytes). equal_bytes f.0 n ≡ false)

find-IsNew : (n : Bytes) (fs : Entries) → IsNew n fs → find n fs ≡ none
unfolding find
find-IsNew n [] h = refl
find-IsNew n ((m, d) ∷ fs) h = rw (equal_bytes_swap m n h.0) (find-IsNew n fs h.1)

-- the first if there is one, or the second
unfoldable pub or_else : Option Bytes → Option Bytes → Option Bytes
or_else none y = y
or_else (some d) y = some d

-- the file of a name, in a directory that is written over with these files
abbrev pub written_over : Bytes → Entries → Entries → Option Bytes
written_over m fs dir = or_else (find m fs) (find m dir)

found_first :
    (m n d : Bytes) (fs dir files : Entries)
    → IsNew n fs
    → find m files ≡ (if equal_bytes m n then some d else find m dir)
    → written_over m fs files ≡ written_over m ((n, d) ∷ fs) dir
unfolding find or_else
found_first m n d fs dir files new h = elim (Bool-cases (equal_bytes m n)) [
  | inr other ↦
      let k : find m files ≡ find m dir = h ∙ rw other refl in
      let later : find m ((n, d) ∷ fs) ≡ find m fs = rw other refl in
      ap (λ x. or_else (find m fs) x) k ∙ ap (λ x. or_else x (find m dir)) (sym later)
  | inl same ↦
      let none_left : find m fs ≡ none =
        ap (λ i. find i fs) ((equal_bytes_iff m n).0 same) ∙ find-IsNew n fs new in
      let k : find m files ≡ some d = h ∙ rw same refl in
      let now : find m ((n, d) ∷ fs) ≡ some d = rw same refl in
      ap (λ x. or_else x (find m files)) none_left ∙ k ∙ ap (λ x. or_else x (find m dir)) (sym now)
]

module _ (local : Local) (store : Store) (ns : Bytes) where
  -- the store holds the files
  abbrev pub AllStored : store.Objects → Entries → Type 0
  AllStored o = All (λ (f : Bytes × Bytes). store.content o (data_path ns f.0) ≡ some f.1)

  -- the store holds the files that are not uploaded again
  abbrev pub AllSkippedStored : List Bytes → store.Objects → Entries → Type 0
  AllSkippedStored prev o = All (λ (f : Bytes × Bytes).
      is_skipped local store ns prev f.0 ≡ true → store.content o (data_path ns f.0) ≡ some f.1)

  -- the store after uploads, and their error
  uploads :
      List Bytes → Entries → store.Objects → List Bytes → store.Objects × List Bytes × Option String
  uploads prev fs o up = upload_files local store ns prev fs o up

  uploads-skipped :
      (prev : List Bytes) (n d : Bytes) (fs : Entries) (o : store.Objects) (up : List Bytes)
      → local.unread n d ≡ none
      → is_skipped local store ns prev n ≡ true
      → uploads prev ((n, d) ∷ fs) o up ≡ uploads prev fs o (data_path ns n ∷ up)
  unfolding uploads upload_files
  uploads-skipped prev n d fs o up r h = rw (r, h, upload_files) refl

  uploads-put :
      (prev : List Bytes) (n d : Bytes) (fs : Entries) (o : store.Objects) (up : List Bytes)
      → local.unread n d ≡ none
      → is_skipped local store ns prev n ≡ false
      → (store.put o (data_path ns n) d).1 ≡ none
      → uploads prev ((n, d) ∷ fs) o up
        ≡ uploads prev fs (store.put o (data_path ns n) d).0 (data_path ns n ∷ up)
  unfolding uploads upload_files
  uploads-put prev n d fs o up r h e = rw (r, h, e, upload_files) refl

  uploads-failed :
      (prev : List Bytes) (n d : Bytes) (fs : Entries) (o : store.Objects) (up : List Bytes)
      (c : String)
      → local.unread n d ≡ none
      → is_skipped local store ns prev n ≡ false
      → (store.put o (data_path ns n) d).1 ≡ some c
      → uploads prev ((n, d) ∷ fs) o up ≡ ((store.put o (data_path ns n) d).0, up, some c)
  unfolding uploads upload_files
  uploads-failed prev n d fs o up c r h e = rw (r, h, e, upload_files) refl

  uploads-unread :
      (prev : List Bytes) (n d : Bytes) (fs : Entries) (o : store.Objects) (up : List Bytes)
      (c : String)
      → local.unread n d ≡ some c
      → uploads prev ((n, d) ∷ fs) o up ≡ (o, up, some c)
  unfolding uploads upload_files
  uploads-unread prev n d fs o up c r = rw (r, upload_files) refl

  -- Uploads leave the other files of the data directory.
  uploads-other :
      (prev : List Bytes) (m : Bytes) (fs : Entries) (o : store.Objects) (up : List Bytes)
      → IsNew m fs
      → store.content (uploads prev fs o up).0 (data_path ns m) ≡ store.content o (data_path ns m)
  uploads-other prev m [] o up new = unfold uploads in unfold upload_files in refl
  uploads-other prev m ((n, d) ∷ fs) o up new =
      let apart : equal_bytes (data_path ns m) (data_path ns n) ≡ false =
        equal_bytes-data_path ns m n ∙ equal_bytes_swap n m new.0 in
      let same = store.put-other o (data_path ns n) d (data_path ns m) apart in
      let up' = data_path ns n ∷ up in
      elim (Option-cases (local.unread n d)) [
        | inr (c, r) ↦ rw (uploads-unread prev n d fs o up c r) refl
        | inl r ↦ elim (Bool-cases (is_skipped local store ns prev n)) [
          | inl k ↦ rw (uploads-skipped prev n d fs o up r k) (uploads-other prev m fs o up' new.1)
          | inr k ↦ elim (Option-cases (store.put o (data_path ns n) d).1) [
            | inr (c, e) ↦ rw (uploads-failed prev n d fs o up c r k e) same
            | inl e ↦
                rw (uploads-put prev n d fs o up r k e)
                  (uploads-other prev m fs (store.put o (data_path ns n) d).0 up' new.1 ∙ same)
          ]
        ]
      ]

  AllSkippedStored-put :
      (prev : List Bytes) (n d : Bytes) (fs : Entries) (o : store.Objects)
      → IsNew n fs
      → AllSkippedStored prev o fs
      → AllSkippedStored prev (store.put o (data_path ns n) d).0 fs
  AllSkippedStored-put prev n d [] o new h = tt
  AllSkippedStored-put prev n d ((m, c) ∷ fs) o new h = (
    λ k.
        store.put-other o (data_path ns n) d (data_path ns m) (equal_bytes-data_path ns m n ∙ new.0)
        ∙ h.0 k,
    AllSkippedStored-put prev n d fs o new.1 h.1,
  )

  -- After uploads without an error the store holds every file.
  pub uploads-AllStored :
      (prev : List Bytes) (fs : Entries) (o : store.Objects) (up : List Bytes)
      → IsDirectory fs
      → AllSkippedStored prev o fs
      → (upload_files local store ns prev fs o up).2 ≡ none
      → AllStored (upload_files local store ns prev fs o up).0 fs
  unfolding uploads
  uploads-AllStored prev [] o up dir h ok = tt
  uploads-AllStored prev ((n, d) ∷ fs) o up dir h ok =
      let up' = data_path ns n ∷ up in
      elim (Option-cases (local.unread n d)) [
        | inr (c, r) ↦ absurd (some-ne_none (rw (uploads-unread prev n d fs o up c r) at ok))
        | inl r ↦ elim (Bool-cases (is_skipped local store ns prev n)) [
          | inl k ↦
              let e = uploads-skipped prev n d fs o up r k in
              subst (λ r. AllStored r.0 ((n, d) ∷ fs)) (sym e)
                (
                  uploads-other prev n fs o up' dir.1 ∙ h.0 k,
                  uploads-AllStored prev fs o up' dir.2 h.1 (rw e at ok),
                )
          | inr k ↦ elim (Option-cases (store.put o (data_path ns n) d).1) [
            | inr (c, f) ↦
                absurd (some-ne_none (rw (uploads-failed prev n d fs o up c r k f) at ok))
            | inl f ↦
                let e = uploads-put prev n d fs o up r k f in
                let o' = (store.put o (data_path ns n) d).0 in
                subst (λ r. AllStored r.0 ((n, d) ∷ fs)) (sym e)
                  (
                    uploads-other prev n fs o' up' dir.1 ∙ store.put-stored o (data_path ns n) d f,
                    uploads-AllStored prev fs o' up' dir.2
                        (AllSkippedStored-put prev n d fs o dir.1 h.1) (rw e at ok),
                  )
          ]
        ]
      ]

  -- Downloading the files of a manifest writes them, when the store and the disk answer.
  pub download-files :
      (fs : Entries) (o : store.Objects) (e : Engine local.pebble.DB)
      → IsDirectory fs
      → AllStored o fs
      → ((p d : Bytes) → store.content o p ≡ some d → store.get o p ≡ found d)
      → ((dir : Entries) (n d : Bytes) → (dir' : Entries) × (local.write_file dir n d ≡ some dir'))
      → (e' : Engine local.pebble.DB) × (download local store ns
            (manifest_files local store ns fs)
            o
            e
          ≡ (e', none))
        × ((m : Bytes) → find m e'.dir ≡ written_over m fs e.dir)
        × (e'.manifest_version ≡ e.manifest_version)
        × (e'.strong ≡ e.strong)
        × (e'.local_wals ≡ e.local_wals)
  unfolding download manifest_files find or_else
  download-files [] o e dir all reads writes = (e, refl, λ m. refl, refl, refl, refl)
  download-files ((n, d) ∷ fs) o e dir all reads writes =
      let (files, w) = writes e.dir n d in
      let next = record e { dir = files; uploaded = data_path ns n ∷ e.uploaded } in
      let (e', k, finds, version, strong, wals) =
        download-files fs o next dir.2 all.1 reads writes in
      (
        e',
        rw (reads (data_path ns n) d all.0, w, download, manifest_files) k,
        λ m.
            finds m
            ∙ found_first m n d fs e.dir files dir.1 (local.find-write_file e.dir files n d m w),
        version,
        strong,
        wals,
      )
