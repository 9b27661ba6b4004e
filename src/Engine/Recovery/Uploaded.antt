-- ===== src/Engine/Recovery/Uploaded.antt =====
-- pkg/engine/engine.go: what `recover` remembers as uploaded.
use cloudpebble.Base.{
  ◌⊎◌, max, none, some, List, [], ◌∷◌, ◌≡◌, refl, sym, All, Option-cases, Bool-cases, inl, inr,
  subst, leb, if_true, if_false,
}
use Prim.Native.String.{String}
use cloudpebble.Base.Order.{Bytes}
use cloudpebble.Pebble.{Entries}
use cloudpebble.Objstore.{Store, found, missing, failed, Fetched}
use cloudpebble.Wal.Objects.{WalEntry, list_wals, read_record}
use cloudpebble.Engine.{Manifest, Local, Engine, ManifestFile, data_path}
use cloudpebble.Engine.Recovery.{
  ManifestRead, absent, undecodable, present, download, open_db, restore, replay_entries,
  replay_wals, replay_files, replay_local_wals, then_replay_wals, then_replay_local, recover,
  read_manifest, Result,
}
use cloudpebble.Engine.Recovery.Replay.{Read-cases}
use cloudpebble.Engine.Sync.Outside.{IsBelow, data_path-IsBelow}

Fetched-cases :
    (f : Fetched)
    → ((d : Bytes) × (f ≡ found d)) ⊎ ((f ≡ missing) ⊎ ((c : String) × (f ≡ failed c)))
Fetched-cases (found d) = inl (d, refl)
Fetched-cases missing = inr (inl refl)
Fetched-cases (failed c) = inr (inr (c, refl))

ManifestRead-cases :
    (r : ManifestRead) → (r ≡ absent) ⊎ ((r ≡ undecodable) ⊎ ((m : Manifest) × (r ≡ present m)))
ManifestRead-cases absent = inl refl
ManifestRead-cases undecodable = inr (inl refl)
ManifestRead-cases (present m) = inr (inr (m, refl))

module _ (local : Local) (store : Store) (ns : Bytes) where
  -- the uploaded files of a result are in the namespace
  abbrev pub KeepsBelow : Result local store ns → Type 0
  KeepsBelow r = All (IsBelow ns) r.0.uploaded

  download-KeepsBelow :
      (fs : List ManifestFile) (o : store.Objects) (e : Engine local.pebble.DB)
      → All (IsBelow ns) e.uploaded
      → KeepsBelow (download local store ns fs o e)
  unfolding download
  download-KeepsBelow [] o e b = b
  download-KeepsBelow (f ∷ fs) o e b = elim (Fetched-cases (store.get o (data_path ns f.name))) [
    | inr (inl x) ↦ rw (x, download) b
    | inr (inr (c, x)) ↦ rw (x, download) b
    | inl (d, x) ↦ elim (Option-cases (local.write_file e.dir f.name d)) [
      | inl y ↦ rw (x, y, download) b
      | inr (dir, y) ↦
          rw (x, y, download)
            (download-KeepsBelow fs o
              (record e { dir = dir; uploaded = data_path ns f.name ∷ e.uploaded })
              (data_path-IsBelow ns f.name, b))
    ]
  ]

  open_db-KeepsBelow :
      (e : Engine local.pebble.DB)
      → All (IsBelow ns) e.uploaded
      → KeepsBelow (open_db local store ns e)
  unfolding open_db
  open_db-KeepsBelow e b = elim (Option-cases (local.open_files e.dir)) [
    | inl x ↦ rw (x, open_db) b
    | inr (db, x) ↦ rw (x, open_db) b
  ]

  restore-KeepsBelow :
      (o : store.Objects) (e : Engine local.pebble.DB) → KeepsBelow (restore local store ns o e)
  unfolding restore
  restore-KeepsBelow o e = elim (ManifestRead-cases (read_manifest local store ns o)) [
    | inl x ↦ rw (x, restore) (open_db-KeepsBelow (record e { uploaded = [] }) tt)
    | inr (inl x) ↦ rw (x, restore) tt
    | inr (inr (m, x)) ↦
        let e0 = record e { uploaded = []; manifest_version = m.version } in
        let b = download-KeepsBelow m.files o e0 tt in
        let e1 = (download local store ns m.files o e0).0 in
        elim (Option-cases (download local store ns m.files o e0).1) [
          | inr (c, y) ↦ rw (x, restore) (rw (y, restore) b)
          | inl y ↦
              rw (x, restore)
                (rw (y, restore) (open_db-KeepsBelow (record e1 { max_wal_seq = m.max_wal_seq }) b))
        ]
  ]

  replay_entries-KeepsBelow :
      (ws : List WalEntry) (o : store.Objects) (e : Engine local.pebble.DB)
      → All (IsBelow ns) e.uploaded
      → KeepsBelow (replay_entries local store ns ws o e)
  unfolding replay_entries
  replay_entries-KeepsBelow [] o e b = b
  replay_entries-KeepsBelow (w ∷ ws) o e b = elim (Bool-cases (leb w.seq e.max_wal_seq)) [
    | inl x ↦ rw (x, replay_entries) (replay_entries-KeepsBelow ws o e b)
    | inr x ↦ elim (Read-cases (read_record store ns o w.seq)) [
      | inl (c, y) ↦ rw (x, y, replay_entries) b
      | inr (d, y) ↦ elim (Option-cases (local.set_repr d)) [
        | inl z ↦ rw (x, y, z, replay_entries) b
        | inr (batch, z) ↦ elim (Bool-cases (local.refuses e.db batch)) [
          | inl u ↦ rw (x, y, z, u, replay_entries) b
          | inr u ↦
              rw (x, y, z, u, replay_entries)
                (replay_entries-KeepsBelow ws o
                  (record e {
                    db = local.pebble.apply e.db batch;
                    max_wal_seq = max e.max_wal_seq w.seq;
                  })
                  b)
        ]
      ]
    ]
  ]

  pub replay_wals-KeepsBelow :
      (o : store.Objects) (e : Engine local.pebble.DB)
      → All (IsBelow ns) e.uploaded
      → KeepsBelow (replay_wals local store ns o e)
  unfolding replay_wals
  replay_wals-KeepsBelow o e b = elim (Option-cases (list_wals store ns o)) [
    | inl x ↦ rw (x, replay_wals) b
    | inr (ws, x) ↦ rw (x, replay_wals) (replay_entries-KeepsBelow ws o e b)
  ]

  replay_files-KeepsBelow :
      (fs : Entries) (e : Engine local.pebble.DB)
      → All (IsBelow ns) e.uploaded
      → KeepsBelow (replay_files local store ns fs e)
  unfolding replay_files
  replay_files-KeepsBelow [] e b = b
  replay_files-KeepsBelow ((name, d) ∷ fs) e b = elim (Option-cases (local.set_repr d)) [
    | inl x ↦ rw (x, replay_files) b
    | inr (batch, x) ↦ elim (Bool-cases (local.refuses e.db batch)) [
      | inl y ↦ rw (x, y, replay_files) b
      | inr y ↦
          rw (x, y, replay_files)
            (replay_files-KeepsBelow fs
              (record e {
                db = local.pebble.apply e.db batch;
                local_wals = local.remove_file e.local_wals name;
              })
              b)
    ]
  ]

  then_replay_wals-KeepsBelow :
      (o : store.Objects) (r : Result local store ns)
      → KeepsBelow r
      → KeepsBelow (then_replay_wals local store ns o r)
  unfolding then_replay_wals
  then_replay_wals-KeepsBelow o (e, some cause) b = b
  then_replay_wals-KeepsBelow o (e, none) b = elim (Bool-cases e.strong) [
    | inl s ↦ subst KeepsBelow (sym (if_true _ _ s)) (replay_wals-KeepsBelow o e b)
    | inr s ↦ subst KeepsBelow (sym (if_false _ _ s)) b
  ]

  then_replay_local-KeepsBelow :
      (r : Result local store ns) → KeepsBelow r → KeepsBelow (then_replay_local local store ns r)
  unfolding then_replay_local replay_local_wals
  then_replay_local-KeepsBelow (e, some cause) b = b
  then_replay_local-KeepsBelow (e, none) b = replay_files-KeepsBelow e.local_wals e b

  -- What an engine remembers as uploaded after `recover` is in its namespace, whatever it was before
  -- and whether or not `recover` fails.
  pub recover-IsBelow :
      (o : store.Objects) (e : Engine local.pebble.DB)
      → All (IsBelow ns) (recover local store ns o e).0.uploaded
  unfolding recover
  recover-IsBelow o e =
      then_replay_local-KeepsBelow (then_replay_wals local store ns o (restore local store ns o e))
        (then_replay_wals-KeepsBelow o (restore local store ns o e) (restore-KeepsBelow o e))
