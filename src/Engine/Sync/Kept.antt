-- ===== src/Engine/Sync/Kept.antt =====
-- pkg/engine/engine.go: what deleting stale files, trimming the versions and collecting the log leave.
use cloudpebble.Base.{
  ℕ, zero, suc, ◌-◌, true, false, some, List, [], ◌∷◌, ◌≡◌, refl, sym, ◌∙◌, ap, arith, All,
  Bool-cases, Option-cases, inl, inr, length, take, ltb,
}
use cloudpebble.Base.Order.{Bytes, equal_bytes, equal_bytes_iff, has_prefix, lt_bytes}
use cloudpebble.Pebble.{Entries}
use cloudpebble.Objstore.{Store, is_listed}
use cloudpebble.Wal.Objects.{
  WalEntry, wal_entries, sort_entries, list_wals, is_garbage, gc_loop, gc,
}
use cloudpebble.Wal.Objects.Listed.{sort_entries-All}
use cloudpebble.Wal.Paths.{wal_prefix, parse_wal_seq, base_from}
use cloudpebble.Engine.{Local, manifest_versions_prefix, IsName, data_path}
use cloudpebble.Engine.Sync.{
  insert_string, sort_strings, has_file, delete_all, delete_stale, trim_versions,
  max_manifest_history,
}
use cloudpebble.Engine.Sync.Paths.{base_from-data_path}

-- a path is none of these
abbrev pub IsApart : Bytes → List Bytes → Type 0
IsApart p = All (λ (q : Bytes). equal_bytes p q ≡ false)

is_listed-IsApart : (p : Bytes) (qs : List Bytes) → is_listed p qs ≡ false → IsApart p qs
unfolding is_listed
is_listed-IsApart p [] h = tt
is_listed-IsApart p (q ∷ qs) h = ground (arith, h, is_listed-IsApart p qs)

insert_string-IsApart :
    (p s : Bytes) (qs : List Bytes)
    → equal_bytes p s ≡ false
    → IsApart p qs
    → IsApart p (insert_string s qs)
unfolding insert_string
insert_string-IsApart p s [] h a = (h, tt)
insert_string-IsApart p s (q ∷ qs) h a = elim (Bool-cases (lt_bytes q s)) [
  | inl l ↦ rw l (a.0, insert_string-IsApart p s qs h a.1)
  | inr l ↦ rw l (h, a)
]

sort_strings-IsApart : (p : Bytes) (qs : List Bytes) → IsApart p qs → IsApart p (sort_strings qs)
unfolding sort_strings
sort_strings-IsApart p [] a = tt
sort_strings-IsApart p (q ∷ qs) a =
    insert_string-IsApart p q (sort_strings qs) a.0 (sort_strings-IsApart p qs a.1)

take-IsApart : (p : Bytes) (n : ℕ) (qs : List Bytes) → IsApart p qs → IsApart p (take n qs)
take-IsApart p zero qs a = tt
take-IsApart p (suc n) [] a = tt
take-IsApart p (suc n) (q ∷ qs) a = (a.0, take-IsApart p n qs a.1)

module _ (local : Local) (store : Store) (ns : Bytes) where
  -- a path outside a prefix is none of the listed ones
  list-IsApart :
      (o : store.Objects) (prefix p : Bytes) (ps : List Bytes)
      → store.list o prefix ≡ some ps
      → has_prefix p prefix ≡ false
      → IsApart p ps
  list-IsApart o prefix p ps e h =
      is_listed-IsApart p ps (store.list-content o prefix p ps e ∙ rw h refl)

  delete_all-kept :
      (p : Bytes) (qs : List Bytes) (o : store.Objects)
      → IsApart p qs
      → store.content (delete_all local store ns qs o) p ≡ store.content o p
  unfolding delete_all
  delete_all-kept p [] o a = refl
  delete_all-kept p (q ∷ qs) o a =
      delete_all-kept p qs (store.delete o q).0 a.1 ∙ store.delete-other o q p a.0

  -- Trimming the versions leaves what is not a version.
  pub trim_versions-kept :
      (p : Bytes) (o : store.Objects)
      → has_prefix p (manifest_versions_prefix ns) ≡ false
      → store.content (trim_versions local store ns o) p ≡ store.content o p
  unfolding trim_versions
  trim_versions-kept p o h = elim (Option-cases (store.list o (manifest_versions_prefix ns))) [
    | inl e ↦ rw (e, trim_versions) refl
    | inr (vs, e) ↦ elim (Bool-cases (ltb max_manifest_history (length vs))) [
      | inr few ↦ rw (e, trim_versions) (rw few refl)
      | inl many ↦
          let apart =
            sort_strings-IsApart p vs (list-IsApart o (manifest_versions_prefix ns) p vs e h) in
          let n = length vs - max_manifest_history in
          rw (e, trim_versions)
            (rw many (
              delete_all-kept p (take n (sort_strings vs)) o
                (take-IsApart p n (sort_strings vs) apart)))
    ]
  ]

  -- Deleting stale files leaves the files of the checkpoint.
  pub delete_stale-kept :
      (n : Bytes) (ps : List Bytes) (fs : Entries) (o : store.Objects)
      → IsName n
      → has_file n fs ≡ true
      → store.content (delete_stale local store ns ps fs o) (data_path ns n)
        ≡ store.content o (data_path ns n)
  unfolding delete_stale
  delete_stale-kept n [] fs o name h = refl
  delete_stale-kept n (p ∷ ps) fs o name h = elim (Bool-cases (has_file (base_from [] p) fs)) [
    | inl k ↦ rw (k, delete_stale) (delete_stale-kept n ps fs o name h)
    | inr k ↦
        let apart : equal_bytes (data_path ns n) p ≡ false =
          elim (Bool-cases (equal_bytes (data_path ns n) p)) [
            | inr e ↦ e
            | inl e ↦
                let same = ap (base_from []) ((equal_bytes_iff (data_path ns n) p).0 e) in
                let b = sym (base_from-data_path ns n name) ∙ same in
                let t = sym h ∙ ap (λ m. has_file m fs) b ∙ k in cc
          ] in
        rw (k, delete_stale)
          (delete_stale-kept n ps fs (store.delete o p).0 name h
            ∙ store.delete-other o p (data_path ns n) apart)
  ]

wal_entries-IsApart :
    (p : Bytes) (ps : List Bytes)
    → IsApart p ps
    → All (λ (w : WalEntry). equal_bytes p w.path ≡ false) (wal_entries ps)
unfolding wal_entries
wal_entries-IsApart p [] a = tt
wal_entries-IsApart p (q ∷ ps) a = elim (Option-cases (parse_wal_seq q)) [
  | inl e ↦ rw (e, wal_entries) (wal_entries-IsApart p ps a.1)
  | inr (n, e) ↦ rw (e, wal_entries) (a.0, wal_entries-IsApart p ps a.1)
]

module _ (store : Store) (ns : Bytes) (max_seq ttl now : ℕ) where
  gc_loop-kept :
      (p : Bytes) (o : store.Objects) (ws : List WalEntry) (n : ℕ)
      → All (λ (w : WalEntry). equal_bytes p w.path ≡ false) ws
      → store.content (gc_loop store ns o max_seq ttl now ws n).objects p ≡ store.content o p
  unfolding gc_loop
  gc_loop-kept p o [] n a = refl
  gc_loop-kept p o (w ∷ ws) n a = elim (Bool-cases (is_garbage store ns o max_seq ttl now w)) [
    | inr g ↦ rw (g, gc_loop) (gc_loop-kept p o ws n a.1)
    | inl g ↦
        let same = store.delete-other o w.path p a.0 in
        elim (Option-cases (store.delete o w.path).1) [
          | inr (c, d) ↦ rw (g, d, gc_loop) same
          | inl d ↦
              rw (g, d, gc_loop) (gc_loop-kept p (store.delete o w.path).0 ws (suc n) a.1 ∙ same)
        ]
  ]

  -- `GC` leaves what is not below the prefix of the log.
  pub gc-other :
      (p : Bytes) (o : store.Objects)
      → has_prefix p (wal_prefix ns) ≡ false
      → store.content (gc store ns o max_seq ttl now).objects p ≡ store.content o p
  unfolding gc list_wals
  gc-other p o h = elim (Option-cases (store.list o (wal_prefix ns))) [
    | inl e ↦ rw (e, gc, list_wals) refl
    | inr (ps, e) ↦
        let apart =
          is_listed-IsApart p ps (store.list-content o (wal_prefix ns) p ps e ∙ rw h refl) in
        rw (e, gc, list_wals)
          (gc_loop-kept p o (sort_entries (wal_entries ps)) 0 (
            sort_entries-All (λ (w : WalEntry). equal_bytes p w.path ≡ false) (wal_entries ps)
              (wal_entries-IsApart p ps apart)))
  ]
