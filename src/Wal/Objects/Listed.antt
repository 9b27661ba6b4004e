-- ===== src/Wal/Objects/Listed.antt =====
-- pkg/walcloud/manager.go: what listing the log objects gives, and where a new manager starts.
use cloudpebble.Base.{
  ℕ, ◌+◌, ◌%◌, ◌^◌, ◌≤◌, ◌<◌, Bool, true, false, ◌&&◌, none, some, List, [], ◌∷◌, ◌++◌, ltb,
  if◌then◌else◌, ◌≡◌, ◌≢◌, refl, sym, ap, ◌∙◌, arith, Bool-cases, Option-cases, inl, inr, All,
  subst, append_assoc, ==_refl, ◌==◌,
}
use mathlib.Core.Option.{some-injective}
use cloudpebble.Base.Order.{
  Bytes, equal_bytes, equal_bytes_iff, equal_bytes_refl, has_prefix, has_prefix-append,
}
use cloudpebble.Objstore.{Store, is_listed, is_some}
use cloudpebble.Wal.Paths.{
  wal_path, wal_prefix, parse_wal_seq, parse_wal_seq-wal_path, decimal, seq_num_width, wal_ext,
  wal_dir, slash, parse_uint, trim_wal_ext, base_from,
}
use cloudpebble.Wal.Objects.{
  WalEntry, wal_entries, insert_entry, sort_entries, last_entry, first_seq, list_wals, new_manager,
}

abbrev pub IsAscending : List WalEntry → Type 0
IsAscending [] = Unit
IsAscending (e ∷ es) = All (λ (f : WalEntry). e.seq ≤ f.seq) es × IsAscending es

-- whether the entries have one with this sequence number and path
unfoldable pub has_entry : ℕ → Bytes → List WalEntry → Bool
has_entry n p [] = false
has_entry n p (e ∷ es) = if e.seq == n && equal_bytes e.path p then true else has_entry n p es

-- every entry has the sequence number that its path says
abbrev pub IsNamed : WalEntry → Type 0
IsNamed e = parse_wal_seq e.path ≡ some e.seq

insert_entry-All :
    (P : WalEntry → Type 0) (e : WalEntry) (es : List WalEntry)
    → P e
    → All P es
    → All P (insert_entry e es)
unfolding insert_entry
insert_entry-All P e [] h hs = (h, tt)
insert_entry-All P e (f ∷ es) h hs = elim (Bool-cases (ltb f.seq e.seq)) [
  | inl l ↦ rw l (hs.0, insert_entry-All P e es h hs.1)
  | inr l ↦ rw l (h, hs)
]

All-le :
    (m n : ℕ) (es : List WalEntry)
    → m ≤ n
    → All (λ (f : WalEntry). n ≤ f.seq) es
    → All (λ (f : WalEntry). m ≤ f.seq) es
All-le m n [] h hs = tt
All-le m n (e ∷ es) h hs = (omega (arith, h, hs.0), All-le m n es h hs.1)

insert_entry-IsAscending :
    (e : WalEntry) (es : List WalEntry) → IsAscending es → IsAscending (insert_entry e es)
unfolding insert_entry
insert_entry-IsAscending e [] s = (tt, tt)
insert_entry-IsAscending e (f ∷ es) s = elim (Bool-cases (ltb f.seq e.seq)) [
  | inl l ↦ rw l (
    insert_entry-All (λ (g : WalEntry). f.seq ≤ g.seq) e es (ground (arith, l)) s.0,
    insert_entry-IsAscending e es s.1,
  )
  | inr l ↦ let h : e.seq ≤ f.seq = ground (arith, l) in rw l ((h, All-le e.seq f.seq es h s.0), s)
]

sort_entries-IsAscending : (es : List WalEntry) → IsAscending (sort_entries es)
unfolding sort_entries
sort_entries-IsAscending [] = tt
sort_entries-IsAscending (e ∷ es) =
    insert_entry-IsAscending e (sort_entries es) (sort_entries-IsAscending es)

pub sort_entries-All :
    (P : WalEntry → Type 0) (es : List WalEntry) → All P es → All P (sort_entries es)
unfolding sort_entries
sort_entries-All P [] h = tt
sort_entries-All P (e ∷ es) h =
    insert_entry-All P e (sort_entries es) h.0 (sort_entries-All P es h.1)

none-ne_some : {n : ℕ} → none ≡ some n → ⊥
none-ne_some h = cc

has_entry-insert_entry :
    (n : ℕ) (p : Bytes) (e : WalEntry) (es : List WalEntry)
    → has_entry n p (insert_entry e es) ≡ has_entry n p (e ∷ es)
unfolding has_entry insert_entry
has_entry-insert_entry n p e [] = refl
has_entry-insert_entry n p e (f ∷ es) = ground (arith, has_entry-insert_entry n p e es)

has_entry-sort_entries :
    (n : ℕ) (p : Bytes) (es : List WalEntry) → has_entry n p (sort_entries es) ≡ has_entry n p es
unfolding has_entry sort_entries
has_entry-sort_entries n p [] = refl
has_entry-sort_entries n p (e ∷ es) =
    has_entry-insert_entry n p e (sort_entries es) ∙ ground (arith, has_entry-sort_entries n p es)

wal_entries-none :
    (p : Bytes) (ps : List Bytes) → parse_wal_seq p ≡ none → wal_entries (p ∷ ps) ≡ wal_entries ps
unfolding wal_entries
wal_entries-none p ps e = rw (e, wal_entries) refl

wal_entries-some :
    (p : Bytes) (ps : List Bytes) (n : ℕ)
    → parse_wal_seq p ≡ some n
    → wal_entries (p ∷ ps) ≡ record { seq = n; path = p } ∷ wal_entries ps
unfolding wal_entries
wal_entries-some p ps n e = rw (e, wal_entries) refl

wal_entries-IsNamed : (ps : List Bytes) → All IsNamed (wal_entries ps)
wal_entries-IsNamed [] = unfold wal_entries in tt
wal_entries-IsNamed (p ∷ ps) = elim (Option-cases (parse_wal_seq p)) [
  | inl e ↦ rw (wal_entries-none p ps e) (wal_entries-IsNamed ps)
  | inr (n, e) ↦ rw (wal_entries-some p ps n e) (e, wal_entries-IsNamed ps)
]

has_entry-wal_entries :
    (n : ℕ) (p : Bytes) (ps : List Bytes)
    → parse_wal_seq p ≡ some n
    → has_entry n p (wal_entries ps) ≡ is_listed p ps
unfolding has_entry is_listed
has_entry-wal_entries n p [] h = unfold wal_entries in refl
has_entry-wal_entries n p (q ∷ ps) h =
    let ih = has_entry-wal_entries n p ps h in
    elim (Bool-cases (equal_bytes p q)) [
      | inl same ↦
          let e = (equal_bytes_iff p q).0 same in
          let k : parse_wal_seq q ≡ some n = ap parse_wal_seq (sym e) ∙ h in
          rw (wal_entries-some q ps n k, same, ==_refl n, ← e, equal_bytes_refl p) refl
      | inr other ↦
          let flip : equal_bytes q p ≡ false =
            ground (arith, equal_bytes_iff p q, equal_bytes_iff q p) in
          elim (Option-cases (parse_wal_seq q)) [
            | inl e ↦ rw (wal_entries-none q ps e, other) ih
            | inr (m, e) ↦ rw (wal_entries-some q ps m e, other) (ground (arith, ih))
          ]
    ]

-- The last entry is the greatest.
last_entry-greatest :
    (f : WalEntry) (es : List WalEntry)
    → IsAscending (f ∷ es)
    → All IsNamed (f ∷ es)
    → (x : WalEntry) × (last_entry (f ∷ es) ≡ some x)
      × IsNamed x
      × All (λ (g : WalEntry). g.seq ≤ x.seq) (f ∷ es)
unfolding last_entry
last_entry-greatest f [] s named = (f, refl, named.0, (omega arith, tt))
last_entry-greatest f (g ∷ es) s named =
    let (x, e, named', le) = last_entry-greatest g es s.1 named.1 in
    (x, e, named', (omega (arith, s.0.0, le.0), le))

has_entry-le :
    (n : ℕ) (p : Bytes) (es : List WalEntry) (m : ℕ)
    → All (λ (g : WalEntry). g.seq ≤ m) es
    → has_entry n p es ≡ true
    → n ≤ m
unfolding has_entry
has_entry-le n p [] m le h = cc
has_entry-le n p (e ∷ es) m le h = ground (arith, has_entry-le n p es m le.1)

parse_uint-lt : (cs : Bytes) (n : ℕ) → parse_uint cs ≡ some n → n < 2 ^ 64
unfolding parse_uint
parse_uint-lt [] n h = cc
parse_uint-lt (c ∷ cs) n h = ground (arith)

parse_wal_seq-lt : (p : Bytes) (n : ℕ) → parse_wal_seq p ≡ some n → n < 2 ^ 64
unfolding parse_wal_seq
parse_wal_seq-lt p n h = parse_uint-lt (trim_wal_ext (base_from [] p)) n h

wal_path-has_prefix : (ns : Bytes) (seq : ℕ) → has_prefix (wal_path ns seq) (wal_prefix ns) ≡ true
unfolding wal_path wal_prefix
wal_path-has_prefix ns seq =
    let rest = decimal seq_num_width seq ++ wal_ext in
    subst (λ k. has_prefix k (wal_prefix ns) ≡ true)
      (append_assoc ns (slash ∷ (wal_dir ++ slash ∷ [])) rest)
      (has_prefix-append (wal_prefix ns) rest)

-- The entries of a listing, before they are sorted.
module _ (store : Store) (ns : Bytes) (o : store.Objects) (es : List WalEntry) where
  list_wals-eq :
      list_wals store ns o ≡ some es
      → (ps : List Bytes) × (store.list o (wal_prefix ns) ≡ some ps)
        × (sort_entries (wal_entries ps) ≡ es)
  unfolding list_wals
  list_wals-eq h = elim (Option-cases (store.list o (wal_prefix ns))) [
    | inl e ↦ let k = rw (e, list_wals) at h in cc
    | inr (ps, e) ↦ let k = rw (e, list_wals) at h in (ps, e, some-injective _ _ k)
  ]

  -- A listing is in ascending order, every entry has the sequence number of its path, and the object
  -- at the path of a sequence number below 2^64 is listed exactly when there is one.
  pub list_wals_lem :
      list_wals store ns o ≡ some es
      → IsAscending es
        × All IsNamed es
        × ((seq : ℕ)
            → seq < 2 ^ 64
            → has_entry seq (wal_path ns seq) es ≡ is_some (store.content o (wal_path ns seq)))
  list_wals_lem h =
      let (ps, e, p) = list_wals-eq h in
      (
        subst IsAscending p (sort_entries-IsAscending (wal_entries ps)),
        subst (All IsNamed) p (sort_entries-All IsNamed (wal_entries ps) (wal_entries-IsNamed ps)),
        λ seq lt.
            ap (has_entry seq (wal_path ns seq)) (sym p)
            ∙ has_entry-sort_entries seq (wal_path ns seq) (wal_entries ps)
            ∙ has_entry-wal_entries seq (wal_path ns seq) ps (parse_wal_seq-wal_path ns seq lt)
            ∙ store.list-content o (wal_prefix ns) (wal_path ns seq) ps e
            ∙ rw (wal_path-has_prefix ns seq) refl,
      )

-- the uint64 after `m`, when it is not 0
wrapped : (n m : ℕ) → n ≤ m → m < 2 ^ 64 → (m + 1) % 2 ^ 64 ≢ 0 → n < (m + 1) % 2 ^ 64
wrapped n m le lt nz = omega (arith, le, lt, nz)

first_seq-above :
    (es : List WalEntry) (n : ℕ) (p : Bytes)
    → IsAscending es
    → All IsNamed es
    → first_seq es ≢ 0
    → has_entry n p es ≡ true
    → n < first_seq es
unfolding first_seq
first_seq-above [] n p s named nz h = unfold has_entry in cc
first_seq-above (e ∷ es) n p s named nz h =
    let (x, l, named', le) = last_entry-greatest e es s named in
    let b = has_entry-le n p (e ∷ es) x.seq le h in
    let lt = parse_wal_seq-lt x.path x.seq named' in
    let eq : first_seq (e ∷ es) ≡ (x.seq + 1) % 2 ^ 64 = rw (l, first_seq) refl in
    let nz' : (x.seq + 1) % 2 ^ 64 ≢ 0 = λ k. nz (eq ∙ k) in
    subst (λ m. n < m) (sym eq) (wrapped n x.seq b lt nz')

-- A new manager starts above the sequence number of every log object that is in the store, unless
-- its counter has wrapped around to 0; so it overwrites none of them.
pub new_manager-above :
    (store : Store) (ns : Bytes) (o : store.Objects) (n seq : ℕ) (d : Bytes)
    → new_manager store ns o ≡ some n
    → n ≢ 0
    → seq < 2 ^ 64
    → store.content o (wal_path ns seq) ≡ some d
    → seq < n
unfolding new_manager
new_manager-above store ns o n seq d h nz lt c = elim (Option-cases (list_wals store ns o)) [
  | inl e ↦ let k = rw (e, new_manager) at h in absurd (none-ne_some k)
  | inr (es, e) ↦
      let k = some-injective _ _ (rw (e, new_manager) at h) in
      let (s, named, listed) = list_wals_lem store ns o es e in
      let has : has_entry seq (wal_path ns seq) es ≡ true = listed seq lt ∙ rw c refl in
      subst (λ m. seq < m) k
        (first_seq-above es seq (wal_path ns seq) s named (λ z. nz (sym k ∙ z)) has)
]
