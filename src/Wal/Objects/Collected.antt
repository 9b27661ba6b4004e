-- ===== src/Wal/Objects/Collected.antt =====
-- pkg/walcloud/manager.go: what `GC` leaves of the log.
use Prim.Native.String.{String}
use cloudpebble.Base.{
  ℕ, suc, ◌^◌, ◌≤◌, ◌<◌, true, false, none, some, List, [], ◌∷◌, ◌≡◌, ◌≢◌, refl, sym, ap, ◌∙◌,
  subst, arith, ltb, leb, ◌&&◌, ◌-◌, ◌⊎◌, Bool-cases, Option-cases, inl, inr, All, ◌==◌, ==_iff,
}
use mathlib.Core.Option.{some-injective}
use cloudpebble.Base.Order.{Bytes, equal_bytes, equal_bytes_iff}
use cloudpebble.Objstore.{Store}
use cloudpebble.Wal.Paths.{wal_path, parse_wal_seq, parse_wal_seq-wal_path}
use cloudpebble.Wal.Objects.{
  WalEntry, Collection, list_wals, is_expired, is_garbage, gc_loop, gc, is_expired,
}
use cloudpebble.Wal.Objects.Listed.{IsNamed, has_entry, list_wals_lem}

-- Paths of different sequence numbers are different.
pub paths_apart :
    (p q : Bytes) (m n : ℕ)
    → parse_wal_seq p ≡ some m
    → parse_wal_seq q ≡ some n
    → m ≢ n
    → equal_bytes p q ≡ false
paths_apart p q m n hp hq ne = elim (Bool-cases (equal_bytes p q)) [
  | inr e ↦ e
  | inl e ↦
      absurd (ne (some-injective _ _ (sym hp ∙ ap parse_wal_seq ((equal_bytes_iff p q).0 e) ∙ hq)))
]

module _ (store : Store) (ns : Bytes) (max_seq ttl now : ℕ) where
  loop : store.Objects → List WalEntry → ℕ → Collection store.Objects
  loop o es n = gc_loop store ns o max_seq ttl now es n

  -- One round of the loop, for an entry that stays and for one that goes.
  loop-kept :
      (o : store.Objects) (e : WalEntry) (es : List WalEntry) (n : ℕ)
      → is_garbage store ns o max_seq ttl now e ≡ false
      → loop o (e ∷ es) n ≡ loop o es n
  unfolding loop gc_loop
  loop-kept o e es n h = rw (h, gc_loop) refl

  loop-deleted :
      (o : store.Objects) (e : WalEntry) (es : List WalEntry) (n : ℕ)
      → is_garbage store ns o max_seq ttl now e ≡ true
      → (store.delete o e.path).1 ≡ none
      → loop o (e ∷ es) n ≡ loop (store.delete o e.path).0 es (suc n)
  unfolding loop gc_loop
  loop-deleted o e es n h d = rw (h, d, gc_loop) refl

  loop-failed :
      (o : store.Objects) (e : WalEntry) (es : List WalEntry) (n : ℕ) (cause : String)
      → is_garbage store ns o max_seq ttl now e ≡ true
      → (store.delete o e.path).1 ≡ some cause
      → (loop o (e ∷ es) n).error ≡ some cause
  unfolding loop gc_loop
  loop-failed o e es n cause h d = rw (h, d, gc_loop) refl

  loop-stopped :
      (o : store.Objects) (e : WalEntry) (es : List WalEntry) (n : ℕ) (cause : String)
      → is_garbage store ns o max_seq ttl now e ≡ true
      → (store.delete o e.path).1 ≡ some cause
      → (loop o (e ∷ es) n).objects ≡ (store.delete o e.path).0
  unfolding loop gc_loop
  loop-stopped o e es n cause h d = rw (h, d, gc_loop) refl

  true-ne_false : true ≡ false → ⊥
  true-ne_false h = cc

  -- An entry that is garbage is not above `max_seq`, or its object is older than the time limit.
  is_garbage-cases :
      (o : store.Objects) (e : WalEntry)
      → is_garbage store ns o max_seq ttl now e ≡ true
      → (e.seq ≤ max_seq) ⊎ (is_expired store o e.path ttl now ≡ true)
  unfolding is_garbage is_expired
  is_garbage-cases o e g = elim (Bool-cases (leb e.seq max_seq)) [
    | inl le ↦ inl (ground (arith, le))
    | inr gt ↦ elim (Option-cases (store.created_at o e.path)) [
      | inl x ↦ absurd (true-ne_false (ground (arith, g, gt, x)))
      | inr (t, x) ↦
          let c = store.created_at-created o e.path t x in inr (ground (arith, g, gt, x, c))
    ]
  ]

  -- An entry that is garbage has another path than that of a number above `max_seq` whose object is
  -- not older than the time limit.
  is_garbage-apart :
      (seq : ℕ) (p : Bytes) (o : store.Objects) (e : WalEntry)
      → parse_wal_seq p ≡ some seq
      → max_seq < seq
      → is_expired store o p ttl now ≡ false
      → IsNamed e
      → is_garbage store ns o max_seq ttl now e ≡ true
      → equal_bytes p e.path ≡ false
  is_garbage-apart seq p o e h lt young named g = elim (is_garbage-cases o e g) [
    | inl le ↦ paths_apart p e.path seq e.seq h named (omega (arith, le, lt))
    | inr aged ↦ elim (Bool-cases (equal_bytes p e.path)) [
      | inr apart ↦ apart
      | inl same ↦
          let at_path =
            ap (λ q. is_expired store o q ttl now) ((equal_bytes_iff p e.path).0 same) in
          absurd (true-ne_false (sym aged ∙ sym at_path ∙ young))
    ]
  ]

  is_expired-delete :
      (o : store.Objects) (p q : Bytes)
      → equal_bytes q p ≡ false
      → is_expired store (store.delete o p).0 q ttl now ≡ is_expired store o q ttl now
  unfolding is_expired
  is_expired-delete o p q apart =
      ap (λ t. ltb 0 ttl && ltb ttl (now - t)) (store.delete-created o p q apart)

  le-garbage :
      (o : store.Objects) (e : WalEntry)
      → e.seq ≤ max_seq
      → is_garbage store ns o max_seq ttl now e ≡ true
  unfolding is_garbage
  le-garbage o e le = ground (arith, le)

  none-ne_some : {c : String} → none ≡ some c → ⊥
  none-ne_some h = cc

  -- Nothing is written: an object that is not there stays away.
  loop-none :
      (p : Bytes) (o : store.Objects) (es : List WalEntry) (n : ℕ)
      → (loop o es n).error ≡ none
      → store.content o p ≡ none
      → store.content (loop o es n).objects p ≡ none
  loop-none p o [] n ok h = unfold loop in unfold gc_loop in h
  loop-none p o (e ∷ es) n ok h = elim (Bool-cases (is_garbage store ns o max_seq ttl now e)) [
    | inr g ↦ rw (loop-kept o e es n g) (loop-none p o es n (rw (loop-kept o e es n g) at ok) h)
    | inl g ↦ elim (Option-cases (store.delete o e.path).1) [
      | inr (c, d) ↦ absurd (none-ne_some (sym ok ∙ loop-failed o e es n c g d))
      | inl d ↦
          let k = loop-deleted o e es n g d in
          let gone : store.content (store.delete o e.path).0 p ≡ none =
            elim (Bool-cases (equal_bytes p e.path)) [
              | inl same ↦ rw ((equal_bytes_iff p e.path).0 same) (store.delete-gone o e.path d)
              | inr other ↦ store.delete-other o e.path p other ∙ h
            ] in
          rw k (loop-none p (store.delete o e.path).0 es (suc n) (rw k at ok) gone)
    ]
  ]

  -- An object whose path is not that of a deleted entry is as it was.
  loop-other :
      (seq : ℕ) (p : Bytes) (o : store.Objects) (es : List WalEntry) (n : ℕ)
      → parse_wal_seq p ≡ some seq
      → max_seq < seq
      → is_expired store o p ttl now ≡ false
      → All IsNamed es
      → store.content (loop o es n).objects p ≡ store.content o p
  loop-other seq p o [] n h lt young named = unfold loop in unfold gc_loop in refl
  loop-other seq p o (e ∷ es) n h lt young named =
      elim (Bool-cases (is_garbage store ns o max_seq ttl now e)) [
        | inr g ↦ rw (loop-kept o e es n g) (loop-other seq p o es n h lt young named.1)
        | inl g ↦
            let apart = is_garbage-apart seq p o e h lt young named.0 g in
            let young' = is_expired-delete o e.path p apart ∙ young in
            let same = store.delete-other o e.path p apart in
            elim (Option-cases (store.delete o e.path).1) [
              | inr (c, d) ↦ rw (loop-stopped o e es n c g d) same
              | inl d ↦
                  rw (loop-deleted o e es n g d) (
                    loop-other seq p (store.delete o e.path).0 es (suc n) h lt young' named.1
                    ∙ same)
            ]
      ]

  other_entry :
      (e : WalEntry) (es : List WalEntry) (seq : ℕ) (p : Bytes)
      → equal_bytes p e.path ≡ false
      → has_entry seq p (e ∷ es) ≡ true
      → has_entry seq p es ≡ true
  unfolding has_entry
  other_entry e es seq p other h =
      ground (arith, other, h, equal_bytes_iff p e.path, equal_bytes_iff e.path p)

  entry_below :
      (o : store.Objects) (e : WalEntry) (es : List WalEntry) (seq : ℕ) (p : Bytes)
      → seq ≤ max_seq
      → is_garbage store ns o max_seq ttl now e ≡ false
      → has_entry seq p (e ∷ es) ≡ true
      → has_entry seq p es ≡ true
  unfolding has_entry
  entry_below o e es seq p le g h = elim (Bool-cases (e.seq == seq)) [
    | inl same ↦
        let b : e.seq ≤ max_seq = subst (λ m. m ≤ max_seq) (sym ((==_iff e.seq seq).0 same)) le in
        absurd (true-ne_false (sym (le-garbage o e b) ∙ g))
    | inr other ↦ ground (arith, other, h)
  ]

  -- An entry of the list that is not above `max_seq` is deleted.
  loop-gone :
      (seq : ℕ) (p : Bytes) (o : store.Objects) (es : List WalEntry) (n : ℕ)
      → seq ≤ max_seq
      → (loop o es n).error ≡ none
      → has_entry seq p es ≡ true
      → store.content (loop o es n).objects p ≡ none
  loop-gone seq p o [] n le ok h = unfold has_entry in cc
  loop-gone seq p o (e ∷ es) n le ok h =
      elim (Bool-cases (is_garbage store ns o max_seq ttl now e)) [
        | inr g ↦ rw (loop-kept o e es n g) (
            loop-gone seq p o es n le (rw (loop-kept o e es n g) at ok)
              (entry_below o e es seq p le g h))
        | inl g ↦ elim (Option-cases (store.delete o e.path).1) [
          | inr (c, d) ↦ absurd (none-ne_some (sym ok ∙ loop-failed o e es n c g d))
          | inl d ↦
              let k = loop-deleted o e es n g d in
              let o' = (store.delete o e.path).0 in
              let ok' : (loop o' es (suc n)).error ≡ none = sym (ap (λ c. c.error) k) ∙ ok in
              rw k (elim (Bool-cases (equal_bytes p e.path)) [
                | inl same ↦
                    let gone : store.content o' p ≡ none =
                      rw ((equal_bytes_iff p e.path).0 same) (store.delete-gone o e.path d) in
                    loop-none p o' es (suc n) ok' gone
                | inr other ↦ loop-gone seq p o' es (suc n) le ok' (other_entry e es seq p other h)
              ])
        ]
      ]

module _ (store : Store) (ns : Bytes) (o : store.Objects) (max_seq orphan_ttl now : ℕ) where
  gc-eq :
      (es : List WalEntry)
      → list_wals store ns o ≡ some es
      → gc store ns o max_seq orphan_ttl now ≡ gc_loop store ns o max_seq orphan_ttl now es 0
  unfolding gc
  gc-eq es h = rw (h, gc) refl

  gc-unlisted :
      list_wals store ns o ≡ none
      → gc store ns o max_seq orphan_ttl now
        ≡ record { objects = o; deleted = 0; error = some "listing" }
  unfolding gc
  gc-unlisted h = rw (h, gc) refl

  -- After a `GC` that returns no error, no log object up to `max_seq`, which is below 2^64, is left.
  pub gc-deletes :
      (seq : ℕ)
      → (gc store ns o max_seq orphan_ttl now).error ≡ none
      → max_seq < 2 ^ 64
      → seq ≤ max_seq
      → store.content (gc store ns o max_seq orphan_ttl now).objects (wal_path ns seq) ≡ none
  unfolding loop
  gc-deletes seq ok lt le = elim (Option-cases (list_wals store ns o)) [
    | inl e ↦ absurd (none-ne_some store ns max_seq orphan_ttl now (sym (rw (gc-unlisted e) at ok)))
    | inr (es, e) ↦
        let listed = (list_wals_lem store ns o es e).2 seq (omega (arith, lt, le)) in
        rw (gc-eq es e) (elim (Option-cases (store.content o (wal_path ns seq))) [
          | inl c ↦
              loop-none store ns max_seq orphan_ttl now (wal_path ns seq) o es 0
                (rw (gc-eq es e) at ok) c
          | inr (d, c) ↦
              loop-gone store ns max_seq orphan_ttl now seq (wal_path ns seq) o es 0 le
                (rw (gc-eq es e) at ok) (listed ∙ rw c refl)
        ])
  ]

  -- A `GC` leaves the log objects above `max_seq` as they were that are not older than a positive time
  -- limit for orphans, whatever it returns, for numbers below 2^64.
  pub gc-keeps :
      (seq : ℕ)
      → max_seq < seq
      → is_expired store o (wal_path ns seq) orphan_ttl now ≡ false
      → seq < 2 ^ 64
      → store.content (gc store ns o max_seq orphan_ttl now).objects (wal_path ns seq)
        ≡ store.content o (wal_path ns seq)
  unfolding loop
  gc-keeps seq lt young b = elim (Option-cases (list_wals store ns o)) [
    | inl e ↦ rw (gc-unlisted e) refl
    | inr (es, e) ↦ rw (gc-eq es e) (
        loop-other store ns max_seq orphan_ttl now seq (wal_path ns seq) o es 0
          (parse_wal_seq-wal_path ns seq b) lt young (list_wals_lem store ns o es e).1)
  ]
