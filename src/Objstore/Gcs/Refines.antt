-- ===== src/Objstore/Gcs/Refines.antt =====
-- pkg/objstore/gcs/gcs.go: the store of a bucket keeps the laws of `Store`.
use Prim.Native.String.{String}
use mathlib.Core.Option.{some-injective}
use cloudpebble.Base.{
  ℕ, subst, All, map, true, false, ◌&&◌, Option, none, some, List, [], ◌∷◌, ◌≡◌, refl, ◌∙◌, sym, ap,
  arith, Bool-cases, inl, inr, drop-append_exact, Option-cases, if_true, if_false,
}
use cloudpebble.Base.Order.{
  Bytes, equal_bytes, equal_bytes_refl, has_prefix, equal_bytes-common, has_prefix-common,
  has_prefix-append, has_prefix-split, has_prefix-longer,
}
use cloudpebble.Objstore.{Store, found, missing, is_listed, is_some}
use cloudpebble.Objstore.Gcs.{
  Bucket, ClientError, Next, named, interrupted, all_names, is_not_exist, full_path, un_prefix, put,
  get, delete_object, list_names, list_objects, attrs_of,
}

full_path-other :
    (b : Bucket) (prefix p q : Bytes)
    → equal_bytes q p ≡ false
    → equal_bytes (full_path b prefix q) (full_path b prefix p) ≡ false
unfolding full_path
full_path-other b prefix p q h = equal_bytes-common prefix q p ∙ h

un_prefix-full_path :
    (b : Bucket) (prefix p : Bytes) → un_prefix b prefix (full_path b prefix p) ≡ p
unfolding un_prefix full_path
un_prefix-full_path b prefix p =
    if_true _ _ (has_prefix-append prefix p) ∙ drop-append_exact prefix p

full_path-common :
    (b : Bucket) (prefix p q : Bytes)
    → equal_bytes (full_path b prefix p) (full_path b prefix q) ≡ equal_bytes p q
unfolding full_path
full_path-common b prefix p q = equal_bytes-common prefix p q

is_listed-All {ℓ} :
    {P : Bytes → Type ℓ} (names : List Bytes)
    → ((n : Bytes) → is_listed n names ≡ true → P n)
    → All P names
unfolding is_listed
is_listed-All [] f = tt
is_listed-All (n ∷ names) f = (
  f n (if_true _ _ (equal_bytes_refl n)),
  is_listed-All names (λ m h.
      f m (elim (Bool-cases (equal_bytes m n)) [
        | inl e ↦ if_true _ _ e
        | inr e ↦ if_false _ _ e ∙ h
      ])),
)

module _ (b : Bucket) (prefix : Bytes) where
  -- the content under a path of the store
  abbrev pub stored : b.Objects → Bytes → Option Bytes
  stored o p = b.content o (full_path b prefix p)

  put-accepted :
      (o : b.Objects) (p d : Bytes)
      → b.write o (full_path b prefix p) d ≡ none
      → put b prefix o p d ≡ b.close o (full_path b prefix p) d
  unfolding put
  put-accepted o p d h = rw (h, put) refl

  put-refused :
      (o : b.Objects) (p d : Bytes) (cause : String)
      → b.write o (full_path b prefix p) d ≡ some cause
      → put b prefix o p d ≡ (b.close_failed o (full_path b prefix p) d, some cause)
  unfolding put
  put-refused o p d cause h = rw (h, put) refl

  pub put-stored :
      (o : b.Objects) (p d : Bytes)
      → (put b prefix o p d).1 ≡ none
      → stored (put b prefix o p d).0 p ≡ some d
  put-stored o p d h = elim (Option-cases (b.write o (full_path b prefix p) d)) [
    | inl e ↦
        let eq = put-accepted o p d e in
        ap (λ r. stored r.0 p) eq
        ∙ b.close-stored o (full_path b prefix p) d (sym (ap (λ r. r.1) eq) ∙ h)
    | inr (cause, e) ↦ let refused = sym (ap (λ r. r.1) (put-refused o p d cause e)) ∙ h in cc
  ]

  pub put-other :
      (o : b.Objects) (p d q : Bytes)
      → equal_bytes q p ≡ false
      → stored (put b prefix o p d).0 q ≡ stored o q
  put-other o p d q h = elim (Option-cases (b.write o (full_path b prefix p) d)) [
    | inl e ↦
        ap (λ r. stored r.0 q) (put-accepted o p d e)
        ∙ b.close-other o (full_path b prefix p) d (full_path b prefix q)
            (full_path-other b prefix p q h)
    | inr (cause, e) ↦
        ap (λ r. stored r.0 q) (put-refused o p d cause e)
        ∙ b.close_failed-other o (full_path b prefix p) d (full_path b prefix q)
            (full_path-other b prefix p q h)
  ]

  -- what `Delete` answers for the answer of the client
  delete-objects :
      (o : b.Objects) (p : Bytes)
      → (delete_object b prefix o p).0 ≡ (b.delete o (full_path b prefix p)).0
  unfolding delete_object
  delete-objects o p = elim (Option-cases (b.delete o (full_path b prefix p)).1) [
    | inl e ↦ rw (e, delete_object) refl
    | inr (x, e) ↦ elim (Bool-cases (is_not_exist x)) [
      | inl n ↦ rw (e, delete_object, n) refl
      | inr n ↦ rw (e, delete_object, n) refl
    ]
  ]

  delete-failed :
      (o : b.Objects) (p : Bytes) (x : ClientError)
      → (b.delete o (full_path b prefix p)).1 ≡ some x
      → is_not_exist x ≡ false
      → (delete_object b prefix o p).1 ≡ some "deleting"
  unfolding delete_object
  delete-failed o p x e n = rw (e, delete_object, n) refl

  pub delete-gone :
      (o : b.Objects) (p : Bytes)
      → (delete_object b prefix o p).1 ≡ none
      → stored (delete_object b prefix o p).0 p ≡ none
  delete-gone o p h =
      ap (λ r. stored r p) (delete-objects o p)
      ∙ elim (Option-cases (b.delete o (full_path b prefix p)).1) [
        | inl e ↦ b.delete-gone o (full_path b prefix p) e
        | inr (x, e) ↦ elim (Bool-cases (is_not_exist x)) [
          | inl n ↦ b.delete-missing o (full_path b prefix p) x e n
          | inr n ↦ let refused = sym (delete-failed o p x e n) ∙ h in cc
        ]
      ]

  pub delete-other :
      (o : b.Objects) (p q : Bytes)
      → equal_bytes q p ≡ false
      → stored (delete_object b prefix o p).0 q ≡ stored o q
  delete-other o p q h =
      ap (λ r. stored r q) (delete-objects o p)
      ∙ b.delete-other o (full_path b prefix p) (full_path b prefix q)
          (full_path-other b prefix p q h)

  pub delete-created :
      (o : b.Objects) (p q : Bytes)
      → equal_bytes q p ≡ false
      → b.created (delete_object b prefix o p).0 (full_path b prefix q)
        ≡ b.created o (full_path b prefix q)
  delete-created o p q h =
      ap (λ r. b.created r (full_path b prefix q)) (delete-objects o p)
      ∙ b.delete-created o (full_path b prefix p) (full_path b prefix q)
          (full_path-other b prefix p q h)

  pub get-found : (o : b.Objects) (p d : Bytes) → get b prefix o p ≡ found d → stored o p ≡ some d
  unfolding get
  get-found o p d h = ground (arith, b.read_all-content o (full_path b prefix p) d)

  pub get-missing : (o : b.Objects) (p : Bytes) → get b prefix o p ≡ missing → stored o p ≡ none
  unfolding get
  get-missing o p h = grind (arith, b.new_reader-missing o (full_path b prefix p))

  list_names-all :
      (ns : List Next) (ps : List Bytes)
      → list_names b prefix ns ≡ some ps
      → (names : List Bytes) × (all_names ns ≡ some names) × (ps ≡ map (un_prefix b prefix) names)
  unfolding list_names all_names
  list_names-all [] ps h = ([], refl, sym (some-injective _ _ h))
  list_names-all (named n ∷ ns) ps h = elim (Option-cases (list_names b prefix ns)) [
    | inl e ↦ ground arith
    | inr (out, e) ↦
        let (names, all, eq) = list_names-all ns out e in (n ∷ names, rw all refl, ground arith)
  ]
  list_names-all (interrupted cause ∷ ns) ps h = cc

  equal_bytes-un_prefix :
      (n p : Bytes)
      → has_prefix n prefix ≡ true
      → equal_bytes p (un_prefix b prefix n) ≡ equal_bytes (full_path b prefix p) n
  unfolding full_path
  equal_bytes-un_prefix n p h =
      let (t, e) = has_prefix-split n prefix h in
      subst (λ m. equal_bytes p (un_prefix b prefix m) ≡ equal_bytes (full_path b prefix p) m)
        (sym e)
        (ap (equal_bytes p) (un_prefix-full_path b prefix t) ∙ sym (full_path-common b prefix p t))

  is_listed-un_prefix :
      (names : List Bytes) (p : Bytes)
      → All (λ n. has_prefix n prefix ≡ true) names
      → is_listed p (map (un_prefix b prefix) names) ≡ is_listed (full_path b prefix p) names
  unfolding is_listed
  is_listed-un_prefix [] p a = refl
  is_listed-un_prefix (n ∷ names) p a =
      let ih = is_listed-un_prefix names p a.1 in rw (equal_bytes-un_prefix n p a.0, ih) refl

  -- A listing that succeeds names exactly the objects of the store whose path has the given prefix,
  -- for every prefix of the store.
  pub list-content :
      (o : b.Objects) (under p : Bytes) (ps : List Bytes)
      → list_objects b prefix o under ≡ some ps
      → is_listed p ps ≡ (has_prefix p under && is_some (stored o p))
  unfolding list_objects full_path
  list-content o under p ps h =
      let (names, all, eq) = list_names-all (b.objects o (full_path b prefix under)) ps h in
      let listed = λ (n : Bytes). b.objects-content o (full_path b prefix under) n names all in
      ap (is_listed p) eq
      ∙ is_listed-un_prefix names p (
          is_listed-All names
            (λ n i. has_prefix-longer n prefix under (ground (arith, sym (listed n) ∙ i))))
      ∙ listed (full_path b prefix p)
      ∙ ap (λ c. c && is_some (stored o p)) (has_prefix-common prefix p under)

module _ (b : Bucket) (prefix : Bytes) where
  -- the creation time of `Attrs`
  unfoldable pub created_at : b.Objects → Bytes → Option ℕ
  created_at o p = elim (attrs_of b prefix o p) [ none ↦ none | some a ↦ some a.created ]

  pub created_at-created :
      (o : b.Objects) (p : Bytes) (t : ℕ)
      → created_at o p ≡ some t
      → b.created o (full_path b prefix p) ≡ t
  unfolding created_at attrs_of
  created_at-created o p t h = grind (arith, b.attrs-created o (full_path b prefix p))

-- the store of a bucket
abbrev pub gcs : Bucket → Bytes → Store
gcs b prefix = record {
  Objects = b.Objects;
  content = stored b prefix;
  put = put b prefix;
  get = get b prefix;
  delete = delete_object b prefix;
  list = list_objects b prefix;
  created_at = created_at b prefix;
  created = λ o p. b.created o (full_path b prefix p);
  put-stored = put-stored b prefix;
  put-other = put-other b prefix;
  delete-gone = delete-gone b prefix;
  delete-other = delete-other b prefix;
  created_at-created = created_at-created b prefix;
  delete-created = delete-created b prefix;
  get-found = get-found b prefix;
  get-missing = get-missing b prefix;
  list-content = list-content b prefix;
}
