-- ===== src/Objstore/Memory.antt =====
-- A store that keeps its objects in a list and fails for paths that it is told to refuse: the laws of
-- the interface can hold, with errors and without.
use Prim.Native.String.{String}
use mathlib.Core.Option.{some-injective}
use cloudpebble.Base.{
  Bool, false, not, ◌&&◌, Option, none, some, List, [], ◌∷◌, ◌≡◌, refl, ◌∙◌, sym, ap, arith,
  if◌then◌else◌, Bool-cases, inl, inr,
}
use cloudpebble.Base.Order.{Bytes, equal_bytes, equal_bytes_iff, equal_bytes_refl, has_prefix}
use cloudpebble.Pebble.{Entries, find}
use cloudpebble.Pebble.Table.{insert, keep, find-insert, find-keep}
use cloudpebble.Objstore.{Store, Fetched, found, missing, is_listed, is_some}

unfoldable pub keys : Bytes → Entries → List Bytes
keys prefix [] = []
keys prefix ((k, v) ∷ m) = if has_prefix k prefix then k ∷ keys prefix m else keys prefix m

unfoldable pub fetch : Entries → Bytes → Fetched
fetch o p = elim (find p o) [ none ↦ missing | some d ↦ found d ]

is_listed-keys :
    (o : Entries) (prefix p : Bytes)
    → is_listed p (keys prefix o) ≡ (has_prefix p prefix && is_some (find p o))
unfolding keys is_listed find
is_listed-keys [] prefix p = ground arith
is_listed-keys ((k, v) ∷ o) prefix p =
    let ih = is_listed-keys o prefix p in
    elim (Bool-cases (equal_bytes p k)) [
      | inl e ↦ elim (Bool-cases (has_prefix p prefix)) [
        | inl h ↦
            rw (← (equal_bytes_iff p k).0 e, equal_bytes_refl p, h)
              (rw (equal_bytes_refl p, is_listed) refl)
        | inr h ↦ rw (← (equal_bytes_iff p k).0 e, equal_bytes_refl p, h) (ih ∙ rw h refl)
      ]
      | inr e ↦ elim (Bool-cases (has_prefix k prefix)) [
        | inl h ↦ rw (e, h) (rw (e, is_listed) ih)
        | inr h ↦ rw (e, h) ih
      ]
    ]

-- `refuses` says which paths cannot be written or deleted.
module _ (refuses : Bytes → Bool) where
  unfoldable pub write : Entries → Bytes → Bytes → Entries × Option String
  write o p d = if refuses p then (o, some "refused") else (insert p d o, none)

  unfoldable pub remove : Entries → Bytes → Entries × Option String
  remove o p =
      if refuses p then (o, some "refused") else (keep (λ q. not (equal_bytes q p)) o, none)

  pub write-stored :
      (o : Entries) (p d : Bytes) → (write o p d).1 ≡ none → find p (write o p d).0 ≡ some d
  unfolding write
  write-stored o p d h = ground (arith, find-insert p p d o, equal_bytes_refl p)

  pub write-other :
      (o : Entries) (p d q : Bytes) → equal_bytes q p ≡ false → find q (write o p d).0 ≡ find q o
  unfolding write
  write-other o p d q h = ground (arith, find-insert p q d o)

  pub remove-gone : (o : Entries) (p : Bytes) → (remove o p).1 ≡ none → find p (remove o p).0 ≡ none
  unfolding remove
  remove-gone o p h = ground (arith, find-keep (λ q. not (equal_bytes q p)) p o, equal_bytes_refl p)

  pub remove-other :
      (o : Entries) (p q : Bytes) → equal_bytes q p ≡ false → find q (remove o p).0 ≡ find q o
  unfolding remove
  remove-other o p q h = ground (arith, find-keep (λ q. not (equal_bytes q p)) q o)

pub fetch-found : (o : Entries) (p d : Bytes) → fetch o p ≡ found d → find p o ≡ some d
unfolding fetch
fetch-found o p d h = ground arith

pub fetch-missing : (o : Entries) (p : Bytes) → fetch o p ≡ missing → find p o ≡ none
unfolding fetch
fetch-missing o p h = ground arith

pub list-keys :
    (o : Entries) (prefix p : Bytes) (ps : List Bytes)
    → some (keys prefix o) ≡ some ps
    → is_listed p ps ≡ (has_prefix p prefix && is_some (find p o))
list-keys o prefix p ps h =
    ap (is_listed p) (sym (some-injective _ _ h)) ∙ is_listed-keys o prefix p

abbrev pub memory : (Bytes → Bool) → Store
memory refuses = record {
  Objects = Entries;
  content = λ o p. find p o;
  put = write refuses;
  get = fetch;
  delete = remove refuses;
  list = λ o prefix. some (keys prefix o);
  created_at = λ o p. some 0;
  created = λ o p. 0;
  put-stored = write-stored refuses;
  put-other = write-other refuses;
  delete-gone = remove-gone refuses;
  delete-other = remove-other refuses;
  created_at-created = λ o p t h. some-injective _ _ h;
  delete-created = λ o p q h. refl;
  get-found = fetch-found;
  get-missing = fetch-missing;
  list-content = list-keys;
}
