-- ===== src/Objstore/Gcs.antt =====
-- pkg/objstore/gcs/gcs.go: the store in Google Cloud Storage. The client library is the interface
-- `Bucket`, with what its documentation says of one bucket as laws. `Gcs.Refines` shows that the store
-- keeps the laws of `Store`.
pub mod Refines
pub mod Table
use Prim.Native.String.{String}
use cloudpebble.Base.{
  ℕ, Bool, true, false, Option, none, some, List, [], ◌∷◌, ◌++◌, ◌==◌, if◌then◌else◌, length, drop,
  ◌≡◌, ◌&&◌,
}
use cloudpebble.Base.Order.{Bytes, equal_bytes, has_prefix}
use cloudpebble.Objstore.{Reader, Fetched, found, missing, failed, is_listed, is_some}
use cloudpebble.Wal.Paths.{slash}

-- an error of the client: `storage.ErrObjectNotExist`, a `googleapi.Error` with its code, or another
pub data ClientError : Type 0 where
  object_not_exist : ClientError
  api_error : ℕ → String → ClientError
  other_error : String → ClientError

-- what a reader, or `Attrs`, gives
pub data Reading (A : Type 0) : Type 0 where
  reading : A → Reading A
  unreadable : ClientError → Reading A

-- what `it.Next` gives before `iterator.Done`
pub data Next : Type 0 where
  named : Bytes → Next
  interrupted : String → Next

pub record ObjectAttrs : Type 0 where
  pub size : ℕ
  pub created : ℕ

-- the names that an iterator gives, if it is not interrupted
unfoldable pub all_names : List Next → Option (List Bytes)
all_names [] = some []
all_names (named n ∷ ns) = elim (all_names ns) [ none ↦ none | some names ↦ some (n ∷ names) ]
all_names (interrupted cause ∷ ns) = none

-- `isNotExist`
unfoldable pub is_not_exist : ClientError → Bool
is_not_exist object_not_exist = true
is_not_exist (api_error code message) = code == 404
is_not_exist (other_error message) = false

pub record Bucket : Type 1 where
  pub Objects : Type 0
  pub content : Objects → Bytes → Option Bytes
  -- the `Write` of a new writer; `Close` after a `Write` of all, and after one that failed
  pub write : Objects → Bytes → Bytes → Option String
  pub close : Objects → Bytes → Bytes → Objects × Option String
  pub close_failed : Objects → Bytes → Bytes → Objects
  -- `NewReader`, and `ReadAll` of its body
  pub new_reader : Objects → Bytes → Option ClientError
  pub read_all : Objects → Bytes → Option Bytes
  pub delete : Objects → Bytes → Objects × Option ClientError
  pub objects : Objects → Bytes → List Next
  pub attrs : Objects → Bytes → Reading ObjectAttrs
  -- the time when an object was created; any number where there is none
  pub created : Objects → Bytes → ℕ
  pub close-stored :
      (o : Objects) (n d : Bytes) → (close o n d).1 ≡ none → content (close o n d).0 n ≡ some d
  pub close-other :
      (o : Objects) (n d m : Bytes)
      → equal_bytes m n ≡ false
      → content (close o n d).0 m ≡ content o m
  pub close_failed-other :
      (o : Objects) (n d m : Bytes)
      → equal_bytes m n ≡ false
      → content (close_failed o n d) m ≡ content o m
  pub read_all-content :
      (o : Objects) (n d : Bytes)
      → new_reader o n ≡ none
      → read_all o n ≡ some d
      → content o n ≡ some d
  pub new_reader-missing :
      (o : Objects) (n : Bytes) (e : ClientError)
      → new_reader o n ≡ some e
      → is_not_exist e ≡ true
      → content o n ≡ none
  pub delete-gone :
      (o : Objects) (n : Bytes) → (delete o n).1 ≡ none → content (delete o n).0 n ≡ none
  pub delete-missing :
      (o : Objects) (n : Bytes) (e : ClientError)
      → (delete o n).1 ≡ some e
      → is_not_exist e ≡ true
      → content (delete o n).0 n ≡ none
  pub delete-other :
      (o : Objects) (n m : Bytes) → equal_bytes m n ≡ false → content (delete o n).0 m ≡ content o m
  pub attrs-created :
      (o : Objects) (n : Bytes) (a : ObjectAttrs) → attrs o n ≡ reading a → created o n ≡ a.created
  pub delete-created :
      (o : Objects) (n m : Bytes) → equal_bytes m n ≡ false → created (delete o n).0 m ≡ created o m
  pub objects-content :
      (o : Objects) (prefix n : Bytes) (names : List Bytes)
      → all_names (objects o prefix) ≡ some names
      → is_listed n names ≡ (has_prefix n prefix && is_some (content o n))

-- `strings.TrimRight(prefix, "/")`
unfoldable pub trim_slashes : Bytes → Bytes
trim_slashes [] = []
trim_slashes (c ∷ cs) =
    let rest = trim_slashes cs in
    elim rest [ [] ↦ if c == slash then [] else c ∷ [] | d ∷ ds ↦ c ∷ d ∷ ds ]

-- the prefix of a new store
unfoldable pub store_prefix : Bytes → Bytes
unfolding trim_slashes
store_prefix [] = []
store_prefix (c ∷ cs) = trim_slashes (c ∷ cs) ++ slash ∷ []

-- the store of a bucket: `prefix` is that of the new store
module _ (bucket : Bucket) (prefix : Bytes) where
  unfoldable pub full_path : Bytes → Bytes
  full_path path = prefix ++ path

  -- `strings.TrimPrefix`
  unfoldable pub un_prefix : Bytes → Bytes
  un_prefix path = if has_prefix path prefix then drop (length prefix) path else path

  unfoldable pub put : bucket.Objects → Bytes → Bytes → bucket.Objects × Option String
  put o path d = elim (bucket.write o (full_path path) d) [
    | some cause ↦ (bucket.close_failed o (full_path path) d, some cause)
    | none ↦ bucket.close o (full_path path) d
  ]

  -- `PutReader`; the client does not read the size that is set on the writer
  unfoldable pub put_reader : bucket.Objects → Bytes → Reader → bucket.Objects × Option String
  put_reader o path r = elim (bucket.write o (full_path path) r.given) [
    | some cause ↦ (bucket.close_failed o (full_path path) r.given, some cause)
    | none ↦ elim r.fault [
      | some cause ↦ (bucket.close_failed o (full_path path) r.given, some cause)
      | none ↦ bucket.close o (full_path path) r.given
    ]
  ]

  -- `GetReader`: the error, if any, with which there is no reader
  unfoldable pub get_reader : bucket.Objects → Bytes → Option String
  get_reader o path = elim (bucket.new_reader o (full_path path)) [
    | some e ↦ if is_not_exist e then some "object" else some "reading"
    | none ↦ none
  ]

  unfoldable pub get : bucket.Objects → Bytes → Fetched
  get o path = elim (bucket.new_reader o (full_path path)) [
    | some e ↦ if is_not_exist e then missing else failed "reading"
    | none ↦ elim (bucket.read_all o (full_path path)) [
      | none ↦ failed "reading body"
      | some d ↦ found d
    ]
  ]

  unfoldable pub delete_object : bucket.Objects → Bytes → bucket.Objects × Option String
  delete_object o path =
      let (o', error) = bucket.delete o (full_path path) in
      elim error [
        | none ↦ (o', none)
        | some e ↦ if is_not_exist e then (o', none) else (o', some "deleting")
      ]

  -- the loop of `List`
  unfoldable pub list_names : List Next → Option (List Bytes)
  list_names [] = some []
  list_names (named n ∷ ns) = elim (list_names ns) [
    | none ↦ none
    | some out ↦ some (un_prefix n ∷ out)
  ]
  list_names (interrupted cause ∷ ns) = none

  unfoldable pub list_objects : bucket.Objects → Bytes → Option (List Bytes)
  list_objects o path = list_names (bucket.objects o (full_path path))

  -- `Exists`; `none` is an error
  unfoldable pub exists_object : bucket.Objects → Bytes → Option Bool
  exists_object o path = elim (bucket.attrs o (full_path path)) [
    | reading a ↦ some true
    | unreadable e ↦ if is_not_exist e then some false else none
  ]

  -- `Attrs`: size and creation time
  unfoldable pub attrs_of : bucket.Objects → Bytes → Option ObjectAttrs
  attrs_of o path = elim (bucket.attrs o (full_path path)) [
    | reading a ↦ some a
    | unreadable e ↦ none
  ]
