-- ===== src/Objstore.antt =====
-- pkg/objstore/store.go: the interface of an object store. The state of a store is passed on, and the
-- state may also decide which calls fail; the comments of the interface are laws. `Objstore.Memory`
-- is a store that keeps its objects in a list.
pub mod Memory
pub mod Gcs
pub mod Filepath
pub mod Local
use Prim.Native.String.{String}
use cloudpebble.Base.{
  ℕ, Bool, true, false, ◌&&◌, Option, none, some, List, [], ◌∷◌, ◌≡◌, if◌then◌else◌,
}
use cloudpebble.Base.Order.{Bytes, equal_bytes, has_prefix}

-- What `Get` answers: the content, `ErrNotFound`, or another error.
pub data Fetched : Type 0 where
  found : Bytes → Fetched
  missing : Fetched
  failed : String → Fetched

-- An `io.Reader`: what it gives, and the error after that, if it is not the end of the file.
pub record Reader : Type 0 where
  pub given : Bytes
  pub fault : Option String

unfoldable pub is_listed : Bytes → List Bytes → Bool
is_listed p [] = false
is_listed p (q ∷ qs) = if equal_bytes p q then true else is_listed p qs

abbrev pub is_some : Option Bytes → Bool
is_some none = false
is_some (some d) = true

pub record Store : Type 1 where
  pub Objects : Type 0
  -- the content of the object at a path, if there is one
  pub content : Objects → Bytes → Option Bytes
  pub put : Objects → Bytes → Bytes → Objects × Option String
  pub get : Objects → Bytes → Fetched
  pub delete : Objects → Bytes → Objects × Option String
  -- `List`; `none` is an error
  pub list : Objects → Bytes → Option (List Bytes)
  -- the creation time that `Attrs` gives; `none` is an error
  pub created_at : Objects → Bytes → Option ℕ
  -- the time when the object at a path was created; any number where there is none
  pub created : Objects → Bytes → ℕ
  pub put-stored :
      (o : Objects) (p d : Bytes) → (put o p d).1 ≡ none → content (put o p d).0 p ≡ some d
  pub put-other :
      (o : Objects) (p d q : Bytes)
      → equal_bytes q p ≡ false
      → content (put o p d).0 q ≡ content o q
  pub delete-gone :
      (o : Objects) (p : Bytes) → (delete o p).1 ≡ none → content (delete o p).0 p ≡ none
  pub delete-other :
      (o : Objects) (p q : Bytes) → equal_bytes q p ≡ false → content (delete o p).0 q ≡ content o q
  pub created_at-created :
      (o : Objects) (p : Bytes) (t : ℕ) → created_at o p ≡ some t → created o p ≡ t
  pub delete-created :
      (o : Objects) (p q : Bytes) → equal_bytes q p ≡ false → created (delete o p).0 q ≡ created o q
  pub get-found : (o : Objects) (p d : Bytes) → get o p ≡ found d → content o p ≡ some d
  pub get-missing : (o : Objects) (p : Bytes) → get o p ≡ missing → content o p ≡ none
  pub list-content :
      (o : Objects) (prefix p : Bytes) (ps : List Bytes)
      → list o prefix ≡ some ps
      → is_listed p ps ≡ (has_prefix p prefix && is_some (content o p))
