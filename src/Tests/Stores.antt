-- ===== src/Tests/Stores.antt =====
-- The object store backends at concrete inputs.
use cloudpebble.Base.{◌&&◌, none, some, List, [], ◌∷◌, ◌++◌, ◌≡◌, refl, All, arith, if◌then◌else◌}
use cloudpebble.Base.Order.{Bytes, equal_bytes, has_prefix}
use cloudpebble.Pebble.{Entries}
use cloudpebble.Wal.Paths.{slash}
use cloudpebble.Objstore.{is_listed, is_some}
use cloudpebble.Objstore.Gcs.{list_objects, list_names, full_path, un_prefix}
use cloudpebble.Objstore.Memory.{keys}
use cloudpebble.Objstore.Gcs.Refines.{list-content, stored}
use cloudpebble.Objstore.Gcs.Table.{bucket}
use cloudpebble.Objstore.Filepath.{
  dot, join_parts, clean, is_void, render, is_rooted, join, reversed, clean_parts, parts,
}
use cloudpebble.Objstore.Filepath.Names.{IsProper}
use cloudpebble.Objstore.Local.{path, put}
use cloudpebble.Objstore.Local.Paths.{absolute, path-inside, path-dot}
use cloudpebble.Objstore.Local.Stored.{object, put-object}
use cloudpebble.Objstore.Local.Table.{files}

-- "a", "b", "c"
abbrev a : Bytes
a = b'a' ∷ []

abbrev b : Bytes
b = b'b' ∷ []

abbrev c : Bytes
c = b'c' ∷ []

a-IsProper : IsProper a
unfolding is_void equal_bytes
a-IsProper = ((λ e. omega (arith, e), tt), refl, refl)

b-IsProper : IsProper b
unfolding is_void equal_bytes
b-IsProper = ((λ e. omega (arith, e), tt), refl, refl)

-- "b/../c", below the root "/a"
abbrev around : Bytes
around = b'b' ∷ slash ∷ b'.' ∷ b'.' ∷ slash ∷ b'c' ∷ []

path-inside_example :
    (qs : List Bytes) × All IsProper qs
    × (slash ∷ b'a' ∷ slash ∷ b'c' ∷ [] ≡ absolute ((a ∷ []) ++ qs))
unfolding path clean has_prefix render is_rooted join join_parts reversed clean_parts parts is_void
    equal_bytes
path-inside_example =
    path-inside a [] (a-IsProper, tt) around (slash ∷ b'a' ∷ slash ∷ b'c' ∷ []) refl

path-dot_example : path dot (join_parts (a ∷ b ∷ [])) ≡ none
path-dot_example = path-dot a (b ∷ []) (a-IsProper, (b-IsProper, tt))

-- the file "/a/b" with one byte
abbrev one_file : Entries
one_file = (absolute (a ∷ b ∷ []), 1 ∷ []) ∷ []

put-object_example :
    object files a [] (a-IsProper, tt) (put files (absolute (a ∷ [])) one_file b (2 ∷ [])).0 b
    ≡ (if equal_bytes b b then some (2 ∷ []) else some (1 ∷ []))
unfolding put path clean has_prefix render is_rooted join join_parts reversed clean_parts parts
    is_void equal_bytes
put-object_example =
    put-object files a [] (a-IsProper, tt) one_file b b (2 ∷ []) (b, [], (b-IsProper, tt), refl)
      (b, [], (b-IsProper, tt), refl) refl

-- an object below the prefix "a/" of a bucket, and one outside of it
abbrev two_objects : Entries
two_objects = (a ++ slash ∷ b, 1 ∷ []) ∷ (c, 2 ∷ []) ∷ []

list-content_example :
    is_listed b (b ∷ [])
    ≡ (has_prefix b [] && is_some (stored bucket (a ++ slash ∷ []) two_objects b))
unfolding list_objects list_names keys has_prefix full_path un_prefix
list-content_example = list-content bucket (a ++ slash ∷ []) two_objects [] b (b ∷ []) refl
