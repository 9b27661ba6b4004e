-- ===== src/Objstore/Filepath.antt =====
-- What pkg/objstore/local/local.go uses of `path/filepath` on Unix: `Clean` and `Join`, by the rules
-- of their documentation.
pub mod Names
use cloudpebble.Base.{ℕ, Bool, true, false, ◌||◌, List, [], ◌∷◌, ◌++◌, ◌==◌, if◌then◌else◌}
use cloudpebble.Base.Order.{Bytes, equal_bytes}
use cloudpebble.Wal.Paths.{slash}

abbrev pub dot : Bytes
dot = b'.' ∷ []

abbrev pub dot_dot : Bytes
dot_dot = b'.' ∷ b'.' ∷ []

-- a byte before the first part
unfoldable pub before_first : ℕ → List Bytes → List Bytes
before_first c [] = (c ∷ []) ∷ []
before_first c (p ∷ ps) = (c ∷ p) ∷ ps

-- what stands between the slashes of a path
unfoldable pub parts : Bytes → List Bytes
unfolding before_first
parts [] = [] ∷ []
parts (c ∷ cs) = let rest = parts cs in if c == slash then [] ∷ rest else before_first c rest

unfoldable pub join_parts : List Bytes → Bytes
join_parts [] = []
join_parts (p ∷ []) = p
join_parts (p ∷ q ∷ ps) = p ++ (slash ∷ join_parts (q ∷ ps))

unfoldable pub is_rooted : Bytes → Bool
is_rooted [] = false
is_rooted (c ∷ cs) = c == slash

-- a part that `Clean` leaves out, which "." and an empty part are
unfoldable pub is_void : Bytes → Bool
is_void p = equal_bytes p [] || equal_bytes p dot

-- `Clean` of the parts that are left, after the clean parts so far, the last one first
unfoldable pub clean_parts : Bool → List Bytes → List Bytes → List Bytes
clean_parts rooted [] done = done
clean_parts rooted (p ∷ ps) done = elim (is_void p) [
  | true ↦ clean_parts rooted ps done
  | false ↦ elim (equal_bytes p dot_dot) [
    | false ↦ clean_parts rooted ps (p ∷ done)
    | true ↦ elim done [
      | [] ↦ if rooted then clean_parts rooted ps [] else clean_parts rooted ps (dot_dot ∷ [])
      | q ∷ qs ↦
          if equal_bytes q dot_dot
          then clean_parts rooted ps (p ∷ q ∷ qs)
          else clean_parts rooted ps qs
    ]
  ]
]

unfoldable pub reversed : List Bytes → List Bytes → List Bytes
reversed [] qs = qs
reversed (p ∷ ps) qs = reversed ps (p ∷ qs)

unfoldable pub render : Bool → List Bytes → Bytes
render true ps = slash ∷ join_parts ps
render false [] = dot
render false (p ∷ ps) = join_parts (p ∷ ps)

-- `filepath.Clean`
unfoldable pub clean : Bytes → Bytes
clean p = render (is_rooted p) (reversed (clean_parts (is_rooted p) (parts p) []) [])

-- `filepath.Join` of two
unfoldable pub join : Bytes → Bytes → Bytes
join [] [] = []
join [] (c ∷ cs) = clean (c ∷ cs)
join (r ∷ rs) p = clean ((r ∷ rs) ++ (slash ∷ p))

unfoldable pub without_empty : List Bytes → List Bytes
without_empty [] = []
without_empty ([] ∷ ps) = without_empty ps
without_empty ((c ∷ p) ∷ ps) = (c ∷ p) ∷ without_empty ps

-- `path.Join`, and on Unix `filepath.Join`, of any number of parts
unfoldable pub join_all : List Bytes → Bytes
unfolding without_empty
join_all ps = elim (without_empty ps) [ [] ↦ [] | q ∷ qs ↦ clean (join_parts (q ∷ qs)) ]

-- what comes up to the last slash, `up` being what is up to the last one so far, and `last` after it
unfoldable pub before_last : Bytes → Bytes → Bytes → Bytes
before_last up last [] = up
before_last up last (c ∷ cs) =
    if c == slash
    then before_last (up ++ last ++ slash ∷ []) [] cs
    else before_last up (last ++ c ∷ []) cs

-- `filepath.Dir`
unfoldable pub dir_of : Bytes → Bytes
dir_of p = clean (before_last [] [] p)
