-- ===== src/Bigtable/Mutate/Rows.antt =====
-- pkg/bigtable/mutate.go: the statuses that `MutateRows` sends.
use Prim.Native.String.{String}
use cloudpebble.Base.{
  ℕ, ◌+◌, ◌<◌, Bool, true, false, Option, none, some, List, [], ◌∷◌, ltb, ◌==◌, if◌then◌else◌,
  length, ◌≡◌, ◌≢◌, refl, arith, ◌++◌,
}
use cloudpebble.Pebble.{Batch, Pebble}
use cloudpebble.Bigtable.Status.{unknown, Status, error, ok}
use cloudpebble.Bigtable.Mutate.{
  Entry, EntryStatus, build_batch, in_err_set, ok_entries, failed_entries, error_entries,
  mutate_rows, apply_mutations_to_batch,
}

-- how many of the statuses are for entry `i`
unfoldable pub answers : ℕ → List EntryStatus → ℕ
answers i [] = 0
answers i (s ∷ ss) = (if i == s.index then 1 else 0) + answers i ss

answers-append : (i : ℕ) (a b : List EntryStatus) → answers i (a ++ b) ≡ answers i a + answers i b
unfolding answers
answers-append i [] b = omega arith
answers-append i (s ∷ a) b = omega (arith, answers-append i a b)

-- whether `i` is one of the `n` indices from `j` on
abbrev pub is_index : ℕ → ℕ → ℕ → Bool
is_index i j n = if ltb i j then false else ltb i (j + n)

answers-failed_entries :
    (i j : ℕ) (s : Status) (entries : List Entry)
    → answers i (failed_entries s j entries) ≡ (if is_index i j (length entries) then 1 else 0)
unfolding answers failed_entries
answers-failed_entries i j s [] = ground arith
answers-failed_entries i j s (e ∷ es) = ground (arith, answers-failed_entries i (j + 1) s es)

answers-ok_entries :
    (i j : ℕ) (errors : List (ℕ × Status)) (entries : List Entry)
    → answers i (ok_entries errors j entries)
      ≡ (if is_index i j (length entries) then (if in_err_set i errors then 0 else 1) else 0)
unfolding answers ok_entries
answers-ok_entries i j errors [] = ground arith
answers-ok_entries i j errors (e ∷ es) = ground (arith, answers-ok_entries i (j + 1) errors es)

-- The errors of the first loop are for entries in the request, each at most once.
in_err_set-is_index :
    (i j : ℕ) (batch : Batch) (entries : List Entry) (clock : ℕ → ℕ → ℕ)
    → in_err_set i (build_batch batch j entries clock).1 ≡ true
    → is_index i j (length entries) ≡ true
unfolding build_batch in_err_set
in_err_set-is_index i j batch [] clock h = cc
in_err_set-is_index i j batch (e ∷ es) clock h = ground (
  arith,
  in_err_set-is_index i (j + 1) (apply_mutations_to_batch batch e.row_key e.mutations (clock j)).0
      es clock,
)

answers-error_entries :
    (i j : ℕ) (batch : Batch) (entries : List Entry) (clock : ℕ → ℕ → ℕ)
    → answers i (error_entries (build_batch batch j entries clock).1)
      ≡ (if in_err_set i (build_batch batch j entries clock).1 then 1 else 0)
unfolding answers error_entries build_batch in_err_set
answers-error_entries i j batch [] clock = refl
answers-error_entries i j batch (e ∷ es) clock =
    let batch' = (apply_mutations_to_batch batch e.row_key e.mutations (clock j)).0 in
    ground (
      arith,
      in_err_set-is_index i (j + 1) batch' es clock,
      answers-error_entries i (j + 1) batch' es clock,
    )

abbrev failure : Option String → Status
failure none = error unknown ""
failure (some cause) = error unknown cause

in_err_set-nil : (i : ℕ) → in_err_set i [] ≡ false
unfolding in_err_set
in_err_set-nil i = refl

-- the status code sent for entry `i`, if one is
unfoldable pub code_of : ℕ → List EntryStatus → Option ℕ
code_of i [] = none
code_of i (s ∷ ss) = if i == s.index then some s.code else code_of i ss

code_of-append-ok :
    (i j : ℕ) (errors all : List (ℕ × Status)) (entries : List Entry)
    → in_err_set i all ≡ false
    → in_err_set i errors ≡ false
    → is_index i j (length entries) ≡ true
    → code_of i (error_entries errors ++ ok_entries all j entries) ≡ some 0
unfolding code_of error_entries in_err_set ok_entries
code_of-append-ok i j [] all [] h k m = ground arith
code_of-append-ok i j [] all (e ∷ es) h k m = ground (arith, code_of-append-ok i (j + 1) [] all es)
code_of-append-ok i j ((n, s) ∷ errors) all es h k m =
    ground (arith, code_of-append-ok i j errors all es)

module _ (pebble : Pebble) (opening : Option String) (commit : Batch → Option String) where
  -- Whatever happens in a call of `MutateRows` that sends statuses, every entry is answered exactly
  -- once, and nothing else is.
  pub answers-mutate_rows :
      (db db' : pebble.DB) (entries : List Entry) (clock : ℕ → ℕ → ℕ) (ss : List EntryStatus)
      (i : ℕ)
      → mutate_rows pebble opening commit db entries clock ≡ (ok ss, db')
      → answers i ss ≡ (if ltb i (length entries) then 1 else 0)
  unfolding mutate_rows
  answers-mutate_rows db db' [] clock ss i h = cc
  answers-mutate_rows db db' (e ∷ es) clock ss i h = ground (
    arith,
    answers-ok_entries i 0 (build_batch [] 0 (e ∷ es) clock).1 (e ∷ es),
    answers-ok_entries i 0 [] (e ∷ es),
    answers-error_entries i 0 [] (e ∷ es) clock,
    answers-append i (error_entries (build_batch [] 0 (e ∷ es) clock).1)
        (ok_entries (build_batch [] 0 (e ∷ es) clock).1 0 (e ∷ es)),
    in_err_set-is_index i 0 [] (e ∷ es) clock,
    in_err_set-nil i,
    answers-failed_entries i 0 (failure (commit (build_batch [] 0 (e ∷ es) clock).0)) (e ∷ es),
  )

  -- When the mutations of one entry are refused, nothing is written, and an entry whose own
  -- mutations are fine is told OK all the same.
  pub mutate_rows_unwritten :
      (db : pebble.DB) (entries : List Entry) (clock : ℕ → ℕ → ℕ) (i : ℕ)
      → opening ≡ none
      → (build_batch [] 0 entries clock).1 ≢ []
      → i < length entries
      → in_err_set i (build_batch [] 0 entries clock).1 ≡ false
      → (ss : List EntryStatus) × (mutate_rows pebble opening commit db entries clock ≡ (ok ss, db))
        × (code_of i ss ≡ some 0)
  unfolding mutate_rows
  mutate_rows_unwritten db [] clock i o h lt k = absurd (h (unfold build_batch in refl))
  mutate_rows_unwritten db (e ∷ es) clock i o h lt k =
      let errors = (build_batch [] 0 (e ∷ es) clock).1 in
      (
        error_entries errors ++ ok_entries errors 0 (e ∷ es),
        ground arith,
        code_of-append-ok i 0 errors errors (e ∷ es) k k (ground arith),
      )
