-- ===== src/Objstore/Local/Paths.antt =====
-- pkg/objstore/local/local.go: the files of a store. `path` is that of an absolute root other than "/",
-- but for the last theorem.
use cloudpebble.Base.{
  true, false, none, some, List, [], ◌∷◌, ◌++◌, ◌≡◌, ◌≢◌, refl, sym, ◌∙◌, ap, subst, arith, All,
  All-append, Bool-cases, inl, inr, append_assoc, append-nil,
}
use mathlib.Core.Option.{some-injective}
use cloudpebble.Base.Order.{Bytes, equal_bytes, equal_bytes_iff, has_prefix, has_prefix-append}
use cloudpebble.Wal.Paths.{slash}
use cloudpebble.Engine.{IsName}
use cloudpebble.Objstore.Filepath.{
  dot, parts, join_parts, clean, join, is_rooted, is_void, reversed, clean_parts, render,
}
use cloudpebble.Objstore.Filepath.Names.{
  IsProper, clean-proper, clean-IsProper, join_parts-append, names_below, first_name,
  parts-join_parts, All-IsName, reversed-proper, parts-append,
}
use cloudpebble.Objstore.Local.{path}

-- an absolute path of names
abbrev pub absolute : List Bytes → Bytes
absolute ps = slash ∷ join_parts ps

All-right {ℓ} : (P : Bytes → Type ℓ) (ps qs : List Bytes) → All P (ps ++ qs) → All P qs
All-right P [] qs h = h
All-right P (p ∷ ps) qs h = All-right P ps qs h.1

-- what the guard of `path` does
path-escapes :
    (root p : Bytes)
    → has_prefix (join root p) (clean root ++ slash ∷ []) ≡ false
    → equal_bytes (join root p) (clean root) ≡ false
    → path root p ≡ none
unfolding path
path-escapes root p h g = rw (h, g) refl

path-below :
    (root p : Bytes)
    → has_prefix (join root p) (clean root ++ slash ∷ []) ≡ true
    → path root p ≡ some (join root p)
unfolding path
path-below root p h = rw h refl

path-root :
    (root p : Bytes)
    → has_prefix (join root p) (clean root ++ slash ∷ []) ≡ false
    → equal_bytes (join root p) (clean root) ≡ true
    → path root p ≡ some (join root p)
unfolding path
path-root root p h g = rw (h, g) refl

module _ (r : Bytes) (rs : List Bytes) (proper : All IsProper (r ∷ rs)) where
  join-proper :
      (p : Bytes) (ps : List Bytes)
      → All IsProper (p ∷ ps)
      → join (absolute (r ∷ rs)) (join_parts (p ∷ ps))
        ≡ absolute (r ∷ rs) ++ (slash ∷ join_parts (p ∷ ps))
  unfolding join
  join-proper p ps h =
      let both = ap (λ x. slash ∷ x) (join_parts-append r rs p ps) in
      ap clean both
      ∙ clean-proper r (rs ++ p ∷ ps) (All-append IsProper (r ∷ rs) (p ∷ ps) proper h)
      ∙ sym both

  -- A path of proper names is the file of these names below the root.
  pub path-proper :
      (p : Bytes) (ps : List Bytes)
      → All IsProper (p ∷ ps)
      → path (absolute (r ∷ rs)) (join_parts (p ∷ ps))
        ≡ some (absolute (r ∷ rs) ++ (slash ∷ join_parts (p ∷ ps)))
  path-proper p ps h =
      let full = join-proper p ps h in
      let base = clean-proper r rs proper in
      path-below _ _ (
        ap (λ b. has_prefix (join (absolute (r ∷ rs)) (join_parts (p ∷ ps))) (b ++ slash ∷ [])) base
        ∙ ap (λ f. has_prefix f (absolute (r ∷ rs) ++ slash ∷ []))
            (full ∙ sym (append_assoc (absolute (r ∷ rs)) (slash ∷ []) _))
        ∙ has_prefix-append (absolute (r ∷ rs) ++ slash ∷ []) (join_parts (p ∷ ps)))
      ∙ ap some full

  -- Whatever path is asked for, `path` gives an error, or the root followed by proper names: no file
  -- outside of the root, and none that "..", "." or an empty name is a part of.
  pub path-inside :
      (p full : Bytes)
      → path (absolute (r ∷ rs)) p ≡ some full
      → (qs : List Bytes) × All IsProper qs × (full ≡ absolute ((r ∷ rs) ++ qs))
  unfolding has_prefix is_rooted join
  path-inside p full h =
      let root = absolute (r ∷ rs) in
      let base = clean-proper r rs proper in
      let (ns, good, eq) = clean-IsProper (root ++ (slash ∷ p)) refl in
      elim (Bool-cases (has_prefix (join root p) (clean root ++ slash ∷ []))) [
        | inl below ↦
            let starts =
              ap (λ f. has_prefix f (root ++ slash ∷ [])) (sym eq)
              ∙ ap (λ b. has_prefix (join root p) (b ++ slash ∷ [])) (sym base)
              ∙ below in
            let (qs, split) =
              names_below r rs ns (All-IsName (r ∷ rs) proper) (All-IsName ns good) starts in
            (
              qs,
              All-right IsProper (r ∷ rs) qs (subst (All IsProper) split good),
              sym (some-injective _ _ (sym (path-below root p below) ∙ h)) ∙ eq ∙ ap absolute split,
            )
        | inr b ↦ elim (Bool-cases (equal_bytes (join root p) (clean root))) [
          | inr e ↦ let no = sym (path-escapes root p b e) ∙ h in cc
          | inl e ↦ (
            [],
            tt,
            sym (some-injective _ _ (sym (path-root root p b e) ∙ h))
                ∙ (equal_bytes_iff _ _).0 e
                ∙ base
                ∙ ap absolute (sym (append-nil (r ∷ rs))),
          )
        ]
      ]

first : List Bytes → Bytes
first [] = []
first (p ∷ ps) = p

dot-IsName : IsName dot
dot-IsName = (λ e. omega (arith, e), tt)

dot-ne : (p : Bytes) → IsProper p → p ≢ dot
unfolding is_void equal_bytes
dot-ne p h e = let void = sym h.1 ∙ ap is_void e in cc

clean-relative :
    (p : Bytes) (ps : List Bytes)
    → All IsProper (p ∷ ps)
    → join dot (join_parts (p ∷ ps)) ≡ join_parts (p ∷ ps)
unfolding join clean is_rooted clean_parts is_void equal_bytes render
clean-relative p ps h =
    ap (λ qs. render false (reversed (clean_parts false qs []) []))
      (parts-append dot (join_parts (p ∷ ps)) dot-IsName
        ∙ ap (λ qs. dot ∷ qs) (parts-join_parts p ps (All-IsName (p ∷ ps) h)))
    ∙ ap (render false) (reversed-proper false (p ∷ ps) h)

-- The root "." refuses every path of proper names.
pub path-dot :
    (p : Bytes) (ps : List Bytes) → All IsProper (p ∷ ps) → path dot (join_parts (p ∷ ps)) ≡ none
unfolding clean is_rooted clean_parts is_void equal_bytes render reversed parts first
path-dot p ps h =
    let names = All-IsName (p ∷ ps) h in
    let full = clean-relative p ps h in
    path-escapes dot (join_parts (p ∷ ps))
      (elim (Bool-cases (has_prefix (join dot (join_parts (p ∷ ps))) (dot ++ slash ∷ []))) [
        | inr e ↦ e
        | inl e ↦ absurd (
            dot-ne p h.0 (
              sym
                (first_name dot p [] ps dot-IsName names.0
                  (ap (λ f. has_prefix f (dot ++ slash ∷ [])) (sym full) ∙ e)).0))
      ])
      (elim (Bool-cases (equal_bytes (join dot (join_parts (p ∷ ps))) dot)) [
        | inr e ↦ e
        | inl e ↦ absurd (
            dot-ne p h.0 (
              ap first (
                sym (parts-join_parts p ps names)
                ∙ ap parts (sym full ∙ (equal_bytes_iff _ _).0 e))))
      ])
