-- ===== src/Objstore/Local/Stored.antt =====
-- pkg/objstore/local/local.go: what `Put`, `Delete` and `Get` do with objects whose paths are proper names,
-- in a root that is an absolute path of such names.
use Prim.Native.String.{String}
use cloudpebble.Base.{
  ℕ, length, take, arith, ==_iff, Option, none, some, List, ◌∷◌, ◌++◌, ◌≡◌, refl, sym, ◌∙◌, ap,
  subst, All, All-append, Bool-cases, Option-cases, inl, inr, if◌then◌else◌, if_true, if_false,
}
use cloudpebble.Base.Order.{Bytes, equal_bytes, equal_bytes_iff, equal_bytes-common}
use cloudpebble.Objstore.{Reader, found}
use cloudpebble.Wal.Paths.{slash}
use cloudpebble.Objstore.Filepath.{join_parts, clean, dir_of}
use cloudpebble.Objstore.Filepath.Names.{IsProper, clean-proper, join_parts-append}
use cloudpebble.Objstore.Local.{FileSystem, path, copy, put, get}
use cloudpebble.Objstore.Local.Paths.{absolute, path-proper}

-- a path of proper names
abbrev pub IsObjectPath : Bytes → Type 0
IsObjectPath x = (p : Bytes) × (ps : List Bytes) × All IsProper (p ∷ ps) × (x ≡ join_parts (p ∷ ps))

module _ (fs : FileSystem) (r : Bytes) (rs : List Bytes) (proper : All IsProper (r ∷ rs)) where
  -- the file of an object
  abbrev pub file_of : Bytes → Bytes
  file_of x = absolute (r ∷ rs) ++ (slash ∷ x)

  -- the content of an object
  abbrev pub object : fs.Files → Bytes → Option Bytes
  object f x = fs.content f (file_of x)

  path-file_of : (x : Bytes) → IsObjectPath x → path (absolute (r ∷ rs)) x ≡ some (file_of x)
  path-file_of x (p, ps, h, e) =
      subst (λ y. path (absolute (r ∷ rs)) y ≡ some (file_of y)) (sym e)
        (path-proper r rs proper p ps h)

  clean-file_of : (x : Bytes) → IsObjectPath x → clean (file_of x) ≡ file_of x
  clean-file_of x (p, ps, h, e) =
      let both = ap (λ y. slash ∷ y) (join_parts-append r rs p ps) in
      subst (λ y. clean (file_of y) ≡ file_of y) (sym e)
        (ap clean both
          ∙ clean-proper r (rs ++ p ∷ ps) (All-append IsProper (r ∷ rs) (p ∷ ps) proper h)
          ∙ sym both)

  file_of-other :
      (x y : Bytes)
      → IsObjectPath x
      → IsObjectPath y
      → equal_bytes (clean (file_of y)) (clean (file_of x)) ≡ equal_bytes y x
  unfolding equal_bytes
  file_of-other x y h g =
      ap (λ z. equal_bytes z (clean (file_of x))) (clean-file_of y g)
      ∙ ap (equal_bytes (file_of y)) (clean-file_of x h)
      ∙ equal_bytes-common (absolute (r ∷ rs)) (slash ∷ y) (slash ∷ x)

  put-file :
      (f : fs.Files) (x d : Bytes)
      → IsObjectPath x
      → (fs.mkdir_all f (dir_of (file_of x))).1 ≡ none
      → put fs (absolute (r ∷ rs)) f x d
        ≡ fs.write_file (fs.mkdir_all f (dir_of (file_of x))).0 (file_of x) d
  unfolding put
  put-file f x d h m = rw (path-file_of x h, m, put) refl

  put-refused :
      (f : fs.Files) (x d : Bytes) (cause : String)
      → IsObjectPath x
      → (fs.mkdir_all f (dir_of (file_of x))).1 ≡ some cause
      → put fs (absolute (r ∷ rs)) f x d ≡ ((fs.mkdir_all f (dir_of (file_of x))).0, some cause)
  unfolding put
  put-refused f x d cause h m = rw (path-file_of x h, m, put) refl

  -- After a `Put` without an error its object has what was put, and every other object is as it was.
  pub put-object :
      (f : fs.Files) (x y d : Bytes)
      → IsObjectPath x
      → IsObjectPath y
      → (put fs (absolute (r ∷ rs)) f x d).1 ≡ none
      → object (put fs (absolute (r ∷ rs)) f x d).0 y
        ≡ (if equal_bytes y x then some d else object f y)
  put-object f x y d h g ok =
      let made = fs.mkdir_all f (dir_of (file_of x)) in
      elim (Option-cases made.1) [
        | inr (cause, m) ↦ let no = sym (ap (λ s. s.1) (put-refused f x d cause h m)) ∙ ok in cc
        | inl m ↦
            let eq = put-file f x d h m in
            let done = sym (ap (λ s. s.1) eq) ∙ ok in
            ap (λ s. object s.0 y) eq ∙ elim (Bool-cases (equal_bytes y x)) [
              | inl e ↦
                  ap (object (fs.write_file made.0 (file_of x) d).0) ((equal_bytes_iff y x).0 e)
                  ∙ fs.write_file-stored made.0 (file_of x) d done
                  ∙ sym (if_true _ _ e)
              | inr e ↦
                  fs.write_file-other made.0 (file_of x) d (file_of y) (file_of-other x y h g ∙ e)
                  ∙ fs.mkdir_all-content f (dir_of (file_of x)) (file_of y)
                  ∙ sym (if_false _ _ e)
            ]
      ]

  -- What `Get` finds at a path is the content of its object.
  pub get-object :
      (f : fs.Files) (x d : Bytes)
      → IsObjectPath x
      → get fs (absolute (r ∷ rs)) f x ≡ found d
      → object f x ≡ some d
  unfolding get
  get-object f x d h e =
      fs.read_file-found f (file_of x) d (sym (rw (path-file_of x h, get) refl) ∙ e)

  -- A copy without an error has stored the first `size` bytes of the reader, which has that many.
  copy-stored :
      (f : fs.Files) (full : Bytes) (reader : Reader) (size : ℕ)
      → (copy fs (absolute (r ∷ rs)) f full reader size).1 ≡ none
      → (length (take size reader.given) ≡ size)
        × (fs.content (copy fs (absolute (r ∷ rs)) f full reader size).0 full
            ≡ some (take size reader.given))
  unfolding copy
  copy-stored f full reader size ok =
      let d = take size reader.given in
      ground (arith, fs.fill-stored f full d, ==_iff (length d) size, ok)
