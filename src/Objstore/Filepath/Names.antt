-- ===== src/Objstore/Filepath/Names.antt =====
-- Clean paths are names between slashes.
use cloudpebble.Base.{
  ℕ, Bool, true, false, List, [], ◌∷◌, ◌++◌, ◌==◌, ◌≡◌, refl, sym, ◌∙◌, ap, subst, arith, All,
  Bool-cases, inl, inr, append-nil, append_assoc, if_true, if_false,
}
use cloudpebble.Base.Order.{Bytes, equal_bytes, has_prefix, has_prefix-nil}
use cloudpebble.Wal.Paths.{slash}
use cloudpebble.Engine.{IsName}
use cloudpebble.Objstore.Filepath.{
  before_first, dot_dot, parts, join_parts, is_rooted, is_void, clean_parts, reversed, render,
  clean,
}

-- a name of a file or a directory: no slash in it, and it is not empty, "." or ".."
abbrev pub IsProper : Bytes → Type 0
IsProper p = IsName p × (is_void p ≡ false) × (equal_bytes p dot_dot ≡ false)

not_slash : (c : ℕ) (n : Bytes) → IsName (c ∷ n) → c == slash ≡ false
not_slash c n h = ground (arith, h.0)

parts-name : (n : Bytes) → IsName n → parts n ≡ n ∷ []
unfolding parts before_first
parts-name [] h = refl
parts-name (c ∷ n) h = if_false _ _ (not_slash c n h) ∙ ap (before_first c) (parts-name n h.1)

pub parts-append : (n rest : Bytes) → IsName n → parts (n ++ (slash ∷ rest)) ≡ n ∷ parts rest
unfolding parts before_first
parts-append [] rest h = refl
parts-append (c ∷ n) rest h =
    if_false _ _ (not_slash c n h) ∙ ap (before_first c) (parts-append n rest h.1)

-- The parts of names joined by slashes are the names.
pub parts-join_parts :
    (p : Bytes) (ps : List Bytes) → All IsName (p ∷ ps) → parts (join_parts (p ∷ ps)) ≡ p ∷ ps
unfolding join_parts
parts-join_parts p [] h = parts-name p h.0
parts-join_parts p (q ∷ ps) h =
    parts-append p (join_parts (q ∷ ps)) h.0 ∙ ap (λ qs. p ∷ qs) (parts-join_parts q ps h.1)

before_first-IsName :
    (c : ℕ) (ps : List Bytes) → c == slash ≡ false → All IsName ps → All IsName (before_first c ps)
unfolding before_first
before_first-IsName c [] n h = ground arith
before_first-IsName c (p ∷ ps) n h = ground arith

parts-IsName : (p : Bytes) → All IsName (parts p)
unfolding parts
parts-IsName [] = (tt, tt)
parts-IsName (c ∷ p) = elim (Bool-cases (c == slash)) [
  | inl e ↦ subst (All IsName) (sym (if_true _ _ e)) (tt, parts-IsName p)
  | inr e ↦
      subst (All IsName) (sym (if_false _ _ e)) (before_first-IsName c (parts p) e (parts-IsName p))
]

pub clean_parts-proper :
    (rooted : Bool) (ps done : List Bytes)
    → All IsProper ps
    → clean_parts rooted ps done ≡ reversed ps done
unfolding clean_parts reversed
clean_parts-proper rooted [] done h = refl
clean_parts-proper rooted (p ∷ ps) done h =
    rw (h.0.1, h.0.2, clean_parts) (clean_parts-proper rooted ps (p ∷ done) h.1)

reversed-reversed : (ps qs rs : List Bytes) → reversed (reversed ps qs) rs ≡ reversed qs (ps ++ rs)
unfolding reversed
reversed-reversed [] qs rs = refl
reversed-reversed (p ∷ ps) qs rs = reversed-reversed ps (p ∷ qs) rs

reversed-All {ℓ} :
    (P : Bytes → Type ℓ) (ps qs : List Bytes) → All P ps → All P qs → All P (reversed ps qs)
unfolding reversed
reversed-All P [] qs h g = g
reversed-All P (p ∷ ps) qs h g = reversed-All P ps (p ∷ qs) h.1 (h.0, g)

without_first : List Bytes → List Bytes
without_first [] = []
without_first (p ∷ ps) = ps

without_first-All : (ps : List Bytes) → All IsProper ps → All IsProper (without_first ps)
unfolding without_first
without_first-All [] h = tt
without_first-All (p ∷ ps) h = h.1

-- ".." takes the last name away.
clean_parts-up :
    (p : Bytes) (ps done : List Bytes)
    → is_void p ≡ false
    → equal_bytes p dot_dot ≡ true
    → All IsProper done
    → clean_parts true (p ∷ ps) done ≡ clean_parts true ps (without_first done)
unfolding without_first clean_parts
clean_parts-up p ps [] v d h = rw (v, d, clean_parts) refl
clean_parts-up p ps (q ∷ qs) v d h = rw (v, d, h.0.2, clean_parts) refl

-- What is left of the parts of a rooted path are proper names.
clean_parts-IsProper :
    (ps done : List Bytes)
    → All IsName ps
    → All IsProper done
    → All IsProper (clean_parts true ps done)
unfolding clean_parts
clean_parts-IsProper [] done h g = g
clean_parts-IsProper (p ∷ ps) done h g = elim (Bool-cases (is_void p)) [
  | inl v ↦ rw (v, clean_parts) (clean_parts-IsProper ps done h.1 g)
  | inr v ↦ elim (Bool-cases (equal_bytes p dot_dot)) [
    | inr d ↦ rw (v, d, clean_parts) (clean_parts-IsProper ps (p ∷ done) h.1 ((h.0, v, d), g))
    | inl d ↦
        subst (All IsProper) (sym (clean_parts-up p ps done v d g))
          (clean_parts-IsProper ps (without_first done) h.1 (without_first-All done g))
  ]
]

clean_rooted :
    (p : Bytes)
    → is_rooted p ≡ true
    → clean p ≡ slash ∷ join_parts (reversed (clean_parts true (parts p) []) [])
unfolding clean render
clean_rooted p h = ap (λ b. render b (reversed (clean_parts b (parts p) []) [])) h

-- A rooted path is cleaned to proper names.
pub clean-IsProper :
    (p : Bytes)
    → is_rooted p ≡ true
    → (ps : List Bytes) × All IsProper ps × (clean p ≡ slash ∷ join_parts ps)
clean-IsProper p h =
    let ps = clean_parts true (parts p) [] in
    (
      reversed ps [],
      reversed-All IsProper ps [] (clean_parts-IsProper (parts p) [] (parts-IsName p) tt) tt,
      clean_rooted p h,
    )

pub All-IsName : (ps : List Bytes) → All IsProper ps → All IsName ps
All-IsName [] h = tt
All-IsName (p ∷ ps) h = (h.0.0, All-IsName ps h.1)

pub reversed-proper :
    (rooted : Bool) (ps : List Bytes)
    → All IsProper ps
    → reversed (clean_parts rooted ps []) [] ≡ ps
unfolding reversed
reversed-proper rooted ps h =
    ap (λ qs. reversed qs []) (clean_parts-proper rooted ps [] h)
    ∙ reversed-reversed ps [] []
    ∙ append-nil ps

-- A path of proper names is clean.
pub clean-proper :
    (p : Bytes) (ps : List Bytes)
    → All IsProper (p ∷ ps)
    → clean (slash ∷ join_parts (p ∷ ps)) ≡ slash ∷ join_parts (p ∷ ps)
unfolding is_rooted parts clean_parts is_void equal_bytes
clean-proper p ps h =
    clean_rooted (slash ∷ join_parts (p ∷ ps)) refl
    ∙ ap (λ qs. slash ∷ join_parts (reversed (clean_parts true ([] ∷ qs) []) []))
        (parts-join_parts p ps (All-IsName (p ∷ ps) h))
    ∙ ap (λ qs. slash ∷ join_parts qs) (reversed-proper true (p ∷ ps) h)

-- The names of two lists, one after the other, are those of the path of both.
pub join_parts-append :
    (p : Bytes) (ps : List Bytes) (q : Bytes) (qs : List Bytes)
    → join_parts (p ∷ ps) ++ (slash ∷ join_parts (q ∷ qs)) ≡ join_parts ((p ∷ ps) ++ (q ∷ qs))
unfolding join_parts
join_parts-append p [] q qs = refl
join_parts-append p (r ∷ ps) q qs =
    append_assoc p (slash ∷ join_parts (r ∷ ps)) (slash ∷ join_parts (q ∷ qs))
    ∙ ap (λ x. p ++ (slash ∷ x)) (join_parts-append r ps q qs)

name-short : (p q x : Bytes) → IsName q → has_prefix q (p ++ (slash ∷ x)) ≡ false
unfolding has_prefix
name-short [] [] x h = refl
name-short [] (c ∷ q) x h = rw (not_slash c q h) refl
name-short (a ∷ p) [] x h = refl
name-short (a ∷ p) (c ∷ q) x h = ground (arith, name-short p q x h.1)

name-same :
    (p q x y : Bytes)
    → IsName p
    → IsName q
    → has_prefix (q ++ (slash ∷ y)) (p ++ (slash ∷ x)) ≡ true
    → (p ≡ q) × (has_prefix y x ≡ true)
unfolding has_prefix
name-same [] [] x y h g k = (refl, k)
name-same [] (c ∷ q) x y h g k = let no = not_slash c q g in ground (arith, g.0)
name-same (a ∷ p) [] x y h g k = ground (arith, h.0)
name-same (a ∷ p) (c ∷ q) x y h g k =
    let (e, more) = name-same p q x y h.1 g.1 (ground (arith, k)) in (ground (arith, e, k), more)

-- A name before a slash is the first of the names of a path that starts with both.
pub first_name :
    (p q x : Bytes) (qs : List Bytes)
    → IsName p
    → IsName q
    → has_prefix (join_parts (q ∷ qs)) (p ++ (slash ∷ x)) ≡ true
    → (p ≡ q)
      × (r : Bytes) × (rs : List Bytes) × (qs ≡ r ∷ rs)
      × (has_prefix (join_parts (r ∷ rs)) x ≡ true)
unfolding join_parts
first_name p q x [] h g k = let short = sym (name-short p q x g) ∙ k in cc
first_name p q x (r ∷ rs) h g k =
    let (e, more) = name-same p q x (join_parts (r ∷ rs)) h g k in (e, r, rs, refl, more)

-- A path that starts with the names of another and a slash has these names first.
pub names_below :
    (p : Bytes) (ps qs : List Bytes)
    → All IsName (p ∷ ps)
    → All IsName qs
    → has_prefix (join_parts qs) (join_parts (p ∷ ps) ++ slash ∷ []) ≡ true
    → (rs : List Bytes) × (qs ≡ (p ∷ ps) ++ rs)
unfolding join_parts
names_below p ps [] h g k =
    let short = sym (has_prefix-nil (join_parts (p ∷ ps)) slash []) ∙ k in cc
names_below p [] (q ∷ qs) h g k =
    let (e, r, rs, t, more) = first_name p q [] qs h.0 g.0 k in (qs, ap (λ n. n ∷ qs) (sym e))
names_below p (p' ∷ ps) (q ∷ qs) h g k =
    let (e, r, rs, t, more) =
      first_name p q _ qs h.0 g.0
        (ap (has_prefix _) (sym (append_assoc p (slash ∷ join_parts (p' ∷ ps)) _)) ∙ k) in
    let (us, f) = names_below p' ps (r ∷ rs) h.1 (subst (All IsName) t g.1) more in
    (us, ap (λ n. n ∷ qs) (sym e) ∙ ap (λ ns. p ∷ ns) (t ∙ f))

first_part-unrooted :
    (p : Bytes) (ps : List Bytes) → All IsProper (p ∷ ps) → is_rooted (join_parts (p ∷ ps)) ≡ false
unfolding is_rooted join_parts is_void equal_bytes
first_part-unrooted [] ps h = cc
first_part-unrooted (c ∷ p) [] h = not_slash c p h.0.0
first_part-unrooted (c ∷ p) (q ∷ ps) h = not_slash c p h.0.0

-- A path of proper names that does not start with a slash is clean, too.
pub clean-relative :
    (p : Bytes) (ps : List Bytes)
    → All IsProper (p ∷ ps)
    → clean (join_parts (p ∷ ps)) ≡ join_parts (p ∷ ps)
unfolding clean render
clean-relative p ps h =
    let all = All-IsName (p ∷ ps) h in
    ap (λ b. render b (reversed (clean_parts b (parts (join_parts (p ∷ ps))) []) []))
      (first_part-unrooted p ps h)
    ∙ ap (λ qs. render false (reversed (clean_parts false qs []) [])) (parts-join_parts p ps all)
    ∙ ap (render false) (reversed-proper false (p ∷ ps) h)
