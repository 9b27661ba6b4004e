-- ===== src/Base/Order.antt =====
-- Byte strings and their lexicographic order (`bytes.Compare`, `strings.Compare`, and Pebble's
-- default comparer).
use cloudpebble.Base.Tests.{ltb, ◌==◌, ==_refl, if◌then◌else◌}
use cloudpebble.Base.Lists.{All, length}
use Prim.Native.Nat.{ℕ, ◌<◌, Ordering}
use mathlib.Core.Path.{◌≡◌, refl, subst}
use mathlib.Core.Logic.{◌≢◌, ◌↔◌}
use mathlib.Core.Bool.{Bool, true, false, ◌&&◌}
use mathlib.Core.List.{List, [], ◌∷◌, ◌++◌, append-nil}
use native.Mathlib.Omega.{arith}

abbrev pub Bytes : Type 0
Bytes = List ℕ

-- every element is a byte
abbrev pub IsBytes : Bytes → Type 0
IsBytes = All (λ c. c < 256)

-- lexicographic comparison
unfoldable pub compare_bytes : Bytes → Bytes → Ordering
compare_bytes [] [] = Ordering.eq
compare_bytes [] (y ∷ ys) = Ordering.lt
compare_bytes (x ∷ xs) [] = Ordering.gt
compare_bytes (x ∷ xs) (y ∷ ys) =
    if x == y then compare_bytes xs ys else if ltb x y then Ordering.lt else Ordering.gt

-- a < b
abbrev pub lt_bytes : Bytes → Bytes → Bool
lt_bytes a b = elim (compare_bytes a b) [ Ordering.lt ↦ true | _ ↦ false ]

-- a ≤ b
abbrev pub le_bytes : Bytes → Bytes → Bool
le_bytes a b = elim (compare_bytes a b) [ Ordering.gt ↦ false | _ ↦ true ]

-- `bytes.Equal`
unfoldable pub equal_bytes : Bytes → Bytes → Bool
equal_bytes [] [] = true
equal_bytes [] (y ∷ ys) = false
equal_bytes (x ∷ xs) [] = false
equal_bytes (x ∷ xs) (y ∷ ys) = x == y && equal_bytes xs ys

pub equal_bytes_iff : (a b : Bytes) → (equal_bytes a b ≡ true) ↔ (a ≡ b)
unfolding equal_bytes
equal_bytes_iff [] [] = ground arith
equal_bytes_iff [] (y ∷ b) = ground arith
equal_bytes_iff (x ∷ a) [] = ground arith
equal_bytes_iff (x ∷ a) (y ∷ b) = ground (arith, equal_bytes_iff a b)

pub equal_bytes_refl : (a : Bytes) → equal_bytes a a ≡ true
equal_bytes_refl a = (equal_bytes_iff a a).1 refl

-- `bytes.HasPrefix`: whether the first list starts with the second
unfoldable pub has_prefix : Bytes → Bytes → Bool
has_prefix xs [] = true
has_prefix [] (p ∷ ps) = false
has_prefix (x ∷ xs) (p ∷ ps) = x == p && has_prefix xs ps

pub compare_bytes_refl : (a : Bytes) → compare_bytes a a ≡ Ordering.eq
unfolding compare_bytes
compare_bytes_refl [] = refl
compare_bytes_refl (x ∷ a) = ground (arith, compare_bytes_refl a)

pub compare_bytes_append : (p a b : Bytes) → compare_bytes (p ++ a) (p ++ b) ≡ compare_bytes a b
unfolding compare_bytes
compare_bytes_append [] a b = refl
compare_bytes_append (x ∷ p) a b = ground (arith, compare_bytes_append p a b)

pub compare_bytes-eq : (a b : Bytes) → compare_bytes a b ≡ Ordering.eq → a ≡ b
unfolding compare_bytes
compare_bytes-eq [] [] h = refl
compare_bytes-eq [] (y ∷ b) h = cc
compare_bytes-eq (x ∷ a) [] h = cc
compare_bytes-eq (x ∷ a) (y ∷ b) h = ground (arith, compare_bytes-eq a b)

pub equal_bytes-common : (a b c : Bytes) → equal_bytes (a ++ b) (a ++ c) ≡ equal_bytes b c
unfolding equal_bytes
equal_bytes-common [] b c = refl
equal_bytes-common (x ∷ a) b c = rw (==_refl x) (equal_bytes-common a b c)

pub has_prefix-common : (a b c : Bytes) → has_prefix (a ++ b) (a ++ c) ≡ has_prefix b c
unfolding has_prefix
has_prefix-common [] b c = refl
has_prefix-common (x ∷ a) b c = rw (==_refl x) (has_prefix-common a b c)

pub has_prefix-append : (p x : Bytes) → has_prefix (p ++ x) p ≡ true
unfolding has_prefix
has_prefix-append [] x = refl
has_prefix-append (c ∷ p) x = ground (arith, has_prefix-append p x)

pub has_prefix-split : (n p : Bytes) → has_prefix n p ≡ true → (t : Bytes) × (n ≡ p ++ t)
unfolding has_prefix
has_prefix-split n [] h = (n, refl)
has_prefix-split [] (c ∷ p) h = cc
has_prefix-split (x ∷ n) (c ∷ p) h =
    let (t, e) = has_prefix-split n p (ground (arith, h)) in (t, ground (arith, e))

pub has_prefix-longer : (n p q : Bytes) → has_prefix n (p ++ q) ≡ true → has_prefix n p ≡ true
unfolding has_prefix
has_prefix-longer n [] q h = ground arith
has_prefix-longer [] (c ∷ p) q h = cc
has_prefix-longer (x ∷ n) (c ∷ p) q h = ground (arith, has_prefix-longer n p q)

pub has_prefix-nil : (xs : Bytes) (y : ℕ) (ys : Bytes) → has_prefix [] (xs ++ y ∷ ys) ≡ false
unfolding has_prefix
has_prefix-nil [] y ys = refl
has_prefix-nil (x ∷ xs) y ys = refl

-- A list that does not have a prefix is none of those that have it.
pub equal_bytes-prefix :
    (p q d : Bytes) → has_prefix p d ≡ false → has_prefix q d ≡ true → equal_bytes p q ≡ false
unfolding has_prefix equal_bytes
equal_bytes-prefix p q [] h g = cc
equal_bytes-prefix [] [] (c ∷ d) h g = cc
equal_bytes-prefix [] (y ∷ q) (c ∷ d) h g = refl
equal_bytes-prefix (x ∷ p) [] (c ∷ d) h g = refl
equal_bytes-prefix (x ∷ p) (y ∷ q) (c ∷ d) h g = ground (arith, equal_bytes-prefix p q d)

-- a list is not after its extension
pub le_bytes-append : (p x : Bytes) → le_bytes p (p ++ x) ≡ true
unfolding compare_bytes
le_bytes-append [] [] = refl
le_bytes-append [] (y ∷ x) = refl
le_bytes-append (c ∷ p) x = ground (arith, le_bytes-append p x)

-- The two lists differ at a position that both have.
unfoldable pub diverges : Bytes → Bytes → Bool
diverges [] ys = false
diverges (x ∷ xs) [] = false
diverges (x ∷ xs) (y ∷ ys) = if x == y then diverges xs ys else true

pub diverges-append_left : (p a b : Bytes) → diverges (p ++ a) (p ++ b) ≡ diverges a b
unfolding diverges
diverges-append_left [] a b = refl
diverges-append_left (x ∷ p) a b = ground (arith, diverges-append_left p a b)

pub diverges-append : (a b x y : Bytes) → diverges a b ≡ true → diverges (a ++ x) (b ++ y) ≡ true
unfolding diverges
diverges-append [] b x y h = cc
diverges-append (c ∷ a) [] x y h = cc
diverges-append (c ∷ a) (d ∷ b) x y h = ground (arith, diverges-append a b x y)

-- What comes after lists that diverge does not change how they compare.
pub compare_bytes-diverges :
    (a b x y : Bytes) → diverges a b ≡ true → compare_bytes (a ++ x) (b ++ y) ≡ compare_bytes a b
unfolding diverges compare_bytes
compare_bytes-diverges [] b x y h = cc
compare_bytes-diverges (c ∷ a) [] x y h = cc
compare_bytes-diverges (c ∷ a) (d ∷ b) x y h = ground (arith, compare_bytes-diverges a b x y)

pub compare_bytes-ne_eq : (a b : Bytes) → diverges a b ≡ true → compare_bytes a b ≢ Ordering.eq
unfolding diverges compare_bytes
compare_bytes-ne_eq [] b h = cc
compare_bytes-ne_eq (c ∷ a) [] h = cc
compare_bytes-ne_eq (c ∷ a) (d ∷ b) h = ground (arith, compare_bytes-ne_eq a b)

pub has_prefix-diverges : (p k x : Bytes) → diverges p k ≡ true → has_prefix (k ++ x) p ≡ false
unfolding has_prefix diverges
has_prefix-diverges [] k x h = cc
has_prefix-diverges (c ∷ p) [] x h = cc
has_prefix-diverges (c ∷ p) (d ∷ k) x h = ground (arith, has_prefix-diverges p k x)

-- Lists that begin with parts of one length compare by these parts first.
abbrev pub then_compare : Ordering → Ordering → Ordering
then_compare Ordering.eq o = o
then_compare o _ = o

pub compare_bytes_parts :
    (a b x y : Bytes)
    → length a ≡ length b
    → compare_bytes (a ++ x) (b ++ y) ≡ then_compare (compare_bytes a b) (compare_bytes x y)
unfolding compare_bytes
compare_bytes_parts [] [] x y l = refl
compare_bytes_parts [] (d ∷ b) x y l = absurd (omega arith)
compare_bytes_parts (c ∷ a) [] x y l = absurd (omega arith)
compare_bytes_parts (c ∷ a) (d ∷ b) x y l = ground (arith, compare_bytes_parts a b x y)

-- Swapping the arguments swaps the result.
abbrev pub opposite : Ordering → Ordering
opposite Ordering.lt = Ordering.gt
opposite Ordering.eq = Ordering.eq
opposite Ordering.gt = Ordering.lt

pub compare_bytes_swap : (a b : Bytes) → compare_bytes b a ≡ opposite (compare_bytes a b)
unfolding compare_bytes
compare_bytes_swap [] [] = refl
compare_bytes_swap [] (y ∷ b) = refl
compare_bytes_swap (x ∷ a) [] = refl
compare_bytes_swap (x ∷ a) (y ∷ b) = ground (arith, compare_bytes_swap a b)

-- Different lists of one length diverge.
pub diverges-of_length :
    (a b : Bytes) → length a ≡ length b → equal_bytes a b ≡ false → diverges a b ≡ true
unfolding diverges equal_bytes
diverges-of_length [] [] l h = cc
diverges-of_length [] (y ∷ b) l h = absurd (omega arith)
diverges-of_length (x ∷ a) [] l h = absurd (omega arith)
diverges-of_length (x ∷ a) (y ∷ b) l h = ground (arith, diverges-of_length a b)

-- The half-open range [lo, hi) of keys.
unfoldable pub in_range : Bytes → Bytes → Bytes → Bool
in_range lo hi k = le_bytes lo k && lt_bytes k hi

lt_bytes-nil : (x : Bytes) → lt_bytes x [] ≡ false
unfolding compare_bytes
lt_bytes-nil [] = refl
lt_bytes-nil (y ∷ x) = refl

lt_bytes-singleton : (c d : ℕ) (x : Bytes) → lt_bytes (d ∷ x) (c ∷ []) ≡ ltb d c
unfolding compare_bytes
lt_bytes-singleton c d x = ground (arith, lt_bytes-nil x)

-- The keys that start with `p` and go on below `c` are those in [p, p ++ c).
pub in_range-prefix :
    (p : Bytes) (c d : ℕ) (x : Bytes) → in_range p (p ++ c ∷ []) (p ++ d ∷ x) ≡ ltb d c
unfolding in_range
in_range-prefix p c d x = ground (
  arith,
  le_bytes-append p (d ∷ x),
  compare_bytes_append p (d ∷ x) (c ∷ []),
  lt_bytes-singleton c d x,
)

-- A key that diverges from `p` is in no range between two extensions of `p`.
pub in_range-diverges :
    (p r s k x : Bytes) → diverges p k ≡ true → in_range (p ++ r) (p ++ s) (k ++ x) ≡ false
unfolding in_range
in_range-diverges p r s k x h = ground (
  arith,
  compare_bytes-diverges p k r x h,
  compare_bytes-diverges p k s x h,
  compare_bytes_swap (p ++ s) (k ++ x),
  compare_bytes-ne_eq p k h,
)

-- The same for the range of all extensions of `p`.
pub in_range-diverges_prefix :
    (p s k x : Bytes) → diverges p k ≡ true → in_range p (p ++ s) (k ++ x) ≡ false
in_range-diverges_prefix p s k x h =
    subst (λ q. in_range q (p ++ s) (k ++ x) ≡ false) (append-nil p)
      (in_range-diverges p [] s k x h)

pub lt_bytes_trans :
    (a b c : Bytes) → lt_bytes a b ≡ true → lt_bytes b c ≡ true → lt_bytes a c ≡ true
unfolding compare_bytes
lt_bytes_trans [] [] c h k = cc
lt_bytes_trans [] (y ∷ b) [] h k = cc
lt_bytes_trans [] (y ∷ b) (z ∷ c) h k = refl
lt_bytes_trans (x ∷ a) [] c h k = cc
lt_bytes_trans (x ∷ a) (y ∷ b) [] h k = cc
lt_bytes_trans (x ∷ a) (y ∷ b) (z ∷ c) h k = ground (arith, lt_bytes_trans a b c)
