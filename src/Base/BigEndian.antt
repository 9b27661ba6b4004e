-- ===== src/Base/BigEndian.antt =====
-- `binary.BigEndian` (and `binary.LittleEndian` for 32 bits): fixed-width numbers as bytes.
use cloudpebble.Base.Lists.{All-append, length, length-append}
use cloudpebble.Base.Order.{Bytes, IsBytes, compare_bytes, compare_bytes_parts}
use Prim.Native.Nat.{ℕ, zero, suc, ◌+◌, ◌*◌, ◌/◌, ◌%◌, ◌^◌, ◌<◌, ◌≤◌, compare}
use mathlib.Core.Path.{◌≡◌, refl, sym, ap, subst, ◌∙◌}
use mathlib.Core.List.{[], ◌∷◌, ◌++◌}
use native.Mathlib.Nat.{pow-suc}
use native.Mathlib.Omega.{arith}

-- the `n` low bytes of `v`, the highest first
unfoldable pub be_bytes : ℕ → ℕ → Bytes
be_bytes zero v = []
be_bytes (suc n) v = be_bytes n (v / 256) ++ (v % 256) ∷ []

-- the number that the bytes stand for, after the number read so far
unfoldable pub from_be : ℕ → Bytes → ℕ
from_be acc [] = acc
from_be acc (c ∷ cs) = from_be (acc * 256 + c) cs

abbrev pub put_uint16 : ℕ → Bytes
put_uint16 = be_bytes 2

abbrev pub put_uint64 : ℕ → Bytes
put_uint64 = be_bytes 8

abbrev pub uint : Bytes → ℕ
uint = from_be 0

pub length-be_bytes : (n v : ℕ) → length (be_bytes n v) ≡ n
unfolding be_bytes
length-be_bytes zero v = refl
length-be_bytes (suc n) v =
    omega
      (arith, length-append (be_bytes n (v / 256)) ((v % 256) ∷ []), length-be_bytes n (v / 256))

pub be_bytes-IsBytes : (n v : ℕ) → IsBytes (be_bytes n v)
unfolding be_bytes
be_bytes-IsBytes zero v = tt
be_bytes-IsBytes (suc n) v =
    All-append (λ c. c < 256) (be_bytes n (v / 256)) _ (be_bytes-IsBytes n (v / 256))
      (omega arith, tt)

from_be-append :
    (acc : ℕ) (xs : Bytes) (c : ℕ) → from_be acc (xs ++ c ∷ []) ≡ from_be acc xs * 256 + c
unfolding from_be
from_be-append acc [] c = refl
from_be-append acc (x ∷ xs) c = from_be-append (acc * 256 + x) xs c

div-lt_pow : (n v : ℕ) → v < 256 ^ suc n → v / 256 < 256 ^ n
div-lt_pow n v h = let h' = rw pow-suc at h in omega arith

-- Reading back what was written.
pub from_be-be_bytes : (n v : ℕ) → v < 256 ^ n → uint (be_bytes n v) ≡ v
unfolding be_bytes from_be
from_be-be_bytes zero v h = omega arith
from_be-be_bytes (suc n) v h = omega (
  arith,
  from_be-append 0 (be_bytes n (v / 256)) (v % 256),
  from_be-be_bytes n (v / 256) (div-lt_pow n v h),
)

-- The number read is below the next multiple of the width's modulus.
pub from_be-lt : (acc : ℕ) (cs : Bytes) → IsBytes cs → from_be acc cs < suc acc * 256 ^ length cs
unfolding from_be
from_be-lt acc [] h = omega arith
from_be-lt acc (c ∷ cs) h =
    let ih = from_be-lt (acc * 256 + c) cs h.1 in
    let b : suc (acc * 256 + c) ≤ suc acc * 256 = omega (arith, h.0) in
    let m : suc (acc * 256 + c) * 256 ^ length cs ≤ suc acc * 256 * 256 ^ length cs = grind arith in
    rw pow-suc (omega (arith, ih, m))

split_last :
    (n : ℕ) (cs : Bytes)
    → length cs ≡ suc n
    → (front : Bytes) × (c : ℕ) × (cs ≡ front ++ c ∷ []) × (length front ≡ n)
split_last n [] l = absurd (omega arith)
split_last zero (c ∷ []) l = ([], c, refl, refl)
split_last zero (c ∷ d ∷ cs) l = absurd (omega arith)
split_last (suc n) (c ∷ cs) l =
    let (front, e, p, q) = split_last n cs (omega arith) in
    (c ∷ front, e, ap (◌∷◌ c) p, omega arith)

IsBytes-front : (front : Bytes) (c : ℕ) → IsBytes (front ++ c ∷ []) → IsBytes front × (c < 256)
IsBytes-front [] c h = (tt, h.0)
IsBytes-front (d ∷ front) c h = let (a, b) = IsBytes-front front c h.1 in ((h.0, a), b)

be_bytes-concat :
    (n : ℕ) (front : Bytes) (c : ℕ)
    → be_bytes n (uint front) ≡ front
    → c < 256
    → be_bytes (suc n) (uint (front ++ c ∷ [])) ≡ front ++ c ∷ []
unfolding be_bytes
be_bytes-concat n front c ih h =
    let e = from_be-append 0 front c in
    let d : uint (front ++ c ∷ []) / 256 ≡ uint front = omega (arith, e) in
    let m : uint (front ++ c ∷ []) % 256 ≡ c = omega (arith, e) in rw (d, m, ih)

-- Bytes are determined by the number that they stand for.
pub be_bytes-from_be : (n : ℕ) (cs : Bytes) → length cs ≡ n → IsBytes cs → be_bytes n (uint cs) ≡ cs
be_bytes-from_be zero [] l h = unfold be_bytes in refl
be_bytes-from_be zero (c ∷ cs) l h = absurd (omega arith)
be_bytes-from_be (suc n) cs l h =
    let (front, c, p, q) = split_last n cs l in
    let (hf, hc) = IsBytes-front front c (subst IsBytes p h) in
    subst (λ x. be_bytes (suc n) (uint x) ≡ x) (sym p)
      (be_bytes-concat n front c (be_bytes-from_be n front q hf) hc)

-- Numbers of one width compare as their bytes.
pub compare_bytes-be_bytes :
    (n v w : ℕ)
    → v < 256 ^ n
    → w < 256 ^ n
    → compare_bytes (be_bytes n v) (be_bytes n w) ≡ compare v w
unfolding be_bytes compare_bytes
compare_bytes-be_bytes zero v w hv hw = ground arith
compare_bytes-be_bytes (suc n) v w hv hw =
    compare_bytes_parts (be_bytes n (v / 256)) (be_bytes n (w / 256)) _ _
      (length-be_bytes n (v / 256) ∙ sym (length-be_bytes n (w / 256)))
    ∙ rw (compare_bytes-be_bytes n (v / 256) (w / 256) (div-lt_pow n v hv) (div-lt_pow n w hw))
        (ground arith)
