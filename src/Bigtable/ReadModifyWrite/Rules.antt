-- ===== src/Bigtable/ReadModifyWrite/Rules.antt =====
-- pkg/bigtable/readmodifywrite.go: the arithmetic of an increment.
use cloudpebble.Base.{
  ℕ, ◌+◌, ◌-◌, ◌%◌, ◌<◌, ◌^◌, true, false, Option, none, some, ◌≤◌, ◌≢◌, ◌==◌, length, ltb, leb,
  ltb→lt, leb→le, [], if◌then◌else◌, ◌≡◌, refl, arith, Bool-cases, inl, inr, le→ltb,
}
use cloudpebble.Base.Order.{Bytes}
use cloudpebble.Base.BigEndian.{put_uint64, length-be_bytes, from_be-be_bytes}
use cloudpebble.Base.Int64.{max_int64}
use cloudpebble.Bigtable.Status.{failed_precondition, out_of_range, error, Result, ok, err}
use cloudpebble.Bigtable.ReadModifyWrite.{increment_amount, incremented, new_value}

-- The sum of a number and a signed 64-bit amount, where it is a non-negative int64. An amount from
-- 2^63 on stands for itself less 2^64.
unfoldable pub exact_sum : ℕ → ℕ → Option ℕ
exact_sum n amount =
    if ltb amount (2 ^ 63)
    then (if ltb (n + amount) (2 ^ 63) then some (n + amount) else none)
    else if leb (2 ^ 64) (n + amount)
    then some (n + amount - 2 ^ 64)
    else none

abbrev pub answer : Option ℕ → Result Bytes
answer none = err (error out_of_range "increment result is negative")
answer (some n) = ok (put_uint64 n)

incremented_lem :
    (n amount : ℕ)
    → n < 2 ^ 63
    → amount < 2 ^ 64
    → incremented n amount ≡ answer (exact_sum n amount)
unfolding incremented exact_sum
incremented_lem n amount hn ha = elim (Bool-cases (ltb amount (2 ^ 63))) [
  | inl e ↦
      let h = ltb→lt amount (2 ^ 63) e in
      let m : (n + amount) % 2 ^ 64 ≡ n + amount = omega (arith, hn, h) in
      elim (Bool-cases (ltb (n + amount) (2 ^ 63))) [
        | inl f ↦
            let g = le→ltb max_int64 (n + amount) (omega (arith, ltb→lt (n + amount) (2 ^ 63) f)) in
            rw (m, e, f, g) refl
        | inr f ↦
            let g : ltb max_int64 (n + amount) ≡ true = ground (arith, f) in rw (m, e, f, g) refl
      ]
  | inr e ↦ elim (Bool-cases (leb (2 ^ 64) (n + amount))) [
    | inl f ↦
        let k = leb→le (2 ^ 64) (n + amount) f in
        let m : (n + amount) % 2 ^ 64 ≡ n + amount - 2 ^ 64 = omega (arith, hn, ha, k) in
        let g = le→ltb max_int64 (n + amount - 2 ^ 64) (omega (arith, hn, ha)) in
        rw (m, e, f, g) refl
    | inr f ↦
        let k : n + amount < 2 ^ 64 = ground (arith, f) in
        let m : (n + amount) % 2 ^ 64 ≡ n + amount = omega (arith, k) in
        let g : ltb max_int64 (n + amount) ≡ true = ground (arith, e) in rw (m, e, f, g) refl
  ]
]

-- An increment, for every value that a cell can have. Of a cell that is empty or does not exist, or that
-- holds the 8 bytes of a number below 2^63, it is exact: it gives the 8 bytes of the sum when that is
-- from 0 to 2^63 - 1, and the error OutOfRange otherwise, so that no sum wraps around. Of a value of
-- another length, and of the 8 bytes of a number from 2^63 on, it gives the error FailedPrecondition.
pub new_value-increment :
    (n amount m : ℕ) (v : Bytes)
    → n < 2 ^ 63
    → amount < 2 ^ 64
    → 2 ^ 63 ≤ m
    → m < 2 ^ 64
    → length v ≢ 0
    → length v ≢ 8
    → (new_value [] (increment_amount amount) ≡ answer (exact_sum 0 amount))
      × (new_value (put_uint64 n) (increment_amount amount) ≡ answer (exact_sum n amount))
      × (new_value v (increment_amount amount)
          ≡ err (error failed_precondition "existing cell value must be 8 bytes for increment"))
      × (new_value (put_uint64 m) (increment_amount amount)
          ≡ err (error failed_precondition "existing cell value exceeds int64 range"))
unfolding new_value
new_value-increment n amount m v hn ha low high some_bytes not_eight =
    let u = from_be-be_bytes 8 n (omega (arith, hn)) in
    let l = length-be_bytes 8 n in
    let w = from_be-be_bytes 8 m (omega (arith, high)) in
    let big : ltb max_int64 m ≡ true = ground (arith, low) in
    let z : length v == 0 ≡ false = ground (arith, some_bytes) in
    let e : length v == 8 ≡ false = ground (arith, not_eight) in
    (
      incremented_lem 0 amount (omega arith) ha,
      rw (l, u, le→ltb max_int64 n (omega (arith, hn))) (incremented_lem n amount hn ha),
      rw (z, e) refl,
      rw (length-be_bytes 8 m, w, big) refl,
    )
