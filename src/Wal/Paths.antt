-- ===== src/Wal/Paths.antt =====
-- pkg/walcloud/manager.go: the paths of WAL objects, for a namespace that is proper names between
-- slashes; `Engine.Namespaces` compares them with those of `path.Join`, which cleans.
use cloudpebble.Base.{
  ℕ, zero, suc, ◌+◌, ◌-◌, ◌*◌, ◌/◌, ◌%◌, ◌^◌, ◌≤◌, ◌<◌, false, ◌&&◌, Option, none, some, [], ◌∷◌,
  ◌++◌, ◌==◌, ltb, leb, if◌then◌else◌, length, ◌≡◌, refl, sym, ap, ◌∙◌, arith, compare, Ordering,
  append_assoc, append-nil, All, All-append, length-append, lt→ltb,
}
use cloudpebble.Base.Order.{
  Bytes, compare_bytes, compare_bytes_append, compare_bytes_parts, compare_bytes_refl, then_compare,
}
use native.Mathlib.Nat.{pow-suc}

abbrev pub slash : ℕ
slash = b'/'

-- ".wal"
abbrev pub wal_ext : Bytes
wal_ext = b'.' ∷ b'w' ∷ b'a' ∷ b'l' ∷ []

-- "wal"
abbrev pub wal_dir : Bytes
wal_dir = b'w' ∷ b'a' ∷ b'l' ∷ []

abbrev pub seq_num_width : ℕ
seq_num_width = 20

-- the `n` low decimal digits of `v`: `fmt.Sprintf("%0*d", n, v)` for a number of at most `n` digits
unfoldable pub decimal : ℕ → ℕ → Bytes
decimal zero v = []
decimal (suc n) v = decimal n (v / 10) ++ (b'0' + v % 10) ∷ []

unfoldable pub wal_path : Bytes → ℕ → Bytes
unfolding decimal
wal_path ns seq = ns ++ (slash ∷ (wal_dir ++ (slash ∷ (decimal seq_num_width seq ++ wal_ext))))

unfoldable pub wal_prefix : Bytes → Bytes
wal_prefix ns = ns ++ (slash ∷ (wal_dir ++ slash ∷ []))

-- `path.Base` of a path that does not end in a slash: what follows the last one
unfoldable pub base_from : Bytes → Bytes → Bytes
base_from last [] = last
base_from last (c ∷ cs) = base_from (if c == slash then [] else last ++ c ∷ []) cs

-- `strings.TrimSuffix(name, ".wal")`
unfoldable pub trim_wal_ext : Bytes → Bytes
trim_wal_ext [] = []
trim_wal_ext (c ∷ cs) = elim cs [
  | (d ∷ e ∷ f ∷ []) ↦
      if c == b'.' && d == b'w' && e == b'a' && f == b'l' then [] else c ∷ trim_wal_ext cs
  | _ ↦ c ∷ trim_wal_ext cs
]

-- `strconv.ParseUint(s, 10, 64)`, the digits from the number so far
unfoldable pub digits_from : ℕ → Bytes → Option ℕ
digits_from n [] = some n
digits_from n (c ∷ cs) =
    let rest = digits_from (n * 10 + (c - b'0')) cs in
    if leb b'0' c && leb c b'9' then rest else none

unfoldable pub parse_uint : Bytes → Option ℕ
unfolding digits_from
parse_uint [] = none
parse_uint (c ∷ cs) = elim (digits_from 0 (c ∷ cs)) [
  | none ↦ none
  | some n ↦ if ltb n (2 ^ 64) then some n else none
]

-- `parseWALSeq`
unfoldable pub parse_wal_seq : Bytes → Option ℕ
unfolding base_from trim_wal_ext parse_uint
parse_wal_seq name = parse_uint (trim_wal_ext (base_from [] name))

pub length-decimal : (n v : ℕ) → length (decimal n v) ≡ n
unfolding decimal
length-decimal zero v = refl
length-decimal (suc n) v =
    omega
      (arith, length-append (decimal n (v / 10)) ((b'0' + v % 10) ∷ []), length-decimal n (v / 10))

abbrev pub IsDigit : ℕ → Type 0
IsDigit c = (b'0' ≤ c) × (c ≤ b'9')

pub decimal-IsDigit : (n v : ℕ) → All IsDigit (decimal n v)
unfolding decimal
decimal-IsDigit zero v = tt
decimal-IsDigit (suc n) v =
    All-append IsDigit (decimal n (v / 10)) _ (decimal-IsDigit n (v / 10))
      ((omega arith, omega arith), tt)

div-lt_pow : (n v : ℕ) → v < 10 ^ suc n → v / 10 < 10 ^ n
div-lt_pow n v h = let h' = rw pow-suc at h in omega arith

digits_from-append :
    (acc : ℕ) (xs : Bytes) (c : ℕ) {m : ℕ}
    → IsDigit c
    → digits_from acc xs ≡ some m
    → digits_from acc (xs ++ c ∷ []) ≡ some (m * 10 + (c - b'0'))
unfolding digits_from
digits_from-append acc [] c hc h = ground arith
digits_from-append acc (x ∷ xs) c {m = m} hc h =
    ground (arith, digits_from-append (acc * 10 + (x - b'0')) xs c {m = m} hc)

digits_from-decimal : (n v : ℕ) → v < 10 ^ n → digits_from 0 (decimal n v) ≡ some v
unfolding decimal
digits_from-decimal zero v h = unfold digits_from in ap some (omega arith)
digits_from-decimal (suc n) v h =
    digits_from-append 0 (decimal n (v / 10)) (b'0' + v % 10) (omega arith, omega arith)
      (digits_from-decimal n (v / 10) (div-lt_pow n v h))
    ∙ ap some (omega arith)

pub base_from-slash : (last xs ys : Bytes) → base_from last (xs ++ slash ∷ ys) ≡ base_from [] ys
unfolding base_from
base_from-slash last [] ys = refl
base_from-slash last (x ∷ xs) ys = base_from-slash (if x == slash then [] else last ++ x ∷ []) xs ys

base_from-digits :
    (last ds rest : Bytes)
    → All IsDigit ds
    → base_from last (ds ++ rest) ≡ base_from (last ++ ds) rest
unfolding base_from
base_from-digits last [] rest h = rw (append-nil last) refl
base_from-digits last (d ∷ ds) rest h =
    let ne : (d == slash) ≡ false = ground (arith, h.0) in
    let step : base_from last (d ∷ (ds ++ rest)) ≡ base_from (last ++ d ∷ []) (ds ++ rest) =
      rw (ne, base_from) refl in
    step ∙ base_from-digits (last ++ d ∷ []) ds rest h.1 ∙ rw (append_assoc last (d ∷ []) ds) refl

trim_wal_ext-cons : (c : ℕ) (cs : Bytes) → IsDigit c → trim_wal_ext (c ∷ cs) ≡ c ∷ trim_wal_ext cs
unfolding trim_wal_ext
trim_wal_ext-cons c [] h = refl
trim_wal_ext-cons c (d ∷ []) h = refl
trim_wal_ext-cons c (d ∷ e ∷ []) h = refl
trim_wal_ext-cons c (d ∷ e ∷ f ∷ []) h = ground arith
trim_wal_ext-cons c (d ∷ e ∷ f ∷ g ∷ cs) h = refl

trim_wal_ext-digits : (ds : Bytes) → All IsDigit ds → trim_wal_ext (ds ++ wal_ext) ≡ ds
trim_wal_ext-digits [] h = unfold trim_wal_ext in refl
trim_wal_ext-digits (d ∷ ds) h =
    trim_wal_ext-cons d (ds ++ wal_ext) h.0 ∙ ap (◌∷◌ d) (trim_wal_ext-digits ds h.1)

compare_bytes-decimal :
    (n v w : ℕ) → v < 10 ^ n → w < 10 ^ n → compare_bytes (decimal n v) (decimal n w) ≡ compare v w
unfolding decimal compare_bytes
compare_bytes-decimal zero v w hv hw = ground arith
compare_bytes-decimal (suc n) v w hv hw =
    compare_bytes_parts (decimal n (v / 10)) (decimal n (w / 10)) _ _
      (length-decimal n (v / 10) ∙ sym (length-decimal n (w / 10)))
    ∙ rw (compare_bytes-decimal n (v / 10) (w / 10) (div-lt_pow n v hv) (div-lt_pow n w hw))
        (ground arith)

base_from-wal_ext : (name : Bytes) → base_from name wal_ext ≡ name ++ wal_ext
base_from-wal_ext name = unfold base_from in rw (append_assoc, append_assoc, append_assoc) refl

parse_uint_lem :
    (cs : Bytes) (n : ℕ)
    → 1 ≤ length cs
    → digits_from 0 cs ≡ some n
    → n < 2 ^ 64
    → parse_uint cs ≡ some n
unfolding parse_uint
parse_uint_lem [] n l h lt = absurd (omega (arith, l))
parse_uint_lem (c ∷ cs) n l h lt = rw (h, lt→ltb n (2 ^ 64) lt, parse_uint) refl

base_from-wal_path :
    (ns : Bytes) (seq : ℕ) → base_from [] (wal_path ns seq) ≡ decimal seq_num_width seq ++ wal_ext
unfolding wal_path
base_from-wal_path ns seq =
    base_from-slash [] ns (wal_dir ++ (slash ∷ (decimal seq_num_width seq ++ wal_ext)))
    ∙ base_from-slash [] wal_dir (decimal seq_num_width seq ++ wal_ext)
    ∙ base_from-digits [] (decimal seq_num_width seq) wal_ext (decimal-IsDigit seq_num_width seq)
    ∙ base_from-wal_ext (decimal seq_num_width seq)

-- A sequence number below 2^64 is read back from the path of its WAL object.
pub parse_wal_seq-wal_path :
    (ns : Bytes) (seq : ℕ) → seq < 2 ^ 64 → parse_wal_seq (wal_path ns seq) ≡ some seq
parse_wal_seq-wal_path ns seq h =
    let ds = decimal seq_num_width seq in
    let l : 1 ≤ length ds = omega (arith, length-decimal seq_num_width seq) in
    let d = digits_from-decimal seq_num_width seq (omega (arith, h)) in
    unfold parse_wal_seq in
    rw (base_from-wal_path ns seq, trim_wal_ext-digits ds (decimal-IsDigit seq_num_width seq))
      (parse_uint_lem ds seq l d h)

then_compare-eq : (o : Ordering) → then_compare o Ordering.eq ≡ o
then_compare-eq Ordering.lt = refl
then_compare-eq Ordering.eq = refl
then_compare-eq Ordering.gt = refl

-- The paths of WAL objects of one namespace compare as their sequence numbers, below 2^64.
pub compare_bytes-wal_path :
    (ns : Bytes) (a b : ℕ)
    → a < 2 ^ 64
    → b < 2 ^ 64
    → compare_bytes (wal_path ns a) (wal_path ns b) ≡ compare a b
unfolding wal_path
compare_bytes-wal_path ns a b ha hb =
    let l = length-decimal seq_num_width a ∙ sym (length-decimal seq_num_width b) in
    let d = compare_bytes-decimal seq_num_width a b (omega (arith, ha)) (omega (arith, hb)) in
    compare_bytes_append ns _ _
    ∙ compare_bytes_append (slash ∷ (wal_dir ++ slash ∷ [])) _ _
    ∙ compare_bytes_parts (decimal seq_num_width a) (decimal seq_num_width b) wal_ext wal_ext l
    ∙ rw (d, compare_bytes_refl wal_ext) (then_compare-eq (compare a b))
