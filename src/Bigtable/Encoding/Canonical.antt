-- ===== src/Bigtable/Encoding/Canonical.antt =====
-- pkg/bigtable/encoding.go: every key that `DecodeCellKey` accepts is the encoding of what it returns.
use native.Mathlib.Nat.{zero-add}
use cloudpebble.Base.{
  ℕ, zero, suc, ◌+◌, ◌≤◌, ◌<◌, ◌^◌, true, false, Option, none, some, [], ◌∷◌, ◌++◌, ◌==◌,
  if◌then◌else◌, length, take, drop, ◌≡◌, refl, sym, ap, ◌∙◌, arith, Bool-cases, inl, inr,
  append_assoc, All-drop,
}
use mathlib.Core.Path.{subst}
use mathlib.Core.Option.{some-injective}
use cloudpebble.Base.Order.{Bytes, IsBytes}
use cloudpebble.Base.BigEndian.{put_uint16, put_uint64, uint, be_bytes-from_be, from_be-lt}
use cloudpebble.Base.OptionMonad.{bind-eq-some}
use cloudpebble.Bigtable.Encoding.{
  null_count, encode_cell_key, inverted_timestamp, timestamp_from_inverted,
}
use cloudpebble.Bigtable.Encoding.RowKeys.{escape, encode_row_prefix-escape}
use cloudpebble.Bigtable.Encoding.Prefixes.{family_part, column_part, encode_cell_key_lem}
use cloudpebble.Bigtable.Encoding.Times.{inverted_timestamp-timestamp_from_inverted}
use cloudpebble.Bigtable.Encoding.RoundTrip.{row_of-escape, scan_row-cons}
use cloudpebble.Bigtable.Encoding.Decoder.{
  CellKey, scan_row, row_of, sentinel_at, parse_family, parse_qualifier, parse_timestamp,
  decode_cell_key,
}

-- What an accepted scan has read: an escaped row key and the terminator.
record Scanned (key : Bytes) (pos esc n e : ℕ) (rest : Bytes) : Type 0 where
  row : Bytes
  reads : key ≡ escape row ++ (0 ∷ 0 ∷ rest)
  length_is : n ≡ pos + length (escape row)
  escapes : e ≡ esc + null_count row

Scanned-cons :
    {key rest : Bytes} {pos esc n e : ℕ} (c : ℕ)
    → (c == 0) ≡ false
    → Scanned key (pos + 1) esc n e rest
    → Scanned (c ∷ key) pos esc n e rest
unfolding escape null_count
Scanned-cons c nz s = record {
  row = c ∷ s.row;
  reads = ground (arith, s.reads);
  length_is = ground (arith, s.length_is);
  escapes = ground (arith, s.escapes);
}

Scanned-null :
    {key rest : Bytes} {pos esc n e : ℕ} (c d : ℕ)
    → (c == 0) ≡ true
    → (d == 255) ≡ true
    → Scanned key (pos + 2) (esc + 1) n e rest
    → Scanned (c ∷ d ∷ key) pos esc n e rest
unfolding escape null_count
Scanned-null c d z f s = record {
  row = 0 ∷ s.row;
  reads = ground (arith, s.reads);
  length_is = ground (arith, s.length_is);
  escapes = ground (arith, s.escapes);
}

Scanned-end :
    {key rest : Bytes} {pos esc n e : ℕ} (c d : ℕ)
    → (c == 0) ≡ true
    → if◌then◌else◌ {A = Option (ℕ × ℕ × Bytes)} (d == 0) (some (pos, esc, key)) none
      ≡ some (n, e, rest)
    → Scanned (c ∷ d ∷ key) pos esc n e rest
unfolding escape null_count
Scanned-end c d z h = record {
  row = [];
  reads = ground arith;
  length_is = ground arith;
  escapes = ground arith;
}

-- The scan at a null byte.
scan_row-null :
    (c d : ℕ) (rest : Bytes) (pos esc : ℕ)
    → (c == 0) ≡ true
    → (d == 255) ≡ true
    → scan_row (c ∷ d ∷ rest) pos esc ≡ scan_row rest (pos + 2) (esc + 1)
unfolding scan_row
scan_row-null c d rest pos esc z f = rw (z, f, scan_row)

scan_row-end :
    (c d : ℕ) (rest : Bytes) (pos esc : ℕ)
    → (c == 0) ≡ true
    → (d == 255) ≡ false
    → scan_row (c ∷ d ∷ rest) pos esc
      ≡ if◌then◌else◌ {A = Option (ℕ × ℕ × Bytes)} (d == 0) (some (pos, esc, rest)) none
unfolding scan_row
scan_row-end c d rest pos esc z f = rw (z, f, scan_row)

scan_row-Scanned :
    (key : Bytes) (pos esc : ℕ) {n e : ℕ} {rest : Bytes}
    → scan_row key pos esc ≡ some (n, e, rest)
    → Scanned key pos esc n e rest
scan_row-Scanned [] pos esc h = unfold scan_row in cc
scan_row-Scanned (c ∷ []) pos esc h = unfold scan_row in cc
scan_row-Scanned (c ∷ d ∷ rest) pos esc h = elim (Bool-cases (c == 0)) [
  | inr nz ↦
      Scanned-cons c nz (
        scan_row-Scanned (d ∷ rest) (pos + 1) esc (rw (scan_row-cons c (d ∷ rest) pos esc nz) at h))
  | inl z ↦ elim (Bool-cases (d == 255)) [
    | inl f ↦
        Scanned-null c d z f
          (scan_row-Scanned rest (pos + 2) (esc + 1) (sym (scan_row-null c d rest pos esc z f) ∙ h))
    | inr nf ↦ Scanned-end c d z (sym (scan_row-end c d rest pos esc z nf) ∙ h)
  ]
]

-- A field that ends at its sentinel.
sentinel_at-eq_true :
    (n : ℕ) (r : Bytes)
    → sentinel_at n r ≡ true
    → (r ≡ (take n r ++ 0 ∷ []) ++ drop (n + 1) r) × (length (take n r) ≡ n)
unfolding sentinel_at
sentinel_at-eq_true n [] h = cc
sentinel_at-eq_true zero (c ∷ r) h = (ground arith, refl)
sentinel_at-eq_true (suc n) (c ∷ r) h =
    let (p, l) = sentinel_at-eq_true n r h in
    let e : drop {A = ℕ} (suc n + 1) (c ∷ r) ≡ drop (n + 1) r =
      ap (λ k. drop {A = ℕ} k (c ∷ r)) {y = suc (n + 1)} (omega arith) in
    (rw e (ap (◌∷◌ c) p), ap suc l)

parse_family-eq_some :
    (r : Bytes) {f y : Bytes}
    → IsBytes r
    → parse_family r ≡ some (f, y)
    → (r ≡ family_part f ++ y) × (length f ≤ 255) × IsBytes y
unfolding parse_family
parse_family-eq_some [] hb h = cc
parse_family-eq_some (n ∷ r) {f} {y} hb h =
    let (p, l) = sentinel_at-eq_true n r (ground arith) in
    let ef : f ≡ take n r = ground arith in
    let ey : y ≡ drop (n + 1) r = ground arith in
    rw (ef, ey) (rw l (ap (◌∷◌ n) p), omega (arith, hb.0), All-drop (λ c. c < 256) (n + 1) r hb.1)

parse_qualifier-eq_some :
    (r : Bytes) {q y : Bytes}
    → IsBytes r
    → parse_qualifier r ≡ some (q, y)
    → (r ≡ column_part q ++ y) × (length q ≤ 65535) × IsBytes y
unfolding parse_qualifier
parse_qualifier-eq_some [] hb h = cc
parse_qualifier-eq_some (hi ∷ []) hb h = cc
parse_qualifier-eq_some (hi ∷ lo ∷ r) {q} {y} hb h =
    let n = uint (hi ∷ lo ∷ []) in
    let hn : n < 65536 = from_be-lt 0 (hi ∷ lo ∷ []) (hb.0, (hb.1.0, tt)) in
    let head : put_uint16 n ≡ hi ∷ lo ∷ [] =
      be_bytes-from_be 2 (hi ∷ lo ∷ []) refl (hb.0, (hb.1.0, tt)) in
    let (p, l) = sentinel_at-eq_true n r (ground arith) in
    let eq : q ≡ take n r = ground arith in
    let ey : y ≡ drop (n + 1) r = ground arith in
    rw (eq, ey)
      (
        rw (l, head) (ap (λ t. hi ∷ lo ∷ t) p),
        omega (arith, hn),
        All-drop (λ c. c < 256) (n + 1) r hb.1.1,
      )

parse_timestamp-eq_some :
    (r : Bytes) {t : ℕ}
    → IsBytes r
    → parse_timestamp r ≡ some t
    → (r ≡ put_uint64 (inverted_timestamp t)) × (t < 2 ^ 64)
unfolding parse_timestamp
parse_timestamp-eq_some r {t} hb h =
    let l : length r ≡ 8 = ground arith in
    let e : t ≡ timestamp_from_inverted (uint r) = ground arith in
    let b : uint r < 2 ^ 64 = rw l at (from_be-lt 0 r hb) in
    rw e (
      rw (inverted_timestamp-timestamp_from_inverted (uint r) b) (sym (be_bytes-from_be 8 r l hb)),
      unfold timestamp_from_inverted in omega arith,
    )

IsBytes-tail : (x y : Bytes) → IsBytes (x ++ y) → IsBytes y
IsBytes-tail [] y h = h
IsBytes-tail (c ∷ x) y h = IsBytes-tail x y h.1

-- The limits within which cells have keys.
pub record IsCellKey (c : CellKey) : Type 0 where
  pub family_fits : length c.family ≤ 255
  pub qualifier_fits : length c.qualifier ≤ 65535
  pub timestamp_fits : c.timestamp_micros < 2 ^ 64

abbrev pub key_of : CellKey → Bytes
key_of c = encode_cell_key c.row_key c.family c.qualifier c.timestamp_micros

assemble :
    (row f q : Bytes) (t : ℕ) {key rest y z : Bytes}
    → length f ≤ 255
    → length q ≤ 65535
    → key ≡ escape row ++ (0 ∷ 0 ∷ rest)
    → rest ≡ family_part f ++ y
    → y ≡ column_part q ++ z
    → z ≡ put_uint64 (inverted_timestamp t)
    → encode_cell_key row f q t ≡ key
assemble row f q t hf hq p1 p2 p3 p4 =
    rw (p1, p2, p3, p4, encode_cell_key_lem row f q t hf hq, encode_row_prefix-escape row)
      (append_assoc (escape row) (0 ∷ 0 ∷ []) _)

row_of-scanned :
    (row key rest : Bytes) (n e : ℕ)
    → key ≡ escape row ++ (0 ∷ 0 ∷ rest)
    → n ≡ length (escape row)
    → e ≡ null_count row
    → row_of key n e ≡ row
row_of-scanned row key rest n e p l q = rw (p, l, q) (row_of-escape row (0 ∷ 0 ∷ rest))

encode-parsed :
    (key rest y z f q : Bytes) (n e t : ℕ) (c : CellKey)
    → IsBytes key
    → scan_row key 0 0 ≡ some (n, e, rest)
    → parse_family rest ≡ some (f, y)
    → parse_qualifier y ≡ some (q, z)
    → parse_timestamp z ≡ some t
    → some (record { row_key = row_of key n e; family = f; qualifier = q; timestamp_micros = t })
      ≡ some c
    → (key_of c ≡ key) × IsCellKey c
encode-parsed key rest y z f q n e t c hb hs hf hq ht hc =
    let s = scan_row-Scanned key 0 0 hs in
    let hr =
      IsBytes-tail (0 ∷ 0 ∷ []) rest
        (IsBytes-tail (escape s.row) (0 ∷ 0 ∷ rest) (subst IsBytes s.reads hb)) in
    let (pf, lf, hy) = parse_family-eq_some rest hr hf in
    let (pq, lq, hz) = parse_qualifier-eq_some y hy hq in
    let (pt, lt) = parse_timestamp-eq_some z hz ht in
    let row =
      row_of-scanned s.row key rest n e s.reads (s.length_is ∙ zero-add _)
        (s.escapes ∙ zero-add _) in
    subst (λ d. (key_of d ≡ key) × IsCellKey d) (some-injective _ _ hc)
      (
        rw row (assemble s.row f q t lf lq s.reads pf pq pt),
        record { family_fits = lf; qualifier_fits = lq; timestamp_fits = lt },
      )

-- A key that is accepted is the encoding of the cell that is returned, and the cell is within the
-- limits of the encoding.
pub encode_cell_key-decode_cell_key :
    (key : Bytes) (c : CellKey)
    → IsBytes key
    → decode_cell_key key ≡ some c
    → (key_of c ≡ key) × IsCellKey c
unfolding decode_cell_key
encode_cell_key-decode_cell_key key c hb h =
    let (scanned, hs, h1) = bind-eq-some (scan_row key 0 0) _ h in
    let (fam, hf, h2) = bind-eq-some (parse_family scanned.2) _ h1 in
    let (qual, hq, h3) = bind-eq-some (parse_qualifier fam.1) _ h2 in
    let (t, ht, h4) = bind-eq-some (parse_timestamp qual.1) _ h3 in
    encode-parsed key scanned.2 fam.1 qual.1 fam.0 qual.0 scanned.0 scanned.1 t c hb hs hf hq ht h4
