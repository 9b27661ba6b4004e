-- ===== src/Bigtable/ReadModifyWrite/Response.antt =====
-- pkg/bigtable/readmodifywrite.go: the response against what the table holds afterwards.
use Prim.Native.String.{String}
use cloudpebble.Base.{
  ℕ, ◌≤◌, ◌<◌, ◌^◌, Bool, true, false, ◌&&◌, Option, none, some, List, [], ◌∷◌, ◌++◌, if◌then◌else◌,
  length, ==_refl, ◌≡◌, refl, sym, ap, ◌∙◌, arith, Bool-cases, Option-cases, inl, inr, All, subst,
  ◌⊎◌,
}
use cloudpebble.Base.Order.{Bytes, equal_bytes, equal_bytes_iff, equal_bytes_refl}
use cloudpebble.Pebble.{set, Batch, effect, effects, Pebble, effects-append}
use cloudpebble.Bigtable.Status.{Status, Result, ok, err}
use cloudpebble.Bigtable.Encoding.{encode_cell_key}
use cloudpebble.Bigtable.Mutate.Effects.{equal_bytes-encode_cell_key}
use cloudpebble.Bigtable.ReadModifyWrite.{
  Rule, Modified, new_value, put_modified, read_cell_value, apply_rules, read_modify_write_row,
}

-- what `modified` holds for a cell
unfoldable pub lookup : Bytes → Bytes → List Modified → Option Bytes
lookup f q [] = none
lookup f q (m ∷ ms) =
    if equal_bytes f m.family && equal_bytes q m.qualifier then some m.value else lookup f q ms

-- The names are within the limits of the encoding.
abbrev pub FitsRule : Rule → Type 0
FitsRule r = (length r.family_name ≤ 255) × (length r.column_qualifier ≤ 65535)

abbrev same : Bytes → Bytes → Bytes → Bytes → Bool
same f q f' q' = equal_bytes f f' && equal_bytes q q'

same-eq : (f q f' q' : Bytes) → same f q f' q' ≡ true → (f ≡ f') × (q ≡ q')
same-eq f q f' q' h = ground (arith, equal_bytes_iff f f', equal_bytes_iff q q')

same-sym : (f q f' q' : Bytes) → same f q f' q' ≡ same f' q' f q
same-sym f q f' q' =
    ground (
      arith,
      equal_bytes_iff f f',
      equal_bytes_iff q q',
      equal_bytes_iff f' f,
      equal_bytes_iff q' q,
    )

lookup-put_modified :
    (f q v f' q' : Bytes) (ms : List Modified)
    → lookup f q (put_modified f' q' v ms) ≡ (if same f q f' q' then some v else lookup f q ms)
unfolding lookup put_modified
lookup-put_modified f q v f' q' [] = refl
lookup-put_modified f q v f' q' (m ∷ ms) = elim (Bool-cases (same f' q' m.family m.qualifier)) [
  | inl e ↦
      let p = same-eq f' q' m.family m.qualifier e in
      rw (e, ← p.0, ← p.1)
        (elim (Bool-cases (same f q f' q')) [ inl s ↦ rw s refl | inr s ↦ rw s refl ])
  | inr e ↦
      let ih = lookup-put_modified f q v f' q' ms in
      rw e (elim (Bool-cases (same f q m.family m.qualifier)) [
        | inl s ↦
            let p = same-eq f q m.family m.qualifier s in
            let n : same f q f' q' ≡ false =
              rw (p.0, p.1) (same-sym m.family m.qualifier f' q' ∙ e) in
            rw (s, n) refl
        | inr s ↦ rw s ih
      ])
]

&&-true : (b : Bool) → (true && (b && true)) ≡ b
&&-true true = refl
&&-true false = refl

module _ (row : Bytes) (ts : ℕ) (ht : ts < 2 ^ 64) where
  abbrev key : Bytes → Bytes → Bytes
  key f q = encode_cell_key row f q ts

  -- the key of one column against that of another
  equal_bytes-key :
      (f q f' q' : Bytes)
      → length f ≤ 255
      → length q ≤ 65535
      → length f' ≤ 255
      → length q' ≤ 65535
      → equal_bytes (key f q) (key f' q') ≡ same f' q' f q
  equal_bytes-key f q f' q' hf hq hf' hq' =
      equal_bytes-encode_cell_key
        (record { row_key = row; family = f; qualifier = q; timestamp_micros = ts }) row f' q' ts hf
        hq ht hf' hq' ht
      ∙ rw (equal_bytes_refl row, ==_refl ts) (&&-true (same f' q' f q))

  -- What `modified` holds is what the batch puts at the keys.
  abbrev Agrees : Batch → List Modified → Type 0
  Agrees batch modified =
      (f q v : Bytes) (old : Option Bytes)
      → length f ≤ 255
      → length q ≤ 65535
      → lookup f q modified ≡ some v
      → effects batch (key f q) old ≡ some v

  Agrees-step :
      (batch : Batch) (modified : List Modified) (r : Rule) (v : Bytes)
      → FitsRule r
      → Agrees batch modified
      → Agrees
          (batch ++ set (key r.family_name r.column_qualifier) v ∷ [])
          (put_modified r.family_name r.column_qualifier v modified)
  Agrees-step batch modified r v fits agrees f q w old hf hq h =
      let at = lookup-put_modified f q v r.family_name r.column_qualifier modified in
      let g0 = sym at ∙ h in
      let k = equal_bytes-key f q r.family_name r.column_qualifier hf hq fits.0 fits.1 in
      let k' = k ∙ same-sym r.family_name r.column_qualifier f q in
      effects-append batch (set (key r.family_name r.column_qualifier) v ∷ []) (key f q) old
      ∙ (unfold effects in
          unfold effect in
          rw k' (elim (Bool-cases (same f q r.family_name r.column_qualifier)) [
            | inl s ↦ let g = rw s at g0 in rw s g
            | inr s ↦ let g = rw s at g0 in rw s (agrees f q w old hf hq g)
          ]))

Result-cases : {A : Type 0} (r : Result A) → ((s : Status) × (r ≡ err s)) ⊎ ((a : A) × (r ≡ ok a))
Result-cases (ok a) = inr (a, refl)
Result-cases (err s) = inl (s, refl)

ok-injective : {A : Type 0} (a b : A) → ok a ≡ ok b → a ≡ b
ok-injective a b h = cc

err-ne_ok : {A : Type 0} (s : Status) (b : A) → err s ≡ ok b → ⊥
err-ne_ok s b h = cc

module _ (pebble : Pebble) (row : Bytes) (ts : ℕ) (ht : ts < 2 ^ 64) (db : pebble.DB) where
  apply_rules-Agrees :
      (rules : List Rule) (batch : Batch) (modified : List Modified) (b : Batch) (m : List Modified)
      → apply_rules pebble db row ts rules batch modified ≡ ok (b, m)
      → All FitsRule rules
      → Agrees row ts ht batch modified
      → Agrees row ts ht b m
  unfolding apply_rules
  apply_rules-Agrees [] batch modified b m h fits agrees =
      let p = ok-injective (batch, modified) (b, m) h in
      subst (λ (x : Batch × List Modified). Agrees row ts ht x.0 x.1) p agrees
  apply_rules-Agrees (r ∷ rules) batch modified b m h fits agrees =
      let current = read_cell_value pebble db batch row r.family_name r.column_qualifier in
      elim (Result-cases (new_value current r.rule)) [
        | inl (s, e) ↦ absurd (err-ne_ok s (b, m) (rw (e, apply_rules) at h))
        | inr (v, e) ↦
            let h' = rw (e, apply_rules) at h in
            apply_rules-Agrees rules _ _ b m h' fits.1
              (Agrees-step row ts ht batch modified r v fits.0 agrees)
      ]

lookup-empty : (f q v : Bytes) → lookup f q [] ≡ some v → ⊥
unfolding lookup
lookup-empty f q v h = cc

succeeded :
    (pebble : Pebble) (opening : Option String) (commit : Batch → Option String) (db : pebble.DB)
    (row : Bytes) (rules : List Rule) (now : ℕ) (modified : List Modified) (db' : pebble.DB)
    → read_modify_write_row pebble opening commit db row rules now ≡ (ok modified, db')
    → (b : Batch) × (apply_rules pebble db row now rules [] [] ≡ ok (b, modified))
      × (pebble.apply db b ≡ db')
unfolding read_modify_write_row
succeeded pebble opening commit db [] rules now modified db' h = cc
succeeded pebble opening commit db (c ∷ row) [] now modified db' h = cc
succeeded pebble opening commit db (c ∷ row) (r ∷ rules) now modified db' h =
    elim (Option-cases opening) [
      | inr (cause, o) ↦ let k = rw (o, read_modify_write_row) at h in cc
      | inl o ↦ elim (Result-cases (apply_rules pebble db (c ∷ row) now (r ∷ rules) [] [])) [
        | inl (s, e) ↦ let k = rw (o, read_modify_write_row, e) at h in cc
        | inr ((b, m), e) ↦ elim (Option-cases (commit b)) [
          | inr (cause, g) ↦ let k = rw (o, read_modify_write_row, e, g) at h in cc
          | inl g ↦
              let k = rw (o, read_modify_write_row, e, g) at h in
              let p = ap (λ (x : Result (List Modified) × pebble.DB). x.0) k in
              let q = ap (λ (x : Result (List Modified) × pebble.DB). x.1) k in
              (b, e ∙ ap (λ x. ok (b, x)) (ok-injective m modified p), q)
        ]
      ]
    ]

-- When `ReadModifyWriteRow` succeeds, the table holds at the time of the call, whatever timestamps it
-- has in the column, for every column that the response names, the value that the response gives; the time is an int64, and the names of the
-- rules and of the column are within the limits of the encoding.
pub read_modify_write_row-response :
    (pebble : Pebble) (opening : Option String) (commit : Batch → Option String) (db : pebble.DB)
    (row : Bytes) (rules : List Rule) (now : ℕ) (modified : List Modified) (db' : pebble.DB)
    (f q v : Bytes)
    → now < 2 ^ 64
    → All FitsRule rules
    → length f ≤ 255
    → length q ≤ 65535
    → read_modify_write_row pebble opening commit db row rules now ≡ (ok modified, db')
    → lookup f q modified ≡ some v
    → pebble.get db' (encode_cell_key row f q now) ≡ some v
read_modify_write_row-response pebble opening commit db row rules now modified db' f q v ht fits hf
      hq h l =
    let (b, e, p) = succeeded pebble opening commit db row rules now modified db' h in
    let agrees =
      apply_rules-Agrees pebble row now ht db rules [] [] b modified e fits
        (λ f q v old hf hq l. absurd (lookup-empty f q v l)) in
    ap (λ d. pebble.get d (encode_cell_key row f q now)) (sym p)
    ∙ pebble.get-apply db b (encode_cell_key row f q now)
    ∙ agrees f q v (pebble.get db (encode_cell_key row f q now)) hf hq l
