-- ===== src/Bigtable/Filter/Reset.antt =====
-- pkg/bigtable/filter.go: `reset` between rows.
use cloudpebble.Base.{
  ℕ, Bool, true, false, Option, some, List, [], ◌∷◌, if◌then◌else◌, ◌≡◌, refl, ◌∙◌, ap, arith,
  Bool-cases, inl, inr,
}
use cloudpebble.Base.Order.{Bytes}
use cloudpebble.Base.OptionMonad.{bind-eq-some}
use mathlib.Core.Path.{subst}
use mathlib.Core.Option.{some-injective}
use cloudpebble.Bigtable.Filter.Message
use cloudpebble.Bigtable.Filter.Message.{RowFilter, Filters, MaybeFilter}
use cloudpebble.Bigtable.Filter.Leaves.{CellInfo}
use cloudpebble.Bigtable.Filter.Evaluator.{
  Evaluator, Evaluators, MaybeEvaluator, chain, interleave, condition, pass_all, block_all,
  row_key_regex, family_regex, qualifier_regex, column_range, timestamp_range, cells_per_row_offset,
  cells_per_row_limit, cells_per_column_limit, strip_value, apply_label, value_regex, value_range,
  value_bitmask, row_sample, none_left, more, absent, present, evaluate, evaluate_chain,
  evaluate_first, evaluate_maybe, reset, reset_all, reset_maybe, build_evaluator, build_all,
  build_predicate, build_maybe, seen_in, identity,
}

-- Up to the sampling decision, which a reset leaves.
unfoldable mutual
  pub is_sampling : Evaluator → Bool
  is_sampling (chain fs) = any_sampling fs
  is_sampling (interleave fs seen) = any_sampling fs
  is_sampling (condition pred tf ff) =
      if is_sampling pred then true else if maybe_sampling tf then true else maybe_sampling ff
  is_sampling (row_sample below row sampled) = true
  is_sampling e = false

  pub any_sampling : Evaluators → Bool
  any_sampling none_left = false
  any_sampling (more f fs) = if is_sampling f then true else any_sampling fs

  pub maybe_sampling : MaybeEvaluator → Bool
  maybe_sampling absent = false
  maybe_sampling (present f) = is_sampling f

two : (a b : Bool) → (if a then true else b) ≡ false → (a ≡ false) × (b ≡ false)
two a b h = ground arith

three :
    (a b c : Bool)
    → (if a then true else if b then true else c) ≡ false
    → (a ≡ false) × (b ≡ false) × (c ≡ false)
three a b c h = ground arith

mutual
  unfolding is_sampling evaluate reset

  forget :
      (e : Evaluator) (cell : CellInfo) (draws : ℕ)
      → is_sampling e ≡ false
      → (reset (evaluate e cell draws).1 ≡ reset e)
        × (is_sampling (evaluate e cell draws).1 ≡ false)
  forget (chain fs) cell draws h = let ih = forget_chain fs cell draws h in (ap chain ih.0, ih.1)
  forget (interleave fs seen) cell draws h =
      let ih = forget_first fs cell draws h in
      elim (Bool-cases (evaluate_first fs cell draws).0) [
        | inr refused ↦ rw refused (ap (λ x. interleave x []) ih.0, ih.1)
        | inl p ↦ elim (Bool-cases (seen_in (identity cell) seen)) [
          | inl old ↦ rw (p, old) (ap (λ x. interleave x []) ih.0, ih.1)
          | inr new ↦ rw (p, new) (ap (λ x. interleave x []) ih.0, ih.1)
        ]
      ]
  forget (condition pred tf ff) cell draws h =
      let (hp, ht, hf) = three (is_sampling pred) (maybe_sampling tf) (maybe_sampling ff) h in
      let ip = forget pred cell draws hp in
      let it = forget_maybe tf true cell (evaluate pred cell draws).2 ht in
      let if' = forget_maybe ff false cell (evaluate pred cell draws).2 hf in
      elim (Bool-cases (evaluate pred cell draws).0) [
        | inl p ↦ rw (p, ip.0, it.0, ip.1, it.1) (refl, hf)
        | inr p ↦ rw (p, ip.0, if'.0, ip.1, ht, if'.1) (refl, refl)
      ]
  forget pass_all cell draws h = (refl, refl)
  forget block_all cell draws h = (refl, refl)
  forget (row_key_regex re) cell draws h = (refl, refl)
  forget (family_regex re) cell draws h = (refl, refl)
  forget (qualifier_regex re) cell draws h = (refl, refl)
  forget (column_range c) cell draws h = (refl, refl)
  forget (timestamp_range t) cell draws h = (refl, refl)
  forget (cells_per_row_offset k n) cell draws h = (refl, refl)
  forget (cells_per_row_limit k n) cell draws h = ground arith
  forget (cells_per_column_limit k counts) cell draws h = ground arith
  forget strip_value cell draws h = (refl, refl)
  forget (apply_label l) cell draws h = (refl, refl)
  forget (value_regex re) cell draws h = (refl, refl)
  forget (value_range v) cell draws h = (refl, refl)
  forget (value_bitmask m) cell draws h = (refl, refl)
  forget (row_sample below row sampled) cell draws h = cc

  forget_chain :
      (fs : Evaluators) (cell : CellInfo) (draws : ℕ)
      → any_sampling fs ≡ false
      → (reset_all (evaluate_chain fs cell draws).1 ≡ reset_all fs)
        × (any_sampling (evaluate_chain fs cell draws).1 ≡ false)
  forget_chain none_left cell draws h = (refl, refl)
  forget_chain (more f fs) cell draws h =
      let (hf, hfs) = two (is_sampling f) (any_sampling fs) h in
      let i = forget f cell draws hf in
      let is = forget_chain fs cell (evaluate f cell draws).2 hfs in
      elim (Bool-cases (evaluate f cell draws).0) [
        | inl p ↦ rw (p, i.0, is.0, i.1) (refl, is.1)
        | inr p ↦ rw (p, i.0, i.1) (refl, hfs)
      ]

  forget_first :
      (fs : Evaluators) (cell : CellInfo) (draws : ℕ)
      → any_sampling fs ≡ false
      → (reset_all (evaluate_first fs cell draws).1 ≡ reset_all fs)
        × (any_sampling (evaluate_first fs cell draws).1 ≡ false)
  forget_first none_left cell draws h = (refl, refl)
  forget_first (more f fs) cell draws h =
      let (hf, hfs) = two (is_sampling f) (any_sampling fs) h in
      let i = forget f cell draws hf in
      let is = forget_first fs cell (evaluate f cell draws).2 hfs in
      elim (Bool-cases (evaluate f cell draws).0) [
        | inl p ↦ rw (p, i.0, i.1) (refl, hfs)
        | inr p ↦ rw (p, i.0, is.0, i.1) (refl, is.1)
      ]

  forget_maybe :
      (f : MaybeEvaluator) (otherwise : Bool) (cell : CellInfo) (draws : ℕ)
      → maybe_sampling f ≡ false
      → (reset_maybe (evaluate_maybe f otherwise cell draws).1 ≡ reset_maybe f)
        × (maybe_sampling (evaluate_maybe f otherwise cell draws).1 ≡ false)
  forget_maybe absent otherwise cell draws h = (refl, refl)
  forget_maybe (present f) otherwise cell draws h =
      let i = forget f cell draws h in (ap present i.0, i.1)

-- the evaluator after a row's cells
unfoldable pub after : Evaluator → List CellInfo → ℕ → Evaluator
after e [] draws = e
after e (cell ∷ cells) draws = let (p, e', draws') = evaluate e cell draws in after e' cells draws'

reset-after :
    (e : Evaluator) (cells : List CellInfo) (draws : ℕ)
    → is_sampling e ≡ false
    → reset (after e cells draws) ≡ reset e
unfolding after
reset-after e [] draws h = refl
reset-after e (cell ∷ cells) draws h =
    let (r, s) = forget e cell draws h in
    reset-after (evaluate e cell draws).1 cells (evaluate e cell draws).2 s ∙ r

module _ (compile : Bytes → Option (Bytes → Bool)) where
  mutual
    unfolding build_evaluator reset

    fresh : (f : RowFilter) (e : Evaluator) → build_evaluator compile f ≡ some e → reset e ≡ e
    fresh (Message.chain fs) e h =
        let (es, b, r) = bind-eq-some (build_all compile fs) _ h in
        subst (λ x. reset x ≡ x) (some-injective _ _ r) (ap chain (fresh_all fs es b))
    fresh (Message.interleave fs) e h =
        let (es, b, r) = bind-eq-some (build_all compile fs) _ h in
        subst (λ x. reset x ≡ x) (some-injective _ _ r)
          (ap (λ x. interleave x []) (fresh_all fs es b))
    fresh (Message.condition pred tf ff) e h =
        let (p, bp, h1) = bind-eq-some (build_predicate compile pred) _ h in
        let (t, bt, h2) = bind-eq-some (build_maybe compile tf) _ h1 in
        let (f, bf, r) = bind-eq-some (build_maybe compile ff) _ h2 in
        subst (λ x. reset x ≡ x) (some-injective _ _ r)
          (rw (fresh_predicate pred p bp, fresh_maybe tf t bt, fresh_maybe ff f bf))
    fresh (Message.row_key_regex s) e h =
        let (re, b, r) = bind-eq-some (compile s) _ h in
        subst (λ x. reset x ≡ x) (some-injective _ _ r) refl
    fresh (Message.family_name_regex s) e h =
        let (re, b, r) = bind-eq-some (compile s) _ h in
        subst (λ x. reset x ≡ x) (some-injective _ _ r) refl
    fresh (Message.column_qualifier_regex s) e h =
        let (re, b, r) = bind-eq-some (compile s) _ h in
        subst (λ x. reset x ≡ x) (some-injective _ _ r) refl
    fresh (Message.value_regex s) e h =
        let (re, b, r) = bind-eq-some (compile s) _ h in
        subst (λ x. reset x ≡ x) (some-injective _ _ r) refl
    fresh _ e h = subst (λ x. reset x ≡ x) (some-injective _ _ h) refl

    fresh_all :
        (fs : Filters) (es : Evaluators) → build_all compile fs ≡ some es → reset_all es ≡ es
    fresh_all Message.none_left es h = subst (λ x. reset_all x ≡ x) (some-injective _ _ h) refl
    fresh_all (Message.more f fs) es h =
        let (f', b, h1) = bind-eq-some (build_evaluator compile f) _ h in
        let (fs', bs, r) = bind-eq-some (build_all compile fs) _ h1 in
        subst (λ x. reset_all x ≡ x) (some-injective _ _ r) (rw (fresh f f' b, fresh_all fs fs' bs))

    fresh_predicate :
        (f : MaybeFilter) (e : Evaluator) → build_predicate compile f ≡ some e → reset e ≡ e
    fresh_predicate Message.absent e h = subst (λ x. reset x ≡ x) (some-injective _ _ h) refl
    fresh_predicate (Message.present f) e h = fresh f e h

    fresh_maybe :
        (f : MaybeFilter) (e : MaybeEvaluator) → build_maybe compile f ≡ some e → reset_maybe e ≡ e
    fresh_maybe Message.absent e h = subst (λ x. reset_maybe x ≡ x) (some-injective _ _ h) refl
    fresh_maybe (Message.present f) e h =
        let (f', b, r) = bind-eq-some (build_evaluator compile f) _ h in
        subst (λ x. reset_maybe x ≡ x) (some-injective _ _ r) (ap present (fresh f f' b))

  -- A reset makes a filter forget the row it has seen: after any cells, the evaluator is again the one
  -- that was built from the message, unless it takes samples.
  pub reset-after-build_evaluator :
      (f : RowFilter) (e : Evaluator) (cells : List CellInfo) (draws : ℕ)
      → build_evaluator compile f ≡ some e
      → is_sampling e ≡ false
      → reset (after e cells draws) ≡ e
  reset-after-build_evaluator f e cells draws h s = reset-after e cells draws s ∙ fresh f e h
