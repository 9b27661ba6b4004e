-- ===== src/Bigtable/Server/Tables.antt =====
-- pkg/bigtable/server.go: each table has one engine, and the engines of tables do not meet in the store.
use Prim.Native.String.{String}
use cloudpebble.Base.{
  ℕ, true, false, none, some, List, [], ◌∷◌, ◌++◌, ◌≡◌, refl, ◌∙◌, sym, ap, subst, arith,
  Bool-cases, Option-cases, List-cases, inl, inr, append_assoc, if_true, if_false, ◌⊎◌,
}
use cloudpebble.Base.Order.{
  Bytes, equal_bytes, equal_bytes_refl, equal_bytes_iff, has_prefix, has_prefix-common,
}
use cloudpebble.Objstore.{Store}
use cloudpebble.Wal.Paths.{slash}
use cloudpebble.Engine.{Local}
use cloudpebble.Engine.Namespaces.{IsNamespace, clean-IsNamespace}
use cloudpebble.Objstore.Filepath.{clean}
use cloudpebble.Engine.Sync.{close_engine}
use cloudpebble.Engine.Sync.Outside.{IsBelow, IsOutside}
use cloudpebble.Engine.Open.{Place, Running, Opened, opened, not_opened, open_engine, with_defaults}
use cloudpebble.Engine.Open.Run.{Tick, run, run-outside, opened-IsSound}
use cloudpebble.Bigtable.Server.{
  Server, namespace_root, table_of, table_namespace, table_options, Engines, engine_of,
  opening_failed, get_engine,
}

-- A list with one of two prefixes, neither of which has the other, does not have the other.
has_prefix-apart :
    (p a b : Bytes)
    → has_prefix a b ≡ false
    → has_prefix b a ≡ false
    → has_prefix p a ≡ true
    → has_prefix p b ≡ false
unfolding has_prefix
has_prefix-apart p a [] h g k = cc
has_prefix-apart p [] (y ∷ b) h g k = cc
has_prefix-apart [] (x ∷ a) (y ∷ b) h g k = cc
has_prefix-apart (c ∷ p) (x ∷ a) (y ∷ b) h g k = ground (arith, has_prefix-apart p a b)

-- How namespaces of one root lie to each other is how their last parts do.
has_prefix-roots :
    (r t u : Bytes)
    → has_prefix ((r ++ (slash ∷ t)) ++ slash ∷ []) ((r ++ (slash ∷ u)) ++ slash ∷ [])
      ≡ has_prefix (t ++ slash ∷ []) (u ++ slash ∷ [])
unfolding has_prefix
has_prefix-roots r t u =
    ap (λ a. has_prefix a ((r ++ (slash ∷ u)) ++ slash ∷ [])) (append_assoc r (slash ∷ t) _)
    ∙ ap (has_prefix (r ++ (slash ∷ (t ++ slash ∷ [])))) (append_assoc r (slash ∷ u) _)
    ∙ has_prefix-common r (slash ∷ (t ++ slash ∷ [])) (slash ∷ (u ++ slash ∷ []))

-- neither name is a path below the other, or the other itself
abbrev pub IsApartFrom : Bytes → Bytes → Type 0
IsApartFrom t u =
    (has_prefix (t ++ slash ∷ []) (u ++ slash ∷ []) ≡ false)
    × (has_prefix (u ++ slash ∷ []) (t ++ slash ∷ []) ≡ false)

namespaces-IsApartFrom :
    {D : Type 0} (s : Server D) (t u : Bytes)
    → IsApartFrom t u
    → IsApartFrom (table_namespace s t) (table_namespace s u)
unfolding table_namespace
namespaces-IsApartFrom s t u (h, g) =
    (has_prefix-roots (namespace_root s) t u ∙ h, has_prefix-roots (namespace_root s) u t ∙ g)

table_namespace-default :
    {D : Type 0} (s : Server D) (t : Bytes)
    → (with_defaults (table_options s t)).namespace ≡ table_namespace s t
unfolding with_defaults table_options table_namespace
table_namespace-default s t = elim (List-cases (namespace_root s)) [
  | inl e ↦ rw e refl
  | inr (c, cs, e) ↦ rw e refl
]

Opened-cases :
    {D : Type 0} (r : Opened D)
    → ((c : String) × (r ≡ not_opened c)) ⊎ ((x : Running D) × (r ≡ opened x))
Opened-cases (not_opened c) = inl (c, refl)
Opened-cases (opened x) = inr (x, refl)

module _ (local : Local) (store : Store) (place : Bytes → Place local.pebble.DB) where
  abbrev Gotten : Type 0
  Gotten = Server local.pebble.DB × Engines local store place

  get : store.Objects → Bytes → Server local.pebble.DB → Gotten
  get o t s = get_engine local store place o t s

  -- what `Open` gives for a table
  opening : store.Objects → Bytes → Server local.pebble.DB → Opened local.pebble.DB
  opening o t s = open_engine local store (table_options s t) (place (table_options s t).dir) o

  get-open :
      (o : store.Objects) (t : Bytes) (s : Server local.pebble.DB) (x : Running local.pebble.DB)
      → table_of t s.tables ≡ some x
      → get o t s ≡ (s, engine_of x)
  unfolding get get_engine
  get-open o t s x h = rw (h, get_engine) refl

  get-opened :
      (o : store.Objects) (t : Bytes) (s : Server local.pebble.DB) (x : Running local.pebble.DB)
      → table_of t s.tables ≡ none
      → opening o t s ≡ opened x
      → get o t s ≡ (record s { tables = (t, x) ∷ s.tables }, engine_of x)
  unfolding get get_engine opening
  get-opened o t s x h e = rw (h, e, get_engine) refl

  get-failed :
      (o : store.Objects) (t : Bytes) (s : Server local.pebble.DB) (c : String)
      → table_of t s.tables ≡ none
      → opening o t s ≡ not_opened c
      → get o t s ≡ (s, opening_failed c)
  unfolding get get_engine opening
  get-failed o t s c h e = rw (h, e, get_engine) refl

  table_of-get :
      (o : store.Objects) (t u : Bytes) (s : Server local.pebble.DB) (x : Running local.pebble.DB)
      → table_of t s.tables ≡ some x
      → table_of t (get o u s).0.tables ≡ some x
  unfolding table_of
  table_of-get o t u s x h = elim (Option-cases (table_of u s.tables)) [
    | inr (y, e) ↦ ap (λ r. table_of t r.0.tables) (get-open o u s y e) ∙ h
    | inl e ↦ elim (Opened-cases (opening o u s)) [
      | inl (c, f) ↦ ap (λ r. table_of t r.0.tables) (get-failed o u s c e f) ∙ h
      | inr (y, f) ↦
          ap (λ r. table_of t r.0.tables) (get-opened o u s y e f)
          ∙ elim (Bool-cases (equal_bytes t u)) [
            | inr n ↦ if_false _ _ n ∙ h
            | inl n ↦
                let same = ap (λ v. table_of v s.tables) ((equal_bytes_iff t u).0 n) in
                let clash = sym h ∙ same ∙ e in cc
          ]
    ]
  ]

  -- the answer is an engine with a property, or it is an error
  abbrev Answers : (Running local.pebble.DB → Type 0) → Engines local store place → Type 0
  Answers P e = elim e [ engine_of x ↦ P x | opening_failed c ↦ Unit ]

  -- the engine of the answer is that of the table from then on
  get-Answers :
      (o : store.Objects) (t : Bytes) (s : Server local.pebble.DB)
      → Answers (λ x. table_of t (get o t s).0.tables ≡ some x) (get o t s).1
  unfolding table_of
  get-Answers o t s =
      let Good : Gotten → Type 0 = λ r. Answers (λ x. table_of t r.0.tables ≡ some x) r.1 in
      elim (Option-cases (table_of t s.tables)) [
        | inr (x, e) ↦ subst Good (sym (get-open o t s x e)) e
        | inl e ↦ elim (Opened-cases (opening o t s)) [
          | inl (c, f) ↦ subst Good (sym (get-failed o t s c e f)) tt
          | inr (x, f) ↦
              subst Good (sym (get-opened o t s x e f)) (if_true _ _ (equal_bytes_refl t))
        ]
      ]

  get-Answers-opening :
      (o : store.Objects) (t : Bytes) (s : Server local.pebble.DB)
      → table_of t s.tables ≡ none
      → Answers (λ x. opening o t s ≡ opened x) (get o t s).1
  get-Answers-opening o t s e =
      let Good : Gotten → Type 0 = λ r. Answers (λ x. opening o t s ≡ opened x) r.1 in
      elim (Opened-cases (opening o t s)) [
        | inl (c, f) ↦ subst Good (sym (get-failed o t s c e f)) tt
        | inr (x, f) ↦ subst Good (sym (get-opened o t s x e f)) f
      ]

  -- After `getEngine` has returned an engine for a table, it returns the same one for that table, and
  -- changes nothing, whatever table it was called for in between and whatever the store held then.
  pub get_engine-again :
      (o o' o'' : store.Objects) (t u : Bytes) (s s' : Server local.pebble.DB)
      (x : Running local.pebble.DB)
      → get_engine local store place o t s ≡ (s', engine_of x)
      → get_engine local store place o'' t (get_engine local store place o' u s').0
        ≡ ((get_engine local store place o' u s').0, engine_of x)
  unfolding get
  get_engine-again o o' o'' t u s s' x h =
      let Good : Gotten → Type 0 = λ r. Answers (λ y. table_of t r.0.tables ≡ some y) r.1 in
      get-open o'' t (get o' u s').0 x (table_of-get o' t u s' x (subst Good h (get-Answers o t s)))

  -- An engine that `getEngine` opens for a table changes no object below the namespace of another
  -- table, as `path.Join` cleans it, by any ticks of its goroutines and a `Close` after them: when
  -- both namespaces are proper names between slashes, with no empty name, "." or "..", and neither
  -- table name is a path below the other, or the other itself.
  pub tables-isolated :
      (usage : local.pebble.DB → ℕ) (compact : local.pebble.DB → local.pebble.DB)
      (o : store.Objects) (t u : Bytes) (s s' : Server local.pebble.DB)
      (x : Running local.pebble.DB) (ts : List Tick) (now : ℕ) (p : Bytes)
      → table_of t s.tables ≡ none
      → get_engine local store place o t s ≡ (s', engine_of x)
      → IsNamespace (table_namespace s t)
      → IsNamespace (table_namespace s u)
      → IsApartFrom u t
      → IsBelow (clean (table_namespace s u)) p
      → let r = run local store usage compact ts (x, o) in
        store.content (close_engine local store r.0.ns now r.1 r.0.engine).1 p ≡ store.content o p
  unfolding get opening
  tables-isolated usage compact o t u s s' x ts now p e h plain proper apart joined =
      let Good : Gotten → Type 0 = λ r. Answers (λ y. opening o t s ≡ opened y) r.1 in
      let opts = table_options s t in
      let at = place opts.dir in
      let f = subst Good h (get-Answers-opening o t s e) in
      let (named, sound) = opened-IsSound local store usage compact opts at o x f in
      let (there, back) = namespaces-IsApartFrom s u t apart in
      let below =
        subst (λ n. IsBelow n p) (clean-IsNamespace (table_namespace s u) proper) joined in
      let out = has_prefix-apart p _ _ there back below in
      run-outside local store usage compact opts at o x ts now p f
        (subst (λ n. IsOutside n p) (sym (named ∙ table_namespace-default s t)) out)
