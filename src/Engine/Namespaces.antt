-- ===== src/Engine/Namespaces.antt =====
-- pkg/engine/engine.go and pkg/walcloud/manager.go: the paths of a namespace. `path.Join` and
-- `filepath.Join` clean what they join, so that they only put slashes between the parts when these are
-- proper names.
use cloudpebble.Base.{
  ℕ, ◌≤◌, max, List, [], ◌∷◌, ◌++◌, length, length-append, ◌≡◌, ◌≢◌, refl, sym, ◌∙◌, ap, arith, All,
  All-append,
}
use cloudpebble.Base.Order.{Bytes, equal_bytes}
use cloudpebble.Objstore.Filepath.{join_parts, is_void, clean, without_empty, join_all}
use cloudpebble.Objstore.Filepath.Names.{IsProper, clean-relative, join_parts-append}
use cloudpebble.Wal.Paths.{
  slash, wal_dir, wal_ext, wal_path, seq_num_width, decimal, IsDigit, decimal-IsDigit,
}
use cloudpebble.Engine.{
  IsName, manifest_name, data_dir, manifests_dir, json_ext, zero_padded, digit_count, manifest_path,
  manifest_version_path, data_path,
}

-- proper names between slashes
abbrev pub IsNamespace : Bytes → Type 0
IsNamespace ns =
    (p : Bytes) × (ps : List Bytes) × All IsProper (p ∷ ps) × (ns ≡ join_parts (p ∷ ps))

-- A name of three bytes or more is proper.
long-IsProper : (p : Bytes) → IsName p → 3 ≤ length p → IsProper p
unfolding is_void equal_bytes
long-IsProper [] h l = absurd (omega (arith, l))
long-IsProper (a ∷ []) h l = absurd (omega (arith, l))
long-IsProper (a ∷ b ∷ []) h l = absurd (omega (arith, l))
long-IsProper (a ∷ b ∷ c ∷ p) h l = (h, ground arith, ground arith)

digits-IsName : (ds : Bytes) → All IsDigit ds → IsName ds
digits-IsName [] h = tt
digits-IsName (d ∷ ds) h = (λ k. omega (arith, k, h.0.0), digits-IsName ds h.1)

numbered-IsProper :
    (n v : ℕ) (ext : Bytes) → IsName ext → 3 ≤ length ext → IsProper (decimal n v ++ ext)
numbered-IsProper n v ext h l =
    long-IsProper (decimal n v ++ ext)
      (All-append (λ (c : ℕ). c ≢ slash) (decimal n v) ext
        (digits-IsName (decimal n v) (decimal-IsDigit n v)) h)
      (omega (arith, l, length-append (decimal n v) ext))

proper-first :
    (p : Bytes) (ps qs : List Bytes)
    → IsProper p
    → without_empty (join_parts (p ∷ ps) ∷ qs) ≡ join_parts (p ∷ ps) ∷ without_empty qs
unfolding without_empty join_parts is_void equal_bytes
proper-first [] ps qs h = cc
proper-first (c ∷ p) [] qs h = refl
proper-first (c ∷ p) (q ∷ ps) qs h = refl

without_empty-proper : (ps : List Bytes) → All IsProper ps → without_empty ps ≡ ps
unfolding without_empty is_void equal_bytes
without_empty-proper [] h = refl
without_empty-proper ([] ∷ ps) h = let no = h.0.1 in cc
without_empty-proper ((c ∷ p) ∷ ps) h = ap (◌∷◌ (c ∷ p)) (without_empty-proper ps h.1)

-- `Join` of a path of proper names and of proper names puts slashes between them.
join_all-proper :
    (ns q : Bytes) (qs : List Bytes)
    → IsNamespace ns
    → All IsProper (q ∷ qs)
    → join_all (ns ∷ q ∷ qs) ≡ ns ++ (slash ∷ join_parts (q ∷ qs))
unfolding join_all join_parts
join_all-proper ns q qs (p, ps, proper, e) h =
    let kept =
      proper-first p ps (q ∷ qs) proper.0
      ∙ ap (λ xs. join_parts (p ∷ ps) ∷ xs) (without_empty-proper (q ∷ qs) h) in
    let flat = join_parts-append p ps q qs in
    let cleaned =
      clean-relative p (ps ++ (q ∷ qs)) (All-append IsProper (p ∷ ps) (q ∷ qs) proper h) in
    rw (e, kept, join_all) (ap clean flat ∙ cleaned ∙ sym flat)

-- `Clean` leaves a namespace of proper names.
pub clean-IsNamespace : (ns : Bytes) → IsNamespace ns → clean ns ≡ ns
clean-IsNamespace ns (p, ps, proper, e) = ap clean e ∙ clean-relative p ps proper ∙ sym e

wal_dir-IsProper : IsProper wal_dir
wal_dir-IsProper =
    long-IsProper wal_dir
      (λ k. omega (arith, k), (λ k. omega (arith, k), (λ k. omega (arith, k), tt))) (omega arith)

wal_ext-IsName : IsName wal_ext
wal_ext-IsName = (
  λ k. omega (arith, k),
  (λ k. omega (arith, k), (λ k. omega (arith, k), (λ k. omega (arith, k), tt))),
)

-- `walPath` is the path of the model, in a namespace of proper names.
join_all-wal_path :
    (ns : Bytes) (seq : ℕ)
    → IsNamespace ns
    → join_all (ns ∷ wal_dir ∷ (decimal seq_num_width seq ++ wal_ext) ∷ []) ≡ wal_path ns seq
unfolding wal_path join_parts
join_all-wal_path ns seq h =
    join_all-proper ns wal_dir ((decimal seq_num_width seq ++ wal_ext) ∷ []) h (
      wal_dir-IsProper,
      (numbered-IsProper seq_num_width seq wal_ext wal_ext-IsName (omega arith), tt),
    )

manifest_name-IsName : IsName manifest_name
manifest_name-IsName = (
  λ k. omega (arith, k),
  (
    λ k. omega (arith, k),
    (
      λ k. omega (arith, k),
      (
        λ k. omega (arith, k),
        (
          λ k. omega (arith, k),
          (λ k. omega (arith, k), (λ k. omega (arith, k), (λ k. omega (arith, k), tt))),
        ),
      ),
    ),
  ),
)

manifests_dir-IsProper : IsProper manifests_dir
manifests_dir-IsProper =
    long-IsProper manifests_dir
      (All-append (λ (c : ℕ). c ≢ slash) manifest_name (b's' ∷ []) manifest_name-IsName
        (λ k. omega (arith, k), tt))
      (omega arith)

data_dir-IsProper : IsProper data_dir
data_dir-IsProper =
    long-IsProper data_dir
      (
        λ k. omega (arith, k),
        (λ k. omega (arith, k), (λ k. omega (arith, k), (λ k. omega (arith, k), tt))),
      )
      (omega arith)

json_ext-IsName : IsName json_ext
json_ext-IsName = (
  λ k. omega (arith, k),
  (
    λ k. omega (arith, k),
    (λ k. omega (arith, k), (λ k. omega (arith, k), (λ k. omega (arith, k), tt))),
  ),
)

-- The same for `manifestPath`,
join_all-manifest_path :
    (ns : Bytes) → IsNamespace ns → join_all (ns ∷ manifest_name ∷ []) ≡ manifest_path ns
unfolding manifest_path join_parts
join_all-manifest_path ns h =
    join_all-proper ns manifest_name [] h
      (long-IsProper manifest_name manifest_name-IsName (omega arith), tt)

-- for `manifestVersionPath`,
join_all-manifest_version_path :
    (ns : Bytes) (v : ℕ)
    → IsNamespace ns
    → join_all (ns ∷ manifests_dir ∷ (zero_padded 6 v ++ json_ext) ∷ [])
      ≡ manifest_version_path ns v
unfolding manifest_version_path join_parts zero_padded
join_all-manifest_version_path ns v h =
    join_all-proper ns manifests_dir ((zero_padded 6 v ++ json_ext) ∷ []) h (
      manifests_dir-IsProper,
      (numbered-IsProper (max 6 (digit_count 18 v)) v json_ext json_ext-IsName (omega arith), tt),
    )

-- and for the `remotePath` of a file with a proper name.
join_all-data_path :
    (ns name : Bytes)
    → IsNamespace ns
    → IsProper name
    → join_all (ns ∷ data_dir ∷ name ∷ []) ≡ data_path ns name
unfolding data_path join_parts
join_all-data_path ns name h p =
    join_all-proper ns data_dir (name ∷ []) h (data_dir-IsProper, (p, tt))
