-- ===== src/Engine/Sync/Paths.antt =====
-- pkg/engine/engine.go: the paths of the objects of a namespace do not meet.
use cloudpebble.Base.{ℕ, false, [], ◌∷◌, ◌++◌, ◌==◌, ◌≡◌, sym, ◌∙◌, arith, append_assoc, append-nil}
use cloudpebble.Base.Order.{Bytes, equal_bytes, has_prefix, equal_bytes-common, has_prefix-common}
use cloudpebble.Engine.{
  IsName, data_path, manifest_path, manifest_version_path, manifest_versions_prefix, data_dir,
  manifest_name,
}
use cloudpebble.Wal.Paths.{slash, base_from, base_from-slash, wal_path, wal_prefix}

module _ (ns : Bytes) where
  pub equal_bytes-data_path :
      (m n : Bytes) → equal_bytes (data_path ns m) (data_path ns n) ≡ equal_bytes m n
  unfolding data_path equal_bytes
  equal_bytes-data_path m n =
      equal_bytes-common ns (slash ∷ (data_dir ++ (slash ∷ m))) (slash ∷ (data_dir ++ (slash ∷ n)))

  pub data_path-manifest_path :
      (n : Bytes) → equal_bytes (data_path ns n) (manifest_path ns) ≡ false
  unfolding data_path manifest_path equal_bytes
  data_path-manifest_path n =
      equal_bytes-common ns (slash ∷ (data_dir ++ (slash ∷ n))) (slash ∷ manifest_name)

  pub data_path-version :
      (n : Bytes) (v : ℕ) → equal_bytes (data_path ns n) (manifest_version_path ns v) ≡ false
  unfolding data_path manifest_version_path equal_bytes
  data_path-version n v = equal_bytes-common ns (slash ∷ (data_dir ++ (slash ∷ n))) _

  pub data_path-wal_path :
      (n : Bytes) (seq : ℕ) → equal_bytes (data_path ns n) (wal_path ns seq) ≡ false
  unfolding data_path wal_path equal_bytes
  data_path-wal_path n seq = equal_bytes-common ns (slash ∷ (data_dir ++ (slash ∷ n))) _

  pub manifest_path-wal_path : (seq : ℕ) → equal_bytes (manifest_path ns) (wal_path ns seq) ≡ false
  unfolding manifest_path wal_path equal_bytes
  manifest_path-wal_path seq = equal_bytes-common ns (slash ∷ manifest_name) _

  pub data_path-versions :
      (n : Bytes) → has_prefix (data_path ns n) (manifest_versions_prefix ns) ≡ false
  unfolding data_path manifest_versions_prefix has_prefix
  data_path-versions n = has_prefix-common ns (slash ∷ (data_dir ++ (slash ∷ n))) _

  pub data_path-wals : (n : Bytes) → has_prefix (data_path ns n) (wal_prefix ns) ≡ false
  unfolding data_path wal_prefix has_prefix
  data_path-wals n = has_prefix-common ns (slash ∷ (data_dir ++ (slash ∷ n))) _

  pub manifest_path-versions : has_prefix (manifest_path ns) (manifest_versions_prefix ns) ≡ false
  unfolding manifest_path manifest_versions_prefix has_prefix
  manifest_path-versions = has_prefix-common ns (slash ∷ manifest_name) _

  pub manifest_path-wals : has_prefix (manifest_path ns) (wal_prefix ns) ≡ false
  unfolding manifest_path wal_prefix has_prefix
  manifest_path-wals = has_prefix-common ns (slash ∷ manifest_name) _

  base_from-name : (last n : Bytes) → IsName n → base_from last n ≡ last ++ n
  unfolding base_from
  base_from-name last [] h = sym (append-nil last)
  base_from-name last (c ∷ n) h =
      let no : c == slash ≡ false = ground (arith, h.0) in
      rw no (base_from-name (last ++ c ∷ []) n h.1 ∙ append_assoc last (c ∷ []) n)

  -- `filepath.Base` of the path of a data file is its name.
  pub base_from-data_path : (n : Bytes) → IsName n → base_from [] (data_path ns n) ≡ n
  unfolding data_path
  base_from-data_path n h =
      base_from-slash [] ns (data_dir ++ (slash ∷ n))
      ∙ base_from-slash [] data_dir n
      ∙ base_from-name [] n h
