-- ===== src/Engine/Open/Defaults.antt =====
-- pkg/engine/engine.go: the defaults of `Open`.
use cloudpebble.Base.{
  ℕ, true, [], ◌∷◌, ◌≡◌, ◌≢◌, ◌==◌, refl, arith, Bool-cases, inl, inr, if_true, if_false,
  if◌then◌else◌, subst, sym,
}
use cloudpebble.Base.Int64.{lt_int64}
use cloudpebble.Base.Order.{Bytes}
use cloudpebble.Engine.Open.{
  Options, default_namespace, default_batch_window, with_defaults, default_sync_interval,
  default_cold_miss_threshold, default_orphan_wal_ttl,
}

positive : (d v : ℕ) → lt_int64 0 d ≡ true → lt_int64 0 (if lt_int64 0 v then v else d) ≡ true
positive d v h = elim (Bool-cases (lt_int64 0 v)) [
  | inl e ↦ subst (λ x. lt_int64 0 x ≡ true) (sym (if_true v d e)) e
  | inr e ↦ subst (λ x. lt_int64 0 x ≡ true) (sym (if_false v d e)) h
]

named : (ns : Bytes) → elim ns [ [] ↦ default_namespace | c ∷ cs ↦ c ∷ cs ] ≢ []
named [] h = cc
named (c ∷ cs) h = cc

window : (v : ℕ) → (if v == 0 then default_batch_window else v) ≢ 0
window v h = ground (arith, h)

-- Whatever the options are, `Open` works with a namespace, a batch window that is not zero, and a
-- positive interval of `Sync`, threshold of misses and time to live of orphans: neither the recovery
-- on misses nor the deletion of orphans can be disabled.
pub with_defaults-positive :
    (opts : Options)
    → ((with_defaults opts).namespace ≢ [])
      × ((with_defaults opts).batch_window ≢ 0)
      × (lt_int64 0 (with_defaults opts).sync_interval ≡ true)
      × (lt_int64 0 (with_defaults opts).cold_miss_threshold ≡ true)
      × (lt_int64 0 (with_defaults opts).orphan_wal_ttl ≡ true)
unfolding with_defaults
with_defaults-positive opts = (
  named opts.namespace,
  window opts.batch_window,
  positive default_sync_interval opts.sync_interval refl,
  positive default_cold_miss_threshold opts.cold_miss_threshold refl,
  positive default_orphan_wal_ttl opts.orphan_wal_ttl refl,
)
