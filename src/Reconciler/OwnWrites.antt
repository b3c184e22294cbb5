-- ===== src/Reconciler/OwnWrites.antt =====
-- `checkDrift` of the reconcilers after a write by internal/apply.
use runtime_overrides_operat.Prelude.{Str, str_eq_refl, none, some, ◌≡◌, refl, lookup}
use runtime_overrides_operat.Api.{NamespacedName}
use runtime_overrides_operat.Drift.{ConfigMap, HashCache, get_hash}
use runtime_overrides_operat.Platform.{Platform, ok}
use runtime_overrides_operat.Proc.{State, returns, ◌>>=◌}
use runtime_overrides_operat.Render.{data_key}
use runtime_overrides_operat.Apply.Laws.{GetReads}
use runtime_overrides_operat.Reconciler.Gather.{Reconciler, label}
use runtime_overrides_operat.Reconciler.Output.{check_drift, or_empty_text}

module _ (w : Platform) where
  open w use {Cluster, get_config_map, sha256_hex}

  -- The cache has the hash of what the ConfigMap of a target holds, a missing key being empty.
  abbrev pub IsCached : State Cluster → Str → NamespacedName → Type 0
  IsCached s target name =
      (cache : HashCache) × (live : ConfigMap) × (s.hashes ≡ some cache)
      × ((get_config_map name s.cluster).0 ≡ ok live)
      × (get_hash cache target ≡ some (sha256_hex (or_empty_text (lookup data_key live.contents))))

  module _ (reads : GetReads w) where
    pub check_drift-cached :
        (r : Reconciler) (s : State Cluster)
        → IsCached s (label r) r.output_cm
        → check_drift w r s ≡ (returns none, s)
    unfolding check_drift ◌>>=◌
    check_drift-cached r s (cache, live, hashes, got, hash) =
        rw
          (
            hashes,
            hash,
            got,
            reads r.output_cm s.cluster,
            str_eq_refl (sha256_hex (or_empty_text (lookup data_key live.contents))),
          )
          refl
