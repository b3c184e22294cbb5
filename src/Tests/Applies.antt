-- ===== src/Tests/Applies.antt =====
-- Concrete applies, bootstraps and drift checks (internal/apply, internal/controller).
use runtime_overrides_operat.Prelude.{
  Str, str_eq, str_eq_iff, [], ◌∷◌, some, ◌≡◌, refl, ap, arith, lookup, false,
}
use runtime_overrides_operat.Proc.{State, returns, ◌>>=◌}
use runtime_overrides_operat.Render.{Output, render}
use runtime_overrides_operat.Overrides.Keys.{DistinctKeys}
use runtime_overrides_operat.Render.Extensional.{render_extensional}
use runtime_overrides_operat.Apply.{
  ApplyResult, apply_config_map, write_config_map, desired_config_map,
}
use runtime_overrides_operat.Apply.Laws.{apply_config_map-Lands, Lands}
use runtime_overrides_operat.Tests.Documents.{rate, burst, base, change}
use runtime_overrides_operat.Tests.Cluster.{SmallCluster, small, output_name, empty_cluster}

abbrev written : State SmallCluster
written = record empty_cluster {
  cluster = record { live = some (desired_config_map output_name rate); crs = []; clock = 5 };
}

abbrev applied : ApplyResult
applied = record { hash = rate; generation = 0; skipped = false }

apply_runs : apply_config_map small output_name rate empty_cluster ≡ (returns applied, written)
unfolding apply_config_map write_config_map ◌>>=◌
apply_runs = refl

apply_config_map-Lands_example :
    (rate ≡ small.sha256_hex rate)
    × Lands small output_name rate empty_cluster applied
        (apply_config_map small output_name rate empty_cluster).1
apply_config_map-Lands_example =
    apply_config_map-Lands small output_name rate empty_cluster applied (ap (λ p. p.0) apply_runs)

abbrev tenants : Output
tenants = (rate, base) ∷ (burst, change) ∷ []

abbrev other_tenants : Output
other_tenants = (burst, change) ∷ (rate, base) ∷ []

same_tenants : (k : Str) → lookup k tenants ≡ lookup k other_tenants
unfolding lookup str_eq
same_tenants k = ground (arith, str_eq_iff rate k, str_eq_iff burst k, str_eq_iff rate burst)

tenants-DistinctKeys : DistinctKeys tenants
unfolding lookup str_eq
tenants-DistinctKeys = (refl, (refl, tt))

other_tenants-DistinctKeys : DistinctKeys other_tenants
unfolding lookup str_eq
other_tenants-DistinctKeys = (refl, (refl, tt))

render_extensional_example : render small tenants ≡ render small other_tenants
render_extensional_example =
    render_extensional small tenants other_tenants tenants-DistinctKeys other_tenants-DistinctKeys
      same_tenants
