-- ===== src/Tests/Statuses.antt =====
-- Concrete conditions, peers and disabled targets (internal/controller).
use mathlib.Core.List.{Perm}
use runtime_overrides_operat.Prelude.{
  Str, bytes, str_eq, List, [], ◌∷◌, none, pos, ◌≡◌, ◌≢◌, arith, true, false, keep, map,
}
use runtime_overrides_operat.Api.{
  TenantOverride, Condition, condition, condition_validated, condition_applied, condition_true,
  reason_written_to_config_map, reason_validation_succeeded,
}
use runtime_overrides_operat.Status.{transition_time}
use runtime_overrides_operat.Status.Laws.{find_condition, is_said}
use runtime_overrides_operat.Peers.{compute_peers, peer_of}
use runtime_overrides_operat.Peers.Laws.{compute_peers-IsSorted, is_peer, by_peer_key}
use runtime_overrides_operat.Order.Sort.{IsSorted}
use runtime_overrides_operat.Overrides.{Override}
use runtime_overrides_operat.Disabled.{
  disabled_status, disabled_changed, disabled_condition, transitioned,
}
use runtime_overrides_operat.Disabled.Laws.{disabled_status-settles}
use runtime_overrides_operat.Tests.Documents.{first_cr, second_cr}

abbrev validated : Condition
validated = record (condition condition_validated condition_true reason_validation_succeeded []) {
  last_transition_time = 5;
}

abbrev applied : Condition
applied = condition condition_applied condition_true reason_written_to_config_map (bytes "new")

clock : 9 ≢ transition_time condition_applied (validated ∷ [])
unfolding transition_time str_eq
clock e = ground arith

abbrev group : List Override
group = second_cr ∷ first_cr ∷ []

compute_peers-IsSorted_example :
    Perm (compute_peers first_cr group) (map peer_of (keep (is_peer first_cr) group))
    × IsSorted by_peer_key (compute_peers first_cr group)
compute_peers-IsSorted_example = compute_peers-IsSorted first_cr group

abbrev loki_label : Str
loki_label = bytes "loki"

abbrev cr : TenantOverride
cr = record {
  namespace = bytes "ns";
  name = bytes "a";
  generation = pos 2;
  spec = record { tenant_id = []; weight = pos 10; overrides = none };
  status = record {
    observed_generation = pos 1;
    effective_tenant_id = bytes "ns";
    conditions = validated ∷ [];
    contributing_peers = [];
  };
}

disabled_status-settles_example :
    (is_said
        (find_condition condition_applied (disabled_status 9 loki_label cr).status.conditions)
        (disabled_condition loki_label)
      ≡ true)
    × ((disabled_status 9 loki_label cr).status.observed_generation ≡ pos 2)
    × (transitioned 12 loki_label (disabled_status 9 loki_label cr) ≡ false)
    × (disabled_changed 12 loki_label (disabled_status 9 loki_label cr) ≡ false)
unfolding disabled_status
disabled_status-settles_example = disabled_status-settles 9 12 loki_label cr
