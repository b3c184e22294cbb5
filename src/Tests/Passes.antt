-- ===== src/Tests/Passes.antt =====
-- A whole pass of the reconciler over a cluster with one CR (internal/controller).
use mathlib.Core.Quot.{Quot}
use runtime_overrides_operat.Prelude.{
  some, Str, bytes, All, [], ◌∷◌, map, none, ◌≡◌, refl, lookup, insert, str_eq, print_nat,
  print_int,
}
use runtime_overrides_operat.Value.{get, put}
use runtime_overrides_operat.Order.Sort.{sort_stable}
use runtime_overrides_operat.Overrides.{group_by_tenant, sort_group}
use runtime_overrides_operat.Proc.{State}
use runtime_overrides_operat.Render.{render, Output}
use runtime_overrides_operat.Reconciler.Gather.{envelope_of}
use runtime_overrides_operat.Reconciler.Output.{valid_overrides}
use runtime_overrides_operat.Reconciler.Desired.{compute_desired_status, contributed_message}
use runtime_overrides_operat.Reconciler.Loop.{ReconcileAnswer, reconcile}
use runtime_overrides_operat.Conflict.Events.{leaves}
use runtime_overrides_operat.Platform.{ok}
use runtime_overrides_operat.Proc.Emits.{Ends}
use runtime_overrides_operat.Reconciler.Total.{IsFlatCr}
use runtime_overrides_operat.Reconciler.Forward.{valid_of}
use runtime_overrides_operat.Reconciler.Refines.{desired_body}
use runtime_overrides_operat.Api.{TenantOverride}
use runtime_overrides_operat.Drift.{ConfigMap, set_hash}
use runtime_overrides_operat.Status.{conditions_changed, conditions_equivalent}
use runtime_overrides_operat.Peers.{peers_changed, compute_peers}
use runtime_overrides_operat.Apply.{desired_config_map}
use runtime_overrides_operat.Apply.Laws.{IsCurrent}
use runtime_overrides_operat.Reconciler.Statuses.{needs_update}
use runtime_overrides_operat.Reconciler.Idle.{HasStatus}
use runtime_overrides_operat.Reconciler.Rests.{found_result, reconcile-rests}
use runtime_overrides_operat.Tests.Cluster.{
  SmallCluster, small, small-GetReads, output_name, empty_cluster, reconciler_with, cr,
}

abbrev before : State SmallCluster
before = record empty_cluster { cluster = record { live = none; crs = cr ∷ []; clock = 5 } }

renders : (out : Output) → (body : Str) × (render small out ≡ ok body)
unfolding render
renders out = (bytes "body", refl)

-- The CR with the status that the first pass gives it, beside the ConfigMap that it writes.
abbrev settled_map : ConfigMap
settled_map = desired_config_map output_name (bytes "body")

abbrev settled_cr : TenantOverride
settled_cr = record cr {
  status =
      compute_desired_status (reconciler_with none) (envelope_of small (reconciler_with none) cr)
        (valid_of small (reconciler_with none) (cr ∷ []))
        (found_result small (reconciler_with none) (bytes "body") settled_map);
}

abbrev settled : State SmallCluster
settled = record {
  cluster = record { live = some settled_map; crs = settled_cr ∷ []; clock = 7 };
  hashes = some ((bytes "loki", bytes "body") ∷ []);
  trace = [];
}

settled_flat : All IsFlatCr (valid_of small (reconciler_with none) (settled_cr ∷ []))
unfolding valid_overrides envelope_of leaves
settled_flat = ((tt, (tt, tt)), tt)

settled_body :
    desired_body small (reconciler_with none) (Quot.mk (settled_cr ∷ [], (tt, tt)))
    ≡ some (bytes "body")
unfolding desired_body render
settled_body = refl

settled-IsCurrent : IsCurrent small settled.cluster output_name (bytes "body") settled_map
unfolding lookup str_eq
settled-IsCurrent = (bytes "body", refl, refl, refl)

settled_hash : settled.hashes ≡ some (set_hash [] (bytes "loki") (bytes "body"))
unfolding insert
settled_hash = refl

settled_status :
    All
      (HasStatus small
        (reconciler_with none)
        (valid_of small (reconciler_with none) (settled_cr ∷ []))
        (found_result small (reconciler_with none) (bytes "body") settled_map))
      (map (envelope_of small (reconciler_with none)) (settled_cr ∷ []))
unfolding needs_update compute_desired_status conditions_changed conditions_equivalent peers_changed
    envelope_of valid_overrides str_eq print_nat print_int get put group_by_tenant sort_group lookup
    insert compute_peers contributed_message sort_stable
settled_status = (refl, tt)

reconcile-rests_example :
    Ends
      (reconcile small (reconciler_with none))
      settled
      ReconcileAnswer.done
      (small.now settled.cluster).1
      settled.hashes
reconcile-rests_example =
    reconcile-rests small (reconciler_with none) (settled_cr ∷ []) (tt, tt) settled []
      (bytes "body") settled_map small-GetReads (λ t c. refl) renders refl settled_flat settled_body
      settled-IsCurrent settled_hash settled_status
