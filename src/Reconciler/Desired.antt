-- ===== src/Reconciler/Desired.antt =====
-- `computeDesiredStatus` and `lookupCR`: the status that a reconcile wants a CR to have.
use runtime_overrides_operat.Prelude.{
  Str, bytes, str_eq, ◌&&◌, Option, none, some, List, [], ◌∷◌, print_nat, print_int, if◌then◌else◌,
}
use runtime_overrides_operat.Api.{
  TenantOverride, TenantOverrideStatus, Condition, condition, condition_validated,
  condition_applied, condition_true, condition_false, reason_validation_succeeded,
  reason_validation_failed, reason_written_to_config_map, ContributingPeer,
}
use runtime_overrides_operat.Overrides.{Override}
use runtime_overrides_operat.Peers.{compute_peers}
use runtime_overrides_operat.Platform.{Error}
use runtime_overrides_operat.Format.{concat}
use runtime_overrides_operat.Apply.{ApplyResult}
use runtime_overrides_operat.Reconciler.Gather.{Reconciler, Envelope}

unfoldable pub contributed_message : Reconciler → Envelope → ApplyResult → Str
contributed_message r e res = concat (
    bytes "Contributed to ConfigMap "
    ∷ r.output_cm.namespace
    ∷ bytes "/"
    ∷ r.output_cm.name
    ∷ bytes " generation "
    ∷ print_nat res.generation
    ∷ bytes " at weight "
    ∷ print_int e.override.weight
    ∷ bytes " (output hash sha256:"
    ∷ res.hash
    ∷ bytes ")"
    ∷ [])

abbrev pub validated_condition : Option Error → Condition
validated_condition none =
    condition condition_validated condition_true reason_validation_succeeded
      (bytes "parsed strictly and passed upstream Validate()")
validated_condition (some e) =
    condition condition_validated condition_false reason_validation_failed e.message

abbrev pub applied_condition : Reconciler → Envelope → ApplyResult → Option Error → Condition
applied_condition r e res none =
    condition condition_applied condition_true reason_written_to_config_map
      (contributed_message r e res)
applied_condition r e res (some x) =
    condition condition_applied condition_false reason_validation_failed
      (bytes "skipped from merge due to Validated=False")

abbrev pub peers_of : Envelope → List Override → Option Error → List ContributingPeer
peers_of e valid none = compute_peers e.override valid
peers_of e valid (some x) = []

unfoldable pub compute_desired_status :
    Reconciler → Envelope → List Override → ApplyResult → TenantOverrideStatus
compute_desired_status r e valid res = record {
  observed_generation = e.cr.generation;
  effective_tenant_id = e.effective;
  conditions = validated_condition e.valid_err ∷ applied_condition r e res e.valid_err ∷ [];
  contributing_peers = peers_of e valid e.valid_err;
}

unfoldable pub lookup_cr : List Envelope → Str → Str → Option TenantOverride
lookup_cr [] namespace name = none
lookup_cr (e ∷ es) namespace name =
    if str_eq e.cr.namespace namespace && str_eq e.cr.name name
    then some e.cr
    else lookup_cr es namespace name
