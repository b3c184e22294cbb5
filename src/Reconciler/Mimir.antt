-- ===== src/Reconciler/Mimir.antt =====
-- internal/controller/mimir_controller.go: the methods of MimirReconciler are those of
-- LokiReconciler line by line, on the Mimir kind and with the label "mimir".
use runtime_overrides_operat.Prelude.{Str, Bool, Option, List, Dict}
use runtime_overrides_operat.Value.{Fields}
use runtime_overrides_operat.Api.{TenantOverride, TenantOverrideStatus, NamespacedName}
use runtime_overrides_operat.Overrides.{Override}
use runtime_overrides_operat.Conflict.{FieldConflict}
use runtime_overrides_operat.Platform.{Platform, Error, mimir}
use runtime_overrides_operat.Proc.{Proc}
use runtime_overrides_operat.Apply.{ApplyResult}
use runtime_overrides_operat.Reconciler.Gather.{Reconciler, Envelope, gather}
use runtime_overrides_operat.Reconciler.Output.{check_drift}
use runtime_overrides_operat.Reconciler.Desired.{compute_desired_status, lookup_cr}
use runtime_overrides_operat.Reconciler.Statuses.{update_statuses}
use runtime_overrides_operat.Reconciler.Loop.{ReconcileAnswer, reconcile}

-- `MimirReconciler`, by its output ConfigMap, its validator and whether it has a recorder.
unfoldable pub mimir_reconciler : NamespacedName → (Fields → Option Error) → Bool → Reconciler
mimir_reconciler output_cm validate recorder = record {
  target = mimir;
  output_cm = output_cm;
  validate = validate;
  recorder = recorder;
}

unfoldable pub lookup_mimir_cr : List Envelope → Str → Str → Option TenantOverride
lookup_mimir_cr envelopes namespace name = lookup_cr envelopes namespace name

module _ (w : Platform) (output_cm : NamespacedName) (validate : Fields → Option Error)
    (recorder : Bool) where
  open w use {Cluster}

  unfoldable pub mimir_check_drift : Proc Cluster (Option Str)
  mimir_check_drift = check_drift w (mimir_reconciler output_cm validate recorder)

  unfoldable pub mimir_gather : Proc Cluster (List Envelope)
  mimir_gather = gather w (mimir_reconciler output_cm validate recorder)

  unfoldable pub mimir_update_statuses :
      List Envelope → List Override → Dict (List FieldConflict) → ApplyResult → Proc Cluster Bool
  mimir_update_statuses = update_statuses w (mimir_reconciler output_cm validate recorder)

  unfoldable pub mimir_compute_desired_status :
      Envelope → List Override → ApplyResult → TenantOverrideStatus
  mimir_compute_desired_status =
      compute_desired_status (mimir_reconciler output_cm validate recorder)

  unfoldable pub mimir_reconcile : Proc Cluster ReconcileAnswer
  mimir_reconcile = reconcile w (mimir_reconciler output_cm validate recorder)
