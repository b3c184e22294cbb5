-- ===== src/Reconciler/Written.antt =====
-- The parts of `Reconcile` of the reconcilers from the merge loop on.
use runtime_overrides_operat.Prelude.{Str, Option, List, [], Dict, length, if◌then◌else◌}
use runtime_overrides_operat.Overrides.{group_by_tenant}
use runtime_overrides_operat.Conflict.{FieldConflict}
use runtime_overrides_operat.Platform.{Platform}
use runtime_overrides_operat.Proc.{Proc, pure, ◌>>=◌, ◌>>◌}
use runtime_overrides_operat.Render.{Output}
use runtime_overrides_operat.Apply.{ApplyResult}
use runtime_overrides_operat.Reconciler.Gather.{Reconciler, Envelope}
use runtime_overrides_operat.Reconciler.Output.{valid_overrides, merge_groups}
use runtime_overrides_operat.Reconciler.Statuses.{update_statuses}
use runtime_overrides_operat.Reconciler.Loop.{
  ReconcileAnswer, requeue_after_delay, write_output, record_output,
}

module _ (w : Platform) (r : Reconciler) where
  open w use {Cluster}

  -- What follows the write of the output, the merge and the list of the CRs.
  abbrev pub finishing :
      Option Str
      → List Envelope
      → Output
      → Dict (List FieldConflict)
      → ApplyResult
      → Proc Cluster ReconcileAnswer
  finishing drift es out conflicts res = do
    record_output w r drift (length es) (length out) res
    hit ← update_statuses w r es (valid_overrides es) conflicts res
    pure (if hit then requeue_after_delay else ReconcileAnswer.done)

  abbrev pub writing :
      Option Str → List Envelope → Output → Dict (List FieldConflict) → Proc Cluster ReconcileAnswer
  writing drift es out conflicts = do
    res ← write_output w r out
    finishing drift es out conflicts res

  abbrev pub merging : Option Str → List Envelope → Proc Cluster ReconcileAnswer
  merging drift es = do
    merged ← merge_groups w r (group_by_tenant (valid_overrides es)) [] []
    writing drift es merged.0 merged.1
