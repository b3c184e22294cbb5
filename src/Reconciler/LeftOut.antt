-- ===== src/Reconciler/LeftOut.antt =====
-- A tenant whose merged result is invalid, in `Reconcile` and in `computeDesiredStatus`.
use runtime_overrides_operat.Prelude.{
  str_eq, none, some, List, [], ◌∷◌, ◌≡◌, refl, Dict, lookup, ◌∙◌,
}
use runtime_overrides_operat.Value.{Fields}
use runtime_overrides_operat.Api.{condition_applied, condition_true}
use runtime_overrides_operat.Overrides.{Override, sort_group, group_by_tenant}
use runtime_overrides_operat.Overrides.Grouping.{of_tenant}
use runtime_overrides_operat.Conflict.{FieldConflict, tracking_merge}
use runtime_overrides_operat.Status.Laws.{find_condition}
use runtime_overrides_operat.Platform.{Platform, Error}
use runtime_overrides_operat.Proc.{State}
use runtime_overrides_operat.Render.{Output}
use runtime_overrides_operat.Apply.{ApplyResult}
use runtime_overrides_operat.Reconciler.Gather.{Reconciler, Envelope}
use runtime_overrides_operat.Reconciler.Desired.{compute_desired_status, applied_condition}
use runtime_overrides_operat.Reconciler.Isolation.{Gives, merge_groups-lookup, tenant_result}

-- Where the CRs of a tenant merge into a result that the check refuses, the output of the loop has
-- nothing for the tenant; and still each valid CR of the tenant gets, as its Applied condition, one
-- whose status is True, that says that the CR contributed to the ConfigMap.
pub compute_desired_status-left_out :
    (w : Platform) (r : Reconciler) (e : Envelope) (cr : Override) (crs valid : List Override)
    (merged : Fields) (fcs : List FieldConflict) (x : Error) (s : State w.Cluster) (out : Output)
    (conflicts : Dict (List FieldConflict)) (res : ApplyResult)
    → e.valid_err ≡ none
    → of_tenant e.effective valid ≡ cr ∷ crs
    → tracking_merge e.effective (sort_group (cr ∷ crs)) ≡ some (merged, fcs)
    → r.validate merged ≡ some x
    → Gives w r (group_by_tenant valid) [] [] s out conflicts
    → (lookup e.effective out ≡ none)
      × (find_condition condition_applied (compute_desired_status r e valid res).conditions
          ≡ some (applied_condition r e res none))
      × ((applied_condition r e res none).status ≡ condition_true)
unfolding tenant_result compute_desired_status find_condition str_eq
compute_desired_status-left_out w r e cr crs valid merged fcs x s out conflicts res ok_cr crs_eq
      done refused h =
    (
      (merge_groups-lookup w r e.effective valid s out conflicts h).0
          ∙ rw (crs_eq, done, refused) refl,
      rw ok_cr refl,
      refl,
    )
