-- ===== src/Disabled.antt =====
-- internal/controller/disabled.go: the reconcilers of a target that is switched off. The Loki and
-- the Mimir one differ in the kind of CR and in the label.
pub mod Laws
use runtime_overrides_operat.Prelude.{
  Str, bytes, ℤ, eqb_ℤ, ℕ, Bool, true, false, not, ◌&&◌, ◌||◌, Option, none, some, List, [], ◌∷◌,
  if◌then◌else◌,
}
use runtime_overrides_operat.Api.{
  TenantOverride, Condition, condition, condition_applied, condition_false, reason_target_disabled,
  NamespacedName,
}
use runtime_overrides_operat.Status.{upsert_condition, condition_transitioned}
use runtime_overrides_operat.Platform.{
  Platform, Error, Result, ok, err, wrap, Target, target_label, loki, mimir,
}
use runtime_overrides_operat.Proc.{Proc, pure, fail, call, emit, event, when, ◌>>=◌, ◌>>◌}
use runtime_overrides_operat.Format.{concat, quote}
use runtime_overrides_operat.Apply.{is_not_found, is_conflict}
use runtime_overrides_operat.Reconciler.Statuses.{object_name, event_warning}
use runtime_overrides_operat.Reconciler.Loop.{ReconcileAnswer, done, requeue_after_delay}

unfoldable pub disabled_message : Str → Str
disabled_message target =
    concat (bytes "backend " ∷ quote target ∷ bytes " is disabled in operator configuration" ∷ [])

abbrev pub disabled_condition : Str → Condition
disabled_condition target =
    condition condition_applied condition_false reason_target_disabled (disabled_message target)

-- The CR with the status that `applyDisabledStatus` writes through its pointers, at a reading of
-- the clock.
unfoldable pub disabled_status : ℕ → Str → TenantOverride → TenantOverride
disabled_status time target cr = record cr {
  status = record cr.status {
    conditions = upsert_condition time cr.status.conditions (disabled_condition target);
    observed_generation = cr.generation;
  };
}

unfoldable pub transitioned : ℕ → Str → TenantOverride → Bool
transitioned time target cr =
    condition_transitioned cr.status.conditions
      (upsert_condition time cr.status.conditions (disabled_condition target)) condition_applied

unfoldable pub disabled_changed : ℕ → Str → TenantOverride → Bool
unfolding transitioned
disabled_changed time target cr =
    transitioned time target cr || not (eqb_ℤ cr.status.observed_generation cr.generation)

-- `recorder` tells whether the event recorder is set.
pub record DisabledReconciler : Type 0 where
  pub target : Target
  pub recorder : Bool

module _ (w : Platform) where
  open w use {Cluster, get_override, update_status, now}

  -- Changes the CR and tells whether its status has to be written.
  unfoldable pub apply_disabled_status :
      Bool → TenantOverride → Str → Proc Cluster (TenantOverride × Bool)
  unfolding disabled_status disabled_changed
  apply_disabled_status recorder cr target = do
    time ← call now
    when (transitioned time target cr && recorder) (
        emit
          (event (object_name cr) event_warning (bytes "TargetDisabled") (disabled_message target)))
    pure (disabled_status time target cr, disabled_changed time target cr)

  abbrev after_update : Option Error → Proc Cluster ReconcileAnswer
  after_update none = pure done
  after_update (some e) =
      if is_conflict e
      then pure requeue_after_delay
      else if is_not_found (wrap (bytes "update status") e)
      then pure done
      else fail (wrap (bytes "update status") e)

  -- The status write, if the status changes.
  abbrev write_disabled : DisabledReconciler → TenantOverride → Bool → Proc Cluster ReconcileAnswer
  write_disabled r cr false = pure done
  write_disabled r cr true = do failed ← call (update_status r.target cr); after_update failed

  abbrev disable_cr : DisabledReconciler → Result TenantOverride → Proc Cluster ReconcileAnswer
  disable_cr r (err e) = if is_not_found e then pure done else fail e
  disable_cr r (ok cr) = do
    result ← apply_disabled_status r.recorder cr (target_label r.target)
    write_disabled r result.0 result.1

  unfoldable pub reconcile_disabled :
      DisabledReconciler → NamespacedName → Proc Cluster ReconcileAnswer
  unfolding apply_disabled_status
  reconcile_disabled r req = do got ← call (get_override r.target req); disable_cr r got

  -- `MimirDisabledReconciler`, by whether it has a recorder.
  unfoldable pub reconcile_mimir_disabled : Bool → NamespacedName → Proc Cluster ReconcileAnswer
  unfolding reconcile_disabled
  reconcile_mimir_disabled recorder =
      reconcile_disabled (record { target = mimir; recorder = recorder })
