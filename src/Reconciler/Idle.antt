-- ===== src/Reconciler/Idle.antt =====
-- `updateStatuses` of the reconcilers, for CRs whose status is as it should be.
use runtime_overrides_operat.Prelude.{false, List, [], ◌∷◌, ◌≡◌, refl, All}
use runtime_overrides_operat.Overrides.{Override}
use runtime_overrides_operat.Platform.{Platform}
use runtime_overrides_operat.Proc.{State, returns, ◌>>=◌}
use runtime_overrides_operat.Apply.{ApplyResult}
use runtime_overrides_operat.Reconciler.Gather.{Reconciler, Envelope}
use runtime_overrides_operat.Reconciler.Desired.{compute_desired_status}
use runtime_overrides_operat.Reconciler.Statuses.{needs_update, write_status, write_statuses}

module _ (w : Platform) (r : Reconciler) (valid : List Override) (res : ApplyResult) where
  -- The status of the CR is the one that a reconcile with this result wants.
  abbrev pub HasStatus : Envelope → Type 0
  HasStatus e = needs_update (compute_desired_status r e valid res) e.cr.status ≡ false

  write_status-idle :
      (e : Envelope) (s : State w.Cluster)
      → HasStatus e
      → write_status w r e.cr (compute_desired_status r e valid res) s ≡ (returns false, s)
  unfolding write_status
  write_status-idle e s h = rw h refl

  -- Where the status of each CR is the wanted one, the loop over the statuses makes no call at all:
  -- it returns with the state as it was and asks for no retry.
  pub write_statuses-idle :
      (es : List Envelope) (s : State w.Cluster)
      → All HasStatus es
      → write_statuses w r valid res es s ≡ (returns false, s)
  unfolding write_statuses ◌>>=◌
  write_statuses-idle [] s h = refl
  write_statuses-idle (e ∷ es) s h =
      rw (write_status-idle e s h.0, write_statuses-idle es s h.1) refl
