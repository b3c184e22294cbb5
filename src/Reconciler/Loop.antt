-- ===== src/Reconciler/Loop.antt =====
-- `Reconcile`: one pass from the listed CRs to the output ConfigMap and the statuses.
use mathlib.Core.Option
use runtime_overrides_operat.Prelude.{
  ℕ, ◌/◌, ◌-◌, Str, bytes, Option, none, some, [], ◌∷◌, length, if◌then◌else◌,
}
use runtime_overrides_operat.Overrides.{group_by_tenant}
use runtime_overrides_operat.Drift.{ConfigMap, set_hash}
use runtime_overrides_operat.Platform.{Platform, Result, ok, err, wrap}
use runtime_overrides_operat.Proc.{
  Proc, pure, fail, of_result, of_option, on_error, call, emit, count, gauge, event, when, returns,
  ◌>>=◌, ◌>>◌,
}
use runtime_overrides_operat.Metrics.{
  ReconcileResult, success, noop, write_failed, result_label, reconcile_total, output_drift_total,
  output_size_bytes, active_crs, active_tenants, last_reconcile_timestamp,
}
use runtime_overrides_operat.Format.{concat, valid_string}
use runtime_overrides_operat.Render.{Output, render}
use runtime_overrides_operat.Apply.{ApplyResult, apply_config_map}
use runtime_overrides_operat.Reconciler.Gather.{Reconciler, label, gather}
use runtime_overrides_operat.Reconciler.Output.{check_drift, valid_overrides, merge_groups}
use runtime_overrides_operat.Reconciler.Statuses.{update_statuses, event_warning}

-- `reconcile.Result`: nothing more to do, or a retry after `statusConflictRequeueDelay`.
pub data ReconcileAnswer : Type 0 where
  done : ReconcileAnswer
  requeue_after_delay : ReconcileAnswer

-- The seconds since 1970 of an instant.
abbrev pub unix_seconds : ℕ → ℕ
unix_seconds t = t / 1000000000 - 62135596800

module _ (w : Platform) where
  open w use {Cluster, get_config_map, now}

  abbrev pub count_result : Reconciler → ReconcileResult → Proc Cluster Unit
  count_result r result = emit (count reconcile_total (label r ∷ result_label result ∷ []))

  -- An error that ends the pass is counted as a failed write.
  abbrev pub counting_failure : {A : Type 0} → Reconciler → Proc Cluster A → Proc Cluster A
  counting_failure r m = on_error m (λ e. do count_result r write_failed; fail e)

  abbrev pub wrapping : {A : Type 0} → Str → Proc Cluster A → Proc Cluster A
  wrapping prefix m = on_error m (λ e. fail (wrap prefix e))

  -- `WithLabelValues` panics on a label that is not UTF-8, which a name cut at 64 bytes may be; the
  -- other labels come from decoded JSON or are constants.
  abbrev pub report_drift : Reconciler → Option Str → Proc Cluster Unit
  report_drift r none = pure tt
  report_drift r (some manager) =
      if valid_string manager
      then emit (count output_drift_total (label r ∷ manager ∷ []))
      else of_option none

  -- `r.HashCache.Set`, where there is a cache.
  abbrev pub remember_hash : Reconciler → Str → Proc Cluster Unit
  remember_hash r hash s =
      (returns tt, record s { hashes = Option.map (λ h. set_hash h (label r) hash) s.hashes })

  abbrev pub drifted_event : Str → Result ConfigMap → Proc Cluster Unit
  drifted_event manager (err e) = pure tt
  drifted_event manager (ok live) = emit (
      event (record { namespace = live.namespace; name = live.name }) event_warning
        (bytes "ConfigMapDrifted")
        (concat (bytes "third-party write reverted (field manager: " ∷ manager ∷ bytes ")" ∷ [])))

  abbrev pub announce_drift : Reconciler → Option Str → Proc Cluster Unit
  announce_drift r none = pure tt
  announce_drift r (some manager) =
      when r.recorder (do live ← call (get_config_map r.output_cm); drifted_event manager live)

  -- Render and apply; both errors are counted and wrapped.
  unfoldable pub write_output : Reconciler → Output → Proc Cluster ApplyResult
  unfolding apply_config_map render on_error
  write_output r out = do
    body ← counting_failure r (wrapping (bytes "render") (of_result (render w out)))
    emit (gauge output_size_bytes (label r ∷ []) (length body))
    counting_failure r (wrapping (bytes "apply") (apply_config_map w r.output_cm body))

  -- What follows a successful write, up to the status writes.
  unfoldable pub record_output : Reconciler → Option Str → ℕ → ℕ → ApplyResult → Proc Cluster Unit
  record_output r drift crs tenants res = do
    count_result r (if res.skipped then noop else success)
    remember_hash r res.hash
    announce_drift r drift
    emit (gauge active_crs (label r ∷ []) crs)
    emit (gauge active_tenants (label r ∷ []) tenants)
    time ← call now
    emit (gauge last_reconcile_timestamp (label r ∷ []) (unix_seconds time))

  unfoldable pub reconcile : Reconciler → Proc Cluster ReconcileAnswer
  unfolding check_drift gather merge_groups write_output record_output update_statuses valid_string
  reconcile r = do
    drift ← check_drift w r
    report_drift r drift
    envelopes ← counting_failure r (gather w r)
    let valid = valid_overrides envelopes
    merged ← merge_groups w r (group_by_tenant valid) [] []
    res ← write_output r merged.0
    record_output r drift (length envelopes) (length merged.0) res
    hit ← update_statuses w r envelopes valid merged.1 res
    pure (if hit then requeue_after_delay else done)
