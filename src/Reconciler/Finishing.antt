-- ===== src/Reconciler/Finishing.antt =====
-- `Reconcile` of the reconcilers: what follows the write, where a get only reads.
use mathlib.Core.Option
use runtime_overrides_operat.Prelude.{
  Str, Bool, Option, none, some, List, ◌≡◌, refl, ap, ◌∙◌, Dict, length, ℕ, Bool-cases, inl, inr,
  if◌then◌else◌,
}
use runtime_overrides_operat.Conflict.{FieldConflict}
use runtime_overrides_operat.Drift.{set_hash}
use runtime_overrides_operat.Platform.{Platform}
use runtime_overrides_operat.Proc.{State, returns, ◌>>=◌, ◌>>◌}
use runtime_overrides_operat.Proc.Emits.{Ends, after_returns, after_then}
use runtime_overrides_operat.Render.{Output}
use runtime_overrides_operat.Apply.{ApplyResult}
use runtime_overrides_operat.Apply.Laws.{Result-cases, GetReads}
use runtime_overrides_operat.Reconciler.Gather.{Reconciler, Envelope, label}
use runtime_overrides_operat.Reconciler.Output.{valid_overrides}
use runtime_overrides_operat.Reconciler.Statuses.{notify_tenants, write_statuses, update_statuses}
use runtime_overrides_operat.Reconciler.Loop.{
  ReconcileAnswer, requeue_after_delay, write_output, record_output,
}
use runtime_overrides_operat.Reconciler.Written.{finishing, writing}
use runtime_overrides_operat.Reconciler.Notices.{notify_tenants-Emits}

module _ (w : Platform) (r : Reconciler) where
  open w use {Cluster, get_config_map, list_overrides, now}

  module _ (reads : GetReads w) where
    record_output-Ends :
        (drift : Option Str) (crs tenants : ℕ) (res : ApplyResult) (s : State Cluster)
        → Ends
            (record_output w r drift crs tenants res)
            s
            tt
            (now s.cluster).1
            (Option.map (λ h. set_hash h (label r) res.hash) s.hashes)
    unfolding record_output ◌>>◌ ◌>>=◌
    record_output-Ends none crs tenants res s = (refl, refl, refl)
    record_output-Ends (some manager) crs tenants res s = elim (Bool-cases r.recorder) [
      | inr off ↦ rw off (refl, refl, refl)
      | inl on ↦ elim (Result-cases (get_config_map r.output_cm s.cluster).0) [
        | inl (live, got) ↦ rw (on, got, reads r.output_cm s.cluster) (refl, refl, refl)
        | inr (e, missing) ↦ rw (on, missing, reads r.output_cm s.cluster) (refl, refl, refl)
      ]
    ]

    -- What follows the write is the status writes, after a reading of the clock.
    pub finishing-statuses :
        (drift : Option Str) (es : List Envelope) (out : Output)
        (conflicts : Dict (List FieldConflict)) (res : ApplyResult) (s : State Cluster)
        → (s' : State Cluster) × (s'.cluster ≡ (now s.cluster).1)
          × (s'.hashes ≡ Option.map (λ h. set_hash h (label r) res.hash) s.hashes)
          × ((hit : Bool)
              → (write_statuses w r (valid_overrides es) res es s').0 ≡ returns hit
              → finishing w r drift es out conflicts res s ≡ (
                returns (if hit then requeue_after_delay else ReconcileAnswer.done),
                (write_statuses w r (valid_overrides es) res es s').1,
              ))
    unfolding update_statuses
    finishing-statuses drift es out conflicts res s =
        let recorded = record_output w r drift (length es) (length out) res in
        let ended = record_output-Ends drift (length es) (length out) res s in
        let notified = notify_tenants w r es conflicts in
        let s1 = (recorded s).1 in
        let noted = notify_tenants-Emits w r es conflicts s1 in
        let writing_statuses = write_statuses w r (valid_overrides es) res es in
        (
          (notified s1).1,
          noted.1 ∙ ended.1,
          noted.2 ∙ ended.2,
          λ hit wrote.
              let statuses = after_then notified writing_statuses s1 tt noted.0 in
              after_then recorded _ s tt ended.0
              ∙ after_returns (notified >> writing_statuses) _ s1 hit
                  (ap (λ p. p.0) statuses ∙ wrote)
              ∙ ap (λ p. (returns (if hit then requeue_after_delay else ReconcileAnswer.done), p.1))
                  statuses,
        )

    -- What follows a write that returns.
    pub writing-finishing :
        (drift : Option Str) (es : List Envelope) (out : Output)
        (conflicts : Dict (List FieldConflict)) (res : ApplyResult) (s s' : State Cluster)
        → write_output w r out s ≡ (returns res, s')
        → writing w r drift es out conflicts s ≡ finishing w r drift es out conflicts res s'
    writing-finishing drift es out conflicts res s s' wrote =
        after_returns (write_output w r out) (finishing w r drift es out conflicts) s res
          (ap (λ p. p.0) wrote)
        ∙ ap (λ p. finishing w r drift es out conflicts res p.1) wrote
