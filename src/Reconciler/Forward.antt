-- ===== src/Reconciler/Forward.antt =====
-- `Reconcile` of the reconcilers, run forward: each part on what the API answers.
use runtime_overrides_operat.Prelude.{
  true, Dict, Str, Option, none, some, List, [], ◌≡◌, refl, ap, ◌∙◌, map, Option-cases, inl, inr,
}
use runtime_overrides_operat.Api.{TenantOverride}
use runtime_overrides_operat.Overrides.{Override, group_by_tenant}
use runtime_overrides_operat.Conflict.{FieldConflict}
use runtime_overrides_operat.Platform.{Platform, ok}
use runtime_overrides_operat.Proc.{State, returns, Proc, ◌>>=◌, ◌>>◌}
use runtime_overrides_operat.Proc.Emits.{
  Ends, Emits, Returns, after_returns, after_then, on_error_unused,
}
use runtime_overrides_operat.Format.{valid_string}
use runtime_overrides_operat.Render.{Output}
use runtime_overrides_operat.Apply.Laws.{Result-cases}
use runtime_overrides_operat.Reconciler.Gather.{Reconciler, Envelope, envelope_of, gather, label}
use runtime_overrides_operat.Reconciler.Output.{
  check_drift, cached_hash, drift_of, valid_overrides, merge_groups,
}
use runtime_overrides_operat.Reconciler.Loop.{
  ReconcileAnswer, counting_failure, reconcile, report_drift,
}
use runtime_overrides_operat.Reconciler.Listed.{envelopes_of-Emits}
use runtime_overrides_operat.Reconciler.Written.{merging, writing}

module _ (w : Platform) (r : Reconciler) where
  open w use {Cluster, get_config_map, list_overrides}

  -- The CRs of a listing that go into the merge.
  abbrev pub valid_of : List TenantOverride → List Override
  valid_of items = valid_overrides (map (envelope_of w r) items)

  pub check_drift-Returns : Returns (check_drift w r)
  unfolding check_drift ◌>>=◌
  check_drift-Returns s = elim (Option-cases (cached_hash s.hashes (label r))) [
    | inl empty ↦ (none, rw empty refl)
    | inr (hash, cached) ↦ elim (Result-cases (get_config_map r.output_cm s.cluster).0) [
      | inl (live, got) ↦ (drift_of w hash live, rw (cached, got) refl)
      | inr (e, missing) ↦ (none, rw (cached, missing) refl)
    ]
  ]

  -- The name of the other writer, if a drift is found, is UTF-8.
  abbrev pub IsReportable : Option Str → Type 0
  IsReportable none = Unit
  IsReportable (some manager) = valid_string manager ≡ true

  report_drift-Emits : (drift : Option Str) → IsReportable drift → Emits (report_drift w r drift) tt
  report_drift-Emits none valid = λ s. (refl, refl, refl)
  report_drift-Emits (some manager) valid = rw valid (λ s. (refl, refl, refl))

  gather-Ends :
      (items : List TenantOverride) (s : State Cluster)
      → (list_overrides r.target s.cluster).0 ≡ ok items
      → Ends
          (gather w r)
          s
          (map (envelope_of w r) items)
          (list_overrides r.target s.cluster).1
          s.hashes
  unfolding gather ◌>>=◌
  gather-Ends items s listed =
      rw listed (
        envelopes_of-Emits w r items (record s { cluster = (list_overrides r.target s.cluster).1 }))

  -- Up to the write a reconcile comes to the result of the merge loop, and calls the API only to
  -- check for drift and to list.
  pub reconcile-writing :
      (items : List TenantOverride) (s : State Cluster) (drift : Option Str) (out : Output)
      (conflicts : Dict (List FieldConflict))
      → (check_drift w r s).0 ≡ returns drift
      → IsReportable drift
      → (list_overrides r.target (check_drift w r s).1.cluster).0 ≡ ok items
      → Emits (merge_groups w r (group_by_tenant (valid_of items)) [] []) (out, conflicts)
      → (s' : State Cluster) × (reconcile w r s
          ≡ writing w r drift (map (envelope_of w r) items) out conflicts s')
        × (s'.cluster ≡ (list_overrides r.target (check_drift w r s).1.cluster).1)
        × (s'.hashes ≡ (check_drift w r s).1.hashes)
  unfolding reconcile
  reconcile-writing items s drift out conflicts checked valid listed merges =
      let es = map (envelope_of w r) items in
      let gathering : Proc Cluster (List Envelope) = counting_failure w r (gather w r) in
      let rest : Option Str → Proc Cluster ReconcileAnswer =
        λ drift. gathering >>= merging w r drift in
      let s1 = (check_drift w r s).1 in
      let s2 = (report_drift w r drift s1).1 in
      let reported = report_drift-Emits drift valid s1 in
      let gathered =
        gather-Ends items s2 (ap (λ c. (list_overrides r.target c).0) reported.1 ∙ listed) in
      let counted = on_error_unused (gather w r) _ s2 es gathered.0 in
      let s3 = (gather w r s2).1 in
      let looped = merge_groups w r (group_by_tenant (valid_overrides es)) [] [] in
      (
        (looped s3).1,
        after_returns (check_drift w r) (λ drift. report_drift w r drift >> rest drift) s drift
              checked
            ∙ after_then (report_drift w r drift) (rest drift) s1 tt reported.0
            ∙ after_returns gathering (merging w r drift) s2 es (ap (λ p. p.0) counted ∙ gathered.0)
            ∙ ap (λ p. merging w r drift es p.1) counted
            ∙ after_returns looped (λ m. writing w r drift es m.0 m.1) s3 (out, conflicts)
                (merges s3).0,
        (merges s3).1 ∙ gathered.1 ∙ ap (λ c. (list_overrides r.target c).1) reported.1,
        (merges s3).2 ∙ gathered.2 ∙ reported.2,
      )
