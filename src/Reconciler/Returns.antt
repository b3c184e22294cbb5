-- ===== src/Reconciler/Returns.antt =====
-- `Reconcile` of the reconcilers from the listing of the CRs to its outcome.
use runtime_overrides_operat.Prelude.{
  bytes, subst, ◌++◌, Str, Option, none, some, List, [], ◌∷◌, ◌≡◌, refl, sym, ap, ◌∙◌, map, All,
  Dict, length, ℕ, Bool-cases, inl, inr, ◌⊎◌,
}
use runtime_overrides_operat.Api.{TenantOverride}
use runtime_overrides_operat.Overrides.{group_by_tenant}
use runtime_overrides_operat.Conflict.{FieldConflict}
use runtime_overrides_operat.Platform.{Platform, Error, ok, wrap}
use runtime_overrides_operat.Proc.{
  Outcome, State, on_error, fail, fails, returns, Proc, gauge, ◌>>=◌, ◌>>◌,
}
use runtime_overrides_operat.Proc.Emits.{
  on_error_unused, Returns, Returns-bind, Returns-then, after_returns, after_fails,
}
use runtime_overrides_operat.Metrics.{write_failed, output_size_bytes}
use runtime_overrides_operat.Render.{Output, render}
use runtime_overrides_operat.Apply.{ApplyResult, apply_config_map}
use runtime_overrides_operat.Apply.Laws.{
  Result-cases, Lands, apply_config_map-Lands, apply_config_map-answers,
}
use runtime_overrides_operat.Reconciler.Gather.{Reconciler, Envelope, envelope_of, label}
use runtime_overrides_operat.Reconciler.Output.{valid_overrides, check_drift}
use runtime_overrides_operat.Reconciler.Statuses.{update_statuses}
use runtime_overrides_operat.Reconciler.Loop.{
  ReconcileAnswer, wrapping, count_result, write_output, record_output, reconcile,
}
use runtime_overrides_operat.Reconciler.Total.{IsFlatCr, merge_groups-Emits}
use runtime_overrides_operat.Reconciler.Written.{finishing, writing}
use runtime_overrides_operat.Reconciler.Notices.{update_statuses-Returns}
use runtime_overrides_operat.Reconciler.Isolation.{Gives}
use runtime_overrides_operat.Reconciler.Forward.{valid_of, reconcile-writing, IsReportable}

module _ (w : Platform) (r : Reconciler) where
  open w use {Cluster, get_config_map, list_overrides, sha256_hex}

  pub record_output-Returns :
      (drift : Option Str) (crs tenants : ℕ) (res : ApplyResult)
      → Returns (record_output w r drift crs tenants res)
  unfolding record_output ◌>>◌ ◌>>=◌
  record_output-Returns none crs tenants res = λ s. (tt, refl)
  record_output-Returns (some manager) crs tenants res = λ s. elim (Bool-cases r.recorder) [
    | inr off ↦ (tt, rw off refl)
    | inl on ↦ elim (Result-cases (get_config_map r.output_cm s.cluster).0) [
      | inl (live, got) ↦ (tt, rw (on, got) refl)
      | inr (e, missing) ↦ (tt, rw (on, missing) refl)
    ]
  ]

  pub finishing-Returns :
      (drift : Option Str) (es : List Envelope) (out : Output)
      (conflicts : Dict (List FieldConflict)) (res : ApplyResult)
      → Returns (finishing w r drift es out conflicts res)
  finishing-Returns drift es out conflicts res =
      Returns-then (record_output w r drift (length es) (length out) res) _
        (record_output-Returns drift (length es) (length out) res)
        (Returns-bind (update_statuses w r es (valid_overrides es) conflicts res) _
          (update_statuses-Returns w r es (valid_overrides es) conflicts res) (λ hit s. (_, refl)))

  -- The state in which a rendered body is applied: its size has been recorded.
  abbrev pub sized : Str → State Cluster → State Cluster
  sized body s = record s {
    trace = s.trace ++ (gauge output_size_bytes (label r ∷ []) (length body) ∷ []);
  }

  -- Once the output has been rendered, its write is an apply of the rendering.
  pub write_output-applies :
      (out : Output) (body : Str) (s : State Cluster) (res : ApplyResult)
      → render w out ≡ ok body
      → (apply_config_map w r.output_cm body (sized body s)).0 ≡ returns res
      → write_output w r out s ≡ apply_config_map w r.output_cm body (sized body s)
  unfolding write_output ◌>>=◌ ◌>>◌ on_error
  write_output-applies out body s res rendered applied =
      let applying : Proc Cluster ApplyResult = apply_config_map w r.output_cm body in
      let s' : State Cluster = sized body s in
      rw rendered (
        let unwrapped =
          on_error_unused applying (λ e. fail (wrap (bytes "apply") e)) s' res applied in
        on_error_unused (wrapping w (bytes "apply") applying)
          (λ e. do count_result w r write_failed; fail e) s' res (ap (λ p. p.0) unwrapped ∙ applied)
        ∙ unwrapped)

  -- Where the apply fails, the write fails with its error.
  pub write_output-fails :
      (out : Output) (body : Str) (s : State Cluster)
      → render w out ≡ ok body
      → (e : Error) → (apply_config_map w r.output_cm body (sized body s)).0 ≡ fails e
      → (write_output w r out s).0 ≡ fails (wrap (bytes "apply") e)
  unfolding write_output ◌>>=◌ ◌>>◌ on_error
  write_output-fails out body s rendered e failed = rw (rendered, failed) refl

  -- The outcome of a reconcile that has applied the body in this state.
  abbrev pub Carries : Str → State Cluster → Outcome ReconcileAnswer → Type 0
  Carries body s o =
      ((res : ApplyResult) × (answer : ReconcileAnswer) × ((apply_config_map w r.output_cm body s).0
          ≡ returns res)
        × (res.hash ≡ sha256_hex body)
        × Lands w r.output_cm body s res (apply_config_map w r.output_cm body s).1
        × (o ≡ returns answer))
      ⊎ ((e : Error) × ((apply_config_map w r.output_cm body s).0 ≡ fails e)
          × (o ≡ fails (wrap (bytes "apply") e)))

  writing-Carries :
      (drift : Option Str) (es : List Envelope) (out : Output)
      (conflicts : Dict (List FieldConflict)) (body : Str) (s : State Cluster)
      → render w out ≡ ok body
      → Carries body (sized body s) (writing w r drift es out conflicts s).0
  writing-Carries drift es out conflicts body s rendered =
      let s' = sized body s in
      let finish = finishing w r drift es out conflicts in
      elim (apply_config_map-answers w r.output_cm body s') [
        | inl (res, applied) ↦
            let wrote = write_output-applies out body s res rendered applied in
            let (answer, done) =
              finishing-Returns drift es out conflicts res (write_output w r out s).1 in
            let (hash, lands) = apply_config_map-Lands w r.output_cm body s' res applied in
            inl (
              res,
              answer,
              applied,
              hash,
              lands,
              ap (λ p. p.0)
                    (after_returns (write_output w r out) finish s res
                      (ap (λ p. p.0) wrote ∙ applied))
                  ∙ done,
            )
        | inr (e, failed) ↦ inr (
          e,
          failed,
          after_fails (write_output w r out) finish s _
              (write_output-fails out body s rendered e failed),
        )
      ]

  -- A reconcile over flat CRs applies the rendering of what the merge loop gives.
  pub reconcile-Carries :
      (items : List TenantOverride) (s : State Cluster) (drift : Option Str)
      → ((out : Output) → (body : Str) × (render w out ≡ ok body))
      → (check_drift w r s).0 ≡ returns drift
      → IsReportable w r drift
      → (list_overrides r.target (check_drift w r s).1.cluster).0 ≡ ok items
      → All IsFlatCr (valid_of w r items)
      → (out : Output) × (conflicts : Dict (List FieldConflict)) × (body : Str) × (s' : State
          Cluster)
        × Gives w r (group_by_tenant (valid_of w r items)) [] [] s out conflicts
        × (render w out ≡ ok body)
        × (s'.cluster ≡ (list_overrides r.target (check_drift w r s).1.cluster).1)
        × Carries body s' (reconcile w r s).0
  reconcile-Carries items s drift renders checked valid listed flat =
      let es = map (envelope_of w r) items in
      let (out, conflicts, merges) = merge_groups-Emits w r (valid_of w r items) flat in
      let (s1, runs, c1, _) =
        reconcile-writing w r items s drift out conflicts checked valid listed merges in
      let (body, rendered) = renders out in
      (
        out,
        conflicts,
        body,
        sized body s1,
        (merges s).0,
        rendered,
        c1,
        subst (Carries body (sized body s1)) (sym (ap (λ p. p.0) runs))
            (writing-Carries drift es out conflicts body s1 rendered),
      )
