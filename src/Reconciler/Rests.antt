-- ===== src/Reconciler/Rests.antt =====
-- `Reconcile` of the reconcilers over a state that is as it is to be.
use mathlib.Core.Option
use mathlib.Core.Quot.{Quot}
use mathlib.Core.Option.{some-injective}
use runtime_overrides_operat.Prelude.{
  Str, true, false, insert_again, lookup-insert, str_eq_refl, none, some, List, ◌≡◌, refl, sym, ap,
  ◌∙◌, map, All,
}
use runtime_overrides_operat.Api.{TenantOverride}
use runtime_overrides_operat.Drift.{ConfigMap, HashCache, set_hash}
use runtime_overrides_operat.Platform.{Platform, Target, ok}
use runtime_overrides_operat.Proc.{State}
use runtime_overrides_operat.Proc.Emits.{Ends}
use runtime_overrides_operat.Render.{Output, render}
use runtime_overrides_operat.Apply.{ApplyResult}
use runtime_overrides_operat.Apply.Laws.{GetReads, IsCurrent, skipping}
use runtime_overrides_operat.Reconciler.Gather.{Reconciler, envelope_of, label}
use runtime_overrides_operat.Reconciler.Loop.{ReconcileAnswer, reconcile}
use runtime_overrides_operat.Reconciler.Total.{IsFlatCr, merge_groups-Emits}
use runtime_overrides_operat.Reconciler.Forward.{valid_of, reconcile-writing}
use runtime_overrides_operat.Reconciler.Returns.{sized, write_output-applies}
use runtime_overrides_operat.Reconciler.Objects.{AreApart}
use runtime_overrides_operat.Reconciler.Idle.{HasStatus, write_statuses-idle}
use runtime_overrides_operat.Reconciler.OwnWrites.{check_drift-cached}
use runtime_overrides_operat.Reconciler.Refines.{desired_body, desired_body-of_merge}
use runtime_overrides_operat.Reconciler.Finishing.{finishing-statuses, writing-finishing}

module _ (w : Platform) (r : Reconciler) where
  open w use {Cluster, get_config_map, list_overrides, now, sha256_hex}

  -- The result of an apply that finds the body in the ConfigMap.
  abbrev pub found_result : Str → ConfigMap → ApplyResult
  found_result body live = record {
    hash = sha256_hex body;
    generation = live.generation;
    skipped = true;
  }

  -- A state that is as it is to be is a fixed point: if the get of the output ConfigMap answers with
  -- a body of the hash of the specified one, the cache has that hash for the target, and no listed CR
  -- has a status other than the one computed for it, then a reconcile returns and asks for no retry,
  -- calls nothing but gets, lists and the clock, and leaves the hash cache as it is. Gets and lists
  -- only read; rendering succeeds; no array of a valid CR holds a map; no two listed CRs are one
  -- object.
  pub reconcile-rests :
      (items : List TenantOverride) (apart : AreApart items) (s : State Cluster) (cache : HashCache)
      (body : Str) (live : ConfigMap)
      → GetReads w
      → ((t : Target) (c : Cluster) → (list_overrides t c).1 ≡ c)
      → ((out : Output) → (body : Str) × (render w out ≡ ok body))
      → (list_overrides r.target s.cluster).0 ≡ ok items
      → All IsFlatCr (valid_of w r items)
      → desired_body w r (Quot.mk (items, apart)) ≡ some body
      → IsCurrent w s.cluster r.output_cm body live
      → s.hashes ≡ some (set_hash cache (label r) (sha256_hex body))
      → All
          (HasStatus w r (valid_of w r items) (found_result body live))
          (map (envelope_of w r) items)
      → Ends (reconcile w r) s ReconcileAnswer.done (now s.cluster).1 s.hashes
  reconcile-rests items apart s cache body live reads list_reads renders listed flat desired current
        hashes statuses =
      let es = map (envelope_of w r) items in
      let res = found_result body live in
      let (held, got, contents, hash) = current in
      let own = set_hash cache (label r) (sha256_hex body) in
      let (out, conflicts, merges) = merge_groups-Emits w r (valid_of w r items) flat in
      let (body', rendered') = renders out in
      let same_body : body' ≡ body = some-injective _ _ (
        sym
          (desired_body-of_merge w r items apart s out conflicts body' flat (merges s).0 rendered')
        ∙ desired) in
      let rendered : render w out ≡ ok body = rendered' ∙ ap (λ b. ok b) same_body in
      let checked = check_drift-cached w reads r s (
        own,
        live,
        hashes,
        got,
        lookup-insert (label r) (label r) (sha256_hex body) cache
            ∙ rw (str_eq_refl (label r), contents, hash) refl,
      ) in
      let (s1, runs, c1, h1) =
        reconcile-writing w r items s none out conflicts (ap (λ p. p.0) checked) tt
          (ap (λ p. (list_overrides r.target p.1.cluster).0) checked ∙ listed) merges in
      let same1 : s1.cluster ≡ s.cluster =
        c1
        ∙ ap (λ p. (list_overrides r.target p.1.cluster).1) checked
        ∙ list_reads r.target s.cluster in
      let s2 = sized w r body s1 in
      let skips =
        skipping w r.output_cm body s2 live reads
          (held, ap (λ c. (get_config_map r.output_cm c).0) same1 ∙ got, contents, hash) in
      let wrote = write_output-applies w r out body s1 res rendered (ap (λ p. p.0) skips) ∙ skips in
      let (s4, c4, h4, finishes) = finishing-statuses w r reads none es out conflicts res s2 in
      let idle = write_statuses-idle w r (valid_of w r items) res es s4 statuses in
      let ends =
        runs
        ∙ writing-finishing w r reads none es out conflicts res s1 s2 wrote
        ∙ finishes false (ap (λ p. p.0) idle) in
      (
        ap (λ p. p.0) ends,
        ap (λ p. p.1.cluster) ends ∙ ap (λ p. p.1.cluster) idle ∙ c4 ∙ ap (λ c. (now c).1) same1,
        ap (λ p. p.1.hashes) ends
            ∙ ap (λ p. p.1.hashes) idle
            ∙ h4
            ∙ ap (Option.map (λ h. set_hash h (label r) (sha256_hex body)))
                (h1 ∙ ap (λ p. p.1.hashes) checked ∙ hashes)
            ∙ ap (λ h. some h) (insert_again (label r) (sha256_hex body) cache)
            ∙ sym hashes,
      )
