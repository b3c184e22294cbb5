-- ===== src/Reconciler/Failing.antt =====
-- `Reconcile` of the reconcilers where it ends in an error.
use mathlib.Core.Option.{none-ne-some}
use runtime_overrides_operat.Prelude.{
  Str, bytes, Option, none, some, List, [], ◌∷◌, ◌++◌, ◌≡◌, refl, sym, ap, ◌∙◌, inl, inr, Dict,
  insert, length, Option-cases, Bool-cases,
}
use runtime_overrides_operat.Overrides.{Override, group_by_tenant, sort_group}
use runtime_overrides_operat.Conflict.{FieldConflict, tracking_merge}
use runtime_overrides_operat.Platform.{Platform, Error}
use runtime_overrides_operat.Proc.{
  Effect, State, returns, fails, Proc, Outcome, panics, count, emit, gauge, on_error, of_result,
  of_option, ◌>>=◌, ◌>>◌,
}
use runtime_overrides_operat.Proc.Laws.{Outcome-cases}
use runtime_overrides_operat.Proc.Emits.{Returns}
use runtime_overrides_operat.Metrics.{
  reconcile_total, result_label, write_failed, output_size_bytes,
}
use runtime_overrides_operat.Format.{valid_string}
use runtime_overrides_operat.Render.{Output, render}
use runtime_overrides_operat.Apply.{apply_config_map}
use runtime_overrides_operat.Apply.Laws.{Result-cases}
use runtime_overrides_operat.Reconciler.Gather.{Reconciler, Envelope, label, gather}
use runtime_overrides_operat.Reconciler.Output.{
  check_drift, cached_hash, valid_overrides, merge_groups,
}
use runtime_overrides_operat.Reconciler.Loop.{
  reconcile, counting_failure, wrapping, write_output, report_drift,
}
use runtime_overrides_operat.Reconciler.Written.{finishing, merging}
use runtime_overrides_operat.Reconciler.Returns.{finishing-Returns}
use runtime_overrides_operat.Reconciler.SameHashes.{
  report_drift-hashes, check_drift-Keeps, gather-Keeps, merge_groups-Keeps, write_output-Keeps,
  counting-Keeps, rendering-Keeps, applying-Keeps,
}

-- The error that ends a procedure, if any.
abbrev failure : {A : Type 0} → Outcome A → Option Error
failure (returns a) = none
failure (fails e) = some e
failure panics = none

module _ {C : Type 0} where
  abbrev SameHashes : {A : Type 0} → Proc C A → Type 0
  SameHashes m = (s : State C) → (m s).1.hashes ≡ s.hashes

  -- The procedure may panic, but it does not end in an error.
  abbrev NeverFails : {A : Type 0} → Proc C A → Type 0
  NeverFails m = (s : State C) → failure (m s).0 ≡ none

  Returns-NeverFails : {A : Type 0} (m : Proc C A) → Returns m → NeverFails m
  Returns-NeverFails m h s = ap failure (h s).1

  bind-NeverFails :
      {A B : Type 0} (m : Proc C A) (f : A → Proc C B)
      → NeverFails m
      → ((a : A) → NeverFails (f a))
      → NeverFails (m >>= f)
  unfolding ◌>>=◌
  bind-NeverFails m f hm hf s = elim (Outcome-cases (m s).0) [
    | inl (a, done) ↦ rw done (hf a (m s).1)
    | inr (inl (e, failed)) ↦ absurd (none-ne-some e (sym (hm s) ∙ ap failure failed))
    | inr (inr failed) ↦ rw failed refl
  ]

  then-NeverFails :
      {A B : Type 0} (m : Proc C A) (n : Proc C B)
      → NeverFails m
      → NeverFails n
      → NeverFails (m >> n)
  unfolding ◌>>◌
  then-NeverFails m n hm hn = bind-NeverFails m (λ _. n) hm (λ _. hn)

module _ (w : Platform) (r : Reconciler) where
  open w use {Cluster, get_config_map}

  -- The last effect is the count of a failed write, and the hash cache is as before.
  abbrev pub IsCounted : State Cluster → State Cluster → Type 0
  IsCounted s s' =
      (s'.hashes ≡ s.hashes)
      × ((before : List Effect) × (s'.trace
            ≡ before ++ (count reconcile_total (label r ∷ result_label write_failed ∷ []) ∷ [])))

  abbrev CountsFailure : {A : Type 0} → Proc Cluster A → Type 0
  CountsFailure m = (s : State Cluster) (e : Error) → (m s).0 ≡ fails e → IsCounted s (m s).1

  never : {A : Type 0} (m : Proc Cluster A) → NeverFails m → CountsFailure m
  never m h s e failed = absurd (none-ne-some e (sym (h s) ∙ ap failure failed))

  bind-CountsFailure :
      {A B : Type 0} (m : Proc Cluster A) (f : A → Proc Cluster B)
      → SameHashes m
      → CountsFailure m
      → ((a : A) → CountsFailure (f a))
      → CountsFailure (m >>= f)
  unfolding ◌>>=◌
  bind-CountsFailure m f same hm hf s e h = elim (Outcome-cases (m s).0) [
    | inl (a, done) ↦
        let (hashes, traced) = hf a (m s).1 e (rw done at h) in rw done (hashes ∙ same s, traced)
    | inr (inl (x, failed)) ↦ rw failed (hm s x failed)
    | inr (inr failed) ↦ absurd (none-ne-some e (ap failure (rw failed at h)))
  ]

  then-CountsFailure :
      {A B : Type 0} (m : Proc Cluster A) (n : Proc Cluster B)
      → SameHashes m
      → CountsFailure m
      → CountsFailure n
      → CountsFailure (m >> n)
  unfolding ◌>>◌
  then-CountsFailure m n same hm hn = bind-CountsFailure m (λ _. n) same hm (λ _. hn)

  counting-CountsFailure :
      {A : Type 0} (m : Proc Cluster A) → SameHashes m → CountsFailure (counting_failure w r m)
  unfolding on_error ◌>>◌ ◌>>=◌
  counting-CountsFailure m same s e h = elim (Outcome-cases (m s).0) [
    | inl (a, done) ↦ absurd (none-ne-some e (ap failure (rw done at h)))
    | inr (inl (x, failed)) ↦ rw failed (same s, ((m s).1.trace, refl))
    | inr (inr failed) ↦ absurd (none-ne-some e (ap failure (rw failed at h)))
  ]

  check_drift-NeverFails : NeverFails (check_drift w r)
  unfolding check_drift ◌>>=◌
  check_drift-NeverFails s = elim (Option-cases (cached_hash s.hashes (label r))) [
    | inl empty ↦ rw empty refl
    | inr (hash, cached) ↦ elim (Result-cases (get_config_map r.output_cm s.cluster).0) [
      | inl (live, got) ↦ rw (cached, got) refl
      | inr (e, missing) ↦ rw (cached, missing) refl
    ]
  ]

  of_option-NeverFails : {A : Type 0} (x : Option A) → NeverFails {C = Cluster} (of_option x)
  of_option-NeverFails none s = refl
  of_option-NeverFails (some a) s = refl

  merge_groups-NeverFails :
      (groups : Dict (List Override)) (out : Output) (conflicts : Dict (List FieldConflict))
      → NeverFails (merge_groups w r groups out conflicts)
  unfolding merge_groups
  merge_groups-NeverFails [] out conflicts = λ s. refl
  merge_groups-NeverFails ((tenant, group) ∷ groups) out conflicts =
      bind-NeverFails (of_option (tracking_merge tenant (sort_group group))) _
        (of_option-NeverFails (tracking_merge tenant (sort_group group)))
        (λ result. elim (Option-cases (r.validate result.0)) [
          | inl valid ↦ rw valid (
              merge_groups-NeverFails groups (insert tenant result.0 out)
                (insert tenant result.1 conflicts))
          | inr (e, invalid) ↦ rw invalid (
              then-NeverFails _ (merge_groups w r groups out conflicts) (λ s. refl)
                (merge_groups-NeverFails groups out conflicts))
        ])

  write_output-CountsFailure : (out : Output) → CountsFailure (write_output w r out)
  unfolding write_output
  write_output-CountsFailure out =
      let rendering : Proc Cluster Str = wrapping w (bytes "render") (of_result (render w out)) in
      bind-CountsFailure (counting_failure w r rendering) _
        (λ s.
          counting-Keeps w (λ h. h ≡ s.hashes) r rendering
            (rendering-Keeps w (λ h. h ≡ s.hashes) r out) s refl)
        (counting-CountsFailure rendering (λ s. rendering-Keeps w (λ h. h ≡ s.hashes) r out s refl))
        (λ body.
          let sized : Proc Cluster Unit =
            emit (gauge output_size_bytes (label r ∷ []) (length body)) in
          then-CountsFailure sized _ (λ s. refl) (never sized (λ s. refl))
            (counting-CountsFailure
              (wrapping w (bytes "apply") (apply_config_map w r.output_cm body))
              (λ s. applying-Keeps w (λ h. h ≡ s.hashes) r body s refl)))

  merging-CountsFailure :
      (drift : Option Str) (es : List Envelope) → CountsFailure (merging w r drift es)
  merging-CountsFailure drift es =
      let groups = group_by_tenant (valid_overrides es) in
      bind-CountsFailure (merge_groups w r groups [] []) _
        (λ s. merge_groups-Keeps w (λ h. h ≡ s.hashes) r groups [] [] s refl)
        (never (merge_groups w r groups [] []) (merge_groups-NeverFails groups [] []))
        (λ merged.
          bind-CountsFailure (write_output w r merged.0) _
            (λ s. write_output-Keeps w (λ h. h ≡ s.hashes) r merged.0 s refl)
            (write_output-CountsFailure merged.0)
            (λ res.
              let finish = finishing w r drift es merged.0 merged.1 res in
              never finish
                (Returns-NeverFails finish (finishing-Returns w r drift es merged.0 merged.1 res))))

  report_drift-NeverFails : (drift : Option Str) → NeverFails (report_drift w r drift)
  report_drift-NeverFails none s = refl
  report_drift-NeverFails (some manager) s = elim (Bool-cases (valid_string manager)) [
    | inl valid ↦ rw valid refl
    | inr cut ↦ rw cut refl
  ]

  -- A reconcile that ends in an error has recorded the count of a failed write as its last effect,
  -- and leaves the hash cache as it was. No condition is put on the API or on the libraries.
  pub reconcile-IsCounted :
      (s : State Cluster) (e : Error)
      → (reconcile w r s).0 ≡ fails e
      → IsCounted s (reconcile w r s).1
  unfolding reconcile
  reconcile-IsCounted =
      bind-CountsFailure (check_drift w r) _ (λ s. check_drift-Keeps w (λ h. h ≡ s.hashes) r s refl)
        (never (check_drift w r) check_drift-NeverFails)
        (λ drift.
          then-CountsFailure (report_drift w r drift) _ (report_drift-hashes w r drift)
            (never (report_drift w r drift) (report_drift-NeverFails drift))
            (bind-CountsFailure (counting_failure w r (gather w r)) _
              (λ s.
                counting-Keeps w (λ h. h ≡ s.hashes) r (gather w r)
                  (gather-Keeps w (λ h. h ≡ s.hashes) r) s refl)
              (counting-CountsFailure (gather w r)
                (λ s. gather-Keeps w (λ h. h ≡ s.hashes) r s refl))
              (λ es. merging-CountsFailure drift es)))
