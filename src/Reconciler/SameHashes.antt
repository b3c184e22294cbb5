-- ===== src/Reconciler/SameHashes.antt =====
-- The steps of `Reconcile` up to the write of the output keep the hash cache as it is.
use runtime_overrides_operat.Prelude.{
  Str, bytes, Option, none, some, List, [], ◌∷◌, ◌≡◌, refl, sym, subst, inl, inr, Dict, insert,
  Option-cases, Bool-cases,
}
use runtime_overrides_operat.Overrides.{Override, sort_group}
use runtime_overrides_operat.Conflict.{FieldConflict, tracking_merge}
use runtime_overrides_operat.Drift.{HashCache}
use runtime_overrides_operat.Platform.{Platform, Result, ok, err}
use runtime_overrides_operat.Proc.{State, Proc, of_result, of_option, ◌>>=◌, ◌>>◌}
use runtime_overrides_operat.Proc.Laws.{Keeps, Keeps-bind, Keeps-then, Keeps-on_error}
use runtime_overrides_operat.Format.{valid_string}
use runtime_overrides_operat.Render.{Output, render}
use runtime_overrides_operat.Apply.{apply_config_map}
use runtime_overrides_operat.Apply.Laws.{Result-cases, hashes-apply_config_map}
use runtime_overrides_operat.Reconciler.Gather.{Reconciler, label, gather, envelopes_of}
use runtime_overrides_operat.Reconciler.Output.{check_drift, cached_hash, merge_groups}
use runtime_overrides_operat.Reconciler.Loop.{
  report_drift, counting_failure, wrapping, write_output,
}
use runtime_overrides_operat.Reconciler.Listed.{envelopes_of-Emits}

pub report_drift-hashes :
    (w : Platform) (r : Reconciler) (drift : Option Str) (s : State w.Cluster)
    → (report_drift w r drift s).1.hashes ≡ s.hashes
report_drift-hashes w r none s = refl
report_drift-hashes w r (some manager) s = elim (Bool-cases (valid_string manager)) [
  | inl valid ↦ rw valid refl
  | inr cut ↦ rw cut refl
]

-- What the hash cache has, the steps keep.
module _ (w : Platform) (P : Option HashCache → Type 0) (r : Reconciler) where
  open w use {Cluster, get_config_map, list_overrides}

  abbrev OfHashes : Cluster → Option HashCache → Type 0
  OfHashes c hashes = P hashes

  pub same_hashes-Keeps :
      {A : Type 0} (m : Proc Cluster A)
      → ((s : State Cluster) → (m s).1.hashes ≡ s.hashes)
      → Keeps OfHashes m
  same_hashes-Keeps m same s h = subst P (sym (same s)) h

  abbrev Keeping : {A : Type 0} → Proc Cluster A → Type 0
  Keeping m = Keeps (OfHashes) m

  pub check_drift-Keeps : Keeping (check_drift w r)
  unfolding check_drift ◌>>=◌
  check_drift-Keeps s h = elim (Option-cases (cached_hash s.hashes (label r))) [
    | inl empty ↦ rw empty h
    | inr (hash, cached) ↦ elim (Result-cases (get_config_map r.output_cm s.cluster).0) [
      | inl (live, got) ↦ rw (cached, got) h
      | inr (e, missing) ↦ rw (cached, missing) h
    ]
  ]

  pub gather-Keeps : Keeping (gather w r)
  unfolding gather ◌>>=◌
  gather-Keeps s h = elim (Result-cases (list_overrides r.target s.cluster).0) [
    | inl (items, listed) ↦ rw listed (
        same_hashes-Keeps (envelopes_of w r items) (λ s'. (envelopes_of-Emits w r items s').2)
          (record s { cluster = (list_overrides r.target s.cluster).1 }) h)
    | inr (e, failed) ↦ rw failed h
  ]

  of_option-Keeps : {A : Type 0} (x : Option A) → Keeping (of_option x)
  of_option-Keeps none s h = h
  of_option-Keeps (some a) s h = h

  pub merge_groups-Keeps :
      (groups : Dict (List Override)) (out : Output) (conflicts : Dict (List FieldConflict))
      → Keeping (merge_groups w r groups out conflicts)
  unfolding merge_groups
  merge_groups-Keeps [] out conflicts = λ s h. h
  merge_groups-Keeps ((tenant, group) ∷ groups) out conflicts =
      Keeps-bind (OfHashes) (of_option (tracking_merge tenant (sort_group group))) _
        (of_option-Keeps (tracking_merge tenant (sort_group group)))
        (λ result. elim (Option-cases (r.validate result.0)) [
          | inl valid ↦ rw valid (
              merge_groups-Keeps groups (insert tenant result.0 out)
                (insert tenant result.1 conflicts))
          | inr (e, invalid) ↦ rw invalid (
              Keeps-then (OfHashes) _ (merge_groups w r groups out conflicts) (λ s h. h)
                (merge_groups-Keeps groups out conflicts))
        ])

  pub counting-Keeps :
      {A : Type 0} (m : Proc Cluster A) → Keeping m → Keeping (counting_failure w r m)
  unfolding ◌>>◌ ◌>>=◌
  counting-Keeps m kept = Keeps-on_error (OfHashes) m _ kept (λ e s h. h)

  wrapping-Keeps :
      {A : Type 0} (prefix : Str) (m : Proc Cluster A) → Keeping m → Keeping (wrapping w prefix m)
  wrapping-Keeps prefix m kept = Keeps-on_error (OfHashes) m _ kept (λ e s h. h)

  of_result-Keeps : {A : Type 0} (x : Result A) → Keeping (of_result x)
  of_result-Keeps (ok a) s h = h
  of_result-Keeps (err e) s h = h

  pub rendering-Keeps :
      (out : Output) → Keeping (wrapping w (bytes "render") (of_result (render w out)))
  rendering-Keeps out =
      wrapping-Keeps (bytes "render") (of_result (render w out)) (of_result-Keeps (render w out))

  pub applying-Keeps :
      (body : Str) → Keeping (wrapping w (bytes "apply") (apply_config_map w r.output_cm body))
  applying-Keeps body = wrapping-Keeps (bytes "apply") (apply_config_map w r.output_cm body) (
      same_hashes-Keeps (apply_config_map w r.output_cm body)
        (hashes-apply_config_map w r.output_cm body))

  pub write_output-Keeps : (out : Output) → Keeping (write_output w r out)
  unfolding write_output
  write_output-Keeps out =
      Keeps-bind OfHashes _ _
        (counting-Keeps (wrapping w (bytes "render") (of_result (render w out)))
          (rendering-Keeps out))
        (λ body.
          Keeps-then OfHashes _ _ (λ s h. h)
            (counting-Keeps (wrapping w (bytes "apply") (apply_config_map w r.output_cm body))
              (applying-Keeps body)))
