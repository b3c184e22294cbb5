-- ===== src/Runs/Laws.antt =====
-- The hash cache and the drift check of internal/controller in runs of the operator.
use mathlib.Core.Option
use mathlib.Core.Option.{none-ne-some, some-injective}
use mathlib.Core.Bool.{true≢false}
use runtime_overrides_operat.Prelude.{
  true, false, Str, str_eq, str_eq_iff, Option, none, some, [], ◌≡◌, ◌≢◌, refl, sym, ap, ◌∙◌, inl,
  inr, ◌⊎◌, lookup, insert, lookup-insert, Bool-cases,
}
use runtime_overrides_operat.Drift.{
  ConfigMap, HashCache, set_hash, new_hash_cache, extract_conflicting_field_manager,
}
use runtime_overrides_operat.Platform.{Platform, Error, ok, err}
use runtime_overrides_operat.Proc.{State, returned, returns, on_error, ◌>>=◌}
use runtime_overrides_operat.Proc.Laws.{Outcome-cases}
use runtime_overrides_operat.Render.{data_key, render}
use runtime_overrides_operat.Apply.{ApplyResult, apply_config_map, is_not_found, field_manager}
use runtime_overrides_operat.Apply.Laws.{
  Result-cases, hashes-apply_config_map, apply_config_map-Lands,
}
use runtime_overrides_operat.Bootstrap.{BootstrapTarget, bootstrap_target, create_output}
use runtime_overrides_operat.Reconciler.Gather.{Reconciler, label}
use runtime_overrides_operat.Reconciler.Output.{check_drift, cached_hash, or_empty_text}
use runtime_overrides_operat.Reconciler.Loop.{reconcile}
use runtime_overrides_operat.Reconciler.Remembered.{HasWritten, reconcile-Remembers}
use runtime_overrides_operat.Runs.{pass, boot, others, restart, Reach, here, next, HasBooted, Knows}

module _ (w : Platform) where
  open w use {Cluster, get_config_map, sha256_hex}

  -- The cache is as before but for the hash of a body that is put into it.
  abbrev Puts : (Str → Type 0) → Str → Option HashCache → Option HashCache → Type 0
  Puts Q target before after =
      (after ≡ before)
      ⊎ ((body : Str) × Q body
          × (after ≡ Option.map (λ h. set_hash h target (sha256_hex body)) before))

  create_output-unrendered :
      (t : BootstrapTarget) (s : State Cluster) (e : Error)
      → render w [] ≡ err e
      → (create_output w t s).1.hashes ≡ s.hashes
  unfolding create_output ◌>>=◌ on_error
  create_output-unrendered t s e broken = rw broken refl

  create_output-unapplied :
      (t : BootstrapTarget) (s : State Cluster) (body : Str)
      → render w [] ≡ ok body
      → returned (apply_config_map w t.output_cm body s).0 ≡ none
      → (create_output w t s).1.hashes ≡ (apply_config_map w t.output_cm body s).1.hashes
  unfolding create_output ◌>>=◌ on_error
  create_output-unapplied t s body is_body h =
      elim (Outcome-cases (apply_config_map w t.output_cm body s).0) [
        | inl (res, applied) ↦ absurd (none-ne-some res (sym h ∙ ap returned applied))
        | inr (inl (e, failed)) ↦ rw (is_body, failed) refl
        | inr (inr failed) ↦ rw (is_body, failed) refl
      ]

  create_output-applied :
      (t : BootstrapTarget) (s : State Cluster) (body : Str) (res : ApplyResult)
      → render w [] ≡ ok body
      → (apply_config_map w t.output_cm body s).0 ≡ returns res
      → (create_output w t s).1.hashes
        ≡ Option.map
            (λ h. set_hash h t.name res.hash)
            (apply_config_map w t.output_cm body s).1.hashes
  unfolding create_output ◌>>=◌ on_error
  create_output-applied t s body res is_body applied = rw (is_body, applied) refl

  create_output-Puts :
      (t : BootstrapTarget) (s : State Cluster)
      → Puts
          (λ body.
            (res : ApplyResult) × (render w [] ≡ ok body)
            × ((apply_config_map w t.output_cm body s).0 ≡ returns res))
          t.name
          s.hashes
          (create_output w t s).1.hashes
  create_output-Puts t s = elim (Result-cases (render w [])) [
    | inr (e, broken) ↦ inl (create_output-unrendered t s e broken)
    | inl (body, is_body) ↦
        let kept = hashes-apply_config_map w t.output_cm body s in
        elim (Outcome-cases (apply_config_map w t.output_cm body s).0) [
          | inr (inl (e, failed)) ↦
              inl (create_output-unapplied t s body is_body (ap returned failed) ∙ kept)
          | inr (inr failed) ↦
              inl (create_output-unapplied t s body is_body (ap returned failed) ∙ kept)
          | inl (res, applied) ↦ inr (
            body,
            (res, is_body, applied),
            create_output-applied t s body res is_body applied
                ∙ ap (Option.map (λ h. set_hash h t.name res.hash)) kept
                ∙ ap (λ x. Option.map (λ h. set_hash h t.name x) s.hashes)
                    (apply_config_map-Lands w t.output_cm body s res applied).0,
          )
        ]
  ]

  boot-found :
      (t : BootstrapTarget) (s : State Cluster) (live : ConfigMap)
      → (get_config_map t.output_cm s.cluster).0 ≡ ok live
      → (bootstrap_target w t s).1.hashes
        ≡ Option.map
            (λ h. set_hash h t.name (sha256_hex (or_empty_text (lookup data_key live.contents))))
            s.hashes
  unfolding bootstrap_target ◌>>=◌
  boot-found t s live got = rw got refl

  boot-absent :
      (t : BootstrapTarget) (s : State Cluster) (e : Error)
      → (get_config_map t.output_cm s.cluster).0 ≡ err e
      → is_not_found e ≡ true
      → (bootstrap_target w t s).1.hashes
        ≡ (create_output w t
            (record s { cluster = (get_config_map t.output_cm s.cluster).1 })).1.hashes
  unfolding bootstrap_target ◌>>=◌
  boot-absent t s e missing absent = rw (missing, absent) refl

  boot-broken :
      (t : BootstrapTarget) (s : State Cluster) (e : Error)
      → (get_config_map t.output_cm s.cluster).0 ≡ err e
      → is_not_found e ≡ false
      → (bootstrap_target w t s).1.hashes ≡ s.hashes
  unfolding bootstrap_target ◌>>=◌
  boot-broken t s e missing broken = rw (missing, broken) refl

  bootstrap_target-Puts :
      (t : BootstrapTarget) (s : State Cluster)
      → Puts (HasBooted w t s) t.name s.hashes (bootstrap_target w t s).1.hashes
  bootstrap_target-Puts t s =
      let s' = record s { cluster = (get_config_map t.output_cm s.cluster).1 } in
      elim (Result-cases (get_config_map t.output_cm s.cluster).0) [
        | inl (live, got) ↦ inr (
          or_empty_text (lookup data_key live.contents),
          inl (live, got, refl),
          boot-found t s live got,
        )
        | inr (e, missing) ↦ elim (Bool-cases (is_not_found e)) [
          | inr broken ↦ inl (boot-broken t s e missing broken)
          | inl absent ↦ elim (create_output-Puts t s') [
            | inl same ↦ inl (boot-absent t s e missing absent ∙ same)
            | inr (body, written, put) ↦
                inr (body, inr written, boot-absent t s e missing absent ∙ put)
          ]
        ]
      ]

  cached-Puts :
      (Q : Str → Type 0) (before after : Option HashCache) (own target hash : Str)
      → Puts Q own before after
      → cached_hash after target ≡ some hash
      → (cached_hash before target ≡ some hash)
        ⊎ ((own ≡ target) × ((body : Str) × Q body × (hash ≡ sha256_hex body)))
  cached-Puts Q before after own target hash (inl same) cached =
      inl (ap (λ h. cached_hash h target) (sym same) ∙ cached)
  cached-Puts Q none after own target hash (inr (body, q, put)) cached =
      absurd (none-ne-some hash (sym (ap (λ h. cached_hash h target) put) ∙ cached))
  cached-Puts Q (some cache) after own target hash (inr (body, q, put)) cached =
      let found : lookup target (insert own (sha256_hex body) cache) ≡ some hash =
        sym (ap (λ h. cached_hash h target) put) ∙ cached in
      elim (Bool-cases (str_eq own target)) [
        | inl mine ↦ inr (
          (str_eq_iff own target).0 mine,
          (
            body,
            q,
            sym (
                some-injective _ _
                  (sym (lookup-insert own target (sha256_hex body) cache ∙ rw mine refl) ∙ found)),
          ),
        )
        | inr apart ↦
            inl (sym (lookup-insert own target (sha256_hex body) cache ∙ rw apart refl) ∙ found)
      ]

  reconcile-Puts :
      (r : Reconciler) (s : State Cluster)
      → Puts (HasWritten w r s) (label r) s.hashes (reconcile w r s).1.hashes
  reconcile-Puts r s = elim (reconcile-Remembers w r s) [
    | inl (_, same) ↦ inl same
    | inr (body, answer, written, _, put) ↦ inr (body, written, put)
  ]

  -- All hashes of the cache are known from the run.
  Reach-Knows :
      {s t : State Cluster} (run : Reach w s t) (target hash : Str)
      → s.hashes ≡ some new_hash_cache
      → cached_hash t.hashes target ≡ some hash
      → Knows w run target hash
  unfolding lookup
  Reach-Knows here target hash empty cached =
      absurd (none-ne-some hash (sym (ap (λ h. cached_hash h target) empty) ∙ cached))
  Reach-Knows (next run (pass r s)) target hash empty cached =
      elim (cached-Puts _ s.hashes _ (label r) target hash (reconcile-Puts r s) cached) [
        | inl before ↦ inl (Reach-Knows run target hash empty before)
        | inr now_known ↦ inr now_known
      ]
  Reach-Knows (next run (boot t s)) target hash empty cached =
      elim (cached-Puts _ s.hashes _ t.name target hash (bootstrap_target-Puts t s) cached) [
        | inl before ↦ inl (Reach-Knows run target hash empty before)
        | inr now_known ↦ inr now_known
      ]
  Reach-Knows (next run (others c s)) target hash empty cached =
      inl (Reach-Knows run target hash empty cached)
  Reach-Knows (next run (restart s)) target hash empty cached = absurd (none-ne-some hash cached)

  -- In a run that starts with an empty hash cache, whenever the cache has a hash for the target of a
  -- reconciler and the get of its output ConfigMap answers: a step of the run has written or found a
  -- body of the cached hash as the output of that target; and the drift check answers that there is
  -- no drift if the live body has that hash, and a drift with the name of the other writer if it has
  -- not.
  pub check_drift-exact :
      {s t : State Cluster} (r : Reconciler) (live : ConfigMap) (hash : Str) (run : Reach w s t)
      → s.hashes ≡ some new_hash_cache
      → cached_hash t.hashes (label r) ≡ some hash
      → (get_config_map r.output_cm t.cluster).0 ≡ ok live
      → let live_hash = sha256_hex (or_empty_text (lookup data_key live.contents)) in
        Knows w run (label r) hash
        × (((live_hash ≡ hash) × ((check_drift w r t).0 ≡ returns none))
            ⊎ ((live_hash ≢ hash)
                × ((check_drift w r t).0
                    ≡ returns
                        (some (extract_conflicting_field_manager (some live) field_manager)))))
  unfolding check_drift ◌>>=◌
  check_drift-exact {t = t} r live hash run empty cached got =
      let live_hash = sha256_hex (or_empty_text (lookup data_key live.contents)) in
      (
        Reach-Knows run (label r) hash empty cached,
        elim (Bool-cases (str_eq live_hash hash)) [
          | inl same ↦ inl ((str_eq_iff live_hash hash).0 same, rw (cached, got, same) refl)
          | inr other ↦ inr (
            λ same. true≢false (sym ((str_eq_iff live_hash hash).1 same) ∙ other),
            rw (cached, got, other) refl,
          )
        ],
      )
