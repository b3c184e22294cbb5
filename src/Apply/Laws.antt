-- ===== src/Apply/Laws.antt =====
-- `ConfigMap` of internal/apply/apply.go, and what the drift check and the bootstrap of
-- internal/controller see of its writes.
use mathlib.Core.Bool.{false≢true, true≢false}
use mathlib.Core.Option.{some-injective, none-ne-some}
use runtime_overrides_operat.Prelude.{
  Str, str_eq_refl, str_eq_iff, true, false, Option, none, some, ◌≡◌, refl, sym, ap, ◌∙◌, arith,
  lookup, Bool-cases, Option-cases, inl, inr, ◌⊎◌,
}
use runtime_overrides_operat.Api.{NamespacedName}
use runtime_overrides_operat.Drift.{ConfigMap}
use runtime_overrides_operat.Platform.{Platform, Error, Result, ok, err}
use runtime_overrides_operat.Proc.{State, returned, returns, fails, ◌>>=◌}
use runtime_overrides_operat.Render.{data_key}
use runtime_overrides_operat.Apply.{
  ApplyResult, apply_config_map, write_config_map, desired_config_map, field_manager, is_not_found,
  up_to_date,
}

pub Result-cases :
    {A : Type 0} (r : Result A) → ((a : A) × (r ≡ ok a)) ⊎ ((e : Error) × (r ≡ err e))
Result-cases (ok a) = inl (a, refl)
Result-cases (err e) = inr (e, refl)

abbrev ok_value : {A : Type 0} → Result A → Option A
ok_value (ok a) = some a
ok_value (err e) = none

module _ (w : Platform) where
  open w use {Cluster, get_config_map, patch_config_map, sha256_hex}

  -- A get of a name answers with a ConfigMap whose body has the hash of this one.
  abbrev pub IsCurrent : Cluster → NamespacedName → Str → ConfigMap → Type 0
  IsCurrent c name body live =
      (held : Str) × ((get_config_map name c).0 ≡ ok live)
      × (lookup data_key live.contents ≡ some held)
      × (sha256_hex held ≡ sha256_hex body)

  -- A get only reads.
  abbrev pub GetReads : Type 0
  GetReads = (name : NamespacedName) (c : Cluster) → (get_config_map name c).1 ≡ c

  up_to_date-some :
      (live : ConfigMap) (hash : Str)
      → up_to_date w hash live ≡ true
      → (body : Str) × (lookup data_key live.contents ≡ some body) × (sha256_hex body ≡ hash)
  up_to_date-some live hash h = elim (Option-cases (lookup data_key live.contents)) [
    | inl missing ↦ absurd (false≢true (rw missing at h))
    | inr (body, found) ↦ (body, found, (str_eq_iff (sha256_hex body) hash).0 (rw found at h))
  ]

  -- The hash cache stays as it is.
  pub hashes-apply_config_map :
      (name : NamespacedName) (body : Str) (s : State Cluster)
      → (apply_config_map w name body s).1.hashes ≡ s.hashes
  unfolding apply_config_map write_config_map ◌>>=◌
  hashes-apply_config_map name body s = ground arith

  some-up_to_date :
      (live : ConfigMap) (c : Cluster) (name : NamespacedName) (body : Str)
      → IsCurrent c name body live
      → up_to_date w (sha256_hex body) live ≡ true
  some-up_to_date live c name body (held, got, contents, hash) =
      rw (contents, hash) (str_eq_refl (sha256_hex body))

  -- The apply has found the ConfigMap current and has only made that one get.
  abbrev pub Skips : NamespacedName → Str → State Cluster → ApplyResult → State Cluster → Type 0
  Skips name body s res s' =
      (live : ConfigMap) × IsCurrent s.cluster name body live
      × (res ≡ record { hash = sha256_hex body; generation = live.generation; skipped = true })
      × (s' ≡ record s { cluster = (get_config_map name s.cluster).1 })

  -- The apply has not found the ConfigMap current; its forced apply of the body was accepted, and the
  -- get after it told the generation.
  abbrev pub Writes : NamespacedName → Str → State Cluster → ApplyResult → State Cluster → Type 0
  Writes name body s res s' =
      let patched =
        patch_config_map (desired_config_map name body) field_manager true
          (get_config_map name s.cluster).1 in
      (live : ConfigMap) × ((old : ConfigMap) → ¬ (IsCurrent s.cluster name body old))
      × (patched.0 ≡ none)
      × ((get_config_map name patched.1).0 ≡ ok live)
      × (res ≡ record { hash = sha256_hex body; generation = live.generation; skipped = false })
      × (s' ≡ record s { cluster = (get_config_map name patched.1).1 })

  abbrev pub Lands : NamespacedName → Str → State Cluster → ApplyResult → State Cluster → Type 0
  Lands name body s res s' = Skips name body s res s' ⊎ Writes name body s res s'

  write_config_map-Writes :
      (name : NamespacedName) (body : Str) (s : State Cluster) (res : ApplyResult)
      → ((old : ConfigMap) → ¬ (IsCurrent s.cluster name body old))
      → let s' = record s { cluster = (get_config_map name s.cluster).1 } in
        (write_config_map w name body (sha256_hex body) s').0 ≡ returns res
        → Writes name body s res (write_config_map w name body (sha256_hex body) s').1
  unfolding write_config_map ◌>>=◌
  write_config_map-Writes name body s res stale h =
      let patched =
        patch_config_map (desired_config_map name body) field_manager true
          (get_config_map name s.cluster).1 in
      elim (Option-cases patched.0) [
        | inr (e, refused) ↦ absurd (none-ne-some res (ap returned (rw refused at h)))
        | inl accepted ↦ elim (Result-cases (get_config_map name patched.1).0) [
          | inr (e, lost) ↦ absurd (none-ne-some res (ap returned (rw (accepted, lost) at h)))
          | inl (live, found) ↦ (
            live,
            stale,
            accepted,
            found,
            sym (some-injective _ _ (ap returned (rw (accepted, found) at h))),
            rw (accepted, found) refl,
          )
        ]
      ]

  -- The state after the first get.
  abbrev after_get : NamespacedName → State Cluster → State Cluster
  after_get name s = record s { cluster = (get_config_map name s.cluster).1 }

  apply-current :
      (name : NamespacedName) (body : Str) (s : State Cluster) (live : ConfigMap)
      → (get_config_map name s.cluster).0 ≡ ok live
      → up_to_date w (sha256_hex body) live ≡ true
      → apply_config_map w name body s ≡ (
        returns (record { hash = sha256_hex body; generation = live.generation; skipped = true }),
        after_get name s,
      )
  unfolding apply_config_map ◌>>=◌
  apply-current name body s live got same = rw (got, same) refl

  apply-stale :
      (name : NamespacedName) (body : Str) (s : State Cluster) (live : ConfigMap)
      → (get_config_map name s.cluster).0 ≡ ok live
      → up_to_date w (sha256_hex body) live ≡ false
      → apply_config_map w name body s
        ≡ write_config_map w name body (sha256_hex body) (after_get name s)
  unfolding apply_config_map ◌>>=◌
  apply-stale name body s live got other = rw (got, other) refl

  apply-absent :
      (name : NamespacedName) (body : Str) (s : State Cluster) (e : Error)
      → (get_config_map name s.cluster).0 ≡ err e
      → is_not_found e ≡ true
      → apply_config_map w name body s
        ≡ write_config_map w name body (sha256_hex body) (after_get name s)
  unfolding apply_config_map ◌>>=◌
  apply-absent name body s e missing absent = rw (missing, absent) refl

  apply-broken :
      (name : NamespacedName) (body : Str) (s : State Cluster) (e : Error)
      → (get_config_map name s.cluster).0 ≡ err e
      → is_not_found e ≡ false
      → returned (apply_config_map w name body s).0 ≡ none
  unfolding apply_config_map ◌>>=◌
  apply-broken name body s e missing broken = rw (missing, broken) refl

  apply-write-Lands :
      (name : NamespacedName) (body : Str) (s : State Cluster) (res : ApplyResult)
      → ((old : ConfigMap) → ¬ (IsCurrent s.cluster name body old))
      → apply_config_map w name body s
        ≡ write_config_map w name body (sha256_hex body) (after_get name s)
      → (apply_config_map w name body s).0 ≡ returns res
      → (res.hash ≡ sha256_hex body) × Lands name body s res (apply_config_map w name body s).1
  apply-write-Lands name body s res stale same h =
      let written = write_config_map-Writes name body s res stale (sym (ap (λ p. p.0) same) ∙ h) in
      rw same (ap (λ (x : ApplyResult). x.hash) written.4, inr written)

  -- If an apply returns, then either the ConfigMap that its get answers has a body of the hash of the
  -- wanted one, and nothing but that get has been called; or it has not, a forced apply of the wanted
  -- ConfigMap was accepted, and the result has the generation that the get after it answers. In both
  -- cases the result has the hash of the wanted body.
  pub apply_config_map-Lands :
      (name : NamespacedName) (body : Str) (s : State Cluster) (res : ApplyResult)
      → (apply_config_map w name body s).0 ≡ returns res
      → (res.hash ≡ sha256_hex body) × Lands name body s res (apply_config_map w name body s).1
  apply_config_map-Lands name body s res h = elim (Result-cases (get_config_map name s.cluster).0) [
    | inl (live, got) ↦ elim (Bool-cases (up_to_date w (sha256_hex body) live)) [
      | inl same ↦
          let (held, contents, hash) = up_to_date-some live (sha256_hex body) same in
          let runs = apply-current name body s live got same in
          let answer = sym (some-injective _ _ (ap returned (sym (ap (λ p. p.0) runs) ∙ h))) in
          (
            ap (λ (x : ApplyResult). x.hash) answer,
            inl (live, (held, got, contents, hash), answer, ap (λ p. p.1) runs),
          )
      | inr other ↦
          let stale = λ (old : ConfigMap) (current : IsCurrent s.cluster name body old).
            true≢false (
              sym (some-up_to_date old s.cluster name body current)
              ∙ ap (up_to_date w (sha256_hex body))
                  (some-injective _ _ (ap ok_value (sym current.1 ∙ got)))
              ∙ other) in
          apply-write-Lands name body s res stale (apply-stale name body s live got other) h
    ]
    | inr (e, missing) ↦ elim (Bool-cases (is_not_found e)) [
      | inl absent ↦
          let stale = λ (old : ConfigMap) (current : IsCurrent s.cluster name body old).
            none-ne-some old (ap ok_value (sym missing ∙ current.1)) in
          apply-write-Lands name body s res stale (apply-absent name body s e missing absent) h
      | inr broken ↦
          absurd
            (none-ne-some res (sym (apply-broken name body s e missing broken) ∙ ap returned h))
    ]
  ]

  write_config_map-answers :
      (name : NamespacedName) (body hash : Str) (s : State Cluster)
      → ((res : ApplyResult) × ((write_config_map w name body hash s).0 ≡ returns res))
        ⊎ ((e : Error) × ((write_config_map w name body hash s).0 ≡ fails e))
  unfolding write_config_map ◌>>=◌
  write_config_map-answers name body hash s =
      let patched = patch_config_map (desired_config_map name body) field_manager true s.cluster in
      elim (Option-cases patched.0) [
        | inr (e, refused) ↦ rw refused (inr (_, refl))
        | inl accepted ↦ elim (Result-cases (get_config_map name patched.1).0) [
          | inr (e, lost) ↦ rw (accepted, lost) (inr (_, refl))
          | inl (live, found) ↦ rw (accepted, found) (inl (_, refl))
        ]
      ]

  -- An apply returns or fails; it does not panic.
  pub apply_config_map-answers :
      (name : NamespacedName) (body : Str) (s : State Cluster)
      → ((res : ApplyResult) × ((apply_config_map w name body s).0 ≡ returns res))
        ⊎ ((e : Error) × ((apply_config_map w name body s).0 ≡ fails e))
  unfolding apply_config_map write_config_map ◌>>=◌
  apply_config_map-answers name body s =
      let wrote =
        write_config_map-answers name body (sha256_hex body)
          (record s { cluster = (get_config_map name s.cluster).1 }) in
      elim (Result-cases (get_config_map name s.cluster).0) [
        | inl (live, got) ↦ elim (Bool-cases (up_to_date w (sha256_hex body) live)) [
          | inl same ↦ rw (got, same) (inl (_, refl))
          | inr other ↦ rw (got, other) wrote
        ]
        | inr (e, missing) ↦ elim (Bool-cases (is_not_found e)) [
          | inl absent ↦ rw (missing, absent) wrote
          | inr broken ↦ rw (missing, broken) (inr (_, refl))
        ]
      ]

  pub skipping :
      (name : NamespacedName) (body : Str) (s : State Cluster) (live : ConfigMap)
      → GetReads
      → IsCurrent s.cluster name body live
      → apply_config_map w name body s ≡ (
        returns (record { hash = sha256_hex body; generation = live.generation; skipped = true }),
        s,
      )
  unfolding apply_config_map ◌>>=◌
  skipping name body s live reads current =
      rw (current.1, some-up_to_date live s.cluster name body current, reads name s.cluster) refl
