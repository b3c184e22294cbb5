-- ===== src/Startup/Laws.antt =====
-- The steps of a start in `main` of cmd/main.go.
use mathlib.Core.Bool.{false≢true}
use mathlib.Core.Option.{none-ne-some}
use runtime_overrides_operat.Prelude.{
  false, Option, none, some, List, [], ◌∷◌, ◌++◌, ◌≡◌, refl, sym, ap, ◌∙◌, map, All, Any,
  Option-cases, Bool-cases, inl, inr, ◌↔◌, ◌≢◌, arith, ◌⊎◌,
}
use runtime_overrides_operat.Platform.{Error}
use runtime_overrides_operat.Config.{validate_targets, registrations}
use runtime_overrides_operat.Startup.{
  Flags, Step, new_manager, check_targets, init_defaults, register, add_healthz_check,
  add_readyz_check, write_banner, start_manager, steps, step_error, run_steps, run_main,
  exit_success, exit_failure, manager_options, targets_of, Defaults, set_defaults,
}

-- The steps that set up something that validates, or start it.
abbrev pub NeedsDefaults : Step → Type 0
NeedsDefaults (register r) = Unit
NeedsDefaults start_manager = Unit
NeedsDefaults s = ⊥

failure≢success : exit_failure ≢ exit_success
failure≢success h = ground arith

no_first : {A : Type 0} → ⊥ ⊎ A → A
no_first (inl b) = absurd b
no_first (inr a) = a

no_case : ⊥ ⊎ ⊥ → ⊥
no_case x = no_first x

module _ (fails : Step → Option Error) where
  after_success :
      (s : Step) (ss : List Step)
      → step_error fails s ≡ none
      → run_steps fails (s ∷ ss) ≡ (s ∷ (run_steps fails ss).0, (run_steps fails ss).1)
  unfolding run_steps
  after_success s ss h = rw (run_steps, h) refl

  after_failure :
      (s : Step) (ss : List Step) (e : Error)
      → step_error fails s ≡ some e
      → run_steps fails (s ∷ ss) ≡ (s ∷ [], exit_failure)
  unfolding run_steps
  after_failure s ss e h = rw (run_steps, h) refl

  -- A reconciler, a bootstrap or a webhook is registered, or the manager started, only after the
  -- targets have been found valid and the defaults of the backends have been set, in that order.
  pub run_main-defaults_first :
      (f : Flags)
      → Any NeedsDefaults (run_main fails f).0
      → (validate_targets (targets_of f) ≡ none)
        × ((more : List Step) × ((run_main fails f).0
              ≡ new_manager (manager_options f)
                ∷ check_targets (targets_of f)
                ∷ init_defaults
                ∷ more))
  unfolding run_main steps
  run_main-defaults_first f h =
      let later =
        map register (registrations (targets_of f) f.enable_webhook)
        ++ (add_healthz_check ∷ add_readyz_check ∷ write_banner ∷ start_manager ∷ []) in
      let checking = check_targets (targets_of f) ∷ init_defaults ∷ later in
      elim (Option-cases (fails (new_manager (manager_options f)))) [
        | inr (e, failed) ↦
            absurd (
              no_case (rw (after_failure (new_manager (manager_options f)) checking e failed) at h))
        | inl made ↦
            let first = after_success (new_manager (manager_options f)) checking made in
            elim (Option-cases (validate_targets (targets_of f))) [
              | inr (e, invalid) ↦ absurd (
                  no_case (
                    no_first (
                      rw
                        (
                          first,
                          after_failure (check_targets (targets_of f)) (init_defaults ∷ later) e
                              invalid,
                        )
                        at h)))
              | inl valid ↦ (
                valid,
                (
                  (run_steps fails later).0,
                  ap (λ p. p.0)
                      (first
                        ∙ ap (λ p. (new_manager (manager_options f) ∷ p.0, p.1))
                            (after_success (check_targets (targets_of f)) (init_defaults ∷ later)
                                valid
                              ∙ ap (λ p. (check_targets (targets_of f) ∷ p.0, p.1))
                                  (after_success init_defaults later refl))),
                ),
              )
            ]
      ]

  run_steps-All :
      (ss : List Step)
      → (((run_steps fails ss).1 ≡ exit_success) ↔ All (λ s. step_error fails s ≡ none) ss)
        × ((left : List Step) × ((run_steps fails ss).0 ++ left ≡ ss))
        × ((run_steps fails ss).1 ≡ exit_success → (run_steps fails ss).0 ≡ ss)
  unfolding run_steps
  run_steps-All [] = (((λ h. tt), (λ h. refl)), ([], refl), (λ h. refl))
  run_steps-All (s ∷ ss) =
      let (iff, (left, is_prefix), whole) = run_steps-All ss in
      elim (Option-cases (step_error fails s)) [
        | inr (e, failed) ↦ rw (after_failure s ss e failed) (
          ((λ h. absurd (failure≢success h)), (λ h. absurd (none-ne-some e (sym h.0 ∙ failed)))),
          (ss, refl),
          (λ h. absurd (failure≢success h)),
        )
        | inl done ↦ rw (after_success s ss done) (
          ((λ h. (done, iff.0 h)), (λ h. iff.1 h.1)),
          (left, ap (λ l. s ∷ l) is_prefix),
          (λ h. ap (λ l. s ∷ l) (whole h)),
        )
      ]

  -- The program ends without a failure exactly if no step fails, the check of the targets among
  -- them; it has then tried all steps in their order, and in every case those tried are the first
  -- ones.
  pub run_main-exit :
      (f : Flags)
      → (((run_main fails f).1 ≡ exit_success) ↔ All (λ s. step_error fails s ≡ none) (steps f))
        × ((left : List Step) × ((run_main fails f).0 ++ left ≡ steps f))
        × ((run_main fails f).1 ≡ exit_success → (run_main fails f).0 ≡ steps f)
  unfolding run_main
  run_main-exit f = run_steps-All (steps f)

-- A second call of `InitDefaults` changes nothing, whatever it is given; and after a first call on
-- defaults that are not set both backends have theirs.
pub set_defaults-once :
    {L M : Type 0} (l l' : L) (m m' : M) (d : Defaults L M)
    → (set_defaults l' m' (set_defaults l m d) ≡ set_defaults l m d)
      × (d.once ≡ false
          → (set_defaults l m d).loki_defaults ≡ some l
            × ((set_defaults l m d).mimir_defaults ≡ some m))
unfolding set_defaults
set_defaults-once l l' m m' d = elim (Bool-cases d.once) [
  | inl done ↦ (rw done refl, λ h. absurd (false≢true (sym h ∙ done)))
  | inr first ↦ (rw first refl, λ h. rw first (refl, refl))
]
