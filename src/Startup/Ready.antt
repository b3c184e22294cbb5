-- ===== src/Startup/Ready.antt =====
-- The defaults of the backends at the steps of a start that need them (cmd/main.go and
-- internal/validate/init.go).
use mathlib.Core.Option.{some-injective}
use runtime_overrides_operat.Prelude.{
  Option, none, some, List, [], ◌∷◌, ◌++◌, ◌≡◌, refl, sym, ap, ◌∙◌, subst, true, Any, inl, inr,
}
use runtime_overrides_operat.Platform.{Error}
use runtime_overrides_operat.Config.{validate_targets}
use runtime_overrides_operat.Startup.{
  Flags, Step, new_manager, check_targets, init_defaults, register, add_healthz_check,
  add_readyz_check, write_banner, start_manager, run_main, manager_options, targets_of, Defaults,
  set_defaults, no_defaults, step_defaults, defaults_after,
}
use runtime_overrides_operat.Startup.Laws.{NeedsDefaults, run_main-defaults_first}

abbrev first_step : List Step → Option Step
first_step [] = none
first_step (s ∷ ss) = some s

abbrev later_steps : List Step → List Step
later_steps [] = []
later_steps (s ∷ ss) = ss

needs_in :
    (before : List Step) (s : Step) (after : List Step)
    → NeedsDefaults s
    → Any NeedsDefaults (before ++ s ∷ after)
needs_in [] s after needs = inl needs
needs_in (b ∷ before) s after needs = inr (needs_in before s after needs)

module _ {L M : Type 0} (l : L) (m : M) where
  -- The defaults of both backends are there.
  abbrev pub AreSet : Defaults L M → Type 0
  AreSet d = (d.loki_defaults ≡ some l) × (d.mimir_defaults ≡ some m)

  step_defaults-AreSet :
      (s : Step) (d : Defaults L M)
      → d.once ≡ true
      → AreSet d
      → ((step_defaults l m s d).once ≡ true) × AreSet (step_defaults l m s d)
  unfolding step_defaults set_defaults
  step_defaults-AreSet init_defaults d once set = rw once (refl, set)
  step_defaults-AreSet (new_manager o) d once set = (once, set)
  step_defaults-AreSet (check_targets t) d once set = (once, set)
  step_defaults-AreSet (register r) d once set = (once, set)
  step_defaults-AreSet add_healthz_check d once set = (once, set)
  step_defaults-AreSet add_readyz_check d once set = (once, set)
  step_defaults-AreSet write_banner d once set = (once, set)
  step_defaults-AreSet start_manager d once set = (once, set)

  defaults_after-AreSet :
      (ss : List Step) (d : Defaults L M)
      → d.once ≡ true
      → AreSet d
      → AreSet (defaults_after l m ss d)
  unfolding defaults_after
  defaults_after-AreSet [] d once set = set
  defaults_after-AreSet (s ∷ ss) d once set =
      let (once', set') = step_defaults-AreSet s d once set in
      defaults_after-AreSet ss (step_defaults l m s d) once' set'

  ready :
      (a b : Step) (more before : List Step) (s : Step) (after : List Step)
      → ((d : Defaults L M) → step_defaults l m a d ≡ d)
      → ((d : Defaults L M) → step_defaults l m b d ≡ d)
      → (NeedsDefaults a → ⊥)
      → (NeedsDefaults b → ⊥)
      → NeedsDefaults s
      → a ∷ b ∷ init_defaults ∷ more ≡ before ++ s ∷ after
      → AreSet (defaults_after l m before no_defaults)
  unfolding defaults_after step_defaults set_defaults
  ready a b more [] s after keep_a keep_b not_a not_b needs e =
      absurd (not_a (subst NeedsDefaults (some-injective _ _ (sym (ap first_step e))) needs))
  ready a b more (x ∷ []) s after keep_a keep_b not_a not_b needs e = absurd (
      not_b (
        subst NeedsDefaults (some-injective _ _ (sym (ap (λ l. first_step (later_steps l)) e)))
          needs))
  ready a b more (x ∷ y ∷ []) s after keep_a keep_b not_a not_b needs e = absurd (
      subst NeedsDefaults
        (some-injective _ _ (sym (ap (λ l. first_step (later_steps (later_steps l))) e))) needs)
  ready a b more (x ∷ y ∷ z ∷ before) s after keep_a keep_b not_a not_b needs e =
      let is_a : a ≡ x = some-injective _ _ (ap first_step e) in
      let is_b : b ≡ y = some-injective _ _ (ap (λ l. first_step (later_steps l)) e) in
      let is_init : init_defaults ≡ z =
        some-injective _ _ (ap (λ l. first_step (later_steps (later_steps l))) e) in
      let three : step_defaults l m z (step_defaults l m y (step_defaults l m x no_defaults))
          ≡ set_defaults l m no_defaults =
        ap (λ p. step_defaults l m p (step_defaults l m y (step_defaults l m x no_defaults)))
          (sym is_init)
        ∙ ap (λ d. set_defaults l m d)
            (ap (λ p. step_defaults l m p (step_defaults l m x no_defaults)) (sym is_b)
              ∙ keep_b (step_defaults l m x no_defaults)
              ∙ ap (λ p. step_defaults l m p no_defaults) (sym is_a)
              ∙ keep_a no_defaults) in
      subst (λ d. AreSet (defaults_after l m before d)) (sym three)
        (defaults_after-AreSet before (set_defaults l m no_defaults) refl (refl, refl))

  -- Whatever steps fail, whenever a start tries to register a reconciler, a bootstrap or a webhook or
  -- to start the manager, the targets are valid, and the steps tried before it have left the flag
  -- defaults of both backends set.
  pub run_main-AreSet :
      (fails : Step → Option Error) (f : Flags) (before : List Step) (s : Step) (after : List Step)
      → (run_main fails f).0 ≡ before ++ s ∷ after
      → NeedsDefaults s
      → (validate_targets (targets_of f) ≡ none) × AreSet (defaults_after l m before no_defaults)
  unfolding step_defaults
  run_main-AreSet fails f before s after tried needs =
      let (valid, (more, runs)) =
        run_main-defaults_first fails f
          (subst (Any NeedsDefaults) (sym tried) (needs_in before s after needs)) in
      (
        valid,
        ready (new_manager (manager_options f)) (check_targets (targets_of f)) more before s after
            (λ d. refl) (λ d. refl) (λ h. h) (λ h. h) needs (sym runs ∙ tried),
      )
