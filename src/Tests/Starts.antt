-- ===== src/Tests/Starts.antt =====
-- A start of the program, the events of the API and the webhook server (cmd/main.go,
-- internal/controller and internal/webhook).
use runtime_overrides_operat.Prelude.{
  Option, List, ◌++◌, bytes, Bool, true, false, not, none, some, [], ◌∷◌, ◌≡◌, refl, pos,
  if◌then◌else◌, str_eq, eqb_ℤ, eqb_ℤ_iff, ◌&&◌,
}
use runtime_overrides_operat.Platform.{Error, loki, mimir}
use runtime_overrides_operat.Watches.{
  ObjectEvent, override_kind, enqueued, setup_with_manager, setup_disabled_with_manager,
  reconcile_key, same_kind,
}
use runtime_overrides_operat.Watches.Laws.{concerns, enqueued_iff, enqueued_status_write}
use runtime_overrides_operat.Config.{registrations, validate_targets, reconciler}
use runtime_overrides_operat.Startup.{
  default_flags, Step, new_manager, check_targets, init_defaults, register, steps, run_steps,
  run_main, manager_options, targets_of, no_defaults, defaults_after,
}
use runtime_overrides_operat.Startup.Ready.{AreSet, run_main-AreSet}
use runtime_overrides_operat.Tests.Cluster.{output_name, reconciler_with}

-- A write of the status of a CR.
abbrev status_write : ObjectEvent
status_write = record {
  kind = override_kind loki;
  object = record { namespace = bytes "ns"; name = bytes "a" };
  old_generation = some (pos 2);
  generation = pos 2;
}

abbrev differs : ObjectEvent → Bool
differs e = elim e.old_generation [ none ↦ true | some g ↦ not (eqb_ℤ g e.generation) ]

differs_rejects : (e : ObjectEvent) → e.old_generation ≡ some e.generation → differs e ≡ false
differs_rejects e kept = rw (kept, (eqb_ℤ_iff e.generation e.generation).1 refl) refl

enqueued_status_write_example :
    (enqueued (setup_with_manager differs (reconciler_with none)).1.watches status_write ≡ [])
    × (enqueued (setup_disabled_with_manager differs mimir).watches status_write ≡ [])
enqueued_status_write_example =
    enqueued_status_write differs (reconciler_with none) mimir status_write differs_rejects loki
      refl refl

enqueued_iff_example :
    (enqueued (setup_with_manager differs (reconciler_with none)).1.watches status_write ≡ (
      if concerns loki
        (differs status_write)
        (str_eq status_write.object.namespace output_name.namespace
          && str_eq status_write.object.name output_name.name)
        status_write.kind
      then reconcile_key loki ∷ []
      else []))
    × (enqueued (setup_disabled_with_manager differs mimir).watches status_write ≡ (
        if same_kind (override_kind mimir) status_write.kind && differs status_write
        then status_write.object ∷ []
        else []))
enqueued_iff_example = enqueued_iff differs (reconciler_with none) mimir status_write

-- No step fails.
abbrev all_well : Step → Option Error
all_well s = none

abbrev tried : List Step
tried = (run_main all_well default_flags).0

abbrev after_four : List Step → List Step
after_four (a ∷ b ∷ c ∷ d ∷ ss) = ss
after_four ss = []

abbrev first_three : List Step
first_three =
    new_manager (manager_options default_flags)
    ∷ check_targets (targets_of default_flags)
    ∷ init_defaults
    ∷ []

abbrev fourth : Step
fourth = register (reconciler loki (targets_of default_flags).loki.output_cm)

tried_split : tried ≡ first_three ++ fourth ∷ after_four tried
unfolding run_main run_steps steps default_flags targets_of registrations validate_targets str_eq
tried_split = refl

run_main-AreSet_example :
    (validate_targets (targets_of default_flags) ≡ none)
    × AreSet
        (bytes "loki flags")
        (bytes "mimir flags")
        (defaults_after (bytes "loki flags") (bytes "mimir flags") first_three no_defaults)
run_main-AreSet_example =
    run_main-AreSet (bytes "loki flags") (bytes "mimir flags") all_well default_flags first_three
      fourth (after_four tried) tried_split tt
