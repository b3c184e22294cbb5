-- ===== src/Runs.antt =====
-- Runs of the operator (internal/controller): reconciles of any reconcilers, bootstraps and restarts,
-- in any order, with anything that other writers and a lagging cache do to the cluster in between.
pub mod Laws
use runtime_overrides_operat.Prelude.{Str, some, [], ◌≡◌, ◌⊎◌, lookup}
use runtime_overrides_operat.Drift.{ConfigMap, new_hash_cache}
use runtime_overrides_operat.Platform.{Platform, ok}
use runtime_overrides_operat.Proc.{State, returns}
use runtime_overrides_operat.Render.{data_key, render}
use runtime_overrides_operat.Apply.{ApplyResult, apply_config_map}
use runtime_overrides_operat.Bootstrap.{BootstrapTarget, bootstrap_target}
use runtime_overrides_operat.Reconciler.Gather.{Reconciler, label}
use runtime_overrides_operat.Reconciler.Output.{or_empty_text}
use runtime_overrides_operat.Reconciler.Loop.{reconcile}
use runtime_overrides_operat.Reconciler.Remembered.{HasWritten}

-- A reconcile or a bootstrap may end in any way.
pub data Step (w : Platform) : State w.Cluster → State w.Cluster → Type 0 where
  pass : (r : Reconciler) (s : State w.Cluster) → Step w s (reconcile w r s).1
  boot : (t : BootstrapTarget) (s : State w.Cluster) → Step w s (bootstrap_target w t s).1
  others : (c : w.Cluster) (s : State w.Cluster) → Step w s (record s { cluster = c })
  restart : (s : State w.Cluster) → Step w s (record s { hashes = some new_hash_cache })

pub data Reach (w : Platform) (s : State w.Cluster) : State w.Cluster → Type 0 where
  here : Reach w s s
  next : {t u : State w.Cluster} → Reach w s t → Step w t u → Reach w s u

module _ (w : Platform) where
  open w use {Cluster, get_config_map, sha256_hex}

  -- A bootstrap from this state has found the body, or has created the ConfigMap with it.
  abbrev pub HasBooted : BootstrapTarget → State Cluster → Str → Type 0
  HasBooted t s body =
      ((live : ConfigMap) × ((get_config_map t.output_cm s.cluster).0 ≡ ok live)
        × (body ≡ or_empty_text (lookup data_key live.contents)))
      ⊎ ((res : ApplyResult) × (render w [] ≡ ok body)
          × ((apply_config_map w t.output_cm body
                (record s { cluster = (get_config_map t.output_cm s.cluster).1 })).0
              ≡ returns res))

  -- The step has written or found, as the output of the target, a body of this hash.
  abbrev pub StepKnows : {s t : State Cluster} → Step w s t → Str → Str → Type 0
  StepKnows (pass r s) target hash =
      (label r ≡ target) × ((body : Str) × HasWritten w r s body × (hash ≡ sha256_hex body))
  StepKnows (boot t s) target hash =
      (t.name ≡ target) × ((body : Str) × HasBooted t s body × (hash ≡ sha256_hex body))
  StepKnows (others c s) target hash = ⊥
  StepKnows (restart s) target hash = ⊥

  -- A step of the run has.
  abbrev pub Knows : {s t : State Cluster} → Reach w s t → Str → Str → Type 0
  Knows here target hash = ⊥
  Knows (next run step) target hash = Knows run target hash ⊎ StepKnows step target hash
