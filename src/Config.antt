-- ===== src/Config.antt =====
-- internal/config/config.go, and the part of cmd/main.go that turns a valid configuration into
-- reconcilers, bootstrap targets and webhooks.
pub mod Laws
use runtime_overrides_operat.Prelude.{
  Str, bytes, str_eq, Bool, not, ◌&&◌, Option, none, some, List, [], ◌∷◌, ◌++◌, Dict, insert,
  if◌then◌else◌,
}
use runtime_overrides_operat.Api.{NamespacedName}
use runtime_overrides_operat.Platform.{Error, new_error, Target, target_label, loki, mimir}
use runtime_overrides_operat.Format.{concat}
use runtime_overrides_operat.Bootstrap.{BootstrapTarget}

pub record TargetConfig : Type 0 where
  pub enabled : Bool
  pub output_cm : NamespacedName

pub record Targets : Type 0 where
  pub loki : TargetConfig
  pub mimir : TargetConfig

unfoldable pub validate_target : TargetConfig → Str → Option Error
validate_target tc name =
    if str_eq tc.output_cm.name []
    then some
        (new_error (concat (name ∷ bytes ": output ConfigMap name is required when enabled" ∷ [])))
    else if str_eq tc.output_cm.namespace []
    then some (
        new_error
          (concat (name ∷ bytes ": output ConfigMap namespace is required when enabled" ∷ [])))
    else none

-- An error of the first check, else what follows.
abbrev pub or_else : Option Error → Option Error → Option Error
or_else (some e) next = some e
or_else none next = next

unfoldable pub validate_targets : Targets → Option Error
unfolding validate_target
validate_targets t =
    or_else (if t.loki.enabled then validate_target t.loki (bytes "loki") else none) (
      or_else (if t.mimir.enabled then validate_target t.mimir (bytes "mimir") else none) (
        if not t.loki.enabled && not t.mimir.enabled
        then some
            (new_error (bytes "at least one of --loki-enabled or --mimir-enabled must be true"))
        else none))

-- What `main` registers with the manager, in order.
pub data Registration : Type 0 where
  reconciler : Target → NamespacedName → Registration
  disabled_reconciler : Target → Registration
  bootstrap : List BootstrapTarget → Registration
  webhook : Target → Registration

abbrev register_target : Target → TargetConfig → Registration
register_target t tc = if tc.enabled then reconciler t tc.output_cm else disabled_reconciler t

abbrev bootstrap_of : Target → TargetConfig → List BootstrapTarget
bootstrap_of t tc =
    if tc.enabled then record { name = target_label t; output_cm = tc.output_cm } ∷ [] else []

abbrev register_bootstrap : List BootstrapTarget → List Registration
register_bootstrap [] = []
register_bootstrap (t ∷ ts) = bootstrap (t ∷ ts) ∷ []

abbrev register_webhook : Target → TargetConfig → List Registration
register_webhook t tc = if tc.enabled then webhook t ∷ [] else []

unfoldable pub registrations : Targets → Bool → List Registration
registrations t enable_webhook =
    register_target loki t.loki
    ∷ register_target mimir t.mimir
    ∷ (register_bootstrap (bootstrap_of loki t.loki ++ bootstrap_of mimir t.mimir)
        ++ (if enable_webhook
            then register_webhook loki t.loki ++ register_webhook mimir t.mimir
            else []))

-- The namespaces in which the cache watches ConfigMaps.
unfoldable pub cache_namespaces : Targets → Dict (Unit {0})
cache_namespaces t =
    let first : Dict (Unit {0}) =
      if t.loki.enabled then insert t.loki.output_cm.namespace tt [] else [] in
    if t.mimir.enabled then insert t.mimir.output_cm.namespace tt first else first
