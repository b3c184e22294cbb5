-- ===== src/Config/Laws.antt =====
-- Which configurations internal/config/config.go accepts, and what cmd/main.go makes of one.
use runtime_overrides_operat.Prelude.{
  str_eq, Bool, true, false, not, ◌&&◌, ◌||◌, none, some, [], ◌∷◌, ◌≡◌, ◌↔◌, refl, ◌∙◌, arith, Str,
  keep, lookup, insert, lookup-insert, if◌then◌else◌, Bool-cases, inl, inr,
}
use runtime_overrides_operat.Platform.{Target, loki, mimir}
use runtime_overrides_operat.Config.{
  TargetConfig, Targets, validate_target, validate_targets, Registration, reconciler,
  disabled_reconciler, webhook, bootstrap, registrations, cache_namespaces,
}

-- A target that is switched on has a full name of its output ConfigMap.
abbrev pub is_named : TargetConfig → Bool
is_named tc =
    not tc.enabled || (not (str_eq tc.output_cm.name []) && not (str_eq tc.output_cm.namespace []))

-- A configuration is accepted exactly if some target is switched on and each target that is
-- switched on has a name and a namespace for its output ConfigMap.
pub validate_targets_iff :
    (t : Targets)
    → (validate_targets t ≡ none)
      ↔ (((t.loki.enabled || t.mimir.enabled) && is_named t.loki && is_named t.mimir) ≡ true)
unfolding validate_targets validate_target
validate_targets_iff t = ground arith

abbrev pub target_of : Target → Targets → TargetConfig
target_of loki t = t.loki
target_of mimir t = t.mimir

abbrev same_target : Target → Target → Bool
same_target loki loki = true
same_target mimir mimir = true
same_target a b = false

-- The registrations that concern one target, but for the bootstrap.
abbrev pub concerns : Target → Registration → Bool
concerns k (reconciler j cm) = same_target k j
concerns k (disabled_reconciler j) = same_target k j
concerns k (webhook j) = same_target k j
concerns k (bootstrap ts) = false

-- For each target `main` registers, apart from the bootstrap, these: if it is switched on, its
-- reconciler on its output ConfigMap, and its webhook where webhooks are switched on; and if it is
-- switched off, the reconciler that says so, and no webhook.
pub registrations-target :
    (t : Targets) (enable_webhook : Bool) (k : Target)
    → keep (concerns k) (registrations t enable_webhook) ≡ (
        if (target_of k t).enabled
        then reconciler k (target_of k t).output_cm
          ∷ (if enable_webhook then webhook k ∷ [] else [])
        else disabled_reconciler k ∷ [])
unfolding registrations
registrations-target t enable_webhook loki = ground arith
registrations-target t enable_webhook mimir = ground arith

watched :
    (watched_namespace namespace : Str)
    → lookup namespace (insert watched_namespace (tt {0}) [])
      ≡ (if str_eq watched_namespace namespace then some tt else none)
unfolding lookup
watched watched_namespace namespace = lookup-insert watched_namespace namespace tt []

-- The cache watches the ConfigMaps of a namespace exactly if it is that of the output ConfigMap of
-- a target that is switched on.
pub lookup-cache_namespaces :
    (t : Targets) (namespace : Str)
    → lookup namespace (cache_namespaces t) ≡ (
        if (t.loki.enabled && str_eq t.loki.output_cm.namespace namespace)
          || (t.mimir.enabled && str_eq t.mimir.output_cm.namespace namespace)
        then some tt
        else none)
unfolding cache_namespaces lookup
lookup-cache_namespaces t namespace = elim (Bool-cases t.loki.enabled) [
  | inl on ↦ elim (Bool-cases t.mimir.enabled) [
    | inl both ↦
        rw (on, both)
          (lookup-insert t.mimir.output_cm.namespace namespace tt
              (insert t.loki.output_cm.namespace tt [])
            ∙ rw (watched (t.loki.output_cm.namespace) namespace) (ground arith))
    | inr alone ↦ rw (on, alone) (watched t.loki.output_cm.namespace namespace ∙ ground arith)
  ]
  | inr off ↦ elim (Bool-cases t.mimir.enabled) [
    | inl alone ↦ rw (off, alone) (watched t.mimir.output_cm.namespace namespace)
    | inr neither ↦ rw (off, neither) refl
  ]
]
