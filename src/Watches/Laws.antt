-- ===== src/Watches/Laws.antt =====
-- The requests that the controllers of internal/controller get.
use runtime_overrides_operat.Prelude.{
  str_eq, Bool, true, false, ◌&&◌, some, List, [], ◌∷◌, ◌≡◌, refl, ◌∙◌, if◌then◌else◌,
}
use runtime_overrides_operat.Api.{NamespacedName}
use runtime_overrides_operat.Drift.{output_cm_predicate}
use runtime_overrides_operat.Platform.{Target, loki, mimir}
use runtime_overrides_operat.Reconciler.Gather.{Reconciler}
use runtime_overrides_operat.Watches.{
  ObjectKind, override_kind, config_map_kind, ObjectEvent, same_kind, enqueued, reconcile_key,
  setup_with_manager, setup_disabled_with_manager,
}

-- Whether an event concerns a reconciler: a CR of its kind that is new, gone or changed, or its
-- output ConfigMap.
abbrev pub concerns : Target → Bool → Bool → ObjectKind → Bool
concerns t changed is_output (override_kind u) =
    same_kind (override_kind t) (override_kind u) && changed
concerns t changed is_output config_map_kind = is_output

pass_watches :
    (t : Target) (kind : ObjectKind) (changed is_output : Bool) (key : NamespacedName)
    → let second = if same_kind config_map_kind kind && is_output then key ∷ [] else [] in
      (if same_kind (override_kind t) kind && changed then key ∷ second else second)
      ≡ (if concerns t changed is_output kind then key ∷ [] else [])
pass_watches loki (override_kind loki) true is_output key = refl
pass_watches loki (override_kind loki) false is_output key = refl
pass_watches loki (override_kind mimir) changed is_output key = refl
pass_watches mimir (override_kind loki) changed is_output key = refl
pass_watches mimir (override_kind mimir) true is_output key = refl
pass_watches mimir (override_kind mimir) false is_output key = refl
pass_watches loki config_map_kind changed is_output key = refl
pass_watches mimir config_map_kind changed is_output key = refl

never : (b : Bool) (l : List NamespacedName) → (if b && false then l else []) ≡ []
never true l = refl
never false l = refl

unconcerned :
    (t u : Target) (is_output : Bool) (l : List NamespacedName)
    → (if concerns t false is_output (override_kind u) then l else []) ≡ []
unconcerned t u is_output l = never (same_kind (override_kind t) (override_kind u)) l

module _ (generation_changed : ObjectEvent → Bool) where
  -- An event gives rise to a request of a reconciler exactly if it is an event of a CR of its kind
  -- that passes the predicate on generations, or of the ConfigMap with the namespace and the name
  -- of its output; the request is the one key
  -- of the target, whatever the object is. A disabled reconciler gets a request exactly for the
  -- events of CRs of its kind that pass the predicate, and the request is the CR.
  pub enqueued_iff :
      (r : Reconciler) (t : Target) (e : ObjectEvent)
      → (enqueued (setup_with_manager generation_changed r).1.watches e ≡ (
          if concerns r.target
            (generation_changed e)
            (str_eq e.object.namespace r.output_cm.namespace
              && str_eq e.object.name r.output_cm.name)
            e.kind
          then reconcile_key r.target ∷ []
          else []))
        × (enqueued (setup_disabled_with_manager generation_changed t).watches e ≡ (
            if same_kind (override_kind t) e.kind && generation_changed e
            then e.object ∷ []
            else []))
  unfolding setup_with_manager setup_disabled_with_manager enqueued output_cm_predicate
  enqueued_iff r t e = (
    pass_watches r.target e.kind (generation_changed e)
        (str_eq e.object.namespace r.output_cm.namespace && str_eq e.object.name r.output_cm.name)
        (reconcile_key r.target),
    refl,
  )

  -- A write of the status of a CR, which leaves the generation as it was, gives rise to no request
  -- of any reconciler. The predicate rejects an update that keeps the generation.
  pub enqueued_status_write :
      (r : Reconciler) (t : Target) (e : ObjectEvent)
      → ((u : ObjectEvent) → u.old_generation ≡ some u.generation → generation_changed u ≡ false)
      → (kind : Target) → e.kind ≡ override_kind kind
      → e.old_generation ≡ some e.generation
      → (enqueued (setup_with_manager generation_changed r).1.watches e ≡ [])
        × (enqueued (setup_disabled_with_manager generation_changed t).watches e ≡ [])
  enqueued_status_write r t e rejects kind is_kind kept =
      let both = enqueued_iff r t e in
      (
        both.0
            ∙ rw (rejects e kept, is_kind)
                (unconcerned r.target kind
                  (str_eq e.object.namespace r.output_cm.namespace
                    && str_eq e.object.name r.output_cm.name)
                  (reconcile_key r.target ∷ [])),
        both.1 ∙ rw (rejects e kept) (never (same_kind (override_kind t) e.kind) (e.object ∷ [])),
      )
