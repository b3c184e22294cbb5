-- ===== src/Reconciler/Quiet.antt =====
-- What follows the write in `Reconcile` of the reconcilers, and the output ConfigMap.
use runtime_overrides_operat.Prelude.{
  Str, Bool, true, false, Option, none, some, List, [], ◌∷◌, ◌≡◌, ◌∙◌, Dict, Bool-cases, inl, inr,
}
use runtime_overrides_operat.Api.{NamespacedName, TenantOverride, TenantOverrideStatus, Condition}
use runtime_overrides_operat.Overrides.{Override, CrRef}
use runtime_overrides_operat.Conflict.{FieldConflict}
use runtime_overrides_operat.Status.{upsert_condition}
use runtime_overrides_operat.Platform.{Platform, Target, Result}
use runtime_overrides_operat.Proc.{Proc, call, emit, when, Effect, count, ◌>>◌}
use runtime_overrides_operat.Proc.Laws.{Keeps, Keeps-bind, Keeps-then}
use runtime_overrides_operat.Metrics.{field_conflicts_total}
use runtime_overrides_operat.Apply.{ApplyResult}
use runtime_overrides_operat.Drift.{ConfigMap, HashCache}
use runtime_overrides_operat.Reconciler.Gather.{Reconciler, Envelope, label}
use runtime_overrides_operat.Reconciler.Desired.{compute_desired_status, lookup_cr}
use runtime_overrides_operat.Reconciler.Statuses.{
  notify_loser, notify_losers, notify_conflicts, notify_tenants, upsert_all, write_status,
  write_statuses, update_statuses, needs_update, dotted,
}

module _ (w : Platform) where
  open w use {Cluster, get_config_map, update_status, now}

  -- A call does not change what a get of a ConfigMap finds.
  abbrev pub LeavesConfigMaps : (Cluster → Cluster) → Type 0
  LeavesConfigMaps f =
      (name : NamespacedName) (c : Cluster)
      → (get_config_map name (f c)).0 ≡ (get_config_map name c).0

  -- Reading the clock and writing the status of a CR change no ConfigMap.
  abbrev pub IsQuiet : Type 0
  IsQuiet =
      LeavesConfigMaps (λ c. (now c).1)
      × ((t : Target) (cr : TenantOverride) → LeavesConfigMaps (λ c. (update_status t cr c).1))

  -- Something that reading the clock and writing the status of a CR keep.
  abbrev pub IsStable : (Cluster → Option HashCache → Type 0) → Type 0
  IsStable P =
      ((c : Cluster) (hashes : Option HashCache) → P c hashes → P (now c).1 hashes)
      × ((t : Target) (cr : TenantOverride) (c : Cluster) (hashes : Option HashCache)
          → P c hashes
          → P (update_status t cr c).1 hashes)

  -- What a get of a ConfigMap finds.
  abbrev pub Finds : NamespacedName → Result ConfigMap → Cluster → Option HashCache → Type 0
  Finds name answer c hashes = (get_config_map name c).0 ≡ answer

  pub Finds-IsStable :
      (name : NamespacedName) (answer : Result ConfigMap) → IsQuiet → IsStable (Finds name answer)
  Finds-IsStable name answer quiet =
      ((λ c hashes h. quiet.0 name c ∙ h), (λ t cr c hashes h. quiet.1 t cr name c ∙ h))

  module _ (P : Cluster → Option HashCache → Type 0) (stable : IsStable P) where
    when-Keeps : (b : Bool) (m : Proc Cluster Unit) → Keeps P m → Keeps P (when b m)
    when-Keeps true m h s held = h s held
    when-Keeps false m h s held = held

    emit-Keeps : (e : Effect) → Keeps P (emit e)
    emit-Keeps e s held = held

    notify_loser-Keeps :
        (r : Reconciler) (tenant : Str) (fc : FieldConflict) (cr : Option TenantOverride)
        → Keeps P (notify_loser w r tenant fc cr)
    notify_loser-Keeps r tenant fc none s held = held
    notify_loser-Keeps r tenant fc (some cr) s held = elim (Bool-cases r.recorder) [
      | inl on ↦ rw on held
      | inr off ↦ rw off held
    ]

    notify_losers-Keeps :
        (r : Reconciler) (es : List Envelope) (tenant : Str) (fc : FieldConflict)
        (losers : List CrRef)
        → Keeps P (notify_losers w r es tenant fc losers)
    unfolding notify_losers
    notify_losers-Keeps r es tenant fc [] s held = held
    notify_losers-Keeps r es tenant fc (loser ∷ losers) s held =
        let found = lookup_cr es loser.namespace loser.name in
        Keeps-then P (notify_loser w r tenant fc found) (notify_losers w r es tenant fc losers)
          (notify_loser-Keeps r tenant fc found) (notify_losers-Keeps r es tenant fc losers) s held

    notify_conflicts-Keeps :
        (r : Reconciler) (es : List Envelope) (tenant : Str) (fcs : List FieldConflict)
        → Keeps P (notify_conflicts w r es tenant fcs)
    unfolding notify_conflicts
    notify_conflicts-Keeps r es tenant [] s held = held
    notify_conflicts-Keeps r es tenant (fc ∷ fcs) s held =
        Keeps-then P _
          (notify_losers w r es tenant fc fc.losers >> notify_conflicts w r es tenant fcs)
          (when-Keeps fc.same_weight
            (emit (count field_conflicts_total (label r ∷ tenant ∷ dotted fc.path ∷ [])))
            (emit-Keeps (count field_conflicts_total (label r ∷ tenant ∷ dotted fc.path ∷ []))))
          (Keeps-then P _ (notify_conflicts w r es tenant fcs)
            (notify_losers-Keeps r es tenant fc fc.losers) (notify_conflicts-Keeps r es tenant fcs))
          s held

    notify_tenants-Keeps :
        (r : Reconciler) (es : List Envelope) (conflicts : Dict (List FieldConflict))
        → Keeps P (notify_tenants w r es conflicts)
    unfolding notify_tenants
    notify_tenants-Keeps r es [] s held = held
    notify_tenants-Keeps r es ((tenant, fcs) ∷ conflicts) s held =
        Keeps-then P (notify_conflicts w r es tenant fcs) (notify_tenants w r es conflicts)
          (notify_conflicts-Keeps r es tenant fcs) (notify_tenants-Keeps r es conflicts) s held

    pub now-Keeps : Keeps P (call now)
    now-Keeps s held = stable.0 s.cluster s.hashes held

    upsert_all-Keeps : (conditions cs : List Condition) → Keeps P (upsert_all w conditions cs)
    unfolding upsert_all
    upsert_all-Keeps conditions [] s held = held
    upsert_all-Keeps conditions (c ∷ cs) s held =
        Keeps-bind P (call now) (λ time. upsert_all w (upsert_condition time conditions c) cs)
          now-Keeps (λ time. upsert_all-Keeps (upsert_condition time conditions c) cs) s held

    write_status-Keeps :
        (r : Reconciler) (cr : TenantOverride) (desired : TenantOverrideStatus)
        → Keeps P (write_status w r cr desired)
    unfolding write_status
    write_status-Keeps r cr desired s held = elim (Bool-cases (needs_update desired cr.status)) [
      | inr current ↦ rw current held
      | inl stale ↦ rw stale (
          Keeps-bind P (upsert_all w cr.status.conditions desired.conditions) _
            (upsert_all-Keeps cr.status.conditions desired.conditions)
            (λ conditions.
              Keeps-bind P
                (call (
                  update_status r.target
                    (record cr { status = record desired { conditions = conditions } })))
                _
                (λ s' held'.
                  stable.1 r.target
                    (record cr { status = record desired { conditions = conditions } }) s'.cluster
                    s'.hashes held')
                (λ failed s' held'. held'))
            s held)
    ]

    pub write_statuses-Keeps :
        (r : Reconciler) (valid : List Override) (res : ApplyResult) (es : List Envelope)
        → Keeps P (write_statuses w r valid res es)
    unfolding write_statuses
    write_statuses-Keeps r valid res [] s held = held
    write_statuses-Keeps r valid res (e ∷ es) s held =
        Keeps-bind P (write_status w r e.cr (compute_desired_status r e valid res)) _
          (write_status-Keeps r e.cr (compute_desired_status r e valid res))
          (λ hit.
            Keeps-bind P (write_statuses w r valid res es) _ (write_statuses-Keeps r valid res es)
              (λ rest s' held'. held'))
          s held

    pub update_statuses-Keeps :
        (r : Reconciler) (es : List Envelope) (valid : List Override)
        (conflicts : Dict (List FieldConflict)) (res : ApplyResult)
        → Keeps P (update_statuses w r es valid conflicts res)
    unfolding update_statuses
    update_statuses-Keeps r es valid conflicts res s held =
        Keeps-then P (notify_tenants w r es conflicts) (write_statuses w r valid res es)
          (notify_tenants-Keeps r es conflicts) (write_statuses-Keeps r valid res es) s held
