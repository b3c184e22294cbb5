-- ===== src/Reconciler/Notices.antt =====
-- `updateStatuses` of the reconcilers: when its parts return.
use runtime_overrides_operat.Prelude.{
  Str, Option, none, some, List, [], ◌∷◌, refl, Dict, Bool-cases, inl, inr, false, ◌||◌,
}
use runtime_overrides_operat.Api.{TenantOverride, TenantOverrideStatus, Condition}
use runtime_overrides_operat.Overrides.{Override, CrRef}
use runtime_overrides_operat.Conflict.{FieldConflict}
use runtime_overrides_operat.Status.{upsert_condition}
use runtime_overrides_operat.Platform.{Platform}
use runtime_overrides_operat.Proc.{call}
use runtime_overrides_operat.Proc.Emits.{
  Emits, Emits-then, when-Emits, Returns, Returns-bind, Returns-then,
}
use runtime_overrides_operat.Apply.{ApplyResult}
use runtime_overrides_operat.Reconciler.Gather.{Reconciler, Envelope}
use runtime_overrides_operat.Reconciler.Desired.{lookup_cr, compute_desired_status}
use runtime_overrides_operat.Reconciler.Statuses.{
  notify_loser, notify_losers, notify_conflicts, notify_tenants, upsert_all, write_status,
  write_statuses, update_statuses, needs_update,
}

module _ (w : Platform) (r : Reconciler) where
  open w use {Cluster, get_config_map, list_overrides, update_status}

  notify_loser-Emits :
      (tenant : Str) (fc : FieldConflict) (cr : Option TenantOverride)
      → Emits (notify_loser w r tenant fc cr) tt
  notify_loser-Emits tenant fc none = λ s. (refl, refl, refl)
  notify_loser-Emits tenant fc (some cr) = when-Emits r.recorder _ (λ s. (refl, refl, refl))

  notify_losers-Emits :
      (es : List Envelope) (tenant : Str) (fc : FieldConflict) (losers : List CrRef)
      → Emits (notify_losers w r es tenant fc losers) tt
  unfolding notify_losers
  notify_losers-Emits es tenant fc [] = λ s. (refl, refl, refl)
  notify_losers-Emits es tenant fc (loser ∷ losers) =
      Emits-then _ _ tt tt (notify_loser-Emits tenant fc (lookup_cr es loser.namespace loser.name))
        (notify_losers-Emits es tenant fc losers)

  notify_conflicts-Emits :
      (es : List Envelope) (tenant : Str) (fcs : List FieldConflict)
      → Emits (notify_conflicts w r es tenant fcs) tt
  unfolding notify_conflicts
  notify_conflicts-Emits es tenant [] = λ s. (refl, refl, refl)
  notify_conflicts-Emits es tenant (fc ∷ fcs) =
      Emits-then _ _ tt tt (when-Emits fc.same_weight _ (λ s. (refl, refl, refl))) (
        Emits-then _ _ tt tt (notify_losers-Emits es tenant fc fc.losers)
          (notify_conflicts-Emits es tenant fcs))

  pub notify_tenants-Emits :
      (es : List Envelope) (conflicts : Dict (List FieldConflict))
      → Emits (notify_tenants w r es conflicts) tt
  unfolding notify_tenants
  notify_tenants-Emits es [] = λ s. (refl, refl, refl)
  notify_tenants-Emits es ((tenant, fcs) ∷ conflicts) =
      Emits-then _ _ tt tt (notify_conflicts-Emits es tenant fcs)
        (notify_tenants-Emits es conflicts)

  pub upsert_all-Returns : (conditions cs : List Condition) → Returns (upsert_all w conditions cs)
  unfolding upsert_all
  upsert_all-Returns conditions [] = λ s. (conditions, refl)
  upsert_all-Returns conditions (c ∷ cs) =
      Returns-bind (call w.now) _ (λ s. ((w.now s.cluster).0, refl))
        (λ time. upsert_all-Returns (upsert_condition time conditions c) cs)

  write_status-Returns :
      (cr : TenantOverride) (desired : TenantOverrideStatus) → Returns (write_status w r cr desired)
  unfolding write_status
  write_status-Returns cr desired = elim (Bool-cases (needs_update desired cr.status)) [
    | inr current ↦ rw current (λ s. (false, refl))
    | inl stale ↦ rw stale (
        Returns-bind (upsert_all w cr.status.conditions desired.conditions) _
          (upsert_all-Returns cr.status.conditions desired.conditions)
          (λ conditions.
            Returns-bind
              (call (
                update_status r.target
                  (record cr { status = record desired { conditions = conditions } })))
              _ (λ s. (_, refl)) (λ failed s. (_, refl))))
  ]

  write_statuses-Returns :
      (valid : List Override) (res : ApplyResult) (es : List Envelope)
      → Returns (write_statuses w r valid res es)
  unfolding write_statuses
  write_statuses-Returns valid res [] = λ s. (false, refl)
  write_statuses-Returns valid res (e ∷ es) =
      Returns-bind (write_status w r e.cr (compute_desired_status r e valid res)) _
        (write_status-Returns e.cr (compute_desired_status r e valid res))
        (λ hit.
          Returns-bind (write_statuses w r valid res es) _ (write_statuses-Returns valid res es)
            (λ rest s. (hit || rest, refl)))

  pub update_statuses-Returns :
      (es : List Envelope) (valid : List Override) (conflicts : Dict (List FieldConflict))
      (res : ApplyResult)
      → Returns (update_statuses w r es valid conflicts res)
  unfolding update_statuses
  update_statuses-Returns es valid conflicts res =
      Returns-then (notify_tenants w r es conflicts) (write_statuses w r valid res es)
        (λ s. (tt, (notify_tenants-Emits es conflicts s).0)) (write_statuses-Returns valid res es)
