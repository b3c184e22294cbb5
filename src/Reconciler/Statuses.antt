-- ===== src/Reconciler/Statuses.antt =====
-- `updateStatuses`: the events for overruled CRs, and the status writes.
use runtime_overrides_operat.Prelude.{
  Str, bytes, str_eq, eqb_ℤ, Bool, false, not, ◌||◌, Option, none, some, List, [], ◌∷◌, Dict,
  print_int, if◌then◌else◌,
}
use runtime_overrides_operat.Api.{TenantOverride, TenantOverrideStatus, Condition, NamespacedName}
use runtime_overrides_operat.Overrides.{Override, CrRef}
use runtime_overrides_operat.Conflict.{FieldConflict}
use runtime_overrides_operat.Status.{upsert_condition, conditions_changed}
use runtime_overrides_operat.Peers.{peers_changed}
use runtime_overrides_operat.Platform.{Platform, Error}
use runtime_overrides_operat.Proc.{Proc, pure, call, emit, count, event, when, ◌>>=◌, ◌>>◌}
use runtime_overrides_operat.Metrics.{field_conflicts_total}
use runtime_overrides_operat.Format.{concat, quote}
use runtime_overrides_operat.Apply.{ApplyResult, is_conflict}
use runtime_overrides_operat.Reconciler.Gather.{Reconciler, Envelope, label}
use runtime_overrides_operat.Reconciler.Desired.{compute_desired_status, lookup_cr}

-- `strings.Join(path, ".")`.
unfoldable pub dotted : List Str → Str
dotted [] = []
dotted (s ∷ []) = s
dotted (s ∷ t ∷ ss) = concat (s ∷ bytes "." ∷ dotted (t ∷ ss) ∷ [])

abbrev pub event_normal : Str
event_normal = bytes "Normal"

abbrev pub event_warning : Str
event_warning = bytes "Warning"

abbrev pub object_name : TenantOverride → NamespacedName
object_name cr = record { namespace = cr.namespace; name = cr.name }

unfoldable pub overridden_message : Str → FieldConflict → Str
overridden_message tenant fc = concat (
    bytes "field "
    ∷ quote (dotted fc.path)
    ∷ bytes " overridden by "
    ∷ fc.winner.namespace
    ∷ bytes "/"
    ∷ fc.winner.name
    ∷ bytes " (weight="
    ∷ print_int fc.winner.weight
    ∷ bytes ") for tenant "
    ∷ quote tenant
    ∷ [])

-- Whether the status on the CR differs from the desired one.
unfoldable pub needs_update : TenantOverrideStatus → TenantOverrideStatus → Bool
needs_update desired current =
    not (eqb_ℤ desired.observed_generation current.observed_generation)
    || (not (str_eq desired.effective_tenant_id current.effective_tenant_id)
        || (conditions_changed current.conditions desired.conditions
            || peers_changed current.contributing_peers desired.contributing_peers))

module _ (w : Platform) where
  open w use {Cluster, update_status, now}

  abbrev pub notify_loser :
      Reconciler → Str → FieldConflict → Option TenantOverride → Proc Cluster Unit
  notify_loser r tenant fc none = pure tt
  notify_loser r tenant fc (some cr) = when r.recorder (
      emit (
        event (object_name cr) event_normal (bytes "FieldOverridden")
          (overridden_message tenant fc)))

  unfoldable pub notify_losers :
      Reconciler → List Envelope → Str → FieldConflict → List CrRef → Proc Cluster Unit
  notify_losers r es tenant fc [] = pure tt
  notify_losers r es tenant fc (loser ∷ losers) = do
    notify_loser r tenant fc (lookup_cr es loser.namespace loser.name)
    notify_losers r es tenant fc losers

  unfoldable pub notify_conflicts :
      Reconciler → List Envelope → Str → List FieldConflict → Proc Cluster Unit
  unfolding notify_losers
  notify_conflicts r es tenant [] = pure tt
  notify_conflicts r es tenant (fc ∷ fcs) = do
    when fc.same_weight
        (emit (count field_conflicts_total (label r ∷ tenant ∷ dotted fc.path ∷ [])))
    notify_losers r es tenant fc fc.losers
    notify_conflicts r es tenant fcs

  unfoldable pub notify_tenants :
      Reconciler → List Envelope → Dict (List FieldConflict) → Proc Cluster Unit
  unfolding notify_conflicts
  notify_tenants r es [] = pure tt
  notify_tenants r es ((tenant, fcs) ∷ all) = do
    notify_conflicts r es tenant fcs
    notify_tenants r es all

  -- Each condition is upserted at a reading of the clock, which counts only if it is replaced.
  unfoldable pub upsert_all : List Condition → List Condition → Proc Cluster (List Condition)
  upsert_all conditions [] = pure conditions
  upsert_all conditions (c ∷ cs) = do
    time ← call now
    upsert_all (upsert_condition time conditions c) cs

  abbrev pub hit_conflict : Option Error → Bool
  hit_conflict none = false
  hit_conflict (some e) = is_conflict e

  -- One round of the loop over the envelopes; the result tells of a 409.
  unfoldable pub write_status :
      Reconciler → TenantOverride → TenantOverrideStatus → Proc Cluster Bool
  unfolding upsert_all needs_update
  write_status r cr desired = if not (needs_update desired cr.status) then pure false else do
    conditions ← upsert_all cr.status.conditions desired.conditions
    failed ←
        call (
          update_status r.target
            (record cr { status = record desired { conditions = conditions } }))
    pure (hit_conflict failed)

  unfoldable pub write_statuses :
      Reconciler → List Override → ApplyResult → List Envelope → Proc Cluster Bool
  unfolding write_status compute_desired_status
  write_statuses r valid res [] = pure false
  write_statuses r valid res (e ∷ es) = do
    hit ← write_status r e.cr (compute_desired_status r e valid res)
    rest ← write_statuses r valid res es
    pure (hit || rest)

  unfoldable pub update_statuses :
      Reconciler
      → List Envelope
      → List Override
      → Dict (List FieldConflict)
      → ApplyResult
      → Proc Cluster Bool
  unfolding notify_tenants write_statuses
  update_statuses r es valid conflicts res = do
    notify_tenants r es conflicts
    write_statuses r valid res es
