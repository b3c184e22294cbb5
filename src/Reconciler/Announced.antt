-- ===== src/Reconciler/Announced.antt =====
-- `updateStatuses` of the reconcilers: the events and the counter of the field conflicts.
use runtime_overrides_operat.Prelude.{
  List, Option, Str, [], bytes, if◌then◌else◌, none, some, ◌++◌, ◌∷◌,
}
use runtime_overrides_operat.Api.{TenantOverride}
use runtime_overrides_operat.Overrides.{CrRef}
use runtime_overrides_operat.Conflict.{FieldConflict}
use runtime_overrides_operat.Platform.{Platform}
use runtime_overrides_operat.Proc.{Effect, Proc, count, event}
use runtime_overrides_operat.Metrics.{field_conflicts_total}
use runtime_overrides_operat.Reconciler.Gather.{Reconciler, Envelope, label}
use runtime_overrides_operat.Reconciler.Desired.{lookup_cr}
use runtime_overrides_operat.Reconciler.Statuses.{
  object_name, event_normal, overridden_message, dotted,
}
use runtime_overrides_operat.Proc.Records.{flat_map}

-- The event for an overruled CR that is among the listed ones, with a recorder.
abbrev pub overruled_event : Reconciler → Str → FieldConflict → Option TenantOverride → List Effect
overruled_event r tenant fc none = []
overruled_event r tenant fc (some cr) =
    if r.recorder
    then event (object_name cr) event_normal (bytes "FieldOverridden")
        (overridden_message tenant fc)
      ∷ []
    else []

-- What is owed to a conflict: the count of one between equal weights, then the events of its losers.
abbrev pub owed : Reconciler → List Envelope → Str → FieldConflict → List Effect
owed r es tenant fc =
    (if fc.same_weight
      then count field_conflicts_total (label r ∷ tenant ∷ dotted fc.path ∷ []) ∷ []
      else [])
    ++ flat_map
        (λ (loser : CrRef). overruled_event r tenant fc (lookup_cr es loser.namespace loser.name))
        fc.losers
