-- ===== src/Metrics.antt =====
-- internal/metrics/metrics.go: the names of the series and the values of their `result` label.
use runtime_overrides_operat.Prelude.{Str, bytes, List, [], ◌∷◌}

pub data ReconcileResult : Type 0 where
  success noop write_failed : ReconcileResult

abbrev pub result_label : ReconcileResult → Str
result_label success = bytes "success"
result_label noop = bytes "noop"
result_label write_failed = bytes "write_failed"

abbrev pub reconcile_total : Str
reconcile_total = bytes "runtime_overrides_reconcile_total"

abbrev pub active_tenants : Str
active_tenants = bytes "runtime_overrides_active_tenants"

abbrev pub active_crs : Str
active_crs = bytes "runtime_overrides_active_crs"

abbrev pub validation_errors_total : Str
validation_errors_total = bytes "runtime_overrides_validation_errors_total"

abbrev pub last_reconcile_timestamp : Str
last_reconcile_timestamp = bytes "runtime_overrides_last_reconcile_timestamp_seconds"

abbrev pub field_conflicts_total : Str
field_conflicts_total = bytes "runtime_overrides_field_conflicts_total"

abbrev pub output_size_bytes : Str
output_size_bytes = bytes "runtime_overrides_output_size_bytes"

abbrev pub output_drift_total : Str
output_drift_total = bytes "runtime_overrides_output_drift_total"

-- The metrics that are registered at the start.
abbrev pub registered : List Str
registered =
    reconcile_total ∷ active_tenants ∷ active_crs ∷ validation_errors_total ∷ field_conflicts_total
    ∷ output_size_bytes ∷ last_reconcile_timestamp ∷ output_drift_total ∷ []
