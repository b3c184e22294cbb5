-- ===== src/Tests/Drifts.antt =====
-- Concrete managed fields of an output ConfigMap (internal/controller/drift.go).
use runtime_overrides_operat.Prelude.{Str, bytes, [], ◌∷◌, none, some, ◌≢◌, ◌≤◌, length}
use runtime_overrides_operat.Drift.{ConfigMap, extract_conflicting_field_manager}
use runtime_overrides_operat.Drift.Laws.{extract_conflicting_field_manager-IsLabel}

abbrev ours : Str
ours = bytes "operator"

abbrev edited : ConfigMap
edited = record {
  namespace = bytes "ns";
  name = bytes "overrides";
  labels = [];
  contents = [];
  generation = 3;
  managed_fields =
      record { manager = ours; time = some 7 }
      ∷ record { manager = bytes "kubectl"; time = some 5 }
      ∷ record { manager = bytes "argo"; time = none }
      ∷ [];
}

extract_conflicting_field_manager-IsLabel_example :
    (extract_conflicting_field_manager (some edited) ours ≢ [])
    × (length (extract_conflicting_field_manager (some edited) ours) ≤ 64)
extract_conflicting_field_manager-IsLabel_example =
    extract_conflicting_field_manager-IsLabel (some edited) ours
