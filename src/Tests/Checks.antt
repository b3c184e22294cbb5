-- ===== src/Tests/Checks.antt =====
-- Concrete configurations, validators and admissions (internal/config, validate and webhook).
use runtime_overrides_operat.Prelude.{
  Str, bytes, [], none, some, ◌≡◌, ◌≢◌, ◌↔◌, true, false, ◌&&◌, ◌||◌,
}
use runtime_overrides_operat.Value.{get}
use runtime_overrides_operat.Platform.{loki, ok}
use runtime_overrides_operat.Config.{Targets, validate_targets}
use runtime_overrides_operat.Config.Laws.{validate_targets_iff, is_named}
use runtime_overrides_operat.Validate.{
  Upstream, struct, go_field, no_fields, other_kind, validate_loki, check_body,
}
use runtime_overrides_operat.Validate.Laws.{validate_loki_iff}
use runtime_overrides_operat.Validate.Known.{HasKey}
use runtime_overrides_operat.Webhook.{validate_create, validate_update, override, unexpected}
use runtime_overrides_operat.Webhook.Agreement.{validate_create-agrees}
use runtime_overrides_operat.Reconciler.Gather.{envelope_of}
use runtime_overrides_operat.Tests.Documents.{base}
use runtime_overrides_operat.Tests.Cluster.{small, cr, output_name, reconciler_with}

abbrev only_loki : Targets
only_loki = record {
  loki = record { enabled = true; output_cm = output_name };
  mimir = record { enabled = false; output_cm = record { namespace = []; name = [] } };
}

validate_targets_iff_example : (validate_targets only_loki ≡ none) ↔ (
    ((only_loki.loki.enabled || only_loki.mimir.enabled)
      && is_named only_loki.loki
      && is_named only_loki.mimir)
    ≡ true)
validate_targets_iff_example = validate_targets_iff only_loki

abbrev upstream : Upstream
upstream = record {
  Limits = Str;
  marshal = λ v. ok (bytes "body");
  decode = λ body. ok body;
  check = λ limits. none;
  limits_type = struct (go_field (bytes "Limits") true (bytes "limits") [] other_kind no_fields);
}

validate_loki_iff_example : (validate_loki upstream base ≡ none) ↔ (
    ((k : Str) → get k base ≢ none → HasKey k upstream.limits_type)
    × (check_body upstream (bytes "loki") base ≡ none))
validate_loki_iff_example = validate_loki_iff upstream base

validate_create-agrees_example :
    ((validate_create small loki (some (reconciler_with none).validate) (override loki cr) ≡ none)
      ↔ ((envelope_of small (reconciler_with none) cr).valid_err ≡ none))
    × ((validate_update small loki
            (some (reconciler_with none).validate)
            (unexpected [])
            (override loki cr)
          ≡ none)
        ↔ ((envelope_of small (reconciler_with none) cr).valid_err ≡ none))
validate_create-agrees_example =
    validate_create-agrees small (reconciler_with none) loki (unexpected []) cr
