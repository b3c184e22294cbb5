-- ===== src/Api.antt =====
-- api/v1alpha1: the custom resources. `LokiTenantOverride` and `MimirTenantOverride` are the same
-- structs under two names, here one record. Of the object metadata the program reads namespace,
-- name and generation. An instant is counted in nanoseconds from Go's zero time.
use runtime_overrides_operat.Prelude.{Str, bytes, ℕ, ℤ, Option, List, pos}

pub record ContributingPeer : Type 0 where
  pub namespace : Str
  pub name : Str
  pub weight : ℤ

abbrev pub condition_validated : Str
condition_validated = bytes "Validated"

abbrev pub condition_applied : Str
condition_applied = bytes "Applied"

abbrev pub reason_validation_succeeded : Str
reason_validation_succeeded = bytes "ValidationSucceeded"

abbrev pub reason_validation_failed : Str
reason_validation_failed = bytes "ValidationFailed"

abbrev pub reason_written_to_config_map : Str
reason_written_to_config_map = bytes "WrittenToConfigMap"

abbrev pub reason_target_disabled : Str
reason_target_disabled = bytes "TargetDisabled"

abbrev pub condition_true : Str
condition_true = bytes "True"

abbrev pub condition_false : Str
condition_false = bytes "False"

-- `metav1.Condition`; the constructors of the program leave the last two fields at zero.
pub record Condition : Type 0 where
  pub type : Str
  pub status : Str
  pub reason : Str
  pub message : Str
  pub observed_generation : ℤ
  pub last_transition_time : ℕ

abbrev pub condition : Str → Str → Str → Str → Condition
condition type status reason message = record {
  type = type;
  status = status;
  reason = reason;
  message = message;
  observed_generation = pos 0;
  last_transition_time = 0;
}

-- The overrides are raw JSON, `none` the nil pointer.
pub record TenantOverrideSpec : Type 0 where
  pub tenant_id : Str
  pub weight : ℤ
  pub overrides : Option Str

pub record TenantOverrideStatus : Type 0 where
  pub observed_generation : ℤ
  pub effective_tenant_id : Str
  pub conditions : List Condition
  pub contributing_peers : List ContributingPeer

pub record TenantOverride : Type 0 where
  pub namespace : Str
  pub name : Str
  pub generation : ℤ
  pub spec : TenantOverrideSpec
  pub status : TenantOverrideStatus

pub record NamespacedName : Type 0 where
  pub namespace : Str
  pub name : Str

-- The structs of the Mimir kind have the fields of those of the Loki kind.
abbrev pub MimirTenantOverrideSpec : Type 0
MimirTenantOverrideSpec = TenantOverrideSpec

abbrev pub MimirTenantOverrideStatus : Type 0
MimirTenantOverrideStatus = TenantOverrideStatus

abbrev pub MimirTenantOverride : Type 0
MimirTenantOverride = TenantOverride
