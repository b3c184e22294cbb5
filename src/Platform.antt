-- ===== src/Platform.antt =====
-- What the program uses and does not implement: the Kubernetes API behind the controller-runtime
-- client, the clock, gopkg.in/yaml.v3, encoding/json and SHA-256. Each is an operation of a record
-- that the models take as a parameter. An API call returns the cluster that it leaves, so that
-- other writers may act between any two calls.
use runtime_overrides_operat.Prelude.{Str, bytes, ℕ, Option, List, ◌++◌, Bool}
use runtime_overrides_operat.Value.{Value, Fields}
use runtime_overrides_operat.Api.{TenantOverride, NamespacedName}
use runtime_overrides_operat.Drift.{ConfigMap}

-- What `apierrors.IsNotFound` and `apierrors.IsConflict` tell of an error, also of a wrapped one.
pub data ErrorKind : Type 0 where
  not_found conflict other : ErrorKind

pub record Error : Type 0 where
  pub kind : ErrorKind
  pub message : Str

-- `fmt.Errorf("...: %w", err)`.
abbrev pub wrap : Str → Error → Error
wrap prefix e = record { kind = e.kind; message = prefix ++ bytes ": " ++ e.message }

abbrev pub new_error : Str → Error
new_error message = record { kind = other; message = message }

pub data Result {ℓ} (A : Type ℓ) : Type ℓ where
  ok : A → Result A
  err : Error → Result A

pub data Target : Type 0 where
  loki mimir : Target

abbrev pub target_label : Target → Str
target_label loki = bytes "loki"
target_label mimir = bytes "mimir"

-- `json_unmarshal` decodes into a `map[string]any`; `none` is the nil map, that `null` leaves.
-- `encode` is the encoder's buffer after `Encode`, `close_encoder` after `Close`.
pub record Platform : Type 1 where
  pub Cluster : Type 0
  pub get_config_map : NamespacedName → Cluster → Result ConfigMap × Cluster
  pub get_override : Target → NamespacedName → Cluster → Result TenantOverride × Cluster
  pub list_overrides : Target → Cluster → Result (List TenantOverride) × Cluster
  pub patch_config_map : ConfigMap → Str → Bool → Cluster → Option Error × Cluster
  pub update_status : Target → TenantOverride → Cluster → Option Error × Cluster
  pub now : Cluster → ℕ × Cluster
  pub encode : Value → Result Str
  pub close_encoder : Str → Result Str
  pub sha256_hex : Str → Str
  pub json_unmarshal : Str → Result (Option Fields)
