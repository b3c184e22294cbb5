-- ===== src/Webhook.antt =====
-- internal/webhook: the admission checks of the two kinds, which are one program under two sets of
-- names, and the response header.
pub mod Agreement
pub mod Routes
use runtime_overrides_operat.Prelude.{Str, bytes, Option, none, some, [], ◌∷◌, Dict, insert}
use runtime_overrides_operat.Value.{Fields, end}
use runtime_overrides_operat.Api.{TenantOverride}
use runtime_overrides_operat.Platform.{
  Platform, Error, Result, ok, err, wrap, new_error, Target, loki, mimir,
}
use runtime_overrides_operat.Format.{concat}

-- An object of the request: a CR of a kind, or an object of another type with its Go type's name.
pub data RuntimeObject : Type 0 where
  override : Target → TenantOverride → RuntimeObject
  unexpected : Str → RuntimeObject

abbrev pub kind_name : Target → Str
kind_name loki = bytes "LokiTenantOverride"
kind_name mimir = bytes "MimirTenantOverride"

abbrev pub go_type_name : RuntimeObject → Str
go_type_name (override loki cr) = bytes "*v1alpha1.LokiTenantOverride"
go_type_name (override mimir cr) = bytes "*v1alpha1.MimirTenantOverride"
go_type_name (unexpected t) = t

-- The type assertion.
abbrev pub as_kind : Target → RuntimeObject → Option TenantOverride
as_kind loki (override loki cr) = some cr
as_kind mimir (override mimir cr) = some cr
as_kind t obj = none

abbrev pub expected_error : Target → Str → RuntimeObject → Error
expected_error t what obj =
    new_error (
      concat (bytes "expected a " ∷ kind_name t ∷ what ∷ bytes " but got " ∷ go_type_name obj ∷ []))

abbrev pub source_url : Str
source_url = bytes "https://github.com/tjorri/runtime-overrides-operator"

abbrev pub source_code_header : Str
source_code_header = bytes "Source-Code"

-- The header is set before the inner handler runs, which gets the headers so far.
abbrev pub with_source_code_header {ℓ} : {A : Type ℓ} → (Dict Str → A) → Dict Str → A
with_source_code_header next headers = next (insert source_code_header source_url headers)

module _ (w : Platform) where
  open w use {json_unmarshal}

  unfoldable pub decode_overrides : Option Str → Result Fields
  decode_overrides none = ok end
  decode_overrides (some []) = ok end
  decode_overrides (some (c ∷ raw)) = elim (json_unmarshal (c ∷ raw)) [
    | err e ↦ err e
    | ok none ↦ ok end
    | ok (some out) ↦ ok out
  ]

  -- `none` is the nil validator.
  unfoldable pub validate_spec : Option (Fields → Option Error) → TenantOverride → Option Error
  unfolding decode_overrides
  validate_spec none cr = some (new_error (bytes "internal: validator not initialized"))
  validate_spec (some validate) cr = elim (decode_overrides cr.spec.overrides) [
    | err e ↦ some (wrap (bytes "decode spec.overrides") e)
    | ok raw ↦ validate raw
  ]

  -- The results are the error; there are never warnings.
  unfoldable pub validate_create :
      Target → Option (Fields → Option Error) → RuntimeObject → Option Error
  unfolding validate_spec
  validate_create t v obj = elim (as_kind t obj) [
    | none ↦ some (expected_error t (bytes " object") obj)
    | some cr ↦ validate_spec v cr
  ]

  unfoldable pub validate_update :
      Target → Option (Fields → Option Error) → RuntimeObject → RuntimeObject → Option Error
  unfolding validate_spec
  validate_update t v old_obj new_obj = elim (as_kind t new_obj) [
    | none ↦ some (expected_error t (bytes " object for the newObj") new_obj)
    | some cr ↦ validate_spec v cr
  ]

unfoldable pub validate_delete : RuntimeObject → Option Error
validate_delete obj = none

-- The Mimir kind's methods, in mimirtenantoverride_webhook.go, are those of the Loki kind.
module _ (w : Platform) (validate : Option (Fields → Option Error)) where
  unfoldable pub validate_mimir_spec : TenantOverride → Option Error
  validate_mimir_spec = validate_spec w validate

  unfoldable pub validate_mimir_create : RuntimeObject → Option Error
  validate_mimir_create = validate_create w mimir validate

  unfoldable pub validate_mimir_update : RuntimeObject → RuntimeObject → Option Error
  validate_mimir_update = validate_update w mimir validate

  unfoldable pub validate_mimir_delete : RuntimeObject → Option Error
  unfolding validate_delete
  validate_mimir_delete obj = validate_delete obj
