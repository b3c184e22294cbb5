-- ===== src/Webhook/Agreement.antt =====
-- The admission checks of internal/webhook/v1alpha1 beside the validity check of the reconcilers.
use runtime_overrides_operat.Prelude.{none, some, ◌≡◌, ◌↔◌, arith}
use runtime_overrides_operat.Api.{TenantOverride}
use runtime_overrides_operat.Platform.{Platform, Target, loki, mimir}
use runtime_overrides_operat.Webhook.{
  validate_spec, decode_overrides, validate_create, validate_update, RuntimeObject, override,
}
use runtime_overrides_operat.Reconciler.Gather.{Reconciler, envelope_of, unmarshal_raw_extension}

module _ (w : Platform) (r : Reconciler) where
  validate_spec-agrees :
      (cr : TenantOverride)
      → (validate_spec w (some r.validate) cr ≡ none) ↔ ((envelope_of w r cr).valid_err ≡ none)
  unfolding validate_spec envelope_of unmarshal_raw_extension decode_overrides
  validate_spec-agrees cr = ground arith

  -- A webhook accepts a CR, created or updated to, exactly if the reconciler that has the same
  -- validator takes it into the merge.
  pub validate_create-agrees :
      (t : Target) (old_obj : RuntimeObject) (cr : TenantOverride)
      → ((validate_create w t (some r.validate) (override t cr) ≡ none)
          ↔ ((envelope_of w r cr).valid_err ≡ none))
        × ((validate_update w t (some r.validate) old_obj (override t cr) ≡ none)
            ↔ ((envelope_of w r cr).valid_err ≡ none))
  unfolding validate_create validate_update
  validate_create-agrees loki old_obj cr = (validate_spec-agrees cr, validate_spec-agrees cr)
  validate_create-agrees mimir old_obj cr = (validate_spec-agrees cr, validate_spec-agrees cr)
