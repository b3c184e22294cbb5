-- ===== src/Reconciler/Gather.antt =====
-- `gather` and `unmarshalRawExtension`: the CRs of the target, decoded and validated one by one.
use runtime_overrides_operat.Prelude.{
  Str, bytes, str_eq, Bool, Option, none, some, List, [], ◌∷◌, if◌then◌else◌,
}
use runtime_overrides_operat.Value.{Fields, end}
use runtime_overrides_operat.Api.{TenantOverride, NamespacedName}
use runtime_overrides_operat.Overrides.{Override}
use runtime_overrides_operat.Platform.{
  Platform, Error, Result, ok, err, wrap, Target, target_label, loki, mimir,
}
use runtime_overrides_operat.Proc.{Proc, pure, fail, call, emit, count, ◌>>=◌, ◌>>◌}
use runtime_overrides_operat.Metrics.{validation_errors_total}

-- The fields of a reconciler, but for the client and the hash cache, which are the state's.
-- `recorder` tells whether the event recorder is set; `validate` is the validator's method.
pub record Reconciler : Type 0 where
  pub target : Target
  pub output_cm : NamespacedName
  pub validate : Fields → Option Error
  pub recorder : Bool

pub record Envelope : Type 0 where
  pub cr : TenantOverride
  pub effective : Str
  pub override : Override
  pub valid_err : Option Error

abbrev pub label : Reconciler → Str
label r = target_label r.target

-- The tenant of a CR: its own, or its namespace.
unfoldable pub effective_tenant : TenantOverride → Str
effective_tenant cr = if str_eq cr.spec.tenant_id [] then cr.namespace else cr.spec.tenant_id

abbrev pub decoded_map : Result Fields → Fields
decoded_map (ok fs) = fs
decoded_map (err e) = end

abbrev pub validity : Reconciler → Result Fields → Option Error
validity r (err e) = some e
validity r (ok raw) = r.validate raw

-- The reason that an invalid CR is counted under.
abbrev pub invalid_reason : Result Fields → Str
invalid_reason (err e) = bytes "decode_failed"
invalid_reason (ok raw) = bytes "upstream_validate_failed"

abbrev pub plural : Target → Str
plural loki = bytes "list LokiTenantOverrides"
plural mimir = bytes "list MimirTenantOverrides"

module _ (w : Platform) where
  open w use {Cluster, list_overrides, json_unmarshal}

  unfoldable pub unmarshal_raw_extension : Option Str → Result Fields
  unmarshal_raw_extension none = ok end
  unmarshal_raw_extension (some []) = ok end
  unmarshal_raw_extension (some (c ∷ raw)) = elim (json_unmarshal (c ∷ raw)) [
    | err e ↦ err (wrap (bytes "unmarshal overrides") e)
    | ok none ↦ ok end
    | ok (some out) ↦ ok out
  ]

  -- The envelope of a CR, from its decoded overrides.
  unfoldable pub envelope_of : Reconciler → TenantOverride → Envelope
  unfolding unmarshal_raw_extension effective_tenant
  envelope_of r cr =
      let decoded = unmarshal_raw_extension cr.spec.overrides in
      record {
        cr = cr;
        effective = effective_tenant cr;
        override = record {
          namespace = cr.namespace;
          name = cr.name;
          tenant_id = effective_tenant cr;
          weight = cr.spec.weight;
          overrides = decoded_map decoded;
        };
        valid_err = validity r decoded;
      }

  abbrev pub report_invalid : Reconciler → TenantOverride → Option Error → Proc Cluster Unit
  report_invalid r cr none = pure tt
  report_invalid r cr (some e) = emit (
      count validation_errors_total (
        label r
        ∷ effective_tenant cr
        ∷ invalid_reason (unmarshal_raw_extension cr.spec.overrides)
        ∷ []))

  -- The loop over the listed CRs.
  unfoldable pub envelopes_of : Reconciler → List TenantOverride → Proc Cluster (List Envelope)
  unfolding envelope_of
  envelopes_of r [] = pure []
  envelopes_of r (cr ∷ crs) = do
    report_invalid r cr (envelope_of r cr).valid_err
    rest ← envelopes_of r crs
    pure (envelope_of r cr ∷ rest)

  unfoldable pub gather : Reconciler → Proc Cluster (List Envelope)
  unfolding envelopes_of
  gather r = do
    listed ← call (list_overrides r.target)
    elim listed [ err e ↦ fail (wrap (plural r.target) e) | ok items ↦ envelopes_of r items ]
