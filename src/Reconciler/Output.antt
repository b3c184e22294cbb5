-- ===== src/Reconciler/Output.antt =====
-- The first half of `Reconcile`: the drift check, and the merge of the valid CRs by tenant.
use runtime_overrides_operat.Prelude.{
  Str, bytes, str_eq, Option, none, some, List, [], ◌∷◌, Dict, lookup, insert, if◌then◌else◌,
}
use runtime_overrides_operat.Overrides.{Override, sort_group}
use runtime_overrides_operat.Conflict.{FieldConflict, tracking_merge}
use runtime_overrides_operat.Drift.{
  ConfigMap, HashCache, get_hash, extract_conflicting_field_manager,
}
use runtime_overrides_operat.Platform.{Platform, ok, err}
use runtime_overrides_operat.Proc.{Proc, pure, of_option, call, emit, count, ◌>>=◌, ◌>>◌}
use runtime_overrides_operat.Metrics.{validation_errors_total}
use runtime_overrides_operat.Render.{Output, data_key}
use runtime_overrides_operat.Apply.{field_manager}
use runtime_overrides_operat.Reconciler.Gather.{Reconciler, Envelope, label}

-- `string` of a missing key is the empty string.
abbrev pub or_empty_text : Option Str → Str
or_empty_text none = []
or_empty_text (some s) = s

-- The hash that the operator wrote last; `none` with no cache or no entry.
abbrev pub cached_hash : Option HashCache → Str → Option Str
cached_hash none target = none
cached_hash (some h) target = get_hash h target

unfoldable pub valid_overrides : List Envelope → List Override
valid_overrides [] = []
valid_overrides (e ∷ es) =
    let rest = valid_overrides es in elim e.valid_err [ none ↦ e.override ∷ rest | some x ↦ rest ]

module _ (w : Platform) where
  open w use {Cluster, get_config_map, sha256_hex}

  -- A live body that has not the cached hash was written by someone else.
  abbrev pub drift_of : Str → ConfigMap → Option Str
  drift_of our_hash live =
      if str_eq (sha256_hex (or_empty_text (lookup data_key live.contents))) our_hash
      then none
      else some (extract_conflicting_field_manager (some live) field_manager)

  abbrev compare_live : Reconciler → Option Str → Proc Cluster (Option Str)
  compare_live r none = pure none
  compare_live r (some our_hash) = do
    got ← call (get_config_map r.output_cm)
    elim got [ err e ↦ pure none | ok live ↦ pure (drift_of our_hash live) ]

  -- `checkDrift`; `some` is a detected drift with the name of the other writer.
  unfoldable pub check_drift : Reconciler → Proc Cluster (Option Str)
  check_drift r s = compare_live r (cached_hash s.hashes (label r)) s

  -- The loop over the tenants, in the order of one iteration over the map of groups. A merged result
  -- that fails validation is counted and left out.
  unfoldable pub merge_groups :
      Reconciler
      → Dict (List Override)
      → Output
      → Dict (List FieldConflict)
      → Proc Cluster (Output × Dict (List FieldConflict))
  merge_groups r [] out conflicts = pure (out, conflicts)
  merge_groups r ((tenant, group) ∷ groups) out conflicts = do
    result ← of_option (tracking_merge tenant (sort_group group))
    elim (r.validate result.0) [
      | some e ↦ do
        emit (count validation_errors_total (label r ∷ tenant ∷ bytes "merged_result_invalid" ∷ []))
        merge_groups r groups out conflicts
      | none ↦ merge_groups r groups (insert tenant result.0 out) (insert tenant result.1 conflicts)
    ]
