-- ===== src/Tests/Driven.antt =====
-- A run of the operator in which someone else writes to the output ConfigMap (internal/controller).
use runtime_overrides_operat.Prelude.{
  ℕ, zero, suc, Str, bytes, str_eq, [], ◌∷◌, none, some, refl, ◌≡◌, ◌≢◌, ◌⊎◌, lookup, insert,
  print_nat, print_int,
}
use runtime_overrides_operat.Value.{get, put, float_eq}
use runtime_overrides_operat.Order.Sort.{sort_stable}
use runtime_overrides_operat.Merge.{deep_merge, deep_copy}
use runtime_overrides_operat.Overrides.{group_by_tenant, sort_group, compare_override}
use runtime_overrides_operat.Conflict.{
  tracking_merge, walk_leaves, visit, join, leaf_values_equal, add_conflict,
}
use runtime_overrides_operat.Drift.{ConfigMap, extract_conflicting_field_manager}
use runtime_overrides_operat.Proc.{fails, State, returns, on_error, ◌>>=◌, ◌>>◌}
use runtime_overrides_operat.Render.{render, data_key}
use runtime_overrides_operat.Apply.{apply_config_map, field_manager}
use runtime_overrides_operat.Reconciler.Gather.{gather, label, plural}
use runtime_overrides_operat.Reconciler.Output.{
  merge_groups, check_drift, valid_overrides, cached_hash,
}
use runtime_overrides_operat.Reconciler.Desired.{compute_desired_status}
use runtime_overrides_operat.Reconciler.Statuses.{update_statuses, write_status}
use runtime_overrides_operat.Reconciler.Loop.{reconcile, write_output, record_output}
use runtime_overrides_operat.Platform.{Platform, Error, ErrorKind, err, loki, wrap}
use runtime_overrides_operat.Reconciler.Failing.{IsCounted, reconcile-IsCounted}
use runtime_overrides_operat.Reconciler.Remembered.{HasWritten, Remembers, reconcile-Remembers}
use runtime_overrides_operat.Runs.{Reach, here, next, pass, others, Knows}
use runtime_overrides_operat.Runs.Laws.{check_drift-exact}
use runtime_overrides_operat.Tests.Cluster.{SmallCluster, small, empty_cluster, reconciler_with, cr}

abbrev start_state : State SmallCluster
start_state = record empty_cluster { cluster = record { live = none; crs = cr ∷ []; clock = 5 } }

-- What someone else puts into the output ConfigMap.
abbrev foreign : ConfigMap
foreign = record {
  namespace = bytes "ns";
  name = bytes "overrides";
  labels = [];
  contents = (data_key, bytes "edited") ∷ [];
  generation = 2;
  managed_fields = record { manager = bytes "kubectl"; time = some 9 } ∷ [];
}

abbrev written : State SmallCluster
written = (reconcile small (reconciler_with none) start_state).1

abbrev edited_state : State SmallCluster
edited_state = record written { cluster = record { live = some foreign; crs = cr ∷ []; clock = 9 } }

edited_run : Reach small start_state edited_state
edited_run =
    next (next here (pass (reconciler_with none) start_state))
      (others (record { live = some foreign; crs = cr ∷ []; clock = 9 }) written)

written_hash : cached_hash edited_state.hashes (label (reconciler_with none)) ≡ some (bytes "body")
unfolding reconcile check_drift gather merge_groups write_output record_output update_statuses
    on_error ◌>>=◌ ◌>>◌ lookup insert str_eq group_by_tenant sort_group sort_stable compare_override
    tracking_merge walk_leaves visit join leaf_values_equal deep_merge deep_copy get put float_eq
    add_conflict render apply_config_map compute_desired_status write_status print_nat print_int
    valid_overrides
written_hash = refl

check_drift-exact_example :
    Knows small edited_run (bytes "loki") (bytes "body")
    × (((bytes "edited" ≡ bytes "body")
          × ((check_drift small (reconciler_with none) edited_state).0 ≡ returns none))
        ⊎ ((bytes "edited" ≢ bytes "body")
            × ((check_drift small (reconciler_with none) edited_state).0
                ≡ returns (some (extract_conflicting_field_manager (some foreign) field_manager)))))
unfolding lookup str_eq
check_drift-exact_example =
    check_drift-exact small (reconciler_with none) foreign (bytes "body") edited_run refl
      written_hash refl

-- The list call is forbidden.
abbrev forbidden : Error
forbidden = record { kind = ErrorKind.other; message = bytes "forbidden" }

abbrev list_error : Error
list_error = wrap (plural loki) forbidden

abbrev closed : Platform
closed = record small { list_overrides = λ t c. (err forbidden, c) }

list_forbidden : (reconcile closed (reconciler_with none) start_state).0 ≡ fails list_error
unfolding reconcile check_drift gather on_error ◌>>=◌ ◌>>◌ lookup str_eq
list_forbidden = refl

reconcile-IsCounted_example :
    IsCounted closed
      (reconciler_with none)
      start_state
      (reconcile closed (reconciler_with none) start_state).1
reconcile-IsCounted_example =
    reconcile-IsCounted closed (reconciler_with none) start_state list_error list_forbidden

-- A manager whose name has 63 letters and then a letter of two bytes.
abbrev letters : ℕ → Str → Str
letters zero s = s
letters (suc n) s = 97 ∷ letters n s

abbrev cut_name : Str
cut_name = letters 63 (195 ∷ [])

abbrev far_edited : ConfigMap
far_edited = record foreign {
  managed_fields = record { manager = letters 63 (195 ∷ 169 ∷ []); time = some 9 } ∷ [];
}

abbrev cut_state : State SmallCluster
cut_state = record {
  cluster = record { live = some far_edited; crs = []; clock = 5 };
  hashes = some ((bytes "loki", bytes "body") ∷ []);
  trace = [];
}

reconcile-Remembers_example :
    Remembers small
      (reconciler_with none)
      (HasWritten small (reconciler_with none) start_state)
      start_state.hashes
      (reconcile small (reconciler_with none) start_state)
reconcile-Remembers_example = reconcile-Remembers small (reconciler_with none) start_state
