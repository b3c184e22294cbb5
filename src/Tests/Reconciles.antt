-- ===== src/Tests/Reconciles.antt =====
-- Concrete passes of the reconciler (internal/controller/loki_controller.go).
use runtime_overrides_operat.Prelude.{
  bytes, str_eq, List, [], ◌∷◌, none, some, ◌≡◌, refl, arith, lookup, insert, Dict, true, false,
  All, ◌<◌, length, inl, inr, print_nat, print_int, pos,
}
use runtime_overrides_operat.Value.{get, put, float_eq}
use runtime_overrides_operat.Api.{Condition, condition_applied, condition_true}
use runtime_overrides_operat.Order.Sort.{sort_stable}
use runtime_overrides_operat.Overrides.{Override, group_by_tenant, sort_group}
use runtime_overrides_operat.Overrides.Grouping.{of_tenant, nonempty}
use runtime_overrides_operat.Overrides.Sorting.{DistinctNames}
use runtime_overrides_operat.Merge.{deep_merge, deep_copy}
use runtime_overrides_operat.Conflict.{
  FieldConflict, tracking_merge, walk_leaves, visit, join, leaf_values_equal, add_conflict,
}
use runtime_overrides_operat.Conflict.Events.{leaves}
use runtime_overrides_operat.Status.{upsert_condition, conditions_equivalent}
use runtime_overrides_operat.Status.Laws.{find_condition}
use runtime_overrides_operat.Status.Settled.{AreOwn}
use runtime_overrides_operat.Platform.{new_error}
use runtime_overrides_operat.Proc.{returns, ◌>>=◌}
use runtime_overrides_operat.Render.{Output}
use runtime_overrides_operat.Apply.{ApplyResult}
use runtime_overrides_operat.Reconciler.Gather.{Reconciler, Envelope}
use runtime_overrides_operat.Reconciler.Desired.{
  compute_desired_status, validated_condition, applied_condition, contributed_message,
}
use runtime_overrides_operat.Reconciler.Statuses.{needs_update, upsert_all}
use runtime_overrides_operat.Reconciler.Idle.{HasStatus}
use runtime_overrides_operat.Peers.{compute_peers}
use runtime_overrides_operat.Reconciler.Isolation.{
  Gives, merge_groups-lookup, tenant_result, put_over, overrides_of, conflicts_of,
}
use runtime_overrides_operat.Reconciler.Total.{merge_groups-total, IsFlatCr}
use runtime_overrides_operat.Reconciler.Settled.{needs_update-settles, needs_update_foreign}
use runtime_overrides_operat.Reconciler.LeftOut.{compute_desired_status-left_out}
use runtime_overrides_operat.Tests.Documents.{base, team_a, first_cr, second_cr}
use runtime_overrides_operat.Tests.Cluster.{small, empty_cluster, reconciler_with, cr}

abbrev crs : List Override
crs = second_cr ∷ first_cr ∷ []

abbrev listed : List Override
listed = first_cr ∷ second_cr ∷ []

abbrev accepting : Reconciler
accepting = reconciler_with none

crs-IsFlatCr : All IsFlatCr crs
unfolding leaves
crs-IsFlatCr = ((tt, tt), ((tt, (tt, tt)), tt))

listed-IsFlatCr : All IsFlatCr listed
unfolding leaves
listed-IsFlatCr = ((tt, (tt, tt)), ((tt, tt), tt))

-- What the loop gives for the two lists.
abbrev given :
    (out : Output) × (conflicts : Dict (List FieldConflict)) × Gives small accepting
      (group_by_tenant crs)
      []
      []
      empty_cluster
      out
      conflicts
given = merge_groups-total small accepting crs empty_cluster crs-IsFlatCr

abbrev given_listed :
    (out : Output) × (conflicts : Dict (List FieldConflict)) × Gives small accepting
      (group_by_tenant listed)
      []
      []
      empty_cluster
      out
      conflicts
given_listed = merge_groups-total small accepting listed empty_cluster listed-IsFlatCr

merge_groups-lookup_example :
    let result = tenant_result accepting.validate team_a (nonempty (of_tenant team_a crs)) in
    (lookup team_a given.0 ≡ put_over overrides_of result none)
    × (lookup team_a given.1 ≡ put_over conflicts_of result none)
merge_groups-lookup_example =
    merge_groups-lookup small accepting team_a crs empty_cluster given.0 given.1 given.2

crs-DistinctNames : DistinctNames crs
crs-DistinctNames = (((λ e. ground arith), tt), (tt, tt))

abbrev envelope : Envelope
envelope = record { cr = cr; effective = team_a; override = first_cr; valid_err = none }

abbrev res : ApplyResult
res = record { hash = bytes "h"; generation = 1; skipped = false }

abbrev two_conditions : List Condition
two_conditions =
    record (applied_condition accepting envelope res none) { last_transition_time = 5 }
    ∷ record (validated_condition none) { last_transition_time = 5 }
    ∷ []

abbrev foreign : Condition
foreign = record (validated_condition none) { type = bytes "Other" }

two-AreOwn :
    AreOwn (validated_condition none) (applied_condition accepting envelope res none) two_conditions
two-AreOwn = (inr refl, ((λ e. ground arith), tt), (inl refl, tt, tt))

two_upserted :
    (upsert_all small two_conditions
      (compute_desired_status accepting envelope crs res).conditions
      empty_cluster).0
    ≡ returns two_conditions
unfolding upsert_all compute_desired_status upsert_condition conditions_equivalent str_eq ◌>>=◌
    contributed_message print_nat print_int
two_upserted = refl

needs_update-settles_example :
    needs_update
      (compute_desired_status accepting envelope crs res)
      (record (compute_desired_status accepting envelope crs res) { conditions = two_conditions })
    ≡ false
needs_update-settles_example =
    needs_update-settles small accepting envelope crs res two_conditions two_conditions
      empty_cluster two-AreOwn two_upserted

three_upserted :
    (upsert_all small
      (foreign ∷ two_conditions)
      (compute_desired_status accepting envelope crs res).conditions
      empty_cluster).0
    ≡ returns (foreign ∷ two_conditions)
unfolding upsert_all compute_desired_status upsert_condition conditions_equivalent str_eq ◌>>=◌
    contributed_message print_nat print_int
three_upserted = refl

three_conditions : 2 < length (foreign ∷ two_conditions)
three_conditions = omega arith

needs_update_foreign_example :
    needs_update
      (compute_desired_status accepting envelope crs res)
      (record (compute_desired_status accepting envelope crs res) {
        conditions = foreign ∷ two_conditions;
      })
    ≡ true
needs_update_foreign_example =
    needs_update_foreign small accepting envelope crs res (foreign ∷ two_conditions)
      (foreign ∷ two_conditions) empty_cluster three_conditions three_upserted

abbrev refusing : Reconciler
refusing = reconciler_with (some (new_error (bytes "invalid")))

abbrev one_cr : List Override
one_cr = first_cr ∷ []

one_merged : tracking_merge team_a (sort_group one_cr) ≡ some (base, [])
unfolding tracking_merge walk_leaves deep_merge visit lookup insert join str_eq leaf_values_equal
    get put float_eq deep_copy add_conflict sort_group sort_stable
one_merged = refl

one-IsFlatCr : All IsFlatCr one_cr
unfolding leaves
one-IsFlatCr = ((tt, (tt, tt)), tt)

abbrev refused :
    (out : Output) × (conflicts : Dict (List FieldConflict)) × Gives small refusing
      (group_by_tenant one_cr)
      []
      []
      empty_cluster
      out
      conflicts
refused = merge_groups-total small refusing one_cr empty_cluster one-IsFlatCr

one_of_tenant : of_tenant team_a one_cr ≡ first_cr ∷ []
unfolding str_eq
one_of_tenant = refl

compute_desired_status-left_out_example :
    (lookup team_a refused.0 ≡ none)
    × (find_condition condition_applied
          (compute_desired_status refusing envelope one_cr res).conditions
        ≡ some (applied_condition refusing envelope res none))
    × ((applied_condition refusing envelope res none).status ≡ condition_true)
compute_desired_status-left_out_example =
    compute_desired_status-left_out small refusing envelope first_cr [] one_cr base []
      (new_error (bytes "invalid")) empty_cluster refused.0 refused.1 res refl one_of_tenant
      one_merged refl refused.2

-- The envelope of a CR whose status is as it should be.
abbrev settled : Envelope
settled = record envelope {
  cr = record cr {
    status = record {
      observed_generation = pos 2;
      effective_tenant_id = team_a;
      conditions = two_conditions;
      contributing_peers = compute_peers first_cr crs;
    };
  };
}

settled-HasStatus : HasStatus small accepting crs res settled
unfolding compute_desired_status contributed_message
settled-HasStatus =
    needs_update-settles small accepting settled crs res two_conditions two_conditions empty_cluster
      two-AreOwn two_upserted

-- The CR of the envelope lost a field to another one of the same weight.
abbrev lost_field : FieldConflict
lost_field = record {
  tenant = team_a;
  path = bytes "a" ∷ [];
  winner = record { namespace = bytes "ns"; name = bytes "b"; weight = pos 10 };
  losers = record { namespace = bytes "ns"; name = bytes "a"; weight = pos 10 } ∷ [];
  same_weight = true;
}
