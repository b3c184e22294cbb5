-- ===== src/Tests/Conflicts.antt =====
-- Concrete merges with conflicts (internal/merge/conflict.go).
use runtime_overrides_operat.Prelude.{
  Str, List, [], ◌∷◌, none, some, ◌≡◌, refl, All, map, str_eq, true, false, lookup, insert,
}
use runtime_overrides_operat.Value.{
  Value, number, object, array, nil, cons, Fields, end, field, get, put, float_eq, DistinctFields,
}
use runtime_overrides_operat.Overrides.{Override, ref_of}
use runtime_overrides_operat.Merge.{deep_merge, deep_copy}
use runtime_overrides_operat.Merge.View.{observe}
use runtime_overrides_operat.Conflict.{
  FieldConflict, tracking_merge, leaf_values_equal, visit, join, walk_leaves, add_conflict,
}
use runtime_overrides_operat.Conflict.Events.{events, leaves, merge_all}
use runtime_overrides_operat.Conflict.Summary.{conflict_at, writes_at}
use runtime_overrides_operat.Conflict.Report.{find, NoRepeat}
use runtime_overrides_operat.Conflict.Correct.{
  tracking_merge-layers, tracking_merge-find, tracking_merge_unique, layers,
}
use runtime_overrides_operat.Conflict.Panics.{tracking_merge-total, tracking_merge-maps_panic, Flat}
use runtime_overrides_operat.Conflict.Agreement.{
  tracking_merge-agreeing_last, tracking_merge-agreeing_first,
}
use runtime_overrides_operat.Tests.Documents.{rate, burst, team_a, cr_of}

abbrev low : Override
low = cr_of burst (field rate (number 1) (field burst (number 2) end))

abbrev high : Override
high = cr_of rate (field rate (number 3) end)

abbrev two : List Override
two = low ∷ high ∷ []

abbrev two_merged : Fields
two_merged = field rate (number 3) (field burst (number 2) end)

abbrev two_conflict : FieldConflict
two_conflict = record {
  tenant = team_a;
  path = rate ∷ [];
  winner = ref_of high;
  losers = ref_of low ∷ [];
  same_weight = true;
}

two_runs : tracking_merge team_a two ≡ some (two_merged, two_conflict ∷ [])
unfolding tracking_merge walk_leaves deep_merge visit lookup insert join str_eq leaf_values_equal
    get put float_eq deep_copy add_conflict
two_runs = refl

two-Distinct : All (λ cr. DistinctFields cr.overrides) two
unfolding get str_eq
two-Distinct = ((refl, tt, (refl, tt, tt)), ((refl, tt, tt), tt))

tracking_merge-layers_example :
    observe (rate ∷ []) (object two_merged)
    ≡ layers (rate ∷ []) (observe (rate ∷ []) (object end)) two
tracking_merge-layers_example =
    tracking_merge-layers team_a two two_merged (two_conflict ∷ []) (rate ∷ []) two-Distinct
      two_runs

tracking_merge-find_example :
    conflict_at team_a (writes_at rate two) ≡ some (find rate (two_conflict ∷ []))
tracking_merge-find_example =
    tracking_merge-find team_a two two_merged (two_conflict ∷ []) rate two_runs

tracking_merge_unique_example : NoRepeat (map (λ fc. join fc.path) (two_conflict ∷ []))
tracking_merge_unique_example =
    tracking_merge_unique team_a two two_merged (two_conflict ∷ []) two_runs

two-Flat : All (λ e. Flat e.value) (events two)
unfolding events leaves
two-Flat = (tt, (tt, (tt, tt)))

tracking_merge-total_example :
    (out : List FieldConflict) × (tracking_merge team_a two ≡ some (merge_all end two, out))
tracking_merge-total_example = tracking_merge-total team_a two two-Flat

abbrev rules : Override
rules = cr_of burst (field rate (array (cons (object end) nil)) end)

abbrev other_rules : Override
other_rules = cr_of rate (field rate (array (cons (object (field burst (number 1) end)) nil)) end)

tracking_merge-maps_panic_example : tracking_merge team_a (rules ∷ other_rules ∷ []) ≡ none
tracking_merge-maps_panic_example =
    tracking_merge-maps_panic team_a rules other_rules rate end (field burst (number 1) end) nil nil
      refl refl refl

-- Three CRs of different names that write one number each.
abbrev writing : Str → Value → Override
writing name v = cr_of name (field rate v end)

abbrev agreeing_last : List Override
agreeing_last = writing burst (number 1) ∷ writing rate (number 3) ∷ writing team_a (number 3) ∷ []

abbrev agreeing_first : List Override
agreeing_first = writing burst (number 1) ∷ writing rate (number 1) ∷ writing team_a (number 3) ∷ []

abbrev last_conflict : FieldConflict
last_conflict = record {
  tenant = team_a;
  path = rate ∷ [];
  winner = ref_of (writing rate (number 3));
  losers = ref_of (writing burst (number 1)) ∷ [];
  same_weight = true;
}

abbrev first_conflict : FieldConflict
first_conflict = record {
  tenant = team_a;
  path = rate ∷ [];
  winner = ref_of (writing team_a (number 3));
  losers = ref_of (writing rate (number 1)) ∷ [];
  same_weight = true;
}

last_runs :
    tracking_merge team_a agreeing_last ≡ some (field rate (number 3) end, last_conflict ∷ [])
unfolding tracking_merge walk_leaves deep_merge visit lookup insert join str_eq leaf_values_equal
    get put float_eq deep_copy add_conflict
last_runs = refl

first_runs :
    tracking_merge team_a agreeing_first ≡ some (field rate (number 3) end, first_conflict ∷ [])
unfolding tracking_merge walk_leaves deep_merge visit lookup insert join str_eq leaf_values_equal
    get put float_eq deep_copy add_conflict
first_runs = refl

differ : float_eq 1 3 ≡ false
unfolding float_eq
differ = refl

agree : (float_eq 1 1 ≡ true) × (float_eq 3 3 ≡ true)
unfolding float_eq
agree = (refl, refl)

tracking_merge-agreeing_last_example : find rate (last_conflict ∷ []) ≡ some last_conflict
tracking_merge-agreeing_last_example =
    tracking_merge-agreeing_last team_a (writing burst (number 1)) (writing rate (number 3))
      (writing team_a (number 3)) rate 1 3 3 refl refl refl (field rate (number 3) end)
      (last_conflict ∷ []) differ agree.1 last_runs

tracking_merge-agreeing_first_example : find rate (first_conflict ∷ []) ≡ some first_conflict
tracking_merge-agreeing_first_example =
    tracking_merge-agreeing_first team_a (writing burst (number 1)) (writing rate (number 1))
      (writing team_a (number 3)) rate 1 1 3 refl refl refl (field rate (number 3) end)
      (first_conflict ∷ []) agree.0 differ first_runs
