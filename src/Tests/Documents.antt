-- ===== src/Tests/Documents.antt =====
-- Merges, groups and orders of concrete override documents (internal/merge).
use mathlib.Core.List.{Permᴰ}
use runtime_overrides_operat.Prelude.{
  Str, bytes, str_eq, str_eq_iff, [], ◌∷◌, some, pos, ◌≡◌, refl, arith,
}
use runtime_overrides_operat.Value.{number, object, Fields, end, field, get, DistinctFields}
use runtime_overrides_operat.Merge.{deep_merge}
use runtime_overrides_operat.Merge.View.{
  observe, blocked, overlay, SameView, observe-cons, blocked-cons,
}
use runtime_overrides_operat.Merge.Overlay.{deep_merge-overlay, deep_merge-order_free}
use runtime_overrides_operat.Overrides.{Override, sort_group}
use runtime_overrides_operat.Overrides.Sorting.{sort_group-order_free, DistinctNames}

abbrev pub rate : Str
rate = bytes "rate"

abbrev pub burst : Str
burst = bytes "burst"

abbrev pub limits : Str
limits = bytes "limits"

abbrev pub base : Fields
base = field limits (object (field rate (number 1) (field burst (number 2) end))) end

abbrev pub change : Fields
change = field limits (object (field rate (number 3) end)) end

change-Distinct : DistinctFields change
unfolding get str_eq
change-Distinct = (refl, (refl, tt, tt), tt)

deep_merge-overlay_example :
    observe (limits ∷ rate ∷ []) (object (deep_merge (some base) change))
    ≡ overlay
        (observe (limits ∷ rate ∷ []) (object change))
        (blocked (limits ∷ rate ∷ []) (object change))
        (observe (limits ∷ rate ∷ []) (object base))
deep_merge-overlay_example =
    deep_merge-overlay (some base) change (limits ∷ rate ∷ []) change-Distinct

-- The two entries of a document in both orders.
abbrev one_order : Fields
one_order = field rate (number 1) (field burst (number 2) end)

abbrev other_order : Fields
other_order = field burst (number 2) (field rate (number 1) end)

get-orders : (k : Str) → get k one_order ≡ get k other_order
unfolding get str_eq
get-orders k = ground (arith, str_eq_iff rate k, str_eq_iff burst k, str_eq_iff rate burst)

SameView-orders : SameView (object one_order) (object other_order)
unfolding observe blocked
SameView-orders [] = (refl, refl)
SameView-orders (k ∷ p) = (
  rw (observe-cons k p (object one_order), observe-cons k p (object other_order), get-orders k)
      refl,
  rw (blocked-cons k p one_order, blocked-cons k p other_order, get-orders k) refl,
)

deep_merge-order_free_example :
    observe (rate ∷ []) (object (deep_merge (some one_order) change))
    ≡ observe (rate ∷ []) (object (deep_merge (some other_order) change))
deep_merge-order_free_example =
    deep_merge-order_free one_order other_order change change change-Distinct change-Distinct
      SameView-orders (λ p. (refl, refl)) (rate ∷ [])

abbrev pub team_a : Str
team_a = bytes "team-a"

abbrev pub cr_of : Str → Fields → Override
cr_of name overrides = record {
  namespace = bytes "ns";
  name = name;
  tenant_id = team_a;
  weight = pos 10;
  overrides = overrides;
}

abbrev pub first_cr : Override
first_cr = cr_of (bytes "a") base

abbrev pub second_cr : Override
second_cr = cr_of (bytes "b") change

two_names : DistinctNames (second_cr ∷ first_cr ∷ [])
two_names = (((λ e. ground arith), tt), (tt, tt))

sort_group-order_free_example :
    sort_group (second_cr ∷ first_cr ∷ []) ≡ sort_group (first_cr ∷ second_cr ∷ [])
sort_group-order_free_example =
    sort_group-order_free (second_cr ∷ first_cr ∷ []) (first_cr ∷ second_cr ∷ []) two_names
      (Permᴰ.swap refl refl)
