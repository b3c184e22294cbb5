-- ===== src/Overrides.antt =====
-- internal/merge/types.go and group.go: the merge engine's view of a CR, the grouping by tenant and
-- the order in which the CRs of a tenant are merged.
pub mod Sorting
pub mod Keys
pub mod Grouping
use runtime_overrides_operat.Order.Sort.{sort_stable}
use runtime_overrides_operat.Prelude.{
  Str, Dict, lookup, insert, List, [], ◌∷◌, ◌++◌, Option, none, some, ℤ, compare_ℤ, compare_str,
  Ordering, eqb_ℤ, ltb_ℤ, if◌then◌else◌,
}
use runtime_overrides_operat.Value.{Fields}

pub record Override : Type 0 where
  pub namespace : Str
  pub name : Str
  pub tenant_id : Str
  pub weight : ℤ
  pub overrides : Fields

pub record CrRef : Type 0 where
  pub namespace : Str
  pub name : Str
  pub weight : ℤ

abbrev pub ref_of : Override → CrRef
ref_of o = record { namespace = o.namespace; name = o.name; weight = o.weight }

-- `out[t]` of a missing key is the nil slice.
abbrev pub or_nil {ℓ} : {A : Type ℓ} → Option (List A) → List A
or_nil none = []
or_nil (some l) = l

-- The loop of `GroupByTenant`.
unfoldable pub group_from : Dict (List Override) → List Override → Dict (List Override)
group_from out [] = out
group_from out (cr ∷ crs) =
    group_from (insert cr.tenant_id (or_nil (lookup cr.tenant_id out) ++ (cr ∷ [])) out) crs

unfoldable pub group_by_tenant : List Override → Dict (List Override)
unfolding group_from
group_by_tenant crs = group_from [] crs

-- The comparison that `SortGroup` passes to the sort; -1, 0 and 1 are `lt`, `eq` and `gt`.
unfoldable pub compare_override : Override → Override → Ordering
compare_override a b =
    if eqb_ℤ a.weight b.weight
    then elim (compare_str a.namespace b.namespace) [
      | Ordering.eq ↦ compare_str a.name b.name
      | c ↦ c
    ]
    else if ltb_ℤ a.weight b.weight
    then Ordering.lt
    else Ordering.gt

-- `SortGroup`; the sort is in place, and the result is what the slice becomes.
unfoldable pub sort_group : List Override → List Override
unfolding compare_override
sort_group group = sort_stable compare_override group
