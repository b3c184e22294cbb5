-- ===== src/Overrides/Sorting.antt =====
-- `SortGroup` of internal/merge/group.go: the merge order of the CRs of a tenant.
use mathlib.Core.List.{Permᴰ, Perm}
use runtime_overrides_operat.Prelude.{
  Ordering, compare_str, compare_ℤ, ◌≡◌, ◌≢◌, sym, subst, fun_ext, arith, List, [], ◌∷◌, keep, All,
}
use runtime_overrides_operat.Order.{IsOrder, Le, then_by, lexicographic-IsOrder, on-IsOrder}
use runtime_overrides_operat.Order.Text.{
  compare_str-IsOrder, compare_ℤ-IsOrder, compare_str_eq, compare_ℤ_eq,
}
use runtime_overrides_operat.Order.Sort.{
  IsSorted, Apart, is_eq, sort_stable-IsSorted, sort_stable-perm, sort_stable-keep,
  sort_stable-order_free,
}
use runtime_overrides_operat.Overrides.{Override, compare_override, sort_group}

by_key : Override → Override → Ordering
by_key a b =
    then_by (compare_ℤ a.weight b.weight)
      (then_by (compare_str a.namespace b.namespace) (compare_str a.name b.name))

compare_override-eq : (a b : Override) → compare_override a b ≡ by_key a b
unfolding compare_override by_key
compare_override-eq a b = ground arith

by_key-IsOrder : IsOrder by_key
unfolding by_key
by_key-IsOrder = lexicographic-IsOrder (on-IsOrder (λ (o : Override). o.weight) compare_ℤ-IsOrder) (
    lexicographic-IsOrder (on-IsOrder (λ (o : Override). o.namespace) compare_str-IsOrder)
      (on-IsOrder (λ (o : Override). o.name) compare_str-IsOrder))

pub compare_override-IsOrder : IsOrder compare_override
compare_override-IsOrder =
    subst (λ f. IsOrder f) (fun_ext λ a. fun_ext λ b. sym (compare_override-eq a b)) by_key-IsOrder

-- `a` may stand before `b`: of less weight, or of equal weight and not later by namespace and name.
abbrev pub Precedes : Override → Override → Type 0
Precedes a b = Le compare_override a b

-- Two CRs that compare as equal have one weight, namespace and name.
pub compare_override_eq :
    (a b : Override)
    → compare_override a b ≡ Ordering.eq
    → (a.weight ≡ b.weight) × (a.namespace ≡ b.namespace) × (a.name ≡ b.name)
unfolding by_key
compare_override_eq a b h =
    let k : by_key a b ≡ Ordering.eq = rw (sym (compare_override-eq a b)) h in
    (
      compare_ℤ_eq a.weight b.weight (ground arith),
      compare_str_eq a.namespace b.namespace (ground arith),
      compare_str_eq a.name b.name (ground arith),
    )

-- `SortGroup` returns a rearrangement of the group in which no CR stands before one that precedes
-- it, and CRs of one weight, namespace and name keep their order.
pub sort_group-IsStable :
    (group : List Override)
    → Perm (sort_group group) group
      × IsSorted compare_override (sort_group group)
      × ((o : Override)
          → keep (λ a. is_eq (compare_override o a)) (sort_group group)
            ≡ keep (λ a. is_eq (compare_override o a)) group)
unfolding sort_group
sort_group-IsStable group = (
  sort_stable-perm compare_override group,
  sort_stable-IsSorted compare_override-IsOrder group,
  λ o. sort_stable-keep compare_override-IsOrder o group,
)

-- No two CRs of a kind share namespace and name.
abbrev pub DistinctNames : List Override → Type 0
DistinctNames [] = Unit
DistinctNames (a ∷ l) =
    All (λ b. ¬ ((a.namespace ≡ b.namespace) × (a.name ≡ b.name))) l × DistinctNames l

distinct_from :
    (a : Override) (l : List Override)
    → All (λ b. ¬ ((a.namespace ≡ b.namespace) × (a.name ≡ b.name))) l
    → All (λ b. compare_override a b ≢ Ordering.eq) l
distinct_from a [] h = tt
distinct_from a (b ∷ l) h =
    (λ e. let same = compare_override_eq a b e in h.0 (same.1, same.2), distinct_from a l h.1)

DistinctNames-Apart : (l : List Override) → DistinctNames l → Apart compare_override l
DistinctNames-Apart [] h = tt
DistinctNames-Apart (a ∷ l) h = (distinct_from a l h.0, DistinctNames-Apart l h.1)

-- The merge order of a tenant's CRs does not depend on the order in which they were listed, where
-- no two of them share namespace and name.
pub sort_group-order_free :
    (group listed : List Override)
    → DistinctNames group
    → Permᴰ group listed
    → sort_group group ≡ sort_group listed
unfolding sort_group
sort_group-order_free group listed h p =
    sort_stable-order_free compare_override-IsOrder p (DistinctNames-Apart group h)
