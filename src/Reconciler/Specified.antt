-- ===== src/Reconciler/Specified.antt =====
-- The output of the operator as a function of the CRs, without its loops and its bookkeeping.
use mathlib.Core.List.{Permᴰ}
use mathlib.Core.Bool.{false≢true}
use runtime_overrides_operat.Prelude.{
  Str, str_eq, str_eq_iff, Bool, true, false, ◌||◌, Option, none, some, List, [], ◌∷◌, ◌≡◌, refl,
  sym, ap, ◌∙◌, Dict, lookup, insert, lookup-insert, All, Bool-cases, inl, inr, if◌then◌else◌,
}
use runtime_overrides_operat.Value.{Fields, end}
use runtime_overrides_operat.Overrides.{Override, sort_group, group_by_tenant}
use runtime_overrides_operat.Overrides.Grouping.{of_tenant, nonempty}
use runtime_overrides_operat.Overrides.Keys.{DistinctKeys, insert-DistinctKeys}
use runtime_overrides_operat.Overrides.Sorting.{DistinctNames, sort_group-order_free}
use runtime_overrides_operat.Conflict.{FieldConflict}
use runtime_overrides_operat.Conflict.Events.{merge_all}
use runtime_overrides_operat.Conflict.Panics.{tracking_merge-total}
use runtime_overrides_operat.Platform.{Platform, Error}
use runtime_overrides_operat.Proc.{State}
use runtime_overrides_operat.Render.{Output}
use runtime_overrides_operat.Reconciler.Gather.{Reconciler}
use runtime_overrides_operat.Reconciler.Isolation.{
  Gives, unless, tenant_result, put_over, overrides_of, merge_groups-lookup,
}
use runtime_overrides_operat.Reconciler.OrderFree.{
  is_nil, is_nil-Permᴰ, keep-Permᴰ, keep-DistinctNames, All-keep,
}
use runtime_overrides_operat.Reconciler.Total.{IsFlatCr, events-Flat, sort_group-flat}

-- The CRs of a tenant, laid over each other in merge order, if the result is accepted.
abbrev layered : (Fields → Option Error) → Option (List Override) → Option Fields
layered validate none = none
layered validate (some group) =
    let merged = merge_all end (sort_group group) in unless (validate merged) merged

unfoldable pub specified : (Fields → Option Error) → List Override → Str → Option Fields
specified validate valid t = layered validate (nonempty (of_tenant t valid))

abbrev put_accepted : Str → Option Fields → Output → Output
put_accepted t none out = out
put_accepted t (some fs) out = insert t fs out

collect : (Fields → Option Error) → List Override → List Override → Output
collect validate valid [] = []
collect validate valid (cr ∷ crs) =
    put_accepted cr.tenant_id (specified validate valid cr.tenant_id) (collect validate valid crs)

-- The entry of each tenant that has one.
unfoldable pub desired_output : (Fields → Option Error) → List Override → Output
unfolding collect
desired_output validate valid = collect validate valid valid

abbrev has_tenant : Str → List Override → Bool
has_tenant t [] = false
has_tenant t (cr ∷ crs) = str_eq cr.tenant_id t || has_tenant t crs

put_accepted-lookup :
    (t k : Str) (x : Option Fields) (out : Output) (y : Option Fields)
    → (k ≡ t → x ≡ y)
    → (str_eq k t ≡ true → x ≡ none → lookup t out ≡ none)
    → lookup t (put_accepted k x out) ≡ (if str_eq k t then y else lookup t out)
put_accepted-lookup t k none out y same gone = elim (Bool-cases (str_eq k t)) [
  | inl own ↦ rw own (gone own refl ∙ same ((str_eq_iff k t).0 own))
  | inr other ↦ rw other refl
]
put_accepted-lookup t k (some fs) out y same gone =
    lookup-insert k t fs out ∙ elim (Bool-cases (str_eq k t)) [
      | inl own ↦ rw own (same ((str_eq_iff k t).0 own))
      | inr other ↦ rw other refl
    ]

if_or {ℓ} :
    {A : Type ℓ} (a b : Bool) (x : Option A)
    → (if a then x else (if b then x else none)) ≡ (if a || b then x else none)
if_or true b x = refl
if_or false b x = refl

if_none {ℓ} : {A : Type ℓ} (b : Bool) (x : Option A) → x ≡ none → (if b then x else none) ≡ none
if_none true x h = h
if_none false x h = refl

lookup-collect :
    (validate : Fields → Option Error) (valid : List Override) (t : Str) (crs : List Override)
    → lookup t (collect validate valid crs)
      ≡ (if has_tenant t crs then specified validate valid t else none)
unfolding collect lookup
lookup-collect validate valid t [] = refl
lookup-collect validate valid t (cr ∷ crs) =
    let rest = lookup-collect validate valid t crs in
    let other = has_tenant t crs in
    put_accepted-lookup t cr.tenant_id (specified validate valid cr.tenant_id)
      (collect validate valid crs) (specified validate valid t)
      (λ e. ap (specified validate valid) e)
      (λ own empty.
        rest
        ∙ if_none other (specified validate valid t)
            (sym (ap (specified validate valid) ((str_eq_iff cr.tenant_id t).0 own)) ∙ empty))
    ∙ ap (λ x. if str_eq cr.tenant_id t then specified validate valid t else x) rest
    ∙ if_or (str_eq cr.tenant_id t) other (specified validate valid t)

none-of_tenant : (t : Str) (crs : List Override) → has_tenant t crs ≡ false → of_tenant t crs ≡ []
none-of_tenant t [] h = refl
none-of_tenant t (cr ∷ crs) h = elim (Bool-cases (str_eq cr.tenant_id t)) [
  | inl own ↦ absurd (false≢true (sym h ∙ rw own refl))
  | inr other ↦ rw other (none-of_tenant t crs (rw other at h))
]

pub lookup-desired_output :
    (validate : Fields → Option Error) (valid : List Override) (t : Str)
    → lookup t (desired_output validate valid) ≡ specified validate valid t
unfolding desired_output specified
lookup-desired_output validate valid t =
    lookup-collect validate valid t valid ∙ elim (Bool-cases (has_tenant t valid)) [
      | inl some_cr ↦ rw some_cr refl
      | inr no_cr ↦ rw (no_cr, none-of_tenant t valid no_cr) refl
    ]

put_accepted-DistinctKeys :
    (k : Str) (x : Option Fields) (out : Output)
    → DistinctKeys out
    → DistinctKeys (put_accepted k x out)
put_accepted-DistinctKeys k none out h = h
put_accepted-DistinctKeys k (some fs) out h = insert-DistinctKeys k fs out h

collect-DistinctKeys :
    (validate : Fields → Option Error) (valid crs : List Override)
    → DistinctKeys (collect validate valid crs)
unfolding collect
collect-DistinctKeys validate valid [] = tt
collect-DistinctKeys validate valid (cr ∷ crs) =
    put_accepted-DistinctKeys cr.tenant_id (specified validate valid cr.tenant_id)
      (collect validate valid crs) (collect-DistinctKeys validate valid crs)

pub desired_output-DistinctKeys :
    (validate : Fields → Option Error) (valid : List Override)
    → DistinctKeys (desired_output validate valid)
unfolding desired_output
desired_output-DistinctKeys validate valid = collect-DistinctKeys validate valid valid

specified_nonempty :
    (validate : Fields → Option Error) (crs : List Override)
    → layered validate (nonempty crs) ≡ (if is_nil crs then none else layered validate (some crs))
specified_nonempty validate [] = refl
specified_nonempty validate (cr ∷ crs) = refl

-- What is specified for a tenant does not depend on the order in which the CRs are listed.
pub specified-Permᴰ :
    (validate : Fields → Option Error) (t : Str) (l r : List Override)
    → DistinctNames l
    → Permᴰ l r
    → specified validate l t ≡ specified validate r t
unfolding specified
specified-Permᴰ validate t l r h d =
    let same = keep-Permᴰ (λ cr. str_eq cr.tenant_id t) d in
    rw
      (
        specified_nonempty validate (of_tenant t l),
        specified_nonempty validate (of_tenant t r),
        is_nil-Permᴰ same,
        sort_group-order_free (of_tenant t l) (of_tenant t r)
            (keep-DistinctNames (λ cr. str_eq cr.tenant_id t) l h) same,
      )
      refl

accepted :
    (x : Option Error) (fs : Fields) (fcs : List FieldConflict)
    → put_over overrides_of (unless x (fs, fcs)) none ≡ unless x fs
accepted none fs fcs = refl
accepted (some e) fs fcs = refl

tenant_result-layered :
    (validate : Fields → Option Error) (t : Str) (group : List Override)
    → All IsFlatCr group
    → put_over overrides_of (tenant_result validate t (nonempty group)) none
      ≡ layered validate (nonempty group)
unfolding tenant_result
tenant_result-layered validate t [] flat = refl
tenant_result-layered validate t (cr ∷ crs) flat =
    let sorted = sort_group (cr ∷ crs) in
    let (fcs, merged) =
      tracking_merge-total t sorted (events-Flat sorted (sort_group-flat (cr ∷ crs) flat)) in
    rw merged (accepted (validate (merge_all end sorted)) (merge_all end sorted) fcs)

-- On flat CRs the merge loop puts at each tenant what is specified for it.
pub merge_groups-specified :
    (w : Platform) (r : Reconciler) (valid : List Override) (s : State w.Cluster) (out : Output)
    (conflicts : Dict (List FieldConflict))
    → All IsFlatCr valid
    → Gives w r (group_by_tenant valid) [] [] s out conflicts
    → (t : Str) → lookup t out ≡ specified r.validate valid t
unfolding specified
merge_groups-specified w r valid s out conflicts flat h t =
    (merge_groups-lookup w r t valid s out conflicts h).0
    ∙ tenant_result-layered r.validate t (of_tenant t valid)
        (All-keep IsFlatCr (λ cr. str_eq cr.tenant_id t) valid flat)
