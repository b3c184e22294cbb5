-- ===== src/Reconciler/Isolation.antt =====
-- The merge loop of `Reconcile`: what its output holds for one tenant.
use mathlib.Core.Option.{some-injective, none-ne-some}
use runtime_overrides_operat.Prelude.{
  Str, bytes, str_eq, str_eq_iff, Bool, Option, none, some, List, [], ◌∷◌, ◌++◌, ◌≡◌, refl, sym, ap,
  ◌∙◌, Dict, lookup, insert, lookup-insert, Bool-cases, Option-cases, inl, inr, if◌then◌else◌, true,
  false,
}
use runtime_overrides_operat.Value.{Fields}
use runtime_overrides_operat.Overrides.{Override, sort_group, group_by_tenant}
use runtime_overrides_operat.Overrides.Grouping.{of_tenant, nonempty, lookup-group_by_tenant}
use runtime_overrides_operat.Overrides.Keys.{DistinctKeys, group_from-DistinctKeys}
use runtime_overrides_operat.Conflict.{FieldConflict, tracking_merge}
use runtime_overrides_operat.Platform.{Platform, Error}
use runtime_overrides_operat.Proc.{State, Outcome, returns, fails, panics, count, ◌>>=◌, ◌>>◌}
use runtime_overrides_operat.Metrics.{validation_errors_total}
use runtime_overrides_operat.Render.{Output}
use runtime_overrides_operat.Reconciler.Gather.{Reconciler, label}
use runtime_overrides_operat.Reconciler.Output.{merge_groups}

-- A result that the check accepts.
abbrev pub unless {ℓ} : {A : Type ℓ} → Option Error → A → Option A
unless none a = some a
unless (some e) a = none

abbrev pub check_merged :
    (Fields → Option Error)
    → Option (Fields × List FieldConflict)
    → Option (Fields × List FieldConflict)
check_merged validate none = none
check_merged validate (some result) = unless (validate result.0) result

-- The merge of a tenant's CRs, if the tenant has CRs, they merge, and the result is valid.
unfoldable pub tenant_result :
    (Fields → Option Error) → Str → Option (List Override) → Option (Fields × List FieldConflict)
tenant_result validate t none = none
tenant_result validate t (some group) = check_merged validate (tracking_merge t (sort_group group))

-- What a map holds once the result, if any, has been put into it.
abbrev pub put_over {ℓ κ} : {A : Type ℓ} {B : Type κ} → (A → B) → Option A → Option B → Option B
put_over f none prev = prev
put_over f (some a) prev = some (f a)

no_result {ℓ} :
    {B : Type ℓ} (f : Fields × List FieldConflict → B) (validate : Fields → Option Error) (t : Str)
    (prev : Option B)
    → put_over f (tenant_result validate t none) prev ≡ prev
unfolding tenant_result
no_result f validate t prev = refl

-- One round of the loop over the groups, for one of the maps that it fills.
round-lookup {ℓ} :
    {B : Type ℓ} (f : Fields × List FieldConflict → B) (validate : Fields → Option Error)
    (t tenant : Str) (group : List Override) (groups : Dict (List Override)) (before after : Dict B)
    → lookup tenant groups ≡ none
    → lookup t after ≡ (
        if str_eq tenant t
        then put_over f (tenant_result validate tenant (some group)) (lookup t before)
        else lookup t before)
    → put_over f (tenant_result validate t (lookup t groups)) (lookup t after)
      ≡ put_over f
          (tenant_result validate t (lookup t ((tenant, group) ∷ groups)))
          (lookup t before)
unfolding lookup
round-lookup f validate t tenant group groups before after fresh h =
    elim (Bool-cases (str_eq tenant t)) [
      | inl own ↦
          let e : tenant ≡ t = (str_eq_iff tenant t).0 own in
          rw (h, own, ← e, fresh) (no_result f validate tenant _)
      | inr other ↦ rw (h, other) refl
    ]

abbrev pub overrides_of : Fields × List FieldConflict → Fields
overrides_of result = result.0

abbrev pub conflicts_of : Fields × List FieldConflict → List FieldConflict
conflicts_of result = result.1

if_same {ℓ} : {A : Type ℓ} (b : Bool) (x : A) → x ≡ (if b then x else x)
if_same true x = refl
if_same false x = refl

abbrev pub value_of {ℓ} : {A : Type 0} {B : Type ℓ} → (A → B) → Outcome A → Option B
value_of f (returns a) = some (f a)
value_of f (fails e) = none
value_of f panics = none

module _ (w : Platform) (r : Reconciler) where
  open w use {Cluster}

  -- The loop returns these two maps.
  abbrev pub Gives :
      Dict (List Override)
      → Output
      → Dict (List FieldConflict)
      → State Cluster
      → Output
      → Dict (List FieldConflict)
      → Type 0
  Gives groups out conflicts s out' conflicts' =
      (merge_groups w r groups out conflicts s).0 ≡ returns (out', conflicts')

  module _ (tenant : Str) (group : List Override) (groups : Dict (List Override)) where
    pub panicking :
        (out : Output) (conflicts : Dict (List FieldConflict)) (s : State Cluster)
        → tracking_merge tenant (sort_group group) ≡ none
        → (merge_groups w r ((tenant, group) ∷ groups) out conflicts s).0 ≡ panics
    unfolding merge_groups ◌>>=◌
    panicking out conflicts s panic = rw panic refl

    pub taking :
        (out : Output) (conflicts : Dict (List FieldConflict)) (s : State Cluster)
        (result : Fields × List FieldConflict)
        → tracking_merge tenant (sort_group group) ≡ some result
        → r.validate result.0 ≡ none
        → (merge_groups w r ((tenant, group) ∷ groups) out conflicts s).0
          ≡ (merge_groups w r groups
              (insert tenant result.0 out)
              (insert tenant result.1 conflicts)
              s).0
    unfolding merge_groups ◌>>=◌
    taking out conflicts s result merged valid = rw (merged, valid) refl

    pub leaving_out :
        (out : Output) (conflicts : Dict (List FieldConflict)) (s : State Cluster)
        (result : Fields × List FieldConflict) (e : Error)
        → tracking_merge tenant (sort_group group) ≡ some result
        → r.validate result.0 ≡ some e
        → (s' : State Cluster) × ((merge_groups w r ((tenant, group) ∷ groups) out conflicts s).0
            ≡ (merge_groups w r groups out conflicts s').0)
    unfolding merge_groups ◌>>=◌ ◌>>◌
    leaving_out out conflicts s result e merged invalid = (
      record s {
        trace =
            s.trace
            ++ (count validation_errors_total
                  (label r ∷ tenant ∷ bytes "merged_result_invalid" ∷ [])
                ∷ []);
      },
      rw (merged, invalid) refl,
    )

  merge_groups-lookup_from :
      (t : Str) (groups : Dict (List Override)) (out : Output)
      (conflicts : Dict (List FieldConflict)) (s : State Cluster) (out' : Output)
      (conflicts' : Dict (List FieldConflict))
      → DistinctKeys groups
      → Gives groups out conflicts s out' conflicts'
      → let result = tenant_result r.validate t (lookup t groups) in
        (lookup t out' ≡ put_over overrides_of result (lookup t out))
        × (lookup t conflicts' ≡ put_over conflicts_of result (lookup t conflicts))
  unfolding merge_groups lookup tenant_result
  merge_groups-lookup_from t [] out conflicts s out' conflicts' distinct h = (
    ap (lookup t) (some-injective _ _ (sym (ap (value_of (λ m. m.0)) h))),
    ap (lookup t) (some-injective _ _ (sym (ap (value_of (λ m. m.1)) h))),
  )
  merge_groups-lookup_from t ((tenant, group) ∷ groups) out conflicts s out' conflicts' distinct h =
      elim (Option-cases (tracking_merge tenant (sort_group group))) [
        | inl panic ↦ absurd (
            none-ne-some _ (
              ap (value_of (λ m. m.0))
                (sym (panicking tenant group groups out conflicts s panic) ∙ h)))
        | inr (result, merged) ↦ elim (Option-cases (r.validate result.0)) [
          | inl valid ↦
              let (outs, conflicts_eq) =
                merge_groups-lookup_from t groups (insert tenant result.0 out)
                  (insert tenant result.1 conflicts) s out' conflicts' distinct.1
                  (sym (taking tenant group groups out conflicts s result merged valid) ∙ h) in
              (
                outs
                    ∙ round-lookup overrides_of r.validate t tenant group groups out _ distinct.0
                        (rw (merged, valid) (lookup-insert tenant t result.0 out)),
                conflicts_eq
                    ∙ round-lookup conflicts_of r.validate t tenant group groups conflicts _
                        distinct.0 (rw (merged, valid) (lookup-insert tenant t result.1 conflicts)),
              )
          | inr (e, invalid) ↦
              let (s', left) =
                leaving_out tenant group groups out conflicts s result e merged invalid in
              let (outs, conflicts_eq) =
                merge_groups-lookup_from t groups out conflicts s' out' conflicts' distinct.1
                  (sym left ∙ h) in
              (
                outs
                    ∙ round-lookup overrides_of r.validate t tenant group groups out out distinct.0
                        (rw (merged, invalid) (if_same (str_eq tenant t) (lookup t out))),
                conflicts_eq
                    ∙ round-lookup conflicts_of r.validate t tenant group groups conflicts conflicts
                        distinct.0
                        (rw (merged, invalid) (if_same (str_eq tenant t) (lookup t conflicts))),
              )
        ]
      ]

  -- If the loop returns, its output holds for a tenant the merge of the valid CRs of that tenant in
  -- merge order, where there are such CRs and the check accepts the merge, and else nothing; and
  -- the conflicts of the tenant are kept exactly with its output.
  pub merge_groups-lookup :
      (t : Str) (valid : List Override) (s : State Cluster) (out : Output)
      (conflicts : Dict (List FieldConflict))
      → Gives (group_by_tenant valid) [] [] s out conflicts
      → let result = tenant_result r.validate t (nonempty (of_tenant t valid)) in
        (lookup t out ≡ put_over overrides_of result none)
        × (lookup t conflicts ≡ put_over conflicts_of result none)
  unfolding group_by_tenant lookup
  merge_groups-lookup t valid s out conflicts h = rw (← (lookup-group_by_tenant valid t)) (
      merge_groups-lookup_from t (group_by_tenant valid) [] [] s out conflicts
        (group_from-DistinctKeys [] valid tt) h)
