-- ===== src/Reconciler/Refines.antt =====
-- `Reconcile` of the reconcilers and the body that is specified for the set of CRs.
use mathlib.Core.List.{Permᴰ}
use mathlib.Core.Option.{some-injective, none-ne-some}
use mathlib.Core.Quot
use mathlib.Core.Quot.{Quot}
use runtime_overrides_operat.Prelude.{
  Str, str_eq_iff, false, Option, none, some, List, [], ◌∷◌, ◌≡◌, sym, ap, ◌∙◌, Dict, insert, All,
  map, Option-cases, inl, inr, arith, subst,
}
use runtime_overrides_operat.Api.{TenantOverride}
use runtime_overrides_operat.Overrides.{Override, sort_group, group_by_tenant}
use runtime_overrides_operat.Overrides.Keys.{DistinctKeys, insert-DistinctKeys}
use runtime_overrides_operat.Overrides.Sorting.{DistinctNames}
use runtime_overrides_operat.Conflict.{FieldConflict, tracking_merge}
use runtime_overrides_operat.Platform.{Platform, Result, ok, err}
use runtime_overrides_operat.Proc.{State}
use runtime_overrides_operat.Render.{Output, render}
use runtime_overrides_operat.Render.Extensional.{render_extensional}
use runtime_overrides_operat.Reconciler.Gather.{Reconciler, Envelope, envelope_of}
use runtime_overrides_operat.Reconciler.Output.{valid_overrides, merge_groups}
use runtime_overrides_operat.Reconciler.Isolation.{Gives, panicking, taking, leaving_out, value_of}
use runtime_overrides_operat.Reconciler.OrderFree.{keep-Permᴰ}
use runtime_overrides_operat.Reconciler.Total.{IsFlatCr}
use runtime_overrides_operat.Reconciler.Listed.{is_valid, valid_overrides-eq}
use runtime_overrides_operat.Reconciler.Forward.{valid_of}
use runtime_overrides_operat.Reconciler.Objects.{AreApart, same_object}
use runtime_overrides_operat.Reconciler.Specified.{
  desired_output, desired_output-DistinctKeys, lookup-desired_output, specified-Permᴰ,
  merge_groups-specified,
}

map-Permᴰ {ℓ κ} :
    {A : Type ℓ} {B : Type κ} (f : A → B) {l r : List A} → Permᴰ l r → Permᴰ (map f l) (map f r)
map-Permᴰ f Permᴰ.nil = Permᴰ.nil
map-Permᴰ f (Permᴰ.cons e d) = Permᴰ.cons (ap f e) (map-Permᴰ f d)
map-Permᴰ f (Permᴰ.swap e g) = Permᴰ.swap (ap f e) (ap f g)
map-Permᴰ f (Permᴰ.trans d e) = Permᴰ.trans (map-Permᴰ f d) (map-Permᴰ f e)

apart-names :
    (cr d : TenantOverride)
    → same_object cr d ≡ false
    → ¬ ((cr.namespace ≡ d.namespace) × (cr.name ≡ d.name))
apart-names cr d h (same_namespace, same_name) = ground (
  arith,
  h,
  str_eq_iff cr.namespace d.namespace,
  str_eq_iff cr.name d.name,
  same_namespace,
  same_name,
)

module _ (w : Platform) (r : Reconciler) where
  open w use {Cluster, list_overrides, sha256_hex}

  merge_groups-DistinctKeys :
      (groups : Dict (List Override)) (out : Output) (conflicts : Dict (List FieldConflict))
      (s : State Cluster) (out' : Output) (conflicts' : Dict (List FieldConflict))
      → DistinctKeys out
      → Gives w r groups out conflicts s out' conflicts'
      → DistinctKeys out'
  unfolding merge_groups
  merge_groups-DistinctKeys [] out conflicts s out' conflicts' distinct h =
      subst DistinctKeys (some-injective _ _ (ap (value_of (λ m. m.0)) h)) distinct
  merge_groups-DistinctKeys ((tenant, group) ∷ groups) out conflicts s out' conflicts' distinct h =
      elim (Option-cases (tracking_merge tenant (sort_group group))) [
        | inl panic ↦ absurd (
            none-ne-some _ (
              ap (value_of (λ m. m.0))
                (sym (panicking w r tenant group groups out conflicts s panic) ∙ h)))
        | inr (result, merged) ↦ elim (Option-cases (r.validate result.0)) [
          | inl valid ↦
              merge_groups-DistinctKeys groups (insert tenant result.0 out)
                (insert tenant result.1 conflicts) s out' conflicts'
                (insert-DistinctKeys tenant result.0 out distinct)
                (sym (taking w r tenant group groups out conflicts s result merged valid) ∙ h)
          | inr (e, invalid) ↦
              let (s', left) =
                leaving_out w r tenant group groups out conflicts s result e merged invalid in
              merge_groups-DistinctKeys groups out conflicts s' out' conflicts' distinct
                (sym left ∙ h)
        ]
      ]

  valid_of-Permᴰ : {l m : List TenantOverride} → Permᴰ l m → Permᴰ (valid_of w r l) (valid_of w r m)
  valid_of-Permᴰ {l} {m} d =
      rw
        (valid_overrides-eq (map (envelope_of w r) l), valid_overrides-eq (map (envelope_of w r) m))
        (map-Permᴰ (λ (e : Envelope). e.override)
          (keep-Permᴰ is_valid (map-Permᴰ (envelope_of w r) d)))

  names_apart :
      (cr : TenantOverride) (items : List TenantOverride)
      → All (λ d. same_object cr d ≡ false) items
      → All
          (λ (b : Override). ¬ ((cr.namespace ≡ b.namespace) × (cr.name ≡ b.name)))
          (valid_of w r items)
  unfolding envelope_of valid_overrides
  names_apart cr [] h = tt
  names_apart cr (d ∷ items) h = elim (Option-cases (envelope_of w r d).valid_err) [
    | inl valid ↦ rw valid (apart-names cr d h.0, names_apart cr items h.1)
    | inr (e, invalid) ↦ rw invalid (names_apart cr items h.1)
  ]

  valid_of-DistinctNames :
      (items : List TenantOverride) → AreApart items → DistinctNames (valid_of w r items)
  unfolding envelope_of valid_overrides
  valid_of-DistinctNames [] h = tt
  valid_of-DistinctNames (cr ∷ items) h = elim (Option-cases (envelope_of w r cr).valid_err) [
    | inl valid ↦ rw valid (names_apart cr items h.0, valid_of-DistinctNames items h.1)
    | inr (e, invalid) ↦ rw invalid (valid_of-DistinctNames items h.1)
  ]

-- The listings of one set of objects, in any order.
abbrev pub Listing : Type 0
Listing = (items : List TenantOverride) × AreApart items

abbrev pub SameObjects : Listing → Listing → Type 0
SameObjects a b = Permᴰ a.0 b.0

abbrev pub CrSet : Type 0
CrSet = Quot SameObjects

abbrev pub rendered : Result Str → Option Str
rendered (ok body) = some body
rendered (err e) = none

pub OptionStr-IsSet : IsSet (Option Str)
OptionStr-IsSet = hlevel

module _ (w : Platform) (r : Reconciler) where
  pub desired_render-Permᴰ :
      (a b : Listing)
      → Permᴰ a.0 b.0
      → render w (desired_output r.validate (valid_of w r a.0))
        ≡ render w (desired_output r.validate (valid_of w r b.0))
  desired_render-Permᴰ a b d =
      let l = valid_of w r a.0 in
      let m = valid_of w r b.0 in
      render_extensional w (desired_output r.validate l) (desired_output r.validate m)
        (desired_output-DistinctKeys r.validate l) (desired_output-DistinctKeys r.validate m)
        (λ t.
          lookup-desired_output r.validate l t
          ∙ specified-Permᴰ r.validate t l m (valid_of-DistinctNames w r a.0 a.1)
              (valid_of-Permᴰ w r d)
          ∙ sym (lookup-desired_output r.validate m t))

  -- The body that the output ConfigMap is to have, as a function of the set of the CRs.
  unfoldable pub desired_body : CrSet → Option Str
  desired_body =
      Quot.lift OptionStr-IsSet
        (λ a. rendered (render w (desired_output r.validate (valid_of w r a.0))))
        (λ a b d. ap rendered (desired_render-Permᴰ a b d))

  pub desired_body-of_merge :
      (items : List TenantOverride) (apart : AreApart items) (s : State w.Cluster) (out : Output)
      (conflicts : Dict (List FieldConflict)) (body : Str)
      → All IsFlatCr (valid_of w r items)
      → Gives w r (group_by_tenant (valid_of w r items)) [] [] s out conflicts
      → render w out ≡ ok body
      → desired_body (Quot.mk (items, apart)) ≡ some body
  unfolding desired_body
  desired_body-of_merge items apart s out conflicts body flat gives is_body =
      let valid = valid_of w r items in
      ap rendered (
        render_extensional w (desired_output r.validate valid) out
          (desired_output-DistinctKeys r.validate valid)
          (merge_groups-DistinctKeys w r (group_by_tenant valid) [] [] s out conflicts tt gives)
          (λ t.
            lookup-desired_output r.validate valid t
            ∙ sym (merge_groups-specified w r valid s out conflicts flat gives t))
        ∙ is_body)
