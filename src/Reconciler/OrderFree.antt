-- ===== src/Reconciler/OrderFree.antt =====
-- The merge loop of `Reconcile` and the order in which the API lists the CRs.
use mathlib.Core.List.{Permᴰ}
use runtime_overrides_operat.Prelude.{
  Str, str_eq, Option, none, List, [], ◌∷◌, ◌≡◌, refl, sym, ap, ◌∙◌, Dict, lookup, All, keep, Bool,
  Bool-cases, inl, inr, true, false, if◌then◌else◌,
}
use runtime_overrides_operat.Overrides.{Override, sort_group, group_by_tenant}
use runtime_overrides_operat.Overrides.Grouping.{of_tenant, nonempty}
use runtime_overrides_operat.Overrides.Sorting.{DistinctNames, sort_group-order_free}
use runtime_overrides_operat.Conflict.{FieldConflict, tracking_merge}
use runtime_overrides_operat.Value.{Fields}
use runtime_overrides_operat.Platform.{Platform, Error}
use runtime_overrides_operat.Proc.{State}
use runtime_overrides_operat.Render.{Output}
use runtime_overrides_operat.Reconciler.Gather.{Reconciler}
use runtime_overrides_operat.Reconciler.Isolation.{
  tenant_result, check_merged, put_over, overrides_of, conflicts_of, Gives, merge_groups-lookup,
}

abbrev pub is_nil {ℓ} : {A : Type ℓ} → List A → Bool
is_nil [] = true
is_nil (x ∷ l) = false

pub All-keep {ℓ} :
    {A : Type ℓ} (P : A → Type 0) (p : A → Bool) (l : List A) → All P l → All P (keep p l)
All-keep P p [] h = tt
All-keep P p (x ∷ l) h = elim (Bool-cases (p x)) [
  | inl kept ↦ rw kept (h.0, All-keep P p l h.1)
  | inr dropped ↦ rw dropped (All-keep P p l h.1)
]

pub keep-DistinctNames :
    (p : Override → Bool) (l : List Override) → DistinctNames l → DistinctNames (keep p l)
keep-DistinctNames p [] h = tt
keep-DistinctNames p (a ∷ l) h = elim (Bool-cases (p a)) [
  | inl kept ↦ rw kept (All-keep _ p l h.0, keep-DistinctNames p l h.1)
  | inr dropped ↦ rw dropped (keep-DistinctNames p l h.1)
]

Permᴰ-refl {ℓ} : {A : Type ℓ} (l : List A) → Permᴰ l l
Permᴰ-refl [] = Permᴰ.nil
Permᴰ-refl (x ∷ l) = Permᴰ.cons refl (Permᴰ-refl l)

cons_if-Permᴰ {ℓ} :
    {A : Type ℓ} (c : Bool) {a b : A} {l r : List A}
    → a ≡ b
    → Permᴰ l r
    → Permᴰ (if c then a ∷ l else l) (if c then b ∷ r else r)
cons_if-Permᴰ true e d = Permᴰ.cons e d
cons_if-Permᴰ false e d = d

swap_if-Permᴰ {ℓ} :
    {A : Type ℓ} (c d : Bool) {a b a' b' : A} (l : List A)
    → a ≡ b'
    → b ≡ a'
    → let tail = if d then b ∷ l else l in
      let tail' = if c then b' ∷ l else l in
      Permᴰ (if c then a ∷ tail else tail) (if d then a' ∷ tail' else tail')
swap_if-Permᴰ true true l e f = Permᴰ.swap e f
swap_if-Permᴰ true false l e f = Permᴰ.cons e (Permᴰ-refl l)
swap_if-Permᴰ false true l e f = Permᴰ.cons f (Permᴰ-refl l)
swap_if-Permᴰ false false l e f = Permᴰ-refl l

pub keep-Permᴰ {ℓ} :
    {A : Type ℓ} (p : A → Bool) {l r : List A} → Permᴰ l r → Permᴰ (keep p l) (keep p r)
keep-Permᴰ p Permᴰ.nil = Permᴰ.nil
keep-Permᴰ p (Permᴰ.cons {a = a} {l₁ = l} {l₂ = r} e d) =
    rw (← (ap p e)) (cons_if-Permᴰ (p a) e (keep-Permᴰ p d))
keep-Permᴰ p (Permᴰ.swap {a = a} {b = b} {l = l} e f) =
    rw (← (ap p e), ← (ap p f)) (swap_if-Permᴰ (p a) (p b) (keep p l) e f)
keep-Permᴰ p (Permᴰ.trans d e) = Permᴰ.trans (keep-Permᴰ p d) (keep-Permᴰ p e)

sorted_nonempty :
    (validate : Fields → Option Error) (t : Str) (crs : List Override)
    → tenant_result validate t (nonempty crs)
      ≡ (if is_nil crs then none else check_merged validate (tracking_merge t (sort_group crs)))
unfolding tenant_result
sorted_nonempty validate t [] = refl
sorted_nonempty validate t (cr ∷ crs) = refl

pub is_nil-Permᴰ : {l r : List Override} → Permᴰ l r → is_nil l ≡ is_nil r
is_nil-Permᴰ Permᴰ.nil = refl
is_nil-Permᴰ (Permᴰ.cons e d) = refl
is_nil-Permᴰ (Permᴰ.swap e f) = refl
is_nil-Permᴰ (Permᴰ.trans d e) = is_nil-Permᴰ d ∙ is_nil-Permᴰ e

tenant_result-Permᴰ :
    (validate : Fields → Option Error) (t : Str) (l r : List Override)
    → DistinctNames l
    → Permᴰ l r
    → tenant_result validate t (nonempty (of_tenant t l))
      ≡ tenant_result validate t (nonempty (of_tenant t r))
tenant_result-Permᴰ validate t l r h d =
    let same = keep-Permᴰ (λ cr. str_eq cr.tenant_id t) d in
    rw
      (
        sorted_nonempty validate t (of_tenant t l),
        sorted_nonempty validate t (of_tenant t r),
        is_nil-Permᴰ same,
        sort_group-order_free (of_tenant t l) (of_tenant t r)
            (keep-DistinctNames (λ cr. str_eq cr.tenant_id t) l h) same,
      )
      refl

-- Two passes over the same valid CRs, listed in different orders and from any states, put the same
-- overrides and the same conflicts at each tenant. No two CRs share namespace and name.
pub merge_groups-order_free :
    (w : Platform) (r : Reconciler) (valid listed : List Override) (s s' : State w.Cluster)
    (out out' : Output) (conflicts conflicts' : Dict (List FieldConflict))
    → DistinctNames valid
    → Permᴰ valid listed
    → Gives w r (group_by_tenant valid) [] [] s out conflicts
    → Gives w r (group_by_tenant listed) [] [] s' out' conflicts'
    → (t : Str) → (lookup t out ≡ lookup t out') × (lookup t conflicts ≡ lookup t conflicts')
merge_groups-order_free w r valid listed s s' out out' conflicts conflicts' distinct d h h' t =
    let this = merge_groups-lookup w r t valid s out conflicts h in
    let other = merge_groups-lookup w r t listed s' out' conflicts' h' in
    let same = tenant_result-Permᴰ r.validate t valid listed distinct d in
    (
      this.0 ∙ ap (λ x. put_over overrides_of x none) same ∙ sym other.0,
      this.1 ∙ ap (λ x. put_over conflicts_of x none) same ∙ sym other.1,
    )
