-- ===== src/Overrides/Grouping.antt =====
-- `GroupByTenant` of internal/merge/group.go: the entry of a tenant.
use runtime_overrides_operat.Prelude.{
  Str, str_eq, str_eq_iff, Dict, lookup, insert, lookup-insert, List, [], ◌∷◌, ◌++◌, Option, none,
  some, ◌≡◌, refl, sym, ap, ◌∙◌, arith, keep, append_assoc, append-nil, Bool-cases, inl, inr,
  if◌then◌else◌,
}
use runtime_overrides_operat.Overrides.{Override, or_nil, group_from, group_by_tenant}

abbrev pub of_tenant : Str → List Override → List Override
of_tenant t = keep (λ cr. str_eq cr.tenant_id t)

-- A map of slices has no entry for a tenant with no CR.
abbrev pub nonempty {ℓ} : {A : Type ℓ} → List A → Option (List A)
nonempty [] = none
nonempty (x ∷ xs) = some (x ∷ xs)

or_nil-nonempty {ℓ} : {A : Type ℓ} (l : List A) → or_nil (nonempty l) ≡ l
or_nil-nonempty [] = refl
or_nil-nonempty (x ∷ xs) = refl

nonempty-append {ℓ} :
    {A : Type ℓ} (l : List A) (x : A) → nonempty (l ++ (x ∷ [])) ≡ some (l ++ (x ∷ []))
nonempty-append [] x = refl
nonempty-append (y ∷ l) x = refl

-- What the loop puts at a tenant.
lookup-appended :
    (t : Str) (cr : Override) (seen : List Override) (out : Dict (List Override))
    → lookup t out ≡ nonempty seen
    → lookup t (insert cr.tenant_id (or_nil (lookup cr.tenant_id out) ++ (cr ∷ [])) out)
      ≡ nonempty (if str_eq cr.tenant_id t then seen ++ (cr ∷ []) else seen)
lookup-appended t cr seen out h =
    lookup-insert cr.tenant_id t (or_nil (lookup cr.tenant_id out) ++ (cr ∷ [])) out
    ∙ elim (Bool-cases (str_eq cr.tenant_id t)) [
      | inl own ↦ rw own (
          ap (λ k. some (or_nil (lookup k out) ++ (cr ∷ []))) ((str_eq_iff cr.tenant_id t).0 own)
          ∙ rw (h, or_nil-nonempty seen) (sym (nonempty-append seen cr)))
      | inr other ↦ rw other h
    ]

lookup-group_from :
    (t : Str) (crs seen : List Override) (out : Dict (List Override))
    → lookup t out ≡ nonempty seen
    → lookup t (group_from out crs) ≡ nonempty (seen ++ of_tenant t crs)
unfolding group_from
lookup-group_from t [] seen out h = h ∙ ap nonempty (sym (append-nil seen))
lookup-group_from t (cr ∷ crs) seen out h =
    lookup-group_from t crs (if str_eq cr.tenant_id t then seen ++ (cr ∷ []) else seen)
      (insert cr.tenant_id (or_nil (lookup cr.tenant_id out) ++ (cr ∷ [])) out)
      (lookup-appended t cr seen out h)
    ∙ ap nonempty (ground (arith, append_assoc seen (cr ∷ []) (of_tenant t crs)))

-- The entry of a tenant is the list of its CRs in the order of the input, and there is an entry
-- only if there is a CR.
pub lookup-group_by_tenant :
    (crs : List Override) (t : Str) → lookup t (group_by_tenant crs) ≡ nonempty (of_tenant t crs)
unfolding group_by_tenant lookup
lookup-group_by_tenant crs t = lookup-group_from t crs [] [] refl
