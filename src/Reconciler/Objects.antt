-- ===== src/Reconciler/Objects.antt =====
-- The objects that listed CRs stand for.
use runtime_overrides_operat.Prelude.{str_eq, Bool, false, ◌&&◌, List, [], ◌∷◌, ◌≡◌, All}
use runtime_overrides_operat.Api.{TenantOverride}

-- Two CRs are one object of the API.
abbrev pub same_object : TenantOverride → TenantOverride → Bool
same_object a b = str_eq a.namespace b.namespace && str_eq a.name b.name

-- No two CRs are one object.
abbrev pub AreApart : List TenantOverride → Type 0
AreApart [] = Unit
AreApart (cr ∷ crs) = All (λ d. same_object cr d ≡ false) crs × AreApart crs
