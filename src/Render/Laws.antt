-- ===== src/Render/Laws.antt =====
-- `Render` of internal/render/render.go and the order in which a map of tenants is iterated.
use mathlib.Core.List.{Permᴰ}
use runtime_overrides_operat.Prelude.{
  Str, compare_str, Ordering, List, [], ◌∷◌, ◌≡◌, ◌≢◌, refl, lookup, All,
}
use runtime_overrides_operat.Value.{Fields, end, object, put}
use runtime_overrides_operat.Order.Text.{compare_str-IsOrder, compare_str_eq}
use runtime_overrides_operat.Order.Sort.{Apart, sort_stable, sort_stable-order_free}
use runtime_overrides_operat.Platform.{Platform}
use runtime_overrides_operat.Render.{Output, keys, fill_inner, document, render, tenant_map}

-- No key is listed twice.
abbrev pub AreDistinct : List Str → Type 0
AreDistinct [] = Unit
AreDistinct (k ∷ ks) = All (λ j. k ≢ j) ks × AreDistinct ks

apart_from :
    (k : Str) (ks : List Str) → All (λ j. k ≢ j) ks → All (λ j. compare_str k j ≢ Ordering.eq) ks
apart_from k [] h = tt
apart_from k (j ∷ ks) h = (λ e. h.0 (compare_str_eq k j e), apart_from k ks h.1)

AreDistinct-Apart : (ks : List Str) → AreDistinct ks → Apart compare_str ks
AreDistinct-Apart [] h = tt
AreDistinct-Apart (k ∷ ks) h = (apart_from k ks h.0, AreDistinct-Apart ks h.1)

fill_inner-eq :
    (tenants other : Output) (inner : Fields) (ks : List Str)
    → ((k : Str) → lookup k tenants ≡ lookup k other)
    → fill_inner tenants inner ks ≡ fill_inner other inner ks
unfolding fill_inner
fill_inner-eq tenants other inner [] same = refl
fill_inner-eq tenants other inner (k ∷ ks) same =
    rw (same k)
      (fill_inner-eq tenants other (put k (object (tenant_map (lookup k other))) inner) ks same)

-- Two iteration orders of one map, which holds no key twice, are rendered into the same body, or
-- into the same error.
pub render_order_free :
    (w : Platform) (tenants other : Output)
    → AreDistinct (keys tenants)
    → Permᴰ (keys tenants) (keys other)
    → ((k : Str) → lookup k tenants ≡ lookup k other)
    → render w tenants ≡ render w other
unfolding render document
render_order_free w tenants other distinct p same =
    rw
      (
        sort_stable-order_free compare_str-IsOrder p (AreDistinct-Apart (keys tenants) distinct),
        fill_inner-eq tenants other end (sort_stable compare_str (keys other)) same,
      )
      refl
