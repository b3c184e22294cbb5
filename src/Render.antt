-- ===== src/Render.antt =====
-- internal/render/render.go and `SortedMarshal` of internal/merge/merge.go: the body of an output
-- ConfigMap.
pub mod Laws
pub mod Extensional
use runtime_overrides_operat.Prelude.{
  Str, bytes, List, [], ◌∷◌, Dict, lookup, Option, none, some, compare_str,
}
use runtime_overrides_operat.Value.{Value, object, Fields, end, field, put}
use runtime_overrides_operat.Order.Sort.{sort_stable}
use runtime_overrides_operat.Platform.{Platform, Result, ok, err}

abbrev pub data_key : Str
data_key = bytes "runtime-tenants.yaml"

-- `Output`: tenant to merged overrides.
abbrev pub Output : Type 0
Output = Dict Fields

-- The keys of a map, in the order of its iteration.
unfoldable pub keys {ℓ} : {V : Type ℓ} → Dict V → List Str
keys [] = []
keys ((k, v) ∷ m) = k ∷ keys m

-- `tenants[k]` of a missing key is the nil map, which is encoded as an empty one.
abbrev pub tenant_map : Option Fields → Fields
tenant_map none = end
tenant_map (some fs) = fs

unfoldable pub fill_inner : Output → Fields → List Str → Fields
fill_inner tenants inner [] = inner
fill_inner tenants inner (k ∷ ks) =
    fill_inner tenants (put k (object (tenant_map (lookup k tenants))) inner) ks

unfoldable pub document : Output → Value
unfolding fill_inner keys
document tenants = object (
    field (bytes "overrides")
      (object (fill_inner tenants end (sort_stable compare_str (keys tenants)))) end)

module _ (w : Platform) where
  open w use {encode, close_encoder}

  -- An error of `Encode` is returned after `Close`, whose own error is dropped.
  unfoldable pub sorted_marshal : Value → Result Str
  sorted_marshal v = elim (encode v) [ err e ↦ err e | ok buffer ↦ close_encoder buffer ]

  unfoldable pub render : Output → Result Str
  unfolding sorted_marshal document
  render tenants = sorted_marshal (document tenants)
