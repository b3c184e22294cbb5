-- ===== src/Merge.antt =====
-- internal/merge/merge.go: the deep merge of freeform override maps. `DeepMerge` writes into `dst`;
-- here it returns the map that `dst` becomes.
pub mod View
pub mod Laws
pub mod Overlay
use runtime_overrides_operat.Prelude.{Str, Option, none, some}
use runtime_overrides_operat.Value.{
  Value, null, bool, number, text, array, object, Items, nil, cons, Fields, end, field, get, put,
}

unfoldable mutual
  pub deep_copy : Value → Value
  deep_copy (object fs) = object (copy_fields end fs)
  deep_copy (array xs) = array (copy_items xs)
  deep_copy v = v

  pub copy_items : Items → Items
  copy_items nil = nil
  copy_items (cons v xs) = cons (deep_copy v) (copy_items xs)

  -- The loop over the entries, `out` being the map built so far.
  pub copy_fields : Fields → Fields → Fields
  copy_fields out end = out
  copy_fields out (field k v fs) = copy_fields (put k (deep_copy v) out) fs

unfoldable mutual
  -- What `dst[k]` becomes, from `src[k]` and what it is (`none` for a missing key).
  pub merge_value : Value → Option Value → Value
  merge_value (object fs) (some (object existing)) = object (merge_fields existing fs)
  merge_value v existing = deep_copy v

  -- The loop over the entries of `src`.
  pub merge_fields : Fields → Fields → Fields
  merge_fields dst end = dst
  merge_fields dst (field k v fs) = merge_fields (put k (merge_value v (get k dst)) dst) fs

-- `none` is the nil map.
unfoldable pub deep_merge : Option Fields → Fields → Fields
unfolding merge_fields
deep_merge none src = merge_fields end src
deep_merge (some dst) src = merge_fields dst src
