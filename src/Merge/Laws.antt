-- ===== src/Merge/Laws.antt =====
-- internal/merge/merge.go: lemmas on deepCopy and on the keys of a merged map.
use runtime_overrides_operat.Prelude.{
  ◌≢◌, str_eq_refl, Str, str_eq, str_eq_iff, Bool-cases, Option, none, some, inl, inr, ◌≡◌, refl,
  ap, sym, ◌∙◌, arith, Option-cases,
}
use runtime_overrides_operat.Value.{
  Value, null, bool, number, text, array, object, Items, nil, cons, Fields, end, field, get, put,
  get-put, Distinct, DistinctItems, DistinctFields, put-Distinct, get-Distinct,
}
use runtime_overrides_operat.Merge.{deep_copy, copy_items, copy_fields, merge_value, merge_fields}

-- The entries of one map, then those of another.
append : Fields → Fields → Fields
append end gs = gs
append (field k v fs) gs = field k v (append fs gs)

get-append : (k : Str) (fs gs : Fields) → get k (append fs gs) ≡ none → get k fs ≡ none
unfolding append get
get-append k end gs h = refl
get-append k (field j v fs) gs h = ground (arith, get-append k fs gs)

tail_of_append : (out fs : Fields) → DistinctFields (append out fs) → DistinctFields fs
unfolding append
tail_of_append end fs h = h
tail_of_append (field j w out) fs h = tail_of_append out fs h.2

get-append_ne_none :
    (out fs : Fields) (k : Str) (v : Value) → get k (append out (field k v fs)) ≢ none
unfolding append get
get-append_ne_none end fs k v h = ground (arith, str_eq_refl k)
get-append_ne_none (field j w out) fs k v h = ground (arith, get-append_ne_none out fs k v)

-- A key that comes later is not in the map built so far.
fresh_of_append :
    (out fs : Fields) (k : Str) (v : Value)
    → DistinctFields (append out (field k v fs))
    → get k out ≡ none
unfolding append get
fresh_of_append end fs k v h = refl
fresh_of_append (field j w out) fs k v h = elim (Bool-cases (str_eq j k)) [
  | inl same ↦ absurd (get-append_ne_none out fs k v (rw ((str_eq_iff j k).0 same) at h.0))
  | inr other ↦ rw other (fresh_of_append out fs k v h.2)
]

put_fresh :
    (out fs : Fields) (k : Str) (v : Value)
    → get k out ≡ none
    → append (put k v out) fs ≡ append out (field k v fs)
unfolding append get put
put_fresh end fs k v h = refl
put_fresh (field j w out) fs k v h = elim (Bool-cases (str_eq j k)) [
  | inl same ↦ ground arith
  | inr other ↦ rw other (ap (field j w) (put_fresh out fs k v (rw other at h)))
]

append-end : (fs : Fields) → append fs end ≡ fs
unfolding append
append-end end = refl
append-end (field k v fs) = ap (field k v) (append-end fs)

mutual
  unfolding deep_copy append

  pub deep_copy-eq : (v : Value) → Distinct v → deep_copy v ≡ v
  deep_copy-eq null h = refl
  deep_copy-eq (bool b) h = refl
  deep_copy-eq (number n) h = refl
  deep_copy-eq (text s) h = refl
  deep_copy-eq (array xs) h = ap array (copy_items-eq xs h)
  deep_copy-eq (object fs) h = ap object (copy_fields-eq fs end h)

  copy_items-eq : (xs : Items) → DistinctItems xs → copy_items xs ≡ xs
  copy_items-eq nil h = refl
  copy_items-eq (cons v xs) h = cc (deep_copy-eq v h.0, copy_items-eq xs h.1)

  copy_fields-eq :
      (fs out : Fields) → DistinctFields (append out fs) → copy_fields out fs ≡ append out fs
  copy_fields-eq end out h = sym (append-end out)
  copy_fields-eq (field k v fs) out h =
      let tail = tail_of_append out (field k v fs) h in
      let moved = put_fresh out fs k v (fresh_of_append out fs k v h) in
      rw (deep_copy-eq v tail.1) (copy_fields-eq fs (put k v out) (rw moved h) ∙ moved)

copied_Distinct : (v : Value) → Distinct v → Distinct (deep_copy v)
copied_Distinct v h = rw (deep_copy-eq v h) h

abbrev pub DistinctOpt : Option Value → Type 0
DistinctOpt none = Unit
DistinctOpt (some v) = Distinct v

pub get-DistinctOpt : (k : Str) (m : Fields) → DistinctFields m → DistinctOpt (get k m)
get-DistinctOpt k m h = elim (Option-cases (get k m)) [
  | inl missing ↦ rw missing tt
  | inr (v, found) ↦ rw found (get-Distinct k m h found)
]

mutual
  unfolding merge_fields

  merge_value-Distinct :
      (v : Value) (existing : Option Value)
      → DistinctOpt existing
      → Distinct v
      → Distinct (merge_value v existing)
  merge_value-Distinct (object fs) (some (object existing)) he hv =
      merge_fields-Distinct fs existing he hv
  merge_value-Distinct v existing he hv = copied_Distinct v hv

  -- The merge of two maps without repeated keys has none either.
  pub merge_fields-Distinct :
      (src dst : Fields)
      → DistinctFields dst
      → DistinctFields src
      → DistinctFields (merge_fields dst src)
  merge_fields-Distinct end dst hd hs = hd
  merge_fields-Distinct (field k v fs) dst hd hs =
      merge_fields-Distinct fs (put k (merge_value v (get k dst)) dst)
        (put-Distinct k (merge_value v (get k dst)) dst
          (merge_value-Distinct v (get k dst) (get-DistinctOpt k dst hd) hs.1) hd)
        hs.2

abbrev pub merged_entry : Option Value → Option Value → Option Value
merged_entry none existing = existing
merged_entry (some v) existing = some (merge_value v existing)

-- The merged map, key by key.
pub get-merge_fields :
    (k : Str) (src dst : Fields)
    → DistinctFields src
    → get k (merge_fields dst src) ≡ merged_entry (get k src) (get k dst)
unfolding merge_fields get
get-merge_fields k end dst h = refl
get-merge_fields k (field j v fs) dst h =
    let step = get-merge_fields k fs (put j (merge_value v (get j dst)) dst) h.2 in
    step
    ∙ (rw (get-put j k) (elim (Bool-cases (str_eq j k)) [
      | inl same ↦ let e = (str_eq_iff j k).0 same in rw same (rw (rw e at h.0) (rw e))
      | inr other ↦ rw other
    ]))
