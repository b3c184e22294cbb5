-- ===== src/Conflict/Panics.antt =====
-- When `TrackingMerge` of internal/merge/conflict.go returns and when it panics.
use mathlib.Core.Option.{some-injective, none-ne-some}
use runtime_overrides_operat.Prelude.{
  ◌==◌, Str, str_eq_refl, Option, none, some, List, [], ◌∷◌, ◌≡◌, refl, sym, ap, ◌∙◌, arith, All,
  insert, lookup, lookup-insert, inl, inr, Bool-cases, Bool, true, false, if◌then◌else◌, str_eq,
  subst,
}
use runtime_overrides_operat.Value.{
  Value, null, bool, number, text, array, object, Items, nil, cons, Fields, end, field,
}
use runtime_overrides_operat.Overrides.{Override}
use runtime_overrides_operat.Conflict.{
  walk_leaves, visit, join, FieldConflict, Tracking, WriterInfo, tracking_merge, leaf_values_equal,
  items_equal, count_items, and_then, no_tracking, remember, add_conflict,
}
use runtime_overrides_operat.Conflict.Events.{
  Event, run, step, events, merge_all, track_from-eq_run,
}
use runtime_overrides_operat.Conflict.Keys.{
  key_of, writer_of, own_write, step-eq, provenance-add_conflict,
}
use runtime_overrides_operat.Conflict.Report.{
  run-IsTracked, no_tracking-IsTracked, materialize-total,
}

-- A leaf that holds no map.
abbrev mutual
  pub Flat : Value → Type 0
  Flat null = Unit
  Flat (bool b) = Unit
  Flat (number n) = Unit
  Flat (text s) = Unit
  Flat (array xs) = FlatItems xs
  Flat (object fs) = ⊥

  pub FlatItems : Items → Type 0
  FlatItems nil = Unit
  FlatItems (cons v xs) = Flat v × FlatItems xs

and_then-total :
    (a r : Option Bool)
    → (b : Bool) × (a ≡ some b)
    → (b : Bool) × (r ≡ some b)
    → (b : Bool) × (and_then a r ≡ some b)
and_then-total none r (b, h) k = absurd (none-ne-some b h)
and_then-total (some true) r h k = k
and_then-total (some false) r h k = (false, refl)

if-total :
    (c : Bool) (r : Option Bool)
    → (b : Bool) × (r ≡ some b)
    → (b : Bool) × ((if c then r else some false) ≡ some b)
if-total true r h = h
if-total false r h = (false, refl)

mutual
  unfolding leaf_values_equal

  leaf_values_equal-total : (a b : Value) → Flat a → (r : Bool) × (leaf_values_equal a b ≡ some r)
  leaf_values_equal-total (array xs) (array ys) h =
      if-total (count_items xs == count_items ys) (items_equal xs ys) (items_equal-total xs ys h)
  leaf_values_equal-total (object fs) b h = absurd h
  leaf_values_equal-total null null h = (true, refl)
  leaf_values_equal-total (bool a) (bool b) h = (_, refl)
  leaf_values_equal-total (number a) (number b) h = (_, refl)
  leaf_values_equal-total (text a) (text b) h = (_, refl)
  leaf_values_equal-total a b h = (false, refl)

  items_equal-total : (xs ys : Items) → FlatItems xs → (r : Bool) × (items_equal xs ys ≡ some r)
  items_equal-total (cons x xs) (cons y ys) h =
      and_then-total (leaf_values_equal x y) (items_equal xs ys) (leaf_values_equal-total x y h.0)
        (items_equal-total xs ys h.1)
  items_equal-total xs ys h = (true, refl)

-- Every remembered value is flat.
abbrev Remembers : Tracking → Type 0
Remembers st = (k : Str) (w : WriterInfo) → lookup k st.provenance ≡ some w → Flat w.value

Remembers-remember :
    (key : Str) (w : WriterInfo) (st : Tracking)
    → Flat w.value
    → Remembers st
    → Remembers (remember key w st)
Remembers-remember key w st flat h k v e = elim (Bool-cases (str_eq key k)) [
  | inl own ↦
      subst (λ (x : WriterInfo). Flat x.value)
        (some-injective w v (rw own at (rw (lookup-insert key k w st.provenance) at e))) flat
  | inr other ↦ h k v (rw other at (rw (lookup-insert key k w st.provenance) at e))
]

-- A write of a flat value does not panic, and is remembered.
abbrev Goes : Str → Event → Tracking → Type 0
Goes tenant e st = (st' : Tracking) × (step tenant e st ≡ some st') × Remembers st'

step-total :
    (tenant : Str) (e : Event) (st : Tracking) (last : Option WriterInfo)
    → lookup (key_of e) st.provenance ≡ last
    → Flat e.value
    → Remembers st
    → Goes tenant e st
step-total tenant e st none found flat h = (
  remember (key_of e) (writer_of e) st,
  step-eq tenant e st ∙ ap (own_write tenant e st) found,
  Remembers-remember (key_of e) (writer_of e) st flat h,
)
step-total tenant e st (some prior) found flat h =
    let (same, compared) = leaf_values_equal-total prior.value e.value (h (key_of e) prior found) in
    (
      remember (key_of e) (writer_of e) (next same),
      step-eq tenant e st ∙ ap (own_write tenant e st) found ∙ rw compared refl,
      Remembers-remember (key_of e) (writer_of e) (next same) flat (next-Remembers same),
    )
  where
    next : Bool → Tracking
    next same = if same then st else add_conflict tenant (key_of e) e.path prior.ref e.ref st

    next-Remembers : (same : Bool) → Remembers (next same)
    next-Remembers true = h
    next-Remembers false = rw (provenance-add_conflict tenant) h

run-total :
    (tenant : Str) (es : List Event) (st : Tracking)
    → All (λ e. Flat e.value) es
    → Remembers st
    → (st' : Tracking) × (run (step tenant) es st ≡ some st')
run-total tenant [] st flat h = (st, refl)
run-total tenant (e ∷ es) st flat h =
    let (next, stepped, h') =
      step-total tenant e st (lookup (key_of e) st.provenance) refl flat.0 h in
    let (st', ran) = run-total tenant es next flat.1 h' in (st', rw stepped ran)

-- Where no array of the CRs holds a map at any depth, `TrackingMerge` returns, with the merge of
-- the CRs.
pub tracking_merge-total :
    (tenant : Str) (crs : List Override)
    → All (λ e. Flat e.value) (events crs)
    → (out : List FieldConflict) × (tracking_merge tenant crs ≡ some (merge_all end crs, out))
unfolding tracking_merge lookup
tracking_merge-total tenant crs flat =
    let (st, ran) =
      run-total tenant (events crs) no_tracking flat (λ k w e. absurd (none-ne-some w e)) in
    let tracked = run-IsTracked tenant (events crs) no_tracking st ran no_tracking-IsTracked in
    let (out, listed) =
      materialize-total st.path_key_order st.conflicts (λ j c. sym (tracked.listed j) ∙ c) in
    (out, rw (track_from-eq_run tenant crs end no_tracking, ran, listed) refl)

maps_panic :
    (m m' : Fields) (xs ys : Items)
    → count_items xs ≡ count_items ys
    → leaf_values_equal (array (cons (object m) xs)) (array (cons (object m') ys)) ≡ none
unfolding leaf_values_equal
maps_panic m m' xs ys same = ground arith

-- The merge of two CRs of a tenant, whose overrides have exactly one key each, the same, and at it
-- arrays of equal length that both begin with a map, panics, also where the arrays are equal.
pub tracking_merge-maps_panic :
    (tenant : Str) (a b : Override) (k : Str) (m m' : Fields) (xs ys : Items)
    → a.overrides ≡ field k (array (cons (object m) xs)) end
    → b.overrides ≡ field k (array (cons (object m') ys)) end
    → count_items xs ≡ count_items ys
    → tracking_merge tenant (a ∷ b ∷ []) ≡ none
unfolding tracking_merge walk_leaves visit lookup insert join str_eq
tracking_merge-maps_panic tenant a b k m m' xs ys ha hb same =
    rw (ha, hb, str_eq_refl k, maps_panic m m' xs ys same) refl
