-- ===== src/Conflict.antt =====
-- internal/merge/conflict.go: the merge of a tenant's CRs that records which leaves were overridden.
-- A result `none` is a run-time panic.
pub mod Events
pub mod Keys
pub mod Summary
pub mod Report
pub mod Correct
pub mod Panics
pub mod Agreement
use mathlib.Core.Option.{none-ne-some}
use runtime_overrides_operat.Prelude.{
  ◌≡◌, refl, Str, str_eq, ℕ, zero, suc, ◌==◌, Bool, true, false, ◌||◌, Option, none, some, List, [],
  ◌∷◌, ◌++◌, ℤ, pos, eqb_ℤ, Dict, lookup, insert, if◌then◌else◌,
}
use runtime_overrides_operat.Value.{
  Value, null, bool, number, text, array, object, Items, nil, cons, Fields, end, field, float_eq,
}
use runtime_overrides_operat.Overrides.{Override, CrRef, ref_of}
use runtime_overrides_operat.Merge.{deep_merge}

infixl 5 ◌>>=◌
abbrev pub ◌>>=◌ {ℓ κ} : {A : Type ℓ} {B : Type κ} → Option A → (A → Option B) → Option B
none >>= f = none
some a >>= f = f a

-- Both parts of a chain that returns have returned.
pub >>=-eq_some {ℓ κ} :
    {A : Type ℓ} {B : Type κ} (m : Option A) (f : A → Option B) {b : B}
    → (m >>= f) ≡ some b
    → (a : A) × (m ≡ some a) × (f a ≡ some b)
>>=-eq_some none f h = absurd (none-ne-some _ h)
>>=-eq_some (some a) f h = (a, refl, h)

pub record FieldConflict : Type 0 where
  pub tenant : Str
  pub path : List Str
  pub winner : CrRef
  pub losers : List CrRef
  pub same_weight : Bool

pub record WriterInfo : Type 0 where
  pub ref : CrRef
  pub value : Value

abbrev pub bool_eq : Bool → Bool → Bool
bool_eq true b = b
bool_eq false true = false
bool_eq false false = true

abbrev pub count_items : Items → ℕ
count_items nil = 0
count_items (cons v xs) = suc (count_items xs)

-- Go on comparing after an equal pair; stop at the first difference.
abbrev pub and_then : Option Bool → Option Bool → Option Bool
and_then none r = none
and_then (some false) r = some false
and_then (some true) r = r

-- `a == b` on interfaces panics if both hold maps; two values of different types are unequal.
unfoldable mutual
  pub leaf_values_equal : Value → Value → Option Bool
  leaf_values_equal (array xs) (array ys) =
      let rest = items_equal xs ys in if count_items xs == count_items ys then rest else some false
  leaf_values_equal (object fs) (object gs) = none
  leaf_values_equal null null = some true
  leaf_values_equal (bool a) (bool b) = some (bool_eq a b)
  leaf_values_equal (number a) (number b) = some (float_eq a b)
  leaf_values_equal (text a) (text b) = some (str_eq a b)
  leaf_values_equal a b = some false

  pub items_equal : Items → Items → Option Bool
  items_equal (cons x xs) (cons y ys) = and_then (leaf_values_equal x y) (items_equal xs ys)
  items_equal xs ys = some true

-- `strings.Join(path, "\x00")`.
unfoldable pub join : List Str → Str
join [] = []
join (s ∷ []) = s
join (s ∷ t ∷ ss) = s ++ (0 ∷ join (t ∷ ss))

-- The callback's effects are those on the state `s`.
unfoldable mutual
  pub walk_leaves {ℓ} :
      {S : Type ℓ} → Fields → List Str → (List Str → Value → S → Option S) → S → Option S
  walk_leaves end prefix fn s = some s
  walk_leaves (field k v fs) prefix fn s =
      walk_value v (prefix ++ (k ∷ [])) fn s >>= walk_leaves fs prefix fn

  pub walk_value {ℓ} :
      {S : Type ℓ} → Value → List Str → (List Str → Value → S → Option S) → S → Option S
  walk_value (object m) path fn s = walk_leaves m path fn s
  walk_value v path fn s = fn path v s

-- The local maps of `TrackingMerge`.
pub record Tracking : Type 0 where
  pub provenance : Dict WriterInfo
  pub conflicts : Dict FieldConflict
  pub path_key_order : List Str

abbrev pub no_ref : CrRef
no_ref = record { namespace = []; name = []; weight = pos 0 }

-- A FieldConflict as it is allocated, with Go's zero values.
abbrev pub fresh_conflict : Str → List Str → FieldConflict
fresh_conflict tenant path = record {
  tenant = tenant;
  path = path;
  winner = no_ref;
  losers = [];
  same_weight = false;
}

abbrev pub record_loss : CrRef → CrRef → FieldConflict → FieldConflict
record_loss prior ref fc = record {
  tenant = fc.tenant;
  path = fc.path;
  winner = ref;
  losers = fc.losers ++ (prior ∷ []);
  same_weight = eqb_ℤ prior.weight ref.weight || fc.same_weight;
}

-- The conflict of a key is found, or allocated and its key listed, and then written to.
unfoldable pub add_conflict : Str → Str → List Str → CrRef → CrRef → Tracking → Tracking
add_conflict tenant key path prior ref st = elim (lookup key st.conflicts) [
  | none ↦ record st {
    conflicts = insert key (record_loss prior ref (fresh_conflict tenant path)) st.conflicts;
    path_key_order = st.path_key_order ++ (key ∷ []);
  }
  | some fc ↦ record st { conflicts = insert key (record_loss prior ref fc) st.conflicts }
]

abbrev pub remember : Str → WriterInfo → Tracking → Tracking
remember key w st = record st { provenance = insert key w st.provenance }

-- The callback that `TrackingMerge` passes to `walkLeaves`.
unfoldable pub visit : Str → CrRef → List Str → Value → Tracking → Option Tracking
unfolding add_conflict
visit tenant ref path value st =
    let key = join path in
    let writer : WriterInfo = record { ref = ref; value = value } in
    elim (lookup key st.provenance) [
      | none ↦ some (remember key writer st)
      | some prior ↦ leaf_values_equal prior.value value >>= λ same.
          some (
            remember key writer
              (if same then st else add_conflict tenant key path prior.ref ref st))
    ]

-- The loop over the CRs.
unfoldable pub track_from : Str → List Override → Fields → Tracking → Option (Fields × Tracking)
track_from tenant [] merged st = some (merged, st)
track_from tenant (cr ∷ crs) merged st =
    walk_leaves cr.overrides [] (visit tenant (ref_of cr)) st >>= λ st'.
    track_from tenant crs (deep_merge (some merged) cr.overrides) st'

-- `*conflicts[k]` for each key in the order of insertion; a missing key is a nil dereference.
unfoldable pub materialize : List Str → Dict FieldConflict → Option (List FieldConflict)
materialize [] conflicts = some []
materialize (k ∷ ks) conflicts =
    lookup k conflicts >>= λ fc. materialize ks conflicts >>= λ rest. some (fc ∷ rest)

abbrev pub no_tracking : Tracking
no_tracking = record { provenance = []; conflicts = []; path_key_order = [] }

unfoldable pub tracking_merge : Str → List Override → Option (Fields × List FieldConflict)
unfolding track_from materialize
tracking_merge tenant sorted = track_from tenant sorted end no_tracking >>= λ result.
    materialize result.1.path_key_order result.1.conflicts >>= λ out. some (result.0, out)
