-- ===== src/Conflict/Report.antt =====
-- The list that `TrackingMerge` of internal/merge/conflict.go returns: its keys and entries.
use mathlib.Core.Bool.{false≢true}
use mathlib.Core.Option.{some-injective, none-ne-some}
use runtime_overrides_operat.Prelude.{
  Str, str_eq, str_eq_iff, str_eq_refl, Option, none, some, List, [], ◌∷◌, ◌++◌, ◌≡◌, refl, sym, ap,
  subst, ◌∙◌, arith, map, Option-cases, Bool-cases, inl, inr, Bool, true, false, ◌||◌,
  if◌then◌else◌, Dict, lookup,
}
use runtime_overrides_operat.Overrides.{CrRef}
use runtime_overrides_operat.Conflict.{
  >>=-eq_some, FieldConflict, Tracking, WriterInfo, leaf_values_equal, add_conflict, materialize,
  join, remember, no_tracking, record_loss,
}
use runtime_overrides_operat.Conflict.Events.{Event, run, step}
use runtime_overrides_operat.Conflict.Keys.{
  lookup-add_conflict, key_of, writer_of, or_fresh, step-eq, own_write,
}

abbrev pub contains : Str → List Str → Bool
contains k [] = false
contains k (x ∷ xs) = str_eq x k || contains k xs

abbrev pub NoRepeat : List Str → Type 0
NoRepeat [] = Unit
NoRepeat (x ∷ xs) = (contains x xs ≡ false) × NoRepeat xs

abbrev pub is_some {ℓ} : {A : Type ℓ} → Option A → Bool
is_some none = false
is_some (some a) = true

contains-append :
    (k y : Str) (xs : List Str) → contains k (xs ++ (y ∷ [])) ≡ (str_eq y k || contains k xs)
contains-append k y [] = refl
contains-append k y (x ∷ xs) = ground (arith, contains-append k y xs)

NoRepeat-append :
    (y : Str) (xs : List Str) → NoRepeat xs → contains y xs ≡ false → NoRepeat (xs ++ (y ∷ []))
NoRepeat-append y [] h fresh = (refl, tt)
NoRepeat-append y (x ∷ xs) h fresh = (
  rw (contains-append x y xs) (ground (arith, str_eq_iff x y, str_eq_iff y x)),
  NoRepeat-append y xs h.1 (ground arith),
)

-- The three maps agree: the listed keys are those with a conflict, each of them once, and the path
-- in a conflict is one that its key stands for.
pub record IsTracked (st : Tracking) : Type 0 where
  pub listed : (k : Str) → contains k st.path_key_order ≡ is_some (lookup k st.conflicts)
  pub paths : (k : Str) (fc : FieldConflict) → lookup k st.conflicts ≡ some fc → join fc.path ≡ k
  pub unique : NoRepeat st.path_key_order

order-add_conflict :
    (tenant key : Str) (path : List Str) (prior ref : CrRef) (st : Tracking)
    → (add_conflict tenant key path prior ref st).path_key_order ≡ (
        if is_some (lookup key st.conflicts)
        then st.path_key_order
        else st.path_key_order ++ (key ∷ []))
unfolding add_conflict
order-add_conflict tenant key path prior ref st = ground arith

module _ (st : Tracking) (h : IsTracked st) (key : Str) where
  listed_after :
      (k : Str) (fc : FieldConflict) (found : Option FieldConflict)
      → lookup key st.conflicts ≡ found
      → contains k (if is_some found then st.path_key_order else st.path_key_order ++ (key ∷ []))
        ≡ is_some (if str_eq key k then some fc else lookup k st.conflicts)
  listed_after k fc none e =
      rw (contains-append k key st.path_key_order) (ground (arith, h.listed k))
  listed_after k fc (some old) e = ground (arith, h.listed k, str_eq_iff key k)

  unique_after :
      (found : Option FieldConflict)
      → lookup key st.conflicts ≡ found
      → NoRepeat (if is_some found then st.path_key_order else st.path_key_order ++ (key ∷ []))
  unique_after none e = NoRepeat-append key st.path_key_order h.unique (h.listed key ∙ ap is_some e)
  unique_after (some old) e = h.unique

  path_after :
      (tenant : Str) (path : List Str) (found : Option FieldConflict)
      → key ≡ join path
      → lookup key st.conflicts ≡ found
      → join (or_fresh tenant path found).path ≡ key
  path_after tenant path none own e = sym own
  path_after tenant path (some old) own e = h.paths key old e

add_conflict-IsTracked :
    (tenant : Str) (path : List Str) (prior ref : CrRef) (st : Tracking)
    → IsTracked st
    → IsTracked (add_conflict tenant (join path) path prior ref st)
add_conflict-IsTracked tenant path prior ref st h =
    let key = join path in
    let found = lookup key st.conflicts in
    let lost = record_loss prior ref (or_fresh tenant path found) in
    record {
      listed = λ k.
          rw
            (
              order-add_conflict tenant key path prior ref st,
              lookup-add_conflict tenant key path prior ref st k,
            )
            (listed_after st h key k lost found refl);
      paths = λ k fc e. elim (Bool-cases (str_eq key k)) [
        | inl own ↦
            ap (λ (f : FieldConflict). join f.path)
              (sym (
                some-injective lost fc
                  (rw own at (rw (lookup-add_conflict tenant key path prior ref st k) at e))))
            ∙ path_after st h key tenant path found refl refl
            ∙ (str_eq_iff key k).0 own
        | inr other ↦
            h.paths k fc
              (rw other at (rw (lookup-add_conflict tenant key path prior ref st k) at e))
      ];
      unique =
          rw (order-add_conflict tenant key path prior ref st) (unique_after st h key found refl);
    }

remember-IsTracked :
    (key : Str) (w : WriterInfo) (st : Tracking) → IsTracked st → IsTracked (remember key w st)
remember-IsTracked key w st h = record { listed = h.listed; paths = h.paths; unique = h.unique }

own_write-IsTracked :
    (tenant : Str) (e : Event) (st st' : Tracking) (last : Option WriterInfo)
    → own_write tenant e st last ≡ some st'
    → IsTracked st
    → IsTracked st'
own_write-IsTracked tenant e st st' none done h =
    subst IsTracked (some-injective (remember (key_of e) (writer_of e) st) st' done)
      (remember-IsTracked (key_of e) (writer_of e) st h)
own_write-IsTracked tenant e st st' (some prior) done h =
    elim (Option-cases (leaf_values_equal prior.value e.value)) [
      | inl panics ↦ absurd (none-ne-some st' (rw panics at done))
      | inr (same, found) ↦
          subst IsTracked
            (some-injective
              (remember (key_of e) (writer_of e)
                (if same then st else add_conflict tenant (key_of e) e.path prior.ref e.ref st))
              st' (rw found at done))
            (remember-IsTracked (key_of e) (writer_of e) _ (either same))
    ]
  where
    either :
        (same : Bool)
        → IsTracked (if same then st else add_conflict tenant (key_of e) e.path prior.ref e.ref st)
    either true = h
    either false = add_conflict-IsTracked tenant e.path prior.ref e.ref st h

pub run-IsTracked :
    (tenant : Str) (es : List Event) (st st' : Tracking)
    → run (step tenant) es st ≡ some st'
    → IsTracked st
    → IsTracked st'
run-IsTracked tenant [] st st' done h = subst IsTracked (some-injective st st' done) h
run-IsTracked tenant (e ∷ es) st st' done h = elim (Option-cases (step tenant e st)) [
  | inl panics ↦ absurd (none-ne-some st' (rw panics at done))
  | inr (next, found) ↦ run-IsTracked tenant es next st' (rw found at done) (
      own_write-IsTracked tenant e st next (lookup (key_of e) st.provenance)
        (rw (step-eq tenant e st) at found) h)
]

pub no_tracking-IsTracked : IsTracked no_tracking
unfolding lookup
no_tracking-IsTracked = record {
  listed = λ k. refl;
  paths = λ k fc e. absurd (none-ne-some fc e);
  unique = tt;
}

-- The entry of the report for a key.
abbrev pub find : Str → List FieldConflict → Option FieldConflict
find k [] = none
find k (fc ∷ out) = if str_eq (join fc.path) k then some fc else find k out

materialize-cons :
    (j : Str) (ks : List Str) (conflicts : Dict FieldConflict) {out : List FieldConflict}
    → materialize (j ∷ ks) conflicts ≡ some out
    → (fc : FieldConflict) × (rest : List FieldConflict) × (lookup j conflicts ≡ some fc)
      × (materialize ks conflicts ≡ some rest)
      × (out ≡ fc ∷ rest)
unfolding materialize
materialize-cons j ks conflicts {out} h =
    let (fc, found, h') = >>=-eq_some (lookup j conflicts) _ h in
    let (rest, more, e) = >>=-eq_some (materialize ks conflicts) _ h' in
    (fc, rest, found, more, sym (some-injective (fc ∷ rest) out e))

module _ (conflicts : Dict FieldConflict)
    (paths : (j : Str) (fc : FieldConflict) → lookup j conflicts ≡ some fc → join fc.path ≡ j) where
  -- The report lists, under each listed key, what the map of conflicts holds there.
  pub find-materialize :
      (k : Str) (ks : List Str) (out : List FieldConflict)
      → materialize ks conflicts ≡ some out
      → find k out ≡ (if contains k ks then lookup k conflicts else none)
  unfolding materialize
  find-materialize k [] out done = rw (sym (some-injective [] out done)) refl
  find-materialize k (j ∷ ks) out done =
      let (fc, rest, found, more, e) = materialize-cons j ks conflicts done in
      rw (e, paths j fc found)
        (elim (Bool-cases (str_eq j k)) [
          | inl own ↦ rw (own, sym ((str_eq_iff j k).0 own)) (sym found)
          | inr other ↦ rw other (find-materialize k ks rest more)
        ])

  -- The keys of the entries are the listed keys, in their order.
  pub keys-materialize :
      (ks : List Str) (out : List FieldConflict)
      → materialize ks conflicts ≡ some out
      → map (λ fc. join fc.path) out ≡ ks
  unfolding materialize
  keys-materialize [] out done = rw (sym (some-injective [] out done)) refl
  keys-materialize (j ∷ ks) out done =
      let (fc, rest, found, more, e) = materialize-cons j ks conflicts done in
      rw (e, paths j fc found) (ap (◌∷◌ j) (keys-materialize ks rest more))

pub materialize-total :
    (ks : List Str) (conflicts : Dict FieldConflict)
    → ((j : Str) → contains j ks ≡ true → is_some (lookup j conflicts) ≡ true)
    → (out : List FieldConflict) × (materialize ks conflicts ≡ some out)
unfolding materialize
materialize-total [] conflicts h = ([], refl)
materialize-total (j ∷ ks) conflicts h =
    let (rest, more) =
      materialize-total ks conflicts (λ i c. h i (ground (arith, str_eq_refl i))) in
    elim (Option-cases (lookup j conflicts)) [
      | inl missing ↦ absurd (false≢true (rw missing at (h j (ground (arith, str_eq_refl j)))))
      | inr (fc, found) ↦ (fc ∷ rest, rw (found, more) refl)
    ]
