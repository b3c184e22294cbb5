-- ===== src/Conflict/Events.antt =====
-- The writes that `TrackingMerge` sees, as a list: each leaf of each CR, in the order of the walk.
-- The loops over CRs and leaves are one fold over that list.
use runtime_overrides_operat.Prelude.{
  Str, Option, none, some, List, [], ◌∷◌, ◌++◌, ◌≡◌, refl, sym, ap, ◌∙◌, fun_ext,
}
use runtime_overrides_operat.Value.{Value, object, Fields, end, field}
use runtime_overrides_operat.Overrides.{Override, CrRef, ref_of}
use runtime_overrides_operat.Merge.{deep_merge}
use runtime_overrides_operat.Conflict.{◌>>=◌, walk_leaves, walk_value, Tracking, visit, track_from}

pub record Event : Type 0 where
  pub ref : CrRef
  pub path : List Str
  pub value : Value

unfoldable mutual
  pub leaves : Fields → List Str → CrRef → List Event
  leaves end prefix ref = []
  leaves (field k v fs) prefix ref = leaves_of v (prefix ++ (k ∷ [])) ref ++ leaves fs prefix ref

  pub leaves_of : Value → List Str → CrRef → List Event
  leaves_of (object m) path ref = leaves m path ref
  leaves_of v path ref = record { ref = ref; path = path; value = v } ∷ []

unfoldable pub events : List Override → List Event
events [] = []
events (cr ∷ crs) = leaves cr.overrides [] (ref_of cr) ++ events crs

-- The fold of the callback over a list of writes.
abbrev pub run {ℓ} : {S : Type ℓ} → (Event → S → Option S) → List Event → S → Option S
run step [] s = some s
run step (e ∷ es) s = step e s >>= run step es

abbrev pub step : Str → Event → Tracking → Option Tracking
step tenant e st = visit tenant e.ref e.path e.value st

>>=_assoc {ℓ κ μ} :
    {A : Type ℓ} {B : Type κ} {C : Type μ} (m : Option A) (f : A → Option B) (g : B → Option C)
    → (m >>= f >>= g) ≡ (m >>= λ a. f a >>= g)
>>=_assoc none f g = refl
>>=_assoc (some a) f g = refl

>>=_some {ℓ} : {A : Type ℓ} (m : Option A) → (m >>= some) ≡ m
>>=_some none = refl
>>=_some (some a) = refl

pub run-append {ℓ} :
    {S : Type ℓ} (f : Event → S → Option S) (xs ys : List Event) (s : S)
    → run f (xs ++ ys) s ≡ (run f xs s >>= run f ys)
run-append f [] ys s = refl
run-append f (x ∷ xs) ys s =
    ap (λ g. f x s >>= g) (fun_ext (run-append f xs ys))
    ∙ sym (>>=_assoc (f x s) (run f xs) (run f ys))

module _ {ℓ} {S : Type ℓ} (f : Event → S → Option S) (ref : CrRef) where
  abbrev callback : List Str → Value → S → Option S
  callback p v s = f (record { ref = ref; path = p; value = v }) s

  mutual
    unfolding walk_leaves leaves

    pub walk_leaves-eq_run :
        (fs : Fields) (prefix : List Str) (s : S)
        → walk_leaves fs prefix callback s ≡ run f (leaves fs prefix ref) s
    walk_leaves-eq_run end prefix s = refl
    walk_leaves-eq_run (field k v fs) prefix s =
        let first = leaves_of v (prefix ++ (k ∷ [])) ref in
        ap (λ m. m >>= λ x. walk_leaves fs prefix callback x)
          (walk_value-eq_run v (prefix ++ (k ∷ [])) s)
        ∙ ap (λ g. run f first s >>= g) (fun_ext (walk_leaves-eq_run fs prefix))
        ∙ sym (run-append f first (leaves fs prefix ref) s)

    walk_value-eq_run :
        (v : Value) (path : List Str) (s : S)
        → walk_value v path callback s ≡ run f (leaves_of v path ref) s
    walk_value-eq_run (object m) path s = walk_leaves-eq_run m path s
    walk_value-eq_run v path s = sym (>>=_some (callback path v s))

-- The merge of all the CRs, in order, into one map.
abbrev pub merge_all : Fields → List Override → Fields
merge_all merged [] = merged
merge_all merged (cr ∷ crs) = merge_all (deep_merge (some merged) cr.overrides) crs

-- The merge does not depend on the tracking, and the tracking is the fold over the writes.
pub track_from-eq_run :
    (tenant : Str) (crs : List Override) (merged : Fields) (st : Tracking)
    → track_from tenant crs merged st
      ≡ (run (step tenant) (events crs) st >>= λ st'. some (merge_all merged crs, st'))
unfolding track_from events
track_from-eq_run tenant [] merged st = refl
track_from-eq_run tenant (cr ∷ crs) merged st =
    let own = leaves cr.overrides [] (ref_of cr) in
    let merged' = deep_merge (some merged) cr.overrides in
    let finish = λ (st' : Tracking). some (merge_all merged' crs, st') in
    ap (λ m. m >>= λ st'. track_from tenant crs merged' st')
      (walk_leaves-eq_run (step tenant) (ref_of cr) cr.overrides [] st)
    ∙ ap (λ g. run (step tenant) own st >>= g) (fun_ext (track_from-eq_run tenant crs merged'))
    ∙ sym (>>=_assoc (run (step tenant) own st) (run (step tenant) (events crs)) finish)
    ∙ ap (λ m. m >>= finish) (sym (run-append (step tenant) own (events crs) st))
