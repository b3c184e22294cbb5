-- ===== src/Conflict/Correct.antt =====
-- What `TrackingMerge` of internal/merge/conflict.go returns: the merged map and the report.
use mathlib.Core.Option.{some-injective}
use runtime_overrides_operat.Prelude.{
  Str, Option, none, some, List, [], ◌∷◌, ◌≡◌, refl, sym, ap, ◌∙◌, map, All, Bool, if◌then◌else◌,
  lookup,
}
use runtime_overrides_operat.Value.{Fields, end, object, DistinctFields}
use runtime_overrides_operat.Overrides.{Override}
use runtime_overrides_operat.Merge.{deep_merge}
use runtime_overrides_operat.Merge.View.{Node, observe, blocked, overlay}
use runtime_overrides_operat.Merge.Overlay.{deep_merge-overlay}
use runtime_overrides_operat.Conflict.{
  >>=-eq_some, FieldConflict, Tracking, track_from, materialize, tracking_merge, join, no_tracking,
}
use runtime_overrides_operat.Conflict.Events.{run, step, events, merge_all, track_from-eq_run}
use runtime_overrides_operat.Conflict.Keys.{at_key, at_key-run}
use runtime_overrides_operat.Conflict.Summary.{writes_at, conflict_at, run-conflict_at}
use runtime_overrides_operat.Conflict.Report.{
  run-IsTracked, no_tracking-IsTracked, find, find-materialize, keys-materialize, NoRepeat, is_some,
}

-- A return of `tracking_merge`, taken apart.
record Returned (tenant : Str) (crs : List Override) (merged : Fields) (out : List FieldConflict)
    : Type 0 where
  st : Tracking
  merged_eq : merged ≡ merge_all end crs
  ran : run (step tenant) (events crs) no_tracking ≡ some st
  listed : materialize st.path_key_order st.conflicts ≡ some out

returned :
    (tenant : Str) (crs : List Override) {merged : Fields} {out : List FieldConflict}
    → tracking_merge tenant crs ≡ some (merged, out)
    → Returned tenant crs merged out
unfolding tracking_merge
returned tenant crs {merged} {out} h =
    let (result, tracked, h') = >>=-eq_some (track_from tenant crs end no_tracking) _ h in
    let (reported, listed, e) =
      >>=-eq_some (materialize result.1.path_key_order result.1.conflicts) _ h' in
    let (st, ran, e') =
      >>=-eq_some (run (step tenant) (events crs) no_tracking) _
        (sym (track_from-eq_run tenant crs end no_tracking) ∙ tracked) in
    let tracked_pair = some-injective (merge_all end crs, st) result e' in
    let output_pair = some-injective (result.0, reported) (merged, out) e in
    record {
      st = st;
      merged_eq =
          sym (ap (λ (r : Fields × List FieldConflict). r.0) output_pair)
          ∙ sym (ap (λ (r : Fields × Tracking). r.0) tracked_pair);
      ran = ran;
      listed =
          ap (λ (r : Fields × Tracking). materialize r.1.path_key_order r.1.conflicts) tracked_pair
          ∙ listed
          ∙ ap (λ (r : Fields × List FieldConflict). some r.1) output_pair;
    }

-- What the CRs say of a path, each over what the earlier ones say.
pub layers : List Str → Node → List Override → Node
layers p n [] = n
layers p n (cr ∷ crs) =
    layers p (overlay (observe p (object cr.overrides)) (blocked p (object cr.overrides)) n) crs

observe-merge_all :
    (p : List Str) (merged : Fields) (crs : List Override)
    → All (λ cr. DistinctFields cr.overrides) crs
    → observe p (object (merge_all merged crs)) ≡ layers p (observe p (object merged)) crs
unfolding layers
observe-merge_all p merged [] h = refl
observe-merge_all p merged (cr ∷ crs) h =
    observe-merge_all p (deep_merge (some merged) cr.overrides) crs h.1
    ∙ ap (λ n. layers p n crs) (deep_merge-overlay (some merged) cr.overrides p h.0)

-- At every path the merged map holds what the last CR in the order says that says anything there,
-- a leaf hiding all that earlier CRs hold below it. No CR lists a key twice.
pub tracking_merge-layers :
    (tenant : Str) (crs : List Override) (merged : Fields) (out : List FieldConflict) (p : List Str)
    → All (λ cr. DistinctFields cr.overrides) crs
    → tracking_merge tenant crs ≡ some (merged, out)
    → observe p (object merged) ≡ layers p (observe p (object end)) crs
tracking_merge-layers tenant crs merged out p h done =
    rw ((returned tenant crs done).merged_eq) (observe-merge_all p end crs h)

listed_or_none {ℓ} :
    {A : Type ℓ} (b : Bool) (o : Option A) → b ≡ is_some o → (if b then o else none) ≡ o
listed_or_none b none h = rw h refl
listed_or_none b (some a) h = rw h refl

-- The entry that the report has for a path key, if any, is the summary of the writes at that key:
-- its losers are the writers overruled by the next writer of the key, its winner is the writer that
-- overruled last, and `same_weight` says whether some overruling pair had one weight. There is no
-- entry for a key at which no write was overruled.
pub tracking_merge-find :
    (tenant : Str) (crs : List Override) (merged : Fields) (out : List FieldConflict) (k : Str)
    → tracking_merge tenant crs ≡ some (merged, out)
    → conflict_at tenant (writes_at k crs) ≡ some (find k out)
unfolding lookup
tracking_merge-find tenant crs merged out k done =
    let r = returned tenant crs done in
    let tracked = run-IsTracked tenant (events crs) no_tracking r.st r.ran no_tracking-IsTracked in
    run-conflict_at tenant (writes_at k crs) (at_key k r.st)
      (at_key-run tenant k (events crs) no_tracking r.st r.ran)
    ∙ ap (λ c. some c)
        (sym (listed_or_none _ _ (tracked.listed k))
          ∙ sym (find-materialize r.st.conflicts tracked.paths k r.st.path_key_order out r.listed))

-- No path key has two entries in the report.
pub tracking_merge_unique :
    (tenant : Str) (crs : List Override) (merged : Fields) (out : List FieldConflict)
    → tracking_merge tenant crs ≡ some (merged, out)
    → NoRepeat (map (λ fc. join fc.path) out)
tracking_merge_unique tenant crs merged out done =
    let r = returned tenant crs done in
    let tracked = run-IsTracked tenant (events crs) no_tracking r.st r.ran no_tracking-IsTracked in
    rw (keys-materialize r.st.conflicts tracked.paths r.st.path_key_order out r.listed)
      tracked.unique
