-- ===== src/Reconciler/Settled.antt =====
-- `updateStatuses` of the reconcilers: the status it has written beside the one that is wanted.
use mathlib.Core.Option.{some-injective}
use runtime_overrides_operat.Prelude.{
  str_eq_refl, ℕ, ℤ, eqb_ℤ, eqb_ℤ_iff, true, false, List, [], ◌∷◌, Option, none, some, ◌≡◌, ◌≢◌,
  ◌<◌, length, refl, sym, ap, ◌∙◌, arith,
}
use runtime_overrides_operat.Api.{Condition}
use runtime_overrides_operat.Overrides.{Override}
use runtime_overrides_operat.Status.{upsert_condition, conditions_changed}
use runtime_overrides_operat.Status.Settled.{AreOwn, upserts-unchanged}
use runtime_overrides_operat.Status.Laws.{length-upsert_condition}
use runtime_overrides_operat.Peers.Laws.{peers_changed_iff}
use runtime_overrides_operat.Platform.{Platform, Error}
use runtime_overrides_operat.Proc.{State, returned, returns, ◌>>=◌}
use runtime_overrides_operat.Apply.{ApplyResult}
use runtime_overrides_operat.Reconciler.Gather.{Reconciler, Envelope}
use runtime_overrides_operat.Reconciler.Desired.{
  compute_desired_status, validated_condition, applied_condition, peers_of,
}
use runtime_overrides_operat.Reconciler.Statuses.{needs_update, upsert_all}

eqb_ℤ_refl : (x : ℤ) → eqb_ℤ x x ≡ true
eqb_ℤ_refl x = (eqb_ℤ_iff x x).1 refl

types_apart :
    (r : Reconciler) (e : Envelope) (res : ApplyResult) (x : Option Error)
    → (validated_condition x).type ≢ (applied_condition r e res x).type
types_apart r e res none h = ground arith
types_apart r e res (some x) h = ground arith

module _ (w : Platform) where
  -- The conditions are those of two readings of the clock.
  upsert_all-pair :
      (cs : List Condition) (v a : Condition) (s : State w.Cluster)
      → (now : ℕ) × (later : ℕ) × ((upsert_all w cs (v ∷ a ∷ []) s).0
          ≡ returns (upsert_condition later (upsert_condition now cs v) a))
  unfolding upsert_all ◌>>=◌
  upsert_all-pair cs v a s = ((w.now s.cluster).0, (w.now (w.now s.cluster).1).0, refl)

  -- The status that `updateStatuses` writes, compared with the one that is wanted, needs no update.
  -- The conditions of the CR are at most one of each of the two types of the operator.
  pub needs_update-settles :
      (r : Reconciler) (e : Envelope) (valid : List Override) (res : ApplyResult)
      (cs written : List Condition) (s : State w.Cluster)
      → AreOwn (validated_condition e.valid_err) (applied_condition r e res e.valid_err) cs
      → (upsert_all w cs (compute_desired_status r e valid res).conditions s).0 ≡ returns written
      → needs_update
          (compute_desired_status r e valid res)
          (record (compute_desired_status r e valid res) { conditions = written })
        ≡ false
  unfolding compute_desired_status needs_update
  needs_update-settles r e valid res cs written s own h =
      let v = validated_condition e.valid_err in
      let a = applied_condition r e res e.valid_err in
      let (now, later, runs) = upsert_all-pair cs v a s in
      let written_eq : upsert_condition later (upsert_condition now cs v) a ≡ written =
        some-injective _ _ (ap returned (sym runs ∙ h)) in
      rw
        (
          eqb_ℤ_refl e.cr.generation,
          str_eq_refl e.effective,
          ← written_eq,
          upserts-unchanged v a (types_apart r e res e.valid_err) now later cs own,
          (peers_changed_iff (peers_of e valid e.valid_err) (peers_of e valid e.valid_err)).1 refl,
        )
        refl

  -- A CR with more than two conditions needs an update again once its status has been written.
  pub needs_update_foreign :
      (r : Reconciler) (e : Envelope) (valid : List Override) (res : ApplyResult)
      (cs written : List Condition) (s : State w.Cluster)
      → 2 < length cs
      → (upsert_all w cs (compute_desired_status r e valid res).conditions s).0 ≡ returns written
      → needs_update
          (compute_desired_status r e valid res)
          (record (compute_desired_status r e valid res) { conditions = written })
        ≡ true
  unfolding compute_desired_status needs_update conditions_changed
  needs_update_foreign r e valid res cs written s more h =
      let v = validated_condition e.valid_err in
      let a = applied_condition r e res e.valid_err in
      let (now, later, runs) = upsert_all-pair cs v a s in
      let written_eq : upsert_condition later (upsert_condition now cs v) a ≡ written =
        some-injective _ _ (ap returned (sym runs ∙ h)) in
      let kept = length-upsert_condition now cs v in
      let kept' = length-upsert_condition later (upsert_condition now cs v) a in
      let long : 2 < length written = rw (← written_eq) (omega arith) in ground (arith, long)
