-- ===== src/Disabled/Laws.antt =====
-- applyDisabledStatus of internal/controller/disabled.go: the status it writes, and when it writes
-- one.
use runtime_overrides_operat.Prelude.{
  Str, ℕ, eqb_ℤ, true, false, not, ◌||◌, ◌≡◌, ◌≢◌, refl, arith, str_eq_refl, ap,
}
use runtime_overrides_operat.Api.{TenantOverride, condition_applied}
use runtime_overrides_operat.Status.{transition_time}
use runtime_overrides_operat.Status.Laws.{
  find_condition, find-upsert_condition, upsert_condition-settles, condition_transitioned_iff,
  is_said, upserted-equivalent,
}
use runtime_overrides_operat.Disabled.{
  disabled_condition, disabled_status, transitioned, disabled_changed,
}

-- After `applyDisabledStatus` the CR has an Applied condition that says that the target is
-- disabled, the observed generation is that of the CR, and a second call at any later time finds
-- no transition and nothing to write.
pub disabled_status-settles :
    (now later : ℕ) (target : Str) (cr : TenantOverride)
    → (is_said
          (find_condition condition_applied (disabled_status now target cr).status.conditions)
          (disabled_condition target)
        ≡ true)
      × ((disabled_status now target cr).status.observed_generation ≡ cr.generation)
      × (transitioned later target (disabled_status now target cr) ≡ false)
      × (disabled_changed later target (disabled_status now target cr) ≡ false)
unfolding disabled_status disabled_changed
disabled_status-settles now later target cr =
    let settled =
      upsert_condition-settles now later cr.status.conditions (disabled_condition target) in
    (
      rw
          (
            find-upsert_condition now cr.status.conditions (disabled_condition target)
                condition_applied,
            str_eq_refl condition_applied,
          )
          (upserted-equivalent now (find_condition condition_applied cr.status.conditions)
            (disabled_condition target)),
      refl,
      settled,
      rw settled (ground arith),
    )

-- The status is written exactly if the CR has not been told that the target is disabled, or the
-- observed generation is not its own. The clock differs from the time of the Applied condition.
pub disabled_changed_iff :
    (now : ℕ) (target : Str) (cr : TenantOverride)
    → now ≢ transition_time condition_applied cr.status.conditions
    → disabled_changed now target cr ≡ (
        not (
          is_said
            (find_condition condition_applied cr.status.conditions)
            (disabled_condition target))
        || not (eqb_ℤ cr.status.observed_generation cr.generation))
unfolding disabled_changed
disabled_changed_iff now target cr clock =
    ap (λ b. b || not (eqb_ℤ cr.status.observed_generation cr.generation))
      (condition_transitioned_iff now cr.status.conditions (disabled_condition target) clock)
