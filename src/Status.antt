-- ===== src/Status.antt =====
-- internal/controller/status.go and `conditionTransitioned` of disabled.go: the conditions of a CR.
pub mod Laws
pub mod Settled
use runtime_overrides_operat.Prelude.{
  Str, str_eq, ℕ, ◌==◌, Bool, true, false, not, ◌&&◌, ◌||◌, List, [], ◌∷◌, Option, none, some,
  length, if◌then◌else◌, Dict, lookup, insert,
}
use runtime_overrides_operat.Api.{Condition}

unfoldable pub conditions_equivalent : Condition → Condition → Bool
conditions_equivalent a b =
    str_eq a.type b.type
    && str_eq a.status b.status
    && str_eq a.reason b.reason
    && str_eq a.message b.message

-- `now` is the reading of the clock by `metav1.Now()`.
unfoldable pub upsert_condition : ℕ → List Condition → Condition → List Condition
unfolding conditions_equivalent
upsert_condition now [] desired = record desired { last_transition_time = now } ∷ []
upsert_condition now (c ∷ cs) desired =
    let rest = upsert_condition now cs desired in
    if not (str_eq c.type desired.type)
    then c ∷ rest
    else if conditions_equivalent c desired
    then record c { observed_generation = desired.observed_generation } ∷ cs
    else record desired { last_transition_time = now } ∷ cs

-- The map by type: a later condition of a type replaces an earlier one.
unfoldable pub by_type : Dict Condition → List Condition → Dict Condition
by_type m [] = m
by_type m (c ∷ cs) = by_type (insert c.type c m) cs

unfoldable pub some_changed : Dict Condition → List Condition → Bool
unfolding conditions_equivalent
some_changed m [] = false
some_changed m (d ∷ ds) =
    let rest = some_changed m ds in
    elim (lookup d.type m) [
      | none ↦ true
      | some e ↦ if not (conditions_equivalent e d) then true else rest
    ]

unfoldable pub conditions_changed : List Condition → List Condition → Bool
unfolding by_type some_changed
conditions_changed existing desired =
    if not (length existing == length desired)
    then true
    else some_changed (by_type [] existing) desired

-- The time of the first condition of a type, the zero time if there is none.
unfoldable pub transition_time : Str → List Condition → ℕ
transition_time t [] = 0
transition_time t (c ∷ cs) =
    if str_eq c.type t then c.last_transition_time else transition_time t cs

unfoldable pub condition_transitioned : List Condition → List Condition → Str → Bool
unfolding transition_time
condition_transitioned before after t = not (transition_time t after == transition_time t before)
