-- ===== src/Status/Laws.antt =====
-- What `upsertCondition` does to the condition of a type, and when status writes come to an end.
use runtime_overrides_operat.Prelude.{
  Str, str_eq, str_eq_iff, str_eq_refl, ℕ, ◌==◌, ◌≤◌, Bool, true, false, not, List, [], ◌∷◌, Option,
  none, some, length, if◌then◌else◌, ◌≡◌, refl, ◌≢◌, arith, Bool-cases, inl, inr,
}
use runtime_overrides_operat.Api.{Condition}
use runtime_overrides_operat.Status.{
  conditions_equivalent, upsert_condition, transition_time, condition_transitioned,
}

-- The first condition of a type.
unfoldable pub find_condition : Str → List Condition → Option Condition
find_condition t [] = none
find_condition t (c ∷ cs) = if str_eq c.type t then some c else find_condition t cs

-- What becomes of the condition of the desired type: kept but for the generation if it says the
-- same, else replaced at the time of the change.
abbrev pub upserted : ℕ → Option Condition → Condition → Condition
upserted now none desired = record desired { last_transition_time = now }
upserted now (some c) desired =
    if conditions_equivalent c desired
    then record c { observed_generation = desired.observed_generation }
    else record desired { last_transition_time = now }

pub find-upsert_condition :
    (now : ℕ) (cs : List Condition) (desired : Condition) (t : Str)
    → find_condition t (upsert_condition now cs desired) ≡ (
        if str_eq desired.type t
        then some (upserted now (find_condition t cs) desired)
        else find_condition t cs)
unfolding upsert_condition find_condition
find-upsert_condition now [] desired t = refl
find-upsert_condition now (c ∷ cs) desired t = ground (
  arith,
  find-upsert_condition now cs desired t,
  str_eq_iff c.type desired.type,
  str_eq_iff c.type t,
  str_eq_iff desired.type t,
)

-- Some condition was found, and says what is desired.
abbrev pub is_said : Option Condition → Condition → Bool
is_said none desired = false
is_said (some c) desired = conditions_equivalent c desired

-- The conditions never become fewer.
pub length-upsert_condition :
    (now : ℕ) (cs : List Condition) (desired : Condition)
    → length cs ≤ length (upsert_condition now cs desired)
unfolding upsert_condition
length-upsert_condition now [] desired = omega arith
length-upsert_condition now (c ∷ cs) desired =
    ground (arith, length-upsert_condition now cs desired)

-- A condition says the same as itself.
pub conditions_equivalent_refl : (c : Condition) → conditions_equivalent c c ≡ true
unfolding conditions_equivalent
conditions_equivalent_refl c =
    rw (str_eq_refl c.type, str_eq_refl c.status, str_eq_refl c.reason, str_eq_refl c.message)

-- After an upsert the condition says what was desired.
pub upserted-equivalent :
    (now : ℕ) (found : Option Condition) (desired : Condition)
    → conditions_equivalent (upserted now found desired) desired ≡ true
unfolding conditions_equivalent
upserted-equivalent now none desired = conditions_equivalent_refl desired
upserted-equivalent now (some c) desired = elim (Bool-cases (conditions_equivalent c desired)) [
  | inl same ↦ rw same same
  | inr differs ↦ rw differs (conditions_equivalent_refl desired)
]

abbrev pub time_of : Option Condition → ℕ
time_of none = 0
time_of (some c) = c.last_transition_time

pub transition_time-eq :
    (t : Str) (cs : List Condition) → transition_time t cs ≡ time_of (find_condition t cs)
unfolding transition_time find_condition
transition_time-eq t [] = refl
transition_time-eq t (c ∷ cs) = ground (arith, transition_time-eq t cs)

-- A second upsert of the same condition leaves the transition time alone.
time_of-upserted_again :
    (now later : ℕ) (found : Option Condition) (desired : Condition)
    → time_of (some (upserted later (some (upserted now found desired)) desired))
      ≡ time_of (some (upserted now found desired))
time_of-upserted_again now later found desired = rw (upserted-equivalent now found desired) refl

-- Once a condition has been upserted, upserting it again at any time is no transition.
pub upsert_condition-settles :
    (now later : ℕ) (cs : List Condition) (desired : Condition)
    → condition_transitioned
        (upsert_condition now cs desired)
        (upsert_condition later (upsert_condition now cs desired) desired)
        desired.type
      ≡ false
unfolding condition_transitioned
upsert_condition-settles now later cs desired =
    rw
      (
        transition_time-eq desired.type (upsert_condition now cs desired),
        transition_time-eq desired.type
            (upsert_condition later (upsert_condition now cs desired) desired),
        find-upsert_condition later (upsert_condition now cs desired) desired desired.type,
        find-upsert_condition now cs desired desired.type,
        str_eq_refl desired.type,
        time_of-upserted_again now later (find_condition desired.type cs) desired,
      )
      (ground arith)

transition_by :
    (now : ℕ) (found : Option Condition) (desired : Condition)
    → now ≢ time_of found
    → not (time_of (some (upserted now found desired)) == time_of found)
      ≡ not (is_said found desired)
transition_by now none desired clock = ground arith
transition_by now (some c) desired clock = ground arith

-- An upsert is a transition exactly when the CR had no condition that says the same, where the
-- clock differs from the time of the condition that it replaces, the zero time if there is none.
pub condition_transitioned_iff :
    (now : ℕ) (cs : List Condition) (desired : Condition)
    → now ≢ transition_time desired.type cs
    → condition_transitioned cs (upsert_condition now cs desired) desired.type
      ≡ not (is_said (find_condition desired.type cs) desired)
unfolding condition_transitioned
condition_transitioned_iff now cs desired clock =
    rw
      (
        transition_time-eq desired.type (upsert_condition now cs desired),
        transition_time-eq desired.type cs,
        find-upsert_condition now cs desired desired.type,
        str_eq_refl desired.type,
      )
      (transition_by now (find_condition desired.type cs) desired
        (rw (transition_time-eq desired.type cs) at clock))
