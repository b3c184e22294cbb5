-- ===== src/Proc.antt =====
-- Go functions that act on the cluster, the hash cache, the metrics and the event recorder: each
-- takes a state and returns, fails with an error or panics, in every case beside the state that it
-- leaves.
pub mod Laws
pub mod Emits
pub mod Records
use runtime_overrides_operat.Prelude.{
  Str, ℕ, Bool, Option, none, some, List, [], ◌∷◌, ◌++◌, true, false,
}
use runtime_overrides_operat.Api.{NamespacedName}
use runtime_overrides_operat.Drift.{HashCache}
use runtime_overrides_operat.Platform.{Error, Result, ok, err}

-- A counter's increment and a gauge's value, with the labels, and a recorded event.
pub data Effect : Type 0 where
  count : Str → List Str → Effect
  gauge : Str → List Str → ℕ → Effect
  event : NamespacedName → Str → Str → Str → Effect

-- `hashes` is `none` for a nil cache.
pub record State (Cluster : Type 0) : Type 0 where
  pub cluster : Cluster
  pub hashes : Option HashCache
  pub trace : List Effect

pub data Outcome (A : Type 0) : Type 0 where
  returns : A → Outcome A
  fails : Error → Outcome A
  panics : Outcome A

-- The value that is returned, if any.
abbrev pub returned : {A : Type 0} → Outcome A → Option A
returned (returns a) = some a
returned (fails e) = none
returned panics = none

abbrev pub Proc : Type 0 → Type 0 → Type 0
Proc C A = State C → Outcome A × State C

module _ {C A : Type 0} where
  abbrev pub pure : A → Proc C A
  pure a s = (returns a, s)

  abbrev pub fail : Error → Proc C A
  fail e s = (fails e, s)

  abbrev pub of_result : Result A → Proc C A
  of_result (ok a) s = (returns a, s)
  of_result (err e) s = (fails e, s)

  -- A pure function that may panic.
  abbrev pub of_option : Option A → Proc C A
  of_option none s = (panics, s)
  of_option (some a) s = (returns a, s)

  -- A call of the platform.
  abbrev pub call : (C → A × C) → Proc C A
  call f s = let (a, c) = f s.cluster in (returns a, record s { cluster = c })

  -- Code that runs before an error is returned.
  abbrev pub on_error_from : (Error → Proc C A) → Outcome A → Proc C A
  on_error_from handler (returns a) s = (returns a, s)
  on_error_from handler (fails e) s = handler e s
  on_error_from handler panics s = (panics, s)

  unfoldable pub on_error : Proc C A → (Error → Proc C A) → Proc C A
  on_error m handler s = let (r, s') = m s in on_error_from handler r s'

abbrev pub emit : {C : Type 0} → Effect → Proc C (Unit {0})
emit e s = (returns tt, record s { trace = s.trace ++ (e ∷ []) })

module _ {C A B : Type 0} where
  abbrev pub continue : (A → Proc C B) → Outcome A → Proc C B
  continue f (returns a) s = f a s
  continue f (fails e) s = (fails e, s)
  continue f panics s = (panics, s)

  infixl 5 ◌>>=◌ ◌>>◌
  unfoldable pub ◌>>=◌ : Proc C A → (A → Proc C B) → Proc C B
  ◌>>=◌ m f s = let (r, s') = m s in continue f r s'

  unfoldable pub ◌>>◌ : Proc C A → Proc C B → Proc C B
  unfolding ◌>>=◌
  m >> n = m >>= λ _. n

abbrev pub when : {C : Type 0} → Bool → Proc C (Unit {0}) → Proc C (Unit {0})
when true m = m
when false m = pure tt
