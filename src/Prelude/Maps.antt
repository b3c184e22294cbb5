-- ===== src/Prelude/Maps.antt =====
-- Go's maps with string keys as association lists: an update replaces the entry in its place or
-- appends a new one. The order of the list is one of the orders in which the map can be iterated.
use mathlib.Core.Path.{◌≡◌, refl, ap}
use mathlib.Core.Logic.{inl, inr}
use mathlib.Core.Option.{Option, none, some}
use mathlib.Core.List.{List, [], ◌∷◌}
use native.Mathlib.Omega.{arith}
use runtime_overrides_operat.Prelude.Tests.{if◌then◌else◌, Bool-cases}
use runtime_overrides_operat.Prelude.Text.{Str, str_eq, str_eq_iff, str_eq_refl}

abbrev pub Dict {ℓ} : Type ℓ → Type ℓ
Dict V = List (Str × V)

module _ {ℓ} {V : Type ℓ} where
  unfoldable pub lookup : Str → Dict V → Option V
  lookup k [] = none
  lookup k ((j, v) ∷ m) = if str_eq j k then some v else lookup k m

  unfoldable pub insert : Str → V → Dict V → Dict V
  insert k v [] = (k, v) ∷ []
  insert k v ((j, w) ∷ m) =
      let rest = insert k v m in if str_eq j k then (k, v) ∷ m else (j, w) ∷ rest

  pub lookup-insert :
      (k j : Str) (v : V) (m : Dict V)
      → lookup j (insert k v m) ≡ (if str_eq k j then some v else lookup j m)
  unfolding lookup insert
  lookup-insert k j v [] = refl
  lookup-insert k j v ((i, w) ∷ m) =
      ground (arith, str_eq_iff k j, str_eq_iff i k, str_eq_iff i j, lookup-insert k j v m)

  pub insert_again : (k : Str) (v : V) (m : Dict V) → insert k v (insert k v m) ≡ insert k v m
  unfolding insert
  insert_again k v [] = rw (str_eq_refl k) refl
  insert_again k v ((k', v') ∷ m) = elim (Bool-cases (str_eq k' k)) [
    | inl own ↦ rw (own, str_eq_refl k) refl
    | inr other ↦ rw (other, other) (ap (λ l. (k', v') ∷ l) (insert_again k v m))
  ]
