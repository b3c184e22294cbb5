-- ===== src/Render/Extensional.antt =====
-- `Render` of internal/render/render.go and the entries of a map of tenants.
use mathlib.Core.List.{Permᴰ}
use mathlib.Core.Option.{none-ne-some}
use runtime_overrides_operat.Prelude.{
  Str, str_eq, str_eq_iff, str_eq_refl, Option, none, some, List, [], ◌∷◌, ◌≡◌, ◌≢◌, refl, sym, ap,
  ◌∙◌, arith, Dict, lookup, All, Bool-cases, inl, inr, if◌then◌else◌,
}
use runtime_overrides_operat.Overrides.Keys.{DistinctKeys}
use runtime_overrides_operat.Platform.{Platform}
use runtime_overrides_operat.Render.{Output, keys, render}
use runtime_overrides_operat.Render.Laws.{AreDistinct, render_order_free}

Permᴰ-refl : (l : List Str) → Permᴰ l l
Permᴰ-refl [] = Permᴰ.nil
Permᴰ-refl (x ∷ l) = Permᴰ.cons refl (Permᴰ-refl l)

module _ {ℓ} {V : Type ℓ} where
  -- A map without one of its keys.
  remove : Str → Dict V → Dict V
  remove k [] = []
  remove k ((j, v) ∷ m) = let rest = remove k m in if str_eq j k then m else (j, v) ∷ rest

  lookup-remove :
      (k j : Str) (m : Dict V)
      → DistinctKeys m
      → lookup j (remove k m) ≡ (if str_eq k j then none else lookup j m)
  unfolding lookup remove
  lookup-remove k j [] h = ground arith
  lookup-remove k j ((i, v) ∷ m) h =
      let gone : k ≡ j → i ≡ k → lookup j m ≡ none =
        λ e f. ap (λ x. lookup x m) (sym e ∙ sym f) ∙ h.0 in
      ground (arith, gone, str_eq_iff k j, str_eq_iff i k, str_eq_iff i j, lookup-remove k j m h.1)

  remove-DistinctKeys : (k : Str) (m : Dict V) → DistinctKeys m → DistinctKeys (remove k m)
  unfolding remove
  remove-DistinctKeys k [] h = tt
  remove-DistinctKeys k ((i, v) ∷ m) h = elim (Bool-cases (str_eq i k)) [
    | inl own ↦ rw own h.1
    | inr other ↦
        rw other (lookup-remove k i m h.1 ∙ ground (arith, h.0), remove-DistinctKeys k m h.1)
  ]

  remove-Permᴰ :
      (k : Str) (v : V) (m : Dict V) → lookup k m ≡ some v → Permᴰ (k ∷ keys (remove k m)) (keys m)
  unfolding lookup remove keys
  remove-Permᴰ k v [] found = absurd (none-ne-some v found)
  remove-Permᴰ k v ((i, u) ∷ m) found = elim (Bool-cases (str_eq i k)) [
    | inl own ↦ rw own (Permᴰ.cons (sym ((str_eq_iff i k).0 own)) (Permᴰ-refl (keys m)))
    | inr other ↦ rw other (
        Permᴰ.trans (Permᴰ.swap refl refl)
          (Permᴰ.cons refl (remove-Permᴰ k v m (rw other at found))))
  ]

  entry_left :
      (k : Str) (v : V) (j : Str) (m : Dict V) (there : Option V)
      → DistinctKeys ((k, v) ∷ m)
      → lookup j ((k, v) ∷ m) ≡ there
      → lookup j m ≡ (if str_eq k j then none else there)
  unfolding lookup
  entry_left k v j m there h same = elim (Bool-cases (str_eq k j)) [
    | inl own ↦ rw own (ap (λ x. lookup x m) (sym ((str_eq_iff k j).0 own)) ∙ h.0)
    | inr other ↦ rw other (rw other at same)
  ]

  -- Two maps with the same entries have the same keys.
  keys-Permᴰ :
      (m n : Dict V)
      → DistinctKeys m
      → DistinctKeys n
      → ((k : Str) → lookup k m ≡ lookup k n)
      → Permᴰ (keys m) (keys n)
  unfolding lookup keys
  keys-Permᴰ [] [] hm hn same = Permᴰ.nil
  keys-Permᴰ [] ((j, v) ∷ n) hm hn same = absurd (none-ne-some v (same j ∙ rw (str_eq_refl j) refl))
  keys-Permᴰ ((k, v) ∷ m) n hm hn same =
      let found : lookup k n ≡ some v = sym (same k) ∙ rw (str_eq_refl k) refl in
      Permᴰ.trans
        (Permᴰ.cons refl (
          keys-Permᴰ m (remove k n) hm.1 (remove-DistinctKeys k n hn)
            (λ j. entry_left k v j m (lookup j n) hm (same j) ∙ sym (lookup-remove k j n hn))))
        (remove-Permᴰ k v n found)

  missing : (k : Str) (m : Dict V) → lookup k m ≡ none → All (λ j. k ≢ j) (keys m)
  unfolding lookup keys
  missing k [] h = tt
  missing k ((j, v) ∷ m) h = elim (Bool-cases (str_eq j k)) [
    | inl own ↦ absurd (none-ne-some v (sym (rw own at h)))
    | inr other ↦ (λ e. ground (arith, str_eq_iff j k), missing k m (rw other at h))
  ]

  DistinctKeys-AreDistinct : (m : Dict V) → DistinctKeys m → AreDistinct (keys m)
  unfolding keys
  DistinctKeys-AreDistinct [] h = tt
  DistinctKeys-AreDistinct ((k, v) ∷ m) h = (missing k m h.0, DistinctKeys-AreDistinct m h.1)

-- Two maps with the same entry at each tenant are rendered into the same body, or into the same
-- error, whatever the order of their iteration. No key of a map has two entries.
pub render_extensional :
    (w : Platform) (tenants other : Output)
    → DistinctKeys tenants
    → DistinctKeys other
    → ((t : Str) → lookup t tenants ≡ lookup t other)
    → render w tenants ≡ render w other
render_extensional w tenants other distinct distinct' same =
    render_order_free w tenants other (DistinctKeys-AreDistinct tenants distinct)
      (keys-Permᴰ tenants other distinct distinct' same) same
