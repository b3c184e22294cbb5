-- ===== src/Proc/Records.antt =====
-- The effects that a chain of calls records.
use runtime_overrides_operat.Prelude.{
  if◌then◌else◌, Bool, true, false, List, [], ◌∷◌, ◌++◌, append_assoc, append-nil, ◌≡◌, refl, sym,
  ap, ◌∙◌, inl, inr,
}
use runtime_overrides_operat.Proc.{Effect, State, returns, Proc, pure, emit, when, ◌>>=◌, ◌>>◌}
use runtime_overrides_operat.Proc.Laws.{Outcome-cases}
use runtime_overrides_operat.Proc.Emits.{after_then}

abbrev pub flat_map {ℓ κ} : {A : Type ℓ} {B : Type κ} → (A → List B) → List A → List B
flat_map f [] = []
flat_map f (x ∷ xs) = f x ++ flat_map f xs

module _ {C : Type 0} where
  -- The procedure returns, and records these effects in this order and no others.
  abbrev pub Adds : Proc C (Unit {0}) → List Effect → Type 0
  Adds m xs = (s : State C) → ((m s).0 ≡ returns tt) × ((m s).1.trace ≡ s.trace ++ xs)

  pub Adds-none : Adds (pure tt) []
  Adds-none s = (refl, sym (append-nil s.trace))

  pub Adds-when-emit : (b : Bool) (e : Effect) → Adds (when b (emit e)) (if b then e ∷ [] else [])
  Adds-when-emit true e s = (refl, refl)
  Adds-when-emit false e s = (refl, sym (append-nil s.trace))

  pub Adds-then :
      (m n : Proc C (Unit {0})) (xs ys : List Effect)
      → Adds m xs
      → Adds n ys
      → Adds (m >> n) (xs ++ ys)
  Adds-then m n xs ys hm hn s =
      let (done, first) = hm s in
      let (done', second) = hn (m s).1 in
      rw (after_then m n s tt done)
        (done', second ∙ ap (λ l. l ++ ys) first ∙ append_assoc s.trace xs ys)

  abbrev pub SameTrace : {A : Type 0} → Proc C A → Type 0
  SameTrace m = (s : State C) → (m s).1.trace ≡ s.trace

  pub bind-SameTrace :
      {A B : Type 0} (m : Proc C A) (f : A → Proc C B)
      → SameTrace m
      → ((a : A) → SameTrace (f a))
      → SameTrace (m >>= f)
  unfolding ◌>>=◌
  bind-SameTrace m f hm hf s = elim (Outcome-cases (m s).0) [
    | inl (a, done) ↦ rw done (hf a (m s).1 ∙ hm s)
    | inr (inl (e, failed)) ↦ rw failed (hm s)
    | inr (inr failed) ↦ rw failed (hm s)
  ]
