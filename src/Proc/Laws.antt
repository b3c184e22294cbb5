-- ===== src/Proc/Laws.antt =====
-- Lemmas on chains of calls: what a returned value says of the steps, and what the steps keep.
use mathlib.Core.Option.{none-ne-some}
use runtime_overrides_operat.Prelude.{Option, none, ◌≡◌, refl, sym, ap, ◌∙◌, inl, inr, ◌⊎◌}
use runtime_overrides_operat.Drift.{HashCache}
use runtime_overrides_operat.Platform.{Error}
use runtime_overrides_operat.Proc.{
  State, Outcome, returned, returns, fails, panics, Proc, on_error, ◌>>=◌, ◌>>◌,
}

pub Outcome-cases :
    {A : Type 0} (o : Outcome A)
    → ((a : A) × (o ≡ returns a)) ⊎ ((e : Error) × (o ≡ fails e)) ⊎ (o ≡ panics)
Outcome-cases (returns a) = inl (a, refl)
Outcome-cases (fails e) = inr (inl (e, refl))
Outcome-cases panics = inr (inr refl)

module _ {C A B : Type 0} where
  pub bind_returned :
      (m : Proc C A) (f : A → Proc C B) (s : State C) (b : B)
      → ((m >>= f) s).0 ≡ returns b
      → (a : A) × ((m s).0 ≡ returns a) × ((m >>= f) s ≡ f a (m s).1)
  unfolding ◌>>=◌
  bind_returned m f s b h = elim (Outcome-cases (m s).0) [
    | inl (a, done) ↦ (a, done, rw done refl)
    | inr (inl (e, failed)) ↦ absurd (none-ne-some b (ap returned (rw failed at h)))
    | inr (inr failed) ↦ absurd (none-ne-some b (ap returned (rw failed at h)))
  ]

  pub then_returned :
      (m : Proc C A) (n : Proc C B) (s : State C) (b : B)
      → ((m >> n) s).0 ≡ returns b
      → (a : A) × ((m s).0 ≡ returns a) × ((m >> n) s ≡ n (m s).1)
  unfolding ◌>>◌
  then_returned m n s b h = bind_returned m (λ _. n) s b h

module _ {C A : Type 0} where
  -- Where the handler returns nothing, a value that is returned is that of the call.
  pub on_error-returned :
      (m : Proc C A) (handler : Error → Proc C A) (s : State C) (a : A)
      → ((e : Error) (s' : State C) → returned (handler e s').0 ≡ none)
      → (on_error m handler s).0 ≡ returns a
      → on_error m handler s ≡ m s
  unfolding on_error
  on_error-returned m handler s a fatal h = elim (Outcome-cases (m s).0) [
    | inl (b, done) ↦ rw done refl
    | inr (inl (e, failed)) ↦
        absurd (none-ne-some a (sym (fatal e (m s).1) ∙ ap returned (rw failed at h)))
    | inr (inr failed) ↦ absurd (none-ne-some a (ap returned (rw failed at h)))
  ]

-- A procedure keeps what holds of the cluster and the hash cache.
abbrev pub Keeps : {C A : Type 0} → (C → Option HashCache → Type 0) → Proc C A → Type 0
Keeps {C} P m = (s : State C) → P s.cluster s.hashes → P (m s).1.cluster (m s).1.hashes

module _ {C : Type 0} (P : C → Option HashCache → Type 0) where
  pub Keeps-bind :
      {A B : Type 0} (m : Proc C A) (f : A → Proc C B)
      → Keeps P m
      → ((a : A) → Keeps P (f a))
      → Keeps P (m >>= f)
  unfolding ◌>>=◌
  Keeps-bind m f hm hf s h = elim (Outcome-cases (m s).0) [
    | inl (a, done) ↦ rw done (hf a (m s).1 (hm s h))
    | inr (inl (e, failed)) ↦ rw failed (hm s h)
    | inr (inr failed) ↦ rw failed (hm s h)
  ]

  pub Keeps-then :
      {A B : Type 0} (m : Proc C A) (n : Proc C B) → Keeps P m → Keeps P n → Keeps P (m >> n)
  unfolding ◌>>◌
  Keeps-then m n hm hn = Keeps-bind m (λ _. n) hm (λ _. hn)

  -- What follows may use that the value was returned.
  pub Keeps-bind_returned :
      {A B : Type 0} (m : Proc C A) (f : A → Proc C B)
      → Keeps P m
      → ((a : A) (s : State C) → (m s).0 ≡ returns a → Keeps P (f a))
      → Keeps P (m >>= f)
  unfolding ◌>>=◌
  Keeps-bind_returned m f hm hf s h = elim (Outcome-cases (m s).0) [
    | inl (a, done) ↦ rw done (hf a s done (m s).1 (hm s h))
    | inr (inl (e, failed)) ↦ rw failed (hm s h)
    | inr (inr failed) ↦ rw failed (hm s h)
  ]

  pub Keeps-on_error :
      {A : Type 0} (m : Proc C A) (handler : Error → Proc C A)
      → Keeps P m
      → ((e : Error) → Keeps P (handler e))
      → Keeps P (on_error m handler)
  unfolding on_error
  Keeps-on_error m handler hm hf s h = elim (Outcome-cases (m s).0) [
    | inl (a, done) ↦ rw done (hm s h)
    | inr (inl (e, failed)) ↦ rw failed (hf e (m s).1 (hm s h))
    | inr (inr failed) ↦ rw failed (hm s h)
  ]
