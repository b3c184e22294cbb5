-- ===== src/Proc/Emits.antt =====
-- Chains of calls whose result and end are known.
use runtime_overrides_operat.Prelude.{Option, Bool, true, false, ◌≡◌, refl, ◌∙◌}
use runtime_overrides_operat.Drift.{HashCache}
use runtime_overrides_operat.Proc.{
  State, returns, fails, Proc, emit, Effect, when, on_error, ◌>>=◌, ◌>>◌,
}
use runtime_overrides_operat.Platform.{Error}

-- From a state the procedure returns a value and leaves this cluster and this hash cache.
abbrev pub Ends : {C A : Type 0} → Proc C A → State C → A → C → Option HashCache → Type 0
Ends m s a c hashes = ((m s).0 ≡ returns a) × ((m s).1.cluster ≡ c) × ((m s).1.hashes ≡ hashes)

-- From each state the procedure returns the value and changes neither cluster nor hash cache.
abbrev pub Emits : {C A : Type 0} → Proc C A → A → Type 0
Emits {C} m a = (s : State C) → Ends m s a s.cluster s.hashes

-- From each state the procedure returns.
abbrev pub Returns : {C A : Type 0} → Proc C A → Type 0
Returns {C} {A} m = (s : State C) → (a : A) × ((m s).0 ≡ returns a)

module _ {C A B : Type 0} where
  pub after_returns :
      (m : Proc C A) (f : A → Proc C B) (s : State C) (a : A)
      → (m s).0 ≡ returns a
      → (m >>= f) s ≡ f a (m s).1
  unfolding ◌>>=◌
  after_returns m f s a h = rw h refl

  pub after_fails :
      (m : Proc C A) (f : A → Proc C B) (s : State C) (e : Error)
      → (m s).0 ≡ fails e
      → ((m >>= f) s).0 ≡ fails e
  unfolding ◌>>=◌
  after_fails m f s e h = rw h refl

  pub after_then :
      (m : Proc C A) (n : Proc C B) (s : State C) (a : A)
      → (m s).0 ≡ returns a
      → (m >> n) s ≡ n (m s).1
  unfolding ◌>>◌
  after_then m n = after_returns m (λ _. n)

  pub Ends-bind :
      (m : Proc C A) (f : A → Proc C B) (s : State C) (a : A) (b : B) (c : C)
      (hashes : Option HashCache)
      → (m s).0 ≡ returns a
      → Ends (f a) (m s).1 b c hashes
      → Ends (m >>= f) s b c hashes
  Ends-bind m f s a b c hashes h rest = rw (after_returns m f s a h) rest

  pub Ends-then :
      (m : Proc C A) (n : Proc C B) (s : State C) (a : A) (b : B) (c : C)
      (hashes : Option HashCache)
      → (m s).0 ≡ returns a
      → Ends n (m s).1 b c hashes
      → Ends (m >> n) s b c hashes
  unfolding ◌>>◌
  Ends-then m n = Ends-bind m (λ _. n)

  pub Emits-bind :
      (m : Proc C A) (f : A → Proc C B) (a : A) (b : B)
      → Emits m a
      → Emits (f a) b
      → Emits (m >>= f) b
  Emits-bind m f a b hm hf s =
      let (r, c, h) = hf (m s).1 in
      Ends-bind m f s a b s.cluster s.hashes (hm s).0 (r, c ∙ (hm s).1, h ∙ (hm s).2)

  pub Emits-then :
      (m : Proc C A) (n : Proc C B) (a : A) (b : B) → Emits m a → Emits n b → Emits (m >> n) b
  unfolding ◌>>◌
  Emits-then m n = Emits-bind m (λ _. n)

  pub Returns-bind :
      (m : Proc C A) (f : A → Proc C B) → Returns m → ((a : A) → Returns (f a)) → Returns (m >>= f)
  Returns-bind m f hm hf s =
      let (a, h) = hm s in let (b, h') = hf a (m s).1 in (b, rw (after_returns m f s a h) h')

  pub Returns-then : (m : Proc C A) (n : Proc C B) → Returns m → Returns n → Returns (m >> n)
  unfolding ◌>>◌
  Returns-then m n hm hn = Returns-bind m (λ _. n) hm (λ _. hn)

pub emit-Emits : {C : Type 0} (e : Effect) → Emits {C = C} (emit e) tt
emit-Emits e s = (refl, refl, refl)

pub when-Emits : {C : Type 0} (b : Bool) (m : Proc C Unit) → Emits m tt → Emits (when b m) tt
when-Emits true m h s = h s
when-Emits false m h s = (refl, refl, refl)

-- A handler of errors does not act on what is returned.
pub on_error_unused :
    {C A : Type 0} (m : Proc C A) (handler : Error → Proc C A) (s : State C) (a : A)
    → (m s).0 ≡ returns a
    → on_error m handler s ≡ m s
unfolding on_error
on_error_unused m handler s a h = rw h refl
