-- ===== src/Conflict/Summary.antt =====
-- An independent description of a conflict: the consecutive writes at a key that differ, summed up.
use mathlib.Core.Option.{some-injective, none-ne-some}
use runtime_overrides_operat.Prelude.{
  Str, eqb_ℤ, Option, none, some, List, [], ◌∷◌, ◌++◌, ◌≡◌, refl, sym, ap, ◌∙◌, arith, append_assoc,
  append-nil, Option-cases, inl, inr, Bool, true, false, ◌||◌, if◌then◌else◌, keep, str_eq,
}
use runtime_overrides_operat.Overrides.{CrRef, Override}
use runtime_overrides_operat.Conflict.{
  ◌>>=◌, FieldConflict, leaf_values_equal, record_loss, fresh_conflict,
}
use runtime_overrides_operat.Conflict.Events.{Event, run, events}
use runtime_overrides_operat.Conflict.Keys.{
  KeyState, key_step, writer_of, or_fresh, overruling, key_of,
}

-- The writes at a key, in merge order.
abbrev pub writes_at : Str → List Override → List Event
writes_at k crs = keep (λ e. str_eq (key_of e) k) (events crs)

-- Consecutive writes of which the later overruled the earlier; `none` is the panic of a comparison.
unfoldable pub overruled : Event → List Event → Option (List (Event × Event))
overruled a [] = some []
overruled a (b ∷ es) = leaf_values_equal a.value b.value >>= λ same.
    overruled b es >>= λ rest. some (if same then rest else (a, b) ∷ rest)

unfoldable pub last_winner : CrRef → List (Event × Event) → CrRef
last_winner w [] = w
last_winner w ((a, b) ∷ ps) = last_winner b.ref ps

unfoldable pub same_weights : List (Event × Event) → Bool
same_weights [] = false
same_weights ((a, b) ∷ ps) = eqb_ℤ a.ref.weight b.ref.weight || same_weights ps

unfoldable pub loser_refs : List (Event × Event) → List CrRef
loser_refs [] = []
loser_refs ((a, b) ∷ ps) = a.ref ∷ loser_refs ps

-- The losers are the overruled writers, the winner is the writer that overruled last.
abbrev pub summary : Str → List (Event × Event) → Option FieldConflict
summary tenant [] = none
summary tenant ((a, b) ∷ ps) = some (record {
  tenant = tenant;
  path = b.path;
  winner = last_winner b.ref ps;
  losers = a.ref ∷ loser_refs ps;
  same_weight = eqb_ℤ a.ref.weight b.ref.weight || same_weights ps;
})

abbrev pub conflict_at : Str → List Event → Option (Option FieldConflict)
conflict_at tenant [] = some none
conflict_at tenant (a ∷ es) = overruled a es >>= λ ps. some (summary tenant ps)

-- What the tracking adds to a conflict, pair by pair.
extend : Str → Option FieldConflict → List (Event × Event) → Option FieldConflict
extend tenant c [] = c
extend tenant c ((a, b) ∷ ps) =
    extend tenant (some (record_loss a.ref b.ref (or_fresh tenant b.path c))) ps

||_assoc : (a b c : Bool) → (a || (b || c)) ≡ ((b || a) || c)
||_assoc a b c = ground arith

extend-some :
    (tenant : Str) (fc : FieldConflict) (ps : List (Event × Event))
    → extend tenant (some fc) ps
      ≡ some (record {
        tenant = fc.tenant;
        path = fc.path;
        winner = last_winner fc.winner ps;
        losers = fc.losers ++ loser_refs ps;
        same_weight = fc.same_weight || same_weights ps;
      })
unfolding extend last_winner loser_refs same_weights
extend-some tenant fc [] = ground (arith, append-nil fc.losers)
extend-some tenant fc ((a, b) ∷ ps) =
    extend-some tenant (record_loss a.ref b.ref fc) ps
    ∙ ground (arith, append_assoc fc.losers (a.ref ∷ []) (loser_refs ps))

extend-none : (tenant : Str) (ps : List (Event × Event)) → extend tenant none ps ≡ summary tenant ps
unfolding extend
extend-none tenant [] = refl
extend-none tenant ((a, b) ∷ ps) =
    extend-some tenant (record_loss a.ref b.ref (fresh_conflict tenant b.path)) ps ∙ ground arith

last_write : Event → List Event → Event
last_write a [] = a
last_write a (b ∷ es) = last_write b es

bind_some {ℓ κ μ} :
    {A : Type ℓ} {B : Type κ} {C : Type μ} (m : Option A) (f : A → B) (g : B → Option C)
    → ((m >>= λ a. some (f a)) >>= g) ≡ (m >>= λ a. g (f a))
bind_some none f g = refl
bind_some (some a) f g = refl

-- The state of a key after the writes that follow `a`.
abbrev after : Str → Option FieldConflict → Event → List (Event × Event) → Option KeyState
after tenant c z ps = some (record { last = some (writer_of z); conflict = extend tenant c ps })

run_one :
    (tenant : Str) (a b : Event) (es : List Event) (c : Option FieldConflict) (same : Bool)
    → ((d : Option FieldConflict)
        → run (key_step tenant) es (record { last = some (writer_of b); conflict = d })
          ≡ (overruled b es >>= after tenant d (last_write b es)))
    → run (key_step tenant) es (overruling tenant b (writer_of a) c same) ≡ (
        (overruled b es >>= λ rest. some (if same then rest else (a, b) ∷ rest))
        >>= after tenant c (last_write b es))
unfolding extend
run_one tenant a b es c true ih =
    ih c ∙ sym (bind_some (overruled b es) (λ rest. rest) (after tenant c (last_write b es)))
run_one tenant a b es c false ih =
    ih (some (record_loss a.ref b.ref (or_fresh tenant b.path c)))
    ∙ sym (bind_some (overruled b es) (λ rest. (a, b) ∷ rest) (after tenant c (last_write b es)))

run-eq_overruled :
    (tenant : Str) (a : Event) (es : List Event) (c : Option FieldConflict)
    → run (key_step tenant) es (record { last = some (writer_of a); conflict = c })
      ≡ (overruled a es >>= after tenant c (last_write a es))
unfolding overruled last_write extend
run-eq_overruled tenant a [] c = refl
run-eq_overruled tenant a (b ∷ es) c = elim (Option-cases (leaf_values_equal a.value b.value)) [
  | inl panics ↦ rw panics refl
  | inr (same, found) ↦ rw found (run_one tenant a b es c same (run-eq_overruled tenant b es))
]

abbrev conflict_of : KeyState → Option FieldConflict
conflict_of ks = ks.conflict

-- From empty maps, the conflict of a key is the summary of the writes at it.
pub run-conflict_at :
    (tenant : Str) (es : List Event) (ks : KeyState)
    → run (key_step tenant) es (record { last = none; conflict = none }) ≡ some ks
    → conflict_at tenant es ≡ some ks.conflict
run-conflict_at tenant [] ks h = ap (λ k. some (conflict_of k)) (some-injective _ ks h)
run-conflict_at tenant (a ∷ es) ks h = elim (Option-cases (overruled a es)) [
  | inl panics ↦
      absurd (none-ne-some ks (rw panics at (sym (run-eq_overruled tenant a es none) ∙ h)))
  | inr (ps, found) ↦
      rw (found, sym (extend-none tenant ps))
        (ap (λ k. some (conflict_of k))
          (some-injective _ ks (rw found at (sym (run-eq_overruled tenant a es none) ∙ h))))
]
