-- ===== src/Drift/Newest.antt =====
-- extractConflictingFieldManager of internal/controller/drift.go: which of the other writers it names.
use runtime_overrides_operat.Prelude.{
  Str, ℕ, ◌≤◌, List, [], ◌∷◌, Option, none, some, ◌≡◌, All, Any, if◌then◌else◌, ◌==◌,
}
use runtime_overrides_operat.Drift.{ManagedFieldsEntry, label_of, newer}

-- A labelled entry at an instant other than the zero time.
abbrev pub stamp : Option Str → Option ℕ → List (Str × ℕ) → List (Str × ℕ)
stamp none time rest = rest
stamp (some m) none rest = rest
stamp (some m) (some t) rest = if t == 0 then rest else (m, t) ∷ rest

-- The dated writers of a list of entries, with their instants.
unfoldable pub dated : Str → List ManagedFieldsEntry → List (Str × ℕ)
dated ours [] = []
dated ours (mf ∷ mfs) = stamp (label_of ours mf) mf.time (dated ours mfs)

-- The newest of a writer found so far and the dated ones, the earlier of the list at a tie.
unfoldable pub newest : Option (Str × ℕ) → List (Str × ℕ) → Option (Str × ℕ)
newest best [] = best
newest best ((m, t) ∷ rest) = newest (newer best m t) rest

-- The entry of a list at this instant with this name.
abbrev pub Is : Str → ℕ → Str × ℕ → Type 0
Is name t e = (e.0 ≡ name) × (e.1 ≡ t)

-- A writer of the list, at least as new as all.
abbrev pub IsNewest : Str → List (Str × ℕ) → Type 0
IsNewest name entries = (t : ℕ) × Any (Is name t) entries × All (λ e. e.1 ≤ t) entries
