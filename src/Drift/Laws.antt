-- ===== src/Drift/Laws.antt =====
-- extractConflictingFieldManager of internal/controller/drift.go: the form of its answer.
use mathlib.Core.Option.{some-injective, none-ne-some}
use runtime_overrides_operat.Prelude.{
  Str, ℕ, ◌≤◌, false, List, [], ◌∷◌, ◌||◌, Option, none, some, length, take, length-take-le, ◌≡◌,
  ◌≢◌, refl, sym, arith, if◌then◌else◌, str_eq, str_eq_refl, ltb, ◌==◌, Bool-cases, inl, inr, ◌⊎◌,
  subst,
}
use runtime_overrides_operat.Drift.{
  ConfigMap, ManagedFieldsEntry, Writers, label_of, scan_writers, note_labelled, newer,
  extract_conflicting_field_manager, max_len, unknown_field_manager, trim_space,
}

-- A label: neither empty nor long.
abbrev pub IsLabel : Str → Type 0
IsLabel s = (s ≢ []) × (length s ≤ max_len)

not_nil : (c : ℕ) (s : Str) → (c ∷ s) ≢ []
not_nil c s e = ground arith

clipped-IsLabel :
    (m : Str) → str_eq m [] ≡ false → IsLabel (if ltb max_len (length m) then take max_len m else m)
clipped-IsLabel [] h = ground (arith, str_eq_refl [])
clipped-IsLabel (c ∷ m) h = elim (Bool-cases (ltb max_len (length (c ∷ m)))) [
  | inl long ↦ rw long (not_nil _ _, length-take-le max_len (c ∷ m))
  | inr short ↦ rw short (not_nil _ _, ground arith)
]

label_of-IsLabel :
    (ours : Str) (mf : ManagedFieldsEntry) (m : Str) → label_of ours mf ≡ some m → IsLabel m
unfolding label_of
label_of-IsLabel ours mf m h = elim (Bool-cases (str_eq mf.manager [] || str_eq mf.manager ours)) [
  | inl skipped ↦ absurd (none-ne-some _ (rw skipped at h))
  | inr counted ↦ elim (Bool-cases (str_eq (trim_space mf.manager) [])) [
    | inl blank ↦ absurd (none-ne-some _ (rw (counted, blank) at h))
    | inr named ↦
        subst IsLabel (some-injective _ _ (rw (counted, named) at h))
          (clipped-IsLabel (trim_space mf.manager) named)
  ]
]

abbrev pub no_writers : Writers
no_writers = record { best = none; fallback_name = [] }

-- The names that a state of the loop holds are labels.
abbrev Labelled : Option (Str × ℕ) → Type 0
Labelled none = Unit
Labelled (some (m, t)) = IsLabel m

abbrev IsLabelled : Writers → Type 0
IsLabelled w = Labelled w.best × ((w.fallback_name ≡ []) ⊎ IsLabel w.fallback_name)

newer-Labelled :
    (best : Option (Str × ℕ)) (m : Str) (t : ℕ)
    → Labelled best
    → IsLabel m
    → Labelled (newer best m t)
newer-Labelled none m t h hm = hm
newer-Labelled (some (n, s)) m t h hm = elim (Bool-cases (ltb s t)) [
  | inl later ↦ rw later hm
  | inr earlier ↦ rw earlier h
]

fallback-IsLabelled :
    (w : Writers) (m : Str)
    → IsLabelled w
    → IsLabel m
    → IsLabelled (if str_eq w.fallback_name [] then record w { fallback_name = m } else w)
fallback-IsLabelled w m h hm = elim (Bool-cases (str_eq w.fallback_name [])) [
  | inl unset ↦ rw unset (h.0, inr hm)
  | inr set ↦ rw set h
]

note_labelled-IsLabelled :
    (w : Writers) (label : Option Str) (time : Option ℕ)
    → IsLabelled w
    → ((m : Str) → label ≡ some m → IsLabel m)
    → IsLabelled (note_labelled w label time)
note_labelled-IsLabelled w none time h hl = h
note_labelled-IsLabelled w (some m) none h hl = fallback-IsLabelled w m h (hl m refl)
note_labelled-IsLabelled w (some m) (some t) h hl = elim (Bool-cases (t == 0)) [
  | inl undated ↦ rw undated (fallback-IsLabelled w m h (hl m refl))
  | inr stamped ↦ rw stamped (newer-Labelled w.best m t h.0 (hl m refl), h.1)
]

scan_writers-IsLabelled :
    (ours : Str) (w : Writers) (mfs : List ManagedFieldsEntry)
    → IsLabelled w
    → IsLabelled (scan_writers ours w mfs)
unfolding scan_writers
scan_writers-IsLabelled ours w [] h = h
scan_writers-IsLabelled ours w (mf ∷ mfs) h =
    scan_writers-IsLabelled ours (note_labelled w (label_of ours mf) mf.time) mfs
      (note_labelled-IsLabelled w (label_of ours mf) mf.time h (label_of-IsLabel ours mf))

unknown-IsLabel : IsLabel unknown_field_manager
unknown-IsLabel = (not_nil _ _, ground arith)

-- What is answered from the writers found.
abbrev pub answer : Option (Str × ℕ) → Str → Str
answer (some (name, t)) fallback_name = name
answer none fallback_name = if str_eq fallback_name [] then unknown_field_manager else fallback_name

answer-IsLabel :
    (best : Option (Str × ℕ)) (fallback_name : Str)
    → Labelled best
    → (fallback_name ≡ []) ⊎ IsLabel fallback_name
    → IsLabel (answer best fallback_name)
answer-IsLabel (some (name, t)) fallback_name h hf = h
answer-IsLabel none fallback_name h (inl unset) = rw (unset, str_eq_refl []) unknown-IsLabel
answer-IsLabel none fallback_name h (inr named) = elim (Bool-cases (str_eq fallback_name [])) [
  | inl unset ↦ rw unset unknown-IsLabel
  | inr set ↦ rw set named
]

pub extract-answer :
    (cm : ConfigMap) (ours : Str)
    → let w = scan_writers ours no_writers cm.managed_fields in
      extract_conflicting_field_manager (some cm) ours ≡ answer w.best w.fallback_name
unfolding extract_conflicting_field_manager
extract-answer cm ours = ground arith

-- The name that drift is blamed on is never empty and has at most 64 bytes, whatever the managed
-- fields of the ConfigMap say.
pub extract_conflicting_field_manager-IsLabel :
    (cm : Option ConfigMap) (ours : Str)
    → (extract_conflicting_field_manager cm ours ≢ [])
      × (length (extract_conflicting_field_manager cm ours) ≤ 64)
unfolding extract_conflicting_field_manager
extract_conflicting_field_manager-IsLabel none ours = unknown-IsLabel
extract_conflicting_field_manager-IsLabel (some cm) ours =
    let h = scan_writers-IsLabelled ours no_writers cm.managed_fields (tt, inl refl) in
    let w = scan_writers ours no_writers cm.managed_fields in
    subst IsLabel (sym (extract-answer cm ours)) (answer-IsLabel w.best w.fallback_name h.0 h.1)
