-- ===== src/Validate/Known.antt =====
-- `knownYAMLFields` of internal/validate/loki.go: the names that it gathers are those of the tags.
use mathlib.Core.Bool.{true≢false, false≢true}
use mathlib.Core.Option.{none-ne-some}
use runtime_overrides_operat.Prelude.{
  not, Str, bytes, str_eq, str_eq_iff, Bool, true, false, ◌↔◌, ◌⊎◌, inl, inr, none, some, [], ◌∷◌,
  ◌≡◌, ◌≢◌, refl, sym, ◌∙◌, lookup, insert, lookup-insert, Bool-cases, if◌then◌else◌,
}
use runtime_overrides_operat.Validate.{
  GoType, GoFields, pointer, struct, other_kind, no_fields, go_field, Names, add_all, field_names,
  known_yaml_fields, known_in, lower, contains_text,
}

-- The key that a field has by its own name or tag.
abbrev pub own_key : Str → Str → Str
own_key go_name name = if str_eq name [] then lower go_name else name

-- Whether a struct has a field of this YAML key: an exported field whose tag is not `-`, and which is
-- inlined and has it in its own type, or is not and has it as its tag's name, or, for an empty one, as
-- its Go name in lower case.
unfoldable mutual
  pub HasKey : Str → GoType → Type 0
  HasKey k (pointer t) = HasKey k t
  HasKey k (struct fs) = HasField k fs
  HasKey k other_kind = ⊥

  pub HasField : Str → GoFields → Type 0
  HasField k no_fields = ⊥
  HasField k (go_field go_name exported name opts t fs) =
      ((exported ≡ true)
        × (str_eq name (bytes "-") ≡ false)
        × (((contains_text opts (bytes "inline") ≡ true) × HasKey k t)
            ⊎ ((contains_text opts (bytes "inline") ≡ false) × (own_key go_name name ≡ k))))
      ⊎ HasField k fs

abbrev Has : Str → Names → Type 0
Has k names = lookup k names ≢ none

-- A lookup that an entry decides.
entry-Has :
    (k j : Str) (names new : Names)
    → lookup k new ≡ (if str_eq j k then some tt else lookup k names)
    → Has k new ↔ ((j ≡ k) ⊎ Has k names)
entry-Has k j names new entry = elim (Bool-cases (str_eq j k)) [
  | inl same ↦
      (λ h. inl ((str_eq_iff j k).0 same), λ h e. none-ne-some tt (sym e ∙ entry ∙ rw same refl))
  | inr other ↦
      let skips : lookup k new ≡ lookup k names = entry ∙ rw other refl in
      (
        λ h. inr (λ e. h (skips ∙ e)),
        λ h. elim h [
          | inl same ↦ absurd (true≢false (sym ((str_eq_iff j k).1 same) ∙ other))
          | inr held ↦ λ e. held (sym skips ∙ e)
        ],
      )
]

Has-insert : (k j : Str) (names : Names) → Has k (insert j tt names) ↔ ((j ≡ k) ⊎ Has k names)
Has-insert k j names = entry-Has k j names (insert j tt names) (lookup-insert j k tt names)

Has-cons : (k j : Str) (names : Names) → Has k ((j, tt) ∷ names) ↔ ((j ≡ k) ⊎ Has k names)
unfolding lookup
Has-cons k j names = entry-Has k j names ((j, tt) ∷ names) refl

Has-add_all : (k : Str) (names out : Names) → Has k (add_all names out) ↔ (Has k names ⊎ Has k out)
unfolding lookup
Has-add_all k [] out = (inr, λ h. elim h [ inl held ↦ absurd (held refl) | inr held ↦ held ])
Has-add_all k ((j, u) ∷ names) out =
    let (later, back) = Has-add_all k names (insert j u out) in
    let (taken, put) = Has-insert k j out in
    let (split, join) = Has-cons k j names in
    (
      λ h. elim (later h) [
        | inl held ↦ inl (join (inr held))
        | inr held ↦ elim (taken held) [ inl same ↦ inl (join (inl same)) | inr old ↦ inr old ]
      ],
      λ h. elim h [
        | inl held ↦ elim (split held) [
          | inl same ↦ back (inr (put (inl same)))
          | inr rest ↦ back (inl rest)
        ]
        | inr old ↦ back (inr (put (inr old)))
      ],
    )

-- The clause of a field, on the answers of its tests.
field-Has :
    (k : Str) (exported dash inline : Bool) (key : Str) (inner out : Names) (Inner : Type 0)
    → (Has k inner ↔ Inner)
    → Has k (
        if not exported
        then out
        else if dash
        then out
        else if inline
        then add_all inner out
        else insert key tt out)
      ↔ (((exported ≡ true)
            × (dash ≡ false)
            × (((inline ≡ true) × Inner) ⊎ ((inline ≡ false) × (key ≡ k))))
          ⊎ Has k out)
field-Has k false dash inline key inner out Inner same =
    (inr, λ h. elim h [ inl own ↦ absurd (false≢true own.0) | inr old ↦ old ])
field-Has k true true inline key inner out Inner same =
    (inr, λ h. elim h [ inl own ↦ absurd (true≢false own.1) | inr old ↦ old ])
field-Has k true false true key inner out Inner same =
    let (there, back) = Has-add_all k inner out in
    (
      λ h. elim (there h) [
        | inl held ↦ inl (refl, refl, inl (refl, same.0 held))
        | inr old ↦ inr old
      ],
      λ h. elim h [
        | inl (_, _, inl (_, held)) ↦ back (inl (same.1 held))
        | inl (_, _, inr (apart, _)) ↦ absurd (true≢false apart)
        | inr old ↦ back (inr old)
      ],
    )
field-Has k true false false key inner out Inner same =
    let (there, back) = Has-insert k key out in
    (
      λ h. elim (there h) [ inl held ↦ inl (refl, refl, inr (refl, held)) | inr old ↦ inr old ],
      λ h. elim h [
        | inl (_, _, inl (apart, _)) ↦ absurd (false≢true apart)
        | inl (_, _, inr (_, held)) ↦ back (inl held)
        | inr old ↦ back (inr old)
      ],
    )

mutual
  unfolding known_yaml_fields known_in HasKey HasField lookup

  known_yaml_fields-HasKey : (k : Str) (t : GoType) → Has k (known_yaml_fields t) ↔ HasKey k t
  known_yaml_fields-HasKey k (pointer t) = known_yaml_fields-HasKey k t
  known_yaml_fields-HasKey k (struct fs) =
      let (there, back) = known_in-HasField k fs [] in
      (λ h. elim (there h) [ inl held ↦ held | inr bare ↦ absurd (bare refl) ], λ h. back (inl h))
  known_yaml_fields-HasKey k other_kind = (λ h. absurd (h refl), λ h. absurd h)

  known_in-HasField :
      (k : Str) (fs : GoFields) (out : Names)
      → Has k (known_in fs out) ↔ (HasField k fs ⊎ Has k out)
  known_in-HasField k no_fields out = (inr, λ h. elim h [ inl bare ↦ absurd bare | inr old ↦ old ])
  known_in-HasField k (go_field go_name exported name opts t fs) out =
      let inner = known_yaml_fields t in
      let (later, back) =
        known_in-HasField k fs (field_names go_name exported name opts inner out) in
      let (taken, put) =
        field-Has k exported (str_eq name (bytes "-")) (contains_text opts (bytes "inline"))
          (own_key go_name name) inner out (HasKey k t) (known_yaml_fields-HasKey k t) in
      (
        λ h. elim (later h) [
          | inl held ↦ inl (inr held)
          | inr held ↦ elim (taken held) [ inl own ↦ inl (inl own) | inr old ↦ inr old ]
        ],
        λ h. elim h [
          | inl (inl own) ↦ back (inr (put (inl own)))
          | inl (inr held) ↦ back (inl held)
          | inr old ↦ back (inr (put (inr old)))
        ],
      )

-- The names that `knownYAMLFields` gathers of a type are the YAML keys that the type has by its tags.
pub known_fields-HasKey :
    (k : Str) (t : GoType) → (lookup k (known_yaml_fields t) ≢ none) ↔ HasKey k t
known_fields-HasKey = known_yaml_fields-HasKey
