-- ===== src/Validate/Laws.antt =====
-- The test of internal/validate/loki.go for unknown top-level fields.
use mathlib.Core.Option.{none-ne-some}
use runtime_overrides_operat.Prelude.{
  Str, bytes, str_eq, str_eq_iff, str_eq_refl, ◌↔◌, none, ◌≡◌, ◌≢◌, refl, sym, ◌∙◌, lookup,
  Option-cases, Bool-cases, inl, inr, arith,
}
use runtime_overrides_operat.Value.{Value, Fields, end, field, get}
use runtime_overrides_operat.Validate.Known.{HasKey, known_fields-HasKey}
use runtime_overrides_operat.Validate.{
  Upstream, known_yaml_fields, unknown_field, check_body, validate_loki,
}

later_none : (k j : Str) (v : Value) (fs : Fields) → get k (field j v fs) ≡ none → get k fs ≡ none
unfolding get
later_none k j v fs e = ground (arith, e)

module _ (u : Upstream) where
  open u use {limits_type}

  abbrev IsListed : Str → Type 0
  IsListed k = lookup k (known_yaml_fields limits_type) ≢ none

  unknown_field-none :
      (raw : Fields) → unknown_field u raw ≡ none → (k : Str) → get k raw ≢ none → IsListed k
  unfolding unknown_field get
  unknown_field-none end h k held = absurd (held refl)
  unknown_field-none (field j v fs) h k held =
      elim (Option-cases (lookup j (known_yaml_fields limits_type))) [
        | inl unknown ↦ absurd (none-ne-some j (sym (rw (unknown_field, unknown) at h)))
        | inr (x, known) ↦ elim (Bool-cases (str_eq j k)) [
          | inl this ↦ (λ e. none-ne-some x (sym e ∙ rw (← ((str_eq_iff j k).0 this)) known))
          | inr other ↦ unknown_field-none fs (rw (unknown_field, known) at h) k (rw other at held)
        ]
      ]

  all_known-unknown_field :
      (raw : Fields) → ((k : Str) → get k raw ≢ none → IsListed k) → unknown_field u raw ≡ none
  unfolding unknown_field get
  all_known-unknown_field end h = refl
  all_known-unknown_field (field j v fs) h =
      elim (Option-cases (lookup j (known_yaml_fields limits_type))) [
        | inl unknown ↦ absurd (h j (λ e. none-ne-some v (sym e ∙ rw (str_eq_refl j) refl)) unknown)
        | inr (x, known) ↦
            rw (unknown_field, known)
              (all_known-unknown_field fs (λ k held. h k (λ e. held (later_none k j v fs e))))
      ]

  accepted-IsListed :
      (raw : Fields)
      → validate_loki u raw ≡ none
      → ((k : Str) → get k raw ≢ none → IsListed k) × (check_body u (bytes "loki") raw ≡ none)
  unfolding validate_loki
  accepted-IsListed raw h = elim (Option-cases (unknown_field u raw)) [
    | inl all_known ↦ (unknown_field-none raw all_known, rw (validate_loki, all_known) at h)
    | inr (k, unknown) ↦ absurd (none-ne-some _ (sym (rw (validate_loki, unknown) at h)))
  ]

  -- The Loki validator accepts overrides exactly if their top-level keys are all YAML keys that the
  -- limits of Loki have by the tags of their exported fields, inlined structs included, and the common
  -- checks, which are marshalling, strict decoding and `Limits.Validate`, accept them.
  pub validate_loki_iff :
      (raw : Fields)
      → (validate_loki u raw ≡ none) ↔ (
          ((k : Str) → get k raw ≢ none → HasKey k limits_type)
          × (check_body u (bytes "loki") raw ≡ none))
  unfolding validate_loki
  validate_loki_iff raw = (
    λ h.
        let (listed, checked) = accepted-IsListed raw h in
        (λ k held. (known_fields-HasKey k limits_type).0 (listed k held), checked),
    λ h.
        rw
          (
            validate_loki,
            all_known-unknown_field raw
                (λ k held. (known_fields-HasKey k limits_type).1 (h.0 k held)),
          )
          h.1,
  )
