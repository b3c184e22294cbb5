-- ===== src/Validate.antt =====
-- internal/validate: the checks of a tenant's overrides. The YAML libraries and the `Limits` of Loki
-- and Mimir are parameters; the test for unknown top-level keys is the program's own.
pub mod Laws
pub mod Known
use runtime_overrides_operat.Prelude.{
  leb, ◌+◌, Str, bytes, str_eq, Bool, true, false, ◌&&◌, ◌||◌, Option, none, some, [], ◌∷◌, Dict,
  lookup, insert, if◌then◌else◌, not,
}
use runtime_overrides_operat.Value.{Value, object, Fields, end, field}
use runtime_overrides_operat.Platform.{Error, Result, ok, err, wrap, new_error, Target, loki, mimir}
use runtime_overrides_operat.Format.{concat, quote}

-- What `reflect` tells of a Go type: a struct's fields with their `yaml` tags (`Cut` at the first
-- comma), a pointer's element, or another kind.
mutual
  pub data GoType : Type 0 where
    pointer : GoType → GoType
    struct : GoFields → GoType
    other_kind : GoType

  pub data GoFields : Type 0 where
    no_fields : GoFields
    go_field : Str → Bool → Str → Str → GoType → GoFields → GoFields

-- `strings.ToLower` on an ASCII name.
abbrev pub lower : Str → Str
lower [] = []
lower (c ∷ s) = (if leb b'A' c && leb c b'Z' then c + 32 else c) ∷ lower s

abbrev pub starts_with : Str → Str → Bool
starts_with [] s = true
starts_with (c ∷ p) [] = false
starts_with (c ∷ p) (d ∷ s) = str_eq (c ∷ []) (d ∷ []) && starts_with p s

-- `strings.Contains`.
abbrev pub contains_text : Str → Str → Bool
contains_text [] p = starts_with p []
contains_text (c ∷ s) p = starts_with p (c ∷ s) || contains_text s p

abbrev pub Names : Type 0
Names = Dict (Unit {0})

abbrev pub add_all : Names → Names → Names
add_all [] out = out
add_all ((k, u) ∷ names) out = add_all names (insert k u out)

-- What a field adds to the set, `inner` being the names of its own type.
abbrev pub field_names : Str → Bool → Str → Str → Names → Names → Names
field_names go_name exported name opts inner out =
    if not exported
    then out
    else if str_eq name (bytes "-")
    then out
    else if contains_text opts (bytes "inline")
    then add_all inner out
    else insert (if str_eq name [] then lower go_name else name) tt out

unfoldable mutual
  pub known_yaml_fields : GoType → Names
  known_yaml_fields (pointer t) = known_yaml_fields t
  known_yaml_fields (struct fs) = known_in fs []
  known_yaml_fields other_kind = []

  pub known_in : GoFields → Names → Names
  known_in no_fields out = out
  known_in (go_field go_name exported name opts t fs) out =
      known_in fs (field_names go_name exported name opts (known_yaml_fields t) out)

-- The library's part: marshalling, the strict decoder and `Limits.Validate`.
pub record Upstream : Type 1 where
  pub Limits : Type 0
  pub marshal : Value → Result Str
  pub decode : Str → Result Limits
  pub check : Limits → Option Error
  pub limits_type : GoType

module _ (u : Upstream) where
  open u use {Limits, marshal, decode, check, limits_type}

  abbrev check_limits : Str → Result Limits → Option Error
  check_limits name (err e) = some (wrap name e)
  check_limits name (ok limits) = elim (check limits) [ none ↦ none | some e ↦ some (wrap name e) ]

  -- Re-marshal, decode and check: the common end of both validators.
  unfoldable pub check_body : Str → Fields → Option Error
  check_body name raw = elim (marshal (object raw)) [
    | err e ↦ some (wrap (concat (name ∷ bytes ": re-marshal raw overrides" ∷ [])) e)
    | ok body ↦ check_limits name (decode body)
  ]

  -- The first key in the order of iteration that Loki's `Limits` do not know.
  unfoldable pub unknown_field : Fields → Option Str
  unknown_field end = none
  unknown_field (field k v fs) =
      let rest = unknown_field fs in
      elim (lookup k (known_yaml_fields limits_type)) [ none ↦ some k | some u ↦ rest ]

  unfoldable pub validate_loki : Fields → Option Error
  unfolding unknown_field check_body
  validate_loki raw = elim (unknown_field raw) [
    | some k ↦ some (
        new_error (
          concat
            (bytes "loki: field " ∷ quote k ∷ bytes " not found in type validation.Limits" ∷ [])))
    | none ↦ check_body (bytes "loki") raw
  ]

  unfoldable pub validate_mimir : Fields → Option Error
  unfolding check_body
  validate_mimir raw = check_body (bytes "mimir") raw

-- `New`, on the two targets that exist.
unfoldable pub validator : Upstream → Upstream → Target → Fields → Option Error
unfolding validate_loki validate_mimir
validator loki_upstream mimir_upstream loki = validate_loki loki_upstream
validator loki_upstream mimir_upstream mimir = validate_mimir mimir_upstream
