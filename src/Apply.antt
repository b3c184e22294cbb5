-- ===== src/Apply.antt =====
-- internal/apply/apply.go: the write of an output ConfigMap by Server-Side Apply, skipped where the
-- live body has the desired hash.
pub mod Laws
use runtime_overrides_operat.Prelude.{
  Str, bytes, str_eq, ℕ, Bool, true, false, Option, none, some, [], ◌∷◌, lookup, if◌then◌else◌,
}
use runtime_overrides_operat.Api.{NamespacedName}
use runtime_overrides_operat.Drift.{ConfigMap}
use runtime_overrides_operat.Platform.{Platform, Error, ErrorKind, ok, err, wrap}
use runtime_overrides_operat.Proc.{Proc, pure, fail, call, ◌>>=◌}
use runtime_overrides_operat.Render.{data_key}
use runtime_overrides_operat.Format.{concat}

abbrev pub field_manager : Str
field_manager = bytes "runtime-overrides-operator"

abbrev pub managed_by_label : Str
managed_by_label = bytes "app.kubernetes.io/managed-by"

abbrev pub managed_by_value : Str
managed_by_value = bytes "runtime-overrides-operator"

pub record ApplyResult : Type 0 where
  pub hash : Str
  pub generation : ℕ
  pub skipped : Bool

-- `%s` of a NamespacedName.
abbrev pub print_name : NamespacedName → Str
print_name n = concat (n.namespace ∷ bytes "/" ∷ n.name ∷ [])

abbrev pub is_not_found : Error → Bool
is_not_found e = elim e.kind [
  | ErrorKind.not_found ↦ true
  | ErrorKind.conflict ↦ false
  | ErrorKind.other ↦ false
]

abbrev pub is_conflict : Error → Bool
is_conflict e = elim e.kind [
  | ErrorKind.conflict ↦ true
  | ErrorKind.not_found ↦ false
  | ErrorKind.other ↦ false
]

abbrev pub desired_config_map : NamespacedName → Str → ConfigMap
desired_config_map name body = record {
  namespace = name.namespace;
  name = name.name;
  labels = (managed_by_label, managed_by_value) ∷ [];
  contents = (data_key, body) ∷ [];
  generation = 0;
  managed_fields = [];
}

module _ (w : Platform) where
  open w use {Cluster, get_config_map, patch_config_map, sha256_hex}

  abbrev pub same_body : Str → Option Str → Bool
  same_body body_hash none = false
  same_body body_hash (some live_body) = str_eq (sha256_hex live_body) body_hash

  abbrev pub up_to_date : Str → ConfigMap → Bool
  up_to_date body_hash live = same_body body_hash (lookup data_key live.contents)

  abbrev read_back : NamespacedName → Str → Proc Cluster ApplyResult
  read_back name body_hash = do
    after ← call (get_config_map name)
    elim after [
      | err e ↦ fail (
          wrap (concat (bytes "re-get configmap " ∷ print_name name ∷ bytes " after apply" ∷ [])) e)
      | ok cm ↦ pure (record { hash = body_hash; generation = cm.generation; skipped = false })
    ]

  -- The write, and the read of the generation after it.
  unfoldable pub write_config_map : NamespacedName → Str → Str → Proc Cluster ApplyResult
  write_config_map name body body_hash = do
    patched ← call (patch_config_map (desired_config_map name body) field_manager true)
    elim patched [
      | some e ↦ fail (wrap (concat (bytes "ssa apply configmap " ∷ print_name name ∷ [])) e)
      | none ↦ read_back name body_hash
    ]

  unfoldable pub apply_config_map : NamespacedName → Str → Proc Cluster ApplyResult
  unfolding write_config_map
  apply_config_map name body = do
    let body_hash = sha256_hex body
    got ← call (get_config_map name)
    elim got [
      | ok live ↦
          if up_to_date body_hash live
          then pure (record { hash = body_hash; generation = live.generation; skipped = true })
          else write_config_map name body body_hash
      | err e ↦
          if is_not_found e
          then write_config_map name body body_hash
          else fail (wrap (concat (bytes "get configmap " ∷ print_name name ∷ [])) e)
    ]
