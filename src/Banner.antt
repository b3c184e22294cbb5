-- ===== src/Banner.antt =====
-- cmd/banner.go: the version of the binary and the line that it prints at startup.
use runtime_overrides_operat.Prelude.{
  Str, bytes, str_eq, ltb, length, take, not, ◌&&◌, Option, none, some, List, [], ◌∷◌,
  if◌then◌else◌,
}
use runtime_overrides_operat.Format.{concat}
use runtime_overrides_operat.Webhook.{source_url}

-- A module that was linked into the binary, with the version of its replacement, if any.
pub record Module : Type 0 where
  pub path : Str
  pub version : Str
  pub replace : Option Str

-- `debug.BuildInfo`: the settings by key, and the dependencies, of which some may be nil.
pub record BuildInfo : Type 0 where
  pub settings : List (Str × Str)
  pub deps : List (Option Module)

abbrev pub license_id : Str
license_id = bytes "AGPL-3.0-only"

abbrev pub version_dev : Str
version_dev = bytes "dev"

abbrev pub version_unknown : Str
version_unknown = bytes "unknown"

-- The first revision among the settings that is not empty, cut to twelve bytes.
unfoldable pub revision : List (Str × Str) → Str
revision [] = version_dev
revision ((key, value) ∷ settings) =
    let rest = revision settings in
    if str_eq key (bytes "vcs.revision") && not (str_eq value [])
    then if ltb 12 (length value) then take 12 value else value
    else rest

-- `defaultVersion`, with the linker-set version and what `debug.ReadBuildInfo` answers.
unfoldable pub default_version : Str → Option BuildInfo → Str
unfolding revision
default_version version info =
    if not (str_eq version version_dev)
    then version
    else elim info [ none ↦ version_dev | some i ↦ revision i.settings ]

abbrev pub version_of : Module → Str
version_of dep = elim dep.replace [ none ↦ dep.version | some v ↦ v ]

unfoldable pub find_version : Str → List (Option Module) → Str
find_version path [] = version_unknown
find_version path (none ∷ deps) = find_version path deps
find_version path (some dep ∷ deps) =
    let rest = find_version path deps in if str_eq dep.path path then version_of dep else rest

unfoldable pub module_version : Option BuildInfo → Str → Str
unfolding find_version
module_version none path = version_unknown
module_version (some info) path = find_version path info.deps

-- The line that `writeBanner` writes.
unfoldable pub banner : Option BuildInfo → Str → Str
unfolding module_version
banner info version = concat (
    bytes "runtime-overrides-operator version="
    ∷ version
    ∷ bytes " source="
    ∷ source_url
    ∷ bytes " license="
    ∷ license_id
    ∷ bytes " loki="
    ∷ module_version info (bytes "github.com/grafana/loki/v3")
    ∷ bytes " mimir="
    ∷ module_version info (bytes "github.com/grafana/mimir")
    ∷ bytes "\n"
    ∷ [])
