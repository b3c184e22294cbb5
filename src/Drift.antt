-- ===== src/Drift.antt =====
-- internal/controller/drift.go and hashcache.go: who wrote to an output ConfigMap, which events
-- concern it, and the hash that the operator wrote last.
pub mod Laws
pub mod Newest
use runtime_overrides_operat.Prelude.{
  map, ◌++◌, zero, Str, bytes, str_eq, ℕ, suc, ◌==◌, leb, ltb, Bool, true, false, not, ◌&&◌, ◌||◌,
  List, [], ◌∷◌, Option, none, some, length, take, if◌then◌else◌, Dict, lookup, insert,
}
use runtime_overrides_operat.Api.{NamespacedName}
use mathlib.Core.List.{reverse}

-- `none` is the nil time; 0 is the zero time. Instants lie in the years in which `UnixNano` does not
-- overflow, 1678 to 2262.
pub record ManagedFieldsEntry : Type 0 where
  pub manager : Str
  pub time : Option ℕ

pub record ConfigMap : Type 0 where
  pub namespace : Str
  pub name : Str
  pub labels : Dict Str
  pub contents : Dict Str
  pub generation : ℕ
  pub managed_fields : List ManagedFieldsEntry

abbrev pub unknown_field_manager : Str
unknown_field_manager = bytes "unknown"

abbrev pub max_len : ℕ
max_len = 64

-- The encodings of the white space of Unicode: tab to carriage return and the blank, U+0085, U+00A0,
-- U+1680, U+2000 to U+200A, U+2028, U+2029, U+202F, U+205F and U+3000.
abbrev pub space_codes : List Str
space_codes =
    map (λ c. c ∷ []) (9 ∷ 10 ∷ 11 ∷ 12 ∷ 13 ∷ 32 ∷ [])
    ++ map (λ c. 194 ∷ c ∷ []) (133 ∷ 160 ∷ [])
    ++ ((225 ∷ 154 ∷ 128 ∷ [])
        ∷ map (λ c. 226 ∷ 128 ∷ c ∷ [])
            (128 ∷ 129 ∷ 130 ∷ 131 ∷ 132 ∷ 133 ∷ 134 ∷ 135 ∷ 136 ∷ 137 ∷ 138 ∷ 168 ∷ 169 ∷ 175
              ∷ []))
    ++ ((226 ∷ 129 ∷ 159 ∷ []) ∷ (227 ∷ 128 ∷ 128 ∷ []) ∷ [])

abbrev pub begins : Str → Str → Bool
begins [] s = true
begins (c ∷ p) [] = false
begins (c ∷ p) (d ∷ s) = c == d && begins p s

-- The number of bytes of the code that the text begins with, 0 for none.
unfoldable pub code_width : List Str → Str → ℕ
code_width [] s = 0
code_width (code ∷ codes) s =
    let rest = code_width codes s in if begins code s then length code else rest

-- The text without the codes that it begins with, once so many more bytes have been left out.
unfoldable pub trim_from : List Str → ℕ → Str → Str
unfolding code_width
trim_from codes n [] = []
trim_from codes (suc n) (c ∷ s) = trim_from codes n s
trim_from codes zero (c ∷ s) = elim (code_width codes (c ∷ s)) [
  | zero ↦ c ∷ s
  | suc n ↦ trim_from codes n s
]

-- `strings.TrimSpace`; at the end the reversed codes are looked for in the reversed text.
unfoldable pub trim_space : Str → Str
unfolding trim_from
trim_space s = reverse (trim_from (map reverse space_codes) 0 (reverse (trim_from space_codes 0 s)))

-- The variables of the loop; `best` is `bestName` and `bestTime` once `bestHasTime`.
pub record Writers : Type 0 where
  pub best : Option (Str × ℕ)
  pub fallback_name : Str

-- The name that an entry counts under, `none` where the loop skips it.
unfoldable pub label_of : Str → ManagedFieldsEntry → Option Str
unfolding trim_space
label_of our_manager mf =
    if str_eq mf.manager [] || str_eq mf.manager our_manager
    then none
    else let m = trim_space mf.manager in
      if str_eq m [] then none else some (if ltb max_len (length m) then take max_len m else m)

-- A writer at an instant, after the best one so far.
abbrev pub newer : Option (Str × ℕ) → Str → ℕ → Option (Str × ℕ)
newer none m t = some (m, t)
newer (some (n, s)) m t = if ltb s t then some (m, t) else some (n, s)

abbrev pub note_writer : Writers → Str → Option ℕ → Writers
note_writer w m none = if str_eq w.fallback_name [] then record w { fallback_name = m } else w
note_writer w m (some t) =
    if t == 0
    then if str_eq w.fallback_name [] then record w { fallback_name = m } else w
    else record w { best = newer w.best m t }

abbrev pub note_labelled : Writers → Option Str → Option ℕ → Writers
note_labelled w none time = w
note_labelled w (some m) time = note_writer w m time

unfoldable pub scan_writers : Str → Writers → List ManagedFieldsEntry → Writers
unfolding label_of
scan_writers our_manager w [] = w
scan_writers our_manager w (mf ∷ mfs) =
    scan_writers our_manager (note_labelled w (label_of our_manager mf) mf.time) mfs

unfoldable pub extract_conflicting_field_manager : Option ConfigMap → Str → Str
unfolding scan_writers
extract_conflicting_field_manager none our_manager = unknown_field_manager
extract_conflicting_field_manager (some cm) our_manager =
    let w =
      scan_writers our_manager (record { best = none; fallback_name = [] }) cm.managed_fields in
    elim w.best [
      | some (name, t) ↦ name
      | none ↦ if str_eq w.fallback_name [] then unknown_field_manager else w.fallback_name
    ]

-- The predicate on the drift watch; a nil object does not match.
unfoldable pub output_cm_predicate : NamespacedName → Option NamespacedName → Bool
output_cm_predicate cm_name none = false
output_cm_predicate cm_name (some obj) =
    str_eq obj.namespace cm_name.namespace && str_eq obj.name cm_name.name

-- `configMapHandler`: each event of the ConfigMap asks for a reconcile of one key.
abbrev pub config_map_handler : NamespacedName → List NamespacedName
config_map_handler reconcile_key = reconcile_key ∷ []

-- The cache of last applied hashes, by target. The lock makes each call atomic.
abbrev pub HashCache : Type 0
HashCache = Dict Str

abbrev pub new_hash_cache : HashCache
new_hash_cache = []

abbrev pub set_hash : HashCache → Str → Str → HashCache
set_hash h target hash = insert target hash h

abbrev pub get_hash : HashCache → Str → Option Str
get_hash h target = lookup target h
