-- ===== src/Overrides/Keys.antt =====
-- `GroupByTenant` of internal/merge/group.go: the keys of the map that it returns.
use runtime_overrides_operat.Prelude.{
  Str, str_eq, str_eq_iff, none, List, [], ◌∷◌, ◌++◌, ◌≡◌, refl, arith, Dict, lookup, insert,
  lookup-insert, Bool-cases, inl, inr,
}
use runtime_overrides_operat.Overrides.{Override, group_from, or_nil}

-- No key has two entries, as in a Go map.
abbrev pub DistinctKeys {ℓ} : {V : Type ℓ} → Dict V → Type ℓ
DistinctKeys [] = Unit
DistinctKeys ((k, v) ∷ m) = (lookup k m ≡ none) × DistinctKeys m

pub insert-DistinctKeys {ℓ} :
    {V : Type ℓ} (k : Str) (v : V) (m : Dict V) → DistinctKeys m → DistinctKeys (insert k v m)
unfolding insert lookup
insert-DistinctKeys k v [] h = (refl, tt)
insert-DistinctKeys k v ((j, w) ∷ m) h = elim (Bool-cases (str_eq j k)) [
  | inl same ↦ rw same (rw (← ((str_eq_iff j k).0 same)) h.0, h.1)
  | inr other ↦ rw other (
    rw (lookup-insert k j v m) (ground (arith, h.0, str_eq_iff j k, str_eq_iff k j)),
    insert-DistinctKeys k v m h.1,
  )
]

pub group_from-DistinctKeys :
    (out : Dict (List Override)) (crs : List Override)
    → DistinctKeys out
    → DistinctKeys (group_from out crs)
unfolding group_from
group_from-DistinctKeys out [] h = h
group_from-DistinctKeys out (cr ∷ crs) h =
    group_from-DistinctKeys
      (insert cr.tenant_id (or_nil (lookup cr.tenant_id out) ++ (cr ∷ [])) out) crs
      (insert-DistinctKeys cr.tenant_id (or_nil (lookup cr.tenant_id out) ++ (cr ∷ [])) out h)
