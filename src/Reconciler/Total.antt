-- ===== src/Reconciler/Total.antt =====
-- The merge loop of `Reconcile`: lemmas on when it returns.
use runtime_overrides_operat.Prelude.{
  some, ◌≡◌, Str, str_eq, List, [], ◌∷◌, ◌++◌, refl, Dict, lookup, insert, All, All-append,
  Bool-cases, Option-cases, inl, inr,
}
use runtime_overrides_operat.Value.{Fields, end}
use runtime_overrides_operat.Order.Sort.{sort_stable-All}
use runtime_overrides_operat.Overrides.{
  Override, sort_group, group_from, group_by_tenant, or_nil, ref_of, compare_override,
}
use runtime_overrides_operat.Conflict.{FieldConflict, tracking_merge}
use runtime_overrides_operat.Conflict.Events.{events, leaves, merge_all}
use runtime_overrides_operat.Conflict.Panics.{Flat, tracking_merge-total}
use runtime_overrides_operat.Platform.{Platform}
use runtime_overrides_operat.Proc.{State, of_option}
use runtime_overrides_operat.Proc.Emits.{Emits, Emits-bind, Emits-then}
use runtime_overrides_operat.Render.{Output}
use runtime_overrides_operat.Reconciler.Gather.{Reconciler}
use runtime_overrides_operat.Reconciler.Output.{merge_groups}
use runtime_overrides_operat.Reconciler.Isolation.{Gives}

-- No array of the CR holds a map.
abbrev pub IsFlatCr : Override → Type 0
IsFlatCr cr = All (λ e. Flat e.value) (leaves cr.overrides [] (ref_of cr))

pub events-Flat : (crs : List Override) → All IsFlatCr crs → All (λ e. Flat e.value) (events crs)
unfolding events
events-Flat [] h = tt
events-Flat (cr ∷ crs) h =
    All-append (λ e. Flat e.value) (leaves cr.overrides [] (ref_of cr)) (events crs) h.0
      (events-Flat crs h.1)

-- All groups hold flat CRs only.
abbrev AreFlat : Dict (List Override) → Type 0
AreFlat [] = Unit
AreFlat ((tenant, group) ∷ groups) = All IsFlatCr group × AreFlat groups

lookup-AreFlat :
    (t : Str) (groups : Dict (List Override))
    → AreFlat groups
    → All IsFlatCr (or_nil (lookup t groups))
unfolding lookup
lookup-AreFlat t [] h = tt
lookup-AreFlat t ((tenant, group) ∷ groups) h = elim (Bool-cases (str_eq tenant t)) [
  | inl own ↦ rw own h.0
  | inr other ↦ rw other (lookup-AreFlat t groups h.1)
]

insert-AreFlat :
    (t : Str) (group : List Override) (groups : Dict (List Override))
    → All IsFlatCr group
    → AreFlat groups
    → AreFlat (insert t group groups)
unfolding insert
insert-AreFlat t group [] hg h = (hg, tt)
insert-AreFlat t group ((tenant, old) ∷ groups) hg h = elim (Bool-cases (str_eq tenant t)) [
  | inl own ↦ rw own (hg, h.1)
  | inr other ↦ rw other (h.0, insert-AreFlat t group groups hg h.1)
]

group_from-AreFlat :
    (out : Dict (List Override)) (crs : List Override)
    → AreFlat out
    → All IsFlatCr crs
    → AreFlat (group_from out crs)
unfolding group_from
group_from-AreFlat out [] h hc = h
group_from-AreFlat out (cr ∷ crs) h hc =
    group_from-AreFlat (insert cr.tenant_id (or_nil (lookup cr.tenant_id out) ++ (cr ∷ [])) out) crs
      (insert-AreFlat cr.tenant_id (or_nil (lookup cr.tenant_id out) ++ (cr ∷ [])) out
        (All-append IsFlatCr (or_nil (lookup cr.tenant_id out)) (cr ∷ [])
          (lookup-AreFlat cr.tenant_id out h) (hc.0, tt))
        h)
      hc.1

pub sort_group-flat : (group : List Override) → All IsFlatCr group → All IsFlatCr (sort_group group)
unfolding sort_group
sort_group-flat group h = sort_stable-All compare_override IsFlatCr group h

module _ (w : Platform) (r : Reconciler) where
  merging :
      (tenant : Str) (group : List Override) (result : Fields × List FieldConflict)
      → tracking_merge tenant (sort_group group) ≡ some result
      → Emits (of_option {C = w.Cluster} (tracking_merge tenant (sort_group group))) result
  merging tenant group result merged = rw merged (λ s. (refl, refl, refl))

  merge_groups-Emits_from :
      (groups : Dict (List Override)) (out : Output) (conflicts : Dict (List FieldConflict))
      → AreFlat groups
      → (out' : Output) × (conflicts' : Dict (List FieldConflict)) × Emits
          (merge_groups w r groups out conflicts)
          (out', conflicts')
  unfolding merge_groups
  merge_groups-Emits_from [] out conflicts h = (out, conflicts, λ s. (refl, refl, refl))
  merge_groups-Emits_from ((tenant, group) ∷ groups) out conflicts h =
      let sorted = sort_group group in
      let (fcs, merged) =
        tracking_merge-total tenant sorted (events-Flat sorted (sort_group-flat group h.0)) in
      let result : Fields × List FieldConflict = (merge_all end sorted, fcs) in
      let first = merging tenant group result merged in
      elim (Option-cases (r.validate (merge_all end sorted))) [
        | inl valid ↦
            let (out', conflicts', runs) =
              merge_groups-Emits_from groups (insert tenant (merge_all end sorted) out)
                (insert tenant fcs conflicts) h.1 in
            (out', conflicts', Emits-bind _ _ result (out', conflicts') first (rw valid runs))
        | inr (e, invalid) ↦
            let (out', conflicts', runs) = merge_groups-Emits_from groups out conflicts h.1 in
            (
              out',
              conflicts',
              Emits-bind _ _ result (out', conflicts') first
                  (rw invalid
                    (Emits-then _ _ tt (out', conflicts') (λ s. (refl, refl, refl)) runs)),
            )
      ]

  -- On flat CRs the merge loop returns and changes neither cluster nor hash cache.
  pub merge_groups-Emits :
      (valid : List Override)
      → All IsFlatCr valid
      → (out : Output) × (conflicts : Dict (List FieldConflict)) × Emits
          (merge_groups w r (group_by_tenant valid) [] [])
          (out, conflicts)
  unfolding group_by_tenant
  merge_groups-Emits valid h =
      merge_groups-Emits_from (group_by_tenant valid) [] [] (group_from-AreFlat [] valid tt h)

  -- Where no array of a valid CR holds a map, the merge loop of a reconcile returns, whatever the
  -- check says of the merged results and whatever the state.
  pub merge_groups-total :
      (valid : List Override) (s : State w.Cluster)
      → All IsFlatCr valid
      → (out : Output) × (conflicts : Dict (List FieldConflict)) × Gives w r
          (group_by_tenant valid)
          []
          []
          s
          out
          conflicts
  merge_groups-total valid s h =
      let (out, conflicts, runs) = merge_groups-Emits valid h in (out, conflicts, (runs s).0)
