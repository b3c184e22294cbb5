-- ===== src/Copies/Laws.antt =====
-- Deep copies of api/v1alpha1/zz_generated.deepcopy.go beside their originals.
use runtime_overrides_operat.Prelude.{Dict, Str, ℕ, ◌<◌, List, [], ◌∷◌, ◌≡◌, refl, ap₂, ◌∙◌, length}
use runtime_overrides_operat.Api.{Condition}
use runtime_overrides_operat.Copies.{
  get_cell, Heap, OverrideObject, copy_conditions, override_deep_copy_into, spec_deep_copy_into,
  status_deep_copy_into, read_override, Mutation, set_raw, set_conditions, set_peers, set_metadata,
  mutate, mutate_all,
}
use runtime_overrides_operat.Copies.Cells.{
  Below, From, read_cell-Agrees, read_slice-Agrees, write_at-agree, new_cell-agrees, new_cell-From,
  new_cell-Below, read_cell-new_cell, read_slice-new_cell,
}

-- All references of the object point to cells that are there.
abbrev pub IsWf : Heap → OverrideObject → Type 0
IsWf h o =
    Below (length h.raws) o.spec.overrides
    × Below (length h.conditions) o.status.conditions
    × Below (length h.peers) o.status.contributing_peers
    × Below (length h.metas) o.metadata

-- No reference of the object points to a cell of this heap.
abbrev pub IsNew : Heap → OverrideObject → Type 0
IsNew h o =
    From (length h.raws) o.spec.overrides
    × From (length h.conditions) o.status.conditions
    × From (length h.peers) o.status.contributing_peers
    × From (length h.metas) o.metadata

-- A heap agrees with another on the cells that are there.
pub record Agrees (h h' : Heap) : Type 0 where
  pub raws_agree : (p : ℕ) → p < length h.raws → get_cell [] h'.raws p ≡ get_cell [] h.raws p
  pub conditions_agree :
      (p : ℕ) → p < length h.conditions → get_cell [] h'.conditions p ≡ get_cell [] h.conditions p
  pub peers_agree : (p : ℕ) → p < length h.peers → get_cell [] h'.peers p ≡ get_cell [] h.peers p
  pub metas_agree : (p : ℕ) → p < length h.metas → get_cell [] h'.metas p ≡ get_cell [] h.metas p

pub read_override-Agrees :
    (h h' : Heap) (o : OverrideObject)
    → Agrees h h'
    → IsWf h o
    → read_override h' o ≡ read_override h o
read_override-Agrees h h' o agrees wf =
    rw
      (
        read_cell-Agrees [] h.raws h'.raws o.spec.overrides agrees.raws_agree wf.0,
        read_slice-Agrees h.conditions h'.conditions o.status.conditions agrees.conditions_agree
            wf.1,
        read_slice-Agrees h.peers h'.peers o.status.contributing_peers agrees.peers_agree wf.2,
        read_slice-Agrees h.metas h'.metas o.metadata agrees.metas_agree wf.3,
      )
      refl

mutate-Agrees :
    (h h' : Heap) (o : OverrideObject) (m : Mutation)
    → IsNew h o
    → Agrees h h'
    → Agrees h (mutate o m h')
mutate-Agrees h h' o (set_raw raw) new agrees = record {
  raws_agree = λ p below.
      write_at-agree [] (length h.raws) o.spec.overrides raw h'.raws p new.0 below
      ∙ agrees.raws_agree p below;
  conditions_agree = agrees.conditions_agree;
  peers_agree = agrees.peers_agree;
  metas_agree = agrees.metas_agree;
}
mutate-Agrees h h' o (set_conditions cs) new agrees = record {
  raws_agree = agrees.raws_agree;
  conditions_agree = λ p below.
      write_at-agree [] (length h.conditions) o.status.conditions cs h'.conditions p new.1 below
      ∙ agrees.conditions_agree p below;
  peers_agree = agrees.peers_agree;
  metas_agree = agrees.metas_agree;
}
mutate-Agrees h h' o (set_peers ps) new agrees = record {
  raws_agree = agrees.raws_agree;
  conditions_agree = agrees.conditions_agree;
  peers_agree = λ p below.
      write_at-agree [] (length h.peers) o.status.contributing_peers ps h'.peers p new.2 below
      ∙ agrees.peers_agree p below;
  metas_agree = agrees.metas_agree;
}
mutate-Agrees h h' o (set_metadata m) new agrees = record {
  raws_agree = agrees.raws_agree;
  conditions_agree = agrees.conditions_agree;
  peers_agree = agrees.peers_agree;
  metas_agree = λ p below.
      write_at-agree [] (length h.metas) o.metadata m h'.metas p new.3 below
      ∙ agrees.metas_agree p below;
}

mutate_all-Agrees :
    (h h' : Heap) (o : OverrideObject) (ms : List Mutation)
    → IsNew h o
    → Agrees h h'
    → Agrees h (mutate_all o ms h')
mutate_all-Agrees h h' o [] new agrees = agrees
mutate_all-Agrees h h' o (m ∷ ms) new agrees =
    mutate_all-Agrees h (mutate o m h') o ms new (mutate-Agrees h h' o m new agrees)

module _ (copy_raw : Str → Str) (copy_condition : Condition → Condition)
    (copy_meta : Dict Str → Dict Str) where
  module _ (raw_same : (raw : Str) → copy_raw raw ≡ raw)
      (condition_same : (c : Condition) → copy_condition c ≡ c)
      (meta_same : (m : Dict Str) → copy_meta m ≡ m) where
    copy_conditions_same :
        (cs : List Condition) → copy_conditions copy_raw copy_condition copy_meta cs ≡ cs
    copy_conditions_same [] = refl
    copy_conditions_same (c ∷ cs) = ap₂ ◌∷◌ (condition_same c) (copy_conditions_same cs)

    pub read_override-copy :
        (src : OverrideObject) (h : Heap)
        → let (out, h') = override_deep_copy_into copy_raw copy_condition copy_meta src h in
          read_override h' out ≡ read_override h src
    unfolding override_deep_copy_into spec_deep_copy_into status_deep_copy_into
    read_override-copy src h =
        rw
          (
            read_cell-new_cell [] copy_raw src.spec.overrides h.raws raw_same,
            read_slice-new_cell (copy_conditions copy_raw copy_condition copy_meta)
                src.status.conditions h.conditions copy_conditions_same,
            read_slice-new_cell (λ ps. ps) src.status.contributing_peers h.peers (λ ps. refl),
            read_slice-new_cell copy_meta src.metadata h.metas meta_same,
          )
          refl

  pub override_deep_copy_into-Agrees :
      (src : OverrideObject) (h : Heap)
      → Agrees h (override_deep_copy_into copy_raw copy_condition copy_meta src h).1
  unfolding override_deep_copy_into spec_deep_copy_into status_deep_copy_into
  override_deep_copy_into-Agrees src h = record {
    raws_agree = new_cell-agrees [] copy_raw src.spec.overrides h.raws;
    conditions_agree =
        new_cell-agrees [] (copy_conditions copy_raw copy_condition copy_meta) src.status.conditions
          h.conditions;
    peers_agree = new_cell-agrees [] (λ ps. ps) src.status.contributing_peers h.peers;
    metas_agree = new_cell-agrees [] copy_meta src.metadata h.metas;
  }

  override_deep_copy_into-IsNew :
      (src : OverrideObject) (h : Heap)
      → IsNew h (override_deep_copy_into copy_raw copy_condition copy_meta src h).0
  unfolding override_deep_copy_into spec_deep_copy_into status_deep_copy_into
  override_deep_copy_into-IsNew src h = (
    new_cell-From [] copy_raw src.spec.overrides h.raws,
    new_cell-From [] (copy_conditions copy_raw copy_condition copy_meta) src.status.conditions
        h.conditions,
    new_cell-From [] (λ ps. ps) src.status.contributing_peers h.peers,
    new_cell-From [] copy_meta src.metadata h.metas,
  )

  -- Where the API machinery's copies are equal to their originals, a deep copy of an object whose
  -- references point to cells that are there reads as the original, its metadata included; its own references point to
  -- cells that are there; and no writes through the copy change what the original reads as.
  pub override_deep_copy_into-independent :
      (src : OverrideObject) (h : Heap) (ms : List Mutation)
      → ((raw : Str) → copy_raw raw ≡ raw)
      → ((c : Condition) → copy_condition c ≡ c)
      → ((m : Dict Str) → copy_meta m ≡ m)
      → IsWf h src
      → let (out, h') = override_deep_copy_into copy_raw copy_condition copy_meta src h in
        (read_override h' out ≡ read_override h src)
        × IsWf h' out
        × (read_override (mutate_all out ms h') src ≡ read_override h src)
  unfolding override_deep_copy_into spec_deep_copy_into status_deep_copy_into
  override_deep_copy_into-independent src h ms raw_same condition_same meta_same wf =
      let (out, h') = override_deep_copy_into copy_raw copy_condition copy_meta src h in
      (
        read_override-copy raw_same condition_same meta_same src h,
        (
          new_cell-Below [] copy_raw src.spec.overrides h.raws,
          new_cell-Below [] (copy_conditions copy_raw copy_condition copy_meta)
              src.status.conditions h.conditions,
          new_cell-Below [] (λ ps. ps) src.status.contributing_peers h.peers,
          new_cell-Below [] copy_meta src.metadata h.metas,
        ),
        read_override-Agrees h (mutate_all out ms h') src
            (mutate_all-Agrees h h' out ms (override_deep_copy_into-IsNew src h)
              (override_deep_copy_into-Agrees src h))
            wf,
      )
