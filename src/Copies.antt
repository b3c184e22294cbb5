-- ===== src/Copies.antt =====
-- api/v1alpha1/zz_generated.deepcopy.go: the deep copies of the custom resources, over a heap that
-- holds what their pointers, slices and maps refer to. The two kinds have the same methods. The
-- copies of a raw extension, of a condition and of the metadata are the API machinery's.
pub mod Cells
pub mod Laws
pub mod Items
pub mod Mimir
use runtime_overrides_operat.Prelude.{
  Str, ℕ, zero, suc, ℤ, Option, none, some, List, [], ◌∷◌, ◌++◌, length, Dict,
}
use runtime_overrides_operat.Api.{
  Condition, ContributingPeer, TenantOverride, TenantOverrideSpec, TenantOverrideStatus,
}

module _ {ℓ} {A : Type ℓ} where
  -- The cell at an address, with what is read where there is none.
  abbrev pub get_cell : A → List A → ℕ → A
  get_cell d [] n = d
  get_cell d (x ∷ xs) zero = x
  get_cell d (x ∷ xs) (suc n) = get_cell d xs n

  abbrev pub set_cell : ℕ → A → List A → List A
  set_cell n a [] = []
  set_cell zero a (x ∷ xs) = a ∷ xs
  set_cell (suc n) a (x ∷ xs) = x ∷ set_cell n a xs

-- A new cell with a copy of the cell referred to; nil stays nil.
abbrev pub new_cell : {A : Type 0} → A → (A → A) → Option ℕ → List A → Option ℕ × List A
new_cell d copy none cells = (none, cells)
new_cell d copy (some p) cells = (some (length cells), cells ++ (copy (get_cell d cells p) ∷ []))

-- The raw extensions, the backing arrays of the slices, what the metadata of the objects refer to
-- (labels, annotations, owner references and the rest, as entries), and the counts that the metadata
-- of lists point to, by address.
pub record Heap : Type 0 where
  pub metas : List (Dict Str)
  pub counts : List ℕ
  pub raws : List Str
  pub conditions : List (List Condition)
  pub peers : List (List ContributingPeer)

-- The structs, `none` being a nil pointer or slice.
pub record SpecObject : Type 0 where
  pub tenant_id : Str
  pub weight : ℤ
  pub overrides : Option ℕ

pub record StatusObject : Type 0 where
  pub observed_generation : ℤ
  pub effective_tenant_id : Str
  pub conditions : Option ℕ
  pub contributing_peers : Option ℕ

pub record OverrideObject : Type 0 where
  pub namespace : Str
  pub name : Str
  pub generation : ℤ
  pub metadata : Option ℕ
  pub spec : SpecObject
  pub status : StatusObject

pub record OverrideList : Type 0 where
  pub resource_version : Str
  pub remaining_item_count : Option ℕ
  pub items : Option (List OverrideObject)

-- A struct has no references of its own.
unfoldable pub peer_deep_copy_into : ContributingPeer → ContributingPeer
peer_deep_copy_into src = src

unfoldable pub peer_deep_copy : Option ContributingPeer → Option ContributingPeer
unfolding peer_deep_copy_into
peer_deep_copy none = none
peer_deep_copy (some src) = some (peer_deep_copy_into src)

-- A nil receiver gives nil, else what is made.
abbrev pub unless_nil : {A : Type 0} → (A → Heap → A × Heap) → Option A → Heap → Option A × Heap
unless_nil copy none h = (none, h)
unless_nil copy (some src) h = let (out, h') = copy src h in (some out, h')

module _ (copy_raw : Str → Str) (copy_condition : Condition → Condition)
    (copy_meta : Dict Str → Dict Str) where
  abbrev pub copy_conditions : List Condition → List Condition
  copy_conditions [] = []
  copy_conditions (c ∷ cs) = copy_condition c ∷ copy_conditions cs

  unfoldable pub spec_deep_copy_into : SpecObject → Heap → SpecObject × Heap
  spec_deep_copy_into src h =
      let (overrides, raws) = new_cell [] copy_raw src.overrides h.raws in
      (record src { overrides = overrides }, record h { raws = raws })

  unfoldable pub spec_deep_copy : Option SpecObject → Heap → Option SpecObject × Heap
  unfolding spec_deep_copy_into
  spec_deep_copy = unless_nil spec_deep_copy_into

  unfoldable pub status_deep_copy_into : StatusObject → Heap → StatusObject × Heap
  status_deep_copy_into src h =
      let (conditions, all_conditions) = new_cell [] copy_conditions src.conditions h.conditions in
      let (peers, all_peers) = new_cell [] (λ ps. ps) src.contributing_peers h.peers in
      (
        record src { conditions = conditions; contributing_peers = peers },
        record h { conditions = all_conditions; peers = all_peers },
      )

  unfoldable pub status_deep_copy : Option StatusObject → Heap → Option StatusObject × Heap
  unfolding status_deep_copy_into
  status_deep_copy = unless_nil status_deep_copy_into

  unfoldable pub override_deep_copy_into : OverrideObject → Heap → OverrideObject × Heap
  unfolding spec_deep_copy_into status_deep_copy_into
  override_deep_copy_into src h =
      let (metadata, metas) = new_cell [] copy_meta src.metadata h.metas in
      let (spec, h') = spec_deep_copy_into src.spec (record h { metas = metas }) in
      let (status, h'') = status_deep_copy_into src.status h' in
      (record src { metadata = metadata; spec = spec; status = status }, h'')

  unfoldable pub override_deep_copy : Option OverrideObject → Heap → Option OverrideObject × Heap
  unfolding override_deep_copy_into
  override_deep_copy = unless_nil override_deep_copy_into

  -- `DeepCopyObject`: the copy as an object of any type, nil for a nil receiver.
  unfoldable pub override_deep_copy_object :
      Option OverrideObject → Heap → Option OverrideObject × Heap
  unfolding override_deep_copy
  override_deep_copy_object src h = override_deep_copy src h

  -- The loop over `Items`.
  unfoldable pub items_deep_copy_into : List OverrideObject → Heap → List OverrideObject × Heap
  unfolding override_deep_copy_into
  items_deep_copy_into [] h = ([], h)
  items_deep_copy_into (src ∷ srcs) h =
      let (out, h') = override_deep_copy_into src h in
      let (outs, h'') = items_deep_copy_into srcs h' in (out ∷ outs, h'')

  unfoldable pub list_deep_copy_into : OverrideList → Heap → OverrideList × Heap
  unfolding items_deep_copy_into
  list_deep_copy_into src h =
      let (count, counts) = new_cell 0 (λ n. n) src.remaining_item_count h.counts in
      let (items, h') = unless_nil items_deep_copy_into src.items (record h { counts = counts }) in
      (record src { remaining_item_count = count; items = items }, h')

  unfoldable pub list_deep_copy : Option OverrideList → Heap → Option OverrideList × Heap
  unfolding list_deep_copy_into
  list_deep_copy = unless_nil list_deep_copy_into

  unfoldable pub list_deep_copy_object : Option OverrideList → Heap → Option OverrideList × Heap
  unfolding list_deep_copy
  list_deep_copy_object src h = list_deep_copy src h

-- What an object is, read over the heap; a nil slice is read as an empty one.
abbrev pub read_slice : {A : Type 0} → List (List A) → Option ℕ → List A
read_slice cells none = []
read_slice cells (some p) = get_cell [] cells p

abbrev pub read_cell : {A : Type 0} → A → List A → Option ℕ → Option A
read_cell d cells none = none
read_cell d cells (some p) = some (get_cell d cells p)

abbrev pub read_spec : Heap → SpecObject → TenantOverrideSpec
read_spec h o = record {
  tenant_id = o.tenant_id;
  weight = o.weight;
  overrides = read_cell [] h.raws o.overrides;
}

abbrev pub read_status : Heap → StatusObject → TenantOverrideStatus
read_status h o = record {
  observed_generation = o.observed_generation;
  effective_tenant_id = o.effective_tenant_id;
  conditions = read_slice h.conditions o.conditions;
  contributing_peers = read_slice h.peers o.contributing_peers;
}

abbrev pub read_fields : Heap → OverrideObject → TenantOverride
read_fields h o = record {
  namespace = o.namespace;
  name = o.name;
  generation = o.generation;
  spec = read_spec h o.spec;
  status = read_status h o.status;
}

-- The object, and what its metadata refer to.
abbrev pub read_override : Heap → OverrideObject → TenantOverride × Dict Str
read_override h o = (read_fields h o, read_slice h.metas o.metadata)

-- A write into what an object refers to.
pub data Mutation : Type 0 where
  set_raw : Str → Mutation
  set_conditions : List Condition → Mutation
  set_peers : List ContributingPeer → Mutation
  set_metadata : Dict Str → Mutation

abbrev pub write_at : {A : Type 0} → Option ℕ → A → List A → List A
write_at none a cells = cells
write_at (some p) a cells = set_cell p a cells

abbrev pub mutate : OverrideObject → Mutation → Heap → Heap
mutate o (set_raw raw) h = record h { raws = write_at o.spec.overrides raw h.raws }
mutate o (set_conditions cs) h = record h {
  conditions = write_at o.status.conditions cs h.conditions;
}
mutate o (set_peers ps) h = record h { peers = write_at o.status.contributing_peers ps h.peers }
mutate o (set_metadata m) h = record h { metas = write_at o.metadata m h.metas }

abbrev pub mutate_all : OverrideObject → List Mutation → Heap → Heap
mutate_all o [] h = h
mutate_all o (m ∷ ms) h = mutate_all o ms (mutate o m h)
