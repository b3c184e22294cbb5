-- ===== src/Tests/Copies.antt =====
-- A deep copy on a small heap (api/v1alpha1/zz_generated.deepcopy.go).
use runtime_overrides_operat.Prelude.{
  Dict, Str, bytes, pos, List, [], ◌∷◌, none, some, ◌≡◌, refl, arith,
}
use runtime_overrides_operat.Api.{Condition, condition}
use runtime_overrides_operat.Copies.{
  Heap, OverrideObject, OverrideList, override_deep_copy_into, read_override, Mutation, set_raw,
  set_conditions, set_metadata, mutate_all,
}
use runtime_overrides_operat.Copies.Laws.{IsWf, override_deep_copy_into-independent}

abbrev same_raw : Str → Str
same_raw raw = raw

abbrev same_condition : Condition → Condition
same_condition c = c

abbrev same_meta : Dict Str → Dict Str
same_meta m = m

abbrev heap : Heap
heap = record {
  metas = ((bytes "app", bytes "x") ∷ []) ∷ [];
  counts = 4 ∷ [];
  raws = bytes "{}" ∷ [];
  conditions = [] ∷ [];
  peers = [];
}

abbrev original : OverrideObject
original = record {
  namespace = bytes "ns";
  name = bytes "a";
  generation = pos 1;
  metadata = some 0;
  spec = record { tenant_id = []; weight = pos 0; overrides = some 0 };
  status = record {
    observed_generation = pos 1;
    effective_tenant_id = bytes "ns";
    conditions = some 0;
    contributing_peers = none;
  };
}

original-IsWf : IsWf heap original
original-IsWf = (omega arith, omega arith, tt, omega arith)

abbrev writes : List Mutation
writes = set_raw (bytes "[]") ∷ set_conditions (condition [] [] [] [] ∷ []) ∷ set_metadata [] ∷ []

override_deep_copy_into-independent_example :
    let (out, h') = override_deep_copy_into same_raw same_condition same_meta original heap in
    (read_override h' out ≡ read_override heap original)
    × IsWf h' out
    × (read_override (mutate_all out writes h') original ≡ read_override heap original)
override_deep_copy_into-independent_example =
    override_deep_copy_into-independent same_raw same_condition same_meta original heap writes
      (λ raw. refl) (λ c. refl) (λ m. refl) original-IsWf

abbrev originals : OverrideList
originals = record {
  resource_version = bytes "7";
  remaining_item_count = some 0;
  items = some (original ∷ original ∷ []);
}
