-- ===== src/Copies/Mimir.antt =====
-- api/v1alpha1/zz_generated.deepcopy.go: the methods of the Mimir kind, which are those of the Loki
-- kind line by line.
use runtime_overrides_operat.Prelude.{Str, Option, Dict}
use runtime_overrides_operat.Api.{Condition}
use runtime_overrides_operat.Copies.{
  Heap, SpecObject, StatusObject, OverrideObject, OverrideList, spec_deep_copy_into, spec_deep_copy,
  status_deep_copy_into, status_deep_copy, override_deep_copy_into, override_deep_copy,
  list_deep_copy_into, list_deep_copy, override_deep_copy_object, list_deep_copy_object,
}

module _ (copy_raw : Str → Str) (copy_condition : Condition → Condition)
    (copy_meta : Dict Str → Dict Str) where
  unfoldable pub mimir_spec_deep_copy_into : SpecObject → Heap → SpecObject × Heap
  mimir_spec_deep_copy_into = spec_deep_copy_into copy_raw copy_condition copy_meta

  unfoldable pub mimir_spec_deep_copy : Option SpecObject → Heap → Option SpecObject × Heap
  mimir_spec_deep_copy = spec_deep_copy copy_raw copy_condition copy_meta

  unfoldable pub mimir_status_deep_copy_into : StatusObject → Heap → StatusObject × Heap
  mimir_status_deep_copy_into = status_deep_copy_into copy_raw copy_condition copy_meta

  unfoldable pub mimir_status_deep_copy : Option StatusObject → Heap → Option StatusObject × Heap
  mimir_status_deep_copy = status_deep_copy copy_raw copy_condition copy_meta

  unfoldable pub mimir_override_deep_copy_into : OverrideObject → Heap → OverrideObject × Heap
  mimir_override_deep_copy_into = override_deep_copy_into copy_raw copy_condition copy_meta

  unfoldable pub mimir_override_deep_copy :
      Option OverrideObject → Heap → Option OverrideObject × Heap
  mimir_override_deep_copy = override_deep_copy copy_raw copy_condition copy_meta

  unfoldable pub mimir_override_deep_copy_object :
      Option OverrideObject → Heap → Option OverrideObject × Heap
  mimir_override_deep_copy_object = override_deep_copy_object copy_raw copy_condition copy_meta

  unfoldable pub mimir_list_deep_copy_into : OverrideList → Heap → OverrideList × Heap
  mimir_list_deep_copy_into = list_deep_copy_into copy_raw copy_condition copy_meta

  unfoldable pub mimir_list_deep_copy : Option OverrideList → Heap → Option OverrideList × Heap
  mimir_list_deep_copy = list_deep_copy copy_raw copy_condition copy_meta

  unfoldable pub mimir_list_deep_copy_object :
      Option OverrideList → Heap → Option OverrideList × Heap
  mimir_list_deep_copy_object = list_deep_copy_object copy_raw copy_condition copy_meta
