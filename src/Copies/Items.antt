-- ===== src/Copies/Items.antt =====
-- Deep copies of the lists of api/v1alpha1/zz_generated.deepcopy.go beside their originals.
use mathlib.Core.Option
use runtime_overrides_operat.Prelude.{Dict, Str, ℕ, ◌≤◌, Option, none, some, List, length, All, map}
use runtime_overrides_operat.Api.{TenantOverride}
use runtime_overrides_operat.Copies.{Heap, OverrideObject, OverrideList, read_override, read_cell}
use runtime_overrides_operat.Copies.Laws.{IsWf}

-- No cell is gone.
abbrev Longer : Heap → Heap → Type 0
Longer h h' =
    (length h.raws ≤ length h'.raws)
    × (length h.conditions ≤ length h'.conditions)
    × (length h.peers ≤ length h'.peers)
    × (length h.metas ≤ length h'.metas)

-- What a list is, read over the heap; a nil list stays nil.
abbrev pub read_items : Heap → OverrideList → Option (List (TenantOverride × Dict Str))
read_items h l = Option.map (map (read_override h)) l.items

-- With the metadata of the list.
abbrev pub read_list :
    Heap → OverrideList → Str × Option ℕ × Option (List (TenantOverride × Dict Str))
read_list h l = (l.resource_version, read_cell 0 h.counts l.remaining_item_count, read_items h l)

abbrev pub AllWf : Heap → Option (List OverrideObject) → Type 0
AllWf h none = Unit
AllWf h (some os) = All (IsWf h) os
