-- ===== src/Merge/View.antt =====
-- What a document holds at a path of keys, whatever the order of the entries of its maps.
use runtime_overrides_operat.Prelude.{
  Str, Bool, true, false, Option, none, some, List, [], ◌∷◌, ◌≡◌, arith,
}
use runtime_overrides_operat.Value.{Value, null, bool, number, text, array, object, Fields, get}

-- A leaf is a value that is no map.
pub data Node : Type 0 where
  absent : Node
  mapping : Node
  leaf : Value → Node

abbrev pub here : Value → Node
here (object fs) = mapping
here null = leaf null
here (bool b) = leaf (bool b)
here (number n) = leaf (number n)
here (text s) = leaf (text s)
here (array xs) = leaf (array xs)

-- The map that a value is, for a step along a path.
abbrev pub child : Value → Str → Option Value
child (object fs) k = get k fs
child v k = none

unfoldable pub observe : List Str → Value → Node
observe [] v = here v
observe (k ∷ p) v = elim (child v k) [ none ↦ absent | some w ↦ observe p w ]

-- The path goes on below a leaf: what a map holds there cannot show.
unfoldable pub blocked : List Str → Value → Bool
blocked [] v = false
blocked (k ∷ p) (object fs) = elim (get k fs) [ none ↦ false | some w ↦ blocked p w ]
blocked (k ∷ p) v = true

-- The last document wins: at a path where it holds something, and below each leaf of it.
abbrev pub overlay : Node → Bool → Node → Node
overlay (leaf v) b earlier = leaf v
overlay mapping b earlier = mapping
overlay absent true earlier = absent
overlay absent false earlier = earlier

abbrev pub observe_opt : List Str → Option Value → Node
observe_opt p none = absent
observe_opt p (some v) = observe p v

abbrev pub blocked_opt : List Str → Option Value → Bool
blocked_opt p none = false
blocked_opt p (some v) = blocked p v

-- One step along a path.
pub observe-cons :
    (k : Str) (p : List Str) (v : Value) → observe (k ∷ p) v ≡ observe_opt p (child v k)
unfolding observe
observe-cons k p v = ground arith

pub blocked-cons :
    (k : Str) (p : List Str) (fs : Fields) → blocked (k ∷ p) (object fs) ≡ blocked_opt p (get k fs)
unfolding blocked
blocked-cons k p fs = ground arith

-- Two documents that hold the same at every path.
abbrev pub SameView : Value → Value → Type 0
SameView v w = (p : List Str) → (observe p v ≡ observe p w) × (blocked p v ≡ blocked p w)
