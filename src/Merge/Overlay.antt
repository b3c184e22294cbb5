-- ===== src/Merge/Overlay.antt =====
-- `DeepMerge` of internal/merge/merge.go, path by path.
use runtime_overrides_operat.Prelude.{
  Bool, true, false, Str, Option, none, some, List, [], ◌∷◌, ◌≡◌, refl, ap, ◌∙◌, arith,
}
use runtime_overrides_operat.Value.{Value, object, Fields, end, get, Distinct, DistinctFields}
use runtime_overrides_operat.Merge.{deep_copy, merge_value, merge_fields, deep_merge}
use runtime_overrides_operat.Merge.View.{
  Node, absent, mapping, leaf, observe, observe_opt, blocked, overlay, SameView, here, blocked_opt,
  observe-cons, blocked-cons,
}
use runtime_overrides_operat.Merge.Laws.{
  deep_copy-eq, get-merge_fields, merged_entry, DistinctOpt, get-DistinctOpt,
}

-- What the overlay theorem says of the paths `p`.
abbrev OverlaysAt : List Str → Type 0
OverlaysAt p =
    (src dst : Fields)
    → DistinctFields src
    → observe p (object (merge_fields dst src))
      ≡ overlay (observe p (object src)) (blocked p (object src)) (observe p (object dst))

-- A leaf hides what was there before.
observe-leaf :
    (p : List Str) (v w : Value)
    → here v ≡ leaf v
    → observe p v ≡ overlay (observe p v) (blocked p v) (observe p w)
unfolding observe blocked
observe-leaf [] v w h = rw h refl
observe-leaf (k ∷ p) (object fs) w h = cc
observe-leaf (k ∷ p) v w h = refl

overlay-absent :
    (p : List Str) (v : Value) → observe p v ≡ overlay (observe p v) (blocked p v) absent
overlay-absent p v = ground arith

-- A map hides a leaf that was there before.
observe-over_leaf :
    (p : List Str) (fs : Fields) (w : Value)
    → here w ≡ leaf w
    → observe p (object fs) ≡ overlay (observe p (object fs)) (blocked p (object fs)) (observe p w)
unfolding observe blocked
observe-over_leaf [] fs w h = refl
observe-over_leaf (k ∷ p) fs (object gs) h = cc
observe-over_leaf (k ∷ p) fs w h = overlay-absent (k ∷ p) (object fs)

copied : (p : List Str) (v : Value) → Distinct v → observe p (deep_copy v) ≡ observe p v
copied p v h = ap (observe p) (deep_copy-eq v h)

observe-merge_value :
    (p : List Str) (v : Value) (existing : Option Value)
    → OverlaysAt p
    → Distinct v
    → observe p (merge_value v existing)
      ≡ overlay (observe p v) (blocked p v) (observe_opt p existing)
unfolding merge_value
observe-merge_value p (object fs) (some (object existing)) ih h = ih fs existing h
observe-merge_value p (object fs) (some w) ih h =
    copied p (object fs) h ∙ observe-over_leaf p fs w refl
observe-merge_value p (object fs) none ih h = copied p (object fs) h ∙ overlay-absent p (object fs)
observe-merge_value p v none ih h = copied p v h ∙ overlay-absent p v
observe-merge_value p v (some w) ih h = copied p v h ∙ observe-leaf p v w refl

observe-merged_entry :
    (p : List Str) (src dst : Option Value)
    → OverlaysAt p
    → DistinctOpt src
    → observe_opt p (merged_entry src dst)
      ≡ overlay (observe_opt p src) (blocked_opt p src) (observe_opt p dst)
observe-merged_entry p none dst ih h = refl
observe-merged_entry p (some v) dst ih h = observe-merge_value p v dst ih h

-- The merged document at a path.
pub observe-merge_fields : (p : List Str) → OverlaysAt p
observe-merge_fields [] src dst h = unfold observe blocked in refl
observe-merge_fields (k ∷ p) src dst h =
    simp (observe-cons, blocked-cons)
      (rw (get-merge_fields k src dst h) (
        observe-merged_entry p (get k src) (get k dst) (observe-merge_fields p)
          (get-DistinctOpt k src h)))

-- The document that a map variable stands for; the nil map reads as an empty one.
abbrev pub or_empty : Option Fields → Fields
or_empty none = end
or_empty (some dst) = dst

-- At every path the merge holds what `src` holds there; below a leaf of `src` it holds nothing;
-- and where `src` says nothing it holds what `dst` held, a nil `dst` holding nothing. `src` lists
-- no key twice.
pub deep_merge-overlay :
    (dst : Option Fields) (src : Fields) (p : List Str)
    → DistinctFields src
    → observe p (object (deep_merge dst src))
      ≡ overlay
          (observe p (object src))
          (blocked p (object src))
          (observe p (object (or_empty dst)))
unfolding deep_merge
deep_merge-overlay none src p h = observe-merge_fields p src end h
deep_merge-overlay (some dst) src p h = observe-merge_fields p src dst h

-- The result does not depend on the order in which Go iterates the maps: documents that hold the
-- same at every path merge into documents that hold the same at every path.
pub deep_merge-order_free :
    (dst dst' src src' : Fields)
    → DistinctFields src
    → DistinctFields src'
    → SameView (object dst) (object dst')
    → SameView (object src) (object src')
    → (p : List Str)
    → observe p (object (deep_merge (some dst) src))
      ≡ observe p (object (deep_merge (some dst') src'))
deep_merge-order_free dst dst' src src' hs hs' same_dst same_src p = rw (
  deep_merge-overlay (some dst) src p hs,
  deep_merge-overlay (some dst') src' p hs',
  (same_src p).0,
  (same_src p).1,
  (same_dst p).0,
)

overlay_idem : (n : Node) (b : Bool) (d : Node) → overlay n b (overlay n b d) ≡ overlay n b d
overlay_idem absent true d = refl
overlay_idem absent false d = refl
overlay_idem mapping b d = refl
overlay_idem (leaf v) b d = refl

-- Merging the same document a second time changes nothing at any path.
pub deep_merge_idem :
    (dst src : Fields) (p : List Str)
    → DistinctFields src
    → observe p (object (deep_merge (some (deep_merge (some dst) src)) src))
      ≡ observe p (object (deep_merge (some dst) src))
deep_merge_idem dst src p h =
    rw
      (
        deep_merge-overlay (some (deep_merge (some dst) src)) src p h,
        deep_merge-overlay (some dst) src p h,
      )
      (overlay_idem (observe p (object src)) (blocked p (object src)) (observe p (object dst)))
