-- ===== src/Order.antt =====
-- Comparison functions with the results of Go's `cmp`, and the stable sort of the standard library
-- (`slices.SortStableFunc`, `sort.SliceStable`), here as an insertion sort: a stable sort by a
-- consistent comparison has only one result.
pub mod Text
pub mod Sort
use runtime_overrides_operat.Prelude.{
  Ordering, ◌≡◌, ◌≢◌, refl, arith, List, [], ◌∷◌, Ordering-cases, inl, inr,
}

abbrev pub flip_ord : Ordering → Ordering
flip_ord Ordering.lt = Ordering.gt
flip_ord Ordering.eq = Ordering.eq
flip_ord Ordering.gt = Ordering.lt

abbrev pub Le {ℓ} : {A : Type ℓ} → (A → A → Ordering) → A → A → Type 0
Le cmp a b = cmp a b ≢ Ordering.gt

-- A comparison by which a sort has a meaning: a total preorder.
pub record IsOrder {ℓ} {A : Type ℓ} (cmp : A → A → Ordering) : Type ℓ where
  pub swaps : (a b : A) → cmp b a ≡ flip_ord (cmp a b)
  pub trans : (a b c : A) → Le cmp a b → Le cmp b c → Le cmp a c

module _ {ℓ} {A : Type ℓ} {cmp : A → A → Ordering} (o : IsOrder cmp) where
  pub cmp_refl : (a : A) → cmp a a ≡ Ordering.eq
  cmp_refl a = ground (arith, o.swaps a a)

  -- An equal element compares as its equal does.
  pub cmp_eq_left : (a b c : A) → cmp a b ≡ Ordering.eq → cmp a c ≡ cmp b c
  cmp_eq_left a b c e = ground (
    arith,
    o.swaps a b,
    o.swaps a c,
    o.swaps b c,
    o.trans a b c,
    o.trans b a c,
    o.trans c a b,
    o.trans c b a,
  )

-- Compare by the first, and by the second where that makes no difference.
abbrev pub then_by : Ordering → Ordering → Ordering
then_by Ordering.lt o = Ordering.lt
then_by Ordering.eq o = o
then_by Ordering.gt o = Ordering.gt

pub lexicographic-IsOrder {ℓ} :
    {A : Type ℓ} {f g : A → A → Ordering}
    → IsOrder f
    → IsOrder g
    → IsOrder (λ a b. then_by (f a b) (g a b))
lexicographic-IsOrder {f} {g} of og = record {
  swaps = λ a b. ground (arith, of.swaps a b, og.swaps a b);
  trans = λ a b c h k. ground (
    arith,
    of.swaps a b,
    of.swaps b c,
    of.swaps a c,
    of.trans a b c,
    of.trans b c a,
    of.trans c a b,
    of.trans c b a,
    og.trans a b c,
  );
}

-- Compare by a key.
pub on-IsOrder {ℓ κ} :
    {A : Type ℓ} {B : Type κ} {f : B → B → Ordering} (key : A → B)
    → IsOrder f
    → IsOrder (λ a b. f (key a) (key b))
on-IsOrder key o = record {
  swaps = λ a b. o.swaps (key a) (key b);
  trans = λ a b c. o.trans (key a) (key b) (key c);
}
