-- ===== src/Order/Text.antt =====
-- `strings.Compare` and the comparison of weights, as orders.
use runtime_overrides_operat.Prelude.{
  Ordering, Str, compare_str, [], ◌∷◌, ◌≡◌, refl, arith, ℤ, compare_ℤ,
}
use runtime_overrides_operat.Order.{IsOrder, flip_ord, Le}

compare_str-swaps : (s t : Str) → compare_str t s ≡ flip_ord (compare_str s t)
unfolding compare_str
compare_str-swaps [] [] = refl
compare_str-swaps [] (y ∷ ys) = refl
compare_str-swaps (x ∷ xs) [] = refl
compare_str-swaps (x ∷ xs) (y ∷ ys) = ground (arith, compare_str-swaps xs ys)

compare_str_trans : (s t u : Str) → Le compare_str s t → Le compare_str t u → Le compare_str s u
unfolding compare_str
compare_str_trans [] [] [] h k = h
compare_str_trans [] t (z ∷ zs) h k = λ e. cc
compare_str_trans [] (y ∷ ys) [] h k = λ e. k refl
compare_str_trans (x ∷ xs) [] u h k = absurd (h refl)
compare_str_trans (x ∷ xs) (y ∷ ys) [] h k = absurd (k refl)
compare_str_trans (x ∷ xs) (y ∷ ys) (z ∷ zs) h k = ground (arith, compare_str_trans xs ys zs)

pub compare_str-IsOrder : IsOrder compare_str
compare_str-IsOrder = record { swaps = compare_str-swaps; trans = compare_str_trans }

pub compare_str_eq : (s t : Str) → compare_str s t ≡ Ordering.eq → s ≡ t
unfolding compare_str
compare_str_eq [] [] h = refl
compare_str_eq [] (y ∷ ys) h = cc
compare_str_eq (x ∷ xs) [] h = cc
compare_str_eq (x ∷ xs) (y ∷ ys) h = ground (arith, compare_str_eq xs ys)

pub compare_ℤ-IsOrder : IsOrder compare_ℤ
compare_ℤ-IsOrder = record { swaps = λ a b. ground arith; trans = λ a b c h k. ground arith }

pub compare_ℤ_eq : (a b : ℤ) → compare_ℤ a b ≡ Ordering.eq → a ≡ b
compare_ℤ_eq a b h = ground arith
