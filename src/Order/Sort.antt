-- ===== src/Order/Sort.antt =====
-- The stable sort by a comparison, and lemmas on its result.
use mathlib.Core.List.{Perm, Permᴰ}
use mathlib.Core.List.Perm
use runtime_overrides_operat.Prelude.{
  Ordering, Bool, true, false, List, [], ◌∷◌, ◌≡◌, ◌≢◌, refl, sym, ap, ◌∙◌, arith, All, keep, inl,
  inr, if◌then◌else◌, subst, Bool-cases,
}
use runtime_overrides_operat.Order.{IsOrder, Le, cmp_eq_left}

abbrev pub is_gt : Ordering → Bool
is_gt Ordering.gt = true
is_gt o = false

abbrev pub is_eq : Ordering → Bool
is_eq Ordering.eq = true
is_eq o = false

module _ {ℓ} {A : Type ℓ} (cmp : A → A → Ordering) where
  unfoldable pub insert_sorted : A → List A → List A
  insert_sorted x [] = x ∷ []
  insert_sorted x (y ∷ ys) =
      let rest = insert_sorted x ys in if is_gt (cmp x y) then y ∷ rest else x ∷ y ∷ ys

  unfoldable pub sort_stable : List A → List A
  unfolding insert_sorted
  sort_stable [] = []
  sort_stable (x ∷ xs) = insert_sorted x (sort_stable xs)

  abbrev pub IsSorted : List A → Type 0
  IsSorted [] = Unit
  IsSorted (x ∷ xs) = All (Le cmp x) xs × IsSorted xs

  -- No two elements compare as equal.
  abbrev pub Apart : List A → Type 0
  Apart [] = Unit
  Apart (x ∷ xs) = All (λ y. cmp x y ≢ Ordering.eq) xs × Apart xs

  All-insert_sorted :
      (P : A → Type 0) (x : A) (l : List A) → P x → All P l → All P (insert_sorted x l)
  unfolding insert_sorted
  All-insert_sorted P x [] hx hl = (hx, tt)
  All-insert_sorted P x (y ∷ ys) hx hl = elim (Bool-cases (is_gt (cmp x y))) [
    | inl after ↦ rw after (hl.0, All-insert_sorted P x ys hx hl.1)
    | inr before ↦ rw before (hx, hl)
  ]

  -- What holds of all elements holds of all after the sort.
  pub sort_stable-All : (P : A → Type 0) (l : List A) → All P l → All P (sort_stable l)
  unfolding sort_stable
  sort_stable-All P [] h = tt
  sort_stable-All P (x ∷ xs) h =
      All-insert_sorted P x (sort_stable xs) h.0 (sort_stable-All P xs h.1)

  insert_sorted-perm : (x : A) (l : List A) → Perm (insert_sorted x l) (x ∷ l)
  unfolding insert_sorted
  insert_sorted-perm x [] = Perm.rfl
  insert_sorted-perm x (y ∷ ys) = elim (Bool-cases (is_gt (cmp x y))) [
    | inl after ↦ rw after (Perm.trans (Perm.cons y (insert_sorted-perm x ys)) (Perm.swap x y ys))
    | inr before ↦ rw before Perm.rfl
  ]

  -- The result holds the elements of the input, as often.
  pub sort_stable-perm : (l : List A) → Perm (sort_stable l) l
  unfolding sort_stable
  sort_stable-perm [] = Perm.rfl
  sort_stable-perm (x ∷ xs) =
      Perm.trans (insert_sorted-perm x (sort_stable xs)) (Perm.cons x (sort_stable-perm xs))

  pub All-sort_stable : (P : A → Type 0) (l : List A) → All P l → All P (sort_stable l)
  unfolding sort_stable
  All-sort_stable P [] h = tt
  All-sort_stable P (x ∷ xs) h =
      All-insert_sorted P x (sort_stable xs) h.0 (All-sort_stable P xs h.1)

module _ {ℓ} {A : Type ℓ} {cmp : A → A → Ordering} (o : IsOrder cmp) where
  All-Le : (x y : A) (l : List A) → Le cmp x y → All (Le cmp y) l → All (Le cmp x) l
  All-Le x y [] h k = tt
  All-Le x y (z ∷ zs) h k = (o.trans x y z h k.0, All-Le x y zs h k.1)

  insert_sorted-IsSorted :
      (x : A) (l : List A) → IsSorted cmp l → IsSorted cmp (insert_sorted cmp x l)
  unfolding insert_sorted
  insert_sorted-IsSorted x [] h = (tt, tt)
  insert_sorted-IsSorted x (y ∷ ys) h = elim (Bool-cases (is_gt (cmp x y))) [
    | inl after ↦ rw after (
      All-insert_sorted cmp (Le cmp y) x ys (ground (arith, o.swaps x y)) h.0,
      insert_sorted-IsSorted x ys h.1,
    )
    | inr before ↦ let le : Le cmp x y = ground arith in rw before ((le, All-Le x y ys le h.0), h)
  ]

  -- No element of the result is greater than a later one.
  pub sort_stable-IsSorted : (l : List A) → IsSorted cmp (sort_stable cmp l)
  unfolding sort_stable
  sort_stable-IsSorted [] = tt
  sort_stable-IsSorted (x ∷ xs) =
      insert_sorted-IsSorted x (sort_stable cmp xs) (sort_stable-IsSorted xs)

  insert_sorted-keep :
      (z x : A) (l : List A)
      → keep (λ y. is_eq (cmp z y)) (insert_sorted cmp x l) ≡ keep (λ y. is_eq (cmp z y)) (x ∷ l)
  unfolding insert_sorted
  insert_sorted-keep z x [] = refl
  insert_sorted-keep z x (y ∷ ys) = elim (Bool-cases (is_gt (cmp x y))) [
    | inl after ↦
        rw after
          (ground (arith, insert_sorted-keep z x ys, cmp_eq_left o z x y, o.swaps z x, o.swaps z y))
    | inr before ↦ rw before refl
  ]

  -- Elements that compare as equal to one element keep their order.
  pub sort_stable-keep :
      (z : A) (l : List A)
      → keep (λ y. is_eq (cmp z y)) (sort_stable cmp l) ≡ keep (λ y. is_eq (cmp z y)) l
  unfolding sort_stable
  sort_stable-keep z [] = refl
  sort_stable-keep z (x ∷ xs) =
      insert_sorted-keep z x (sort_stable cmp xs)
      ∙ ap (λ r. if is_eq (cmp z x) then x ∷ r else r) (sort_stable-keep z xs)

  insert_sorted_comm :
      (x y : A) (l : List A)
      → cmp x y ≢ Ordering.eq
      → insert_sorted cmp x (insert_sorted cmp y l) ≡ insert_sorted cmp y (insert_sorted cmp x l)
  unfolding insert_sorted
  insert_sorted_comm x y [] h = ground (arith, o.swaps x y)
  insert_sorted_comm x y (z ∷ zs) h = ground (
    arith,
    insert_sorted_comm x y zs h,
    o.swaps x y,
    o.swaps x z,
    o.swaps y z,
    o.trans x y z,
    o.trans y x z,
  )

  All-perm : (P : A → Type 0) {l r : List A} → Permᴰ l r → All P l → All P r
  All-perm P Permᴰ.nil h = tt
  All-perm P (Permᴰ.cons e p) h = (subst P e h.0, All-perm P p h.1)
  All-perm P (Permᴰ.swap e f) h = (subst P f h.1.0, (subst P e h.0, h.1.1))
  All-perm P (Permᴰ.trans p q) h = All-perm P q (All-perm P p h)

  swap-Apart : (a b : A) (l : List A) → Apart cmp (a ∷ b ∷ l) → Apart cmp (b ∷ a ∷ l)
  swap-Apart a b l h = ((ground (arith, o.swaps a b), h.1.0), (h.0.1, h.1.1))

  Apart-perm : {l r : List A} → Permᴰ l r → Apart cmp l → Apart cmp r
  Apart-perm Permᴰ.nil h = tt
  Apart-perm (Permᴰ.cons {b = b} e p) h =
      (All-perm (λ y. cmp b y ≢ Ordering.eq) p (rw e at h.0), Apart-perm p h.1)
  Apart-perm (Permᴰ.swap {a = a} {b = b} {b' = b'} {l = l} e f) h =
      subst (λ z. Apart cmp (z ∷ b' ∷ l)) f
        (subst (λ z. Apart cmp (b ∷ z ∷ l)) e (swap-Apart a b l h))
  Apart-perm (Permᴰ.trans p q) h = Apart-perm q (Apart-perm p h)

  -- Where no two elements are equal the result does not depend on the order of the input.
  pub sort_stable-order_free :
      {l r : List A} → Permᴰ l r → Apart cmp l → sort_stable cmp l ≡ sort_stable cmp r
  unfolding sort_stable
  sort_stable-order_free Permᴰ.nil h = refl
  sort_stable-order_free (Permᴰ.cons e p) h = cc (e, sort_stable-order_free p h.1)
  sort_stable-order_free (Permᴰ.swap {a = a} {b = b} {l = l} e f) h =
      rw (sym e, sym f) (insert_sorted_comm a b (sort_stable cmp l) h.0.0)
  sort_stable-order_free (Permᴰ.trans p q) h =
      sort_stable-order_free p h ∙ sort_stable-order_free q (Apart-perm p h)
