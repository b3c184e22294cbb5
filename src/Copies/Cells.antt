-- ===== src/Copies/Cells.antt =====
-- The cells of the heap over which api/v1alpha1/zz_generated.deepcopy.go copies.
use runtime_overrides_operat.Prelude.{
  ℕ, zero, suc, ◌<◌, ◌≤◌, Option, none, some, List, [], ◌∷◌, ◌++◌, ◌≡◌, refl, ap, ◌∙◌, arith,
  length, length-append,
}
use runtime_overrides_operat.Copies.{get_cell, set_cell, new_cell, read_slice, read_cell, write_at}

module _ {ℓ} {A : Type ℓ} (d : A) where
  pub get_cell-append :
      (xs ys : List A) (p : ℕ) → p < length xs → get_cell d (xs ++ ys) p ≡ get_cell d xs p
  get_cell-append [] ys p h = absurd (omega arith)
  get_cell-append (x ∷ xs) ys zero h = refl
  get_cell-append (x ∷ xs) ys (suc p) h = get_cell-append xs ys p (omega arith)

  pub get_cell_new : (xs : List A) (x : A) → get_cell d (xs ++ (x ∷ [])) (length xs) ≡ x
  get_cell_new [] x = refl
  get_cell_new (y ∷ xs) x = get_cell_new xs x

  pub get_cell-set_cell :
      (p q : ℕ) (x : A) (xs : List A) → p < q → get_cell d (set_cell q x xs) p ≡ get_cell d xs p
  get_cell-set_cell p q x [] h = refl
  get_cell-set_cell zero zero x (y ∷ xs) h = absurd (omega arith)
  get_cell-set_cell zero (suc q) x (y ∷ xs) h = refl
  get_cell-set_cell (suc p) zero x (y ∷ xs) h = absurd (omega arith)
  get_cell-set_cell (suc p) (suc q) x (y ∷ xs) h = get_cell-set_cell p q x xs (omega arith)

-- A reference points to a cell that is there, or below or from an address.
abbrev pub Below : ℕ → Option ℕ → Type 0
Below n none = Unit
Below n (some p) = p < n

abbrev pub From : ℕ → Option ℕ → Type 0
From n none = Unit
From n (some p) = n ≤ p

pub read_cell-Agrees :
    {A : Type 0} (d : A) (cells cells' : List A) (x : Option ℕ)
    → ((p : ℕ) → p < length cells → get_cell d cells' p ≡ get_cell d cells p)
    → Below (length cells) x
    → read_cell d cells' x ≡ read_cell d cells x
read_cell-Agrees d cells cells' none agree below = refl
read_cell-Agrees d cells cells' (some p) agree below = ap some (agree p below)

pub read_slice-Agrees :
    {A : Type 0} (cells cells' : List (List A)) (x : Option ℕ)
    → ((p : ℕ) → p < length cells → get_cell [] cells' p ≡ get_cell [] cells p)
    → Below (length cells) x
    → read_slice cells' x ≡ read_slice cells x
read_slice-Agrees cells cells' none agree below = refl
read_slice-Agrees cells cells' (some p) agree below = agree p below

pub write_at-agree :
    {A : Type 0} (d : A) (n : ℕ) (x : Option ℕ) (a : A) (cells : List A) (p : ℕ)
    → From n x
    → p < n
    → get_cell d (write_at x a cells) p ≡ get_cell d cells p
write_at-agree d n none a cells p from below = refl
write_at-agree d n (some q) a cells p from below =
    get_cell-set_cell d p q a cells (omega (arith, from, below))

module _ {A : Type 0} (d : A) (copy : A → A) where
  pub new_cell-agrees :
      (x : Option ℕ) (cells : List A) (p : ℕ)
      → p < length cells
      → get_cell d (new_cell d copy x cells).1 p ≡ get_cell d cells p
  new_cell-agrees none cells p below = refl
  new_cell-agrees (some q) cells p below =
      get_cell-append d cells (copy (get_cell d cells q) ∷ []) p below

  pub new_cell-From :
      (x : Option ℕ) (cells : List A) → From (length cells) (new_cell d copy x cells).0
  new_cell-From none cells = tt
  new_cell-From (some p) cells = omega arith

  pub new_cell-Below :
      (x : Option ℕ) (cells : List A)
      → Below (length (new_cell d copy x cells).1) (new_cell d copy x cells).0
  new_cell-Below none cells = tt
  new_cell-Below (some p) cells =
      omega (arith, length-append cells (copy (get_cell d cells p) ∷ []))

pub new_cell-longer :
    {A : Type 0} (d : A) (copy : A → A) (x : Option ℕ) (cells : List A)
    → length cells ≤ length (new_cell d copy x cells).1
new_cell-longer d copy none cells = omega arith
new_cell-longer d copy (some p) cells =
    omega (arith, length-append cells (copy (get_cell d cells p) ∷ []))

pub read_cell-new_cell :
    {A : Type 0} (d : A) (copy : A → A) (x : Option ℕ) (cells : List A)
    → ((a : A) → copy a ≡ a)
    → read_cell d (new_cell d copy x cells).1 (new_cell d copy x cells).0 ≡ read_cell d cells x
read_cell-new_cell d copy none cells same = refl
read_cell-new_cell d copy (some p) cells same =
    ap some (get_cell_new d cells (copy (get_cell d cells p)) ∙ same (get_cell d cells p))

pub read_slice-new_cell :
    {A : Type 0} (copy : List A → List A) (x : Option ℕ) (cells : List (List A))
    → ((l : List A) → copy l ≡ l)
    → read_slice (new_cell [] copy x cells).1 (new_cell [] copy x cells).0 ≡ read_slice cells x
read_slice-new_cell copy none cells same = refl
read_slice-new_cell copy (some p) cells same =
    get_cell_new [] cells (copy (get_cell [] cells p)) ∙ same (get_cell [] cells p)
