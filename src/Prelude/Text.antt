-- ===== src/Prelude/Text.antt =====
-- Go's strings: sequences of bytes, compared byte by byte (`==` and `strings.Compare`), and the
-- decimal printing that `fmt` does.
use Prim.Native.Nat.{ℕ, zero, suc, ◌+◌, ◌/◌, ◌%◌, compare, Ordering}
use Prim.Native.Char.{code}
use Prim.Native.String.{String}
use mathlib.Core.Path.{◌≡◌, refl, ap₂}
use mathlib.Core.Logic.{◌↔◌}
use mathlib.Core.Bool.{Bool, true, false, ◌&&◌}
use mathlib.Core.List.{List, [], ◌∷◌}
use native.Mathlib.Omega.{arith}
use runtime_overrides_operat.Prelude.Tests.{◌==◌, ==_iff, ltb, &&_split, if◌then◌else◌}

abbrev pub Str : Type 0
Str = List ℕ

-- The bytes of an ASCII literal.
abbrev pub bytes : String → Str
bytes String.[] = []
bytes (String.◌∷◌ c s) = code c ∷ bytes s

unfoldable pub str_eq : Str → Str → Bool
str_eq [] [] = true
str_eq [] (y ∷ ys) = false
str_eq (x ∷ xs) [] = false
str_eq (x ∷ xs) (y ∷ ys) = x == y && str_eq xs ys

pub str_eq_sound : (s t : Str) → str_eq s t ≡ true → s ≡ t
unfolding str_eq
str_eq_sound [] [] h = refl
str_eq_sound [] (y ∷ ys) h = ground arith
str_eq_sound (x ∷ xs) [] h = ground arith
str_eq_sound (x ∷ xs) (y ∷ ys) h =
    let both = &&_split (x == y) (str_eq xs ys) h in
    ap₂ ◌∷◌ ((==_iff x y).0 both.0) (str_eq_sound xs ys both.1)

pub str_eq_refl : (s : Str) → str_eq s s ≡ true
unfolding str_eq
str_eq_refl [] = refl
str_eq_refl (x ∷ xs) = ground (arith, str_eq_refl xs)

pub str_eq_iff : (s t : Str) → (str_eq s t ≡ true) ↔ (s ≡ t)
str_eq_iff s t = (str_eq_sound s t, λ e. rw e (str_eq_refl t))

-- `strings.Compare`.
unfoldable pub compare_str : Str → Str → Ordering
compare_str [] [] = Ordering.eq
compare_str [] (y ∷ ys) = Ordering.lt
compare_str (x ∷ xs) [] = Ordering.gt
compare_str (x ∷ xs) (y ∷ ys) = elim (compare x y) [
  | Ordering.lt ↦ Ordering.lt
  | Ordering.eq ↦ compare_str xs ys
  | Ordering.gt ↦ Ordering.gt
]

-- The decimal digits of a number, most significant first; a number has at most as many digits as
-- its value plus one, which is the fuel.
unfoldable pub digits : ℕ → ℕ → Str → Str
digits zero n acc = acc
digits (suc fuel) n acc =
    let rest = digits fuel (n / 10) ((48 + n % 10) ∷ acc) in
    if ltb n 10 then (48 + n) ∷ acc else rest

unfoldable pub print_nat : ℕ → Str
unfolding digits
print_nat n = digits (suc n) n []

print_nat_runs : print_nat 4070 ≡ bytes "4070"
unfolding print_nat
print_nat_runs = refl

compare_str_runs : compare_str (bytes "team-b") (bytes "team-a") ≡ Ordering.gt
unfolding compare_str
compare_str_runs = refl
