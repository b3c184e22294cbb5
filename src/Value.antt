-- ===== src/Value.antt =====
-- What `encoding/json` decodes into `any` (nil, bool, float64, string, []any, map[string]any), the
-- only values that internal/merge handles. A map is its list of entries in one iteration order;
-- a float64 is its IEEE 754 bit pattern.
use mathlib.Core.Option.{some-injective}
use runtime_overrides_operat.Prelude.{
  ℕ, ◌%◌, ◌^◌, ◌*◌, ◌==◌, ltb, if◌then◌else◌, Str, str_eq, str_eq_iff, Bool, not, ◌&&◌, ◌||◌,
  Option, none, some, false, subst, ◌≡◌, refl, arith, Bool-cases, inl, inr,
}

mutual
  pub data Value : Type 0 where
    null : Value
    bool : Bool → Value
    number : ℕ → Value
    text : Str → Value
    array : Items → Value
    object : Fields → Value

  pub data Items : Type 0 where
    nil : Items
    cons : Value → Items → Items

  pub data Fields : Type 0 where
    end : Fields
    field : Str → Value → Fields → Fields

-- `==` on float64: a NaN equals nothing, and the two zeros are equal.
unfoldable pub float_eq : ℕ → ℕ → Bool
float_eq a b =
    let magnitude_a = a % 2 ^ 63 in
    let magnitude_b = b % 2 ^ 63 in
    let inf = 2047 * 2 ^ 52 in
    not (ltb inf magnitude_a)
    && not (ltb inf magnitude_b)
    && (a == b || (magnitude_a == 0 && magnitude_b == 0))

-- `v, ok := m[k]`.
unfoldable pub get : Str → Fields → Option Value
get k end = none
get k (field j v fs) = if str_eq j k then some v else get k fs

-- `m[k] = v`.
unfoldable pub put : Str → Value → Fields → Fields
put k v end = field k v end
put k v (field j w fs) =
    let rest = put k v fs in if str_eq j k then field k v fs else field j w rest

-- No map that the value holds lists a key twice, as no Go map does.
abbrev mutual
  pub Distinct : Value → Type 0
  Distinct null = Unit
  Distinct (bool b) = Unit
  Distinct (number n) = Unit
  Distinct (text s) = Unit
  Distinct (array xs) = DistinctItems xs
  Distinct (object fs) = DistinctFields fs

  pub DistinctItems : Items → Type 0
  DistinctItems nil = Unit
  DistinctItems (cons v xs) = Distinct v × DistinctItems xs

  pub DistinctFields : Fields → Type 0
  DistinctFields end = Unit
  DistinctFields (field k v fs) = (get k fs ≡ none) × Distinct v × DistinctFields fs

pub get-put :
    (k j : Str) (v : Value) (m : Fields)
    → get j (put k v m) ≡ (if str_eq k j then some v else get j m)
unfolding get put
get-put k j v end = refl
get-put k j v (field i w m) =
    ground (arith, str_eq_iff k j, str_eq_iff i k, str_eq_iff i j, get-put k j v m)

get-put_fresh :
    (k j : Str) (v : Value) (m : Fields)
    → str_eq j k ≡ false
    → get j m ≡ none
    → get j (put k v m) ≡ none
get-put_fresh k j v m other fresh =
    rw (get-put k j v m) (ground (arith, str_eq_iff k j, str_eq_iff j k))

pub put-Distinct :
    (k : Str) (v : Value) (m : Fields) → Distinct v → DistinctFields m → DistinctFields (put k v m)
unfolding get put
put-Distinct k v end hv hm = (refl, hv, tt)
put-Distinct k v (field i w m) hv hm = elim (Bool-cases (str_eq i k)) [
  | inl same ↦ rw same (rw (← ((str_eq_iff i k).0 same)) hm.0, hv, hm.2)
  | inr other ↦ rw other (get-put_fresh k i v m other hm.0, hm.1, put-Distinct k v m hv hm.2)
]

pub get-Distinct :
    (k : Str) (m : Fields) {v : Value} → DistinctFields m → get k m ≡ some v → Distinct v
unfolding get
get-Distinct k end h e = ground arith
get-Distinct k (field j w m) {v} h e = elim (Bool-cases (str_eq j k)) [
  | inl same ↦ subst Distinct (some-injective w v (rw same at e)) h.1
  | inr other ↦ get-Distinct k m h.2 (rw other at e)
]
