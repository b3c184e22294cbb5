-- ===== src/Format.antt =====
-- The verbs of `fmt` that the program uses on text: `%q`, and concatenation.
use runtime_overrides_operat.Prelude.{
  Bool, true, false, ◌&&◌, leb, Option, none, some, ℕ, ◌+◌, ◌/◌, ◌%◌, Str, bytes, List, [], ◌∷◌,
  ◌++◌, ◌==◌, ltb, if◌then◌else◌, ◌≡◌, refl, ◌||◌,
}

abbrev pub concat : List Str → Str
concat [] = []
concat (s ∷ ss) = s ++ concat ss

abbrev hex_digit : ℕ → ℕ
hex_digit d = if ltb d 10 then 48 + d else 87 + d

-- The escape of one byte. A byte beyond ASCII stays as it is, as a printable character does.
quote_byte : ℕ → Str
quote_byte c =
    if c == b'"' || c == 92
    then 92 ∷ c ∷ []
    else if c == 7
    then bytes "\\a"
    else if c == 8
    then bytes "\\b"
    else if c == 9
    then bytes "\\t"
    else if c == 10
    then bytes "\\n"
    else if c == 11
    then bytes "\\v"
    else if c == 12
    then bytes "\\f"
    else if c == 13
    then bytes "\\r"
    else if ltb c 32 || c == 127
    then bytes "\\x" ++ (hex_digit (c / 16) ∷ hex_digit (c % 16) ∷ [])
    else c ∷ []

quote_bytes : Str → Str
quote_bytes [] = []
quote_bytes (c ∷ s) = quote_byte c ++ quote_bytes s

-- `%q`.
unfoldable pub quote : Str → Str
unfolding quote_byte quote_bytes
quote s = b'"' ∷ (quote_bytes s ++ (b'"' ∷ []))

quote_runs : quote (bytes "a\"b") ≡ bytes "\"a\\\"b\""
unfolding quote
quote_runs = refl

-- The ranges of the bytes that may follow the first byte of a code point, `none` for a byte that
-- begins none.
abbrev tail_byte : ℕ × ℕ
tail_byte = (128, 191)

abbrev in_range : ℕ × ℕ → ℕ → Bool
in_range (low, high) c = leb low c && leb c high

unfoldable pub tail_ranges : ℕ → Option (List (ℕ × ℕ))
tail_ranges c =
    if ltb c 128
    then some []
    else if in_range (194, 223) c
    then some (tail_byte ∷ [])
    else if c == 224
    then some ((160, 191) ∷ tail_byte ∷ [])
    else if c == 237
    then some ((128, 159) ∷ tail_byte ∷ [])
    else if in_range (225, 239) c
    then some (tail_byte ∷ tail_byte ∷ [])
    else if c == 240
    then some ((144, 191) ∷ tail_byte ∷ tail_byte ∷ [])
    else if c == 244
    then some ((128, 143) ∷ tail_byte ∷ tail_byte ∷ [])
    else if in_range (241, 243) c
    then some (tail_byte ∷ tail_byte ∷ tail_byte ∷ [])
    else none

unfoldable pub valid_from : List (ℕ × ℕ) → Str → Bool
unfolding tail_ranges
valid_from [] [] = true
valid_from (p ∷ ps) [] = false
valid_from [] (c ∷ s) = elim (tail_ranges c) [ none ↦ false | some ps ↦ valid_from ps s ]
valid_from (p ∷ ps) (c ∷ s) = let rest = valid_from ps s in if in_range p c then rest else false

-- `utf8.ValidString`.
unfoldable pub valid_string : Str → Bool
unfolding valid_from
valid_string = valid_from []
