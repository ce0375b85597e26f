-- ===== src/Text/Parse.antt =====
-- util.h `atox`, `atoul`, `atou`: read a number. A string is the list of its character codes up to the
-- null; a code above 127 is negative in the source, which no test below tells from other letters.
use yalloc.Base.{
  ℕ, ◌+◌, ◌-◌, ◌*◌, ◌%◌, ◌^◌, bit_or, Bool, false, ◌&&◌, Option, none, some, List, [], ◌∷◌, leb,
  ◌==◌, if◌then◌else◌,
}

abbrev pub is_decimal : ℕ → Bool
is_decimal c = leb 48 c && leb c 57

-- What a hexadecimal digit adds, or none for another character.
unfoldable pub hex_val : ℕ → Option ℕ
hex_val c =
    let letter = bit_or c 32 in
    if is_decimal c
    then some (c - 48)
    else if leb 97 letter && leb letter 102
    then some (letter - 97 + 10)
    else none

-- Once the digit is known: `x` is shifted before the character is looked at.
abbrev pub atox_digit : (ℕ → ℕ) → ℕ → Option ℕ → ℕ
atox_digit rest x none = x * 16 % 2 ^ 64
atox_digit rest x (some d) = rest ((x * 16 % 2 ^ 64 + d) % 2 ^ 64)

unfoldable pub atox_loop : ℕ → List ℕ → ℕ
atox_loop x [] = x
atox_loop x (c ∷ s) =
    let rest : ℕ → ℕ = λ n. atox_loop n s in
    if c == 0 then x else if c == 46 then rest x else atox_digit rest x (hex_val c)

unfoldable pub atox : List ℕ → ℕ
atox s = atox_loop 0 s

unfoldable pub atoul_loop : ℕ → List ℕ → ℕ
atoul_loop x [] = x
atoul_loop x (c ∷ p) =
    let rest : ℕ → ℕ = λ n. atoul_loop n p in
    if c == 0
    then x
    else if c == 46
    then rest x
    else if is_decimal c
    then rest ((x * 10 + (c - 48)) % 2 ^ 64)
    else x

-- `*p == '0' && (p[1] | 0x20) == 'x'`
unfoldable pub has_prefix : List ℕ → Bool
has_prefix [] = false
has_prefix (c ∷ []) = false
has_prefix (c ∷ d ∷ p) = (c == 48) && (bit_or d 32 == 120)

abbrev pub skip_prefix : List ℕ → List ℕ
skip_prefix [] = []
skip_prefix (c ∷ []) = []
skip_prefix (c ∷ d ∷ p) = p

unfoldable pub atoul : List ℕ → ℕ
atoul p = if has_prefix p then atox (skip_prefix p) else atoul_loop 0 p

unfoldable pub atou : List ℕ → ℕ
atou p = atoul p % 2 ^ 32
