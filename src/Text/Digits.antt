-- ===== src/Text/Digits.antt =====
-- printf.c `hextab`, `Hextab`, `cnvtab`: the characters of the digits, by their codes.
use yalloc.Base.{ℕ, zero, suc, List, [], ◌∷◌}

-- `tab[i]`, for a place inside the table
unfoldable pub entry : List ℕ → ℕ → ℕ
entry [] i = 0
entry (c ∷ tab) zero = c
entry (c ∷ tab) (suc i) = entry tab i

abbrev pub hextab : List ℕ
hextab = 48 ∷ 49 ∷ 50 ∷ 51 ∷ 52 ∷ 53 ∷ 54 ∷ 55 ∷ 56 ∷ 57 ∷ 97 ∷ 98 ∷ 99 ∷ 100 ∷ 101 ∷ 102 ∷ []

abbrev pub upper_hextab : List ℕ
upper_hextab = 48 ∷ 49 ∷ 50 ∷ 51 ∷ 52 ∷ 53 ∷ 54 ∷ 55 ∷ 56 ∷ 57 ∷ 65 ∷ 66 ∷ 67 ∷ 68 ∷ 69 ∷ 70 ∷ []

-- the two digits of each number below 100
abbrev pub cnvtab : List ℕ
cnvtab =
    48 ∷ 48 ∷ 48 ∷ 49 ∷ 48 ∷ 50 ∷ 48 ∷ 51 ∷ 48 ∷ 52 ∷ 48 ∷ 53 ∷ 48 ∷ 54 ∷ 48 ∷ 55 ∷ 48 ∷ 56 ∷ 48
    ∷ 57 ∷ 49 ∷ 48 ∷ 49 ∷ 49 ∷ 49 ∷ 50 ∷ 49 ∷ 51 ∷ 49 ∷ 52 ∷ 49 ∷ 53 ∷ 49 ∷ 54 ∷ 49 ∷ 55 ∷ 49 ∷ 56
    ∷ 49 ∷ 57 ∷ 50 ∷ 48 ∷ 50 ∷ 49 ∷ 50 ∷ 50 ∷ 50 ∷ 51 ∷ 50 ∷ 52 ∷ 50 ∷ 53 ∷ 50 ∷ 54 ∷ 50 ∷ 55 ∷ 50
    ∷ 56 ∷ 50 ∷ 57 ∷ 51 ∷ 48 ∷ 51 ∷ 49 ∷ 51 ∷ 50 ∷ 51 ∷ 51 ∷ 51 ∷ 52 ∷ 51 ∷ 53 ∷ 51 ∷ 54 ∷ 51 ∷ 55
    ∷ 51 ∷ 56 ∷ 51 ∷ 57 ∷ 52 ∷ 48 ∷ 52 ∷ 49 ∷ 52 ∷ 50 ∷ 52 ∷ 51 ∷ 52 ∷ 52 ∷ 52 ∷ 53 ∷ 52 ∷ 54 ∷ 52
    ∷ 55 ∷ 52 ∷ 56 ∷ 52 ∷ 57 ∷ 53 ∷ 48 ∷ 53 ∷ 49 ∷ 53 ∷ 50 ∷ 53 ∷ 51 ∷ 53 ∷ 52 ∷ 53 ∷ 53 ∷ 53 ∷ 54
    ∷ 53 ∷ 55 ∷ 53 ∷ 56 ∷ 53 ∷ 57 ∷ 54 ∷ 48 ∷ 54 ∷ 49 ∷ 54 ∷ 50 ∷ 54 ∷ 51 ∷ 54 ∷ 52 ∷ 54 ∷ 53 ∷ 54
    ∷ 54 ∷ 54 ∷ 55 ∷ 54 ∷ 56 ∷ 54 ∷ 57 ∷ 55 ∷ 48 ∷ 55 ∷ 49 ∷ 55 ∷ 50 ∷ 55 ∷ 51 ∷ 55 ∷ 52 ∷ 55 ∷ 53
    ∷ 55 ∷ 54 ∷ 55 ∷ 55 ∷ 55 ∷ 56 ∷ 55 ∷ 57 ∷ 56 ∷ 48 ∷ 56 ∷ 49 ∷ 56 ∷ 50 ∷ 56 ∷ 51 ∷ 56 ∷ 52 ∷ 56
    ∷ 53 ∷ 56 ∷ 54 ∷ 56 ∷ 55 ∷ 56 ∷ 56 ∷ 56 ∷ 57 ∷ 57 ∷ 48 ∷ 57 ∷ 49 ∷ 57 ∷ 50 ∷ 57 ∷ 51 ∷ 57 ∷ 52
    ∷ 57 ∷ 53 ∷ 57 ∷ 54 ∷ 57 ∷ 55 ∷ 57 ∷ 56 ∷ 57 ∷ 57 ∷ []
