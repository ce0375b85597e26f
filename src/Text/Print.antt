-- ===== src/Text/Print.antt =====
-- printf.c `ucnv`, `ulcnv`, `hexlcnv`: write a number backwards. What stands from `*end` on is a list of
-- character codes. The rounds of a loop are counted: 10 write two decimal digits each of a number of
-- 64 bits, 16 its hexadecimal digits, and 20 are more than a number of 32 bits needs.
use yalloc.Base.{
  ℕ, zero, suc, ◌+◌, ◌*◌, ◌/◌, ◌%◌, bit_and, Bool, List, ◌∷◌, leb, ◌==◌, if◌then◌else◌,
}
use yalloc.Text.Digits.{entry, hextab, upper_hextab, cnvtab}

-- `do *--end = x % 10 + '0'; while (x /= 10);`
unfoldable pub ucnv_loop : ℕ → ℕ → List ℕ → List ℕ
ucnv_loop zero x end = end
ucnv_loop (suc left) x end =
    let end' = (x % 10 + 48) % 256 ∷ end in
    let rest = ucnv_loop left (x / 10) end' in if x / 10 == 0 then end' else rest

unfoldable pub ucnv : List ℕ → ℕ → List ℕ
ucnv end x = ucnv_loop 20 x end

-- `while (x >= 10)`, and the digit that is left
unfoldable pub ulcnv_loop : ℕ → ℕ → List ℕ → List ℕ
ulcnv_loop zero x end = end
ulcnv_loop (suc left) x end =
    let p = 2 * (x % 100) in
    let rest = ulcnv_loop left (x / 100) (entry cnvtab p ∷ entry cnvtab (p + 1) ∷ end) in
    if leb 10 x then rest else if x == 0 then end else (x + 48) % 256 ∷ end

unfoldable pub ulcnv : List ℕ → ℕ → List ℕ
ulcnv end x = if x == 0 then 48 ∷ end else ulcnv_loop 10 x end

unfoldable pub hexlcnv_loop : List ℕ → ℕ → ℕ → List ℕ → List ℕ
hexlcnv_loop tab zero x end = end
hexlcnv_loop tab (suc left) x end =
    let end' = entry tab (bit_and x 15) ∷ end in
    let rest = hexlcnv_loop tab left (x / 16) end' in if x / 16 == 0 then end' else rest

unfoldable pub hexlcnv : List ℕ → ℕ → Bool → List ℕ
hexlcnv end x case = hexlcnv_loop (if case then upper_hextab else hextab) 16 x end
