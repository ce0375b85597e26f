-- ===== src/Text/Hex.antt =====
-- printf.c `hexlcnv` against util.h `atox`: hexadecimal numbers are read back.
use native.Mathlib.Nat.{pow-suc}
use native.Mathlib.Decide.{ℕ_discrete}
use yalloc.Base.{
  ℕ, zero, suc, ◌+◌, ◌*◌, ◌/◌, ◌%◌, ◌^◌, ◌<◌, bit_and, Bool, false, true, List, [], ◌∷◌, ◌==◌,
  if◌then◌else◌, arith, ◌≡◌, ◌≢◌, refl, ◌∙◌,
}
use yalloc.Word.Masks.{bit_and_low}
use yalloc.Text.Digits.{entry, hextab, upper_hextab}
use yalloc.Text.Print.{hexlcnv_loop, hexlcnv}
use yalloc.Text.Parse.{atox_loop, atox}
use yalloc.Text.Tables.{Readable, hextab-Readable}

-- One hexadecimal digit is read.
atox_digit_lem :
    (x c d n : ℕ) (s : List ℕ)
    → Readable c d
    → n ≡ x * 16 + d
    → n < 2 ^ 64
    → atox_loop x (c ∷ s) ≡ atox_loop n s
unfolding atox_loop
atox_digit_lem x c d n s r e small =
    let sum : (x * 16 % 2 ^ 64 + d) % 2 ^ 64 ≡ n = omega arith in
    rw (r.no_nul, r.no_dot, r.value, sum) refl

-- A number that is not 0 has a digit.
pow_room : (left x : ℕ) → x ≢ 0 → x < 16 ^ left → 0 < left
pow_room zero x some_x lt = absurd (some_x (omega arith))
pow_room (suc left) x some_x lt = omega arith

module _ (tab : List ℕ) (readable : (d : ℕ) → d < 16 → Readable (entry tab d) d) where
  atox-hexlcnv_loop :
      (left x : ℕ) (end : List ℕ)
      → x < 16 ^ left
      → 0 < left
      → x < 2 ^ 64
      → atox_loop 0 (hexlcnv_loop tab left x end) ≡ atox_loop x end
  unfolding hexlcnv_loop
  atox-hexlcnv_loop zero x end lt some_left small = absurd (omega arith)
  atox-hexlcnv_loop (suc left) x end lt some_left small =
      let low : bit_and x 15 ≡ x % 16 = bit_and_low 4 x in
      elim (ℕ_discrete (x / 16) 0) [
        | yes e ↦
            let ended : (x / 16 == 0) ≡ true = ground arith in
            rw (ended, low)
              (atox_digit_lem 0 (entry tab (x % 16)) (x % 16) x end
                (readable (x % 16) (omega arith)) (omega arith) small)
        | no ne ↦
            let rest : x / 16 < 16 ^ left = omega (arith, lt, pow-suc 16 left) in
            let on : (x / 16 == 0) ≡ false = ground arith in
            rw (on, low)
              (atox-hexlcnv_loop left (x / 16) (entry tab (x % 16) ∷ end) rest
                  (pow_room left (x / 16) ne rest) (omega arith)
                ∙ atox_digit_lem (x / 16) (entry tab (x % 16)) (x % 16) x end
                    (readable (x % 16) (omega arith)) (omega arith) small)
      ]

-- A number of 64 bits that `hexlcnv` writes, in capitals or not, is read back by atox().
pub atox-hexlcnv : (x : ℕ) (case : Bool) → x < 2 ^ 64 → atox (hexlcnv [] x case) ≡ x
unfolding atox hexlcnv atox_loop
atox-hexlcnv x case small =
    atox-hexlcnv_loop (if case then upper_hextab else hextab) (hextab-Readable case) 16 x []
      (omega arith) (omega arith) small
