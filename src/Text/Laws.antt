-- ===== src/Text/Laws.antt =====
-- printf.c against util.h: what is written is read back, and the two ways to write a decimal number agree.
use yalloc.Base.{
  ℕ, zero, suc, ◌+◌, ◌-◌, ◌*◌, ◌/◌, ◌%◌, ◌^◌, ◌<◌, ◌≤◌, Bool, true, false, ◌&&◌, List, [], ◌∷◌, leb,
  ◌==◌, arith, ◌≡◌, ◌≢◌, refl, ◌∙◌,
}
use native.Mathlib.Nat.{pow-suc}
use native.Mathlib.Decide.{dec_lt, ℕ_discrete}
use yalloc.Text.Print.{ucnv_loop, ucnv, ulcnv_loop, ulcnv}
use yalloc.Text.Parse.{atoul_loop, has_prefix, atoul, atou}
use yalloc.Text.Tables.{cnvtab_high, cnvtab_low, no_letter}

and_false : (b : Bool) → (b && false) ≡ false
and_false true = refl
and_false false = refl

ulcnv_loop_zero : (left : ℕ) (end : List ℕ) → ulcnv_loop left 0 end ≡ end
unfolding ulcnv_loop
ulcnv_loop_zero zero end = refl
ulcnv_loop_zero (suc left) end = refl

-- One decimal digit is read.
atoul_digit :
    (x d n : ℕ) (p : List ℕ)
    → d < 10
    → n ≡ x * 10 + d
    → n < 2 ^ 64
    → atoul_loop x ((d + 48) ∷ p) ≡ atoul_loop n p
unfolding atoul_loop
atoul_digit x d n p lt e small =
    let nul : (d + 48 == 0) ≡ false = ground arith in
    let dot : (d + 48 == 46) ≡ false = ground arith in
    let low : leb 48 (d + 48) ≡ true = ground arith in
    let high : leb (d + 48) 57 ≡ true = ground arith in
    let sum : (x * 10 + (d + 48 - 48)) % 2 ^ 64 ≡ n = omega arith in
    rw (nul, dot, low, high, sum) refl

-- What the loop of `ulcnv` writes is read as the number.
atoul-ulcnv_loop :
    (left x : ℕ) (end : List ℕ)
    → x < 100 ^ left
    → x < 2 ^ 64
    → atoul_loop 0 (ulcnv_loop left x end) ≡ atoul_loop x end
unfolding ulcnv_loop
atoul-ulcnv_loop zero x end lt small = let e : x ≡ 0 = omega arith in rw e refl
atoul-ulcnv_loop (suc left) x end lt small = elim (dec_lt x 10) [
  | no more ↦
      let over : leb 10 x ≡ true = ground arith in
      let high = cnvtab_high (x % 100) (omega arith) in
      let low = cnvtab_low (x % 100) (omega arith) in
      let end' = (x % 100 / 10 + 48) ∷ (x % 100 % 10 + 48) ∷ end in
      rw (over, high, low)
        (atoul-ulcnv_loop left (x / 100) end' (omega (arith, lt, pow-suc 100 left)) (omega arith)
          ∙ atoul_digit (x / 100) (x % 100 / 10) (x / 10) _ (omega arith) (omega arith)
              (omega arith)
          ∙ atoul_digit (x / 10) (x % 100 % 10) x end (omega arith) (omega arith) small)
  | yes one ↦
      let under : leb 10 x ≡ false = ground arith in
      let fits : (x + 48) % 256 ≡ x + 48 = omega arith in
      elim (ℕ_discrete x 0) [
        | yes e ↦ rw e refl
        | no ne ↦
            let some_left : (x == 0) ≡ false = ground arith in
            rw (under, some_left, fits) (atoul_digit 0 x x end one (omega arith) small)
      ]
]

-- The text of a decimal number has no prefix.
abbrev Plain : List ℕ → Type 0
Plain [] = 48 ≤ 57
Plain (c ∷ p) = ((48 ≤ c) × (c ≤ 57)) × Plain p

Plain-no_prefix : (p : List ℕ) → Plain p → has_prefix p ≡ false
unfolding has_prefix
Plain-no_prefix [] plain = refl
Plain-no_prefix (c ∷ []) plain = refl
Plain-no_prefix (c ∷ d ∷ p) (c_digit, ((d_low, d_high), rest)) =
    rw (no_letter d d_low d_high) (and_false (c == 48))

Plain-ulcnv_loop : (left x : ℕ) (end : List ℕ) → Plain end → Plain (ulcnv_loop left x end)
unfolding ulcnv_loop
Plain-ulcnv_loop zero x end plain = plain
Plain-ulcnv_loop (suc left) x end plain = elim (dec_lt x 10) [
  | no more ↦
      let over : leb 10 x ≡ true = ground arith in
      let high = cnvtab_high (x % 100) (omega arith) in
      let low = cnvtab_low (x % 100) (omega arith) in
      let end' = (x % 100 / 10 + 48) ∷ (x % 100 % 10 + 48) ∷ end in
      rw (over, high, low)
        (Plain-ulcnv_loop left (x / 100) end'
          ((omega arith, omega arith), ((omega arith, omega arith), plain)))
  | yes one ↦
      let under : leb 10 x ≡ false = ground arith in
      elim (ℕ_discrete x 0) [
        | yes e ↦ rw e plain
        | no ne ↦
            let some_left : (x == 0) ≡ false = ground arith in
            rw (under, some_left) ((omega arith, omega arith), plain)
      ]
]

-- A number of 64 bits that `ulcnv` writes is read back by atoul().
pub atoul-ulcnv : (x : ℕ) → x < 2 ^ 64 → atoul (ulcnv [] x) ≡ x
unfolding atoul ulcnv atoul_loop
atoul-ulcnv zero small =
    rw (Plain-no_prefix (48 ∷ []) ((omega arith, omega arith), omega arith)) refl
atoul-ulcnv (suc n) small =
    let x = suc n in
    let some_left : (x == 0) ≡ false = ground arith in
    let plain = Plain-no_prefix (ulcnv_loop 10 x []) (Plain-ulcnv_loop 10 x [] (omega arith)) in
    rw (some_left, plain) (atoul-ulcnv_loop 10 x [] (omega arith) small)

-- Both loops for decimal digits write the same.
ulcnv_loop-ucnv_loop :
    (left x : ℕ) (end : List ℕ)
    → x < 100 ^ left
    → x ≢ 0
    → ulcnv_loop left x end ≡ ucnv_loop (2 * left) x end
unfolding ulcnv_loop ucnv_loop
ulcnv_loop-ucnv_loop zero x end lt some_x = absurd (some_x (omega arith))
ulcnv_loop-ucnv_loop (suc left) x end lt some_x =
    let twice : 2 * suc left ≡ suc (suc (2 * left)) = omega arith in
    let last : (x == 0) ≡ false = ground arith in
    elim (dec_lt x 10) [
      | yes one ↦
          let under : leb 10 x ≡ false = ground arith in
          let ended : (x / 10 == 0) ≡ true = ground arith in
          let digit : x % 10 ≡ x = omega arith in rw (twice, under, last, ended, digit) refl
      | no more ↦
          let over : leb 10 x ≡ true = ground arith in
          let on : (x / 10 == 0) ≡ false = ground arith in
          let high = cnvtab_high (x % 100) (omega arith) in
          let low = cnvtab_low (x % 100) (omega arith) in
          let tens : x % 100 / 10 + 48 ≡ (x / 10 % 10 + 48) % 256 = omega arith in
          let ones : x % 100 % 10 + 48 ≡ (x % 10 + 48) % 256 = omega arith in
          let hundreds : x / 10 / 10 ≡ x / 100 = omega arith in
          let end' = ((x / 10 % 10 + 48) % 256) ∷ ((x % 10 + 48) % 256) ∷ end in
          elim (ℕ_discrete (x / 100) 0) [
            | no ne ↦
                let further : (x / 100 == 0) ≡ false = ground arith in
                rw (twice, over, on, high, low, tens, ones, hundreds, further)
                  (ulcnv_loop-ucnv_loop left (x / 100) end' (omega (arith, lt, pow-suc 100 left))
                    ne)
            | yes e ↦
                rw (twice, over, on, high, low, tens, ones, hundreds, e) (ulcnv_loop_zero left end')
          ]
    ]

-- Below 2 ^ 32, `ulcnv` with its table of two digits writes what `ucnv` writes digit by digit.
pub ulcnv-ucnv : (x : ℕ) (end : List ℕ) → x < 2 ^ 32 → ulcnv end x ≡ ucnv end x
unfolding ulcnv ucnv ucnv_loop
ulcnv-ucnv zero end small = refl
ulcnv-ucnv (suc n) end small =
    let some_left : (suc n == 0) ≡ false = ground arith in
    rw some_left (ulcnv_loop-ucnv_loop 10 (suc n) end (omega arith) (omega arith))

-- A number of 32 bits that `ucnv` writes is read back by atou().
pub atou-ucnv : (x : ℕ) → x < 2 ^ 32 → atou (ucnv [] x) ≡ x
unfolding atou
atou-ucnv x small = rw (← ulcnv-ucnv x [] small, atoul-ulcnv x (omega arith)) (omega arith)
