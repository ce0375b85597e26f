-- ===== src/Word/Log.antt =====
-- `clz`, `ctz`: the position of the highest and of the lowest bit of a word.
use native.Mathlib.Decide.{dec_lt}
use native.Mathlib.Numerals.{add-one}
use native.Mathlib.Nat.{
  one-le-pow, pow-suc, lt-div-mul-add, div-lt_iff_lt-mul, div-eq_of_lt, mul-div_cancel_left,
}
use yalloc.Base.{
  ℕ, zero, suc, ◌+◌, ◌-◌, ◌*◌, ◌/◌, ◌%◌, ◌^◌, ◌≤◌, ◌<◌, ◌≡◌, inl, inr, refl, Bool-cases, ◌==◌,
  false, true, eq→==, ◌∙◌, ==→eq, ◌≢◌, ap, bit_and, ◌↔◌, arith,
}
use yalloc.Word.{high_bit, clz, clzl, low_bit, ctz}
use yalloc.Word.Masks.{bit_and_pred_iff}

-- `n` is the number of the highest bit of `x`.
pub record IsLog2 (x n : ℕ) : Type 0 where
  pub low : 2 ^ n ≤ x
  pub high : x < 2 ^ suc n

-- The top digit of a number below `2 * p`.
top_clear : (x p : ℕ) → 0 < p → x < p * 2 → x / p % 2 ≡ 0 → x < p
top_clear x p pos lt e =
    let small : x / p < 2 = (div-lt_iff_lt-mul {x = x} pos).1 (omega arith) in
    let none : x / p ≡ 0 = omega arith in
    omega (arith, lt-div-mul-add {a = x} pos, ap (λ q. q * p) none)

top_set : (x p : ℕ) → 0 < p → x / p % 2 ≢ 0 → p ≤ x
top_set x p pos ne = elim (dec_lt x p) [
  | yes below ↦ absurd (ne (rw (div-eq_of_lt below)))
  | no above ↦ omega arith
]

high_bit-IsLog2 : (n x : ℕ) → 0 < x → x < 2 ^ suc n → IsLog2 x (high_bit n x)
unfolding high_bit
high_bit-IsLog2 zero x pos lt = record { low = omega arith; high = lt }
high_bit-IsLog2 (suc n) x pos lt =
    let place : 1 ≤ 2 ^ suc n = one-le-pow (suc n) 2 (omega arith) in
    elim (Bool-cases (x / 2 ^ suc n % 2 == 0)) [
      | inl clear ↦ rw clear (
          high_bit-IsLog2 n x pos
            (top_clear x _ place (omega (arith, pow-suc 2 (suc n))) (==→eq _ _ clear)))
      | inr present ↦ rw present (record { low = top_set x _ place (λ e. ground arith); high = lt })
    ]

high_bit-le : (n x : ℕ) → high_bit n x ≤ n
unfolding high_bit
high_bit-le zero x = omega arith
high_bit-le (suc n) x = ground (arith, high_bit-le n x)

-- For a word of 32 bits that is not 0, `clz` counts the zeros above its highest bit.
pub clz_lem : (x : ℕ) → 0 < x → x < 2 ^ 32 → (n : ℕ) × (n ≤ 31) × (clz x ≡ 31 - n) × IsLog2 x n
unfolding clz
clz_lem x pos lt =
    let some_bit : (x == 0) ≡ false = ground arith in
    (high_bit 31 x, high_bit-le 31 x, rw some_bit, high_bit-IsLog2 31 x pos lt)

-- The same in 64 bits.
pub clzl_lem : (x : ℕ) → 0 < x → x < 2 ^ 64 → (n : ℕ) × (n ≤ 63) × (clzl x ≡ 63 - n) × IsLog2 x n
unfolding clzl
clzl_lem x pos lt =
    let some_bit : (x == 0) ≡ false = ground arith in
    (high_bit 63 x, high_bit-le 63 x, rw some_bit, high_bit-IsLog2 63 x pos lt)

-- `len & (len - 1)` is 0 just for the powers of two.
pub pow2_test : (x n : ℕ) → IsLog2 x n → (bit_and x (x - 1) ≡ 0) ↔ (x ≡ 2 ^ n)
pow2_test x n l = bit_and_pred_iff x n l.low l.high

-- From bit `n` up, the lowest bit of `2 ^ n * 2 ^ j` is `j` places away.
low_bit_of_pow2 : (f n j p x : ℕ) → j < f → p ≡ 2 ^ n → x ≡ p * 2 ^ j → low_bit f n x ≡ n + j
unfolding low_bit
low_bit_of_pow2 zero n j p x h ep ex = absurd (omega arith)
low_bit_of_pow2 (suc f) n zero p x h ep ex =
    let pos : 1 ≤ p = rw ep (one-le-pow n 2 (omega arith)) in
    let one : x / 2 ^ n ≡ 1 = rw (ex, ← ep) (mul-div_cancel_left 1 pos) in rw one (omega arith)
low_bit_of_pow2 (suc f) n (suc j) p x h ep ex =
    let pos : 1 ≤ p = rw ep (one-le-pow n 2 (omega arith)) in
    let even : x / 2 ^ n ≡ 2 ^ j * 2 =
      rw (ex, ← ep, pow-suc) (mul-div_cancel_left (2 ^ j * 2) pos) in
    let clear : (x / 2 ^ n % 2 == 0) ≡ true = rw even (eq→== _ _ (omega arith)) in
    let up : p * 2 ≡ 2 ^ (n + 1) = rw (add-one, pow-suc, ← ep) in
    let step : x ≡ p * 2 * 2 ^ j = rw (ex, pow-suc) (omega arith) in
    rw clear (low_bit_of_pow2 f (n + 1) j (p * 2) x (omega arith) up step ∙ omega arith)

-- `ctz` gives the order of a power of two.
pub ctz_of_pow2 : (k : ℕ) → k < 32 → ctz (2 ^ k) ≡ k
unfolding ctz
ctz_of_pow2 k h = low_bit_of_pow2 32 0 k 1 (2 ^ k) h refl (omega arith) ∙ omega arith
