-- ===== src/Word/Masks.antt =====
-- What `&` with a mask of ones at the low or the high end leaves of a number, as arithmetic.
use native.Mathlib.Decide.{dec_lt}
use Prim.Native.Nat.{digits, bit_and-bitwise}
use native.Mathlib.Nat.{
  pow-suc, div-div-eq-div-mul, mod-eq-sub-div-mul, div-mul-le_self, one-le-pow, mul_comm, mod_self,
}
use yalloc.Base.{
  ℕ, zero, suc, ◌+◌, ◌-◌, ◌*◌, ◌/◌, ◌%◌, ◌^◌, ◌≤◌, ◌<◌, min, bit_and, ◌≡◌, ◌↔◌, ◌∙◌, ap, refl,
  arith,
}

-- `k` ones
ones : ℕ → ℕ
ones zero = 0
ones (suc k) = ones k * 2 + 1

-- `j` ones above `k` zeros
high_mask : ℕ → ℕ → ℕ
high_mask zero j = ones j
high_mask (suc k) j = high_mask k j * 2

ones_lem : (k : ℕ) → ones k + 1 ≡ 2 ^ k
unfolding ones
ones_lem zero = refl
ones_lem (suc k) = omega (arith, ones_lem k, pow-suc 2 k)

high_mask_lem : (k j w : ℕ) → k + j ≡ w → high_mask k j + 2 ^ k ≡ 2 ^ w
unfolding high_mask
high_mask_lem zero j w e = let j≡w : j ≡ w = omega arith in rw (← j≡w) (ones_lem j)
high_mask_lem (suc k) j zero e = absurd (omega arith)
high_mask_lem (suc k) j (suc w) e =
    omega (arith, high_mask_lem k j w (omega arith), pow-suc 2 k, pow-suc 2 w)

-- The remainder by the next power of two has one more low digit.
mod_step : (a k : ℕ) → a % 2 ^ suc k ≡ a / 2 % 2 ^ k * 2 + a % 2
mod_step a k = omega (
  arith,
  mod-eq-sub-div-mul a (2 ^ suc k),
  mod-eq-sub-div-mul (a / 2) (2 ^ k),
  div-mul-le_self (a / 2) (2 ^ k),
  split,
)
  where
    split : a / 2 ^ suc k * 2 ^ suc k ≡ a / 2 / 2 ^ k * 2 ^ k * 2
    split = rw (pow-suc, mul_comm (2 ^ k) 2, ← div-div-eq-div-mul) (omega arith)

-- `a & ones` keeps the low digits.
digits-ones : (n k a : ℕ) → a ≤ n → digits (λ b. zero) min n a (ones k) ≡ a % 2 ^ k
unfolding ones
digits-ones zero k zero h = omega (arith, one-le-pow k 2)
digits-ones zero k (suc a) h = absurd (omega arith)
digits-ones (suc n) k zero h = omega (arith, one-le-pow k 2)
digits-ones (suc n) zero (suc a) h = omega (arith, digits-ones n zero (suc a / 2) (omega arith))
digits-ones (suc n) (suc k) (suc a) h =
    let half : (ones k * 2 + 1) / 2 ≡ ones k = omega arith in
    rw half (omega (arith, mod_step (suc a) k, digits-ones n k (suc a / 2) (omega arith)))

-- `a & mask` drops the low digits.
digits_high :
    (n k j w a : ℕ)
    → a ≤ n
    → k + j ≡ w
    → a < 2 ^ w
    → digits (λ b. zero) min n a (high_mask k j) + a % 2 ^ k ≡ a
unfolding ones high_mask
digits_high zero k j w zero h e lt = omega (arith, one-le-pow k 2)
digits_high zero k j w (suc a) h e lt = absurd (omega arith)
digits_high (suc n) k j w zero h e lt = omega (arith, one-le-pow k 2)
digits_high (suc n) zero j zero (suc a) h e lt = absurd (omega arith)
digits_high (suc n) zero zero (suc w) (suc a) h e lt = absurd (omega arith)
digits_high (suc n) zero (suc j) (suc w) (suc a) h e lt =
    let half : (ones j * 2 + 1) / 2 ≡ ones j = omega arith in
    rw half (
      omega (
        arith,
        pow-suc 2 w,
        digits_high n zero j w (suc a / 2) (omega arith) (omega arith) (omega (arith, pow-suc 2 w)),
      ))
digits_high (suc n) (suc k) j zero (suc a) h e lt = absurd (omega arith)
digits_high (suc n) (suc k) j (suc w) (suc a) h e lt =
    let half : high_mask k j * 2 / 2 ≡ high_mask k j = omega arith in
    rw half (
      omega (
        arith,
        mod_step (suc a) k,
        digits_high n k j w (suc a / 2) (omega arith) (omega arith) (omega (arith, pow-suc 2 w)),
      ))

-- `a & (2 ^ k - 1)`
pub bit_and_low : (k a : ℕ) → bit_and a (2 ^ k - 1) ≡ a % 2 ^ k
bit_and_low k a =
    let mask : 2 ^ k - 1 ≡ ones k = omega (arith, ones_lem k) in
    rw (mask, bit_and-bitwise) (digits-ones a k a (omega arith))

-- `a & ~(2 ^ k - 1)` in `w` bits
pub bit_and_high : (k j w a : ℕ) → k + j ≡ w → a < 2 ^ w → bit_and a (2 ^ w - 2 ^ k) + a % 2 ^ k ≡ a
bit_and_high k j w a e lt =
    let mask : 2 ^ w - 2 ^ k ≡ high_mask k j = omega (arith, high_mask_lem k j w e) in
    rw (mask, bit_and-bitwise) (digits_high a k j w a (omega arith) e lt)

digits_self : (n a : ℕ) → a ≤ n → digits (λ b. zero) min n a a ≡ a
digits_self zero zero h = refl
digits_self zero (suc a) h = absurd (omega arith)
digits_self (suc n) zero h = refl
digits_self (suc n) (suc a) h = omega (arith, digits_self n (suc a / 2) (omega arith))

-- A number that shares no bit with its predecessor is its highest bit.
digits_pred :
    (n a k : ℕ)
    → a ≤ n
    → 2 ^ k ≤ a
    → a < 2 ^ suc k
    → digits (λ b. zero) min n a (a - 1) ≡ 0
    → a ≡ 2 ^ k
digits_pred zero a k h lo hi e = absurd (omega (arith, one-le-pow k 2))
digits_pred (suc n) zero k h lo hi e = absurd (omega (arith, one-le-pow k 2))
digits_pred (suc n) (suc a) zero h lo hi e = omega arith
digits_pred (suc n) (suc a) (suc k) h lo hi e = elim (dec_lt 0 (suc a % 2)) [
  | yes odd ↦
      let same : (suc a - 1) / 2 ≡ suc a / 2 = omega arith in
      let f : digits (λ b. zero) min n (suc a / 2) (suc a / 2) ≡ 0 =
        omega (arith, ap (λ b. digits (λ b. zero) min n (suc a / 2) b) same) in
      absurd (omega (arith, digits_self n (suc a / 2) (omega arith), pow-suc 2 k, one-le-pow k 2))
  | no even ↦
      let down : (suc a - 1) / 2 ≡ suc a / 2 - 1 = omega arith in
      let f : digits (λ b. zero) min n (suc a / 2) (suc a / 2 - 1) ≡ 0 =
        omega (arith, ap (λ b. digits (λ b. zero) min n (suc a / 2) b) down) in
      let half : suc a / 2 ≡ 2 ^ k =
        digits_pred n (suc a / 2) k (omega arith) (omega (arith, pow-suc 2 k))
          (omega (arith, pow-suc 2 k, pow-suc 2 (suc k))) f in
      omega (arith, half, pow-suc 2 k)
]

-- `(a & (a - 1)) == 0` tells the powers of two.
pub bit_and_pred_iff : (a k : ℕ) → 2 ^ k ≤ a → a < 2 ^ suc k → (bit_and a (a - 1) ≡ 0) ↔ (a ≡ 2 ^ k)
bit_and_pred_iff a k lo hi = (
  λ e. digits_pred a a k (omega arith) lo hi (rw bit_and-bitwise at e),
  λ e. rw e (bit_and_low k (2 ^ k) ∙ mod_self (2 ^ k)),
)
