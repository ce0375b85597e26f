-- ===== src/Word/Align.antt =====
-- yalloc.h `doalign4`, `doalign8`: rounding up to a power of two; util.h `sometimes`.
use native.Mathlib.Nat.{one-le-pow, mod-lt, mod-eq-sub-div-mul, div-mul-le_self, mul-mod_left}
use yalloc.Base.{ℕ, ◌+◌, ◌-◌, ◌*◌, ◌/◌, ◌%◌, ◌^◌, ◌≤◌, ◌<◌, ◌≡◌, ◌↔◌, true, arith}
use yalloc.Word.{doalign4, doalign8, sometimes}
use yalloc.Word.Masks.{bit_and_low, bit_and_high}

-- What rounding `n` up to a multiple of `a` means.
pub record IsRoundUp (n a r : ℕ) : Type 0 where
  pub multiple : r % a ≡ 0
  pub above : n ≤ r
  pub near : r < n + a

-- `x - x % a` for `x = n + a - 1` is the multiple of `a` in `[n, n + a)`.
round_up : (n a r : ℕ) → 0 < a → r + (n + a - 1) % a ≡ n + a - 1 → IsRoundUp n a r
round_up n a r pos e = record {
  multiple = rw multiple_of (mul-mod_left ((n + a - 1) / a) a);
  above = omega (arith, mod-lt (n + a - 1) pos);
  near = omega arith;
}
  where
    multiple_of : r ≡ (n + a - 1) / a * a
    multiple_of = omega (arith, mod-eq-sub-div-mul (n + a - 1) a, div-mul-le_self (n + a - 1) a)

-- `doalign4` rounds up to the next multiple of a power of two, if the sum fits in 32 bits.
pub doalign4-IsRoundUp :
    (n k : ℕ) → k < 32 → n + 2 ^ k ≤ 2 ^ 32 → IsRoundUp n (2 ^ k) (doalign4 n (2 ^ k))
unfolding doalign4
doalign4-IsRoundUp n k hk fits =
    let pos : 1 ≤ 2 ^ k = one-le-pow k 2 (omega arith) in
    let sum : ((n + 2 ^ k) % 2 ^ 32 + 2 ^ 32 - 1) % 2 ^ 32 ≡ n + 2 ^ k - 1 = omega arith in
    let mask : 2 ^ 32 - 1 - (2 ^ k + 2 ^ 32 - 1) % 2 ^ 32 ≡ 2 ^ 32 - 2 ^ k = omega arith in
    rw (sum, mask)
      (round_up n (2 ^ k) _ pos
        (bit_and_high k (32 - k) 32 (n + 2 ^ k - 1) (omega arith) (omega arith)))

-- `doalign8` does the same in 64 bits.
pub doalign8-IsRoundUp :
    (n k : ℕ) → k < 64 → n + 2 ^ k ≤ 2 ^ 64 → IsRoundUp n (2 ^ k) (doalign8 n (2 ^ k))
unfolding doalign8
doalign8-IsRoundUp n k hk fits =
    let pos : 1 ≤ 2 ^ k = one-le-pow k 2 (omega arith) in
    let sum : ((n + 2 ^ k) % 2 ^ 64 + 2 ^ 64 - 1) % 2 ^ 64 ≡ n + 2 ^ k - 1 = omega arith in
    let mask : 2 ^ 64 - 1 - (2 ^ k + 2 ^ 64 - 1) % 2 ^ 64 ≡ 2 ^ 64 - 2 ^ k = omega arith in
    rw (sum, mask)
      (round_up n (2 ^ k) _ pos
        (bit_and_high k (64 - k) 64 (n + 2 ^ k - 1) (omega arith) (omega arith)))

-- The 16-byte steps of the bump allocators.
pub doalign4_sixteen : (n : ℕ) → n + 16 ≤ 2 ^ 32 → IsRoundUp n 16 (doalign4 n 16)
doalign4_sixteen n h = doalign4-IsRoundUp n 4 (omega arith) h

-- `sometimes` with a mask of ones holds for one tick in `2 ^ k`, the last of each round.
pub sometimes_iff : (a k : ℕ) → (sometimes a (2 ^ k - 1) ≡ true) ↔ (a % 2 ^ k ≡ 2 ^ k - 1)
unfolding sometimes
sometimes_iff a k = ground (arith, bit_and_low k a)
