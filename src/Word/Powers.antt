-- ===== src/Word/Powers.antt =====
-- Powers of two: their order, and the small alignments.
use native.Mathlib.Decide.{dec_lt}
use native.Mathlib.Nat.{
  pow-le-pow_right, one-le-pow, pow-suc, dvd_of_mod-eq-zero, mod-eq-zero_of_dvd, dvd_trans,
  mul_assoc,
}
use yalloc.Base.{ℕ, zero, suc, ◌+◌, ◌-◌, ◌*◌, ◌%◌, ◌^◌, ◌≤◌, ◌<◌, ◌≡◌, refl, arith}

pub pow_le : (i j : ℕ) → i ≤ j → 2 ^ i ≤ 2 ^ j
pow_le i j h = pow-le-pow_right (omega arith) h

pub pow_pos : (k : ℕ) → 1 ≤ 2 ^ k
pow_pos k = one-le-pow k 2 (omega arith)

-- An alignment of 16 and more is a multiple of 16.
pow_sixteen : (k : ℕ) → (2 ^ (4 + k)) % 16 ≡ 0
pow_sixteen zero = refl
pow_sixteen (suc k) =
    let e : 4 + suc k ≡ suc (4 + k) = omega arith in
    rw e (omega (arith, pow-suc 2 (4 + k), pow_sixteen k))

pub mod_sixteen : (k x : ℕ) → 4 ≤ k → x % 2 ^ k ≡ 0 → x % 16 ≡ 0
mod_sixteen k x h e =
    let k_lem : k ≡ 4 + (k - 4) = omega arith in
    mod-eq-zero_of_dvd 16 (
      dvd_trans 16 (dvd_of_mod-eq-zero 16 (rw k_lem (pow_sixteen (k - 4))))
        (dvd_of_mod-eq-zero (2 ^ k) e))

-- A multiple of 16 is at every smaller alignment.
pub mod_small : (k x : ℕ) → 2 ^ k ≤ 16 → x % 16 ≡ 0 → x % 2 ^ k ≡ 0
mod_small k x h e = elim (dec_lt k 5) [
  | yes lt ↦ go k lt
  | no ge ↦ absurd (omega (arith, pow_le 5 k (omega arith)))
]
  where
    go : (k : ℕ) → k < 5 → x % 2 ^ k ≡ 0
    go zero lt = omega arith
    go (suc zero) lt = omega (arith, e)
    go (suc (suc zero)) lt = omega (arith, e)
    go (suc (suc (suc zero))) lt = omega (arith, e)
    go (suc (suc (suc (suc zero)))) lt = e
    go (suc (suc (suc (suc (suc k))))) lt = absurd (omega arith)

pub pow_add : (i j : ℕ) → 2 ^ (i + j) ≡ 2 ^ i * 2 ^ j
pow_add i zero = let e : i + zero ≡ i = omega arith in rw e (omega arith)
pow_add i (suc j) =
    let e : i + suc j ≡ suc (i + j) = omega arith in
    rw (e, pow-suc 2 (i + j), pow-suc 2 j, pow_add i j) (mul_assoc (2 ^ i) (2 ^ j) 2)
