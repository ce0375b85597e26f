-- ===== src/SizeClass/Laws.antt =====
-- alloc.h: the class of a length, and the tables.
use native.Mathlib.Decide.{dec_lt, ℕ_discrete}
use native.Mathlib.Nat.{pow-suc, mod_self, mod-eq-sub-div-mul, div-mul-le_self}
use yalloc.Base.{
  ℕ, suc, ◌+◌, ◌-◌, ◌*◌, ◌/◌, ◌^◌, ◌≤◌, ◌<◌, bit_and, false, ◌==◌, if◌then◌else◌, arith, ◌≡◌, ◌≢◌,
  refl, ◌∙◌, ap, subst, ne→not-==,
}
use yalloc.Word.{doalign4, clz, add4, sub4}
use yalloc.Word.Masks.{bit_and_low}
use yalloc.Word.Powers.{pow_pos, pow_le}
use yalloc.Word.Align.{IsRoundUp, doalign4-IsRoundUp}
use yalloc.Word.Log.{IsLog2, clz_lem, pow2_test, ctz_of_pow2}
use yalloc.SizeClass.Table.{class_of, genclass}
use yalloc.SizeClass.Choose.{Choice, choose_normal}
use yalloc.SizeClass.Spec.{IsClass}

-- A multiple of `p` above `4 p` and at most `8 p` is one of `5 p`, ..., `8 p`.
quotient :
    (p r len : ℕ)
    → 0 < p
    → IsRoundUp len p r
    → p * 4 < len
    → len < p * 8
    → (4 < r / p) × (r / p ≤ 8) × (r ≡ r / p * p)
quotient p r len pos up lo hi =
    let e : r ≡ r / p * p =
      omega (arith, mod-eq-sub-div-mul r p, div-mul-le_self r p, up.multiple) in
    (grind (arith, up.above), grind (arith, up.near), e)

-- The parts of the class of a length that is no power of two.
record Parts (len n : ℕ) : Type 0 where
  up : IsRoundUp len (2 ^ (n - 2)) (doalign4 len (2 ^ (n - 2)))
  q_lo : 4 < doalign4 len (2 ^ (n - 2)) / 2 ^ (n - 2)
  q_hi : doalign4 len (2 ^ (n - 2)) / 2 ^ (n - 2) ≤ 8
  q_eq : doalign4 len (2 ^ (n - 2)) ≡ doalign4 len (2 ^ (n - 2)) / 2 ^ (n - 2) * 2 ^ (n - 2)

-- The powers of two around an order.
pow_around : (n : ℕ) → 2 ≤ n → (2 ^ n ≡ 2 ^ (n - 2) * 4) × (2 ^ suc n ≡ 2 ^ (n - 2) * 8)
pow_around n h =
    let e : n ≡ suc (suc (n - 2)) = omega arith in
    let a : 2 ^ n ≡ 2 ^ suc (suc (n - 2)) = ap (λ k. 2 ^ k) e in
    omega (arith, a, pow-suc 2 n, pow-suc 2 (suc (n - 2)), pow-suc 2 (n - 2))

parts : (len n : ℕ) → IsLog2 len n → 6 ≤ n → n ≤ 30 → len ≢ 2 ^ n → len ≤ 2 ^ 30 → Parts len n
parts len n log lo hi ne small =
    let (four, eight) = pow_around n (omega arith) in
    let fits = pow_le (n - 2) 28 (omega arith) in
    let up = doalign4-IsRoundUp len (n - 2) (omega arith) (omega arith) in
    let (q_lo, q_hi, q_eq) =
      quotient (2 ^ (n - 2)) (doalign4 len (2 ^ (n - 2))) len (pow_pos (n - 2)) up
        (omega (arith, log.low)) (omega (arith, log.high)) in
    record { up = up; q_lo = q_lo; q_hi = q_hi; q_eq = q_eq }

-- What the choice of a class promises.
pub record IsChoice (len : ℕ) (c : Choice) : Type 0 where
  pub is_class : IsClass c.clas c.alen
  pub top : c.clas ≤ 103
  pub enough : len ≤ c.alen
  -- less than a quarter is wasted
  pub waste : (c.alen - len) * 4 < len
  -- configure.c has the same class
  pub same : (genclass len).clas ≡ c.clas
  pub same_len : (genclass len).alen ≡ c.alen

genclass_pow2 : (n : ℕ) → 6 ≤ n → n ≤ 30 → genclass (2 ^ n) ≡ class_of ((n + 1) * 4 - 21) (2 ^ n)
unfolding genclass
genclass_pow2 n lo hi =
    let test : bit_and (2 ^ n) (2 ^ n - 1) ≡ 0 = bit_and_low n (2 ^ n) ∙ mod_self (2 ^ n) in
    let sum : sub4 (add4 ((n + 1) * 4) 7) 28 ≡ (n + 1) * 4 - 21 = omega arith in
    rw (test, ctz_of_pow2 n (omega arith), sum) refl

normal_pow2 : (n : ℕ) → 6 ≤ n → n ≤ 30 → IsChoice (2 ^ n) (choose_normal (2 ^ n))
unfolding choose_normal
normal_pow2 n lo hi =
    let test : bit_and (2 ^ n) (2 ^ n - 1) ≡ 0 = bit_and_low n (2 ^ n) ∙ mod_self (2 ^ n) in
    let (four, eight) = pow_around n (omega arith) in
    let same = genclass_pow2 n lo hi in
    let back : n + 1 - 3 ≡ n - 2 = omega arith in
    rw (test, ctz_of_pow2 n (omega arith))
      (record {
        is_class = record {
          ord = n + 1;
          q = 4;
          ord_lo = omega arith;
          ord_hi = omega arith;
          q_lo = omega arith;
          q_hi = omega arith;
          alen_eq = rw back (omega arith);
          clas_eq = omega arith;
        };
        top = omega arith;
        enough = omega arith;
        waste = omega (arith, pow_pos n);
        same = ap (λ c. c.clas) same ∙ omega arith;
        same_len = ap (λ c. c.alen) same;
      })

-- The number that both places compute from the order and the eighths.
abbrev clen_of : ℕ → ℕ
clen_of q = if bit_and q 3 == 0 then 4 else bit_and q 3

clen_lem : (q : ℕ) → 4 < q → q ≤ 8 → clen_of q + 4 ≡ q
clen_lem q lo hi = ground (arith, bit_and_low 2 q)

module _ (len n : ℕ) (log : IsLog2 len n) (lo : 6 ≤ n) (hi : n ≤ 30) (ne : len ≢ 2 ^ n)
    (small : len ≤ 2 ^ 30) (bits : clz len ≡ 31 - n) where
  abbrev alen_of : ℕ
  alen_of = doalign4 len (2 ^ (n - 2))

  abbrev q_of : ℕ
  q_of = alen_of / 2 ^ (n - 2)

  test_other : (bit_and len (len - 1) == 0) ≡ false
  test_other = ne→not-== _ _ (λ e. ne ((pow2_test len n log).0 e))

  cord_lem : 32 - clz len - 3 ≡ n - 2
  cord_lem = rw bits (omega arith)

  genclass_other : genclass len ≡ class_of ((n + 1) * 4 + clen_of q_of - 21) alen_of
  unfolding genclass
  genclass_other =
      let p = parts len n log lo hi ne small in
      let ord : 32 - clz len ≡ n + 1 = omega (arith, bits) in
      let back : n + 1 - 3 ≡ n - 2 = omega arith in
      let c = clen_lem q_of p.q_lo p.q_hi in
      let sum : sub4 (add4 ((n + 1) * 4 + clen_of q_of) 7) 28 ≡ (n + 1) * 4 + clen_of q_of - 21 =
        omega arith in
      rw (test_other, ord, back, sum) refl

  normal_other : IsChoice len (choose_normal len)
  unfolding choose_normal
  normal_other =
      let p = parts len n log lo hi ne small in
      let ord : 32 - clz len ≡ n + 1 = omega (arith, bits) in
      let back : n + 1 - 3 ≡ n - 2 = omega arith in
      let c = clen_lem q_of p.q_lo p.q_hi in
      let (four, eight) = pow_around n (omega arith) in
      let below : n < 30 = elim (dec_lt n 30) [
        | yes lt ↦ lt
        | no ge ↦
            let e : n ≡ 30 = omega arith in
            let top : len ≡ 2 ^ 30 = omega (arith, subst (λ k. 2 ^ k ≤ len) e log.low) in
            absurd (ne (rw e top))
      ] in
      rw (test_other, ord, back)
        (record {
          is_class = record {
            ord = n + 1;
            q = q_of;
            ord_lo = omega arith;
            ord_hi = omega arith;
            q_lo = omega (arith, p.q_lo);
            q_hi = p.q_hi;
            alen_eq = rw back p.q_eq;
            clas_eq = omega arith;
          };
          top = omega (arith, p.q_hi, below);
          enough = p.up.above;
          waste = omega (arith, p.up.near, log.low);
          same = ap (λ c. c.clas) genclass_other ∙ omega arith;
          same_len = ap (λ c. c.alen) genclass_other;
        })

pub choose_normal-IsChoice : (len : ℕ) → 64 ≤ len → len ≤ 2 ^ 30 → IsChoice len (choose_normal len)
choose_normal-IsChoice len lo hi =
    let (n, n_hi, bits, log) = clz_lem len (omega arith) (omega arith) in
    let n_lo : 6 ≤ n = elim (dec_lt n 6) [
      | yes lt ↦ absurd (omega (arith, log.high, pow_le (suc n) 6 (omega arith)))
      | no ge ↦ omega arith
    ] in
    let n_le : n ≤ 30 = elim (dec_lt n 31) [
      | yes lt ↦ omega arith
      | no ge ↦ absurd (omega (arith, log.low, pow_le 31 n (omega arith)))
    ] in
    elim (ℕ_discrete len (2 ^ n)) [
      | yes e ↦ rw e (normal_pow2 n n_lo n_le)
      | no ne ↦ normal_other len n log n_lo n_le ne hi bits
    ]
