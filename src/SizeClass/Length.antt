-- ===== src/SizeClass/Length.antt =====
-- alloc.h: which block length a class stands for, over all three ranges of lengths.
use native.Mathlib.Decide.{dec_lt}
use native.Mathlib.Nat.{pow-suc}
use yalloc.Base.{
  ℕ, suc, ◌-◌, ◌^◌, ◌≤◌, ◌<◌, bit_and, none, some, arith, ◌≡◌, ◌≢◌, ◌⊎◌, refl, ◌∙◌, sym, subst, inl,
  inr,
}
use yalloc.Word.Log.{clzl_lem, pow2_test}
use yalloc.Word.Powers.{pow_le}
use yalloc.SizeClass.Table.{genclass_small, len2clas, clas2len}
use yalloc.SizeClass.Choose.{Choice, choose_small, choose_normal, choose_large, choose_class}
use yalloc.SizeClass.Spec.{IsClass}
use yalloc.SizeClass.Laws.{choose_normal-IsChoice}

-- The class number determines the length.
IsClass-alen : {clas alen alen' : ℕ} → IsClass clas alen → IsClass clas alen' → alen ≡ alen'
IsClass-alen {clas} {alen} {alen'} a b = elim (dec_lt a.ord b.ord) [
  | yes lt ↦ next a b lt
  | no ge ↦ elim (dec_lt b.ord a.ord) [
    | yes lt ↦ sym (next b a lt)
    | no le ↦
        let same : a.ord ≡ b.ord = omega arith in
        let same_q : a.q ≡ b.q = omega (arith, a.clas_eq, b.clas_eq) in
        a.alen_eq ∙ rw (same, same_q) refl ∙ sym b.alen_eq
  ]
]
  where
    next : {x y : ℕ} (a : IsClass clas x) (b : IsClass clas y) → a.ord < b.ord → x ≡ y
    next a b lt =
        let up : b.ord ≡ suc a.ord =
          omega (arith, a.clas_eq, b.clas_eq, a.q_hi, a.q_lo, b.q_lo, b.q_hi) in
        let full : a.q ≡ 8 = omega (arith, a.clas_eq, b.clas_eq, a.q_hi, b.q_lo) in
        let half : b.q ≡ 4 = omega (arith, a.clas_eq, b.clas_eq, a.q_hi, b.q_lo) in
        let shift : b.ord - 3 ≡ suc (a.ord - 3) = omega (arith, a.ord_lo) in
        a.alen_eq ∙ rw (full, half, shift) (omega (arith, pow-suc 2 (a.ord - 3))) ∙ sym b.alen_eq

-- Which length a class stands for, over all three ranges.
abbrev pub IsLength : ℕ → ℕ → Type 0
IsLength clas alen =
    ((clas ≤ 7) × (alen ≡ clas2len clas))
    ⊎ (IsClass clas alen × (clas ≤ 103))
    ⊎ ((105 ≤ clas) × (clas ≤ 120) × (alen ≡ 2 ^ 22))

-- The last class of the table is the first of the others.
base_class : {clas alen : ℕ} → clas ≤ 7 → IsClass clas alen → alen ≡ clas2len clas
unfolding clas2len
base_class {clas} {alen} le c =
    let ord : c.ord ≡ 7 = omega (arith, c.clas_eq, c.ord_lo, c.q_lo) in
    let q : c.q ≡ 4 = omega (arith, c.clas_eq, c.ord_lo, c.q_lo) in
    let seven : clas ≡ 7 = omega (arith, c.clas_eq) in c.alen_eq ∙ rw (ord, q, seven) refl

pub unique-IsLength :
    {clas alen alen' : ℕ} → IsLength clas alen → IsLength clas alen' → alen ≡ alen'
unique-IsLength (inl (le, e)) (inl (le', e')) = e ∙ sym e'
unique-IsLength (inl (le, e)) (inr (inl (c, top))) = e ∙ sym (base_class le c)
unique-IsLength (inl (le, e)) (inr (inr (lo, hi, e'))) = absurd (omega arith)
unique-IsLength (inr (inl (c, top))) (inl (le, e)) = base_class le c ∙ sym e
unique-IsLength (inr (inl (c, top))) (inr (inl (c', top'))) = IsClass-alen c c'
unique-IsLength (inr (inl (c, top))) (inr (inr (lo, hi, e'))) = absurd (omega arith)
unique-IsLength (inr (inr (lo, hi, e))) (inl (le, e')) = absurd (omega arith)
unique-IsLength (inr (inr (lo, hi, e))) (inr (inl (c, top))) = absurd (omega arith)
unique-IsLength (inr (inr (lo, hi, e))) (inr (inr (lo', hi', e'))) = e ∙ sym e'

-- What alloc_heap() relies on of a choice: the class stands for the length; the blocks are long
-- enough unless the request goes to mmap().
pub record IsChosen (ulen : ℕ) (c : Choice) : Type 0 where
  pub length : IsLength c.clas c.alen
  pub enough : (ulen ≤ c.alen) ⊎ ((2 ^ 30 < ulen) × (c.alen ≡ 2 ^ 22))
  pub slab_class : c.alen < 2 ^ 22 → c.clas < 100
  pub near : ulen < 2 ^ 16 → c.alen < 2 ^ 22

small-IsChosen : (ulen : ℕ) → ulen < 64 → IsChosen ulen (choose_small ulen)
unfolding choose_small len2clas genclass_small clas2len
small-IsChosen ulen lt = record {
  length = inl (ground arith, refl);
  enough = inl (ground arith);
  slab_class = λ h. ground arith;
  near = λ h. ground arith;
}

-- Blocks below `2 ^ 22` are of a class below 80.
class_below : {clas alen : ℕ} → IsClass clas alen → alen < 2 ^ 22 → clas < 100
class_below {clas} {alen} c h = elim (dec_lt c.ord 25) [
  | yes lt ↦ omega (arith, c.clas_eq, c.q_hi)
  | no ge ↦
      let big = pow_le 22 (c.ord - 3) (omega arith) in
      absurd (grind (arith, c.alen_eq, c.q_lo, big))
]

normal-IsChosen : (ulen : ℕ) → 64 ≤ ulen → ulen ≤ 2 ^ 30 → IsChosen ulen (choose_normal ulen)
normal-IsChosen ulen lo hi =
    let c = choose_normal-IsChoice ulen lo hi in
    record {
      length = inr (inl (c.is_class, c.top));
      enough = inl c.enough;
      slab_class = λ h. class_below c.is_class h;
      near = λ h. omega (arith, c.waste, c.enough);
    }

large-IsChosen :
    (ulen : ℕ)
    → 2 ^ 30 < ulen
    → ulen < 2 ^ 64
    → (c : Choice) → choose_large ulen ≡ some c
    → IsChosen ulen c
unfolding choose_large
large-IsChosen ulen lo hi c e =
    let (n, n_hi, bits, log) = clzl_lem ulen (omega arith) hi in
    let n_lo : 30 ≤ n = elim (dec_lt n 30) [
      | yes lt ↦ absurd (omega (arith, log.high, pow_le (suc n) 30 (omega arith)))
      | no ge ↦ omega arith
    ] in
    let not_pow : n ≡ 30 → bit_and ulen (ulen - 1) ≢ 0 =
      λ at e'. omega (arith, lo, subst (λ k. ulen ≡ 2 ^ k) at ((pow2_test ulen n log).0 e')) in
    record {
      length = inr (inr (ground (arith, e, bits, not_pow)));
      enough = inr (lo, ground (arith, e));
      slab_class = λ h. ground (arith, e, h);
      near = λ h. absurd (omega arith);
    }

pub choose-IsChosen :
    (ulen : ℕ) → ulen < 2 ^ 64 → (c : Choice) → choose_class ulen ≡ some c → IsChosen ulen c
unfolding choose_class
choose-IsChosen ulen hi c e = elim (dec_lt ulen 64) [
  | yes small ↦
      let same : choose_small ulen ≡ c = ground (arith, e) in
      subst (IsChosen ulen) same (small-IsChosen ulen small)
  | no mid ↦ elim (dec_lt (2 ^ 30) ulen) [
    | yes big ↦ large-IsChosen ulen big hi c (ground (arith, e))
    | no le ↦
        let same : choose_normal ulen ≡ c = ground (arith, e) in
        subst (IsChosen ulen) same (normal-IsChosen ulen (omega arith) (omega arith))
  ]
]

-- Only large requests are out of memory here.
pub choose_none : (ulen : ℕ) → ulen < 2 ^ 64 → choose_class ulen ≡ none → 2 ^ 46 < ulen
unfolding choose_class choose_large
choose_none ulen hi e = elim (dec_lt (2 ^ 30) ulen) [
  | no le ↦ absurd (ground (arith, e))
  | yes big ↦
      let (n, n_hi, bits, log) = clzl_lem ulen (omega arith) hi in
      let not_pow : n ≡ 46 → ulen ≡ 2 ^ 46 → bit_and ulen (ulen - 1) ≡ 0 =
        λ at e'. (pow2_test ulen n log).1 (rw at e') in
      let n_lo : 46 ≤ n = ground (arith, e, bits) in
      let low = pow_le 46 n n_lo in
      elim (dec_lt (2 ^ 46) ulen) [
        | yes lt ↦ lt
        | no ge ↦
            let top : ulen ≡ 2 ^ 46 = omega (arith, log.low) in
            let at : n ≡ 46 = elim (dec_lt 46 n) [
              | yes lt ↦ absurd (omega (arith, log.low, pow_le 47 n (omega arith)))
              | no ge ↦ omega arith
            ] in
            absurd (ground (arith, e, bits, not_pow at top))
      ]
]
