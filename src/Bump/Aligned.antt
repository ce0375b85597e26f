-- ===== src/Bump/Aligned.antt =====
-- bump.h `bumpalloc`: blocks are aligned.
use native.Mathlib.Decide.{dec_lt}
use native.Mathlib.Nat.{dvd_of_mod-eq-zero, mod-eq-zero_of_dvd, dvd_trans, dvd-add, dvd-mul_right}
use yalloc.Base.{
  ℕ, ◌+◌, ◌-◌, ◌*◌, ◌%◌, ◌^◌, ◌≤◌, ◌<◌, Bool, true, false, Option, none, some, [], ltb, arith, ◌≡◌,
  refl, ◌⊎◌, inl, inr, subst, sym, ap, ◌∙◌, ◌==◌, if◌then◌else◌, Bool-cases,
}
use yalloc.Word.{add4, doalign4}
use yalloc.Word.Powers.{pow_le, pow_add}
use yalloc.Bump.Region.{BumpRegion}
use yalloc.Bump.Alloc.{bump_block}
use yalloc.Bump.Valid.{IsBump}
use yalloc.Bump.Laws.{Carved, bump_block-Cut}

-- An alignment of at most a page divides what a page divides.
page_lem : (k x : ℕ) → 2 ^ k ≤ 4096 → x % 4096 ≡ 0 → x % 2 ^ k ≡ 0
page_lem k x le e = elim (dec_lt 12 k) [
  | yes big ↦ absurd (omega (arith, pow_le 13 k (omega arith)))
  | no small ↦
      let split : k + (12 - k) ≡ 12 = omega arith in
      let page : 2 ^ k * 2 ^ (12 - k) ≡ 4096 = sym (pow_add k (12 - k)) ∙ ap (λ n. 2 ^ n) split in
      let whole : 4096 % 2 ^ k ≡ 0 =
        subst (λ n. n % 2 ^ k ≡ 0) page
          (mod-eq-zero_of_dvd (2 ^ k) (dvd-mul_right (2 ^ k) (2 ^ (12 - k)))) in
      mod-eq-zero_of_dvd (2 ^ k)
        (dvd_trans (2 ^ k) (dvd_of_mod-eq-zero (2 ^ k) whole) (dvd_of_mod-eq-zero 4096 e))
]

-- An alignment above a page is refused.
huge_lem :
    (reg : BumpRegion) (len k : ℕ)
    → 4096 < 2 ^ k
    → bump_block reg len (2 ^ k) true ≡ (none, reg, [])
unfolding bump_block
huge_lem reg len k huge =
    let big : ltb 16 (2 ^ k) ≡ true = ground (arith, huge) in
    let far : ltb 4096 (2 ^ k) ≡ true = ground (arith, huge) in
    let apos = if reg.pos == 0 then reg.pos else doalign4 reg.pos (2 ^ k) in
    elim (Bool-cases (ltb reg.len (add4 apos len))) [
      | inl over ↦ rw (big, over) refl
      | inr fits ↦ rw (big, fits, far) refl
    ]

-- In a bump region in order that begins on a page, with room for a block of whole cells of at most
-- 2 ^ 30 bytes, a request for an alignment of 2 ^ k bytes, with k below 32, is met, where only
-- aligned_alloc() asks for more than 16: the address of the block is aligned, the block is new,
-- inside the region and above all blocks before it, and the region stays in order. Only an
-- alignment above 16 may be refused, and then nothing changes.
pub bump_block-Carved :
    (reg : BumpRegion) (v : IsBump reg) (len : ℕ) (pos_len : 0 < len) (len16 : len % 16 ≡ 0)
    (len_le : len ≤ 2 ^ 30)
    → reg.user % 4096 ≡ 0
    → (k : ℕ) (is_allocal : Bool) → k < 32
    → (is_allocal ≡ false → 2 ^ k ≤ 16)
    → reg.pos + len ≤ reg.len
    → ((ip : ℕ) × (reg' : BumpRegion) × (bump_block reg len (2 ^ k) is_allocal
          ≡ (some ip, reg', []))
        × Carved reg len (2 ^ k) ip reg'
        × (ip % 2 ^ k ≡ 0))
      ⊎ ((bump_block reg len (2 ^ k) is_allocal ≡ (none, reg, [])) × (16 < 2 ^ k))
bump_block-Carved reg v len pos_len len16 len_le page k is_allocal hk plain fits =
    elim (bump_block-Cut reg v len pos_len len16 len_le k is_allocal hk plain fits) [
      | inr refused ↦ inr refused
      | inl (ip, reg', came, c) ↦
          let small = small_lem ip reg' is_allocal plain came in
          let sum : reg.user + (ip - reg.user) ≡ ip = omega (arith, c.above) in
          let at : (reg.user + (ip - reg.user)) % 2 ^ k ≡ 0 = mod-eq-zero_of_dvd (2 ^ k) (
            dvd-add (2 ^ k) (dvd_of_mod-eq-zero (2 ^ k) (page_lem k reg.user small page))
              (dvd_of_mod-eq-zero (2 ^ k) c.at_align)) in
          inl (ip, reg', came, c, subst (λ n. n % 2 ^ k ≡ 0) sum at)
    ]
  where
    small_lem :
        (ip : ℕ) (reg' : BumpRegion) (is_allocal : Bool)
        → (is_allocal ≡ false → 2 ^ k ≤ 16)
        → bump_block reg len (2 ^ k) is_allocal ≡ (some ip, reg', [])
        → 2 ^ k ≤ 4096
    small_lem ip reg' false plain came = omega (arith, plain refl)
    small_lem ip reg' true plain came = elim (dec_lt 4096 (2 ^ k)) [
      | no le ↦ omega arith
      | yes huge ↦
          let none_some : ◌≡◌ {A = Option ℕ} none (some ip) =
            sym (ap (λ out. out.0) (huge_lem reg len k huge)) ∙ ap (λ out. out.0) came in
          absurd (ground (arith, none_some))
    ]
