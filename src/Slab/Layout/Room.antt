-- ===== src/Slab/Layout/Room.antt =====
-- slab.h `newslab`: the loop ends, the cells fit in the region, and the parts of the metadata do not
-- overlap.
use native.Mathlib.Decide.{dec_lt}
use native.Mathlib.Nat.{div-mul-le_self, div-le_of_le-mul, mul_comm}
use yalloc.Base.{
  ℕ, zero, suc, ◌+◌, ◌-◌, ◌*◌, ◌/◌, ◌%◌, ◌^◌, ◌≤◌, ◌<◌, ◌≡◌, refl, bit_and, Bool, true, false, some,
  ltb, leb, ◌==◌, if◌then◌else◌, arith, Bool-cases, inl, inr, ◌⊎◌, ==→eq, ◌∙◌,
}
use yalloc.Word.{doalign8, ctz, clz}
use yalloc.Word.Align.{doalign8-IsRoundUp}
use yalloc.Word.Powers.{pow_le, pow_add}
use yalloc.Word.Log.{clz_lem, pow2_test, ctz_of_pow2}
use yalloc.Slab.Layout.{
  Sizes, Metas, slab_metas, slab_sizes, sizes_of, min_cells, max_order, first_order,
}

-- The arrays of `cnt` cells lie one after the other in the metadata: the state bytes below the bin,
-- the bin below the lengths, and these inside.
pub record IsMetas (cellen cnt : ℕ) (tags flns : Bool) (m : Metas) : Type 0 where
  pub binset : cnt ≤ m.binorg * 4
  pub bin : m.binorg + cnt ≤ m.lenorg
  pub lens : m.lenorg + (if ltb 1023 cellen then cnt else 0) ≤ m.tagorg
  pub tag : m.tagorg + (if tags then cnt else 0) ≤ m.flnorg
  pub fln : m.flnorg + (if flns then cnt else 0) ≤ m.metacnt

-- newslab() cuts the metadata into parts that do not overlap, and asks for enough of it.
pub slab_metas-IsMetas :
    (cellen cnt : ℕ) (tags flns : Bool)
    → cnt < 2 ^ 32
    → IsMetas cellen cnt tags flns (slab_metas cellen cnt tags flns)
unfolding slab_metas
slab_metas-IsMetas cellen cnt tags flns small =
    let four = doalign8-IsRoundUp cnt 2 (omega arith) (omega arith) in
    let line = doalign8-IsRoundUp (doalign8 cnt 4) 5 (omega arith) (omega (arith, four.near)) in
    record {
      binset = omega (arith, four.multiple, four.above);
      bin = omega (arith, line.above, four.above);
      lens = ground (arith, four.above);
      tag = ground (arith, four.above);
      fln = ground (arith, four.above);
    }

-- What newslab() relies on of the sizes of a region.
pub record IsSizes (cellen claseq maxord : ℕ) (s : Sizes) : Type 0 where
  -- the cells fit
  pub fit : s.cnt * cellen ≤ 2 ^ s.order
  pub small : s.cnt < 2 ^ 32 - 1
  -- there are enough of them, or the region has the largest order
  pub many : (min_cells claseq ≤ s.cnt) ⊎ (s.order ≡ maxord)

module _ (cellen clas claseq maxord : ℕ) (some_len : 0 < cellen)
    (pow : bit_and cellen (cellen - 1) ≡ 0 → cellen ≡ 2 ^ ctz cellen)
    (bound : 2 ^ maxord ≤ 2 ^ 30 * cellen) where
  sizes_cnt : (order : ℕ) → (sizes_of cellen clas maxord order).cnt ≡ 2 ^ order / cellen % 2 ^ 32
  sizes_cnt order = elim (Bool-cases (bit_and cellen (cellen - 1) == 0)) [
    | inl yes_pow ↦ rw yes_pow (rw (← pow (==→eq _ _ yes_pow)) refl)
    | inr no_pow ↦ rw no_pow refl
  ]

  sizes_order : (order : ℕ) → (sizes_of cellen clas maxord order).order ≡ order
  sizes_order order = ground arith

  cnt_le : (order : ℕ) → order ≤ maxord → 2 ^ order / cellen ≤ 2 ^ 30
  cnt_le order h =
      let le = pow_le order maxord h in
      div-le_of_le-mul cellen (omega (arith, mul_comm (2 ^ 30) cellen, bound))

  -- The loop ends with sizes that serve, within the rounds up to the largest order.
  slab_sizes_lem :
      (left order : ℕ)
      → order ≤ maxord
      → maxord < order + left
      → (s : Sizes) × (slab_sizes cellen clas claseq maxord left order ≡ some s)
        × IsSizes cellen claseq maxord s
  unfolding slab_sizes
  slab_sizes_lem zero order le enough = absurd (omega arith)
  slab_sizes_lem (suc left) order le enough =
      let s = sizes_of cellen clas maxord order in
      let quot = cnt_le order le in
      let cnt : s.cnt ≡ 2 ^ order / cellen = sizes_cnt order ∙ omega arith in
      let fit : s.cnt * cellen ≤ 2 ^ order = rw cnt (div-mul-le_self (2 ^ order) cellen) in
      let fit' : s.cnt * cellen ≤ 2 ^ s.order = rw (sizes_order order) fit in
      let full : (leb (2 ^ 32 - 1) s.cnt) ≡ false = ground (arith, cnt, quot) in
      let below : s.cnt < 2 ^ 32 - 1 = omega (arith, cnt, quot) in
      elim (dec_lt s.cnt (min_cells claseq)) [
        | no many ↦
            let test : ltb s.cnt (min_cells claseq) ≡ false = ground arith in
            (
              s,
              rw (test, full) refl,
              record { fit = fit'; small = below; many = inl (omega arith) },
            )
        | yes few ↦
            let test : ltb s.cnt (min_cells claseq) ≡ true = ground arith in
            elim (dec_lt order maxord) [
              | no last ↦
                  let top : leb maxord order ≡ true = ground arith in
                  (
                    s,
                    rw (test, top) refl,
                    record {
                      fit = fit';
                      small = below;
                      many = inr (sizes_order order ∙ omega arith);
                    },
                  )
              | yes more ↦
                  let top : leb maxord order ≡ false = ground arith in
                  let (s', e, sizes) =
                    slab_sizes_lem left (order + 1) (omega arith) (omega arith) in
                  (s', rw (test, top) e, sizes)
            ]
      ]

-- The largest order leaves fewer than `2 ^ 30` cells.
max_order_le : (cellen n : ℕ) → n ≤ 31 → clz cellen ≡ 31 - n → max_order cellen ≤ 30 + n
unfolding max_order
max_order_le cellen n le e = ground (arith, e)

-- newslab() finds sizes for each cell length and each place in the class: its loop ends, the cells
-- fit in a region of the order, their number is one that `celcnt` can hold, and there are as many as
-- asked for unless the region has the largest order.
pub newslab-IsSizes :
    (cellen clas claseq order : ℕ)
    → 0 < cellen
    → cellen < 2 ^ 32
    → (s : Sizes) × (slab_sizes cellen clas claseq
          (max_order cellen)
          (max_order cellen + 1)
          (first_order (max_order cellen) claseq order)
        ≡ some s)
      × IsSizes cellen claseq (max_order cellen) s
unfolding first_order
newslab-IsSizes cellen clas claseq order some_len lt =
    let (n, n_le, bits, log) = clz_lem cellen some_len lt in
    let le = max_order_le cellen n n_le bits in
    let bound : 2 ^ max_order cellen ≤ 2 ^ 30 * cellen =
      omega (arith, pow_le (max_order cellen) (30 + n) le, pow_add 30 n, log.low) in
    let pow : bit_and cellen (cellen - 1) ≡ 0 → cellen ≡ 2 ^ ctz cellen = λ e.
      let at = (pow2_test cellen n log).0 e in at ∙ rw (at, ctz_of_pow2 n (omega arith)) refl in
    slab_sizes_lem cellen clas claseq (max_order cellen) some_len pow bound (max_order cellen + 1)
      (first_order (max_order cellen) claseq order) (omega arith) (omega arith)
