-- ===== src/Bump/Release.antt =====
-- bump.h `bump_free`: only blocks that are in use are taken back.
use native.Mathlib.Decide.{dec_lt}
use yalloc.Base.{
  ℕ, ◌+◌, ◌-◌, ◌*◌, ◌%◌, ◌^◌, ◌<◌, bit_and, some, [], ◌∷◌, update, arith, ◌≡◌, ◌⊎◌, inl, inr, ◌∙◌,
  ap,
}
use yalloc.Word.Masks.{bit_and_low}
use yalloc.Bump.Region.{BumpRegion, already_freed, bad_status}
use yalloc.Bump.Free.{to_free, bump_cel, bump_mark, bump_found, bump_free}
use yalloc.Bump.Valid.{IsBump}

-- A block in use is taken back once.
abbrev pub freed : BumpRegion → ℕ → BumpRegion
freed reg cel = record reg { fres = update reg.fres cel 2; frees = reg.frees + 1 }

module _ (reg : BumpRegion) (v : IsBump reg) (cel : ℕ) where
  -- The address of a cell leads back to the cell.
  cel_lem : cel < reg.cnt → bump_cel reg (reg.user + cel * 16) ≡ (some cel, [])
  unfolding bump_cel
  cel_lem lt =
      let ofs : (reg.user + cel * 16 - reg.user) % 2 ^ 32 ≡ cel * 16 = omega (arith, v.small) in
      let low : bit_and (cel * 16) 15 ≡ 0 = bit_and_low 4 (cel * 16) ∙ omega arith in
      ground (arith, ofs, low, v.whole, v.space)

  to_mark : cel < reg.cnt → bump_free reg (reg.user + cel * 16) to_free ≡ bump_mark reg cel
  unfolding bump_free
  to_mark lt = ap (bump_found reg to_free) (cel_lem lt)

  freed-IsBump : reg.fres cel ≡ 1 → IsBump (freed reg cel)
  freed-IsBump used = record {
    whole = v.whole;
    small = v.small;
    used = v.used;
    within = v.within;
    aligned = v.aligned;
    space = v.space;
    fresh = λ c h. ground (arith, v.fresh c h, v.inside cel);
    states = λ c. ground (arith, v.states c);
    inside = λ c h. ground (arith, v.inside c);
    apart = λ c d hc hd lt. ground (arith, v.apart c d);
  }

  -- bump_free() takes back the block at an address, tells its length, and leaves the region in order,
  -- if the block is in use. Any other address of a cell is refused, and changes nothing: a block that
  -- was freed before, the inside of a block, and a cell that was never handed out.
  pub bump_free_lem :
      cel < reg.cnt
      → ((bump_free reg (reg.user + cel * 16) to_free ≡ (reg.lens cel * 16, freed reg cel, []))
          × (reg.fres cel ≡ 1)
          × IsBump (freed reg cel))
        ⊎ ((bump_free reg (reg.user + cel * 16) to_free ≡ (0, reg, already_freed cel ∷ []))
            × (reg.fres cel ≡ 2))
        ⊎ ((bump_free reg (reg.user + cel * 16) to_free ≡ (0, reg, bad_status cel 0 ∷ []))
            × (reg.fres cel ≡ 0))
  bump_free_lem lt = elim (dec_lt 0 (reg.fres cel)) [
    | no none_yet ↦
        let e : reg.fres cel ≡ 0 = omega arith in inr (inr (to_mark lt ∙ ground (arith, e), e))
    | yes begun ↦ elim (dec_lt 1 (reg.fres cel)) [
      | no used ↦
          let e : reg.fres cel ≡ 1 = omega arith in
          inl (to_mark lt ∙ ground (arith, e), e, freed-IsBump e)
      | yes over ↦
          let e : reg.fres cel ≡ 2 = omega (arith, v.states cel) in
          inr (inl (to_mark lt ∙ ground (arith, e), e))
    ]
  ]
