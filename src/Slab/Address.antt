-- ===== src/Slab/Address.antt =====
-- slab.h `slab_cel`: addresses of blocks and cells.
use native.Mathlib.Decide.{dec_lt}
use native.Mathlib.Nat.{mul-div_cancel}
use yalloc.Base.{
  ℕ, ◌+◌, ◌-◌, ◌*◌, ◌/◌, ◌%◌, ◌^◌, ◌<◌, ◌≡◌, refl, ◌∙◌, false, some, [], ◌==◌, arith, ◌⊎◌, inl, inr,
}
use yalloc.Slab.Region.{nocel, Region}
use yalloc.Slab.Marks.{cel_of_ofs, slab_cel}

-- The cells are of one size that is not 0, and `celord` is its order if that is not 0 itself.
pub record IsShaped (reg : Region) : Type 0 where
  pub some_len : 0 < reg.cellen
  pub order : (reg.celord ≡ 0) ⊎ (reg.cellen ≡ 2 ^ reg.celord)
  pub small : reg.celcnt < nocel

-- The address of a cell.
abbrev pub cel_ip : Region → ℕ → ℕ
cel_ip reg cel = reg.user + cel * reg.cellen

module _ (reg : Region) (s : IsShaped reg) where
  -- By shift or by division, the cell is the quotient.
  cel_of_ofs_lem : (ofs : ℕ) → cel_of_ofs reg reg.cellen ofs ≡ ofs / reg.cellen % 2 ^ 32
  unfolding cel_of_ofs
  cel_of_ofs_lem ofs = elim (dec_lt 0 reg.celord) [
    | no none_set ↦ ground arith
    | yes pos ↦ elim (s.order) [
      | inl e ↦ absurd (omega arith)
      | inr e ↦ let test : (reg.celord == 0) ≡ false = ground arith in rw (test, ← e) refl
    ]
  ]

  -- slab_cel() finds the cell of each block address, and reports nothing.
  pub slab_cel_lem :
      (cel : ℕ)
      → cel < reg.celcnt
      → slab_cel reg (cel_ip reg cel) reg.cellen reg.celcnt ≡ (some cel, [])
  unfolding slab_cel
  slab_cel_lem cel lt =
      let ofs : reg.user + cel * reg.cellen - reg.user ≡ cel * reg.cellen = omega arith in
      let quot : cel * reg.cellen / reg.cellen ≡ cel = mul-div_cancel cel s.some_len in
      let found : cel_of_ofs reg reg.cellen (cel * reg.cellen) ≡ cel =
        cel_of_ofs_lem (cel * reg.cellen) ∙ rw quot (omega (arith, s.small)) in
      ground (arith, ofs, found)

  -- An address that slab_cel() accepts is the address of the cell that it answers, which is one of
  -- the region's: an address inside a block, below the region or above its cells is refused.
  pub slab_cel_found :
      (ip cel : ℕ)
      → (slab_cel reg ip reg.cellen reg.celcnt).0 ≡ some cel
      → (ip ≡ cel_ip reg cel) × (cel < reg.celcnt)
  unfolding slab_cel
  slab_cel_found ip cel e = ground (arith, e)
