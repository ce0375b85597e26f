-- ===== src/Mmap/Memory.antt =====
-- The memory of the regions: blocks that lie apart, and what the system answers.
use native.Mathlib.Decide.{ℕ_discrete}
use yalloc.Base.{
  ℕ, Option, none, some, arith, ◌≡◌, ◌≢◌, update, update_self, update_ne, sym, subst, ◌∙◌,
}
use yalloc.Mmap.State.{MpRegion}
use yalloc.Mmap.Valid.{Apart, IsBlock, IsBlocks}

-- What the system answers for `len` bytes, if it has memory: a block of whole pages that no region has.
abbrev pub IsMapped : (ℕ → MpRegion) → ℕ → Option ℕ → Type 0
IsMapped regs len none = ◌≡◌ {A = ℕ} 0 0
IsMapped regs len (some p) =
    IsBlock p len × ((q : ℕ) → (regs q).len ≢ 0 → Apart p len (regs q).user (regs q).len)

module _ (regs : ℕ → MpRegion) (b : IsBlocks regs) (reg : ℕ) (r : MpRegion) where
  -- The block of one region changes.
  pub put-IsBlocks :
      (r.len ≢ 0 → IsBlock r.user r.len)
      → ((q : ℕ)
          → reg ≢ q
          → r.len ≢ 0
          → (regs q).len ≢ 0
          → Apart r.user r.len (regs q).user (regs q).len)
      → IsBlocks (update regs reg r)
  put-IsBlocks block apart = record { block = block'; apart = apart' }
    where
      block' :
          (q : ℕ)
          → (update regs reg r q).len ≢ 0
          → IsBlock (update regs reg r q).user (update regs reg r q).len
      block' q h = elim (ℕ_discrete reg q) [
        | yes e ↦
            let at : update regs reg r q ≡ r =
              subst (λ m. update regs reg r m ≡ r) e (update_self regs reg r) in
            subst (λ x. IsBlock x.user x.len) (sym at) (block (subst (λ x. x.len ≢ 0) at h))
        | no ne ↦
            let at : update regs reg r q ≡ regs q = update_ne regs r ne in
            subst (λ x. IsBlock x.user x.len) (sym at) (b.block q (subst (λ x. x.len ≢ 0) at h))
      ]

      apart' :
          (q p : ℕ)
          → q ≢ p
          → (update regs reg r q).len ≢ 0
          → (update regs reg r p).len ≢ 0
          → Apart
              (update regs reg r q).user
              (update regs reg r q).len
              (update regs reg r p).user
              (update regs reg r p).len
      apart' q p ne hq hp = ground (arith, b.apart q p ne, apart p, apart q)

  pub same-IsBlocks :
      r.user ≡ (regs reg).user → r.len ≡ (regs reg).len → IsBlocks (update regs reg r)
  same-IsBlocks at of_len =
      put-IsBlocks (λ h. rw (at, of_len) (b.block reg (λ e. h (of_len ∙ e))))
        (λ q ne h hq. rw (at, of_len) (b.apart reg q ne (λ e. h (of_len ∙ e)) hq))

  pub empty-IsBlocks : r.len ≡ 0 → IsBlocks (update regs reg r)
  empty-IsBlocks e = put-IsBlocks (λ h. absurd (h e)) (λ q ne h hq. absurd (h e))

  pub mapped-IsBlocks :
      IsBlock r.user r.len
      → ((q : ℕ) → reg ≢ q → (regs q).len ≢ 0 → Apart r.user r.len (regs q).user (regs q).len)
      → IsBlocks (update regs reg r)
  mapped-IsBlocks block apart = put-IsBlocks (λ h. block) (λ q ne h hq. apart q ne hq)
