-- ===== src/Dispatch/LargeTaken.antt =====
-- free.h `free_mmap`: a large block that is taken back was in use.
use yalloc.Base.{
  ℕ, ◌+◌, ◌%◌, Bool, true, false, ◌&&◌, not, List, [], ◌∷◌, ◌++◌, ltb, leb, ◌==◌, arith, ◌≡◌, ◌≢◌,
  inl, inr, ap, ◌∙◌, Bool-cases, update, update_self,
}
use yalloc.Mmap.State.{mmap_retainlimit, MpRegion, MpHeap, Sys, MpDiag, MpOut, put_reg}
use yalloc.Mmap.Free.{forget, release, recycle, free_block, free_checked, free_mmap}

-- The region was in use, and is free.
abbrev pub MpTaken : MpHeap → ℕ → MpOut Bool → Type 0
MpTaken hb reg (true, hb', log) = log ≢ []
MpTaken hb reg (false, hb', log) = ((hb.regs reg).set ≡ 1) × ((hb'.regs reg).set ≡ 2)

some_mp : (log : List MpDiag) (d : MpDiag) → ◌≢◌ (log ++ (d ∷ [])) []
some_mp [] d e = cc
some_mp (x ∷ log) d e = cc

-- After the mark.
abbrev SetOut : ℕ → MpOut Bool → Type 0
SetOut reg (true, hb', log) = log ≢ []
SetOut reg (false, hb', log) = (hb'.regs reg).set ≡ 2

put_set : (f : ℕ → MpRegion) (reg : ℕ) (r : MpRegion) → r.set ≡ 2 → (update f reg r reg).set ≡ 2
put_set f reg r e = ap (λ (x : MpRegion). x.set) (update_self f reg r) ∙ e

release_set : (hb : MpHeap) (reg : ℕ) → (hb.regs reg).set ≡ 2 → ((release hb reg).regs reg).set ≡ 2
unfolding release
release_set hb reg e = put_set hb.regs reg (record (hb.regs reg) { len = 0; aged = 3 }) e

recycle_set : (hb : MpHeap) (reg : ℕ) → (hb.regs reg).set ≡ 2 → ((recycle hb reg).regs reg).set ≡ 2
unfolding recycle
recycle_set hb reg e = put_set hb.regs reg (record (hb.regs reg) { age = 2; aged = 1 }) e

module _ (sys : Sys) (local : Bool) (reg ip : ℕ) where
  free_block-SetOut :
      (hb : MpHeap) (log : List MpDiag)
      → (hb.regs reg).set ≡ 2
      → SetOut reg (free_block sys hb local reg log)
  unfolding free_block
  free_block-SetOut hb log set =
      let r = hb.regs reg in
      let out =
        put_reg (record hb { dirs = forget sys hb.dirs reg r }) reg (record r { align = 0 }) in
      let at = put_set hb.regs reg (record r { align = 0 }) set in
      elim (Bool-cases local) [
        | inl here ↦ elim (Bool-cases (leb mmap_retainlimit r.len)) [
          | inl large ↦ rw (here, large) (release_set out reg at)
          | inr small ↦ rw (here, small) (recycle_set out reg at)
        ]
        | inr far ↦ elim (Bool-cases (r.align == 0)) [
          | inr aligned ↦ rw (far, aligned) set
          | inl plain ↦ elim (Bool-cases (r.age == 0)) [
            | inr older ↦ rw (far, plain, older) (some_mp log _)
            | inl new ↦ rw (far, plain, new) (put_set hb.regs reg (record r { age = 1 }) set)
          ]
        ]
      ]

  free_checked-SetOut :
      (hb : MpHeap) (log : List MpDiag)
      → (hb.regs reg).set ≡ 2
      → SetOut reg (free_checked sys hb local reg ip log)
  unfolding free_checked
  free_checked-SetOut hb log set =
      let r = hb.regs reg in
      elim (Bool-cases (not (r.align == 0) && not (r.align % 4096 == 0))) [
        | inl odd ↦ rw odd (some_mp log _)
        | inr even ↦ elim (Bool-cases (not (r.align == 0) && ltb ip (r.user + r.align))) [
          | inl before ↦ rw (even, before) (some_mp log _)
          | inr reached ↦ elim (Bool-cases (not (r.align == 0) && ltb (r.user + r.align) ip)) [
            | inl within ↦ rw (even, reached, within) (some_mp log _)
            | inr exact ↦ elim (Bool-cases (leb (r.user + r.len) (r.user + r.align))) [
              | inl beyond ↦ rw (even, reached, exact, beyond) (some_mp log _)
              | inr inside ↦ rw (even, reached, exact, inside) (free_block-SetOut hb log set)
            ]
          ]
        ]
      ]

  was-MpTaken :
      (hb : MpHeap)
      → (hb.regs reg).set ≡ 1
      → (out : MpOut Bool) → SetOut reg out
      → MpTaken hb reg out
  was-MpTaken hb was (true, hb', log) s = s
  was-MpTaken hb was (false, hb', log) s = (was, s)

  pub free_mmap-MpTaken :
      (hb : MpHeap) (len : ℕ) → MpTaken hb reg (free_mmap sys hb local reg ip len)
  unfolding free_mmap
  free_mmap-MpTaken hb len = elim (Bool-cases (not ((hb.regs reg).set == 1))) [
    | inl other ↦ rw other (λ e. cc)
    | inr used ↦
        let r : MpRegion = record (hb.regs reg) { set = 2 } in
        rw used (
          was-MpTaken hb (ground (arith, used)) _ (
            free_checked-SetOut (put_reg hb reg r) _ (ap (λ x. x.set) (update_self hb.regs reg r))))
  ]
