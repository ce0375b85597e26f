-- ===== src/Mmap/Freed.antt =====
-- free.h `free_mmap`: a block in use is taken back once.
use native.Mathlib.Decide.{ℕ_discrete, dec_lt}
use yalloc.Base.{
  ℕ, ◌+◌, ◌%◌, ◌^◌, ◌<◌, none, List, [], ◌∷◌, ◌++◌, Bool, refl, true, false, ◌&&◌, not, ltb, leb,
  ◌==◌, arith, ◌≡◌, ◌≢◌, ◌⊎◌, inl, inr, Bool-cases, update_self, update_ne, sym, ap, ◌∙◌,
}
use yalloc.Mmap.State.{pagesize, mmap_retainlimit, MpRegion, MpHeap, Sys, MpDiag, put_reg}
use yalloc.Mmap.Free.{forget, release, recycle, free_block, free_checked, free_mmap}
use yalloc.Mmap.Valid.{IsOrdered, put-IsMp, off_lem, in_use_age}
use yalloc.Mmap.Memory.{same-IsBlocks}
use yalloc.Mmap.Marked.{
  FreedOut, at_pages, append_some, Marked, put-Marked, recycle-Freed, release-Freed,
  forget-find_reg, addresses,
}

module _ (sys : Sys) (memory : (n : ℕ) → sys.osmem n ≢ none) (hb : MpHeap) (reg : ℕ) where
  free_block-Freed :
      (hb₁ : MpHeap) (local : Bool) (log : List MpDiag)
      → Marked sys memory hb reg hb₁
      → (hb₁.regs reg).align ≡ (hb.regs reg).align
      → ((hb₁.regs reg).align ≡ 0)
        ⊎ (((hb₁.regs reg).align % 2 ^ 12 ≡ 0) × ((hb₁.regs reg).align ≢ 0))
      → (hb₁.regs reg).align < (hb₁.regs reg).len
      → FreedOut hb local reg (free_block sys hb₁ local reg log)
  unfolding free_block release recycle
  free_block-Freed hb₁ true log m of_align at_page inside =
      let r = hb₁.regs reg in
      let out =
        put_reg (record hb₁ { dirs = forget sys hb₁.dirs reg r }) reg (record r { align = 0 }) in
      let m' =
        put-Marked sys memory hb reg hb₁ (forget sys hb₁.dirs reg r) (record r { align = 0 }) m
          m.young m.freed.free refl refl m.aging in
      let block = m.freed.ordered.blocks.block reg (omega (arith, inside)) in
      let gone =
        addresses sys memory hb reg (forget sys hb₁.dirs reg r) r m.of_user of_align
          (forget-find_reg sys memory hb reg hb₁.dirs r block at_page inside) in
      let some_len : (out.regs reg).len ≢ 0 = λ e. omega (
        arith,
        inside,
        sym (ap (λ x. x.len) (update_self hb₁.regs reg (record r { align = 0 }))) ∙ e,
      ) in
      elim (Bool-cases (leb mmap_retainlimit r.len)) [
        | inl large ↦ rw large (
          (release-Freed sys memory hb reg out m').0,
          λ e. ((release-Freed sys memory hb reg out m').1, gone.0, gone.1),
        )
        | inr small ↦ rw small (
          (recycle-Freed sys memory hb reg out m' some_len).0,
          λ e. ((recycle-Freed sys memory hb reg out m' some_len).1, gone.0, gone.1),
        )
      ]
  free_block-Freed hb₁ false log m of_align at_page inside =
      elim (Bool-cases ((hb₁.regs reg).align == 0)) [
        | inr aligned ↦ rw aligned (m.freed, λ e. cc)
        | inl plain ↦ elim (Bool-cases ((hb₁.regs reg).age == 0)) [
          | inr older ↦ rw (plain, older) (inr (m.freed, append_some log _))
          | inl new ↦
              rw (plain, new)
                (
                  (put-Marked sys memory hb reg hb₁ hb₁.dirs (record (hb₁.regs reg) { age = 1 }) m
                      m.young m.freed.free refl refl
                      (λ a b. (m.freed.free, λ e. omega (arith, inside, e)))).freed,
                  λ e. cc,
                )
        ]
      ]

  free_checked-Freed :
      (hb₁ : MpHeap) (local : Bool) (ap' : ℕ) (log : List MpDiag)
      → Marked sys memory hb reg hb₁
      → (hb₁.regs reg).align ≡ (hb.regs reg).align
      → FreedOut hb local reg (free_checked sys hb₁ local reg ap' log)
  unfolding free_checked
  free_checked-Freed hb₁ local ap' log m of_align =
      let r = hb₁.regs reg in
      let refused : (d : MpDiag) → FreedOut hb local reg (true, hb₁, log ++ (d ∷ [])) =
        λ d. inr (m.freed, append_some log d) in
      elim (Bool-cases (not (r.align == 0) && not (r.align % pagesize == 0))) [
        | inl odd ↦ rw odd (refused _)
        | inr even ↦ elim (Bool-cases (not (r.align == 0) && ltb ap' (r.user + r.align))) [
          | inl before ↦ rw (even, before) (refused _)
          | inr reached ↦ elim (Bool-cases (not (r.align == 0) && ltb (r.user + r.align) ap')) [
            | inl within ↦ rw (even, reached, within) (refused _)
            | inr exact ↦ elim (Bool-cases (leb (r.user + r.len) (r.user + r.align))) [
              | inl beyond ↦ rw (even, reached, exact, beyond) (refused _)
              | inr inside ↦
                  rw (even, reached, exact, inside)
                    (free_block-Freed hb₁ local log m of_align (at_pages r.align even)
                      (ground (arith, inside)))
            ]
          ]
        ]
      ]

  -- free_mmap() on a heap whose regions are in order, where the system has memory for directories. If the
  -- region is not in use, a double free is reported and nothing changes. Else it is marked free, and the
  -- regions are in order again, the others as they were. If that succeeds with its heap at hand, the
  -- region is the first of a free list, and neither the address of its memory nor that of its block leads
  -- to a region; on an error something is reported.
  pub free_mmap-Freed :
      (lists : ℕ → List ℕ) (zeros : List ℕ) (local : Bool) (ap' ulen : ℕ)
      → IsOrdered hb lists zeros
      → FreedOut hb local reg (free_mmap sys hb local reg ap' ulen)
  unfolding free_mmap
  free_mmap-Freed lists zeros local ap' ulen v = elim (ℕ_discrete (hb.regs reg).set 1) [
    | no other ↦
        let test : ((hb.regs reg).set == 1) ≡ false = ground arith in
        rw test (inl (refl, refl, other))
    | yes used ↦
        let test : ((hb.regs reg).set == 1) ≡ true = ground arith in
        let r : MpRegion = record (hb.regs reg) { set = 2 } in
        let at = update_self hb.regs reg r in
        let young = v.in_use reg used in
        let unaged = in_use_age v reg used in
        let lt : reg < hb.stat.newmpregions = elim (dec_lt reg hb.stat.newmpregions) [
          | yes h ↦ h
          | no ge ↦ absurd (omega (arith, (v.unmade reg (omega arith)).unset, used))
        ] in
        rw test (
          free_checked-Freed (put_reg hb reg r) local ap' _
            (record {
              freed = record {
                lists = lists;
                zeros = zeros;
                ordered =
                    put-IsMp v reg r (off_lem v reg young) lt (λ q ne e. cc) (inl young)
                      (λ a. absurd (a unaged)) (same-IsBlocks hb.regs v.blocks reg r refl refl);
                was = used;
                free = ap (λ x. x.set) at;
                others = λ q ne. update_ne hb.regs r ne;
              };
              young = ap (λ x. x.aged) at ∙ young;
              aging = λ a. absurd (a (ap (λ x. x.age) at ∙ unaged));
              lt = lt;
              of_user = ap (λ x. x.user) at;
            })
            (ap (λ x. x.align) at))
  ]
