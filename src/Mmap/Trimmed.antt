-- ===== src/Mmap/Trimmed.antt =====
-- free.h `free_trim`, the regions of large blocks: only memory that is not in use is given back.
use yalloc.Base.{
  ℕ, zero, suc, ◌+◌, Option, none, some, List, Bool, refl, true, false, ◌&&◌, ◌||◌, not, ◌==◌,
  arith, ◌≢◌, inl, inr, Bool-cases, update_self, sym, subst, ap, ◌∙◌,
}
use yalloc.Mmap.State.{MpRegion, MpHeap, Sys, MpDiag, MpOut, put_reg}
use yalloc.Mmap.New.{is_mmap}
use yalloc.Mmap.Trim.{
  Unmaps, trim_aged, trim_one, next_reg, is_start, trim_more, trim_loop, trim_mmap, trim_scan,
  trim_with,
}
use yalloc.Mmap.Valid.{IsOrdered}
use yalloc.Mmap.Touched.{touch-IsMp}
use yalloc.Mmap.Aged.{
  IsSpare, Trimmed, TrimmedOut, same-Trimmed, then-Trimmed, earlier-IsSpare, append-IsSpare,
  others_lem, trim_aged-Trimmed,
}

-- What was done before does not matter.
later_lem :
    (hb hb₁ : MpHeap)
    → Trimmed hb hb₁
    → (out : MpOut Unmaps) → TrimmedOut hb₁ out
    → TrimmedOut hb out
later_lem hb hb₁ t (none, hb₂, log) t' = then-Trimmed t t'
later_lem hb hb₁ t (some unmaps, hb₂, log) (t', s) =
    (then-Trimmed t t', earlier-IsSpare hb hb₁ unmaps t s)

-- Where the next scan starts does not matter.
same_at :
    (hb : MpHeap) (lists : ℕ → List ℕ) (zeros : List ℕ)
    → IsOrdered hb lists zeros
    → (at : Option ℕ) → Trimmed hb (record hb { mpregtrim = at })
same_at hb lists zeros v at = record {
  lists = lists;
  zeros = zeros;
  ordered = v;
  others = λ q used. refl;
}

module _ (sys : Sys) (ages : ℕ → ℕ) where
  -- A region that ages grows older by one.
  grown-Trimmed :
      (hb : MpHeap) (lists : ℕ → List ℕ) (zeros : List ℕ) (trimregions : ℕ → ℕ) (reg : ℕ)
      → IsOrdered hb lists zeros
      → (hb.regs reg).age ≢ 0
      → (hb.regs reg).aged ≢ 3
      → let r = hb.regs reg in
        let hb' = record hb { stat = record (hb.stat) { trimregions = trimregions } } in
        TrimmedOut hb
          (trim_aged sys ages (put_reg hb' reg (record r { age = r.age + 1 })) reg r.age r.aged)
  grown-Trimmed hb lists zeros trimregions reg v begun kept =
      let r = hb.regs reg in
      let r' : MpRegion = record r { age = r.age + 1 } in
      let hb' = record hb { stat = record (hb.stat) { trimregions = trimregions } } in
      let older = put_reg hb' reg r' in
      let at = update_self hb.regs reg r' in
      let (free, some_len) = v.older reg begun kept in
      let v' =
        touch-IsMp v reg r'
          (record { user = refl; len = refl; set = refl; order = refl; aged = inl refl })
          (λ a b. (free, some_len)) (λ e. omega (arith, free, e)) in
      let t : Trimmed hb older = record {
        lists = lists;
        zeros = zeros;
        ordered = v';
        others = others_lem hb reg r' free;
      } in
      let out = trim_aged sys ages older reg r.age r.aged in
      later_lem hb older t out (
        subst (λ a. TrimmedOut older (trim_aged sys ages older reg r.age a)) (ap (λ x. x.aged) at)
          (trim_aged-Trimmed sys ages older lists zeros v' reg (ap (λ x. x.set) at ∙ free)
            (λ e. some_len (sym (ap (λ x. x.len) at) ∙ e)) r.age))

  trim_one-Trimmed :
      (hb : MpHeap) (lists : ℕ → List ℕ) (zeros : List ℕ) (reg : ℕ)
      → IsOrdered hb lists zeros
      → TrimmedOut hb (trim_one sys ages hb reg)
  unfolding trim_one
  trim_one-Trimmed hb lists zeros reg v =
      let r = hb.regs reg in
      let stays = same-Trimmed v in
      elim (Bool-cases ((r.age == 0) || (r.aged == 3))) [
        | inl skip ↦ rw skip (stays, refl)
        | inr goes ↦ elim (Bool-cases (not (is_mmap r.typ))) [
          | inl other ↦ rw (goes, other) stays
          | inr of_mmap ↦ elim (Bool-cases (r.age == 1)) [
            | inr later ↦
                rw (goes, of_mmap, later)
                  (grown-Trimmed hb lists zeros hb.stat.trimregions reg v (ground (arith, goes))
                    (ground (arith, goes)))
            | inl first ↦ elim (Bool-cases (not (r.set == 2))) [
              | inl bad ↦
                  rw (goes, of_mmap, first, bad)
                    (record { lists = lists; zeros = zeros; ordered = v; others = λ q used. refl })
              | inr good ↦
                  rw (goes, of_mmap, first, good)
                    (grown-Trimmed hb lists zeros _ reg v (ground (arith, goes))
                      (ground (arith, goes)))
            ]
          ]
        ]
      ]

  -- One region after the other.
  trim_with-Trimmed :
      (hb hb₁ : MpHeap) (unmaps : List (ℕ × ℕ)) (log : List MpDiag)
      → Trimmed hb hb₁
      → IsSpare hb.regs unmaps
      → (out : MpOut Unmaps) → TrimmedOut hb₁ out
      → TrimmedOut hb (trim_with unmaps log out)
  trim_with-Trimmed hb hb₁ unmaps log t s (none, hb₂, log') t' = then-Trimmed t t'
  trim_with-Trimmed hb hb₁ unmaps log t s (some unmaps', hb₂, log') (t', s') = (
    then-Trimmed t t',
    append-IsSpare hb.regs unmaps unmaps' s (earlier-IsSpare hb hb₁ unmaps' t s'),
  )

  trim_more-Trimmed :
      (hb : MpHeap) (rest : MpHeap → MpOut Unmaps)
      → ((hb₁ : MpHeap) (lists : ℕ → List ℕ) (zeros : List ℕ)
          → IsOrdered hb₁ lists zeros
          → TrimmedOut hb₁ (rest hb₁))
      → (out : MpOut Unmaps) → TrimmedOut hb out
      → TrimmedOut hb (trim_more rest out)
  trim_more-Trimmed hb rest of_rest (none, hb₁, log) t = t
  trim_more-Trimmed hb rest of_rest (some unmaps, hb₁, log) (t, s) =
      trim_with-Trimmed hb hb₁ unmaps log t s (rest hb₁) (of_rest hb₁ t.lists t.zeros t.ordered)

  trim_loop-Trimmed :
      (iter : ℕ) (first : Bool) (start at : Option ℕ) (hb : MpHeap) (lists : ℕ → List ℕ)
      (zeros : List ℕ)
      → IsOrdered hb lists zeros
      → TrimmedOut hb (trim_loop sys ages iter first start at hb)
  unfolding trim_loop
  trim_loop-Trimmed zero first start none hb lists zeros v = (same_at hb lists zeros v _, refl)
  trim_loop-Trimmed (suc iter) first start none hb lists zeros v =
      (same_at hb lists zeros v _, refl)
  trim_loop-Trimmed zero first start (some reg) hb lists zeros v =
      (same_at hb lists zeros v _, refl)
  trim_loop-Trimmed (suc iter) first start (some reg) hb lists zeros v =
      elim (Bool-cases (is_start start reg && not first)) [
        | inl around ↦ rw around (same_at hb lists zeros v _, refl)
        | inr goes ↦ rw goes (
            trim_more-Trimmed hb _ (trim_loop-Trimmed iter false start (next_reg hb (hb.nxt reg)))
              (trim_one sys ages hb reg) (trim_one-Trimmed hb lists zeros reg v))
      ]

-- free_trim() on the regions of large blocks of a heap whose regions are in order: they are in order
-- again, also when an error ends the scan; those in use are as they were; and the memory that is given
-- back shares no byte with a region in use.
pub trim_mmap-Trimmed :
    (sys : Sys) (ages : ℕ → ℕ) (hb : MpHeap) (lists : ℕ → List ℕ) (zeros : List ℕ)
    → IsOrdered hb lists zeros
    → TrimmedOut hb (trim_mmap sys ages hb)
unfolding trim_mmap
trim_mmap-Trimmed sys ages hb lists zeros v =
    trim_loop-Trimmed sys ages trim_scan true hb.mpregtrim hb.mpregtrim hb lists zeros v
