-- ===== src/Slab/Calloc.antt =====
-- slab.h `slab_alloc` for calloc(): the block is 0, and only it is written.
use yalloc.Base.{
  ℕ, ◌+◌, ◌*◌, ◌≤◌, ◌<◌, ◌≡◌, ◌≢◌, List, refl, true, false, not, ◌&&◌, Option, none, some, ltb, leb,
  ◌==◌, if◌then◌else◌, arith, inl, inr, Bool-cases,
}
use yalloc.Slab.Region.{Region, HeapStat, Diag, Out}
use yalloc.Slab.Cells.{slab_newcel}
use yalloc.Slab.Blocks.{slab_alloc, alloc_block, lcalloc, Allocated}
use yalloc.Slab.Valid.{IsValid}
use yalloc.Slab.New.{Alloced, Outcome, newcel-Outcome}
use yalloc.Slab.Malloc.{with_age}

-- The bytes of the block are 0 and the others as before; without a block, all are as before.
abbrev pub Cleared : ℕ → (ℕ → ℕ) → Option ℕ → (ℕ → ℕ) → Type 0
Cleared ulen mem none mem' = (a : ℕ) → mem' a ≡ mem a
Cleared ulen mem (some p) mem' =
    (a : ℕ) → mem' a ≡ (if leb p a && ltb a (p + ulen) then 0 else mem a)

-- slab_alloc() for calloc() after the search for a cell.
abbrev served : HeapStat → Region → ℕ → (ℕ → ℕ) → Out (Option ℕ) → Allocated
served hb reg ulen mem out = elim (out.0) [
  | none ↦ record { ptr = none; hb = hb; reg = out.1; mem = mem; log = out.2 }
  | some cel ↦ alloc_block hb out.1 ulen lcalloc mem reg.inipos cel out.2
]

module _ (reg : Region) (ulen : ℕ) (mem : ℕ → ℕ) (le : ulen ≤ reg.cellen)
    (zeros : (a : ℕ)
      → reg.clr ≡ 0
      → reg.user + reg.inipos * reg.cellen ≤ a
      → a < reg.user + reg.celcnt * reg.cellen
      → mem a ≡ 0) where
  -- A cell that was never handed out before is 0 already.
  known :
      (cel : ℕ) (reg₁ : Region) (a : ℕ)
      → Alloced (record reg { age = 0 }) cel reg₁
      → reg.inipos ≢ reg₁.inipos
      → reg.clr ≡ 0
      → reg.user + cel * reg.cellen ≤ a
      → a < reg.user + cel * reg.cellen + ulen
      → mem a ≡ 0
  known cel reg₁ a al moved clr lo hi =
      let first : cel ≡ reg.inipos = ground (arith, al.ini) in
      let low : reg.user + reg.inipos * reg.cellen ≤ a = rw first at lo in
      let high : a < reg.user + reg.inipos * reg.cellen + ulen = rw first at hi in
      let inside : reg.inipos < reg.celcnt = omega (arith, first, al.inside) in
      let room : reg.inipos * reg.cellen + reg.cellen ≤ reg.celcnt * reg.cellen = grind arith in
      zeros a clr low (omega arith)

  block-Cleared :
      (hb : HeapStat) (cel : ℕ) (reg₁ : Region) (log : List Diag)
      → Alloced (record reg { age = 0 }) cel reg₁
      → Cleared ulen mem
          (alloc_block hb reg₁ ulen lcalloc mem reg.inipos cel log).ptr
          (alloc_block hb reg₁ ulen lcalloc mem reg.inipos cel log).mem
  unfolding alloc_block
  block-Cleared hb cel reg₁ log al =
      elim (Bool-cases (not (reg.inipos == reg₁.inipos) && (reg₁.clr == 0))) [
        | inr clears ↦ rw clears (λ a. refl)
        | inl skips ↦
            rw (skips, al.shape.user, al.shape.cellen)
              (λ a. ground (arith, known cel reg₁ a al, skips, al.shape.clr))
      ]

  go :
      (hb : HeapStat) (out : Out (Option ℕ))
      → Outcome (record reg { age = 0 }) out
      → Cleared ulen mem (served hb reg ulen mem out).ptr (served hb reg ulen mem out).mem
  go hb (none, reg₁, log) full = λ a. refl
  go hb (some cel, reg₁, log) (al, quiet) = block-Cleared hb cel reg₁ log al

  -- calloc() in a slab: on a region in order whose cells that were never handed out are 0 unless `clr`
  -- is set, the bytes of the block are 0 afterwards and no other byte of the memory is written; without
  -- a block, no byte is.
  pub slab_alloc-Cleared :
      (hb : HeapStat) (align : ℕ)
      → 0 < ulen
      → reg.aged ≡ 0
      → IsValid reg
      → Cleared ulen mem
          (slab_alloc hb reg ulen align lcalloc mem).ptr
          (slab_alloc hb reg ulen align lcalloc mem).mem
  unfolding slab_alloc
  slab_alloc-Cleared hb align pos young v =
      let some_test : (ulen == 0) ≡ false = ground arith in
      let le_test : ltb reg.cellen ulen ≡ false = ground arith in
      let young_test : (reg.aged == 0) ≡ true = ground arith in
      rw (some_test, le_test, young_test)
        (go hb (slab_newcel (record reg { age = 0 }))
          (newcel-Outcome (record reg { age = 0 }) (with_age reg 0 v)))
