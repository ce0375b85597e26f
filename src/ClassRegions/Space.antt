-- ===== src/ClassRegions/Space.antt =====
-- alloc.h `alloc_heap`: a region with space serves the request.
use yalloc.Base.{
  ℕ, ◌+◌, ◌*◌, ◌≤◌, ◌<◌, true, false, not, ◌&&◌, Option, none, some, List, ◌==◌, ltb, leb, arith,
  ◌≡◌, ◌≢◌, inl, inr, refl, sym, subst, Bool-cases, update_self,
}
use yalloc.Slab.Region.{Region, Diag, Out, HeapStat}
use yalloc.Slab.Cells.{slab_newcel}
use yalloc.Slab.Blocks.{Loc, is_allocal, is_calloc, Allocated, slab_alloc, alloc_block}
use yalloc.Slab.New.{Outcome, newcel-Outcome}
use yalloc.Slab.Malloc.{with_age}
use yalloc.ClassRegions.State.{ClassHeap, Request, Vars, Maker, BlockOut}
use yalloc.ClassRegions.Alloc.{
  picked, is_real, has_space, pick, served, with_out, serve, alloc_slab, alloc_class,
}
use yalloc.ClassRegions.Valid.{IsOpen, IsOrdered, IsBlock, SlabOut}
use yalloc.ClassRegions.Block.{slab_alloc-SlabOut, found, plain_lem}

-- With a cell there is a block.
alloc_block-some :
    (hb : HeapStat) (reg : Region) (ulen : ℕ) (loc : Loc) (mem : ℕ → ℕ) (inipos cel : ℕ)
    (log : List Diag)
    → (alloc_block hb reg ulen loc mem inipos cel log).ptr ≡ some (reg.user + cel * reg.cellen)
unfolding alloc_block
alloc_block-some hb reg ulen loc mem inipos cel log = elim (Bool-cases (is_calloc loc)) [
  | inr plain ↦ rw plain refl
  | inl clears ↦ elim (Bool-cases (not (inipos == reg.inipos) && (reg.clr == 0))) [
    | inl zeros ↦ rw (clears, zeros) refl
    | inr dirty ↦ rw (clears, dirty) refl
  ]
]

-- A region with a cell in the bin, or one that was never allocated, has a block.
slab_alloc-some :
    (reg : Region)
    → IsOpen reg
    → has_space reg ≡ true
    → (hb : HeapStat) (ulen align : ℕ) (loc : Loc) (mem : ℕ → ℕ) → is_allocal loc ≡ false
    → 0 < ulen
    → ulen ≤ reg.cellen
    → (slab_alloc hb reg ulen align loc mem).ptr ≢ none
slab_alloc-some reg o space hb ulen align loc mem plain pos le =
    let some_len : (ulen == 0) ≡ false = ground (arith, pos) in
    let fits : ltb reg.cellen ulen ≡ false = ground (arith, le) in
    let young_test : (reg.aged == 0) ≡ true = ground (arith, o.young) in
    subst (λ (a : Allocated). a.ptr ≢ none) (sym (plain_lem reg o hb ulen align loc mem plain))
      (rw (some_len, fits, young_test)
        (go (slab_newcel (record reg { age = 0 }))
          (newcel-Outcome (record reg { age = 0 }) (with_age reg 0 o.valid))))
  where
    go :
        (out : Out (Option ℕ))
        → Outcome (record reg { age = 0 }) out
        → (found reg o hb ulen loc mem out).ptr ≢ none
    go (none, reg₁, log) (full, same, quiet) e = ground (arith, space, full.bin, full.ini)
    go (some cel, reg₁, log) (al, quiet) e =
        let e' = alloc_block-some hb reg₁ ulen loc mem reg.inipos cel log in cc

-- The answer is the block of a cell of the region `i`, which was not in use and is now.
abbrev pub BlockOf : ClassHeap → ℕ → BlockOut → Type 0
BlockOf hb i (p, hb', log) = (ip : ℕ) × (p ≡ some ip) × IsBlock (hb.regs i) (hb'.regs i) ip

-- A block, if slab_alloc() answers one.
served-BlockOf :
    (rest : ClassHeap → Vars → BlockOut) (q : Request) (hb : ClassHeap) (i : ℕ) (v : Vars)
    (out : Allocated) (p : Option ℕ)
    → SlabOut (hb.regs i) p out.reg
    → p ≢ none
    → BlockOf hb i (served rest q (with_out hb i out) v out.log p)
served-BlockOf rest q hb i v out none s h = absurd (h refl)
served-BlockOf rest q hb i v out (some ip) (o, block) h =
    (ip, refl, subst (λ r. IsBlock (hb.regs i) r ip) (sym (update_self hb.regs i out.reg)) block)

-- The region at the current place of the class is picked.
pick_current :
    (env : Maker) (q : Request) (hb : ClassHeap) (iter : ℕ) (v : Vars) (i : ℕ)
    → is_real q.loc ≡ false
    → hb.clasregs v.clas v.pos ≡ some i
    → pick env q hb iter v ≡ picked i v hb
unfolding pick
pick_current env q hb iter v i plain at = rw (plain, at) refl

serve-BlockOf :
    (env : Maker) (rest : ClassHeap → Vars → BlockOut) (q : Request) (hb : ClassHeap) (v : Vars)
    (i : ℕ)
    → IsOpen (hb.regs i)
    → has_space (hb.regs i) ≡ true
    → is_allocal q.loc ≡ false
    → 0 < q.ulen
    → q.ulen ≤ q.len
    → (hb.regs i).clas ≡ v.clas
    → q.len ≤ (hb.regs i).cellen
    → hb.inuse i ≡ 1
    → BlockOf hb i (serve env rest q hb (picked i v hb))
serve-BlockOf env rest q hb v i o space plain pos le own room used =
    let reg = hb.regs i in
    let own_test : not (v.clas == reg.clas) ≡ false = ground (arith, own) in
    let fits : ltb reg.cellen q.len ≡ false = ground (arith, room) in
    let out = slab_alloc hb.stat reg q.ulen q.align q.loc hb.mem in
    let in_use : not (hb.inuse i == 1) ≡ false = ground (arith, used) in
    rw (own_test, fits, in_use)
      (served-BlockOf rest q hb i v out out.ptr
        (slab_alloc-SlabOut reg o hb.stat q.ulen q.align q.loc hb.mem plain)
        (slab_alloc-some reg o space hb.stat q.ulen q.align q.loc hb.mem plain pos
          (omega (arith, le, room))))

-- On a heap whose slab regions are in order, where the current place of a class is below 32 and its
-- region is of that class and in use, has a cell in its bin or one that was never allocated, and
-- has cells of at least the aligned length, the last part of alloc_heap(), but for realloc() and
-- aligned_alloc(), answers a request that is not empty: with the block of a cell of that region,
-- which was not in use and is now, and no other cell of it changes.
pub alloc_class-BlockOf :
    (env : Maker) (q : Request) (hb : ClassHeap) (clas alen i : ℕ)
    → IsOrdered hb
    → is_allocal q.loc ≡ false
    → is_real q.loc ≡ false
    → 0 < q.ulen
    → q.ulen ≤ q.len
    → hb.claspos clas < 32
    → hb.clasregs clas (hb.claspos clas) ≡ some i
    → has_space (hb.regs i) ≡ true
    → (hb.regs i).clas ≡ clas
    → q.len ≤ (hb.regs i).cellen
    → hb.inuse i ≡ 1
    → BlockOf hb i (alloc_class env q hb clas alen)
unfolding alloc_class alloc_slab
alloc_class-BlockOf env q hb clas alen i o plain plain' pos le near at space own room used =
    let near_test : leb 32 (hb.claspos clas) ≡ false = ground (arith, near) in
    let v : Vars = record {
      clas = clas;
      pos = hb.claspos clas;
      alen = alen;
      fremsk = hb.cfremsk clas;
    } in
    rw (near_test, pick_current env q hb 66 v i plain' at)
      (serve-BlockOf env (alloc_slab env q 65) q hb v i
        (o.opened i (o.entered clas (hb.claspos clas) i at)) space plain pos le own room used)
