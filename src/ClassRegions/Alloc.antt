-- ===== src/ClassRegions/Alloc.antt =====
-- alloc.h, the last part of alloc_heap(): from `// regular slab` on. `hd->status` is never St_error, and
-- the test of it is left out. A new region enters the directory elsewhere. If none can be made, the
-- result is nil: the fallback reads the field `user` of new memory, which is 0.
use yalloc.Base.{
  ℕ, zero, suc, ◌+◌, ◌-◌, ◌%◌, ◌^◌, bit_and, bit_or, Bool, true, false, ◌&&◌, ◌||◌, not, Option,
  none, some, List, [], ◌∷◌, ◌++◌, ltb, leb, ◌==◌, if◌then◌else◌, update,
}
use yalloc.Word.{ctzl}
use yalloc.SizeClass.Popular.{clascnt_max}
use yalloc.Slab.Region.{Region, Diag, assertion}
use yalloc.Slab.Blocks.{Loc, lreal, is_allocal, Allocated, slab_alloc}
use yalloc.Slab.Layout.{newslab}
use yalloc.ClassRegions.State.{clasregs_max, ClassHeap, Request, Vars, Maker, BlockOut}

abbrev pub is_real : Loc → Bool
is_real lreal = true
is_real _ = false

abbrev pub has_space : Region → Bool
has_space reg = not (reg.binpos == 0) || ltb reg.inipos reg.celcnt

-- The current region of the class `nx` further on, if it has space.
abbrev pub with_space : ClassHeap → ℕ → Option ℕ → Option (ℕ × Vars)
with_space hb clas none = none
with_space hb clas (some i) =
    if has_space (hb.regs i)
    then some (
      i,
      record {
        clas = clas;
        pos = hb.claspos clas;
        alen = (hb.regs i).cellen;
        fremsk = hb.cfremsk clas;
      },
    )
    else none

abbrev pub next_class : ClassHeap → Vars → ℕ → Option (ℕ × Vars)
next_class hb v nx =
    with_space hb (v.clas + nx) (hb.clasregs (v.clas + nx) (hb.claspos (v.clas + nx)))

-- What a round goes on with.
pub data Pick : Type 0 where
  picked : ℕ → Vars → ClassHeap → Pick
  zero_block : Pick
  refused : ClassHeap → Pick
  no_region : List Diag → Pick

-- The region is entered at its place in the class.
abbrev pub place_region : ClassHeap → Vars → Region → ClassHeap
place_region hb v reg = record hb {
  regs = update hb.regs hb.made (record reg { claspos = v.pos });
  inuse = update hb.inuse hb.made 1;
  made = hb.made + 1;
  clasregs = update hb.clasregs v.clas (update (hb.clasregs v.clas) v.pos (some hb.made));
  clasmsk = update hb.clasmsk v.clas (bit_or (hb.clasmsk v.clas) (2 ^ v.pos));
  cfremsk = update hb.cfremsk v.clas (bit_and v.fremsk (2 ^ 64 - 1 - 2 ^ v.pos));
  clasregcnt = update hb.clasregcnt v.clas ((hb.clasregcnt v.clas + 1) % 2 ^ 16);
}

abbrev pub new_placed : ClassHeap → Vars → Option Region × List Diag → Pick
new_placed hb v (none, log) = no_region log
new_placed hb v (some reg, log) =
    let hb' = place_region hb v reg in
    if not (reg.lock == 0)
    then refused hb'
    else picked hb.made (record v { fremsk = bit_and v.fremsk (2 ^ 64 - 1 - 2 ^ v.pos) })
        (record hb' { smalclas = update hb.smalclas v.clas (some hb.made) })

unfoldable pub new_region : Maker → Request → ClassHeap → Vars → Pick
new_region env q hb v =
    if ltb v.alen q.len
    then refused hb
    else new_placed hb v
        (newslab env.newregion env.tags env.flns env.order v.alen v.clas (hb.clasregcnt v.clas))

abbrev pub or_new : Maker → Request → ClassHeap → Vars → Option (ℕ × Vars) → Pick
or_new env q hb v (some (i, v')) = picked i v' hb
or_new env q hb v none = new_region env q hb v

-- `for (nx = 1; nx < 3; nx++)`
abbrev pub or_second : Maker → Request → ClassHeap → Vars → Option (ℕ × Vars) → Pick
or_second env q hb v (some (i, v')) = picked i v' hb
or_second env q hb v none =
    if leb clasregs_max (hb.claspos (v.clas + 2))
    then refused hb
    else or_new env q hb v (next_class hb v 2)

-- No region at the current place.
unfoldable pub pick_other : Maker → Request → ClassHeap → ℕ → Vars → Pick
pick_other env q hb iter v =
    if q.len == 0
    then zero_block
    else if not q.popular && ltb iter 4 && ltb v.clas (clascnt_max - 4) && not (is_allocal q.loc)
    then (if leb clasregs_max (hb.claspos (v.clas + 1))
        then refused hb
        else or_second env q hb v (next_class hb v 1))
    else new_region env q hb v

abbrev pub pick_here : Maker → Request → ClassHeap → ℕ → Vars → Option ℕ → Pick
pick_here env q hb iter v (some i) = picked i v hb
pick_here env q hb iter v none = pick_other env q hb iter v

abbrev pub pick_headroom : Maker → Request → ClassHeap → ℕ → Vars → Option (ℕ × Vars) → Pick
pick_headroom env q hb iter v (some (i, v')) = picked i v' hb
pick_headroom env q hb iter v none = pick_here env q hb iter v (hb.clasregs v.clas v.pos)

unfoldable pub pick : Maker → Request → ClassHeap → ℕ → Vars → Pick
pick env q hb iter v =
    pick_headroom env q hb iter v
      (if is_real q.loc && ltb 1 q.clen then next_class hb v 1 else none)

-- The region is full: go on with another place of the class. None: the region there does not fit.
abbrev pub fits_there : ClassHeap → Request → ℕ → Option ℕ → Bool
fits_there hb q clas none = true
fits_there hb q clas (some i) = ((hb.regs i).clas == clas) && not (ltb (hb.regs i).cellen q.len)

unfoldable pub next_pos : ℕ → ℕ → ℕ × ℕ
next_pos clasmsk fremsk =
    let fremsk' = if (clasmsk == 0) && (fremsk == 0) then 2 ^ 32 - 1 else fremsk in
    let pos = ctzl (if clasmsk == 0 then fremsk' else clasmsk) in
    ((if leb clasregs_max pos then 0 else pos), fremsk')

unfoldable pub advance : Request → ClassHeap → Vars → ClassHeap × Option Vars
advance q hb v =
    let msk = bit_and (hb.clasmsk v.clas) (2 ^ 64 - 1 - 2 ^ v.pos) in
    let (pos, fremsk) = next_pos msk v.fremsk in
    let reg = hb.clasregs v.clas pos in
    let hb' = record hb {
      clasmsk = update hb.clasmsk v.clas msk;
      claspos = update hb.claspos v.clas pos;
    } in
    if fits_there hb q v.clas reg
    then (
      record hb' { smalclas = update hb.smalclas v.clas reg },
      some (record v { pos = pos; fremsk = fremsk }),
    )
    else (hb', none)

-- Log what came before.
abbrev pub after : List Diag → BlockOut → BlockOut
after log (p, hb, log') = (p, hb, log ++ log')

abbrev pub go_on : (ClassHeap → Vars → BlockOut) → List Diag → ClassHeap × Option Vars → BlockOut
go_on rest log (hb, none) = (none, hb, log ++ (assertion ∷ []))
go_on rest log (hb, some v) = after log (rest hb v)

-- After slab_alloc().
abbrev pub served :
    (ClassHeap → Vars → BlockOut) → Request → ClassHeap → Vars → List Diag → Option ℕ → BlockOut
served rest q hb v log (some p) = (some p, hb, log)
served rest q hb v log none = go_on rest log (advance q hb v)

abbrev pub with_out : ClassHeap → ℕ → Allocated → ClassHeap
with_out hb i out = record hb { regs = update hb.regs i out.reg; stat = out.hb; mem = out.mem }

-- With the region that was picked.
abbrev pub serve : Maker → (ClassHeap → Vars → BlockOut) → Request → ClassHeap → Pick → BlockOut
serve env rest q hb zero_block = (some env.zeroblock, hb, [])
serve env rest q hb (refused hb') = (none, hb', assertion ∷ [])
serve env rest q hb (no_region log) = (none, hb, log)
serve env rest q hb (picked i v hb') =
    let reg = hb'.regs i in
    if not (v.clas == reg.clas)
    then (none, hb', assertion ∷ [])
    else if ltb reg.cellen q.len
    then (none, hb', assertion ∷ [])
    else if not (hb'.inuse i == 1)
    then (none, hb', assertion ∷ [])
    else let out = slab_alloc hb'.stat reg q.ulen q.align q.loc hb'.mem in
      served rest q (with_out hb' i out) v out.log out.ptr

-- `do { ... } while (likely(--iter))`: no round is left, regions exceeded.
unfoldable pub alloc_slab : Maker → Request → ℕ → ClassHeap → Vars → BlockOut
alloc_slab env q zero hb v = (none, hb, assertion ∷ [])
alloc_slab env q (suc iter) hb v =
    let rest : ClassHeap → Vars → BlockOut = λ hb' v'. alloc_slab env q iter hb' v' in
    serve env rest q hb (pick env q hb (iter + 1) v)

-- `iter = Clasregs * 2 + 2`
unfoldable pub alloc_class : Maker → Request → ClassHeap → ℕ → ℕ → BlockOut
alloc_class env q hb clas alen =
    if leb clasregs_max (hb.claspos clas)
    then (none, hb, assertion ∷ [])
    else alloc_slab env q 66 hb
        (record { clas = clas; pos = hb.claspos clas; alen = alen; fremsk = hb.cfremsk clas })
