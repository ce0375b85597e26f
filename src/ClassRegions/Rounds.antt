-- ===== src/ClassRegions/Rounds.antt =====
-- alloc.h `alloc_heap`: the rounds of the loop.
use yalloc.Base.{
  ℕ, zero, suc, ◌+◌, ◌-◌, ◌^◌, ◌≤◌, ◌<◌, false, not, Option, none, some, List, ◌==◌, ltb, leb,
  arith, ◌≡◌, inl, inr, refl, Bool-cases, bit_and,
}
use yalloc.Slab.Region.{Diag}
use yalloc.Slab.Blocks.{is_allocal, Allocated, slab_alloc}
use yalloc.ClassRegions.State.{ClassHeap, Request, Vars, Maker, BlockOut}
use yalloc.ClassRegions.Alloc.{
  Pick, picked, zero_block, refused, no_region, pick, next_pos, fits_there, advance, go_on, served,
  with_out, serve, alloc_slab, alloc_class,
}
use yalloc.ClassRegions.Valid.{IsOrdered, SlabOut}
use yalloc.ClassRegions.Block.{slab_alloc-SlabOut}
use yalloc.ClassRegions.Fresh.{IsAnswered}
use yalloc.ClassRegions.Picked.{Before, same-Before, PickOut, pick-PickOut}
use yalloc.ClassRegions.Served.{
  ServedOut, later-ServedOut, after-ServedOut, written-IsOrdered, written-Before, written-Served,
}

-- The next place of a class: no cell changes, and the length stays below 2 ^ 32.
abbrev NextOut : ClassHeap → ClassHeap × Option Vars → Type 0
NextOut hb (hb', none) = IsOrdered hb' × Before hb hb'
NextOut hb (hb', some v) = IsOrdered hb' × Before hb hb' × (v.alen < 2 ^ 32)

advance-NextOut :
    (q : Request) (hb : ClassHeap) (v : Vars)
    → IsOrdered hb
    → v.alen < 2 ^ 32
    → NextOut hb (advance q hb v)
unfolding advance
advance-NextOut q hb v o short =
    let b = same-Before hb in
    let pos = (next_pos (bit_and (hb.clasmsk v.clas) (2 ^ 64 - 1 - 2 ^ v.pos)) v.fremsk).0 in
    elim (Bool-cases (fits_there hb q v.clas (hb.clasregs v.clas pos))) [
      | inl fits ↦ rw fits (
        record { opened = o.opened; entered = o.entered },
        record { more = b.more; same = b.same; unused = b.unused },
        short,
      )
      | inr other ↦ rw other (
        record { opened = o.opened; entered = o.entered },
        record { more = b.more; same = b.same; unused = b.unused },
      )
    ]

module _ (env : Maker) (answered : IsAnswered env.newregion) (q : Request)
    (plain : is_allocal q.loc ≡ false) where
  -- What the rounds left do.
  abbrev Rest : (ClassHeap → Vars → BlockOut) → Type 0
  Rest rest =
      (hb : ClassHeap) (v : Vars) → IsOrdered hb → v.alen < 2 ^ 32 → ServedOut env q hb (rest hb v)

  go_on-ServedOut :
      (rest : ClassHeap → Vars → BlockOut)
      → Rest rest
      → (hb : ClassHeap) (log : List Diag) (next : ClassHeap × Option Vars) → NextOut hb next
      → ServedOut env q hb (go_on rest log next)
  go_on-ServedOut rest of_rest hb log (hb', none) n = n
  go_on-ServedOut rest of_rest hb log (hb', some v) (o, b, short) =
      after-ServedOut env q hb log (rest hb' v)
        (later-ServedOut env q hb hb' b (rest hb' v) (of_rest hb' v o short))

  served-ServedOut :
      (rest : ClassHeap → Vars → BlockOut)
      → Rest rest
      → (hb : ClassHeap) (o : IsOrdered hb) (i : ℕ) (lt : i < hb.made) (v : Vars) → v.alen < 2 ^ 32
      → q.len ≤ (hb.regs i).cellen
      → (out : Allocated) (p : Option ℕ) → SlabOut (hb.regs i) p out.reg
      → ServedOut env q hb (served rest q (with_out hb i out) v out.log p)
  served-ServedOut rest of_rest hb o i lt v short room out (some p) (is_open, block) = (
    written-IsOrdered hb o i lt out is_open,
    inr (written-Served hb o i lt out q.len p room block),
  )
  served-ServedOut rest of_rest hb o i lt v short room out none (is_open, same) =
      let hb' = with_out hb i out in
      later-ServedOut env q hb hb' (written-Before hb o i lt out same) _ (
        go_on-ServedOut rest of_rest hb' out.log (advance q hb' v)
          (advance-NextOut q hb' v (written-IsOrdered hb o i lt out is_open) short))

  serve-ServedOut :
      (rest : ClassHeap → Vars → BlockOut)
      → Rest rest
      → (hb : ClassHeap) → IsOrdered hb
      → (p : Pick) → PickOut hb p
      → ServedOut env q hb (serve env rest q hb p)
  serve-ServedOut rest of_rest hb o zero_block n = (o, inl (refl, same-Before hb))
  serve-ServedOut rest of_rest hb o (refused hb') n = n
  serve-ServedOut rest of_rest hb o (no_region log) n = (o, same-Before hb)
  serve-ServedOut rest of_rest hb o (picked i v hb') (o', lt, short, b) =
      let reg = hb'.regs i in
      let out = slab_alloc hb'.stat reg q.ulen q.align q.loc hb'.mem in
      elim (Bool-cases (not (v.clas == reg.clas))) [
        | inl other ↦ rw other (o', b)
        | inr own ↦ elim (Bool-cases (ltb reg.cellen q.len)) [
          | inl small ↦ rw (own, small) (o', b)
          | inr fits ↦ elim (Bool-cases (not (hb'.inuse i == 1))) [
            | inl dead ↦ rw (own, fits, dead) (o', b)
            | inr in_use ↦
                rw (own, fits, in_use)
                  (later-ServedOut env q hb hb' b _ (
                    served-ServedOut rest of_rest hb' o' i lt v short (ground (arith, fits)) out
                      out.ptr
                      (slab_alloc-SlabOut reg (o'.opened i lt) hb'.stat q.ulen q.align q.loc hb'.mem
                        plain)))
          ]
        ]
      ]

  alloc_slab-ServedOut : (iter : ℕ) → Rest (alloc_slab env q iter)
  unfolding alloc_slab
  alloc_slab-ServedOut zero hb v o short = (o, same-Before hb)
  alloc_slab-ServedOut (suc iter) hb v o short =
      serve-ServedOut (alloc_slab env q iter) (alloc_slab-ServedOut iter) hb o
        (pick env q hb (iter + 1) v) (pick-PickOut env answered q hb o v short (iter + 1))

-- The last part of alloc_heap(), but for aligned_alloc(), for a class with cells of less than 2 ^
-- 32 bytes, on a heap whose slab regions are in order, where newregion() answers a region whose
-- record and metadata are 0, but for an empty remote bin that is not without length, and whose
-- metadata ends behind the bytes asked for: all regions are in order again. A block is that for
-- malloc(0), with no cell changed, or it is a cell that is long enough, was not in use and is now,
-- in a region of the heap or a new one, and no other cell changes. Without a block no cell changes.
pub alloc_class-ServedOut :
    (env : Maker)
    → IsAnswered env.newregion
    → (q : Request) → is_allocal q.loc ≡ false
    → (hb : ClassHeap) → IsOrdered hb
    → (clas alen : ℕ) → alen < 2 ^ 32
    → ServedOut env q hb (alloc_class env q hb clas alen)
unfolding alloc_class
alloc_class-ServedOut env answered q plain hb o clas alen short =
    elim (Bool-cases (leb 32 (hb.claspos clas))) [
      | inl far ↦ rw far (o, same-Before hb)
      | inr near ↦ rw near (alloc_slab-ServedOut env answered q plain 66 hb _ o short)
    ]
