-- ===== src/Mmap/Choose.antt =====
-- region.h `newmpregion`, the search for a region to use again. `len` is a whole number of pages.
use yalloc.Base.{
  ℕ, zero, suc, ◌+◌, ◌*◌, ◌^◌, ◌%◌, min, Bool, false, ◌&&◌, Option, none, some, ltb, leb, ◌==◌,
  if◌then◌else◌, update,
}
use yalloc.FreeList.{set_prv, unlink, unlink_head, find_fit}
use yalloc.Mmap.State.{vmbits, MpHeap}

-- The regions that were ever made bound the walk along a list.
abbrev pub walk : MpHeap → ℕ
walk hb = hb.stat.newmpregions

-- `do { ... } while (reg == nil && ++ord < min(Vmbits,order + 3));`, with the number of rounds left:
-- the region, and the order of its list. `iter` goes on from one list to the next.
abbrev pub next_order : ℕ → ℕ → Option ℕ → Option (ℕ × ℕ) → Option (ℕ × ℕ)
next_order order ord (some reg) rest = some (reg, ord)
next_order order ord none rest = if ltb (ord + 1) (min vmbits (order + 3)) then rest else none

unfoldable pub mp_sized : ℕ → ℕ → MpHeap → ℕ → ℕ → ℕ → Option (ℕ × ℕ)
mp_sized zero iter hb len order ord = none
mp_sized (suc left) iter hb len order ord =
    let (found, iter') =
      find_fit (λ reg. leb len (hb.regs reg).len) hb.links.frenxt (walk hb) iter
        (hb.freempregs ord) in
    let rest = mp_sized left iter' hb len order (ord + 1) in next_order order ord found rest

-- An empty region that would have fitted.
unfoldable pub mp_would : MpHeap → ℕ → Option ℕ
mp_would hb len =
    (find_fit (λ reg. leb len (hb.regs reg).prvlen && leb (hb.regs reg).prvlen (len * 2 % 2 ^ 64))
      hb.links.frenxt (walk hb) 100 hb.freemp0regs).0

-- The region leaves the list of its size.
unfoldable pub take_sized : MpHeap → ℕ → ℕ → MpHeap
take_sized hb reg ord = record hb {
  freempregs = update hb.freempregs ord (unlink_head hb.links (hb.freempregs ord) reg);
  links = unlink hb.links reg;
  stat = record (hb.stat) { usempregions = hb.stat.usempregions + 1 };
}

abbrev pub is_head : Option ℕ → ℕ → Bool
is_head none reg = false
is_head (some x) reg = x == reg

-- The first empty region leaves the list.
unfoldable pub pop_empty : MpHeap → ℕ → MpHeap
pop_empty hb reg = record hb {
  freemp0regs = hb.links.frenxt reg;
  links = set_prv hb.links (hb.links.frenxt reg) none;
}

-- An empty region that would have fitted leaves the list.
unfoldable pub take_empty : MpHeap → ℕ → MpHeap
unfolding pop_empty
take_empty hb reg =
    let hb' = record hb {
      stat = record (hb.stat) {
        nompregions = hb.stat.nompregions + 1;
        curnompregions = hb.stat.curnompregions + 1;
      };
    } in
    if is_head hb.freemp0regs reg
    then pop_empty hb' reg
    else record hb' { links = unlink hb.links reg }

-- Which region to use again, if any, and the heap without it on its list.
abbrev pub choose_first : MpHeap → Option ℕ → Option ℕ × MpHeap
choose_first hb none = (none, hb)
choose_first hb (some reg) = (some reg, pop_empty hb reg)

abbrev pub choose_empty : MpHeap → Option ℕ → Option ℕ × MpHeap
choose_empty hb (some reg) = (some reg, take_empty hb reg)
choose_empty hb none = choose_first hb hb.freemp0regs

abbrev pub choose_sized : MpHeap → ℕ → Option (ℕ × ℕ) → Option ℕ × MpHeap
choose_sized hb len (some (reg, ord)) = (some reg, take_sized hb reg ord)
choose_sized hb len none = choose_empty hb (mp_would hb len)

unfoldable pub choose_region : MpHeap → ℕ → ℕ → Option ℕ × MpHeap
choose_region hb len order = choose_sized hb len (mp_sized 3 80 hb len order order)
