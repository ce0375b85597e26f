-- ===== src/Mmap/Trim.antt =====
-- free.h `free_trim`, the regions of large blocks: those that are free grow older, can be used again,
-- and at last give their memory back.
use yalloc.Base.{
  ℕ, zero, suc, ◌+◌, Bool, true, false, ◌&&◌, ◌||◌, not, Option, none, some, List, [], ◌∷◌, ◌++◌,
  leb, ◌==◌, if◌then◌else◌, update,
}
use yalloc.FreeList.{Links, push, unlink, unlink_head}
use yalloc.Mmap.State.{vmbits, MpHeap, Sys, MpDiag, assertion, bad_set, MpOut, put_reg, count_trim}
use yalloc.Mmap.New.{is_mmap}
use yalloc.Mmap.Free.{forget}

-- `Trim_scan`
abbrev pub trim_scan : ℕ
trim_scan = 64

-- Memory to unmap, by address and length. None: an error, that ends the function.
abbrev pub Unmaps : Type 0
Unmaps = Option (List (ℕ × ℕ))

-- Arrange for reuse: the region goes to the list of its size.
unfoldable pub trim_recycle : Sys → MpHeap → ℕ → MpHeap
trim_recycle sys hb reg =
    let r = hb.regs reg in
    record hb {
      dirs = forget sys hb.dirs reg r;
      freempregs = update hb.freempregs r.order (some reg);
      links = push hb.links (hb.freempregs r.order) reg;
      stat = count_trim hb.stat 5;
      regs = update hb.regs reg (record r { align = 0; aged = 1 });
    }

-- Give the memory back: from the list of its size to that of the empty regions.
unfoldable pub trim_empty : MpHeap → ℕ → MpHeap
trim_empty hb reg =
    let r = hb.regs reg in
    let s = record (hb.stat) { delmpregions = hb.stat.delmpregions + 1 } in
    let out = unlink hb.links reg in
    let out' : Links = record {
      frenxt = update out.frenxt reg none;
      freprv = update out.freprv reg none;
    } in
    record hb {
      freempregs = update hb.freempregs r.order (unlink_head hb.links (hb.freempregs r.order) reg);
      freemp0regs = some reg;
      links = push out' hb.freemp0regs reg;
      stat = count_trim s 7;
      regs = update hb.regs reg (record r { set = 0; prvlen = r.len; len = 0; aged = 3 });
    }

-- From the new age on: `age` and `aged` are what they were before.
unfoldable pub trim_aged : Sys → (ℕ → ℕ) → MpHeap → ℕ → ℕ → ℕ → MpOut Unmaps
trim_aged sys ages hb reg age aged =
    let r = hb.regs reg in
    if leb vmbits r.order || leb r.order 12
    then (none, hb, assertion ∷ [])
    else if (aged == 0) && leb (ages 0) age
    then (some [], trim_recycle sys hb reg, [])
    else if (aged == 1) && leb (ages 1) age
    then (
      some [],
      put_reg (record hb { stat = count_trim hb.stat 6 }) reg (record r { aged = 2 }),
      [],
    )
    else if (aged == 2) && leb (ages 2) age
    then (if not (r.set == 2)
        then (none, hb, bad_set r.set ∷ [])
        else (some ((r.user, r.len) ∷ []), trim_empty hb reg, []))
    else (some [], hb, [])

-- One region.
unfoldable pub trim_one : Sys → (ℕ → ℕ) → MpHeap → ℕ → MpOut Unmaps
trim_one sys ages hb reg =
    let r = hb.regs reg in
    let hb' = if r.age == 1 then record hb { stat = count_trim hb.stat 4 } else hb in
    let older = put_reg hb' reg (record r { age = r.age + 1 }) in
    if (r.age == 0) || (r.aged == 3)
    then (some [], hb, [])
    else if not (is_mmap r.typ)
    then (none, hb, assertion ∷ [])
    else if (r.age == 1) && not (r.set == 2)
    then (none, hb', bad_set r.set ∷ [])
    else trim_aged sys ages older reg r.age r.aged

-- The next region, from the end on to the start.
abbrev pub next_reg : MpHeap → Option ℕ → Option ℕ
next_reg hb none = hb.mpreglst
next_reg hb (some reg) = some reg

abbrev pub is_start : Option ℕ → ℕ → Bool
is_start none reg = false
is_start (some x) reg = x == reg

-- With the outcome of one region and what comes after it.
abbrev pub trim_with : List (ℕ × ℕ) → List MpDiag → MpOut Unmaps → MpOut Unmaps
trim_with unmaps log (none, hb, log') = (none, hb, log ++ log')
trim_with unmaps log (some unmaps', hb, log') = (some (unmaps ++ unmaps'), hb, log ++ log')

abbrev pub trim_more : (MpHeap → MpOut Unmaps) → MpOut Unmaps → MpOut Unmaps
trim_more rest (none, hb, log) = (none, hb, log)
trim_more rest (some unmaps, hb, log) = trim_with unmaps log (rest hb)

-- `iter` rounds at most, at most one for a region: `first` is the first round. At the end the next
-- scan is to start where this one stopped.
unfoldable pub trim_loop : Sys → (ℕ → ℕ) → ℕ → Bool → Option ℕ → Option ℕ → MpHeap → MpOut Unmaps
trim_loop sys ages iter first start none hb = (some [], record hb { mpregtrim = hb.mpreglst }, [])
trim_loop sys ages zero first start (some reg) hb =
    (some [], record hb { mpregtrim = some reg }, [])
trim_loop sys ages (suc iter) first start (some reg) hb =
    let nxreg = next_reg hb (hb.nxt reg) in
    let rest : MpHeap → MpOut Unmaps = λ hb'. trim_loop sys ages iter false start nxreg hb' in
    if is_start start reg && not first
    then (some [], record hb { mpregtrim = some reg }, [])
    else trim_more rest (trim_one sys ages hb reg)

unfoldable pub trim_mmap : Sys → (ℕ → ℕ) → MpHeap → MpOut Unmaps
trim_mmap sys ages hb = trim_loop sys ages trim_scan true hb.mpregtrim hb.mpregtrim hb
