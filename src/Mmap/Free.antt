-- ===== src/Mmap/Free.antt =====
-- free.h `free_mmap`.
use yalloc.Base.{
  ℕ, ◌+◌, ◌%◌, Bool, true, false, ◌&&◌, not, some, List, [], ◌∷◌, ◌++◌, ltb, leb, ◌==◌,
  if◌then◌else◌, update,
}
use yalloc.FreeList.{push}
use yalloc.Directory.Tree.{Dirs}
use yalloc.Directory.Set.{setregion}
use yalloc.Mmap.State.{
  pagesize, mmap_retainlimit, MpRegion, MpHeap, Sys, MpDiag, assertion, double_free, size_mismatch,
  before_block, inside_block, beyond_block, MpOut, mp_id, put_reg, count_trim,
}

-- The region is no longer found by its address, nor by that of its aligned block.
unfoldable pub forget : Sys → Dirs → ℕ → MpRegion → Dirs
forget sys dirs reg r =
    let dirs' = (setregion sys.osmem dirs (mp_id reg) r.user pagesize false).1 in
    if r.align == 0
    then dirs'
    else (setregion sys.osmem dirs' (mp_id reg) (r.user + r.align) pagesize false).1

-- A very large block: its memory goes back at once.
unfoldable pub release : MpHeap → ℕ → MpHeap
release hb reg = record hb {
  freemp0regs = some reg;
  links = push hb.links hb.freemp0regs reg;
  stat = record (hb.stat) { munmaps = hb.stat.munmaps + 1 };
  regs = update hb.regs reg (record (hb.regs reg) { len = 0; aged = 3 });
}

-- Its region goes to the list of its size.
unfoldable pub recycle : MpHeap → ℕ → MpHeap
recycle hb reg =
    let r = hb.regs reg in
    record hb {
      freempregs = update hb.freempregs r.order (some reg);
      links = push hb.links (hb.freempregs r.order) reg;
      stat = count_trim hb.stat 5;
      regs = update hb.regs reg (record r { age = 2; aged = 1 });
    }

-- With its heap at hand, a region is recycled; else it starts to age, unless its block is aligned.
unfoldable pub free_block : Sys → MpHeap → Bool → ℕ → List MpDiag → MpOut Bool
free_block sys hb local reg log =
    let r = hb.regs reg in
    let out =
      put_reg (record hb { dirs = forget sys hb.dirs reg r }) reg (record r { align = 0 }) in
    if local
    then (false, (if leb mmap_retainlimit r.len then release out reg else recycle out reg), log)
    else if not (r.align == 0)
    then (false, hb, log)
    else if not (r.age == 0)
    then (true, hb, log ++ (assertion ∷ []))
    else (false, put_reg hb reg (record r { age = 1 }), log)

-- The checks on the address `ap`, after the region was marked free.
unfoldable pub free_checked : Sys → MpHeap → Bool → ℕ → ℕ → List MpDiag → MpOut Bool
free_checked sys hb local reg ap log =
    let r = hb.regs reg in
    let aip = r.user + r.align in
    if not (r.align == 0) && not (r.align % pagesize == 0)
    then (true, hb, log ++ (assertion ∷ []))
    else if not (r.align == 0) && ltb ap aip
    then (true, hb, log ++ (before_block ap ∷ []))
    else if not (r.align == 0) && ltb aip ap
    then (true, hb, log ++ (inside_block ap ∷ []))
    else if leb (r.user + r.len) aip
    then (true, hb, log ++ (beyond_block aip ∷ []))
    else free_block sys hb local reg log

-- True on an error. `ulen` is the size that the caller knows, or 0.
unfoldable pub free_mmap : Sys → MpHeap → Bool → ℕ → ℕ → ℕ → MpOut Bool
free_mmap sys hb local reg ap ulen =
    let r = hb.regs reg in
    let log = if not (ulen == 0) && not (r.ulen == ulen) then size_mismatch ulen ∷ [] else [] in
    if not (r.set == 1)
    then (true, hb, double_free r.set ∷ [])
    else free_checked sys (put_reg hb reg (record r { set = 2 })) local reg ap log
