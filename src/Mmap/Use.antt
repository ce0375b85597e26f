-- ===== src/Mmap/Use.antt =====
-- alloc.h `yal_mmap`.
use yalloc.Base.{
  ℕ, ◌+◌, ◌%◌, ◌^◌, Bool, true, false, ◌&&◌, not, Option, none, some, [], ◌∷◌, ◌++◌, ltb, leb, ◌==◌,
  if◌then◌else◌,
}
use yalloc.Word.{doalign8}
use yalloc.Slab.Blocks.{clear}
use yalloc.Directory.Set.{setregion}
use yalloc.Mmap.State.{
  pagesize, vmbits, rmmap, MpHeap, Sys, assertion, no_memory, not_free, MpOut, mp_id, put_reg,
}
use yalloc.Mmap.New.{newmpregion}

-- Which API function asks, as far as yal_mmap() tells them apart.
pub data MapLoc : Type 0 where
  plain allocal calloc : MapLoc

abbrev pub is_allocal : MapLoc → Bool
is_allocal allocal = true
is_allocal _ = false

abbrev pub is_calloc : MapLoc → Bool
is_calloc calloc = true
is_calloc _ = false

-- Once the memory is there: clear it if asked for, and enter the region in the directory.
unfoldable pub map_block : Sys → MpHeap → ℕ → ℕ → MapLoc → MpOut (Option ℕ)
map_block sys hb reg ulen loc =
    let r = hb.regs reg in
    let hb' = put_reg hb reg (record r { ulen = ulen; typ = rmmap }) in
    (
      some reg,
      record hb' {
        mem = if is_calloc loc && not (r.clr == 0) then clear hb.mem r.user ulen else hb.mem;
        stat = record (hb.stat) { mapallocs = hb.stat.mapallocs + 1 };
        dirs = (setregion sys.osmem hb.dirs (mp_id reg) r.user pagesize true).1;
      },
      [],
    )

-- New memory.
abbrev pub map_new : Sys → MpHeap → ℕ → ℕ → ℕ → MapLoc → Option ℕ → MpOut (Option ℕ)
map_new sys hb reg alen ulen loc none = (none, hb, [])
map_new sys hb reg alen ulen loc (some ip) =
    if not (ip % pagesize == 0)
    then (none, hb, assertion ∷ [])
    else map_block sys (put_reg hb reg (record (hb.regs reg) { len = alen; user = ip })) reg ulen
        loc

-- From the check of the status on.
unfoldable pub map_region : Sys → MpHeap → ℕ → ℕ → ℕ → ℕ → MapLoc → MpOut (Option ℕ)
map_region sys hb reg len alen ulen loc =
    let r = hb.regs reg in
    let used = put_reg hb reg (record r { set = 1 }) in
    let old = put_reg hb reg (record r { set = 1; typ = rmmap }) in
    if not (r.set == 2)
    then (none, hb, not_free r.set ∷ [])
    else if r.len == 0
    then map_new sys used reg alen ulen loc (sys.osmem len)
    else if ltb r.user pagesize
    then (none, old, assertion ∷ [])
    else map_block sys old reg ulen loc

abbrev pub map_found : Sys → ℕ → ℕ → ℕ → MapLoc → MpOut (Option ℕ) → MpOut (Option ℕ)
map_found sys len alen ulen loc (none, hb, log) = (none, hb, log ++ (no_memory ∷ []))
map_found sys len alen ulen loc (some reg, hb, log) =
    let (found, hb', log') = map_region sys hb reg len alen ulen loc in (found, hb', log ++ log')

-- A region of at least `len` bytes, for a block of `ulen` bytes.
unfoldable pub yal_mmap : Sys → MpHeap → ℕ → ℕ → MapLoc → MpOut (Option ℕ)
yal_mmap sys hb len ulen loc =
    let alen = doalign8 len pagesize in
    if ltb len pagesize
    then (none, hb, assertion ∷ [])
    else if leb (2 ^ vmbits) len
    then (none, hb, no_memory ∷ [])
    else map_found sys len alen ulen loc (newmpregion sys hb alen (is_allocal loc))
