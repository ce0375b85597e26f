-- ===== src/Mmap/State.antt =====
-- yalloc.c `struct st_mpregion`, and the fields of `struct st_heap` for such regions. A region is named
-- by its place in the order of creation. What osmem() maps is 0, so a region is when it is made.
use yalloc.Base.{ℕ, ◌+◌, ◌*◌, ◌^◌, Option, List, update}
use yalloc.FreeList.{Links}
use yalloc.Directory.Tree.{Dirs}

abbrev pub pagesize : ℕ
pagesize = 4096

-- `Vmbits`, `Mmap_retainlimit`, `Xregmem_inc`
abbrev pub vmbits : ℕ
vmbits = 48

abbrev pub mmap_retainlimit : ℕ
mmap_retainlimit = 2 ^ 30

abbrev pub xregmem_inc : ℕ
xregmem_inc = 64 * 4

-- `enum Rtype`
pub data Rtype : Type 0 where
  rnone rslab rbump rmini rmmap : Rtype

pub record MpRegion : Type 0 where
  pub typ : Rtype
  pub user : ℕ
  pub len : ℕ
  -- 0 never used, 1 in use, 2 free
  pub set : ℕ
  pub clr : ℕ
  pub ulen : ℕ
  pub align : ℕ
  pub order : ℕ
  pub gen : ℕ
  pub prvlen : ℕ
  pub age : ℕ
  pub aged : ℕ
  pub real : ℕ

-- The counters of `struct yal_stats` that this part adds to; `trimregions` is an array.
pub record MpStat : Type 0 where
  pub newmpregions : ℕ
  pub usempregions : ℕ
  pub nompregions : ℕ
  pub curnompregions : ℕ
  pub delmpregions : ℕ
  pub mapallocs : ℕ
  pub mmaps : ℕ
  pub munmaps : ℕ
  pub trimregions : ℕ → ℕ

-- `nxt` is the list of all regions, `links` the free lists. `mem` is the memory, by address.
pub record MpHeap : Type 0 where
  pub regs : ℕ → MpRegion
  pub nxt : ℕ → Option ℕ
  pub links : Links
  pub freempregs : ℕ → Option ℕ
  pub freemp0regs : Option ℕ
  pub mpreglst : Option ℕ
  pub mpregtrim : Option ℕ
  pub mpregprv : Option ℕ
  pub xregmem : ℕ
  pub xregmem_pos : ℕ
  pub dirs : Dirs
  pub mem : ℕ → ℕ
  pub stat : MpStat

-- What the system answers: an address by the length asked for, or none.
pub record Sys : Type 0 where
  pub osmem : ℕ → Option ℕ
  pub osmmap : ℕ → Option ℕ

pub data MpDiag : Type 0 where
  assertion : MpDiag
  no_memory : MpDiag
  not_free : ℕ → MpDiag
  double_free : ℕ → MpDiag
  size_mismatch : ℕ → MpDiag
  before_block : ℕ → MpDiag
  inside_block : ℕ → MpDiag
  beyond_block : ℕ → MpDiag
  bad_set : ℕ → MpDiag

-- The result, the heap after it, and what was reported.
abbrev pub MpOut : Type 0 → Type 0
MpOut A = A × MpHeap × List MpDiag

-- The name of a region in the directory: its `id`, odd where those of slab regions are even.
abbrev pub mp_id : ℕ → ℕ
mp_id reg = (reg + 1) * 2 + 1

-- `hb->regs[reg] = r`
abbrev pub put_reg : MpHeap → ℕ → MpRegion → MpHeap
put_reg hb reg r = record hb { regs = update hb.regs reg r }

abbrev pub count_trim : MpStat → ℕ → MpStat
count_trim s i = record s { trimregions = update s.trimregions i (s.trimregions i + 1) }
