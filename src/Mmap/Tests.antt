-- ===== src/Mmap/Tests.antt =====
-- Runs on large blocks.
use yalloc.Base.{ap, ◌+◌, ◌^◌, some, [], refl, true, arith}
use yalloc.Word.{doalign8, clzl}
use yalloc.FreeList.{find_fit}
use yalloc.Mmap.Choose.{choose_region, mp_sized, mp_would}
use yalloc.Mmap.New.{newmpregmem, fresh_region, newmpregion}
use yalloc.Mmap.Use.{plain, map_region, map_block, yal_mmap}
use yalloc.Mmap.Free.{recycle, free_block, free_checked, free_mmap}
use yalloc.Mmap.Trim.{trim_mmap}
use yalloc.Mmap.Memory.{IsMapped}
use yalloc.Mmap.Used.{MappedOut, Mapped, yal_mmap-Mapped}
use yalloc.Mmap.Marked.{FreedOut, Freed}
use yalloc.Mmap.Freed.{free_mmap-Freed}
use yalloc.Mmap.Aged.{TrimmedOut}
use yalloc.Mmap.Trimmed.{trim_mmap-Trimmed}
use yalloc.Mmap.State.{MpRegion, MpHeap}
use yalloc.Mmap.Resize.{resized_len, real_mmap}
use yalloc.Mmap.Resized.{IsMoved, ResizedOut, real_mmap-ResizedOut}
use yalloc.Mmap.Start.{start, sys, sys_memory, start-IsOrdered}

page-IsMapped : IsMapped start.regs (doalign8 200000 4096) (some (2 ^ 30))
unfolding doalign8
page-IsMapped = (
  record { aligned = refl; whole = refl; above = omega arith; below = omega arith },
  λ q e. absurd (e refl),
)

yal_mmap-Mapped_example : MappedOut start 200000 200000 (yal_mmap sys start 200000 200000 plain)
yal_mmap-Mapped_example =
    yal_mmap-Mapped sys sys_memory start 200000 200000 (λ ord. []) [] plain start-IsOrdered
      (omega arith) page-IsMapped page-IsMapped

abbrev one_block : MpHeap
one_block = (yal_mmap sys start 200000 200000 plain).1

-- Region 0 is new, and has a block that was mapped for it.
one-Mapped : Mapped start 200000 200000 0 one_block
unfolding yal_mmap newmpregion doalign8 clzl choose_region mp_sized find_fit mp_would fresh_region
    newmpregmem map_region map_block
one-Mapped = yal_mmap-Mapped_example

free_mmap-Freed_example : FreedOut one_block true 0 (free_mmap sys one_block true 0 (2 ^ 30) 0)
free_mmap-Freed_example =
    free_mmap-Freed sys sys_memory one_block 0 one-Mapped.using.lists one-Mapped.using.zeros true
      (2 ^ 30) 0 one-Mapped.using.ordered

abbrev freed_block : MpHeap
freed_block = (free_mmap sys one_block true 0 (2 ^ 30) 0).1

one-Freed : Freed one_block 0 freed_block
unfolding yal_mmap newmpregion doalign8 clzl choose_region mp_sized find_fit mp_would fresh_region
    newmpregmem map_region map_block free_mmap free_checked free_block recycle
one-Freed = free_mmap-Freed_example.0

trim_mmap-Trimmed_example : TrimmedOut freed_block (trim_mmap sys (λ i. 0) freed_block)
trim_mmap-Trimmed_example =
    trim_mmap-Trimmed sys (λ i. 0) freed_block one-Freed.lists one-Freed.zeros one-Freed.ordered

-- The memory moves to 2 ^ 31, where no region is.
far-IsMoved :
    let len = resized_len (one_block.regs 0) 300000 + (one_block.regs 0).align in
    IsMoved one_block.regs 0 len (some (2 ^ 31))
unfolding yal_mmap newmpregion doalign8 clzl choose_region mp_sized find_fit mp_would fresh_region
    newmpregmem map_region map_block resized_len
far-IsMoved = (
  record { aligned = refl; whole = refl; above = omega arith; below = omega arith },
  λ q ne some_len. absurd (some_len (ap (λ (x : MpRegion). x.len) (one-Mapped.using.others q ne))),
)

real_mmap-ResizedOut_example :
    ResizedOut one_block 0 300000 300000 one-Mapped.using.lists one-Mapped.using.zeros
      (real_mmap sys (λ n. some (2 ^ 31)) one_block 0 300000 300000)
real_mmap-ResizedOut_example =
    real_mmap-ResizedOut sys sys_memory (λ n. some (2 ^ 31)) one_block 0 300000 300000
      one-Mapped.using.lists one-Mapped.using.zeros one-Mapped.using.ordered one-Mapped.using.used
      (omega arith) (omega arith) one-Mapped.found far-IsMoved
