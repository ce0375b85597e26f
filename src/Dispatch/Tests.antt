-- ===== src/Dispatch/Tests.antt =====
-- Runs of size_heap() and free_heap().
use yalloc.Base.{◌^◌, true, false, none, some, refl, ◌≡◌}
use yalloc.Word.{doalign8, clzl}
use yalloc.FreeList.{find_fit}
use yalloc.Slab.Region.{Region}
use yalloc.Bump.Region.{BumpRegion}
use yalloc.Mmap.State.{MpHeap}
use yalloc.Mmap.Choose.{choose_region, mp_sized, mp_would}
use yalloc.Mmap.New.{newmpregmem, fresh_region, newmpregion}
use yalloc.Mmap.Use.{plain, map_region, map_block, yal_mmap}
use yalloc.Mmap.Free.{recycle, free_block, free_checked, free_mmap}
use yalloc.Mmap.Start.{start, sys}
use yalloc.Directory.Find.{find_reg, findregion}
use yalloc.Directory.Set.{setregion}
use yalloc.Dispatch.State.{Heap, in_mini, Heaps, Env}
use yalloc.Dispatch.Size.{PtrInfo, size_mmap, size_place, size_missing, size_heap}
use yalloc.Dispatch.Free.{free_large, free_place, free_missing, free_heap}
use yalloc.Dispatch.Live.{Sized}

abbrev no_slab : Region
no_slab = record {
  user = 0;
  len = 0;
  lock = 0;
  hid = 0;
  uid = 0;
  meta = 0;
  binorg = 0;
  lenorg = 0;
  metautop = 0;
  cellen = 0;
  celcnt = 0;
  celord = 0;
  align = 0;
  clas = 0;
  claspos = 0;
  clr = 0;
  age = 0;
  aged = 0;
  inipos = 0;
  binpos = 0;
  binset = λ i. 0;
  bin = λ i. 0;
  lens = λ i. 0;
  rembin = none;
  remref = 0;
  rbinpos = 0;
  rbinlen = 0;
  rbininc = 0;
  stat = record {
    aligned = 0;
    callocs = 0;
    binallocs = 0;
    iniallocs = 0;
    xallocs = 0;
    frees = 0;
    rfrees = 0;
  };
}

abbrev no_bump : BumpRegion
no_bump = record {
  user = 0;
  len = 0;
  hid = 0;
  id = 0;
  uid = 0;
  pos = 0;
  cnt = 0;
  freorg = 0;
  allocs = 0;
  frees = 0;
  is_mini = false;
  lens = λ i. 0;
  fres = λ i. 0;
}

abbrev heap_of : MpHeap → Heap
heap_of mp = record {
  mp = mp;
  slabs = λ i. no_slab;
  bumpregs = λ i. no_bump;
  slab_stat = record { invalid_frees = 0; slabaligns = λ i. 0 };
  rem = record {
    rembufs = λ i. none;
    remhbs = λ i. none;
    remask = 0;
    xfreebuf = 0;
    xfreebatch = 0;
    xfreedropped = 0;
    xmaxbin = 0;
  };
  clasmsk = λ i. 0;
  claspos = λ i. 0;
  mapfrees = 0;
  lock = 1;
}

-- One heap, with a block of 200000 bytes at 2 ^ 30.
abbrev one_block : MpHeap
one_block = (yal_mmap sys start 200000 200000 plain).1

abbrev one_heap : Heaps
one_heap = record {
  hd = record {
    hb = some 0;
    mhb = none;
    locked = true;
    is_private = true;
    free0s = 0;
    invalid_frees = 0;
    xmapfrees = 0;
  };
  heaps = λ h. heap_of one_block;
  minis = λ i. no_bump;
  global_dirs = start.dirs;
  at = λ n. in_mini n;
}

abbrev env : Env
env = record {
  sys = sys;
  zeroblock = 65536;
  heap_new = none;
  getrbinmem = λ n. none;
  newrem = none;
  ylog = 40;
}

abbrev no_info : PtrInfo
no_info = record { reg = none; len = none; cel = 0; local = false }

size_found_run : (size_heap env one_heap (some 0) (2 ^ 30) no_info).0 ≡ some 200704
unfolding size_heap findregion yal_mmap newmpregion doalign8 clzl choose_region mp_sized find_fit
    mp_would fresh_region newmpregmem map_region map_block setregion yalloc.Directory.Set.set_loop
    yalloc.Directory.Set.set_round yalloc.Directory.Set.fill yalloc.Directory.Tree.newdir
    yalloc.Directory.Tree.newleafdir find_reg size_missing size_mmap size_place
size_found_run = refl

free_found_run : (free_heap env one_heap (some 0) (2 ^ 30) 0).0 ≡ some 200704
unfolding free_heap findregion yal_mmap newmpregion doalign8 clzl choose_region mp_sized find_fit
    mp_would fresh_region newmpregmem map_region map_block setregion yalloc.Directory.Set.set_loop
    yalloc.Directory.Set.set_round yalloc.Directory.Set.fill yalloc.Directory.Tree.newdir
    yalloc.Directory.Tree.newleafdir find_reg size_missing size_mmap size_place free_missing
    free_place free_large free_mmap free_checked free_block recycle
free_found_run = refl
