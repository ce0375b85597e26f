-- ===== src/Mmap/Start.antt =====
-- yalloc.c `struct st_heap`: a heap without large blocks, and a system that always has memory.
use yalloc.Base.{ℕ, ◌^◌, none, some, [], refl, ◌≢◌}
use yalloc.Directory.Tree.{Dirs, empty}
use yalloc.Mmap.State.{rnone, MpRegion, MpHeap, Sys}
use yalloc.Mmap.Valid.{IsOrdered}

abbrev pub no_region : MpRegion
no_region = record {
  typ = rnone;
  user = 0;
  len = 0;
  set = 0;
  clr = 0;
  ulen = 0;
  align = 0;
  order = 0;
  gen = 0;
  prvlen = 0;
  age = 0;
  aged = 0;
  real = 0;
}

abbrev pub no_dirs : Dirs
no_dirs = record {
  rootdir = empty;
  dirmem = 0;
  dirmem_pos = 0;
  dirmem_top = 0;
  leafdirmem = 0;
  ldirmem_pos = 0;
  ldirmem_top = 0;
  mmaps = 0;
}

abbrev pub start : MpHeap
start = record {
  regs = λ i. no_region;
  nxt = λ i. none;
  links = record { frenxt = λ i. none; freprv = λ i. none };
  freempregs = λ i. none;
  freemp0regs = none;
  mpreglst = none;
  mpregtrim = none;
  mpregprv = none;
  xregmem = 0;
  xregmem_pos = 256;
  dirs = no_dirs;
  mem = λ i. 7;
  stat = record {
    newmpregions = 0;
    usempregions = 0;
    nompregions = 0;
    curnompregions = 0;
    delmpregions = 0;
    mapallocs = 0;
    mmaps = 0;
    munmaps = 0;
    trimregions = λ i. 0;
  };
}

-- A system that always has memory.
abbrev pub sys : Sys
sys = record { osmem = λ n. some (2 ^ 30); osmmap = λ n. some (2 ^ 30) }

pub sys_memory : (n : ℕ) → sys.osmem n ≢ none
sys_memory n e = cc

pub start-IsOrdered : IsOrdered start (λ ord. []) []
start-IsOrdered = record {
  sized = λ ord. refl;
  empties = refl;
  once = λ ord. refl;
  once_empty = refl;
  waiting = λ ord r on. cc;
  emptied = λ r on. cc;
  made = λ ord r on. cc;
  made_empty = λ r on. cc;
  listed = λ r ne begun kept. absurd (begun refl);
  in_use = λ r e. refl;
  older = λ r a. absurd (a refl);
  unmade = λ r ge. record { nothing = refl; young = refl; unset = refl };
  blocks = record { block = λ r e. absurd (e refl); apart = λ q r ne e. absurd (e refl) };
}
