-- ===== src/Slab/Region.antt =====
-- yalloc.c `struct st_region`, as far as slab.h reads and writes it, and what slab.h reports.
-- The metadata block is the arrays that it is cut into: `binset`, `bin` and `lens`, one entry to a
-- cell. `Layout` has the offsets that newslab() gives them.
use yalloc.Base.{ℕ, ◌-◌, ◌^◌, Option, List}

-- `Hi32`, the cell number that stands for no cell
abbrev pub nocel : ℕ
nocel = 2 ^ 32 - 1

-- Store the net length of cells above this length.
abbrev pub cel_nolen : ℕ
cel_nolen = 1023

-- Initial size of a remote freelist.
abbrev pub rbinbuf : ℕ
rbinbuf = 64

-- `struct regstat`, the counters that slab.h keeps
pub record RegStat : Type 0 where
  pub aligned : ℕ
  pub callocs : ℕ
  pub binallocs : ℕ
  pub iniallocs : ℕ
  pub xallocs : ℕ
  pub frees : ℕ
  pub rfrees : ℕ

pub record Region : Type 0 where
  pub user : ℕ
  pub len : ℕ
  pub lock : ℕ
  pub hid : ℕ
  pub uid : ℕ
  -- the address of the metadata, the offsets of its arrays in words, and the end of what is used
  pub meta : ℕ
  pub binorg : ℕ
  pub lenorg : ℕ
  pub metautop : ℕ
  pub cellen : ℕ
  pub celcnt : ℕ
  pub celord : ℕ
  pub align : ℕ
  pub clas : ℕ
  pub claspos : ℕ
  pub clr : ℕ
  pub age : ℕ
  pub aged : ℕ
  pub inipos : ℕ
  pub binpos : ℕ
  -- per cell: 0 initial, 1 allocated, 2 free, 3 freed from another heap
  pub binset : ℕ → ℕ
  pub bin : ℕ → ℕ
  pub lens : ℕ → ℕ
  pub rembin : Option (ℕ → ℕ)
  pub remref : ℕ
  pub rbinpos : ℕ
  pub rbinlen : ℕ
  pub rbininc : ℕ
  pub stat : RegStat

-- What a call of error(), error2(), free2() or a failed ycheck() reports. The model goes on as the
-- code does where `global_check` does not ask for an exit.
pub data Diag : Type 0 where
  assertion : Diag
  never_allocated : ℕ → Diag
  double_free : ℕ → Diag
  bad_status : ℕ → ℕ → Diag
  not_free : ℕ → ℕ → Diag
  beyond_region : ℕ → Diag
  inside_block : ℕ → Diag
  bad_bin : ℕ → Diag

-- What a function returns, the region after it, and what it reported.
abbrev pub Out : Type 0 → Type 0
Out A = A × Region × List Diag

-- The counters of `struct yal_stats` in the heap that slab.h adds to.
pub record HeapStat : Type 0 where
  pub invalid_frees : ℕ
  pub slabaligns : ℕ → ℕ

abbrev pub OutHeap : Type 0 → Type 0
OutHeap A = A × HeapStat × Region × List Diag
