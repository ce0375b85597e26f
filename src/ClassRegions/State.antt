-- ===== src/ClassRegions/State.antt =====
-- yalloc.c `struct st_heap`, the arrays of slab regions by class. A region is named by its place in the
-- order of creation.
use yalloc.Base.{ℕ, Bool, Option, List}
use yalloc.Slab.Region.{Region, Diag, HeapStat}
use yalloc.Slab.Blocks.{Loc}
use yalloc.Slab.Layout.{NewRegion}

-- `Clasregs`
abbrev pub clasregs_max : ℕ
clasregs_max = 32

pub record ClassHeap : Type 0 where
  pub regs : ℕ → Region
  -- `reg->inuse`
  pub inuse : ℕ → ℕ
  -- the regions that were made
  pub made : ℕ
  -- `clasregs[clas * Clasregs + pos]`
  pub clasregs : ℕ → ℕ → Option ℕ
  pub claspos : ℕ → ℕ
  pub clasmsk : ℕ → ℕ
  pub cfremsk : ℕ → ℕ
  pub clasregcnt : ℕ → ℕ
  pub smalclas : ℕ → Option ℕ
  pub stat : HeapStat
  pub mem : ℕ → ℕ

-- What is asked for: `len` is the aligned `ulen`; `popular` is `clascnt >= threshold`.
pub record Request : Type 0 where
  pub ulen : ℕ
  pub len : ℕ
  pub align : ℕ
  pub loc : Loc
  pub clen : ℕ
  pub popular : Bool

-- The variables of the loop.
pub record Vars : Type 0 where
  pub clas : ℕ
  pub pos : ℕ
  pub alen : ℕ
  pub fremsk : ℕ

-- The block for malloc(0), what newregion() answers, what is kept per cell, and what newregorder()
-- answers.
pub record Maker : Type 0 where
  pub zeroblock : ℕ
  pub newregion : NewRegion
  pub tags : Bool
  pub flns : Bool
  pub order : ℕ

-- The address, the heap after it, and what was reported.
abbrev pub BlockOut : Type 0
BlockOut = Option ℕ × ClassHeap × List Diag
