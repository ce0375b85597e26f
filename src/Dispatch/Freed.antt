-- ===== src/Dispatch/Freed.antt =====
-- free.h `free_heap`: the search for the region, on all paths.
use yalloc.Base.{ℕ, Option, none, some, [], ◌≡◌, ◌≢◌, ◌⊎◌}
use yalloc.Slab.Region.{Region}
use yalloc.Dispatch.State.{Place, Heaps, Env, HeapOut}
use yalloc.Dispatch.Parts.{Took, SameBlocks}

-- A block is taken back that was in use. Or nothing is: for the address of the block for malloc(0), and
-- for a cell of the own heap that only the global directory leads to. No length: an error is reported.
abbrev pub FreedOut : Env → Heaps → ℕ → HeapOut (Option ℕ) → Type 0
FreedOut env st ip (none, st', log) = (log ≢ []) ⊎ (env.heap_new ≡ none)
FreedOut env st ip (some len, st', log) =
    ((at : Place) × Took st st' at ip len)
    ⊎ (((ip ≡ env.zeroblock) ⊎ SameBlocks st st') × (len ≡ 0))
