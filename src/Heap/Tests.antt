-- ===== src/Heap/Tests.antt =====
-- Runs of the pool for remote bins.
use yalloc.Base.{ℕ, refl, arith}
use yalloc.Heap.Pool.{RbinPool, getrbinmem, IsPool, RbinBlock, getrbinmem-RbinBlock}

-- As heap_new() makes it.
abbrev no_pool : RbinPool
no_pool = record { rbinmem = 0; rbmempos = 0; rbmemlen = 0; rmeminc = 16384; rbinallocs = 0 }

no_pool-IsPool : IsPool no_pool
no_pool-IsPool = record {
  within = omega arith;
  small = omega arith;
  step = omega arith;
  mapped = λ h. absurd (h refl);
  whole = refl;
}

-- a system that maps all at one address
abbrev at_page : ℕ → ℕ
at_page len = 65536

getrbinmem-RbinBlock_example :
    RbinBlock at_page no_pool 20 (getrbinmem at_page no_pool 20).0 (getrbinmem at_page no_pool 20).1
getrbinmem-RbinBlock_example =
    getrbinmem-RbinBlock at_page (λ len e. absurd (omega (arith, e))) no_pool no_pool-IsPool 20
      (omega arith) (omega arith)
