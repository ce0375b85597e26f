-- ===== src/Boot/Tests.antt =====
-- Runs of the boot allocator.
use yalloc.Base.{ℕ, ◌≡◌, ◌⊎◌, refl, [], ◌∷◌, arith}
use yalloc.Boot.{boot_size, BootMem, out_of_memory, bootalloc}
use yalloc.Boot.Laws.{IsBoot, BootBlock, bootalloc-BootBlock}

abbrev initial : BootMem
initial = record { inimem = 8192; pos = 0; mem = 0; lock = 0; allocs = 0; mmaps = 0; nolocks = 0 }

initial-IsBoot : IsBoot initial
initial-IsBoot = record { based = omega arith; unlocked = refl; within = omega arith; whole = refl }

-- The system maps at 65536.
abbrev at_64k : ℕ → ℕ
at_64k n = 65536

bootalloc-BootBlock_example :
    ((p : ℕ) × (bootp' : BootMem) × (bootalloc at_64k initial 100 ≡ (p, bootp', []))
      × BootBlock at_64k initial 100 p bootp')
    ⊎ ((bootp' : BootMem) × (bootalloc at_64k initial 100 ≡ (0, bootp', out_of_memory ∷ []))
        × IsBoot bootp'
        × (at_64k boot_size ≡ 0))
bootalloc-BootBlock_example =
    bootalloc-BootBlock at_64k initial 100 initial-IsBoot (omega arith) (omega arith)
