-- ===== src/Bump/Valid.antt =====
-- A bump region in order: its blocks lie one after the other below `pos`.
use yalloc.Base.{ℕ, ◌+◌, ◌*◌, ◌/◌, ◌%◌, ◌^◌, ◌≤◌, ◌<◌, ◌≡◌, ◌≢◌}
use yalloc.Bump.Region.{BumpRegion}

-- The first cell that was never handed out.
abbrev pub next_cel : BumpRegion → ℕ
next_cel reg = reg.pos / 16

pub record IsBump (reg : BumpRegion) : Type 0 where
  pub whole : reg.len ≡ reg.cnt * 16
  pub small : reg.cnt < 2 ^ 16
  pub used : reg.cnt ≢ 0
  pub within : reg.pos ≤ reg.len
  pub aligned : reg.pos % 16 ≡ 0
  -- the region lies in the address space
  pub space : reg.user + reg.len < 2 ^ 64
  -- what was never handed out has no block
  pub fresh : (c : ℕ) → next_cel reg ≤ c → reg.fres c ≡ 0
  pub states : (c : ℕ) → reg.fres c ≤ 2
  -- a block is not empty and ends below what was never handed out
  pub inside : (c : ℕ) → reg.fres c ≢ 0 → (0 < reg.lens c) × (c + reg.lens c ≤ next_cel reg)
  -- no block starts inside another
  pub apart : (c d : ℕ) → reg.fres c ≢ 0 → reg.fres d ≢ 0 → c < d → c + reg.lens c ≤ d
