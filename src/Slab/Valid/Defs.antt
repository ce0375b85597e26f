-- ===== src/Slab/Valid/Defs.antt =====
use yalloc.Base.{ℕ, ◌+◌, ◌*◌, ◌≤◌, ◌<◌, ◌≡◌, Bool, ◌==◌, Option, none, some}
use yalloc.Slab.Region.{nocel, Region}
use yalloc.Slab.Count.{count}

-- The cell is in use, as far as a client can tell.
abbrev pub live : Region → ℕ → Bool
live reg cel = reg.binset cel == 1

-- The first `n` entries of a list of cells are distinct cells below `inipos` in the state `s`.
pub record IsListOf (s inipos : ℕ) (binset : ℕ → ℕ) (n : ℕ) (list : ℕ → ℕ) : Type 0 where
  pub started : (i : ℕ) → i < n → list i < inipos
  pub status : (i : ℕ) → i < n → binset (list i) ≡ s
  pub distinct : (i j : ℕ) → i < n → j < n → list i ≡ list j → i ≡ j

-- The remote bin, if there is one, holds cells that were freed from elsewhere. Cells in the state 3
-- that it does not hold are still in the buffer of another heap.
abbrev pub IsRemoteBin : Region → Option (ℕ → ℕ) → Type 0
IsRemoteBin reg none = reg.rbinpos ≡ 0
IsRemoteBin reg (some rbin) =
    IsListOf 3 reg.inipos reg.binset reg.rbinpos rbin × (reg.rbinpos < reg.rbinlen)

pub record IsValid (reg : Region) : Type 0 where
  pub small : reg.celcnt < nocel
  pub inipos_le : reg.inipos ≤ reg.celcnt
  -- what was never allocated is in the initial state
  pub fresh : (c : ℕ) → reg.inipos ≤ c → reg.binset c ≡ 0
  -- what was allocated once is in use or free
  pub begun : (c : ℕ) → c < reg.inipos → (1 ≤ reg.binset c) × (reg.binset c ≤ 3)
  pub bin_list : IsListOf 2 reg.inipos reg.binset reg.binpos reg.bin
  pub bin_count : reg.binpos ≡ count 2 reg.celcnt reg.binset
  pub remote_list : IsRemoteBin reg reg.rembin
  pub remote_count : reg.rbinpos ≤ count 3 reg.celcnt reg.binset
  -- the region is referred to while its remote bin holds cells
  pub referred : 0 < reg.rbinpos → 0 < reg.remref
  -- the bin lies inside the metadata
  pub room : reg.meta + (reg.binorg + reg.celcnt) * 4 ≤ reg.metautop
