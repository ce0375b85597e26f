-- ===== src/ClassRegions/Valid.antt =====
-- The slab regions of a heap in order.
use yalloc.Base.{◌<◌, ◌^◌, ℕ, ◌<◌, true, false, Option, none, some, ◌==◌, if◌then◌else◌, ◌≡◌}
use yalloc.Slab.Region.{Region}
use yalloc.Slab.Address.{cel_ip}
use yalloc.Slab.Valid.{IsValid, live}
use yalloc.ClassRegions.State.{ClassHeap}

-- A region that cells are taken from.
pub record IsOpen (reg : Region) : Type 0 where
  pub valid : IsValid reg
  pub young : reg.aged ≡ 0
  pub short : reg.cellen < 2 ^ 32

-- The regions that were made are open, and only those are entered in a class.
pub record IsOrdered (hb : ClassHeap) : Type 0 where
  pub opened : (i : ℕ) → i < hb.made → IsOpen (hb.regs i)
  pub entered : (clas pos i : ℕ) → hb.clasregs clas pos ≡ some i → i < hb.made

-- The same cells are in use.
abbrev pub IsSame : Region → Region → Type 0
IsSame reg reg' = (c : ℕ) → live reg' c ≡ live reg c

-- A cell that was free is in use, no other one changes, and its address is `p`.
pub record IsBlock (reg reg' : Region) (p : ℕ) : Type 0 where
  pub cel : ℕ
  pub at_cel : p ≡ cel_ip reg' cel
  pub inside : cel < reg'.celcnt
  pub of_cellen : reg'.cellen ≡ reg.cellen
  pub free : live reg cel ≡ false
  pub marks : (c : ℕ) → live reg' c ≡ (if cel == c then true else live reg c)

-- What slab_alloc() makes of a region.
abbrev pub SlabOut : Region → Option ℕ → Region → Type 0
SlabOut reg none reg' = IsOpen reg' × IsSame reg reg'
SlabOut reg (some p) reg' = IsOpen reg' × IsBlock reg reg' p
