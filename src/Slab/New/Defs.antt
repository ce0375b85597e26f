-- ===== src/Slab/New/Defs.antt =====
-- What slab_newcel() promises.
use yalloc.Base.{
  ℕ, ◌+◌, ◌<◌, ◌≡◌, ◌≢◌, ◌⊎◌, true, false, Option, none, some, [], ◌==◌, if◌then◌else◌,
}
use yalloc.Slab.Region.{Region, Out}
use yalloc.Slab.Valid.{live, IsValid}

-- The fields that no allocation changes.
pub record SameShape (reg reg' : Region) : Type 0 where
  pub user : reg'.user ≡ reg.user
  pub cellen : reg'.cellen ≡ reg.cellen
  pub celcnt : reg'.celcnt ≡ reg.celcnt
  pub celord : reg'.celord ≡ reg.celord
  pub clr : reg'.clr ≡ reg.clr
  pub aged : reg'.aged ≡ reg.aged
  pub lens : reg'.lens ≡ reg.lens

-- `cel` went from not in use to in use, and the region is in order.
pub record Alloced (reg : Region) (cel : ℕ) (reg' : Region) : Type 0 where
  pub inside : cel < reg.celcnt
  pub free : live reg cel ≡ false
  pub valid : IsValid reg'
  pub marks : (c : ℕ) → live reg' c ≡ (if cel == c then true else live reg c)
  pub shape : SameShape reg reg'
  -- where `inipos` moved, the cell is the one that it moved over
  pub ini : (reg'.inipos ≡ reg.inipos) ⊎ ((cel ≡ reg.inipos) × (reg'.inipos ≡ reg.inipos + 1))

-- No cell is at hand: the bin is empty, every cell was handed out once, and the remote bin is empty
-- or cannot be looked at.
pub record IsFull (reg : Region) : Type 0 where
  pub bin : reg.binpos ≡ 0
  pub ini : reg.inipos ≡ reg.celcnt
  pub remote : (reg.lock ≢ 0) ⊎ (reg.rbinpos ≡ 0)

abbrev pub Outcome : Region → Out (Option ℕ) → Type 0
Outcome reg (some cel, reg', log) = Alloced reg cel reg' × (log ≡ [])
Outcome reg (none, reg', log) = IsFull reg × (reg' ≡ reg) × (log ≡ [])
