-- ===== src/Bump/Region.antt =====
-- bump.h `newbump`; yalloc.c `struct st_bregion`. The metadata is its arrays, one entry to a cell of
-- 16 bytes: the length of the block that starts there, and the state of the cell.
use yalloc.Base.{
  ℕ, ◌+◌, ◌-◌, ◌*◌, ◌/◌, ◌%◌, ◌^◌, min, Bool, true, false, Option, none, some, List, [], ◌∷◌, ltb,
  if◌then◌else◌,
}
use yalloc.Word.{ub4_mod, doalign4}

abbrev pub stdalign : ℕ
stdalign = 16

abbrev pub pagesize : ℕ
pagesize = 4096

abbrev pub bumplen : ℕ
bumplen = 16384

-- `Bumpregions`
abbrev pub bump_regions : ℕ
bump_regions = 4

pub record BumpRegion : Type 0 where
  pub user : ℕ
  pub len : ℕ
  pub hid : ℕ
  pub id : ℕ
  pub uid : ℕ
  pub pos : ℕ
  pub cnt : ℕ
  pub freorg : ℕ
  pub allocs : ℕ
  pub frees : ℕ
  -- `Rmini`, and not `Rbump`
  pub is_mini : Bool
  pub lens : ℕ → ℕ
  -- per cell: 0 no block, 1 allocated, 2 freed
  pub fres : ℕ → ℕ

pub data BumpDiag : Type 0 where
  assertion : BumpDiag
  not_free : ℕ → BumpDiag
  invalid_ptr : ℕ → BumpDiag
  above_cnt : ℕ → BumpDiag
  already_freed : ℕ → BumpDiag
  bad_status : ℕ → ℕ → BumpDiag
  never_allocated : ℕ → BumpDiag

abbrev pub BumpOut : Type 0 → Type 0
BumpOut A = A × BumpRegion × List BumpDiag

-- The length of the region at position `regpos`.
abbrev pub bump_len : ℕ → ℕ → ℕ
bump_len len regpos = min (doalign4 (len * (regpos + 1) % ub4_mod) pagesize) (65536 * stdalign)

-- With the memory for the blocks and for the metadata. `hid << 32 | (regpos + 1)` is a sum of its
-- halves.
abbrev pub bump_made : ℕ → BumpRegion → ℕ → ℕ → Bool → Option ℕ → Option ℕ → BumpOut Bool
bump_made hid reg len regpos is_mini none meta = (true, reg, [])
bump_made hid reg len regpos is_mini (some base) none = (true, reg, [])
bump_made hid reg len regpos is_mini (some base) (some org) = (
  false,
  record reg {
    uid = hid * 2 ^ 32 + (regpos + 1);
    hid = hid;
    id = regpos + 1;
    user = base;
    cnt = len / stdalign;
    freorg = len / stdalign / 2;
    len = len;
    is_mini = is_mini;
    lens = λ cel. 0;
    fres = λ cel. 0;
  },
  [],
)

-- A new region; true on an error. What osmem() and bootalloc() answer is an argument. The tags are
-- left out of the metadata, as with `Yal_enable_tag` 0.
unfoldable pub newbump : ℕ → BumpRegion → ℕ → ℕ → Bool → Option ℕ → Option ℕ → BumpOut Bool
newbump hid reg len regpos is_mini user meta =
    let len' = bump_len len regpos in
    if ltb len' pagesize
    then (true, reg, assertion ∷ [])
    else if ltb (2 ^ 16 - 1) (len' / stdalign)
    then (true, reg, assertion ∷ [])
    else bump_made hid reg len' regpos is_mini user meta
