-- ===== src/Directory/Tree.antt =====
-- region.h `newleafdir`, `newdir`; yalloc.c `struct st_heap`, the fields of the directory. A table
-- that was handed out is a function from positions; a new one is all nil, as the memory that
-- osmem() maps. Regions are named by numbers. What osmem() answers is an argument: an address by
-- the length asked for, or none.
use yalloc.Base.{ℕ, ◌+◌, ◌-◌, ◌*◌, ◌^◌, bit_and, Option, none, some, ltb, if◌then◌else◌}
use yalloc.Word.{add4}

-- `Page`, as ./configure finds it on 64-bit systems
abbrev pub page : ℕ
page = 12

abbrev pub dir_len : ℕ
dir_len = 2 ^ 12

-- The number of directories that are mapped together, `Dirmem`.
abbrev pub dir_mem : ℕ
dir_mem = 16

abbrev pub Leaf : Type 0
Leaf = ℕ → Option ℕ

abbrev pub Middle : Type 0
Middle = ℕ → Option Leaf

pub record Dirs : Type 0 where
  pub rootdir : ℕ → Option Middle
  -- addresses and sizes of the memory that directories are cut from
  pub dirmem : ℕ
  pub dirmem_pos : ℕ
  pub dirmem_top : ℕ
  pub leafdirmem : ℕ
  pub ldirmem_pos : ℕ
  pub ldirmem_top : ℕ
  pub mmaps : ℕ

abbrev pub empty {ℓ} : {A : Type ℓ} → ℕ → Option A
empty i = none

-- Hand out a leaf directory: its address, or none.
unfoldable pub newleafdir : (ℕ → Option ℕ) → Dirs → Option ℕ × Dirs
newleafdir osmem hb =
    let len = dir_mem * dir_len in
    if ltb hb.ldirmem_top (add4 hb.ldirmem_pos dir_len)
    then elim (osmem (len * 8)) [
      | none ↦ (none, hb)
      | some dp ↦ (some dp, record hb { leafdirmem = dp; ldirmem_top = len; ldirmem_pos = dir_len })
    ]
    else (
      some (hb.leafdirmem + hb.ldirmem_pos * 8),
      record hb { ldirmem_pos = add4 hb.ldirmem_pos dir_len },
    )

-- Hand out an intermediate directory.
unfoldable pub newdir : (ℕ → Option ℕ) → Dirs → Option ℕ × Dirs
newdir osmem hb =
    let len = dir_mem * dir_len in
    if ltb hb.dirmem_top (add4 hb.dirmem_pos dir_len)
    then elim (osmem (len * 8)) [
      | none ↦ (none, hb)
      | some dp ↦ (
        some dp,
        record hb { dirmem = dp; dirmem_top = len; dirmem_pos = dir_len; mmaps = hb.mmaps + 1 },
      )
    ]
    else (
      some (hb.dirmem + hb.dirmem_pos * 8),
      record hb { dirmem_pos = add4 hb.dirmem_pos dir_len },
    )

-- `x & Dir1msk`; the three masks are the same
abbrev pub dir_msk : ℕ → ℕ
dir_msk x = bit_and x (dir_len - 1)
