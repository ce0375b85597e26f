-- ===== src/Directory/Find.antt =====
-- region.h `findregion`: from an address to its region.
use yalloc.Base.{ℕ, ◌+◌, ◌/◌, ◌^◌, Option, none, some, List, [], ◌∷◌, ltb, if◌then◌else◌}
use yalloc.Directory.Tree.{page, Leaf, Middle, Dirs, dir_msk}

-- What the check at the end reports.
pub data FindDiag : Type 0 where
  below_base : ℕ → FindDiag
  above_end : ℕ → FindDiag

abbrev pub find_leaf : ℕ → Option Leaf → Option ℕ
find_leaf pos3 none = none
find_leaf pos3 (some dir3) = dir3 pos3

abbrev pub find_middle : ℕ → ℕ → Option Middle → Option ℕ
find_middle pos2 pos3 none = none
find_middle pos2 pos3 (some dir2) = find_leaf pos3 (dir2 pos2)

-- The three tables.
unfoldable pub find_reg : Dirs → ℕ → Option ℕ
find_reg hb ip =
    find_middle (dir_msk (ip / 2 ^ 24)) (dir_msk (ip / 2 ^ page))
      (hb.rootdir (dir_msk (ip / 2 ^ 36)))

-- The region of an address, with the check against the block of the region, whose base and length
-- `user` and `len` give.
unfoldable pub findregion : (ℕ → ℕ) → (ℕ → ℕ) → Dirs → ℕ → Option ℕ × List FindDiag
unfolding find_reg
findregion user len hb ip = elim (find_reg hb ip) [
  | none ↦ (none, [])
  | some reg ↦
      if ltb ip (user reg)
      then (none, below_base reg ∷ [])
      else if ltb (user reg + len reg) ip
      then (none, above_end reg ∷ [])
      else (some reg, [])
]
