-- ===== src/Directory/Set.antt =====
-- region.h `setregion`: the pages of a region lead to it, or to nil. setgregion() writes the same
-- pages of the global directory and is not part of it here.
use yalloc.Base.{
  ℕ, zero, suc, ◌+◌, ◌-◌, ◌/◌, ◌^◌, min, Bool, true, false, ◌||◌, Option, none, some, ltb, leb,
  if◌then◌else◌, update,
}
use yalloc.Directory.Tree.{page, dir_len, Leaf, Middle, Dirs, empty, newdir, newleafdir, dir_msk}

-- `while (pos3 < posend) dir3[pos3++] = xreg;`
unfoldable pub fill : ℕ → ℕ → Option ℕ → Leaf → Leaf
fill zero pos3 xreg dir3 = dir3
fill (suc left) pos3 xreg dir3 = fill left (pos3 + 1) xreg (update dir3 pos3 xreg)

-- `dir2 = dir1[pos1]`, and a new one if that is nil
abbrev pub get_dir2 : (ℕ → Option ℕ) → Dirs → ℕ → Option Middle → Option Middle × Dirs
get_dir2 osmem hb pos1 (some dir2) = (some dir2, hb)
get_dir2 osmem hb pos1 none =
    let (dp, hb') = newdir osmem hb in
    elim dp [
      | none ↦ (none, hb')
      | some _ ↦ (some empty, record hb' { rootdir = update hb'.rootdir pos1 (some empty) })
    ]

-- `dir3 = dir2[pos2]`, and a new one if that is nil
abbrev pub get_dir3 : (ℕ → Option ℕ) → Dirs → ℕ → Middle → ℕ → Option Leaf → Option Leaf × Dirs
get_dir3 osmem hb pos1 dir2 pos2 (some dir3) = (some dir3, hb)
get_dir3 osmem hb pos1 dir2 pos2 none =
    let (dp, hb') = newleafdir osmem hb in
    elim dp [
      | none ↦ (none, hb')
      | some _ ↦ (
        some empty,
        record hb' { rootdir = update hb'.rootdir pos1 (some (update dir2 pos2 (some empty))) },
      )
    ]

-- The end of a round: write the leaf, where it stands.
abbrev pub put_leaf : Option ℕ → Dirs → ℕ → Middle → ℕ → ℕ → ℕ → Option Leaf × Dirs → Bool × Dirs
put_leaf xreg hb pos1 dir2 pos2 pos3 cnt (none, hb') = (true, hb')
put_leaf xreg hb pos1 dir2 pos2 pos3 cnt (some dir3, hb') = (
  false,
  record hb' {
    rootdir = update hb'.rootdir pos1 (some (update dir2 pos2 (some (fill cnt pos3 xreg dir3))));
  },
)

abbrev pub put_middle : (ℕ → Option ℕ) → Option ℕ → ℕ → ℕ → Option Middle × Dirs → Bool × Dirs
put_middle osmem xreg org cnt (none, hb) = (true, hb)
put_middle osmem xreg org cnt (some dir2, hb) =
    let pos1 = dir_msk (org / 2 ^ 24) in
    let pos2 = dir_msk (org / 2 ^ 12) in
    put_leaf xreg hb pos1 dir2 pos2 (dir_msk org) cnt (get_dir3 osmem hb pos1 dir2 pos2 (dir2 pos2))

-- How many pages a round covers: up to the end of the leaf directory.
abbrev pub round_cnt : ℕ → ℕ → ℕ
round_cnt org end = min (end - org + dir_msk org) dir_len - dir_msk org

-- One round of the loop: true on an error.
unfoldable pub set_round : (ℕ → Option ℕ) → Option ℕ → ℕ → ℕ → Dirs → Bool × Dirs
set_round osmem xreg org end hb =
    let pos1 = dir_msk (org / 2 ^ 24) in
    put_middle osmem xreg org (round_cnt org end) (get_dir2 osmem hb pos1 (hb.rootdir pos1))

-- `do ... while (org < end)`, with the number of rounds left
unfoldable pub set_loop : (ℕ → Option ℕ) → Option ℕ → ℕ → ℕ → ℕ → Dirs → Bool × Dirs
set_loop osmem xreg zero org end hb = (true, hb)
set_loop osmem xreg (suc left) org end hb =
    let (failed, hb') = set_round osmem xreg org end hb in
    let org' = org + round_cnt org end in
    let rest = set_loop osmem xreg left org' end hb' in
    if failed then (true, hb') else if ltb org' end then rest else (false, hb')

-- `reg` is entered if `add`, and removed otherwise. The checks on the type and the heap of the region
-- are the caller's here. Each round covers at least one page.
unfoldable pub setregion : (ℕ → Option ℕ) → Dirs → ℕ → ℕ → ℕ → Bool → Bool × Dirs
setregion osmem hb reg bas len add =
    let org = bas / 2 ^ page in
    let end = (bas + len) / 2 ^ page in
    if ltb len (2 ^ page) || ltb bas (2 ^ page) || leb (2 ^ 48) bas
    then (true, hb)
    else set_loop osmem (if add then some reg else none) (end - org + 1) org end hb
