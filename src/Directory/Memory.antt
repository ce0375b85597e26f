-- ===== src/Directory/Memory.antt =====
-- region.h `setregion`: with memory for directories, it succeeds.
use yalloc.Base.{
  ℕ, zero, suc, ◌+◌, ◌-◌, ◌*◌, ◌/◌, ◌^◌, ◌≤◌, ◌<◌, Bool, false, Option, none, some, if◌then◌else◌,
  arith, ◌≡◌, ◌≢◌, refl,
}
use yalloc.Directory.Tree.{dir_mem, dir_len, Leaf, Middle, Dirs, newdir, newleafdir, dir_msk}
use yalloc.Directory.Set.{
  get_dir2, get_dir3, put_leaf, put_middle, round_cnt, set_round, set_loop, setregion,
}
use yalloc.Directory.Range.{round_cnt_lem}

-- With memory for directories, a table is always at hand.
get_dir2_ok :
    (osmem : ℕ → Option ℕ) (hb : Dirs) (pos1 : ℕ) (o : Option Middle)
    → ((n : ℕ) → osmem n ≢ none)
    → (get_dir2 osmem hb pos1 o).0 ≢ none
unfolding newdir
get_dir2_ok osmem hb pos1 (some dir2) memory = ground arith
get_dir2_ok osmem hb pos1 none memory = ground (arith, memory (dir_mem * dir_len * 8))

get_dir3_ok :
    (osmem : ℕ → Option ℕ) (hb : Dirs) (pos1 : ℕ) (dir2 : Middle) (pos2 : ℕ) (o : Option Leaf)
    → ((n : ℕ) → osmem n ≢ none)
    → (get_dir3 osmem hb pos1 dir2 pos2 o).0 ≢ none
unfolding newleafdir
get_dir3_ok osmem hb pos1 dir2 pos2 (some dir3) memory = ground arith
get_dir3_ok osmem hb pos1 dir2 pos2 none memory = ground (arith, memory (dir_mem * dir_len * 8))

put_middle_ok :
    (osmem : ℕ → Option ℕ) (xreg : Option ℕ) (org cnt : ℕ) (out : Option Middle × Dirs)
    → ((n : ℕ) → osmem n ≢ none)
    → out.0 ≢ none
    → (put_middle osmem xreg org cnt out).0 ≡ false
put_middle_ok osmem xreg org cnt (none, hb) memory ok = absurd (ok refl)
put_middle_ok osmem xreg org cnt (some dir2, hb) memory ok =
    go _ (get_dir3_ok osmem hb (dir_msk (org / 2 ^ 24)) dir2 (dir_msk (org / 2 ^ 12)) _ memory)
  where
    go :
        (out : Option Leaf × Dirs)
        → out.0 ≢ none
        → (put_leaf xreg hb
            (dir_msk (org / 2 ^ 24))
            dir2
            (dir_msk (org / 2 ^ 12))
            (dir_msk org)
            cnt
            out).0
          ≡ false
    go (none, hb') ok = absurd (ok refl)
    go (some dir3, hb') ok = refl

set_round_ok :
    (osmem : ℕ → Option ℕ) (xreg : Option ℕ) (org end : ℕ) (hb : Dirs)
    → ((n : ℕ) → osmem n ≢ none)
    → (set_round osmem xreg org end hb).0 ≡ false
unfolding set_round
set_round_ok osmem xreg org end hb memory =
    let pos1 = dir_msk (org / 2 ^ 24) in
    put_middle_ok osmem xreg org (round_cnt org end) (get_dir2 osmem hb pos1 (hb.rootdir pos1))
      memory (get_dir2_ok osmem hb pos1 (hb.rootdir pos1) memory)

set_loop_ok :
    (osmem : ℕ → Option ℕ) (xreg : Option ℕ) (left org end : ℕ) (hb : Dirs)
    → ((n : ℕ) → osmem n ≢ none)
    → org < end
    → end - org < left
    → (set_loop osmem xreg left org end hb).0 ≡ false
unfolding set_loop
set_loop_ok osmem xreg zero org end hb memory lt enough = absurd (omega arith)
set_loop_ok osmem xreg (suc left) org end hb memory lt enough =
    let (fits, pos, le) = round_cnt_lem org end lt in
    ground (
      arith,
      set_round_ok osmem xreg org end hb memory,
      set_loop_ok osmem xreg left (org + round_cnt org end) end (set_round osmem xreg org end hb).1
          memory,
    )

-- setregion() succeeds for a block of at least a page that lies in the address space, but not in
-- its first page, when the system has memory for directories: its rounds end.
pub setregion_ok :
    (osmem : ℕ → Option ℕ) (hb : Dirs) (reg bas len : ℕ) (add : Bool)
    → ((n : ℕ) → osmem n ≢ none)
    → 2 ^ 12 ≤ len
    → 2 ^ 12 ≤ bas
    → bas < 2 ^ 48
    → (setregion osmem hb reg bas len add).0 ≡ false
unfolding setregion
setregion_ok osmem hb reg bas len add memory long above inside = ground (
  arith,
  set_loop_ok osmem (if add then some reg else none) ((bas + len) / 2 ^ 12 - bas / 2 ^ 12 + 1)
      (bas / 2 ^ 12) ((bas + len) / 2 ^ 12) hb memory (omega arith) (omega arith),
)
