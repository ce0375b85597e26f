-- ===== src/Directory/Pages.antt =====
-- The directory as a map from pages to regions.
use yalloc.Base.{
  ℕ, zero, suc, ◌+◌, ◌/◌, ◌%◌, ◌^◌, Bool, true, false, ◌&&◌, Option, none, some, ltb, leb, ◌==◌,
  if◌then◌else◌, update, arith, ◌≡◌, refl, sym,
}
use yalloc.Word.Masks.{bit_and_low}
use yalloc.Directory.Tree.{Leaf, Middle, Dirs, empty, newdir, newleafdir, dir_msk}
use yalloc.Directory.Set.{fill, get_dir2, get_dir3, put_leaf, put_middle, round_cnt, set_round}
use yalloc.Directory.Find.{find_reg, find_middle, find_leaf}

abbrev pub Root : Type 0
Root = ℕ → Option Middle

-- The entry at three positions.
abbrev pub look : Root → ℕ → ℕ → ℕ → Option ℕ
look root p1 p2 p3 = find_middle p2 p3 (root p1)

-- The region of a page.
unfoldable pub at_page : Dirs → ℕ → Option ℕ
at_page hb q = look hb.rootdir (q / 2 ^ 24 % 2 ^ 12) (q / 2 ^ 12 % 2 ^ 12) (q % 2 ^ 12)

pub dir_msk_lem : (x : ℕ) → dir_msk x ≡ x % 2 ^ 12
dir_msk_lem x = bit_and_low 12 x

-- An address leads to the region of its page.
pub find_reg_lem : (hb : Dirs) (ip : ℕ) → find_reg hb ip ≡ at_page hb (ip / 2 ^ 12)
unfolding find_reg at_page
find_reg_lem hb ip =
    let low : ip / 2 ^ 12 / 2 ^ 12 ≡ ip / 2 ^ 24 = omega arith in
    let high : ip / 2 ^ 12 / 2 ^ 24 ≡ ip / 2 ^ 36 = omega arith in
    rw (dir_msk_lem (ip / 2 ^ 24), dir_msk_lem (ip / 2 ^ 12), dir_msk_lem (ip / 2 ^ 36), low, high)
      refl

pub fill_lem :
    (left pos3 : ℕ) (xreg : Option ℕ) (dir3 : Leaf) (p : ℕ)
    → fill left pos3 xreg dir3 p ≡ (if leb pos3 p && ltb p (pos3 + left) then xreg else dir3 p)
unfolding fill
fill_lem zero pos3 xreg dir3 p = ground arith
fill_lem (suc left) pos3 xreg dir3 p =
    ground (arith, fill_lem left (pos3 + 1) xreg (update dir3 pos3 xreg) p)

abbrev pub Same : Root → Root → Type 0
Same root root' = (p1 p2 p3 : ℕ) → look root' p1 p2 p3 ≡ look root p1 p2 p3

-- What get_dir2 promises, of the tree `root`.
abbrev Opened2 : Root → ℕ → Option Middle × Dirs → Type 0
Opened2 root pos1 (none, hb) = Same root hb.rootdir
Opened2 root pos1 (some dir2, hb) =
    Same root hb.rootdir × ((p2 p3 : ℕ) → find_middle p2 p3 (some dir2) ≡ look root pos1 p2 p3)

-- What get_dir3 promises.
abbrev Opened3 : Root → ℕ → Middle → ℕ → Option Leaf × Dirs → Type 0
Opened3 root pos1 dir2 pos2 (none, hb) = Same root hb.rootdir
Opened3 root pos1 dir2 pos2 (some dir3, hb) =
    Same root hb.rootdir × ((p3 : ℕ) → find_leaf p3 (some dir3) ≡ look root pos1 pos2 p3)

-- The entries after a round, or as before after an error.
abbrev pub Written : Root → ℕ → ℕ → ℕ → ℕ → Option ℕ → Bool × Dirs → Type 0
Written root pos1 pos2 pos3 cnt xreg (true, hb) = Same root hb.rootdir
Written root pos1 pos2 pos3 cnt xreg (false, hb) =
    (p1 p2 p3 : ℕ)
    → look hb.rootdir p1 p2 p3 ≡ (
        if p1 == pos1 && (p2 == pos2 && (leb pos3 p3 && ltb p3 (pos3 + cnt)))
        then xreg
        else look root p1 p2 p3)

newdir-Opened2 :
    (root : Root) (pos1 : ℕ) (out : Option ℕ × Dirs)
    → ((p2 p3 : ℕ) → look root pos1 p2 p3 ≡ none)
    → Same root out.1.rootdir
    → Opened2 root pos1 (elim (out.0) [
      | none ↦ (none, out.1)
      | some _ ↦ (some empty, record (out.1) { rootdir = update out.1.rootdir pos1 (some empty) })
    ])
newdir-Opened2 root pos1 (none, hb) nil same = same
newdir-Opened2 root pos1 (some dp, hb) nil same =
    (λ p1 p2 p3. ground (arith, same p1 p2 p3, nil p2 p3), λ p2 p3. sym (nil p2 p3))

newdir_root : (osmem : ℕ → Option ℕ) (hb : Dirs) → (newdir osmem hb).1.rootdir ≡ hb.rootdir
unfolding newdir
newdir_root osmem hb = ground arith

newleafdir_root : (osmem : ℕ → Option ℕ) (hb : Dirs) → (newleafdir osmem hb).1.rootdir ≡ hb.rootdir
unfolding newleafdir
newleafdir_root osmem hb = ground arith

get_dir2-Opened2 :
    (osmem : ℕ → Option ℕ) (hb : Dirs) (pos1 : ℕ) (o : Option Middle)
    → hb.rootdir pos1 ≡ o
    → Opened2 hb.rootdir pos1 (get_dir2 osmem hb pos1 o)
get_dir2-Opened2 osmem hb pos1 (some dir2) e = (λ p1 p2 p3. refl, λ p2 p3. rw e refl)
get_dir2-Opened2 osmem hb pos1 none e =
    newdir-Opened2 hb.rootdir pos1 (newdir osmem hb) (λ p2 p3. rw e refl)
      (λ p1 p2 p3. rw (newdir_root osmem hb) refl)

newleafdir-Opened3 :
    (root : Root) (pos1 : ℕ) (dir2 : Middle) (pos2 : ℕ) (out : Option ℕ × Dirs)
    → ((p2 p3 : ℕ) → find_middle p2 p3 (some dir2) ≡ look root pos1 p2 p3)
    → dir2 pos2 ≡ none
    → Same root out.1.rootdir
    → Opened3 root pos1 dir2 pos2 (elim (out.0) [
      | none ↦ (none, out.1)
      | some _ ↦ (
        some empty,
        record (out.1) {
          rootdir = update out.1.rootdir pos1 (some (update dir2 pos2 (some empty)));
        },
      )
    ])
newleafdir-Opened3 root pos1 dir2 pos2 (none, hb) known nil same = same
newleafdir-Opened3 root pos1 dir2 pos2 (some dp, hb) known nil same =
    let there : (p3 : ℕ) → none ≡ look root pos1 pos2 p3 = λ p3. rw (← known pos2 p3, nil) refl in
    (λ p1 p2 p3. ground (arith, same p1 p2 p3, there p3, known p2 p3), there)

get_dir3-Opened3 :
    (osmem : ℕ → Option ℕ) (root : Root) (hb : Dirs) (pos1 : ℕ) (dir2 : Middle) (pos2 : ℕ)
    → (o : Option Leaf) → dir2 pos2 ≡ o
    → Same root hb.rootdir
    → ((p2 p3 : ℕ) → find_middle p2 p3 (some dir2) ≡ look root pos1 p2 p3)
    → Opened3 root pos1 dir2 pos2 (get_dir3 osmem hb pos1 dir2 pos2 o)
get_dir3-Opened3 osmem root hb pos1 dir2 pos2 (some dir3) e same known =
    (same, λ p3. rw (← known pos2 p3, e) refl)
get_dir3-Opened3 osmem root hb pos1 dir2 pos2 none e same known =
    newleafdir-Opened3 root pos1 dir2 pos2 (newleafdir osmem hb) known e
      (λ p1 p2 p3. rw (newleafdir_root osmem hb) (same p1 p2 p3))

put_leaf-Written :
    (xreg : Option ℕ) (root : Root) (hb : Dirs) (pos1 : ℕ) (dir2 : Middle) (pos2 pos3 cnt : ℕ)
    → (out : Option Leaf × Dirs)
    → ((p2 p3 : ℕ) → find_middle p2 p3 (some dir2) ≡ look root pos1 p2 p3)
    → Opened3 root pos1 dir2 pos2 out
    → Written root pos1 pos2 pos3 cnt xreg (put_leaf xreg hb pos1 dir2 pos2 pos3 cnt out)
put_leaf-Written xreg root hb pos1 dir2 pos2 pos3 cnt (none, hb') known same = same
put_leaf-Written xreg root hb pos1 dir2 pos2 pos3 cnt (some dir3, hb') known (same, leaf) =
    λ p1 p2 p3. ground (arith, same p1 p2 p3, leaf p3, known p2 p3, fill_lem cnt pos3 xreg dir3 p3)

put_middle-Written :
    (osmem : ℕ → Option ℕ) (xreg : Option ℕ) (root : Root) (org cnt : ℕ)
    → (out : Option Middle × Dirs) → Opened2 root (dir_msk (org / 2 ^ 24)) out
    → Written root
        (dir_msk (org / 2 ^ 24))
        (dir_msk (org / 2 ^ 12))
        (dir_msk org)
        cnt
        xreg
        (put_middle osmem xreg org cnt out)
put_middle-Written osmem xreg root org cnt (none, hb) same = same
put_middle-Written osmem xreg root org cnt (some dir2, hb) (same, known) =
    put_leaf-Written xreg root hb (dir_msk (org / 2 ^ 24)) dir2 (dir_msk (org / 2 ^ 12))
      (dir_msk org) cnt _ known
      (get_dir3-Opened3 osmem root hb (dir_msk (org / 2 ^ 24)) dir2 (dir_msk (org / 2 ^ 12)) _ refl
        same known)

pub set_round-Written :
    (osmem : ℕ → Option ℕ) (xreg : Option ℕ) (org end : ℕ) (hb : Dirs)
    → Written hb.rootdir
        (dir_msk (org / 2 ^ 24))
        (dir_msk (org / 2 ^ 12))
        (dir_msk org)
        (round_cnt org end)
        xreg
        (set_round osmem xreg org end hb)
unfolding set_round
set_round-Written osmem xreg org end hb =
    put_middle-Written osmem xreg hb.rootdir org (round_cnt org end) _
      (get_dir2-Opened2 osmem hb (dir_msk (org / 2 ^ 24)) _ refl)
