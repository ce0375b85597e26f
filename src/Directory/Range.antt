-- ===== src/Directory/Range.antt =====
-- region.h `setregion`, `findregion`: a range of pages in the directory.
use native.Mathlib.Decide.{dec_lt}
use yalloc.Base.{
  ℕ, zero, suc, ◌+◌, ◌-◌, ◌/◌, ◌%◌, ◌^◌, ◌≤◌, ◌<◌, Bool, true, false, ◌&&◌, ◌||◌, Option, none,
  some, ltb, leb, ◌==◌, if◌then◌else◌, arith, ◌≡◌, refl,
}
use yalloc.Directory.Tree.{page, Dirs, dir_msk}
use yalloc.Directory.Set.{round_cnt, set_round, set_loop, setregion}
use yalloc.Directory.Pages.{at_page, dir_msk_lem, Written, set_round-Written}

-- Whether a page is in `[org, end)`.
abbrev pub in_pages : ℕ → ℕ → ℕ → Bool
in_pages org end q = leb org q && ltb q end

-- The pages after a round or a loop that goes to `end`.
abbrev pub PagesSet : Dirs → ℕ → ℕ → Option ℕ → Bool × Dirs → Type 0
PagesSet hb org end xreg (failed, hb') =
    failed ≡ false
    → (q : ℕ) → q < 2 ^ 36
    → at_page hb' q ≡ (if in_pages org end q then xreg else at_page hb q)

-- The three positions tell the pages of a leaf directory apart.
same_entry :
    (org cnt q : ℕ)
    → org < 2 ^ 36
    → q < 2 ^ 36
    → org % 2 ^ 12 + cnt ≤ 2 ^ 12
    → (q / 2 ^ 24 % 2 ^ 12 == org / 2 ^ 24 % 2 ^ 12
        && (q / 2 ^ 12 % 2 ^ 12 == org / 2 ^ 12 % 2 ^ 12
            && (leb (org % 2 ^ 12) (q % 2 ^ 12) && ltb (q % 2 ^ 12) (org % 2 ^ 12 + cnt))))
      ≡ in_pages org (org + cnt) q
same_entry org cnt q small small' fits = ground arith

pub round_cnt_lem :
    (org end : ℕ)
    → org < end
    → (dir_msk org + round_cnt org end ≤ 2 ^ 12)
      × (0 < round_cnt org end)
      × (org + round_cnt org end ≤ end)
round_cnt_lem org end lt = rw (dir_msk_lem org) (omega arith, omega arith, omega arith)

round-PagesSet :
    (hb : Dirs) (org cnt : ℕ) (xreg : Option ℕ) (out : Bool × Dirs)
    → org < 2 ^ 36
    → dir_msk org + cnt ≤ 2 ^ 12
    → Written hb.rootdir
        (dir_msk (org / 2 ^ 24))
        (dir_msk (org / 2 ^ 12))
        (dir_msk org)
        cnt
        xreg
        out
    → PagesSet hb org (org + cnt) xreg out
unfolding at_page
round-PagesSet hb org cnt xreg (true, hb') small fits w ok q lt = absurd (ground (arith, ok))
round-PagesSet hb org cnt xreg (false, hb') small fits w ok q lt =
    let here = w (q / 2 ^ 24 % 2 ^ 12) (q / 2 ^ 12 % 2 ^ 12) (q % 2 ^ 12) in
    let same = same_entry org cnt q small lt (omega (arith, fits, dir_msk_lem org)) in
    rw (← same, ← dir_msk_lem (org / 2 ^ 24), ← dir_msk_lem (org / 2 ^ 12), ← dir_msk_lem org) here

-- A round and the rest of the loop, if there is one.
join-PagesSet :
    (hb hb' : Dirs) (org mid end : ℕ) (xreg : Option ℕ) (rest : Bool × Dirs)
    → org < mid
    → mid ≤ end
    → PagesSet hb org mid xreg (false, hb')
    → (mid < end → PagesSet hb' mid end xreg rest)
    → PagesSet hb org end xreg (if ltb mid end then rest else (false, hb'))
join-PagesSet hb hb' org mid end xreg rest lt le here after = elim (dec_lt mid end) [
  | yes more ↦
      let e : ltb mid end ≡ true = ground arith in
      rw e (λ ok q hq. ground (arith, here refl q hq, after more ok q hq))
  | no done ↦
      let e : ltb mid end ≡ false = ground arith in
      let last : mid ≡ end = omega arith in rw (e, ← last) here
]

set_loop-PagesSet :
    (osmem : ℕ → Option ℕ) (xreg : Option ℕ) (left org end : ℕ) (hb : Dirs)
    → org < end
    → end ≤ 2 ^ 36
    → PagesSet hb org end xreg (set_loop osmem xreg left org end hb)
unfolding set_loop
set_loop-PagesSet osmem xreg zero org end hb lt small = λ ok. absurd (ground (arith, ok))
set_loop-PagesSet osmem xreg (suc left) org end hb lt small =
    let (fits, pos, le) = round_cnt_lem org end lt in
    go (set_round osmem xreg org end hb)
      (round-PagesSet hb org (round_cnt org end) xreg _ (omega arith) fits
        (set_round-Written osmem xreg org end hb))
      pos le
      (λ hb' more. set_loop-PagesSet osmem xreg left (org + round_cnt org end) end hb' more small)
  where
    go :
        (out : Bool × Dirs)
        → PagesSet hb org (org + round_cnt org end) xreg out
        → 0 < round_cnt org end
        → org + round_cnt org end ≤ end
        → ((hb' : Dirs)
            → org + round_cnt org end < end
            → PagesSet hb'
                (org + round_cnt org end)
                end
                xreg
                (set_loop osmem xreg left (org + round_cnt org end) end hb'))
        → PagesSet hb org end xreg (
            if out.0
            then (true, out.1)
            else if ltb (org + round_cnt org end) end
            then set_loop osmem xreg left (org + round_cnt org end) end out.1
            else (false, out.1))
    go (true, hb') set pos le rec = λ ok. absurd (ground (arith, ok))
    go (false, hb') set pos le rec =
        join-PagesSet hb hb' org (org + round_cnt org end) end xreg _ (omega arith) le set (rec hb')

guarded :
    (hb : Dirs) (org end : ℕ) (xreg : Option ℕ) (refused : Bool) (out : Bool × Dirs)
    → (refused ≡ false → PagesSet hb org end xreg out)
    → PagesSet hb org end xreg (if refused then (true, hb) else out)
guarded hb org end xreg true out f = λ ok. absurd (ground (arith, ok))
guarded hb org end xreg false out f = f refl

setregion-PagesSet :
    (osmem : ℕ → Option ℕ) (hb : Dirs) (reg bas len : ℕ) (add : Bool)
    → bas + len ≤ 2 ^ 48
    → PagesSet hb
        (bas / 2 ^ 12)
        ((bas + len) / 2 ^ 12)
        (if add then some reg else none)
        (setregion osmem hb reg bas len add)
unfolding setregion
setregion-PagesSet osmem hb reg bas len add fits =
    let org = bas / 2 ^ 12 in
    let end = (bas + len) / 2 ^ 12 in
    let xreg = if add then some reg else none in
    guarded hb org end xreg (ltb len (2 ^ page) || ltb bas (2 ^ page) || leb (2 ^ 48) bas)
      (set_loop osmem xreg (end - org + 1) org end hb)
      (λ passed.
        set_loop-PagesSet osmem xreg (end - org + 1) org end hb (ground (arith, passed))
          (omega arith))

-- setregion() makes exactly the pages of a region lead to it, or to none: of the pages below
-- `2 ^ 36`, those of the block change and the others do not, whatever the directory held before.
pub setregion-at_page :
    (osmem : ℕ → Option ℕ) (hb : Dirs) (reg bas len : ℕ) (add : Bool) (q : ℕ)
    → bas + len ≤ 2 ^ 48
    → (setregion osmem hb reg bas len add).0 ≡ false
    → q < 2 ^ 36
    → at_page (setregion osmem hb reg bas len add).1 q ≡ (
        if in_pages (bas / 2 ^ 12) ((bas + len) / 2 ^ 12) q
        then if add then some reg else none
        else at_page hb q)
setregion-at_page osmem hb reg bas len add q fits ok hq =
    setregion-PagesSet osmem hb reg bas len add fits ok q hq
