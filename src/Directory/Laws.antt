-- ===== src/Directory/Laws.antt =====
-- region.h `setregion`, then `findregion`.
use yalloc.Base.{
  ℕ, ◌+◌, ◌/◌, ◌%◌, ◌^◌, ◌≤◌, ◌<◌, true, false, ◌&&◌, Option, none, some, [], ltb, leb,
  if◌then◌else◌, arith, ◌≡◌, ◌∙◌,
}
use yalloc.Directory.Tree.{Dirs}
use yalloc.Directory.Set.{setregion}
use yalloc.Directory.Find.{findregion}
use yalloc.Directory.Pages.{find_reg_lem}
use yalloc.Directory.Range.{setregion-at_page, in_pages}

module _ (osmem : ℕ → Option ℕ) (hb : Dirs) (reg bas len : ℕ) (fits : bas + len ≤ 2 ^ 48)
    (aligned : bas % 2 ^ 12 ≡ 0) (whole : len % 2 ^ 12 ≡ 0) (ip : ℕ) where
  -- Of an aligned block, the pages are those of its addresses.
  in_pages_lem :
      in_pages (bas / 2 ^ 12) ((bas + len) / 2 ^ 12) (ip / 2 ^ 12)
      ≡ (leb bas ip && ltb ip (bas + len))
  in_pages_lem = ground arith

  -- After a region was entered, each address of its block leads to it, and passes the check.
  pub findregion-setregion :
      (user size : ℕ → ℕ)
      → (setregion osmem hb reg bas len true).0 ≡ false
      → user reg ≡ bas
      → size reg ≡ len
      → bas ≤ ip
      → ip < bas + len
      → findregion user size (setregion osmem hb reg bas len true).1 ip ≡ (some reg, [])
  unfolding findregion
  findregion-setregion user size ok at_bas of_len lo hi =
      let found =
        find_reg_lem (setregion osmem hb reg bas len true).1 ip
        ∙ setregion-at_page osmem hb reg bas len true (ip / 2 ^ 12) fits ok (omega arith) in
      ground (arith, found, in_pages_lem)

  -- After a region was removed, no address of its block leads anywhere, and an address outside of its
  -- block leads where it led before.
  pub findregion-removed :
      (user size : ℕ → ℕ)
      → (setregion osmem hb reg bas len false).0 ≡ false
      → ip < 2 ^ 48
      → findregion user size (setregion osmem hb reg bas len false).1 ip
        ≡ (if leb bas ip && ltb ip (bas + len) then (none, []) else findregion user size hb ip)
  unfolding findregion
  findregion-removed user size ok small =
      let found =
        find_reg_lem (setregion osmem hb reg bas len false).1 ip
        ∙ setregion-at_page osmem hb reg bas len false (ip / 2 ^ 12) fits ok (omega arith) in
      ground (arith, found, find_reg_lem hb ip, in_pages_lem)
