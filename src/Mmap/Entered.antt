-- ===== src/Mmap/Entered.antt =====
-- The first page of a large block in the directory.
use yalloc.Base.{
  ℕ, ◌+◌, ◌/◌, ◌^◌, ◌<◌, Option, none, some, Bool, true, false, if◌then◌else◌, arith, ◌≡◌, ◌≢◌, ◌∙◌,
  sym, refl,
}
use yalloc.Directory.Tree.{Dirs}
use yalloc.Directory.Find.{find_reg}
use yalloc.Directory.Set.{setregion}
use yalloc.Directory.Pages.{find_reg_lem, at_page}
use yalloc.Directory.Range.{setregion-at_page, in_pages}
use yalloc.Directory.Memory.{setregion_ok}
use yalloc.Mmap.Valid.{IsBlock}

module _ (osmem : ℕ → Option ℕ) (memory : (n : ℕ) → osmem n ≢ none) (dirs : Dirs) (id user len : ℕ)
    (b : IsBlock user len) (some_len : len ≢ 0) where
  -- What an address of the page of `user` leads to after the page was written.
  pub page-find_reg :
      (add : Bool)
      → find_reg (setregion osmem dirs id user 4096 add).1 user ≡ (if add then some id else none)
  page-find_reg add =
      let ok =
        setregion_ok osmem dirs id user 4096 add memory (omega arith) b.above
          (omega (arith, b.below, some_len)) in
      let here : in_pages (user / 2 ^ 12) ((user + 4096) / 2 ^ 12) (user / 2 ^ 12) ≡ true =
        ground arith in
      find_reg_lem (setregion osmem dirs id user 4096 add).1 user
      ∙ (setregion-at_page osmem dirs id user 4096 add (user / 2 ^ 12)
            (omega (arith, b.below, b.whole, b.aligned, some_len)) ok
            (omega (arith, b.below, some_len))
          ∙ rw here refl)

-- An address that leads nowhere still does after a page was removed.
pub page-find_none :
    (osmem : ℕ → Option ℕ) (dirs : Dirs) (id user len ip : ℕ)
    → ((n : ℕ) → osmem n ≢ none)
    → IsBlock user len
    → len ≢ 0
    → ip < 2 ^ 48
    → find_reg dirs ip ≡ none
    → find_reg (setregion osmem dirs id user 4096 false).1 ip ≡ none
page-find_none osmem dirs id user len ip memory b some_len small e =
    let ok =
      setregion_ok osmem dirs id user 4096 false memory (omega arith) b.above
        (omega (arith, b.below, some_len)) in
    let was : at_page dirs (ip / 2 ^ 12) ≡ none = sym (find_reg_lem dirs ip) ∙ e in
    find_reg_lem (setregion osmem dirs id user 4096 false).1 ip
    ∙ (setregion-at_page osmem dirs id user 4096 false (ip / 2 ^ 12)
          (omega (arith, b.below, b.whole, b.aligned, some_len)) ok (omega arith)
        ∙ ground (arith, was))
