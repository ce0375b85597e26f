-- ===== src/Directory/Tests.antt =====
-- Runs of the page directory.
use yalloc.Base.{
  ℕ, ◌≡◌, ◌≢◌, refl, true, false, Option, none, some, [], ltb, leb, ◌&&◌, if◌then◌else◌, arith,
}
use yalloc.Directory.Tree.{Dirs, empty}
use yalloc.Directory.Set.{setregion}
use yalloc.Directory.Find.{findregion}
use yalloc.Directory.Pages.{at_page}
use yalloc.Directory.Range.{setregion-at_page, in_pages}
use yalloc.Directory.Memory.{setregion_ok}
use yalloc.Directory.Laws.{findregion-setregion, findregion-removed}

abbrev no_dirs : Dirs
no_dirs = record {
  rootdir = empty;
  dirmem = 0;
  dirmem_pos = 0;
  dirmem_top = 0;
  leafdirmem = 0;
  ldirmem_pos = 0;
  ldirmem_top = 0;
  mmaps = 0;
}

abbrev mapped : ℕ → Option ℕ
mapped n = some 4096

mapped_some : (n : ℕ) → mapped n ≢ none
mapped_some n = ground arith

setregion_ok_example : (setregion mapped no_dirs 5 65536 131072 true).0 ≡ false
setregion_ok_example =
    setregion_ok mapped no_dirs 5 65536 131072 true mapped_some (omega arith) (omega arith)
      (omega arith)

setregion-at_page_example :
    at_page (setregion mapped no_dirs 5 65536 131072 true).1 20
    ≡ (if in_pages 16 48 20 then some 5 else at_page no_dirs 20)
setregion-at_page_example =
    setregion-at_page mapped no_dirs 5 65536 131072 true 20 (omega arith)
      (setregion_ok mapped no_dirs 5 65536 131072 true mapped_some (omega arith) (omega arith)
        (omega arith))
      (omega arith)

findregion-setregion_example :
    findregion (λ reg. 65536) (λ reg. 131072) (setregion mapped no_dirs 5 65536 131072 true).1 70000
    ≡ (some 5, [])
findregion-setregion_example =
    findregion-setregion mapped no_dirs 5 65536 131072 (omega arith) refl refl 70000 (λ reg. 65536)
      (λ reg. 131072)
      (setregion_ok mapped no_dirs 5 65536 131072 true mapped_some (omega arith) (omega arith)
        (omega arith))
      refl refl (omega arith) (omega arith)

findregion-removed_example :
    findregion
      (λ reg. 65536)
      (λ reg. 131072)
      (setregion mapped no_dirs 5 65536 131072 false).1
      70000
    ≡ (if leb 65536 70000 && ltb 70000 196608
        then (none, [])
        else findregion (λ reg. 65536) (λ reg. 131072) no_dirs 70000)
findregion-removed_example =
    findregion-removed mapped no_dirs 5 65536 131072 (omega arith) refl refl 70000 (λ reg. 65536)
      (λ reg. 131072)
      (setregion_ok mapped no_dirs 5 65536 131072 false mapped_some (omega arith) (omega arith)
        (omega arith))
      (omega arith)
