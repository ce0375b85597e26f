-- ===== src/FreeList/Tests.antt =====
-- Runs of the free lists.
use yalloc.Base.{none, some, [], ◌∷◌, refl, leb, ◌≡◌}
use yalloc.FreeList.{Links, push, unlink, unlink_head, find_fit}
use yalloc.FreeList.Chain.{Chain, remove, IsDistinct}
use yalloc.FreeList.Unlink.{unlink-Chain}

abbrev no_links : Links
no_links = record { frenxt = λ i. none; freprv = λ i. none }

-- The list 7, 3, 5.
abbrev three : Links
unfolding push
three = push (push (push no_links none 5) (some 5) 3) (some 3) 7

three-Chain : Chain three none (some 7) (7 ∷ 3 ∷ 5 ∷ [])
unfolding three
three-Chain = (refl, refl, (refl, refl, (refl, refl, refl)))

three-IsDistinct : IsDistinct (7 ∷ 3 ∷ 5 ∷ [])
three-IsDistinct = (refl, (refl, (refl, refl)))

unlink-Chain_example :
    Chain (unlink three 3) none (unlink_head three (some 7) 3) (remove 3 (7 ∷ 3 ∷ 5 ∷ []))
unlink-Chain_example =
    unlink-Chain three 3 (some 7) (7 ∷ 3 ∷ 5 ∷ []) three-IsDistinct refl three-Chain

-- The second is the first that fits, and two of ten rounds are used.
find_second : find_fit (λ i. leb i 4) three.frenxt 3 10 (some 7) ≡ (some 3, 8)
unfolding find_fit three
find_second = refl

-- The limit ends the search before.
find_limit : find_fit (λ i. leb i 4) three.frenxt 3 2 (some 7) ≡ (none, 0)
unfolding find_fit three
find_limit = refl
