-- ===== src/FreeList/Search.antt =====
-- The search along a free list.
use yalloc.Base.{
  ℕ, zero, suc, ◌≤◌, Bool, true, Option, none, some, List, [], ◌∷◌, ◌==◌, if◌then◌else◌, arith, ◌≡◌,
  refl, Bool-cases, inl, inr,
}
use yalloc.Word.{sub4}
use yalloc.FreeList.{Links, find_fit}
use yalloc.FreeList.Chain.{has, Chain}
use yalloc.FreeList.Counted.{length}

-- The same on the list.
pub find_list : (ℕ → Bool) → ℕ → List ℕ → Option ℕ × ℕ
find_list test iter [] = (none, iter)
find_list test iter (x ∷ l) =
    let rest = find_list test (sub4 iter 1) l in
    if sub4 iter 1 == 0 then (none, sub4 iter 1) else if test x then (some x, sub4 iter 1) else rest

-- The rounds are enough.
pub find_fit_lem :
    (test : ℕ → Bool) (k : Links) (left iter : ℕ) (prev head : Option ℕ) (l : List ℕ)
    → Chain k prev head l
    → length l ≤ left
    → find_fit test k.frenxt left iter head ≡ find_list test iter l
unfolding find_fit find_list
find_fit_lem test k zero iter prev head [] c le = refl
find_fit_lem test k zero iter prev head (x ∷ l) c le = absurd (omega arith)
find_fit_lem test k (suc left) iter prev head [] c le = rw c refl
find_fit_lem test k (suc left) iter prev head (x ∷ l) (at, before, rest) le =
    rw (at, find_fit_lem test k left (sub4 iter 1) (some x) (k.frenxt x) l rest (omega arith)) refl

-- What is found is on the list and fits.
pub found_lem :
    (test : ℕ → Bool) (iter : ℕ) (l : List ℕ) (x : ℕ)
    → (find_list test iter l).0 ≡ some x
    → (has l x ≡ true) × (test x ≡ true)
unfolding find_list
found_lem test iter [] x e = cc
found_lem test iter (y ∷ l) x e = elim (Bool-cases (sub4 iter 1 == 0)) [
  | inl over ↦ absurd (ground (arith, e, over))
  | inr more ↦ elim (Bool-cases (test y)) [
    | inl fits ↦
        let same : ◌≡◌ {A = Option ℕ} (some y) (some x) = (rw (more, fits) at e) in
        let same' : y ≡ x = ground (arith, same) in (ground arith, rw (← same') fits)
    | inr small ↦
        let (on, fits) = found_lem test (sub4 iter 1) l x (rw (more, small) at e) in
        (ground (arith, on), fits)
  ]
]
