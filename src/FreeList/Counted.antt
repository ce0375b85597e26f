-- ===== src/FreeList/Counted.antt =====
-- A list without repetition of numbers below `n` has at most `n` members: the walks along a free list
-- end.
use native.Mathlib.Decide.{ℕ_discrete}
use yalloc.Base.{
  ℕ, zero, suc, ◌≤◌, ◌<◌, true, false, List, [], ◌∷◌, ◌==◌, arith, ◌≡◌, refl, subst, Bool-cases,
  inl, inr,
}
use yalloc.FreeList.Chain.{has, IsDistinct, remove}
use yalloc.FreeList.Unlink.{has-remove, remove-IsDistinct}

abbrev pub length : List ℕ → ℕ
length [] = 0
length (x ∷ l) = suc (length l)

length-remove : (x : ℕ) (l : List ℕ) → has l x ≡ true → length l ≡ suc (length (remove x l))
length-remove x [] on = cc
length-remove x (y ∷ l) on = elim (ℕ_discrete y x) [
  | yes e ↦ let t : (y == x) ≡ true = ground arith in rw t refl
  | no ne ↦
      let t : (y == x) ≡ false = ground arith in
      rw t (omega (arith, length-remove x l (ground (arith, on))))
]

in_range :
    (l : List ℕ) (i n : ℕ)
    → ((j : ℕ) → has l j ≡ true → j < suc n)
    → has l n ≡ false
    → has l i ≡ true
    → i < n
in_range l i n below out on = elim (ℕ_discrete i n) [
  | yes e ↦ let here = subst (λ j. has l j ≡ true) e on in cc
  | no ne ↦ omega (arith, below i on)
]

pub length-le :
    (n : ℕ) (l : List ℕ) → IsDistinct l → ((i : ℕ) → has l i ≡ true → i < n) → length l ≤ n
length-le zero [] d below = omega arith
length-le zero (x ∷ l) d below = absurd (omega (arith, below x (ground arith)))
length-le (suc n) l d below = elim (Bool-cases (has l n)) [
  | inr out ↦ omega (arith, length-le n l d (λ i on. in_range l i n below out on))
  | inl on ↦ omega (
    arith,
    length-remove n l on,
    length-le n (remove n l) (remove-IsDistinct n l d)
        (λ i on'. ground (arith, has-remove n l i d, below i)),
  )
]
