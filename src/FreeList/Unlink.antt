-- ===== src/FreeList/Unlink.antt =====
-- A region is taken out of a free list.
use native.Mathlib.Decide.{ℕ_discrete}
use yalloc.Base.{
  ℕ, true, false, Option, none, some, List, [], ◌∷◌, ◌==◌, if◌then◌else◌, arith, ◌≡◌, ◌≢◌, sym,
  subst, ap, ◌∙◌, update_self,
}
use yalloc.FreeList.{Links, set_prv, set_nxt, unlink, unlink_head}
use yalloc.FreeList.Chain.{
  has, IsDistinct, remove, Chain, Chain-nxt, Chain-first, Chain-has, set_prv-nxt, set_nxt-prv,
  set_prv_ne, set_nxt_ne, not_before,
}

-- On a list without repetition, one region goes.
pub has-remove :
    (x : ℕ) (l : List ℕ) (i : ℕ)
    → IsDistinct l
    → has (remove x l) i ≡ (if x == i then false else has l i)
has-remove x [] i d = ground arith
has-remove x (y ∷ l) i (out, d) = ground (arith, has-remove x l i d, out)

pub remove-IsDistinct : (x : ℕ) (l : List ℕ) → IsDistinct l → IsDistinct (remove x l)
remove-IsDistinct x [] d = d
remove-IsDistinct x (y ∷ l) (out, d) = elim (ℕ_discrete y x) [
  | yes e ↦ let t : (y == x) ≡ true = ground arith in rw t d
  | no ne ↦
      let t : (y == x) ≡ false = ground arith in
      rw t (has-remove x l y d ∙ ground (arith, out), remove-IsDistinct x l d)
]

-- The neighbours of a region on a list are on it.
pub next-has :
    (k : Links) (prev head : Option ℕ) (l : List ℕ) (x i : ℕ)
    → Chain k prev head l
    → has l x ≡ true
    → k.frenxt x ≡ some i
    → has l i ≡ true
next-has k prev head [] x i c on e = cc
next-has k prev head (y ∷ l) x i (at, before, rest) on e = elim (ℕ_discrete y x) [
  | yes same ↦
      let nxt : k.frenxt y ≡ some i = subst (λ n. k.frenxt n ≡ some i) (sym same) e in
      ground (arith, Chain-has k (some y) (k.frenxt y) l i rest nxt)
  | no ne ↦ ground (arith, next-has k (some y) (k.frenxt y) l x i rest (ground (arith, on)) e)
]

-- Before an inner region is a region of the list.
pub inner-has :
    (k : Links) (prev head : Option ℕ) (y : ℕ) (l : List ℕ) (x : ℕ)
    → Chain k prev head (y ∷ l)
    → has l x ≡ true
    → (i : ℕ) × (k.freprv x ≡ some i) × (has (y ∷ l) i ≡ true)
inner-has k prev head y [] x c on = cc
inner-has k prev head y (z ∷ l) x (at, before, rest) on = elim (ℕ_discrete z x) [
  | yes same ↦ (y, subst (λ n. k.freprv n ≡ some y) same (rest.1), ground arith)
  | no ne ↦
      let (i, e, on') = inner-has k (some y) (k.frenxt y) z l x rest (ground (arith, on)) in
      (i, e, ground (arith, on'))
]

pub prev-has :
    (k : Links) (head : Option ℕ) (l : List ℕ) (x i : ℕ)
    → Chain k none head l
    → has l x ≡ true
    → k.freprv x ≡ some i
    → has l i ≡ true
prev-has k head [] x i c on e = cc
prev-has k head (y ∷ l) x i c on e = elim (ℕ_discrete y x) [
  | yes same ↦ let before = subst (λ n. k.freprv n ≡ none) same (c.1) in cc
  | no ne ↦
      let (j, e', on') = inner-has k none head y l x c (ground (arith, on)) in
      ground (arith, sym e' ∙ e, on')
]

module _ (k : Links) (x : ℕ) where
  unlink-nxt : (i : ℕ) → k.freprv x ≢ some i → (unlink k x).frenxt i ≡ k.frenxt i
  unfolding unlink
  unlink-nxt i ne =
      ap (λ f. f i) (set_prv-nxt (set_nxt k (k.freprv x) (k.frenxt x)) (k.frenxt x) (k.freprv x))
      ∙ set_nxt_ne k (k.freprv x) (k.frenxt x) i ne

  unlink-prv : (i : ℕ) → k.frenxt x ≢ some i → (unlink k x).freprv i ≡ k.freprv i
  unfolding unlink
  unlink-prv i ne =
      set_prv_ne (set_nxt k (k.freprv x) (k.frenxt x)) (k.frenxt x) (k.freprv x) i ne
      ∙ ap (λ f. f i) (set_nxt-prv k (k.freprv x) (k.frenxt x))

  unlink_after :
      (y : ℕ)
      → k.freprv x ≡ some y
      → unlink k x ≡ set_prv (set_nxt k (some y) (k.frenxt x)) (k.frenxt x) (some y)
  unfolding unlink
  unlink_after y e = ap (λ p. set_prv (set_nxt k p (k.frenxt x)) (k.frenxt x) p) e

  pub unlink_first : k.freprv x ≡ none → unlink k x ≡ set_prv k (k.frenxt x) none
  unfolding unlink
  unlink_first e = ap (λ p. set_prv (set_nxt k p (k.frenxt x)) (k.frenxt x) p) e

  -- The region after `y` goes.
  unlink_second :
      (y : ℕ) (l : List ℕ)
      → k.freprv x ≡ some y
      → has l y ≡ false
      → IsDistinct l
      → Chain k (some x) (k.frenxt x) l
      → Chain (unlink k x) (some y) ((unlink k x).frenxt y) l
  unlink_second y l e out d c =
      let k₁ = set_nxt k (some y) (k.frenxt x) in
      let c₁ = Chain-nxt k y (k.frenxt x) (some x) (k.frenxt x) l out c in
      let at : (set_prv k₁ (k.frenxt x) (some y)).frenxt y ≡ k.frenxt x =
        ap (λ f. f y) (set_prv-nxt k₁ (k.frenxt x) (some y))
        ∙ update_self k.frenxt y (k.frenxt x) in
      subst (λ u. Chain u (some y) (u.frenxt y) l) (sym (unlink_after y e))
        (subst (λ h. Chain (set_prv k₁ (k.frenxt x) (some y)) (some y) h l) (sym at)
          (Chain-first k₁ (some x) (some y) (k.frenxt x) l d c₁))

  unlink_inner :
      (prev head : Option ℕ) (y : ℕ) (l : List ℕ)
      → IsDistinct (y ∷ l)
      → has l x ≡ true
      → Chain k prev head (y ∷ l)
      → Chain (unlink k x) prev head (y ∷ remove x l)
  unlink_inner prev head y [] d on c = cc
  unlink_inner prev head y (z ∷ l) (out, d) on c =
      let (at, before, rest) = c in
      let stays : k.frenxt x ≢ some y =
        λ e. ground (arith, next-has k (some y) (k.frenxt y) (z ∷ l) x y rest on e, out) in
      elim (ℕ_discrete z x) [
        | yes same ↦
            let t : (z == x) ≡ true = ground arith in
            let prv : k.freprv x ≡ some y = subst (λ n. k.freprv n ≡ some y) same (rest.1) in
            let c' = subst (λ n. Chain k (some n) (k.frenxt n) l) same (rest.2) in
            rw t (
              at,
              unlink-prv y stays ∙ before,
              unlink_second y l prv (ground (arith, out)) (d.1) c',
            )
        | no ne ↦
            let t : (z == x) ≡ false = ground arith in
            let on' : has l x ≡ true = ground (arith, on) in
            let keeps = not_before k (some y) (k.frenxt y) z l x y rest on' out in
            rw t (
              at,
              unlink-prv y stays ∙ before,
              subst (λ h. Chain (unlink k x) (some y) h (z ∷ remove x l)) (sym (unlink-nxt y keeps))
                  (unlink_inner (some y) (k.frenxt y) z l d on' rest),
            )
      ]

  -- A region is unlinked from a free list that it is on, where no region is twice on it: from the new head
  -- on, the links are those of the list without the region, in the same order.
  pub unlink-Chain :
      (head : Option ℕ) (l : List ℕ)
      → IsDistinct l
      → has l x ≡ true
      → Chain k none head l
      → Chain (unlink k x) none (unlink_head k head x) (remove x l)
  unlink-Chain head [] d on c = cc
  unlink-Chain head (y ∷ l) (out, d) on c = elim (ℕ_discrete y x) [
    | yes same ↦
        let t : (y == x) ≡ true = ground arith in
        let prv : k.freprv x ≡ none = subst (λ n. k.freprv n ≡ none) same (c.1) in
        let c' = subst (λ n. Chain k (some n) (k.frenxt n) l) same (c.2) in
        rw (t, prv)
          (subst (λ u. Chain u none (k.frenxt x) l) (sym (unlink_first prv))
            (Chain-first k (some x) none (k.frenxt x) l d c'))
    | no ne ↦
        let t : (y == x) ≡ false = ground arith in
        let on' : has l x ≡ true = ground (arith, on) in
        let (i, e, on'') = inner-has k none head y l x c on' in
        rw (t, e) (unlink_inner none head y l (out, d) on' c)
  ]

  -- A list without the neighbours of the region stays as it is.
  pub unlink-other :
      (prev head : Option ℕ) (l : List ℕ)
      → ((i : ℕ) → k.frenxt x ≡ some i → has l i ≡ false)
      → ((i : ℕ) → k.freprv x ≡ some i → has l i ≡ false)
      → Chain k prev head l
      → Chain (unlink k x) prev head l
  unlink-other prev head [] after before c = c
  unlink-other prev head (y ∷ l) after before (at, first, rest) =
      let ne : k.frenxt x ≢ some y = λ e. ground (arith, after y e) in
      let ne' : k.freprv x ≢ some y = λ e. ground (arith, before y e) in
      (
        at,
        unlink-prv y ne ∙ first,
        subst (λ h. Chain (unlink k x) (some y) h l) (sym (unlink-nxt y ne'))
            (unlink-other (some y) (k.frenxt y) l (λ i e. ground (arith, after i e))
              (λ i e. ground (arith, before i e)) rest),
      )
