-- ===== src/FreeList/Chain.antt =====
-- A free list, and that the operations on it keep it.
use native.Mathlib.Decide.{ℕ_discrete}
use yalloc.Base.{
  ℕ, Bool, true, false, Option, none, some, List, [], ◌∷◌, ◌==◌, if◌then◌else◌, arith, ◌≡◌, ◌≢◌,
  refl, sym, subst, ap, ◌∙◌, update, update_self, update_ne,
}
use yalloc.FreeList.{Links, set_prv, set_nxt, push}

-- Whether a region is on a list.
abbrev pub has : List ℕ → ℕ → Bool
has [] i = false
has (x ∷ l) i = if x == i then true else has l i

abbrev pub IsDistinct : List ℕ → Type 0
IsDistinct [] = ◌≡◌ {A = ℕ} 0 0
IsDistinct (x ∷ l) = (has l x ≡ false) × IsDistinct l

abbrev pub remove : ℕ → List ℕ → List ℕ
remove i [] = []
remove i (x ∷ l) = if x == i then l else x ∷ remove i l

-- The list from `head` on, where `prev` is before it.
abbrev pub Chain : Links → Option ℕ → Option ℕ → List ℕ → Type 0
Chain k prev head [] = head ≡ none
Chain k prev head (x ∷ l) = (head ≡ some x) × (k.freprv x ≡ prev) × Chain k (some x) (k.frenxt x) l

-- What is not on a list can be written without harm.
pub Chain-nxt :
    (k : Links) (i : ℕ) (v prev head : Option ℕ) (l : List ℕ)
    → has l i ≡ false
    → Chain k prev head l
    → Chain (record k { frenxt = update k.frenxt i v }) prev head l
Chain-nxt k i v prev head [] out c = c
Chain-nxt k i v prev head (x ∷ l) out (at, before, rest) =
    let ne : i ≢ x = ground arith in
    (
      at,
      before,
      rw (update_ne k.frenxt v ne) (Chain-nxt k i v (some x) (k.frenxt x) l (ground arith) rest),
    )

pub Chain-prv :
    (k : Links) (i : ℕ) (v prev head : Option ℕ) (l : List ℕ)
    → has l i ≡ false
    → Chain k prev head l
    → Chain (record k { freprv = update k.freprv i v }) prev head l
Chain-prv k i v prev head [] out c = c
Chain-prv k i v prev head (x ∷ l) out (at, before, rest) =
    let ne : i ≢ x = ground arith in
    (
      at,
      rw (update_ne k.freprv v ne) before,
      Chain-prv k i v (some x) (k.frenxt x) l (ground arith) rest,
    )

-- The first of a list gets another one before it.
pub Chain-first :
    (k : Links) (prev prev' head : Option ℕ) (l : List ℕ)
    → IsDistinct l
    → Chain k prev head l
    → Chain (set_prv k head prev') prev' head l
Chain-first k prev prev' head [] d c =
    subst (λ h. Chain (set_prv k h prev') prev' h []) (sym c) refl
Chain-first k prev prev' head (x ∷ l) (out, d) (at, before, rest) =
    subst (λ h. Chain (set_prv k h prev') prev' h (x ∷ l)) (sym at)
      (refl, update_self k.freprv x prev', Chain-prv k x prev' (some x) (k.frenxt x) l out rest)

-- The head of a list is on it.
pub Chain-has :
    (k : Links) (prev head : Option ℕ) (l : List ℕ) (i : ℕ)
    → Chain k prev head l
    → head ≡ some i
    → has l i ≡ true
Chain-has k prev head [] i c e = cc
Chain-has k prev head (x ∷ l) i (at, before, rest) e = ground arith

pub set_prv-nxt : (k : Links) (o v : Option ℕ) → (set_prv k o v).frenxt ≡ k.frenxt
set_prv-nxt k none v = refl
set_prv-nxt k (some i) v = refl

pub set_nxt-prv : (k : Links) (o v : Option ℕ) → (set_nxt k o v).freprv ≡ k.freprv
set_nxt-prv k none v = refl
set_nxt-prv k (some i) v = refl

-- A write to another region.
pub set_prv_ne :
    (k : Links) (o v : Option ℕ) (i : ℕ) → o ≢ some i → (set_prv k o v).freprv i ≡ k.freprv i
set_prv_ne k none v i ne = refl
set_prv_ne k (some j) v i ne = ground arith

pub set_nxt_ne :
    (k : Links) (o v : Option ℕ) (i : ℕ) → o ≢ some i → (set_nxt k o v).frenxt i ≡ k.frenxt i
set_nxt_ne k none v i ne = refl
set_nxt_ne k (some j) v i ne = ground arith

-- A new first one.
pub push-Chain :
    (k : Links) (head : Option ℕ) (reg : ℕ) (l : List ℕ)
    → has l reg ≡ false
    → IsDistinct l
    → Chain k none head l
    → Chain (push k head reg) none (some reg) (reg ∷ l)
unfolding push
push-Chain k head reg l out d c =
    let k₁ : Links = record {
      frenxt = update k.frenxt reg head;
      freprv = update k.freprv reg none;
    } in
    let c₁ =
      Chain-prv (record k { frenxt = update k.frenxt reg head }) reg none none head l out
        (Chain-nxt k reg head none head l out c) in
    let ne : head ≢ some reg = λ e. ground (arith, Chain-has k none head l reg c e) in
    let at : (set_prv k₁ head (some reg)).frenxt reg ≡ head =
      ap (λ f. f reg) (set_prv-nxt k₁ head (some reg)) ∙ update_self k.frenxt reg head in
    (
      refl,
      set_prv_ne k₁ head (some reg) reg ne ∙ update_self k.freprv reg none,
      subst (λ h. Chain (set_prv k₁ head (some reg)) (some reg) h l) (sym at)
          (Chain-first k₁ none (some reg) head l d c₁),
    )

-- The lists that a write to the fields of one region does not touch.
pub push-other :
    (k : Links) (head : Option ℕ) (reg : ℕ) (prev head' : Option ℕ) (l : List ℕ)
    → has l reg ≡ false
    → ((i : ℕ) → head ≡ some i → has l i ≡ false)
    → Chain k prev head' l
    → Chain (push k head reg) prev head' l
unfolding push
push-other k none reg prev head' l out apart c =
    Chain-prv (record k { frenxt = update k.frenxt reg none }) reg none prev head' l out
      (Chain-nxt k reg none prev head' l out c)
push-other k (some i) reg prev head' l out apart c =
    let k₁ : Links = record k { frenxt = update k.frenxt reg (some i) } in
    let k₂ : Links = record k₁ { freprv = update k.freprv reg none } in
    Chain-prv k₂ i (some reg) prev head' l (apart i refl)
      (Chain-prv k₁ reg none prev head' l out (Chain-nxt k reg (some i) prev head' l out c))

-- The region before an inner one is on the list.
pub not_before :
    (k : Links) (prev head : Option ℕ) (y : ℕ) (l : List ℕ) (x i : ℕ)
    → Chain k prev head (y ∷ l)
    → has l x ≡ true
    → has (y ∷ l) i ≡ false
    → k.freprv x ≢ some i
not_before k prev head y [] x i c on out e = ground (arith, on)
not_before k prev head y (z ∷ l) x i (at, before, rest) on out e = elim (ℕ_discrete z x) [
  | yes same ↦
      let prv : k.freprv x ≡ some y = subst (λ n. k.freprv n ≡ some y) same (rest.1) in
      ground (arith, sym prv ∙ e, out)
  | no ne ↦
      not_before k (some y) (k.frenxt y) z l x i rest (ground (arith, on)) (ground (arith, out)) e
]
