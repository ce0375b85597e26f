-- ===== src/Mmap/Chosen.antt =====
-- region.h `newmpregion`: the region that is used again was free, and leaves its list.
use yalloc.Base.{
  ℕ, zero, suc, ◌+◌, ◌≤◌, ◌<◌, min, Option, none, some, List, [], ◌∷◌, Bool, refl, true, false, ltb,
  leb, arith, ◌≡◌, ◌≢◌, ◌⊎◌, inl, inr, Bool-cases, update, sym, subst, ap, ◌∙◌,
}
use yalloc.FreeList.{Links, unlink, unlink_head, new_head, find_fit}
use yalloc.FreeList.Chain.{has, remove, Chain, Chain-has}
use yalloc.FreeList.Unlink.{unlink_first, inner-has}
use yalloc.FreeList.Search.{find_list, find_fit_lem, found_lem}
use yalloc.FreeList.Counted.{length-le}
use yalloc.Mmap.State.{vmbits, MpHeap}
use yalloc.Mmap.Choose.{
  walk, next_order, mp_sized, mp_would, take_sized, is_head, pop_empty, take_empty, choose_first,
  choose_empty, choose_sized, choose_region,
}
use yalloc.Mmap.Valid.{IsEmptied, IsMp, IsOff, IsOrdered}
use yalloc.Mmap.Lists.{take-IsMp, take-IsOff, drop-IsMp, drop-IsOff}

-- A region was free, and is on no list any more; nothing else changed.
pub record Chosen (hb : MpHeap) (len reg : ℕ) (hb' : MpHeap) : Type 0 where
  pub lists : ℕ → List ℕ
  pub zeros : List ℕ
  pub ordered :
      IsMp hb'.regs hb'.links hb'.freempregs hb'.freemp0regs hb'.stat.newmpregions
        (some reg)
        lists
        zeros
  pub off : IsOff lists zeros reg
  pub lt : reg < hb'.stat.newmpregions
  pub same : hb'.regs ≡ hb.regs
  pub fits :
      ((len ≤ (hb.regs reg).len) × ((hb.regs reg).len ≢ 0) × ((hb.regs reg).set ≡ 2))
      ⊎ IsEmptied (hb.regs reg)

abbrev pub ChosenOut : MpHeap → ℕ → Option ℕ × MpHeap → Type 0
ChosenOut hb len (some reg, hb') = Chosen hb len reg hb'
ChosenOut hb len (none, hb') = hb' ≡ hb

all_but : (r : ℕ) → ◌≢◌ {A = Option ℕ} none (some r)
all_but r e = cc

-- What stands at the head.
head_lem : (o : Option ℕ) (reg : ℕ) → is_head o reg ≡ true → o ≡ some reg
head_lem none reg e = cc
head_lem (some x) reg e = ground (arith, e)

-- An inner region leaves the head as it is.
inner_head :
    (k : Links) (head : Option ℕ) (l : List ℕ) (reg : ℕ)
    → Chain k none head l
    → has l reg ≡ true
    → is_head head reg ≡ false
    → unlink_head k head reg ≡ head
inner_head k head [] reg c on out = cc
inner_head k head (x ∷ l) reg c on out =
    let first : is_head (some x) reg ≡ false = subst (λ h. is_head h reg ≡ false) (c.0) out in
    let (i, e, on') = inner-has k none head x l reg c (ground (arith, first, on)) in
    ap (λ p. new_head head p (k.frenxt reg)) e

module _ (hb : MpHeap) (lists : ℕ → List ℕ) (zeros : List ℕ) (v : IsOrdered hb lists zeros)
    (len : ℕ) where
  -- The walks along the lists end.
  sized_walk :
      (test : ℕ → Bool) (iter ord : ℕ)
      → find_fit test hb.links.frenxt (walk hb) iter (hb.freempregs ord)
        ≡ find_list test iter (lists ord)
  sized_walk test iter ord =
      find_fit_lem test hb.links (walk hb) iter none (hb.freempregs ord) (lists ord) (v.sized ord)
        (length-le (walk hb) (lists ord) (v.once ord) (v.made ord))

  empty_walk :
      (test : ℕ → Bool) (iter : ℕ)
      → find_fit test hb.links.frenxt (walk hb) iter hb.freemp0regs ≡ find_list test iter zeros
  empty_walk test iter =
      find_fit_lem test hb.links (walk hb) iter none hb.freemp0regs zeros v.empties
        (length-le (walk hb) zeros v.once_empty v.made_empty)

  -- A region that the search finds waits, and is large enough.
  abbrev Sized : Option (ℕ × ℕ) → Type 0
  Sized none = ◌≡◌ {A = ℕ} 0 0
  Sized (some (reg, ord)) = (has (lists ord) reg ≡ true) × (len ≤ (hb.regs reg).len)

  next-Sized :
      (order ord : ℕ) (found : Option ℕ) (rest : Option (ℕ × ℕ))
      → ((reg : ℕ) → found ≡ some reg → (has (lists ord) reg ≡ true) × (len ≤ (hb.regs reg).len))
      → Sized rest
      → Sized (next_order order ord found rest)
  next-Sized order ord (some reg) rest here later = here reg refl
  next-Sized order ord none rest here later =
      elim (Bool-cases (ltb (ord + 1) (min vmbits (order + 3)))) [
        | inl more ↦ rw more later
        | inr over ↦ rw over refl
      ]

  mp_sized-Sized : (left iter order ord : ℕ) → Sized (mp_sized left iter hb len order ord)
  unfolding mp_sized
  mp_sized-Sized zero iter order ord = refl
  mp_sized-Sized (suc left) iter order ord =
      let test : ℕ → Bool = λ reg. leb len (hb.regs reg).len in
      next-Sized order ord (find_fit test hb.links.frenxt (walk hb) iter (hb.freempregs ord)).0 _
        (λ reg e.
          let (on, fits) =
            found_lem test iter (lists ord) reg
              (sym (ap (λ o. o.0) (sized_walk test iter ord)) ∙ e) in
          (on, ground (arith, fits)))
        (mp_sized-Sized left _ order (ord + 1))

  would_on : (reg : ℕ) → mp_would hb len ≡ some reg → has zeros reg ≡ true
  unfolding mp_would
  would_on reg e = (found_lem _ 100 zeros reg (sym (ap (λ o. o.0) (empty_walk _ 100)) ∙ e)).0

  -- The region of a list goes.
  take_sized-Chosen :
      (reg ord : ℕ)
      → (has (lists ord) reg ≡ true) × (len ≤ (hb.regs reg).len)
      → Chosen hb len reg (take_sized hb reg ord)
  unfolding take_sized
  take_sized-Chosen reg ord (on, fits) =
      let w = v.waiting ord reg on in
      record {
        lists = update lists ord (remove reg (lists ord));
        zeros = zeros;
        ordered = take-IsMp v ord reg on all_but;
        off = take-IsOff v ord reg on;
        lt = v.made ord reg on;
        same = refl;
        fits = inl (fits, w.some_len, w.free);
      }

  first_prv : (reg : ℕ) → hb.freemp0regs ≡ some reg → hb.links.freprv reg ≡ none
  first_prv reg e = go zeros v.empties
    where
      go : (l : List ℕ) → Chain hb.links none hb.freemp0regs l → hb.links.freprv reg ≡ none
      go [] c = cc
      go (x ∷ l) (at, before, rest) =
          let same : x ≡ reg = ground (arith, at, e) in
          subst (λ i. hb.links.freprv i ≡ none) same before

  -- The first of the regions without memory goes.
  pop_empty-Chosen : (reg : ℕ) → hb.freemp0regs ≡ some reg → Chosen hb len reg (pop_empty hb reg)
  unfolding pop_empty
  pop_empty-Chosen reg e =
      let on = Chain-has hb.links none hb.freemp0regs zeros reg v.empties e in
      let prv = first_prv reg e in
      record {
        lists = lists;
        zeros = remove reg zeros;
        ordered =
            subst
              (λ u.
                IsMp hb.regs u hb.freempregs (hb.links.frenxt reg) hb.stat.newmpregions (some reg)
                  lists (remove reg zeros))
              (unlink_first hb.links reg prv)
              (subst
                (λ h.
                  IsMp hb.regs (unlink hb.links reg) hb.freempregs h hb.stat.newmpregions (some reg)
                    lists (remove reg zeros))
                (ap (λ p. new_head hb.freemp0regs p (hb.links.frenxt reg)) prv)
                (drop-IsMp v reg on all_but));
        off = drop-IsOff v reg on;
        lt = v.made_empty reg on;
        same = refl;
        fits = inr (v.emptied reg on);
      }

  take_empty-Chosen : (reg : ℕ) → has zeros reg ≡ true → Chosen hb len reg (take_empty hb reg)
  unfolding take_empty pop_empty
  take_empty-Chosen reg on = elim (Bool-cases (is_head hb.freemp0regs reg)) [
    | inl first ↦
        let c = pop_empty-Chosen reg (head_lem hb.freemp0regs reg first) in
        rw first (record {
          lists = c.lists;
          zeros = c.zeros;
          ordered = c.ordered;
          off = c.off;
          lt = c.lt;
          same = refl;
          fits = c.fits;
        })
    | inr inner ↦ rw inner (record {
      lists = lists;
      zeros = remove reg zeros;
      ordered =
          subst
            (λ h.
              IsMp hb.regs (unlink hb.links reg) hb.freempregs h hb.stat.newmpregions (some reg)
                lists (remove reg zeros))
            (inner_head hb.links hb.freemp0regs zeros reg v.empties on inner)
            (drop-IsMp v reg on all_but);
      off = drop-IsOff v reg on;
      lt = v.made_empty reg on;
      same = refl;
      fits = inr (v.emptied reg on);
    })
  ]

  first-Chosen : (o : Option ℕ) → hb.freemp0regs ≡ o → ChosenOut hb len (choose_first hb o)
  first-Chosen none e = refl
  first-Chosen (some reg) e = pop_empty-Chosen reg e

  empty-Chosen : (o : Option ℕ) → mp_would hb len ≡ o → ChosenOut hb len (choose_empty hb o)
  empty-Chosen none e = first-Chosen hb.freemp0regs refl
  empty-Chosen (some reg) e = take_empty-Chosen reg (would_on reg e)

  chosen-Chosen : (o : Option (ℕ × ℕ)) → Sized o → ChosenOut hb len (choose_sized hb len o)
  chosen-Chosen none s = empty-Chosen (mp_would hb len) refl
  chosen-Chosen (some (reg, ord)) s = take_sized-Chosen reg ord s

  pub choose_region-Chosen : (order : ℕ) → ChosenOut hb len (choose_region hb len order)
  unfolding choose_region
  choose_region-Chosen order = chosen-Chosen _ (mp_sized-Sized 3 80 order order)
