-- ===== src/Mmap/Pushed.antt =====
-- A region is put on a free list.
use native.Mathlib.Decide.{ℕ_discrete}
use yalloc.Base.{
  ℕ, ◌<◌, Option, none, some, List, ◌∷◌, true, arith, ◌≡◌, ◌≢◌, ◌⊎◌, inl, inr, update, update_self,
  update_ne, sym, subst,
}
use yalloc.FreeList.{Links, push}
use yalloc.FreeList.Chain.{has, IsDistinct, Chain, push-Chain, push-other, Chain-has}
use yalloc.Mmap.State.{MpRegion}
use yalloc.Mmap.Valid.{IsBlocks, IsWaiting, IsEmptied, IsUnmade, IsAging, IsMp, IsOff}
use yalloc.Mmap.Lists.{one_order, sized_not_empty, not_has}

-- A statement about a record that was written, from the old and the new one.
pub put_case {ℓ κ} :
    {A : Type ℓ} (P : ℕ → A → Type κ) (f : ℕ → A) (i : ℕ) (a : A)
    → P i a
    → ((j : ℕ) → i ≢ j → P j (f j))
    → (j : ℕ) → P j (update f i a j)
put_case P f i a new old j = elim (ℕ_discrete i j) [
  | yes e ↦ subst (λ m. P m (update f i a m)) e (subst (P i) (sym (update_self f i a)) new)
  | no ne ↦ subst (P j) (sym (update_ne f a ne)) (old j ne)
]

module _ {regs : ℕ → MpRegion} {k : Links} {heads : ℕ → Option ℕ} {head : Option ℕ} {n : ℕ}
    {but : Option ℕ} {lists : ℕ → List ℕ} {zeros : List ℕ}
    (v : IsMp regs k heads head n but lists zeros) (reg : ℕ) (off : IsOff lists zeros reg)
    (lt : reg < n) (only : (q : ℕ) → reg ≢ q → but ≢ some q) (r : MpRegion)
    (blocks : IsBlocks (update regs reg r)) where
  -- What is on a list is another region.
  apart_sized : (a q : ℕ) → has (lists a) q ≡ true → reg ≢ q
  apart_sized a q on e = ground (arith, off.of_sized a, on, e)

  apart_empty : (q : ℕ) → has zeros q ≡ true → reg ≢ q
  apart_empty q on e = ground (arith, off.of_empty, on, e)

  old-IsWaiting : (a q : ℕ) → has (lists a) q ≡ true → IsWaiting a (update regs reg r q)
  old-IsWaiting a q on =
      subst (IsWaiting a) (sym (update_ne regs r (apart_sized a q on))) (v.waiting a q on)

  old-IsEmptied : (q : ℕ) → has zeros q ≡ true → IsEmptied (update regs reg r q)
  old-IsEmptied q on = subst IsEmptied (sym (update_ne regs r (apart_empty q on))) (v.emptied q on)

  module _ (ord : ℕ) (w : IsWaiting ord r) where
    abbrev more : ℕ → List ℕ
    more = update lists ord (reg ∷ lists ord)

    more-has :
        (a q : ℕ) → has (more a) q ≡ true → ((ord ≡ a) × (reg ≡ q)) ⊎ (has (lists a) q ≡ true)
    more-has a q on = elim (ℕ_discrete ord a) [
      | yes e ↦
          let on' : has (reg ∷ lists ord) q ≡ true =
            subst (λ l. has l q ≡ true)
              (subst (λ b. more b ≡ reg ∷ lists ord) e (update_self lists ord _)) on in
          elim (ℕ_discrete reg q) [
            | yes same ↦ inl (e, same)
            | no ne ↦ inr (subst (λ b. has (lists b) q ≡ true) e (ground (arith, on', ne)))
          ]
      | no ne ↦ inr (subst (λ l. has l q ≡ true) (update_ne lists _ ne) on)
    ]

    still : (a q : ℕ) → has (lists a) q ≡ true → has (more a) q ≡ true
    still a q on = elim (ℕ_discrete ord a) [
      | yes e ↦
          subst (λ b. has (more b) q ≡ true) e
            (subst (λ l. has l q ≡ true) (sym (update_self lists ord _))
              (ground (arith, subst (λ b. has (lists b) q ≡ true) (sym e) on)))
      | no ne ↦ subst (λ l. has l q ≡ true) (sym (update_ne lists _ ne)) on
    ]

    here : has (more ord) reg ≡ true
    here = subst (λ l. has l reg ≡ true) (sym (update_self lists ord _)) (ground arith)

    sized_Chain :
        (a : ℕ) → Chain (push k (heads ord) reg) none (update heads ord (some reg) a) (more a)
    sized_Chain a = elim (ℕ_discrete ord a) [
      | yes e ↦
          subst (λ b. Chain (push k (heads ord) reg) none (update heads ord (some reg) b) (more b))
            e
            (subst (λ h. Chain (push k (heads ord) reg) none h (more ord))
              (sym (update_self heads ord _))
              (subst (λ l. Chain (push k (heads ord) reg) none (some reg) l)
                (sym (update_self lists ord _))
                (push-Chain k (heads ord) reg (lists ord) (off.of_sized ord) (v.once ord)
                  (v.sized ord))))
      | no ne ↦
          subst (λ h. Chain (push k (heads ord) reg) none h (more a)) (sym (update_ne heads _ ne))
            (subst (λ l. Chain (push k (heads ord) reg) none (heads a) l)
              (sym (update_ne lists _ ne))
              (push-other k (heads ord) reg none (heads a) (lists a) (off.of_sized a)
                (λ i e. not_has v (lists a) i (λ h. ne (
                  one_order v ord a i (Chain-has k none (heads ord) (lists ord) i (v.sized ord) e)
                    h)))
                (v.sized a)))
    ]

    more-once : (a : ℕ) → IsDistinct (more a)
    more-once a = elim (ℕ_discrete ord a) [
      | yes e ↦
          subst (λ b. IsDistinct (more b)) e
            (subst IsDistinct (sym (update_self lists ord _)) (off.of_sized ord, v.once ord))
      | no ne ↦ subst IsDistinct (sym (update_ne lists _ ne)) (v.once a)
    ]

    more-waiting : (a q : ℕ) → has (more a) q ≡ true → IsWaiting a (update regs reg r q)
    more-waiting a q on = elim (more-has a q on) [
      | inr old ↦ old-IsWaiting a q old
      | inl (e, same) ↦
          subst (λ m. IsWaiting a (update regs reg r m)) same
            (subst (IsWaiting a) (sym (update_self regs reg r)) (subst (λ b. IsWaiting b r) e w))
    ]

    -- A region goes to the front of the list of its size.
    pub wait-IsMp :
        IsMp
          (update regs reg r)
          (push k (heads ord) reg)
          (update heads ord (some reg))
          head
          n
          none
          more
          zeros
    wait-IsMp = record {
      sized = sized_Chain;
      empties =
          push-other k (heads ord) reg none head zeros off.of_empty
            (λ i e. not_has v zeros i (
              sized_not_empty v ord i (Chain-has k none (heads ord) (lists ord) i (v.sized ord) e)))
            v.empties;
      once = more-once;
      once_empty = v.once_empty;
      waiting = more-waiting;
      emptied = old-IsEmptied;
      made = λ a q on. elim (more-has a q on) [
        | inl (e, same) ↦ subst (λ m. m < n) same lt
        | inr old ↦ v.made a q old
      ];
      made_empty = v.made_empty;
      listed = λ q ne begun kept.
          put_case (λ m x. x.aged ≢ 0 → x.aged ≢ 3 → has (more x.order) m ≡ true) regs reg r
            (λ b c. subst (λ o. has (more o) reg ≡ true) (sym w.at_order) here)
            (λ m other b c. still (regs m).order m (v.listed m (only m other) b c)) q begun kept;
      in_use = λ q.
          put_case (λ m x. x.set ≡ 1 → x.aged ≡ 0) regs reg r
            (λ e. absurd (omega (arith, w.free, e))) (λ m other. v.in_use m) q;
      older =
          put_case (λ m x. IsAging x) regs reg r (λ a b. (w.free, w.some_len))
            (λ m other. v.older m);
      unmade = λ q ge. subst IsUnmade (sym (update_ne regs r (λ e. omega arith))) (v.unmade q ge);
      blocks = blocks;
    }

  -- A region goes to the front of the list of those without memory.
  pub empty-IsMp :
      IsEmptied r
      → IsMp (update regs reg r) (push k head reg) heads (some reg) n none lists (reg ∷ zeros)
  empty-IsMp w = record {
    sized = λ a.
        push-other k head reg none (heads a) (lists a) (off.of_sized a)
          (λ i e.
            not_has v (lists a) i
              (λ h. sized_not_empty v a i h (Chain-has k none head zeros i v.empties e)))
          (v.sized a);
    empties = push-Chain k head reg zeros off.of_empty v.once_empty v.empties;
    once = v.once;
    once_empty = (off.of_empty, v.once_empty);
    waiting = old-IsWaiting;
    emptied =
        put_case (λ m x. has (reg ∷ zeros) m ≡ true → IsEmptied x) regs reg r (λ on. w)
          (λ m other on. v.emptied m (ground (arith, on, other)));
    made = v.made;
    made_empty = λ q on. elim (ℕ_discrete reg q) [
      | yes same ↦ subst (λ m. m < n) same lt
      | no other ↦ v.made_empty q (ground (arith, on, other))
    ];
    listed = λ q ne begun kept.
        put_case (λ m x. x.aged ≢ 0 → x.aged ≢ 3 → has (lists x.order) m ≡ true) regs reg r
          (λ b c. absurd (c w.over)) (λ m other b c. v.listed m (only m other) b c) q begun kept;
    in_use = λ q.
        put_case (λ m x. x.set ≡ 1 → x.aged ≡ 0) regs reg r (λ e. absurd (w.unused e))
          (λ m other. v.in_use m) q;
    older =
        put_case (λ m x. IsAging x) regs reg r (λ a b. absurd (b w.over)) (λ m other. v.older m);
    unmade = λ q ge. subst IsUnmade (sym (update_ne regs r (λ e. omega arith))) (v.unmade q ge);
    blocks = blocks;
  }
