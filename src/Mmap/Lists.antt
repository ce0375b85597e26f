-- ===== src/Mmap/Lists.antt =====
-- The free lists when a region is taken off or put on.
use native.Mathlib.Decide.{ℕ_discrete}
use yalloc.Base.{
  ℕ, Option, none, some, List, refl, true, false, arith, ◌≡◌, ◌≢◌, inl, inr, Bool-cases, update,
  update_self, update_ne, sym, subst, ap, ◌∙◌,
}
use yalloc.FreeList.{Links, unlink, unlink_head}
use yalloc.FreeList.Chain.{has, IsDistinct, remove, Chain, Chain-nxt, Chain-prv}
use yalloc.FreeList.Unlink.{
  has-remove, remove-IsDistinct, next-has, prev-has, unlink-Chain, unlink-other,
}
use yalloc.Mmap.State.{MpRegion}
use yalloc.Mmap.Valid.{IsMp, IsOff}

module _ {regs : ℕ → MpRegion} {k : Links} {heads : ℕ → Option ℕ} {head : Option ℕ} {n : ℕ}
    {but : Option ℕ} {lists : ℕ → List ℕ} {zeros : List ℕ}
    (v : IsMp regs k heads head n but lists zeros) where
  -- A region is on one list at most.
  pub one_order : (a b r : ℕ) → has (lists a) r ≡ true → has (lists b) r ≡ true → a ≡ b
  one_order a b r on on' = sym (v.waiting a r on).at_order ∙ (v.waiting b r on').at_order

  pub sized_not_empty : (ord r : ℕ) → has (lists ord) r ≡ true → has zeros r ≡ true → ⊥
  sized_not_empty ord r on on' = (v.waiting ord r on).some_len (v.emptied r on').no_len

  pub not_has : (l : List ℕ) (r : ℕ) → (has l r ≡ true → ⊥) → has l r ≡ false
  not_has l r never = elim (Bool-cases (has l r)) [ inl on ↦ absurd (never on) | inr off ↦ off ]

  module _ (ord reg : ℕ) (on : has (lists ord) reg ≡ true) where
    abbrev lists' : ℕ → List ℕ
    lists' = update lists ord (remove reg (lists ord))

    fewer : (a r : ℕ) → has (lists' a) r ≡ true → (has (lists a) r ≡ true) × (r ≢ reg)
    fewer a r h = elim (ℕ_discrete ord a) [
      | yes e ↦
          let h' : has (remove reg (lists ord)) r ≡ true =
            subst (λ l. has l r ≡ true)
              (subst (λ b. lists' b ≡ remove reg (lists ord)) e (update_self lists ord _)) h in
          let was = has-remove reg (lists ord) r (v.once ord) in
          (
            subst (λ b. has (lists b) r ≡ true) e (ground (arith, h', was)),
            λ e'. ground (arith, h', was, e'),
          )
      | no ne ↦
          let h' : has (lists a) r ≡ true = rw (update_ne lists (remove reg (lists ord)) ne) at h in
          (h', λ e'. ne (one_order ord a reg on (subst (λ b. has (lists a) b ≡ true) e' h')))
    ]

    next_on : (i : ℕ) → k.frenxt reg ≡ some i → has (lists ord) i ≡ true
    next_on i e = next-has k none (heads ord) (lists ord) reg i (v.sized ord) on e

    prev_on : (i : ℕ) → k.freprv reg ≡ some i → has (lists ord) i ≡ true
    prev_on i e = prev-has k (heads ord) (lists ord) reg i (v.sized ord) on e

    abbrev heads' : ℕ → Option ℕ
    heads' = update heads ord (unlink_head k (heads ord) reg)

    take_sized-Chain : (a : ℕ) → Chain (unlink k reg) none (heads' a) (lists' a)
    take_sized-Chain a = elim (ℕ_discrete ord a) [
      | yes e ↦
          subst (λ b. Chain (unlink k reg) none (heads' b) (lists' b)) e
            (subst (λ h. Chain (unlink k reg) none h (lists' ord)) (sym (update_self heads ord _))
              (subst (λ l. Chain (unlink k reg) none (unlink_head k (heads ord) reg) l)
                (sym (update_self lists ord _))
                (unlink-Chain k reg (heads ord) (lists ord) (v.once ord) on (v.sized ord))))
      | no ne ↦
          subst (λ h. Chain (unlink k reg) none h (lists' a)) (sym (update_ne heads _ ne))
            (subst (λ l. Chain (unlink k reg) none (heads a) l) (sym (update_ne lists _ ne))
              (unlink-other k reg none (heads a) (lists a)
                (λ i e. not_has (lists a) i (λ h. ne (one_order ord a i (next_on i e) h)))
                (λ i e. not_has (lists a) i (λ h. ne (one_order ord a i (prev_on i e) h)))
                (v.sized a)))
    ]

    take_empty-Chain : Chain (unlink k reg) none head zeros
    take_empty-Chain =
        unlink-other k reg none head zeros
          (λ i e. not_has zeros i (sized_not_empty ord i (next_on i e)))
          (λ i e. not_has zeros i (sized_not_empty ord i (prev_on i e))) v.empties

    take-once : (a : ℕ) → IsDistinct (lists' a)
    take-once a = elim (ℕ_discrete ord a) [
      | yes e ↦
          subst (λ b. IsDistinct (lists' b)) e
            (subst IsDistinct (sym (update_self lists ord _))
              (remove-IsDistinct reg (lists ord) (v.once ord)))
      | no ne ↦ subst IsDistinct (sym (update_ne lists _ ne)) (v.once a)
    ]

    stays : (a r : ℕ) → reg ≢ r → has (lists a) r ≡ true → has (lists' a) r ≡ true
    stays a r ne h = elim (ℕ_discrete ord a) [
      | yes e ↦
          let h' : has (lists ord) r ≡ true = subst (λ b. has (lists b) r ≡ true) (sym e) h in
          subst (λ b. has (lists' b) r ≡ true) e
            (subst (λ l. has l r ≡ true) (sym (update_self lists ord _))
              (ground (arith, has-remove reg (lists ord) r (v.once ord), h', ne)))
      | no ne' ↦ subst (λ l. has l r ≡ true) (sym (update_ne lists _ ne')) h
    ]

    -- A region leaves the list of its size.
    pub take-IsMp :
        ((r : ℕ) → but ≢ some r) → IsMp regs (unlink k reg) heads' head n (some reg) lists' zeros
    take-IsMp all = record {
      sized = take_sized-Chain;
      empties = take_empty-Chain;
      once = take-once;
      once_empty = v.once_empty;
      waiting = λ a r h. v.waiting a r ((fewer a r h).0);
      emptied = v.emptied;
      made = λ a r h. v.made a r ((fewer a r h).0);
      made_empty = v.made_empty;
      listed = λ r ne begun kept.
          stays (regs r).order r (λ e. ne (ap some e)) (v.listed r (all r) begun kept);
      in_use = v.in_use;
      older = v.older;
      unmade = v.unmade;
      blocks = v.blocks;
    }

    pub take-IsOff : IsOff lists' zeros reg
    take-IsOff = record {
      of_sized = λ a. not_has (lists' a) reg (λ h. (fewer a reg h).1 refl);
      of_empty = not_has zeros reg (sized_not_empty ord reg on);
    }

  module _ (reg : ℕ) (on : has zeros reg ≡ true) where
    -- A region leaves the list of those without memory.
    pub drop-IsMp :
        ((r : ℕ) → but ≢ some r)
        → IsMp regs
            (unlink k reg)
            heads
            (unlink_head k head reg)
            n
            (some reg)
            lists
            (remove reg zeros)
    drop-IsMp all = record {
      sized = λ a.
          unlink-other k reg none (heads a) (lists a)
            (λ i e.
              not_has (lists a) i
                (λ h. sized_not_empty a i h (next-has k none head zeros reg i v.empties on e)))
            (λ i e.
              not_has (lists a) i
                (λ h. sized_not_empty a i h (prev-has k head zeros reg i v.empties on e)))
            (v.sized a);
      empties = unlink-Chain k reg head zeros v.once_empty on v.empties;
      once = v.once;
      once_empty = remove-IsDistinct reg zeros v.once_empty;
      waiting = v.waiting;
      emptied = λ r h. v.emptied r (less r h);
      made = v.made;
      made_empty = λ r h. v.made_empty r (less r h);
      listed = λ r ne begun kept. v.listed r (all r) begun kept;
      in_use = v.in_use;
      older = v.older;
      unmade = v.unmade;
      blocks = v.blocks;
    }
      where
        less : (r : ℕ) → has (remove reg zeros) r ≡ true → has zeros r ≡ true
        less r h = ground (arith, has-remove reg zeros r v.once_empty, h)

    pub drop-IsOff : IsOff lists (remove reg zeros) reg
    drop-IsOff = record {
      of_sized = λ a. not_has (lists a) reg (λ h. sized_not_empty a reg h on);
      of_empty = ground (arith, has-remove reg zeros reg v.once_empty);
    }

  module _ (reg : ℕ) (off : IsOff lists zeros reg) where
    -- The links of a region that is on no list are written.
    pub cut-IsMp :
        IsMp regs
          (record { frenxt = update k.frenxt reg none; freprv = update k.freprv reg none })
          heads
          head
          n
          but
          lists
          zeros
    cut-IsMp = record {
      sized = λ a. cut (heads a) (lists a) (off.of_sized a) (v.sized a);
      empties = cut head zeros off.of_empty v.empties;
      once = v.once;
      once_empty = v.once_empty;
      waiting = v.waiting;
      emptied = v.emptied;
      made = v.made;
      made_empty = v.made_empty;
      listed = v.listed;
      in_use = v.in_use;
      older = v.older;
      unmade = v.unmade;
      blocks = v.blocks;
    }
      where
        cut :
            (h : Option ℕ) (l : List ℕ)
            → has l reg ≡ false
            → Chain k none h l
            → Chain
                (record { frenxt = update k.frenxt reg none; freprv = update k.freprv reg none })
                none
                h
                l
        cut h l out c =
            Chain-prv (record k { frenxt = update k.frenxt reg none }) reg none none h l out
              (Chain-nxt k reg none none h l out c)
