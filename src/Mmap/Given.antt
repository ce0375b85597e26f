-- ===== src/Mmap/Given.antt =====
-- region.h `newmpregion`: a region that is not in use, with enough memory or none.
use yalloc.Base.{
  ℕ, ◌+◌, ◌-◌, ◌%◌, ◌^◌, ◌≤◌, Option, none, some, List, Bool, refl, true, false, ◌&&◌, ◌||◌, not,
  ltb, leb, ◌==◌, arith, ◌≡◌, ◌≢◌, ◌⊎◌, inl, inr, Bool-cases, update, update_self, update_ne, sym,
  subst, ap, ◌∙◌,
}
use yalloc.Word.{clzl}
use yalloc.SizeClass.Popular.{mmap_limit}
use yalloc.Mmap.State.{vmbits, rnone, MpRegion, MpHeap, Sys}
use yalloc.Mmap.New.{fresh_region, reused, refill, reuse_region, new_chosen, newmpregion}
use yalloc.Mmap.Valid.{Apart, IsBlocks, IsEmptied, IsOrdered, put-IsMp}
use yalloc.Mmap.Memory.{IsMapped, same-IsBlocks, mapped-IsBlocks}
use yalloc.Mmap.Lists.{cut-IsMp}
use yalloc.Mmap.Chosen.{Chosen, ChosenOut, choose_region-Chosen}
use yalloc.Mmap.Fresh.{Ungiven, GivenOut, whole-IsMp, other, fresh-Given}

module _ (sys : Sys) (hb : MpHeap) (lists : ℕ → List ℕ) (zeros : List ℕ)
    (v : IsOrdered hb lists zeros) (len : ℕ) where
  module _ (reg order : ℕ) (hb' : MpHeap) (c : Chosen hb len reg hb') where
    abbrev old : MpRegion
    old = hb'.regs reg

    was : hb'.regs reg ≡ hb.regs reg
    was = ap (λ f. f reg) c.same

    abbrev cut : MpHeap
    cut = record hb' {
      links = record {
        frenxt = update hb'.links.frenxt reg none;
        freprv = update hb'.links.freprv reg none;
      };
      stat = record (hb'.stat) { usempregions = hb'.stat.usempregions + 1 };
    }

    -- The region, written for its new use.
    reused-Given :
        (r : MpRegion)
        → (hb.regs reg).set ≢ 1
        → r.set ≡ 2
        → (r.len ≡ 0) ⊎ (len ≤ r.len)
        → IsBlocks (update hb'.regs reg (record r { age = 0; aged = 0; typ = rnone }))
        → GivenOut hb len (reused cut reg r)
    reused-Given r unused free room blocks =
        let r' : MpRegion = record r { age = 0; aged = 0; typ = rnone } in
        let at = update_self hb'.regs reg r' in
        record {
          lists = c.lists;
          zeros = c.zeros;
          ordered =
              put-IsMp (cut-IsMp c.ordered reg c.off) reg r' c.off c.lt
                (λ q ne. other reg q (λ e. ne (sym e))) (inl refl) (λ h. absurd (h refl)) blocks;
          lt = c.lt;
          unused = unused;
          free = ap (λ x. x.set) at ∙ free;
          young = ap (λ x. x.aged) at;
          unaged = ap (λ x. x.age) at;
          others = λ q ne. update_ne hb'.regs r' ne ∙ ap (λ f. f q) c.same;
          room = subst (λ x. (x.len ≡ 0) ⊎ (len ≤ x.len)) (sym at) room;
        }

    refill-Given :
        IsEmptied (hb.regs reg)
        → (o : Option ℕ) → IsMapped hb.regs len o
        → GivenOut hb len (refill cut reg len order o)
    refill-Given w none mapped = record {
      lists = c.lists;
      zeros = c.zeros;
      ordered = whole-IsMp (cut-IsMp c.ordered reg c.off) (ap (λ x. x.aged) was ∙ w.over);
      same = c.same;
    }
    refill-Given w (some user) (block, apart) =
        let test : (user % 2 ^ 12 == 0) ≡ true = ground (arith, block.aligned) in
        let r : MpRegion = record old {
          user = user;
          len = len;
          order = order;
          clr = 0;
          real = 0;
          set = 2;
        } in
        rw test (
          reused-Given r w.unused refl (inr (omega arith)) (
            mapped-IsBlocks hb'.regs c.ordered.blocks reg _ block (λ q ne hq.
              subst (λ f. Apart user len (f q).user (f q).len) (sym c.same)
                (apart q (subst (λ f. (f q).len ≢ 0) c.same hq)))))

    reuse-Given :
        IsMapped hb.regs len (sys.osmmap len) → GivenOut hb len (reuse_region sys hb' reg len order)
    unfolding reuse_region
    reuse-Given mapped = elim c.fits [
      | inl (le, some_len, free) ↦
          let test : ((hb'.regs reg).len == 0) ≡ false =
            ground (arith, ap (λ x. x.len) was, some_len) in
          rw test (
            reused-Given (record old { gen = old.gen + 1; clr = 1 }) (λ e. omega (arith, free, e))
              (ap (λ x. x.set) was ∙ free) (inr (subst (λ x. len ≤ x.len) (sym was) le))
              (same-IsBlocks hb'.regs c.ordered.blocks reg _ refl refl))
      | inr w ↦
          let test : ((hb'.regs reg).len == 0) ≡ true =
            ground (arith, ap (λ x. x.len) was, w.no_len) in
          rw test (refill-Given w (sys.osmmap len) mapped)
    ]

  new_chosen-Given :
      (order : ℕ) (out : Option ℕ × MpHeap)
      → ChosenOut hb len out
      → IsMapped hb.regs len (sys.osmmap len)
      → GivenOut hb len (new_chosen sys len order out)
  new_chosen-Given order (none, hb') same mapped =
      subst (λ h. GivenOut hb len (fresh_region sys h order)) (sym same)
        (fresh-Given sys hb lists zeros v len order)
  new_chosen-Given order (some reg, hb') c mapped = reuse-Given reg order hb' c mapped

  unchanged : Ungiven hb hb
  unchanged = record { lists = lists; zeros = zeros; ordered = v; same = refl }

  -- newmpregion() gives a region that was not in use.
  pub newmpregion-Given :
      (is_allocal : Bool)
      → IsMapped hb.regs len (sys.osmmap len)
      → GivenOut hb len (newmpregion sys hb len is_allocal)
  unfolding newmpregion
  newmpregion-Given is_allocal mapped = elim (Bool-cases (ltb len mmap_limit && not is_allocal)) [
    | inl small ↦ rw small unchanged
    | inr large ↦ elim (Bool-cases (ltb (64 - clzl len) 12 || leb vmbits (64 - clzl len))) [
      | inl far ↦ rw (large, far) unchanged
      | inr near ↦
          rw (large, near)
            (new_chosen-Given (64 - clzl len) _
              (choose_region-Chosen hb lists zeros v len (64 - clzl len)) mapped)
    ]
  ]
