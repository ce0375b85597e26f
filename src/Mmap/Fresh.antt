-- ===== src/Mmap/Fresh.antt =====
-- region.h `newmpregion`: a region that is new.
use yalloc.Base.{
  ℕ, ◌+◌, ◌*◌, ◌≤◌, ◌<◌, Option, none, some, List, refl, ◌==◌, arith, ◌≡◌, ◌≢◌, ◌⊎◌, inl, inr,
  Bool-cases, update, update_self, update_ne, subst, ap, ◌∙◌,
}
use yalloc.FreeList.{Links}
use yalloc.Mmap.State.{MpRegion, MpHeap, Sys, MpOut}
use yalloc.Mmap.New.{
  newmpregmem, is_mmap, enlist_after, enlist, fresh_enlisted, fresh_at, fresh_region,
}
use yalloc.Mmap.Valid.{IsMp, IsOrdered, put-IsMp, off_lem}
use yalloc.Mmap.Memory.{same-IsBlocks}

-- `reg` was not in use, and is given as free; the other regions are as before.
pub record Given (hb : MpHeap) (len reg : ℕ) (hb' : MpHeap) : Type 0 where
  pub lists : ℕ → List ℕ
  pub zeros : List ℕ
  pub ordered : IsOrdered hb' lists zeros
  pub lt : reg < hb'.stat.newmpregions
  pub unused : (hb.regs reg).set ≢ 1
  pub free : (hb'.regs reg).set ≡ 2
  pub young : (hb'.regs reg).aged ≡ 0
  pub unaged : (hb'.regs reg).age ≡ 0
  pub others : (q : ℕ) → reg ≢ q → hb'.regs q ≡ hb.regs q
  pub room : ((hb'.regs reg).len ≡ 0) ⊎ (len ≤ (hb'.regs reg).len)

-- No region: all are as before.
pub record Ungiven (hb hb' : MpHeap) : Type 0 where
  pub lists : ℕ → List ℕ
  pub zeros : List ℕ
  pub ordered : IsOrdered hb' lists zeros
  pub same : hb'.regs ≡ hb.regs

abbrev pub GivenOut : MpHeap → ℕ → MpOut (Option ℕ) → Type 0
GivenOut hb len (some reg, hb', log) = Given hb len reg hb'
GivenOut hb len (none, hb', log) = Ungiven hb hb'

-- One number more is taken.
grow-IsMp :
    {regs : ℕ → MpRegion} {k : Links} {heads : ℕ → Option ℕ} {head : Option ℕ} {n : ℕ}
    {but : Option ℕ} {lists : ℕ → List ℕ} {zeros : List ℕ}
    → IsMp regs k heads head n but lists zeros
    → IsMp regs k heads head (n + 1) but lists zeros
grow-IsMp v = record {
  sized = v.sized;
  empties = v.empties;
  once = v.once;
  once_empty = v.once_empty;
  waiting = v.waiting;
  emptied = v.emptied;
  made = λ ord r on. omega (arith, v.made ord r on);
  made_empty = λ r on. omega (arith, v.made_empty r on);
  listed = v.listed;
  in_use = v.in_use;
  older = v.older;
  unmade = λ r ge. v.unmade r (omega arith);
  blocks = v.blocks;
}

-- A region that gave its memory back is on no list to wait.
pub whole-IsMp :
    {regs : ℕ → MpRegion} {k : Links} {heads : ℕ → Option ℕ} {head : Option ℕ} {n reg : ℕ}
    {lists : ℕ → List ℕ} {zeros : List ℕ}
    → IsMp regs k heads head n (some reg) lists zeros
    → (regs reg).aged ≡ 3
    → IsMp regs k heads head n none lists zeros
whole-IsMp {regs} {reg = reg} v over = record {
  sized = v.sized;
  empties = v.empties;
  once = v.once;
  once_empty = v.once_empty;
  waiting = v.waiting;
  emptied = v.emptied;
  made = v.made;
  made_empty = v.made_empty;
  listed = λ r ne begun kept.
      v.listed r (λ e. kept (subst (λ q. (regs q).aged ≡ 3) (ground (arith, e)) over)) begun kept;
  in_use = v.in_use;
  older = v.older;
  unmade = v.unmade;
  blocks = v.blocks;
}

pub other : (reg q : ℕ) → ◌≢◌ {A = ℕ} reg q → ◌≢◌ {A = Option ℕ} (some reg) (some q)
other reg q ne e = ne (ground (arith, e))

module _ (sys : Sys) (hb : MpHeap) (lists : ℕ → List ℕ) (zeros : List ℕ)
    (v : IsOrdered hb lists zeros) (len : ℕ) where
  abbrev counted : MpHeap
  counted = record hb { stat = record (hb.stat) { newmpregions = hb.stat.newmpregions + 1 } }

  -- The heap once memory for the region is there, or not.
  abbrev Counted : Option ℕ × MpHeap → Type 0
  Counted (o, hb') =
      IsOrdered hb' lists zeros
      × (hb'.regs ≡ hb.regs)
      × (hb'.stat.newmpregions ≡ hb.stat.newmpregions + 1)

  newmpregmem-Counted : Counted (newmpregmem sys counted)
  unfolding newmpregmem
  newmpregmem-Counted = elim (Bool-cases (hb.xregmem_pos == 64 * 4)) [
    | inr more ↦ rw more (grow-IsMp v, refl, refl)
    | inl full ↦ rw full (go (sys.osmem (64 * 4 * 128)))
  ]
    where
      go :
          (o : Option ℕ)
          → Counted (elim o [
            | none ↦ (
              none,
              record counted { stat = record (counted.stat) { mmaps = hb.stat.mmaps + 1 } },
            )
            | some reg ↦ (
              some reg,
              record counted {
                stat = record (counted.stat) { mmaps = hb.stat.mmaps + 1 };
                xregmem = reg;
                xregmem_pos = 1;
              },
            )
          ])
      go none = (grow-IsMp v, refl, refl)
      go (some reg) = (grow-IsMp v, refl, refl)

  -- A region that was never handed out.
  fresh_put :
      (order : ℕ) (hb' : MpHeap)
      → IsOrdered hb' lists zeros
      → hb'.regs ≡ hb.regs
      → hb'.stat.newmpregions ≡ hb.stat.newmpregions + 1
      → GivenOut hb len (fresh_enlisted hb.stat.newmpregions order hb' (some hb'))
  fresh_put order hb' v' same n =
      let reg = hb.stat.newmpregions in
      let u = v.unmade reg (omega arith) in
      let old : hb'.regs reg ≡ hb.regs reg = ap (λ f. f reg) same in
      let r : MpRegion = record (hb'.regs reg) { order = order; age = 0; aged = 0; set = 2 } in
      let at = update_self hb'.regs reg r in
      record {
        lists = lists;
        zeros = zeros;
        ordered =
            put-IsMp v' reg r (off_lem v' reg (ap (λ x. x.aged) old ∙ u.young)) (omega (arith, n))
              (λ q ne e. cc) (inl refl) (λ h. absurd (h refl))
              (same-IsBlocks hb'.regs v'.blocks reg r refl refl);
        lt = omega (arith, n);
        unused = λ e. omega (arith, u.unset, e);
        free = ap (λ x. x.set) at;
        young = ap (λ x. x.aged) at;
        unaged = ap (λ x. x.age) at;
        others = λ q ne. update_ne hb'.regs r ne ∙ ap (λ f. f q) same;
        room = inl (ap (λ x. x.len) at ∙ (ap (λ x. x.len) old ∙ u.nothing));
      }

  fresh-out :
      (order : ℕ) (out : Option ℕ × MpHeap)
      → Counted out
      → GivenOut hb len (fresh_at hb.stat.newmpregions order out)
  fresh-out order (none, hb') (v', same, n) = record {
    lists = lists;
    zeros = zeros;
    ordered = v';
    same = same;
  }
  fresh-out order (some at, hb') (v', same, n) = start hb'.mpreglst
    where
      refused : GivenOut hb len (fresh_enlisted hb.stat.newmpregions order hb' none)
      refused = record { lists = lists; zeros = zeros; ordered = v'; same = same }

      after :
          (o : Option ℕ)
          → GivenOut hb len (
              fresh_enlisted hb.stat.newmpregions order hb'
                (enlist_after hb' hb.stat.newmpregions o))
      after none = refused
      after (some preg) = elim (Bool-cases (is_mmap (hb'.regs preg).typ)) [
        | inl ok ↦ rw ok (
            fresh_put order
              (record hb' {
                nxt = update hb'.nxt preg (some hb.stat.newmpregions);
                mpregprv = some hb.stat.newmpregions;
              })
              v' same n)
        | inr bad ↦ rw bad refused
      ]

      start :
          (o : Option ℕ)
          → GivenOut hb len
              (fresh_enlisted hb.stat.newmpregions order hb' (enlist hb' hb.stat.newmpregions o))
      start none =
          fresh_put order
            (record hb' {
              mpreglst = some hb.stat.newmpregions;
              mpregtrim = some hb.stat.newmpregions;
              mpregprv = some hb.stat.newmpregions;
            })
            v' same n
      start (some first) = after hb'.mpregprv

  pub fresh-Given : (order : ℕ) → GivenOut hb len (fresh_region sys hb order)
  unfolding fresh_region
  fresh-Given order = fresh-out order (newmpregmem sys counted) newmpregmem-Counted
