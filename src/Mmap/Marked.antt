-- ===== src/Mmap/Marked.antt =====
-- free.h `free_mmap`: a region that was marked free, and where it goes from there.
use native.Mathlib.Decide.{ℕ_discrete}
use yalloc.Base.{
  ℕ, ◌+◌, ◌-◌, ◌%◌, ◌^◌, ◌<◌, none, some, List, [], ◌∷◌, ◌++◌, Bool, refl, true, false, ◌&&◌, not,
  ◌==◌, arith, ◌≡◌, ◌≢◌, ◌⊎◌, inl, inr, update, update_self, update_ne, sym, subst, ap, ◌∙◌,
}
use yalloc.Directory.Tree.{Dirs}
use yalloc.Directory.Find.{find_reg}
use yalloc.Directory.Set.{setregion}
use yalloc.Mmap.State.{MpRegion, MpHeap, Sys, MpDiag, double_free, MpOut, mp_id, put_reg}
use yalloc.Mmap.Free.{forget, release, recycle}
use yalloc.Mmap.Valid.{IsBlock, IsOrdered, put-IsMp, off_lem, IsAging}
use yalloc.Mmap.Memory.{same-IsBlocks, empty-IsBlocks}
use yalloc.Mmap.Pushed.{wait-IsMp, empty-IsMp}
use yalloc.Mmap.Entered.{page-find_reg, page-find_none}

-- The region is free, and the others are as before.
pub record Freed (hb : MpHeap) (reg : ℕ) (hb' : MpHeap) : Type 0 where
  pub lists : ℕ → List ℕ
  pub zeros : List ℕ
  pub ordered : IsOrdered hb' lists zeros
  pub was : (hb.regs reg).set ≡ 1
  pub free : (hb'.regs reg).set ≡ 2
  pub others : (q : ℕ) → reg ≢ q → hb'.regs q ≡ hb.regs q

-- It can be used again: it is the first of a free list.
abbrev pub Listed : MpHeap → ℕ → Type 0
Listed hb' reg = (hb'.freempregs (hb'.regs reg).order ≡ some reg) ⊎ (hb'.freemp0regs ≡ some reg)

abbrev pub FreedOut : MpHeap → Bool → ℕ → MpOut Bool → Type 0
FreedOut hb local reg (true, hb', log) =
    ((hb' ≡ hb) × (log ≡ double_free (hb.regs reg).set ∷ []) × ((hb.regs reg).set ≢ 1))
    ⊎ (Freed hb reg hb' × (log ≢ []))
FreedOut hb local reg (false, hb', log) =
    Freed hb reg hb'
    × (local ≡ true
        → Listed hb' reg
          × (find_reg hb'.dirs (hb.regs reg).user ≡ none)
          × (find_reg hb'.dirs ((hb.regs reg).user + (hb.regs reg).align) ≡ none))

-- What the check of `align` lets pass.
pub at_pages :
    (align : ℕ)
    → (not (align == 0) && not (align % 4096 == 0)) ≡ false
    → (align ≡ 0) ⊎ ((align % 2 ^ 12 ≡ 0) × (align ≢ 0))
at_pages align e = elim (ℕ_discrete align 0) [
  | yes z ↦ inl z
  | no ne ↦ inr (ground (arith, e, ne), ne)
]

pub append_some : (log : List MpDiag) (d : MpDiag) → ◌≢◌ (log ++ (d ∷ [])) []
append_some [] d e = cc
append_some (x ∷ log) d e = cc

module _ (sys : Sys) (memory : (n : ℕ) → sys.osmem n ≢ none) (hb : MpHeap) (reg : ℕ) where
  -- A region that was marked free, is not listed yet and is written once more.
  pub record Marked (hb₁ : MpHeap) : Type 0 where
    pub freed : Freed hb reg hb₁
    pub young : (hb₁.regs reg).aged ≡ 0
    pub aging : IsAging (hb₁.regs reg)
    pub lt : reg < hb₁.stat.newmpregions
    pub of_user : (hb₁.regs reg).user ≡ (hb.regs reg).user

  pub put-Marked :
      (hb₁ : MpHeap) (dirs : Dirs) (r : MpRegion)
      → Marked hb₁
      → r.aged ≡ 0
      → r.set ≡ 2
      → r.user ≡ (hb₁.regs reg).user
      → r.len ≡ (hb₁.regs reg).len
      → IsAging r
      → Marked (put_reg (record hb₁ { dirs = dirs }) reg r)
  put-Marked hb₁ dirs r m young free at_user of_len aging =
      let f = m.freed in
      let at = update_self hb₁.regs reg r in
      record {
        freed = record {
          lists = f.lists;
          zeros = f.zeros;
          ordered =
              put-IsMp f.ordered reg r (off_lem f.ordered reg m.young) m.lt (λ q ne e. cc)
                (inl young) aging (same-IsBlocks hb₁.regs f.ordered.blocks reg r at_user of_len);
          was = f.was;
          free = ap (λ x. x.set) at ∙ free;
          others = λ q ne. update_ne hb₁.regs r ne ∙ f.others q ne;
        };
        young = ap (λ x. x.aged) at ∙ young;
        aging = subst IsAging (sym at) aging;
        lt = m.lt;
        of_user = ap (λ x. x.user) at ∙ (at_user ∙ m.of_user);
      }

  -- The region goes to the list of its size.
  pub recycle-Freed :
      (hb₁ : MpHeap)
      → Marked hb₁
      → (hb₁.regs reg).len ≢ 0
      → Freed hb reg (recycle hb₁ reg) × Listed (recycle hb₁ reg) reg
  unfolding recycle
  recycle-Freed hb₁ m some_len =
      let f = m.freed in
      let r = hb₁.regs reg in
      let r' : MpRegion = record r { age = 2; aged = 1 } in
      let at = update_self hb₁.regs reg r' in
      (
        record {
          lists = _;
          zeros = f.zeros;
          ordered =
              wait-IsMp f.ordered reg (off_lem f.ordered reg m.young) m.lt (λ q ne e. cc) r'
                (same-IsBlocks hb₁.regs f.ordered.blocks reg r' refl refl) r.order
                (record {
                  at_order = refl;
                  free = f.free;
                  some_len = some_len;
                  begun = λ e. cc;
                  kept = λ e. cc;
                });
          was = f.was;
          free = ap (λ x. x.set) at ∙ f.free;
          others = λ q ne. update_ne hb₁.regs r' ne ∙ f.others q ne;
        },
        inl (
            subst (λ x. update hb₁.freempregs r.order (some reg) x.order ≡ some reg) (sym at)
              (update_self hb₁.freempregs r.order (some reg))),
      )

  -- Its memory goes back.
  pub release-Freed :
      (hb₁ : MpHeap) → Marked hb₁ → Freed hb reg (release hb₁ reg) × Listed (release hb₁ reg) reg
  unfolding release
  release-Freed hb₁ m =
      let f = m.freed in
      let r' : MpRegion = record (hb₁.regs reg) { len = 0; aged = 3 } in
      let at = update_self hb₁.regs reg r' in
      (
        record {
          lists = f.lists;
          zeros = reg ∷ f.zeros;
          ordered =
              empty-IsMp f.ordered reg (off_lem f.ordered reg m.young) m.lt (λ q ne e. cc) r'
                (empty-IsBlocks hb₁.regs f.ordered.blocks reg r' refl)
                (record { no_len = refl; unused = λ e. omega (arith, f.free, e); over = refl });
          was = f.was;
          free = ap (λ x. x.set) at ∙ f.free;
          others = λ q ne. update_ne hb₁.regs r' ne ∙ f.others q ne;
        },
        inr refl,
      )

  -- The addresses of the block lead nowhere.
  pub forget-find_reg :
      (dirs : Dirs) (r : MpRegion)
      → IsBlock r.user r.len
      → (r.align ≡ 0) ⊎ ((r.align % 2 ^ 12 ≡ 0) × (r.align ≢ 0))
      → r.align < r.len
      → (find_reg (forget sys dirs reg r) r.user ≡ none)
        × (find_reg (forget sys dirs reg r) (r.user + r.align) ≡ none)
  unfolding forget
  forget-find_reg dirs r b at_page inside =
      let first =
        page-find_reg sys.osmem memory dirs (mp_id reg) r.user r.len b (omega arith) false in
      elim at_page [
        | inl e ↦
            let test : (r.align == 0) ≡ true = ground arith in
            let same : r.user + r.align ≡ r.user = omega arith in
            rw test (
              first,
              subst
                  (λ a.
                    find_reg (setregion sys.osmem dirs (mp_id reg) r.user 4096 false).1 a ≡ none)
                  (sym same) first,
            )
        | inr (whole, some_align) ↦
            let test : (r.align == 0) ≡ false = ground arith in
            let b' : IsBlock (r.user + r.align) (r.len - r.align) = record {
              aligned = omega (arith, b.aligned);
              whole = omega (arith, b.whole);
              above = omega (arith, b.above);
              below = omega (arith, b.below);
            } in
            rw test (
              page-find_none sys.osmem (setregion sys.osmem dirs (mp_id reg) r.user 4096 false).1
                  (mp_id reg) (r.user + r.align) (r.len - r.align) r.user memory b' (omega arith)
                  (omega (arith, b.below)) first,
              page-find_reg sys.osmem memory
                  (setregion sys.osmem dirs (mp_id reg) r.user 4096 false).1 (mp_id reg)
                  (r.user + r.align) (r.len - r.align) b' (omega arith) false,
            )
      ]

  -- The addresses of the block, as they were.
  pub addresses :
      (dirs : Dirs) (r : MpRegion)
      → r.user ≡ (hb.regs reg).user
      → r.align ≡ (hb.regs reg).align
      → (find_reg dirs r.user ≡ none) × (find_reg dirs (r.user + r.align) ≡ none)
      → (find_reg dirs (hb.regs reg).user ≡ none)
        × (find_reg dirs ((hb.regs reg).user + (hb.regs reg).align) ≡ none)
  addresses dirs r at_user of_align (first, second) =
      (rw (← at_user) first, rw (← at_user, ← of_align) second)
