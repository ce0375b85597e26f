-- ===== src/Mmap/Valid.antt =====
-- The regions for large blocks of a heap in order.
use native.Mathlib.Decide.{ℕ_discrete}
use yalloc.Base.{
  ℕ, ◌+◌, ◌%◌, ◌^◌, ◌≤◌, ◌<◌, Option, none, some, List, Bool, refl, true, false, arith, ◌≡◌, ◌≢◌,
  ◌⊎◌, update, update_self, update_ne, sym, subst,
}
use yalloc.FreeList.{Links}
use yalloc.FreeList.Chain.{has, IsDistinct, Chain}
use yalloc.Mmap.State.{MpRegion, MpHeap}

-- Two blocks share no byte.
abbrev pub Apart : ℕ → ℕ → ℕ → ℕ → Type 0
Apart a len b len' = (a + len ≤ b) ⊎ (b + len' ≤ a)

-- A block of whole pages in the address space, not on the first page.
pub record IsBlock (user len : ℕ) : Type 0 where
  pub aligned : user % 2 ^ 12 ≡ 0
  pub whole : len % 2 ^ 12 ≡ 0
  pub above : 2 ^ 12 ≤ user
  pub below : user + len ≤ 2 ^ 48

-- The regions that have memory have blocks that lie apart.
pub record IsBlocks (regs : ℕ → MpRegion) : Type 0 where
  pub block : (r : ℕ) → (regs r).len ≢ 0 → IsBlock (regs r).user (regs r).len
  pub apart :
      (q r : ℕ)
      → q ≢ r
      → (regs q).len ≢ 0
      → (regs r).len ≢ 0
      → Apart (regs q).user (regs q).len (regs r).user (regs r).len

-- A region on the list of the order `ord`.
pub record IsWaiting (ord : ℕ) (r : MpRegion) : Type 0 where
  pub at_order : r.order ≡ ord
  pub free : r.set ≡ 2
  pub some_len : r.len ≢ 0
  pub begun : r.aged ≢ 0
  pub kept : r.aged ≢ 3

-- A region on the list of those without memory.
pub record IsEmptied (r : MpRegion) : Type 0 where
  pub no_len : r.len ≡ 0
  pub unused : r.set ≢ 1
  pub over : r.aged ≡ 3

-- A region that was not handed out yet.
pub record IsUnmade (r : MpRegion) : Type 0 where
  pub nothing : r.len ≡ 0
  pub young : r.aged ≡ 0
  pub unset : r.set ≡ 0

-- A region that grows older, and has not given its memory back, is free.
abbrev pub IsAging : MpRegion → Type 0
IsAging r = r.age ≢ 0 → r.aged ≢ 3 → (r.set ≡ 2) × (r.len ≢ 0)

-- The free lists are `lists`, by order, and `zeros`; each region that waits is on its list, but one that
-- was just taken off.
pub record IsMp (regs : ℕ → MpRegion) (k : Links) (heads : ℕ → Option ℕ) (head : Option ℕ) (n : ℕ)
    (but : Option ℕ) (lists : ℕ → List ℕ) (zeros : List ℕ) : Type 0 where
  pub sized : (ord : ℕ) → Chain k none (heads ord) (lists ord)
  pub empties : Chain k none head zeros
  pub once : (ord : ℕ) → IsDistinct (lists ord)
  pub once_empty : IsDistinct zeros
  pub waiting : (ord r : ℕ) → has (lists ord) r ≡ true → IsWaiting ord (regs r)
  pub emptied : (r : ℕ) → has zeros r ≡ true → IsEmptied (regs r)
  pub made : (ord r : ℕ) → has (lists ord) r ≡ true → r < n
  pub made_empty : (r : ℕ) → has zeros r ≡ true → r < n
  pub listed :
      (r : ℕ)
      → but ≢ some r
      → (regs r).aged ≢ 0
      → (regs r).aged ≢ 3
      → has (lists (regs r).order) r ≡ true
  pub in_use : (r : ℕ) → (regs r).set ≡ 1 → (regs r).aged ≡ 0
  pub older : (r : ℕ) → IsAging (regs r)
  pub unmade : (r : ℕ) → n ≤ r → IsUnmade (regs r)
  pub blocks : IsBlocks regs

-- A region is on no list.
pub record IsOff (lists : ℕ → List ℕ) (zeros : List ℕ) (r : ℕ) : Type 0 where
  pub of_sized : (ord : ℕ) → has (lists ord) r ≡ false
  pub of_empty : has zeros r ≡ false

-- The heap in order.
abbrev pub IsOrdered : MpHeap → (ℕ → List ℕ) → List ℕ → Type 0
IsOrdered hb lists zeros =
    IsMp hb.regs hb.links hb.freempregs hb.freemp0regs hb.stat.newmpregions none lists zeros

-- What is neither waiting nor emptied is on no list.
pub off_lem :
    {regs : ℕ → MpRegion} {k : Links} {heads : ℕ → Option ℕ} {head : Option ℕ} {n : ℕ}
    {but : Option ℕ} {lists : ℕ → List ℕ} {zeros : List ℕ}
    → IsMp regs k heads head n but lists zeros
    → (r : ℕ) → (regs r).aged ≡ 0
    → IsOff lists zeros r
off_lem {lists = lists} {zeros} v r e = record {
  of_sized = λ ord. out (has (lists ord) r) (λ on. (v.waiting ord r on).begun e);
  of_empty = out (has zeros r) (λ on. omega (arith, (v.emptied r on).over, e));
}
  where
    out : (b : Bool) → (b ≡ true → ⊥) → b ≡ false
    out true never = absurd (never refl)
    out false never = refl

-- A region in use does not grow older.
pub in_use_age :
    {regs : ℕ → MpRegion} {k : Links} {heads : ℕ → Option ℕ} {head : Option ℕ} {n : ℕ}
    {but : Option ℕ} {lists : ℕ → List ℕ} {zeros : List ℕ}
    → IsMp regs k heads head n but lists zeros
    → (r : ℕ) → (regs r).set ≡ 1
    → (regs r).age ≡ 0
in_use_age {regs} v r used = elim (ℕ_discrete (regs r).age 0) [
  | yes e ↦ e
  | no ne ↦ absurd (omega (arith, (v.older r ne (λ e. omega (arith, v.in_use r used, e))).0, used))
]

-- A region that is on no list changes, and does not begin to wait.
pub put-IsMp :
    {regs : ℕ → MpRegion} {k : Links} {heads : ℕ → Option ℕ} {head : Option ℕ} {n : ℕ}
    {but : Option ℕ} {lists : ℕ → List ℕ} {zeros : List ℕ}
    → IsMp regs k heads head n but lists zeros
    → (reg : ℕ) (r : MpRegion) → IsOff lists zeros reg
    → reg < n
    → ((q : ℕ) → q ≢ reg → but ≢ some q)
    → ((r.aged ≡ 0) ⊎ ((r.aged ≡ 3) × (r.set ≢ 1)))
    → IsAging r
    → IsBlocks (update regs reg r)
    → IsMp (update regs reg r) k heads head n none lists zeros
put-IsMp {regs} {but = but} {lists} {zeros} v reg r off lt only idle aging blocks = record {
  sized = v.sized;
  empties = v.empties;
  once = v.once;
  once_empty = v.once_empty;
  waiting = λ ord q on.
      subst (IsWaiting ord) (sym (other q (λ e. ground (arith, off.of_sized ord, on, e))))
        (v.waiting ord q on);
  emptied = λ q on.
      subst IsEmptied (sym (other q (λ e. ground (arith, off.of_empty, on, e)))) (v.emptied q on);
  made = v.made;
  made_empty = v.made_empty;
  listed = λ q ne begun kept. elim (ℕ_discrete reg q) [
    | yes e ↦ absurd (aged_out q e begun kept)
    | no ne' ↦
        subst (λ x. has (lists x.order) q ≡ true) (sym (other q ne'))
          (v.listed q (only q (λ e. ne' (sym e))) (rw (other q ne') at begun)
            (rw (other q ne') at kept))
  ];
  in_use = λ q used. elim (ℕ_discrete reg q) [
    | yes e ↦ ground (arith, idle, used)
    | no ne ↦
        subst (λ x. x.aged ≡ 0) (sym (other q ne))
          (v.in_use q (subst (λ x. x.set ≡ 1) (other q ne) used))
  ];
  older = λ q. elim (ℕ_discrete reg q) [
    | yes e ↦
        subst (λ m. IsAging (update regs reg r m)) e
          (subst IsAging (sym (update_self regs reg r)) aging)
    | no ne ↦ subst IsAging (sym (other q ne)) (v.older q)
  ];
  unmade = λ q ge. subst IsUnmade (sym (other q (λ e. omega arith))) (v.unmade q ge);
  blocks = blocks;
}
  where
    other : (q : ℕ) → (reg ≡ q → ⊥) → update regs reg r q ≡ regs q
    other q ne = update_ne regs r ne

    aged_out :
        (q : ℕ) → reg ≡ q → (update regs reg r q).aged ≢ 0 → (update regs reg r q).aged ≢ 3 → ⊥
    aged_out q e begun kept = ground (arith, idle, begun, kept, e)
