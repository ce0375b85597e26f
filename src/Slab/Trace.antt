-- ===== src/Slab/Trace.antt =====
-- slab.h: what a region goes through from its creation on, as a step relation. Blocks are handed out
-- and freed by the heap of the region in any order, frees of any cell included, and other heaps free
-- blocks and later hand their buffers in.
use yalloc.Base.{
  ℕ, zero, suc, ◌+◌, ◌*◌, ◌≤◌, ◌<◌, ◌≡◌, ◌≢◌, ◌⊎◌, refl, ◌^◌, Option, none, some, arith, Bool-cases,
  inl, inr, sym, ap, subst, ◌∙◌,
}
use yalloc.Slab.Region.{nocel, Region, HeapStat, Out}
use yalloc.Slab.Marks.{markfree}
use yalloc.Slab.Cells.{slab_newcel, slab_frecel}
use yalloc.Slab.Remote.Cels.{cels2rbin}
use yalloc.Slab.Remote.Move.{IsPending, cels2rbin_lem}
use yalloc.Slab.Blocks.{slab_newalcel}
use yalloc.Slab.Aligned.{AlignedOutcome, slab_newalcel-AlignedOutcome}
use yalloc.Slab.Count.{count}
use yalloc.Slab.Valid.{empty_remote, live, IsValid}
use yalloc.Slab.Free.{frecel-IsValid, frecel_dead}
use yalloc.Slab.New.{Outcome, newcel-Outcome}
use yalloc.Slab.Remote.Give.{given-IsValid}

-- A region as newslab() makes it, with its metadata all 0. One that is used again keeps its remote bin,
-- which is empty.
pub record IsFresh (reg : Region) : Type 0 where
  pub small : reg.celcnt < nocel
  pub no_inipos : reg.inipos ≡ 0
  pub no_bin : reg.binpos ≡ 0
  pub rembin : (reg.rembin ≡ none) ⊎ (0 < reg.rbinlen)
  pub no_rbin : reg.rbinpos ≡ 0
  pub no_marks : (c : ℕ) → reg.binset c ≡ 0
  pub room : reg.meta + (reg.binorg + reg.celcnt) * 4 ≤ reg.metautop

pub data Step : Region → Region → Type 0 where
  -- slab_newcel(), whatever it answers
  alloc : (reg : Region) → Step reg (slab_newcel reg).1
  -- slab_newalcel() for an alignment of `2 ^ k`, in a region with cells of a power of two in size
  alloc_aligned :
      (reg : Region) (k : ℕ)
      → reg.celord ≢ 0
      → reg.cellen ≡ 2 ^ reg.celord
      → reg.celcnt * reg.cellen + 2 ^ k ≤ 2 ^ 32
      → reg.user + 2 ^ 32 ≤ 2 ^ 64
      → Step reg (slab_newalcel reg (2 ^ k) reg.cellen).1
  -- slab_frecel() of any cell, a double free included
  free :
      (reg : Region) (hb : HeapStat) (cel : ℕ)
      → cel < reg.celcnt
      → Step reg (slab_frecel hb reg cel reg.celcnt).2
  -- the mark of slab_free_rheap(), on any cell
  mark : (reg : Region) (cel : ℕ) → cel < reg.celcnt → Step reg (markfree reg cel 3).1
  -- cels2rbin() of a buffer, whether there is memory for it or not
  hand_in :
      (reg : Region) (mem : ℕ → Option (ℕ → ℕ)) (cnt : ℕ) (bin : ℕ → ℕ)
      → IsPending reg cnt bin
      → 0 < cnt
      → reg.celcnt < 2 ^ 31
      → reg.rbininc ≤ 2 ^ 30
      → reg.remref + 1 < 2 ^ 32
      → Step reg (cels2rbin mem bin reg cnt).1

-- Any number of steps.
pub data Reaches (start : Region) : Region → Type 0 where
  here : Reaches start start
  step : {reg reg' : Region} → Reaches start reg → Step reg reg' → Reaches start reg'

fresh-IsValid : (reg : Region) → IsFresh reg → IsValid reg
unfolding count
fresh-IsValid reg f = record {
  small = f.small;
  inipos_le = omega (arith, f.no_inipos);
  fresh = λ c h. f.no_marks c;
  begun = λ c h. absurd (omega (arith, f.no_inipos));
  bin_list = record {
    started = λ i h. absurd (omega (arith, f.no_bin));
    status = λ i h. absurd (omega (arith, f.no_bin));
    distinct = λ i j h. absurd (omega (arith, f.no_bin));
  };
  bin_count = f.no_bin ∙ sym (no_count reg.celcnt);
  remote_list = empty_remote reg.rembin reg f.rembin f.no_rbin;
  remote_count = omega (arith, f.no_rbin);
  referred = λ h. absurd (omega (arith, f.no_rbin));
  room = f.room;
}
  where
    no_count : (n : ℕ) → count 2 n reg.binset ≡ 0
    no_count zero = refl
    no_count (suc n) = ground (arith, f.no_marks n, no_count n)

-- The region that slab_newcel() leaves is in order.
Outcome-IsValid :
    {reg : Region} (out : Out (Option ℕ)) → IsValid reg → Outcome reg out → IsValid out.1
Outcome-IsValid (some cel, reg', log) v (a, quiet) = a.valid
Outcome-IsValid (none, reg', log) v (full, same, quiet) = subst IsValid (sym same) v

Aligned-IsValid :
    {reg : Region} (align : ℕ) (out : Out (Option ℕ))
    → IsValid reg
    → AlignedOutcome reg align out
    → IsValid out.1
Aligned-IsValid align (some cel, reg', log) v (a, quiet) = a.valid
Aligned-IsValid align (none, reg', log) v (same, quiet) = subst IsValid (sym same) v

free-IsValid :
    (reg : Region) (hb : HeapStat) (cel : ℕ)
    → cel < reg.celcnt
    → IsValid reg
    → IsValid (slab_frecel hb reg cel reg.celcnt).2
free-IsValid reg hb cel lt v = elim (Bool-cases (live reg cel)) [
  | inl used ↦
      let (e, valid, marks) = frecel-IsValid v hb cel used in
      subst IsValid (sym (ap (λ out. out.2) e)) valid
  | inr dead ↦ subst IsValid (sym (ap (λ out. out.2) (frecel_dead v hb cel lt dead))) v
]

mark-IsValid : (reg : Region) (cel : ℕ) → IsValid reg → IsValid (markfree reg cel 3).1
unfolding markfree
mark-IsValid reg cel v = elim (Bool-cases (live reg cel)) [
  | inl used ↦ rw used (given-IsValid reg cel v used)
  | inr dead ↦
      let same : (markfree reg cel 3).1 ≡ reg = ground (arith, dead) in subst IsValid (sym same) v
]

Step-IsValid : {reg reg' : Region} → Step reg reg' → IsValid reg → IsValid reg'
Step-IsValid (alloc reg) v = Outcome-IsValid (slab_newcel reg) v (newcel-Outcome reg v)
Step-IsValid (free reg hb cel lt) v = free-IsValid reg hb cel lt v
Step-IsValid (mark reg cel lt) v = mark-IsValid reg cel v
Step-IsValid (alloc_aligned reg k order pow fits space) v =
    Aligned-IsValid (2 ^ k) (slab_newalcel reg (2 ^ k) reg.cellen) v
      (slab_newalcel-AlignedOutcome reg v k order pow fits space)
Step-IsValid (hand_in reg mem cnt bin p pos small inc ref) v =
    elim (cels2rbin_lem reg v small cnt pos bin p mem inc ref) [
      | inl moved ↦ moved.2
      | inr left ↦ left.2
    ]

-- A region that begins with its metadata all 0 stays in order through any sequence of slab_newcel(); of
-- slab_newalcel(), where its cells are a power of two in size and the offsets are below 2 ^ 32; of frees of
-- any of its cells by its own and by other heaps; and of cels2rbin() of buffers of cells that other heaps
-- freed, with memory for them or not, in a region of fewer than 2 ^ 31 cells, as long as the increment of
-- the remote bin is at most 2 ^ 30 and the count of references does not overflow.
pub Reaches-IsValid : {start reg : Region} → IsFresh start → Reaches start reg → IsValid reg
Reaches-IsValid f here = fresh-IsValid _ f
Reaches-IsValid f (step r s) = Step-IsValid s (Reaches-IsValid f r)
