-- ===== src/Slab/PowerTests.antt =====
-- Runs of the slab allocator on a region with cells of 64 bytes.
use yalloc.Base.{◌^◌, Option, some, inl, ℕ, refl, none, ◌==◌, if◌then◌else◌, arith}
use yalloc.Slab.Region.{Region, HeapStat}
use yalloc.Slab.Cells.{slab_newcel, slab_frecel}
use yalloc.Slab.Blocks.{slab_newalcel, slab_alloc, lcalloc}
use yalloc.Slab.Count.{count}
use yalloc.Slab.Marks.{markfree}
use yalloc.Slab.Remote.Cels.{cels2rbin}
use yalloc.Slab.Remote.Move.{IsPending}
use yalloc.Slab.Valid.{IsValid}
use yalloc.Slab.Calloc.{Cleared, slab_alloc-Cleared}
use yalloc.Slab.Trace.{
  IsFresh, alloc, alloc_aligned, free, mark, hand_in, Step, here, step, Reaches-IsValid,
}

-- Eight cells, none of them handed out.
abbrev eight : Region
eight = record {
  user = 8256;
  len = 4096;
  lock = 0;
  hid = 1;
  uid = 8;
  meta = 16384;
  binorg = 2;
  lenorg = 34;
  metautop = 20000;
  cellen = 64;
  celcnt = 8;
  celord = 6;
  align = 64;
  clas = 7;
  claspos = 0;
  clr = 0;
  age = 0;
  aged = 0;
  inipos = 0;
  binpos = 0;
  binset = λ c. 0;
  bin = λ i. 0;
  lens = λ i. 0;
  rembin = none;
  remref = 0;
  rbinpos = 0;
  rbinlen = 0;
  rbininc = 64;
  stat = record {
    aligned = 0;
    callocs = 0;
    binallocs = 0;
    iniallocs = 0;
    xallocs = 0;
    frees = 0;
    rfrees = 0;
  };
}

eight-IsFresh : IsFresh eight
eight-IsFresh = record {
  small = omega arith;
  no_inipos = refl;
  no_bin = refl;
  rembin = inl refl;
  no_rbin = refl;
  no_marks = λ c. refl;
  room = omega arith;
}

eight-IsValid : IsValid eight
eight-IsValid = Reaches-IsValid eight-IsFresh here

abbrev no_errors : HeapStat
no_errors = record { invalid_frees = 0; slabaligns = λ i. 0 }

-- One cell is taken, another one at an alignment of 256, the first is freed by its own heap, the other
-- by another heap, whose buffer is handed in.
abbrev one_taken : Region
one_taken = (slab_newcel eight).1

abbrev two_taken : Region
two_taken = (slab_newalcel one_taken (2 ^ 8) one_taken.cellen).1

abbrev one_freed : Region
one_freed = (slab_frecel no_errors two_taken 0 two_taken.celcnt).2

abbrev both_freed : Region
both_freed = (markfree one_freed 3 3).1

abbrev buffer : ℕ → ℕ
buffer i = 3

abbrev with_memory : ℕ → Option (ℕ → ℕ)
with_memory n = some (λ i. 0)

buffer-IsPending : IsPending both_freed 1 buffer
unfolding slab_newcel slab_newalcel slab_frecel markfree yalloc.Slab.Marks.slab_markused
    yalloc.Word.doalign8 yalloc.Slab.Blocks.newalcel_at yalloc.Slab.Blocks.gap_loop count
buffer-IsPending = record {
  list = record {
    started = λ i h. omega arith;
    status = λ i h. refl;
    distinct = λ i j h h' e. omega arith;
  };
  apart = tt;
  counted = omega arith;
}

two_taken-Step : Step one_taken two_taken
unfolding slab_newcel yalloc.Slab.Marks.slab_markused
two_taken-Step = alloc_aligned one_taken 8 (λ e. omega (arith, e)) refl (omega arith) (omega arith)

Reaches-IsValid_example : IsValid (cels2rbin with_memory buffer both_freed 1).1
unfolding slab_newcel slab_newalcel slab_frecel markfree yalloc.Slab.Marks.slab_markused
    yalloc.Word.doalign8 yalloc.Slab.Blocks.newalcel_at yalloc.Slab.Blocks.gap_loop
Reaches-IsValid_example = Reaches-IsValid eight-IsFresh (
    step
      (step
        (step (step (step here (alloc eight)) two_taken-Step)
          (free two_taken no_errors 0 (omega arith)))
        (mark one_freed 3 (omega arith)))
      (hand_in both_freed with_memory 1 buffer buffer-IsPending (omega arith) (omega arith)
        (omega arith) (omega arith)))

-- The memory of the region, which is 0, and other bytes.
abbrev bytes : ℕ → ℕ
bytes a = if a == 100 then 7 else 0

slab_alloc-Cleared_example :
    Cleared 50 bytes
      (slab_alloc no_errors eight 50 16 lcalloc bytes).ptr
      (slab_alloc no_errors eight 50 16 lcalloc bytes).mem
slab_alloc-Cleared_example =
    slab_alloc-Cleared eight 50 bytes (omega arith) (λ a clr lo hi. ground arith) no_errors 16
      (omega arith) refl eight-IsValid
