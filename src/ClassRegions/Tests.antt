-- ===== src/ClassRegions/Tests.antt =====
-- Runs on a heap without slab regions, and on one with a single one.
use yalloc.Base.{
  inl, ℕ, ◌+◌, ◌-◌, ◌^◌, true, false, Option, none, some, refl, arith, ◌≡◌, subst, ◌&&◌, ◌==◌,
  if◌then◌else◌,
}
use yalloc.Slab.Region.{Region}
use yalloc.Slab.Blocks.{lalloc}
use yalloc.Slab.Layout.{NewRegion}
use yalloc.ClassRegions.State.{ClassHeap, Request, Maker}
use yalloc.ClassRegions.Alloc.{alloc_class}
use yalloc.ClassRegions.Valid.{IsOpen, IsOrdered}
use yalloc.ClassRegions.Fresh.{IsUnused, IsAnswered}
use yalloc.ClassRegions.Served.{ServedOut}
use yalloc.Slab.Trace.{Reaches-IsValid, here}
use yalloc.ClassRegions.Space.{BlockOf, alloc_class-BlockOf}
use yalloc.ClassRegions.Rounds.{alloc_class-ServedOut}

-- A region of `len` bytes at 2 ^ 30.
abbrev unused : ℕ → ℕ → Region
unused len metalen = record {
  user = 2 ^ 30;
  len = len;
  lock = 0;
  hid = 0;
  uid = 1;
  meta = 2 ^ 20;
  binorg = 0;
  lenorg = 0;
  metautop = 2 ^ 20 + metalen;
  cellen = 0;
  celcnt = 0;
  celord = 0;
  align = 0;
  clas = 0;
  claspos = 0;
  clr = 0;
  age = 0;
  aged = 0;
  inipos = 0;
  binpos = 0;
  binset = λ i. 0;
  bin = λ i. 0;
  lens = λ i. 0;
  rembin = none;
  remref = 0;
  rbinpos = 0;
  rbinlen = 0;
  rbininc = 0;
  stat = record {
    aligned = 0;
    callocs = 0;
    binallocs = 0;
    iniallocs = 0;
    xallocs = 0;
    frees = 0;
    rfrees = 0;
  };
}

abbrev newregion : NewRegion
newregion order len metaulen = some (unused len metaulen, metaulen)

abbrev IsGood : ℕ → Option (Region × ℕ) → Type 0
IsGood metaulen none = ◌≡◌ {A = ℕ} 0 0
IsGood metaulen (some (reg, metalen)) = IsUnused reg metaulen

newregion-IsAnswered : IsAnswered newregion
newregion-IsAnswered order len metaulen reg metalen e = subst (IsGood metaulen) e (record {
  inipos = refl;
  binpos = refl;
  aged = refl;
  binset = λ c. refl;
  rembin = inl refl;
  rbinpos = refl;
  room = omega arith;
})

abbrev env : Maker
env = record { zeroblock = 65536; newregion = newregion; tags = false; flns = false; order = 16 }

abbrev no_slabs : ClassHeap
no_slabs = record {
  regs = λ i. unused 0 0;
  inuse = λ i. 0;
  made = 0;
  clasregs = λ clas pos. none;
  claspos = λ clas. 0;
  clasmsk = λ clas. 0;
  cfremsk = λ clas. 2 ^ 32 - 1;
  clasregcnt = λ clas. 0;
  smalclas = λ clas. none;
  stat = record { invalid_frees = 0; slabaligns = λ i. 0 };
  mem = λ a. 0;
}

no_slabs-IsOrdered : IsOrdered no_slabs
no_slabs-IsOrdered = record { opened = λ i lt. absurd (omega arith); entered = λ clas pos i e. cc }

abbrev request : Request
request = record { ulen = 100; len = 112; align = 1; loc = lalloc; clen = 16; popular = true }

alloc_class-ServedOut_example :
    ServedOut env request no_slabs (alloc_class env request no_slabs 20 112)
alloc_class-ServedOut_example =
    alloc_class-ServedOut env newregion-IsAnswered request refl no_slabs no_slabs-IsOrdered 20 112
      (omega arith)

first_block : (alloc_class env request no_slabs 20 112).0 ≡ some (2 ^ 30)
unfolding alloc_class yalloc.ClassRegions.Alloc.alloc_slab yalloc.ClassRegions.Alloc.pick
    yalloc.ClassRegions.Alloc.pick_other yalloc.ClassRegions.Alloc.new_region
    yalloc.Slab.Layout.newslab yalloc.Slab.Layout.slab_sizes yalloc.Word.clz
    yalloc.Slab.Layout.slab_metas yalloc.Word.doalign8 yalloc.Slab.Blocks.slab_alloc
    yalloc.Slab.Cells.slab_newcel yalloc.Slab.Marks.slab_markused
first_block = refl

-- Eight cells of 112 bytes, none of them handed out.
abbrev eight_cells : Region
eight_cells = record (unused 4096 4096) {
  cellen = 112;
  celcnt = 8;
  clas = 20;
  binorg = 2;
  lenorg = 34;
  rbininc = 64;
}

eight_cells-IsOpen : IsOpen eight_cells
eight_cells-IsOpen = record {
  valid =
      Reaches-IsValid {reg = eight_cells}
        (record {
          small = omega arith;
          no_inipos = refl;
          no_bin = refl;
          rembin = inl refl;
          no_rbin = refl;
          no_marks = λ c. refl;
          room = omega arith;
        })
        here;
  young = refl;
  short = omega arith;
}

abbrev one_slab : ClassHeap
one_slab = record no_slabs {
  regs = λ i. eight_cells;
  inuse = λ i. 1;
  made = 1;
  clasregs = λ clas pos. if (clas == 20) && (pos == 0) then some 0 else none;
}

one_slab-IsOrdered : IsOrdered one_slab
one_slab-IsOrdered = record {
  opened = λ i lt. eight_cells-IsOpen;
  entered = λ clas pos i e. ground (arith, e);
}

alloc_class-BlockOf_example : BlockOf one_slab 0 (alloc_class env request one_slab 20 112)
alloc_class-BlockOf_example =
    alloc_class-BlockOf env request one_slab 20 112 0 one_slab-IsOrdered refl refl (omega arith)
      (omega arith) (omega arith) refl refl refl (omega arith) refl
