-- ===== src/Slab/Tests.antt =====
-- Runs of the slab allocator on a region of four cells.
use yalloc.Base.{
  ℕ, ◌+◌, ◌≡◌, ◌≢◌, refl, true, false, Option, none, some, [], ◌∷◌, ◌==◌, if◌then◌else◌, arith, ◌⊎◌,
  inl,
}
use yalloc.Slab.Region.{Region, RegStat, HeapStat, double_free, never_allocated}
use yalloc.Slab.Marks.{slab_cel}
use yalloc.Slab.Cells.{slab_newcel, slab_frecel}
use yalloc.Slab.Count.{count}
use yalloc.Slab.Blocks.{slab_malloc, slab_free}
use yalloc.Slab.Remote.Cels.{cels2rbin}
use yalloc.Slab.Remote.Buffer.{RemHeap, RemBuf, slab_free_rheap}
use yalloc.Slab.Remote.Move.{IsPending, Moved, cels2rbin-Moved}
use yalloc.Slab.Remote.Give.{given, free_rheap-given, free_rheap-dead}
use yalloc.Slab.Layout.{Sizes, slab_metas, slab_sizes, max_order, first_order}
use yalloc.Slab.Layout.Room.{IsMetas, IsSizes, slab_metas-IsMetas, newslab-IsSizes}
use yalloc.Slab.Valid.{live, IsValid}
use yalloc.Slab.Free.{freed, frecel-IsValid, frecel_dead}
use yalloc.Slab.New.{Outcome, newcel-Outcome, popped}
use yalloc.Slab.Cycle.{after_free, newcel-frecel, frecel-frecel}
use yalloc.Slab.Address.{IsShaped, cel_ip, slab_cel_lem}
use yalloc.Slab.Release.{Released, Refused, slab_free-Released}
use yalloc.Slab.Malloc.{Served, slab_malloc-Served}

-- Cell 0 is in use, cell 1 is free, cell 2 was freed from another heap, cell 3 is new.
abbrev states : ℕ → ℕ
states c = if c == 0 then 1 else if c == 1 then 2 else if c == 2 then 3 else 0

abbrev no_stat : RegStat
no_stat = record {
  aligned = 0;
  callocs = 0;
  binallocs = 0;
  iniallocs = 0;
  xallocs = 0;
  frees = 0;
  rfrees = 0;
}

abbrev four : Region
four = record {
  user = 4096;
  len = 4096;
  lock = 0;
  hid = 1;
  uid = 7;
  meta = 8192;
  binorg = 1;
  lenorg = 33;
  metautop = 9000;
  cellen = 48;
  celcnt = 4;
  celord = 0;
  align = 16;
  clas = 6;
  claspos = 0;
  clr = 0;
  age = 0;
  aged = 0;
  inipos = 3;
  binpos = 1;
  binset = states;
  bin = λ i. 1;
  lens = λ i. 0;
  rembin = some (λ i. 2);
  remref = 1;
  rbinpos = 1;
  rbinlen = 64;
  rbininc = 64;
  stat = no_stat;
}

abbrev no_errors : HeapStat
no_errors = record { invalid_frees = 0; slabaligns = λ i. 0 }

four-IsValid : IsValid four
unfolding count
four-IsValid = record {
  small = omega arith;
  inipos_le = omega arith;
  fresh = λ c h. ground arith;
  begun = λ c h. ground arith;
  bin_list = record {
    started = λ i h. omega arith;
    status = λ i h. refl;
    distinct = λ i j hi hj e. omega arith;
  };
  bin_count = refl;
  remote_list = (
    record {
      started = λ i h. omega arith;
      status = λ i h. refl;
      distinct = λ i j hi hj e. omega arith;
    },
    omega arith,
  );
  remote_count = omega arith;
  referred = λ h. omega arith;
  room = omega arith;
}

four-IsShaped : IsShaped four
four-IsShaped = record { some_len = omega arith; order = inl refl; small = omega arith }

newcel-Outcome_example : Outcome four (slab_newcel four)
newcel-Outcome_example = newcel-Outcome four four-IsValid

slab_malloc-Served_example : Served four 40 (slab_malloc four 40)
slab_malloc-Served_example =
    slab_malloc-Served four 40 (omega arith) (omega arith) refl four-IsValid

-- 4144 is the address of cell 1, which is free.
slab_free-Released_example :
    Released no_errors four 4144 (slab_free no_errors four 4144 48 4)
    ⊎ Refused no_errors four 4144 (slab_free no_errors four 4144 48 4)
slab_free-Released_example = slab_free-Released four four-IsValid four-IsShaped no_errors 4144

newcel-frecel_example :
    slab_newcel (after_free no_errors four 0) ≡ (some 0, popped (freed four 0), [])
newcel-frecel_example = newcel-frecel no_errors four 0 four-IsValid refl

frecel-frecel_example :
    slab_frecel no_errors (after_free no_errors four 0) 0 4
    ≡ (0, record no_errors { invalid_frees = 1 }, freed four 0, double_free 0 ∷ [])
frecel-frecel_example = frecel-frecel no_errors four 0 four-IsValid refl

frecel-IsValid_example :
    (slab_frecel no_errors four 0 4 ≡ (2, no_errors, freed four 0, []))
    × IsValid (freed four 0)
    × ((c : ℕ) → live (freed four 0) c ≡ (if 0 == c then false else live four c))
frecel-IsValid_example = frecel-IsValid four-IsValid no_errors 0 refl

frecel_dead_example :
    slab_frecel no_errors four 3 4
    ≡ (0, record no_errors { invalid_frees = 1 }, four, never_allocated 3 ∷ [])
frecel_dead_example = frecel_dead four-IsValid no_errors 3 (omega arith) refl

-- A region whose cell 2 still waits in the buffer of another heap.
abbrev waiting : Region
waiting = record four { rbinpos = 0; rembin = none; remref = 0; rbinlen = 0 }

waiting-IsValid : IsValid waiting
unfolding count
waiting-IsValid = record {
  small = omega arith;
  inipos_le = omega arith;
  fresh = λ c h. ground arith;
  begun = λ c h. ground arith;
  bin_list = record {
    started = λ i h. omega arith;
    status = λ i h. refl;
    distinct = λ i j hi hj e. omega arith;
  };
  bin_count = refl;
  remote_list = refl;
  remote_count = omega arith;
  referred = λ h. absurd (omega arith);
  room = omega arith;
}

waiting-IsPending : IsPending waiting 1 (λ i. 2)
unfolding count
waiting-IsPending = record {
  list = record {
    started = λ i h. omega arith;
    status = λ i h. refl;
    distinct = λ i j hi hj e. omega arith;
  };
  apart = tt;
  counted = omega arith;
}

-- Memory for each request, with zeros in it.
abbrev zeros : ℕ → Option (ℕ → ℕ)
zeros n = some (λ i. 0)

zeros_some : (n : ℕ) → zeros n ≢ none
zeros_some n = ground arith

cels2rbin-Moved_example : Moved waiting 1 (cels2rbin zeros (λ i. 2) waiting 1)
cels2rbin-Moved_example =
    cels2rbin-Moved waiting waiting-IsValid (omega arith) 1 (omega arith) (λ i. 2) waiting-IsPending
      zeros zeros_some (omega arith) (omega arith)

abbrev no_remotes : RemHeap
no_remotes = record {
  rembufs = λ hid. none;
  remhbs = λ hid. none;
  remask = 0;
  xfreebuf = 0;
  xfreebatch = 0;
  xfreedropped = 0;
  xmaxbin = 0;
}

abbrev new_buffer : RemBuf
new_buffer = record {
  rem = λ n. record { reg = none; uid = 0; bin = none; pos = 0; cnt = 0; inc = 0; celcnt = 0 };
  clas = λ i. 0;
  seq = λ i. 0;
}

free_rheap-given_example :
    ((slab_free_rheap zeros (some new_buffer) no_remotes four (cel_ip four 0)).2 ≡ given four 0)
    × IsValid (given four 0)
    × ((c : ℕ) → live (given four 0) c ≡ (if 0 == c then false else live four c))
free_rheap-given_example =
    free_rheap-given four four-IsValid four-IsShaped zeros (some new_buffer) no_remotes 0 refl

free_rheap-dead_example :
    slab_free_rheap zeros (some new_buffer) no_remotes four (cel_ip four 2)
    ≡ (0, no_remotes, four, double_free 2 ∷ [])
free_rheap-dead_example =
    free_rheap-dead four four-IsValid four-IsShaped zeros (some new_buffer) no_remotes 2
      (omega arith) refl

slab_cel_lem_example : slab_cel four (cel_ip four 2) 48 4 ≡ (some 2, [])
slab_cel_lem_example = slab_cel_lem four four-IsShaped 2 (omega arith)

slab_metas-IsMetas_example : IsMetas 2048 100 false true (slab_metas 2048 100 false true)
slab_metas-IsMetas_example = slab_metas-IsMetas 2048 100 false true (omega arith)

newslab-IsSizes_example :
    (s : Sizes) × (slab_sizes 48 6 0
        (max_order 48)
        (max_order 48 + 1)
        (first_order (max_order 48) 0 16)
      ≡ some s)
    × IsSizes 48 0 (max_order 48) s
newslab-IsSizes_example = newslab-IsSizes 48 6 0 16 (omega arith) (omega arith)
