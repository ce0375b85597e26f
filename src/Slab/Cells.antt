-- ===== src/Slab/Cells.antt =====
-- slab.h `slab_remalloc`, `slab_newcel`, `slab_newalcel`, `slab_frecel`: where a cell comes from
-- and where it goes. A function that returns Nocel returns `none`.
use yalloc.Base.{
  ℕ, zero, suc, ◌+◌, ◌-◌, ◌*◌, ◌%◌, min, Bool, Option, none, some, List, [], ◌∷◌, ◌++◌, ltb, leb,
  ◌==◌, if◌then◌else◌, update,
}
use yalloc.Word.{ub4_mod, add4}
use yalloc.Slab.Region.{nocel, Region, Diag, assertion, not_free, bad_bin, Out, HeapStat, OutHeap}
use yalloc.Slab.Marks.{markfree, slab_markused}

-- `(size_t)(bin + pos) >= reg->metautop`
abbrev pub bin_outside : Region → ℕ → Bool
bin_outside reg pos = leb reg.metautop (reg.meta + (reg.binorg + pos) * 4)

-- One round of the copying loop of slab_remalloc(): the cell `cel` goes from the remote bin to
-- position `pos` of the local one. `none` is a return from the function.
unfoldable pub remalloc_cel : Region → ℕ → ℕ → Out (Option ℕ)
remalloc_cel reg pos cel =
    if leb reg.celcnt cel
    then (none, reg, assertion ∷ [])
    else if leb reg.inipos cel
    then (none, reg, assertion ∷ [])
    else if reg.binset cel == 3
    then (let marked = record reg { binset = update reg.binset cel 2 } in
        if bin_outside reg pos
        then (none, marked, assertion ∷ [])
        else let binned = record marked { bin = update reg.bin pos cel } in
          if ltb reg.celcnt (pos + 1)
          then (none, binned, assertion ∷ [])
          else (some (pos + 1), binned, []))
    else (none, reg, not_free cel (reg.binset cel) ∷ [])

-- `for (c = 0; c < rpos - 1; c++)`, with the count of rounds left.
unfoldable pub remalloc_loop : (ℕ → ℕ) → ℕ → ℕ → Region → ℕ → Out (Option ℕ)
remalloc_loop rbin zero c reg pos = (some pos, reg, [])
remalloc_loop rbin (suc left) c reg pos =
    let (next, reg', log) = remalloc_cel reg pos (rbin c) in
    elim next [ none ↦ (none, reg', log) | some pos' ↦ remalloc_loop rbin left (c + 1) reg' pos' ]

-- After the loop: take the topmost cell.
unfoldable pub remalloc_top : (ℕ → ℕ) → ℕ → Region → ℕ → Out (Option ℕ)
remalloc_top rbin rpos reg pos =
    let reg' = record reg {
      binpos = pos;
      stat = record (reg.stat) { rfrees = reg.stat.rfrees + rpos };
    } in
    let cel = rbin (rpos - 1) in
    if leb reg.celcnt cel
    then (none, reg', assertion ∷ [])
    else if leb reg.inipos cel
    then (none, reg', assertion ∷ [])
    else (some cel, record reg' { remref = (reg.remref + ub4_mod - 1) % ub4_mod }, [])

-- The errors that slab_remalloc() reports before it goes on.
unfoldable pub remalloc_warn : Region → List Diag
remalloc_warn reg =
    (if reg.remref == 0 then assertion ∷ [] else [])
    ++ (if leb reg.rbinlen reg.rbinpos then assertion ∷ [] else [])

-- Once the loop has ended, or returned early.
abbrev pub remalloc_end : (ℕ → ℕ) → ℕ → List Diag → Out (Option ℕ) → Out (Option ℕ)
remalloc_end rbin rpos warned (none, reg, log) = (none, reg, warned ++ log)
remalloc_end rbin rpos warned (some pos, reg, log) =
    let (top, reg', log') = remalloc_top rbin rpos reg pos in (top, reg', warned ++ (log ++ log'))

-- Allocate from the remote bin, and move the rest of it to the local bin.
unfoldable pub slab_remalloc : Region → Out (Option ℕ)
unfolding remalloc_warn
slab_remalloc reg = elim (reg.rembin) [
  | none ↦ (none, reg, [])
  | some rbin ↦
      let rpos = reg.rbinpos in
      let warned = remalloc_warn reg in
      let reg' = record reg { rbinpos = 0 } in
      if rpos == 0
      then (none, reg, [])
      else if ltb reg.celcnt (add4 reg.binpos rpos)
      then (none, reg', warned ++ (assertion ∷ []))
      else if ltb reg.rbinlen rpos
      then (none, reg', warned ++ (assertion ∷ []))
      else remalloc_end rbin rpos warned (remalloc_loop rbin (rpos - 1) 0 reg' reg.binpos)
]

-- The end of slab_newcel(): mark the chosen cell.
unfoldable pub newcel_mark : Region → ℕ → ℕ → List Diag → Out (Option ℕ)
newcel_mark reg cel set log =
    let (failed, reg', log') = slab_markused reg cel set in
    (if failed then none else some cel, reg', log ++ log')

-- From the bin. The first two checks return 0, which is a cell, not Nocel. After the report of a
-- Nocel in the bin, `cel` is the last entry that was listed.
unfoldable pub newcel_bin : Region → Out (Option ℕ)
unfolding newcel_mark
newcel_bin reg =
    if ltb reg.inipos reg.binpos
    then (some 0, reg, assertion ∷ [])
    else let pos = reg.binpos - 1 in
      if bin_outside reg pos
      then (some 0, reg, assertion ∷ [])
      else let warned = if reg.bin pos == nocel then bad_bin pos ∷ [] else [] in
        let cel = if reg.bin pos == nocel then reg.bin (min pos 64) else reg.bin pos in
        let reg' = record reg { binpos = pos; bin = update reg.bin pos nocel } in
        if leb reg.celcnt cel
        then (none, reg', warned ++ (assertion ∷ []))
        else newcel_mark
            (record reg' { stat = record (reg.stat) { binallocs = reg.stat.binallocs + 1 } }) cel 2
            warned

-- After slab_remalloc(): unlock, count, and mark the cell.
abbrev pub newcel_unlock : Out (Option ℕ) → Out (Option ℕ)
newcel_unlock (none, reg, log) = (none, record reg { lock = 0 }, log)
newcel_unlock (some c, reg, log) =
    newcel_mark
      (record reg { lock = 0; stat = record (reg.stat) { xallocs = reg.stat.xallocs + 1 } }) c 3 log

-- From the remote bin, if the region's lock is free.
unfoldable pub newcel_remote : Region → Out (Option ℕ)
newcel_remote reg =
    if reg.lock == 0
    then newcel_unlock (slab_remalloc (record reg { lock = 1 }))
    else (none, reg, [])

-- From the cells that were never allocated.
unfoldable pub newcel_ini : Region → Out (Option ℕ)
unfolding newcel_mark
newcel_ini reg =
    newcel_mark
      (record reg {
        inipos = reg.inipos + 1;
        stat = record (reg.stat) { iniallocs = reg.stat.iniallocs + 1 };
      })
      reg.inipos 0 []

-- A cell, or none if the region is full.
unfoldable pub slab_newcel : Region → Out (Option ℕ)
unfolding newcel_bin newcel_remote newcel_ini
slab_newcel reg =
    if reg.binpos == 0
    then (if reg.inipos == reg.celcnt then newcel_remote reg else newcel_ini reg)
    else newcel_bin reg

-- Check a cell and add it to the bin. The new size of the bin, thus 0 on an error; a failed mark
-- counts in the heap.
unfoldable pub slab_frecel : HeapStat → Region → ℕ → ℕ → OutHeap ℕ
slab_frecel hb reg cel celcnt =
    if leb celcnt cel
    then (0, hb, reg, assertion ∷ [])
    else let (failed, reg', log) = markfree reg cel 2 in
      let pos = reg'.binpos in
      if failed
      then (0, record hb { invalid_frees = hb.invalid_frees + 1 }, reg', log)
      else if leb celcnt pos
      then (0, hb, reg', log ++ (assertion ∷ []))
      else if bin_outside reg' pos
      then (0, hb, reg', log ++ (assertion ∷ []))
      else (
        pos + 1,
        hb,
        record reg' {
          bin = update reg'.bin pos cel;
          binpos = pos + 1;
          stat = record (reg'.stat) { frees = reg'.stat.frees + 1 };
          age = if pos + 1 == reg'.inipos then 1 else reg'.age;
        },
        log,
      )
