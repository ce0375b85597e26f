-- ===== src/Slab/Blocks.antt =====
-- slab.h `slab_newalcel`, `slab_alloc`, `slab_malloc`, `slab_free`: cells as blocks of memory. The
-- memory is a function from addresses to bytes; of it slab.h writes the zeros of calloc().
use yalloc.Base.{
  ℕ, zero, suc, ◌+◌, ◌-◌, ◌*◌, ◌/◌, ◌%◌, ◌^◌, Bool, true, false, ◌&&◌, not, Option, none, some,
  List, [], ◌∷◌, ◌++◌, ltb, leb, ◌==◌, if◌then◌else◌, update,
}
use yalloc.Word.{ub4_mod, doalign8, ctz}
use yalloc.Slab.Region.{cel_nolen, Region, Diag, assertion, Out, HeapStat, OutHeap}
use yalloc.Slab.Marks.{markfree, slab_markused, slab_cel}
use yalloc.Slab.Cells.{slab_newcel, slab_frecel}

-- `for (c = inipos; c < cel; c++)`: the cells that an aligned block skips go to the bin. The
-- result is the new `binpos`; `none` is a return from the function.
unfoldable pub gap_loop : ℕ → ℕ → Region → ℕ → List Diag → Out (Option ℕ)
gap_loop zero c reg binpos log = (some binpos, reg, log)
gap_loop (suc left) c reg binpos log =
    let (failed, reg₁, log₁) = slab_markused reg c 0 in
    let (failed', reg₂, log₂) = markfree reg₁ c 2 in
    let rest =
      gap_loop left (c + 1) (record reg₂ { bin = update reg₂.bin binpos c }) (binpos + 1)
        (log ++ (log₁ ++ log₂)) in
    if failed
    then (none, reg₁, log ++ log₁)
    else if failed'
    then (none, reg₂, log ++ (log₁ ++ log₂))
    else rest

-- The first cell at or above `inipos` that starts at a multiple of `align`, as an offset.
abbrev pub aligned_ofs : Region → ℕ → ℕ → ℕ
aligned_ofs reg align cellen =
    (doalign8 (reg.user + reg.inipos * cellen) align + 2 ^ 64 - reg.user) % ub4_mod

-- Once the skipped cells are in the bin.
abbrev pub newalcel_end : ℕ → Out (Option ℕ) → Out (Option ℕ)
newalcel_end cel (none, reg, log) = (none, reg, log)
newalcel_end cel (some binpos, reg, log) = (
  some cel,
  record reg { binpos = binpos; stat = record (reg.stat) { iniallocs = reg.stat.iniallocs + 1 } },
  log,
)

-- From the mark of the cell on.
unfoldable pub newalcel_at : Region → ℕ → Out (Option ℕ)
newalcel_at reg cel =
    let (failed, reg₁, log) = slab_markused reg cel 0 in
    if failed
    then (none, reg₁, log)
    else newalcel_end cel
        (gap_loop (cel - reg.inipos) reg.inipos (record reg₁ { inipos = cel + 1 }) reg.binpos log)

-- A cell for aligned_alloc(), from the cells that were never allocated.
unfoldable pub slab_newalcel : Region → ℕ → ℕ → Out (Option ℕ)
slab_newalcel reg align cellen =
    let ofs = aligned_ofs reg align cellen in
    let cel = ofs / 2 ^ reg.celord in
    if reg.inipos == reg.celcnt
    then (none, reg, [])
    else if reg.celord == 0
    then (none, reg, assertion ∷ [])
    else if not (cel * 2 ^ reg.celord % ub4_mod == ofs)
    then (none, reg, [])
    else if leb reg.celcnt cel
    then (none, reg, [])
    else newalcel_at reg cel

-- The net length is stored for large cells.
abbrev pub store_len : Region → ℕ → ℕ → Region
store_len reg cel ulen =
    if ltb cel_nolen reg.cellen then record reg { lens = update reg.lens cel ulen } else reg

-- `memset(p,0,n)`
abbrev pub clear : (ℕ → ℕ) → ℕ → ℕ → ℕ → ℕ
clear mem p n a = if leb p a && ltb a (p + n) then 0 else mem a

-- Which API function asks for the block, as far as slab_alloc() tells them apart.
pub data Loc : Type 0 where
  lalloc lallocal lcalloc lreal : Loc

abbrev pub is_allocal : Loc → Bool
is_allocal lallocal = true
is_allocal _ = false

abbrev pub is_calloc : Loc → Bool
is_calloc lcalloc = true
is_calloc _ = false

-- slab_malloc(): the address of a block, or none.
unfoldable pub slab_malloc : Region → ℕ → Out (Option ℕ)
slab_malloc reg ulen =
    if ulen == 0
    then (none, reg, assertion ∷ [])
    else if ltb reg.cellen ulen
    then (none, reg, assertion ∷ [])
    else if not (reg.aged == 0)
    then (none, reg, assertion ∷ [])
    else let (found, reg₁, log) = slab_newcel (record reg { age = 0 }) in
      elim found [
        | none ↦ (none, reg₁, log)
        | some cel ↦ (some (reg₁.user + cel * reg₁.cellen), store_len reg₁ cel ulen, log)
      ]

-- slab_alloc(): generic for malloc, calloc and aligned_alloc.
pub record Allocated : Type 0 where
  pub ptr : Option ℕ
  pub hb : HeapStat
  pub reg : Region
  pub mem : ℕ → ℕ
  pub log : List Diag

-- After the cell is found: store its length, and clear it for calloc() unless it is known to be 0.
unfoldable pub alloc_block : HeapStat → Region → ℕ → Loc → (ℕ → ℕ) → ℕ → ℕ → List Diag → Allocated
alloc_block hb reg ulen loc mem inipos cel log =
    let p = reg.user + cel * reg.cellen in
    let stored = store_len reg cel ulen in
    let counted = record stored {
      stat = record (stored.stat) { callocs = stored.stat.callocs + 1 };
    } in
    if not (is_calloc loc)
    then record { ptr = some p; hb = hb; reg = stored; mem = mem; log = log }
    else if not (inipos == reg.inipos) && (reg.clr == 0)
    then record { ptr = some p; hb = hb; reg = counted; mem = mem; log = log }
    else record { ptr = some p; hb = hb; reg = counted; mem = clear mem p ulen; log = log }

unfoldable pub slab_alloc : HeapStat → Region → ℕ → ℕ → Loc → (ℕ → ℕ) → Allocated
unfolding alloc_block
slab_alloc hb reg ulen align loc mem =
    let refused : Allocated = record {
      ptr = none;
      hb = hb;
      reg = reg;
      mem = mem;
      log = assertion ∷ [];
    } in
    let young = record reg { age = 0 } in
    let abit = ctz align in
    let counted = record young {
      stat = record (young.stat) { aligned = young.stat.aligned + 1 };
    } in
    let aligned = is_allocal loc && ltb reg.align align in
    let hb' =
      if aligned
      then record hb { slabaligns = update hb.slabaligns abit (hb.slabaligns abit + 1) }
      else hb in
    let (found, reg₁, log) =
      if aligned then slab_newalcel counted align reg.cellen else slab_newcel young in
    if ulen == 0
    then refused
    else if ltb reg.cellen ulen
    then refused
    else if not (reg.aged == 0)
    then refused
    else elim found [
      | none ↦ record { ptr = none; hb = hb'; reg = reg₁; mem = mem; log = log }
      | some cel ↦ alloc_block hb' reg₁ ulen loc mem reg.inipos cel log
    ]

-- slab_free(): the new size of the bin, thus 0 on an error.
unfoldable pub slab_free : HeapStat → Region → ℕ → ℕ → ℕ → OutHeap ℕ
slab_free hb reg ip cellen celcnt =
    let (found, log) = slab_cel reg ip cellen celcnt in
    elim found [
      | none ↦ (0, record hb { invalid_frees = hb.invalid_frees + 1 }, reg, log)
      | some cel ↦
          let (bincnt, hb', reg', log') = slab_frecel hb reg cel celcnt in
          (bincnt, hb', reg', log ++ log')
    ]
