-- ===== src/Slab/Remote/Buffer.antt =====
-- slab.h `slab_free_rheap`: a heap buffers the cells that it frees for another one. The heap is modelled
-- as far as this needs: the buffers by heap and by region, and their masks. A region names its heap by
-- `hid` alone, so that the heap it points to has that id; a test that the code repeats unchanged (that the
-- place lies below `celcnt`) is done once.
use yalloc.Base.{
  ℕ, ◌+◌, ◌-◌, ◌*◌, ◌/◌, ◌%◌, ◌^◌, max, bit_or, Bool, true, false, ◌&&◌, ◌||◌, not, Option, none,
  some, List, [], ◌∷◌, ◌++◌, ltb, leb, ◌==◌, if◌then◌else◌, update,
}
use yalloc.Word.{ub4_mod, add4, doalign4}
use yalloc.Slab.Region.{rbinbuf, Region, Diag, assertion}
use yalloc.Slab.Marks.{markfree, slab_cel}
use yalloc.Slab.Remote.Cels.{copy}

-- `struct remote`; the region by its uid
pub record Remote : Type 0 where
  pub reg : Option ℕ
  pub uid : ℕ
  pub bin : Option (ℕ → ℕ)
  pub pos : ℕ
  pub cnt : ℕ
  pub inc : ℕ
  pub celcnt : ℕ

-- `struct rembuf`
pub record RemBuf : Type 0 where
  pub rem : ℕ → Remote
  pub clas : ℕ → ℕ
  pub seq : ℕ → ℕ

-- The part of `struct st_heap` for remote frees.
pub record RemHeap : Type 0 where
  pub rembufs : ℕ → Option RemBuf
  pub remhbs : ℕ → Option ℕ
  pub remask : ℕ
  pub xfreebuf : ℕ
  pub xfreebatch : ℕ
  pub xfreedropped : ℕ
  pub xmaxbin : ℕ

-- `Remhid`, `Clascnt`, `Clasregs`
abbrev pub remhid : ℕ
remhid = 64

abbrev pub clascnt : ℕ
clascnt = 100

abbrev pub clasregs : ℕ
clasregs = 32

-- The length of the cell or 0 on an error, the heap, the region, and what was reported.
abbrev pub RemOut : Type 0
RemOut = ℕ × RemHeap × Region × List Diag

abbrev pub is_none : Option (ℕ → ℕ) → Bool
is_none none = true
is_none (some _) = false

abbrev pub copied : Remote → (ℕ → ℕ) → Option (ℕ → ℕ) → ℕ → ℕ
copied remp fresh none = fresh
copied remp fresh (some old) = copy fresh old remp.pos

-- The buffer with the room that its next cell needs, and its bin; none without memory.
abbrev pub remote_room : (ℕ → Option (ℕ → ℕ)) → Remote → Remote × Option (ℕ → ℕ)
remote_room getrbinmem remp =
    let first = is_none remp.bin in
    let remp' = if first then record remp { inc = rbinbuf } else remp in
    let cnt = if first then rbinbuf else doalign4 (add4 remp.pos rbinbuf) rbinbuf in
    let cnt' = doalign4 (max remp'.inc cnt) rbinbuf in
    let doubled = record remp' { inc = remp'.inc * 2 % ub4_mod } in
    if ltb remp.cnt cnt
    then elim (getrbinmem cnt') [
      | none ↦ (doubled, none)
      | some fresh ↦
          let bin = copied remp fresh remp.bin in
          (record doubled { bin = some bin; cnt = cnt' }, some bin)
    ]
    else (remp', remp.bin)

-- The first cell of a buffer says whose it is.
abbrev pub remote_claim : Remote → Region → Remote
remote_claim remp reg =
    if remp.pos == 0
    then record remp { reg = some reg.uid; uid = reg.uid; celcnt = reg.celcnt }
    else remp

abbrev pub is_same : Option ℕ → ℕ → Bool
is_same none uid = false
is_same (some x) uid = x == uid

abbrev pub is_owned : Option ℕ → Bool
is_owned none = false
is_owned (some uid) = true

-- From `binp[pos] = cel` on: the cell is buffered and the masks are set.
abbrev pub remote_put : RemHeap → RemBuf → ℕ → Region → ℕ → Remote → (ℕ → ℕ) → RemHeap
remote_put hb rb n reg cel remp bin =
    let claimed = remote_claim remp reg in
    let remp' = record claimed { bin = some (update bin remp.pos cel); pos = remp.pos + 1 } in
    let rb' = record rb {
      rem = update rb.rem n remp';
      seq = update rb.seq reg.clas (bit_or (rb.seq reg.clas) (2 ^ reg.claspos));
      clas =
          update rb.clas (reg.clas / 64) (bit_or (rb.clas (reg.clas / 64)) (2 ^ (reg.clas % 64)));
    } in
    record hb {
      rembufs = update hb.rembufs reg.hid (some rb');
      remask = bit_or hb.remask (2 ^ reg.hid);
      remhbs = update hb.remhbs reg.hid (some reg.hid);
    }

-- With the outcome of `remote_room`, which stays in the buffer on an error too.
abbrev pub remote_roomed :
    RemHeap → RemBuf → ℕ → Region → ℕ → List Diag → Remote × Option (ℕ → ℕ) → RemOut
remote_roomed hb rb n reg cel log (remp, none) = (
  0,
  record hb {
    rembufs = update hb.rembufs reg.hid (some (record rb { rem = update rb.rem n remp }));
  },
  reg,
  log,
)
remote_roomed hb rb n reg cel log (remp, some bin) =
    let stored = record hb {
      rembufs = update hb.rembufs reg.hid (some (record rb { rem = update rb.rem n remp }));
    } in
    if (remp.pos == 0) && is_owned remp.reg
    then (0, stored, reg, log ++ (assertion ∷ []))
    else if not (remp.pos == 0) && not (is_same remp.reg reg.uid)
    then (reg.cellen, stored, reg, log ++ (assertion ∷ []))
    else (reg.cellen, remote_put hb rb n reg cel remp bin, reg, log)

-- Buffer a cell that is marked.
abbrev pub remote_buffer : (ℕ → Option (ℕ → ℕ)) → RemHeap → RemBuf → Region → ℕ → List Diag → RemOut
remote_buffer getrbinmem hb rb reg cel log =
    let n = reg.clas * clasregs + reg.claspos in
    let remp = rb.rem n in
    let failed : RemOut = (0, hb, reg, log ++ (assertion ∷ [])) in
    if reg.clas == 0 || leb clascnt reg.clas
    then failed
    else if leb clasregs reg.claspos
    then failed
    else if leb reg.celcnt remp.pos
    then failed
    else if is_none remp.bin && not (remp.pos == 0)
    then failed
    else if not (is_none remp.bin) && ltb (doalign4 (add4 remp.pos rbinbuf) rbinbuf) remp.pos
    then failed
    else remote_roomed hb rb n reg cel log (remote_room getrbinmem remp)

abbrev pub or_else : Option RemBuf → Option RemBuf → Option RemBuf
or_else none new = new
or_else (some rb) new = some rb

-- With the buffers for the heap of the region.
abbrev pub remote_heap :
    (ℕ → Option (ℕ → ℕ)) → RemHeap → Region → ℕ → List Diag → Option RemBuf → RemOut
remote_heap getrbinmem hb reg cel log none = (0, hb, reg, log)
remote_heap getrbinmem hb reg cel log (some rb) =
    let bufs = hb.xfreebuf + 1 in
    let entered = record hb { rembufs = update hb.rembufs reg.hid (some rb) } in
    let counted = record entered {
      xfreebuf = bufs;
      xmaxbin = max hb.xmaxbin (bufs - hb.xfreebatch);
    } in
    if ltb bufs hb.xfreebatch
    then (0, entered, reg, log ++ (assertion ∷ []))
    else remote_buffer getrbinmem counted rb reg cel log

-- After the cell was marked. A new buffer for the heap is `newrem`, if there is memory.
abbrev pub remote_marked :
    (ℕ → Option (ℕ → ℕ)) → Option RemBuf → RemHeap → Region → ℕ → List Diag → RemOut
remote_marked getrbinmem newrem hb reg cel log =
    if leb remhid reg.hid
    then (reg.cellen, record hb { xfreedropped = hb.xfreedropped + 1 }, reg, log)
    else remote_heap getrbinmem hb reg cel log (or_else (hb.rembufs reg.hid) newrem)

-- After the search for the cell.
abbrev pub rheap_found :
    (ℕ → Option (ℕ → ℕ)) → Option RemBuf → RemHeap → Region → Option ℕ × List Diag → RemOut
rheap_found getrbinmem newrem hb reg (none, log) = (0, hb, reg, log)
rheap_found getrbinmem newrem hb reg (some cel, log) =
    let (failed, reg', log') = markfree reg cel 3 in
    if failed
    then (0, hb, reg', log ++ log')
    else remote_marked getrbinmem newrem hb reg' cel (log ++ log')

-- Free a cell from another heap's thread.
unfoldable pub slab_free_rheap :
    (ℕ → Option (ℕ → ℕ)) → Option RemBuf → RemHeap → Region → ℕ → RemOut
slab_free_rheap getrbinmem newrem hb reg ip =
    rheap_found getrbinmem newrem hb reg (slab_cel reg ip reg.cellen reg.celcnt)
