-- ===== src/Dispatch/Free.antt =====
-- free.h `free_heap`: give a block back, to the part that it is from.
use yalloc.Base.{
  ℕ, ◌+◌, ◌-◌, ◌%◌, ◌^◌, bit_or, Bool, true, false, ◌&&◌, not, Option, none, some, List, [], ◌∷◌,
  ◌++◌, ltb, leb, ◌==◌, if◌then◌else◌, update,
}
use yalloc.Slab.Region.{Region}
use yalloc.Slab.Blocks.{slab_free}
use yalloc.Slab.Remote.Buffer.{slab_free_rheap}
use yalloc.Bump.Free.{BumpAsk, to_free, to_size, bump_free}
use yalloc.Mmap.New.{is_mmap}
use yalloc.Mmap.Free.{free_mmap}
use yalloc.Dispatch.State.{
  slab_reg, bump_reg, mmap_reg, reg_name, Heap, Place, in_heap, in_mini, Heaps, Env, HeapDiag,
  of_find, of_slab, of_bump, of_mmap, out_of_range, page_zero, unallocated, invalid_free,
  unknown_type, assertion, map_log, find_local, findgregion, put_heap, invalid, HeapOut,
}
use yalloc.Dispatch.Size.{mini_at}

abbrev pub some_len : ℕ → Option ℕ
some_len n = if n == 0 then none else some n

abbrev pub same_heap : Option ℕ → ℕ → Bool
same_heap none h = false
same_heap (some x) h = x == h

-- The region was probably full: it can be chosen again.
abbrev pub reinclude : Heap → Region → Heap
reinclude h creg = record h {
  clasmsk = update h.clasmsk creg.clas (bit_or (h.clasmsk creg.clas) (2 ^ creg.claspos));
  claspos = update h.claspos creg.clas (creg.claspos % 2 ^ 16);
}

-- A cell of a slab region of the heap at hand.
unfoldable pub free_slab : Heaps → ℕ → ℕ → ℕ → HeapOut (Option ℕ)
free_slab st h i ip =
    let x = st.heaps h in
    let creg = x.slabs i in
    let (bincnt, stat, creg', log) = slab_free x.slab_stat creg ip creg.cellen creg.celcnt in
    let x' = record x { slab_stat = stat; slabs = update x.slabs i creg' } in
    if bincnt == 0
    then (none, put_heap st h x', map_log of_slab log)
    else if (bincnt == 1) && (creg'.inipos == creg.celcnt)
    then (if leb 32 creg'.claspos
        then (none, put_heap st h x', map_log of_slab log ++ (assertion ∷ []))
        else (some creg.cellen, put_heap st h (reinclude x' creg'), map_log of_slab log))
    else (some creg.cellen, put_heap st h x', map_log of_slab log)

-- A cell of another heap `h`, buffered in the heap `hb`.
unfoldable pub free_slab_remote : Env → Heaps → ℕ → ℕ → ℕ → ℕ → HeapOut (Option ℕ)
free_slab_remote env st hb h i ip =
    let x = st.heaps h in
    let (len4, rem, creg', log) =
      slab_free_rheap env.getrbinmem env.newrem (st.heaps hb).rem (x.slabs i) ip in
    let owner = put_heap st h (record x { slabs = update x.slabs i creg' }) in
    let st' = put_heap owner hb (record (owner.heaps hb) { rem = rem }) in
    if hb == h
    then (some 0, st, [])
    else if len4 == 0
    then (none, invalid st', map_log of_slab log ++ (invalid_free ip ∷ []))
    else (some len4, st', map_log of_slab log)

abbrev pub slab_at : Env → Heaps → Option ℕ → Bool → ℕ → ℕ → ℕ → HeapOut (Option ℕ)
slab_at env st none local h i ip = (none, st, assertion ∷ [])
slab_at env st (some hb) true h i ip =
    if not (hb == h) then (none, st, assertion ∷ []) else free_slab st h i ip
slab_at env st (some hb) false h i ip = free_slab_remote env st hb h i ip

-- Count the free in the heap at hand, or for the thread.
abbrev pub count_map : Heaps → Option ℕ → Heaps
count_map st none = record st { hd = record (st.hd) { xmapfrees = st.hd.xmapfrees + 1 } }
count_map st (some h) = put_heap st h (record (st.heaps h) { mapfrees = (st.heaps h).mapfrees + 1 })

abbrev pub is_some : Option ℕ → Bool
is_some none = false
is_some (some h) = true

-- A large block: with the outcome of free_mmap().
unfoldable pub free_large : Env → Heaps → Option ℕ → Bool → ℕ → ℕ → ℕ → ℕ → HeapOut (Option ℕ)
free_large env st hb local h i ip reqlen =
    let mpreg = (st.heaps h).mp.regs i in
    let st₁ = count_map st hb in
    let (failed, mp, log) = free_mmap env.sys (st₁.heaps h).mp (local && is_some hb) i ip reqlen in
    let st₂ = put_heap st₁ h (record (st₁.heaps h) { mp = mp }) in
    if not (is_mmap mpreg.typ)
    then (none, invalid st, unknown_type ∷ [])
    else if failed
    then (none, (if is_some hb then invalid st₂ else st₂), map_log of_mmap log)
    else (some (mpreg.len - mpreg.align), st₂, map_log of_mmap log)

-- `Nolen`, with which the bump allocator only tells the length.
abbrev pub nolen : ℕ
nolen = 2 ^ 64 - 1

abbrev pub bump_ask : Env → ℕ → BumpAsk
bump_ask env reqlen = if reqlen == nolen then to_size env.ylog else to_free

unfoldable pub free_mini : Env → Heaps → ℕ → ℕ → ℕ → HeapOut (Option ℕ)
free_mini env st i ip reqlen =
    let (len4, reg, log) = bump_free (st.minis i) ip (bump_ask env reqlen) in
    (some_len len4, record st { minis = update st.minis i reg }, map_log of_bump log)

unfoldable pub free_bump : Env → Heaps → ℕ → ℕ → ℕ → ℕ → HeapOut (Option ℕ)
free_bump env st h i ip reqlen =
    let x = st.heaps h in
    let (len4, reg, log) = bump_free (x.bumpregs i) ip (bump_ask env reqlen) in
    (
      some_len len4,
      put_heap st h (record x { bumpregs = update x.bumpregs i reg }),
      map_log of_bump log,
    )

-- From the type of the region on.
unfoldable pub free_place : Env → Heaps → Option ℕ → Bool → Place → ℕ → ℕ → HeapOut (Option ℕ)
free_place env st hb local (in_mini i) ip reqlen = free_mini env st i ip reqlen
free_place env st hb local (in_heap h (slab_reg i)) ip reqlen = slab_at env st hb local h i ip
free_place env st hb local (in_heap h (bump_reg i)) ip reqlen = free_bump env st h i ip reqlen
free_place env st hb local (in_heap h (mmap_reg i)) ip reqlen =
    free_large env st hb local h i ip reqlen

-- The heap of the thread is now `h`, which is locked.
abbrev pub hold : Heaps → ℕ → Heaps
hold st h = record st { hd = record (st.hd) { hb = some h; locked = true } }

abbrev pub set_lock : Heaps → ℕ → ℕ → Heaps
set_lock st h lock = put_heap st h (record (st.heaps h) { lock = lock })

-- The heap at hand is let go.
abbrev pub let_go : Heaps → Option ℕ → Heaps
let_go st none = st
let_go st (some hb) = set_lock st hb 0

-- A new heap, to buffer the cell in.
abbrev pub with_new : Env → Heaps → ℕ → Place → ℕ → ℕ → Option ℕ → HeapOut (Option ℕ)
with_new env st h at ip reqlen none = (none, st, [])
with_new env st h at ip reqlen (some new) =
    free_place env (hold st new) (some new) (new == h) at ip reqlen

abbrev pub is_slab : Place → Bool
is_slab (in_heap h (slab_reg i)) = true
is_slab at = false

-- Try to acquire the owner `h` of the region.
unfoldable pub free_owned : Env → Heaps → Option ℕ → ℕ → Place → ℕ → ℕ → HeapOut (Option ℕ)
free_owned env st hb h at ip reqlen =
    let locked = set_lock st h 1 in
    if not st.hd.is_private && ((st.heaps h).lock == 0)
    then (if same_heap hb h
        then (none, locked, assertion ∷ [])
        else free_place env (hold (let_go locked hb) h) (some h) true at ip reqlen)
    else if not (is_some hb) && is_slab at
    then with_new env st h at ip reqlen env.heap_new
    else free_place env st hb false at ip reqlen

-- With what the global directory answers.
abbrev pub free_at : Env → Heaps → Option ℕ → Place → ℕ → ℕ → HeapOut (Option ℕ)
free_at env st hb (in_mini i) ip reqlen = free_mini env st i ip reqlen
free_at env st hb (in_heap h name) ip reqlen = free_owned env st hb h (in_heap h name) ip reqlen

abbrev pub free_remote :
    Env → Heaps → Option ℕ → ℕ → ℕ → Option ℕ × List HeapDiag → HeapOut (Option ℕ)
free_remote env st hb ip reqlen (none, log) = (none, invalid st, log ++ (unallocated ip ∷ []))
free_remote env st hb ip reqlen (some n, log) =
    let (len, st', log') = free_at env st hb (st.at n) ip reqlen in (len, st', log ++ log')

abbrev pub free_elsewhere : Env → Heaps → Option ℕ → ℕ → ℕ → Option ℕ → HeapOut (Option ℕ)
free_elsewhere env st hb ip reqlen (some i) = free_mini env st i ip reqlen
free_elsewhere env st hb ip reqlen none =
    free_remote env st hb ip reqlen ((findgregion st ip).0, map_log of_find (findgregion st ip).1)

-- An address that is not in the directory of the heap.
unfoldable pub free_missing : Env → Heaps → Option ℕ → ℕ → ℕ → HeapOut (Option ℕ)
free_missing env st hb ip reqlen =
    if ip == env.zeroblock
    then (some 0, record st { hd = record (st.hd) { free0s = st.hd.free0s + 1 } }, [])
    else if leb (2 ^ 48) ip
    then (none, invalid st, out_of_range ip ∷ [])
    else if ltb ip 4096
    then (none, invalid st, page_zero ip ∷ [])
    else free_elsewhere env st hb ip reqlen (mini_at st ip st.hd.mhb)

abbrev pub free_found : Env → Heaps → ℕ → ℕ → ℕ → Option ℕ × List HeapDiag → HeapOut (Option ℕ)
free_found env st h ip reqlen (none, log) =
    let (len, st', log') = free_missing env st (some h) ip reqlen in (len, st', log ++ log')
free_found env st h ip reqlen (some n, log) =
    let (len, st', log') = free_place env st (some h) true (in_heap h (reg_name n)) ip reqlen in
    (len, st', log ++ log')

-- Free the block at `ip`: its length, or none. `hb` is the heap of the thread, if it has locked one.
unfoldable pub free_heap : Env → Heaps → Option ℕ → ℕ → ℕ → HeapOut (Option ℕ)
free_heap env st none ip reqlen = free_missing env st none ip reqlen
free_heap env st (some h) ip reqlen =
    free_found env st h ip reqlen
      ((find_local (st.heaps h) ip).0, map_log of_find (find_local (st.heaps h) ip).1)
