-- ===== src/Dispatch/Size.antt =====
-- size.h `size_heap`: the length of a block. The count of invalid addresses is left out here.
use yalloc.Base.{
  ℕ, ◌+◌, ◌-◌, ◌^◌, Bool, true, false, ◌&&◌, not, Option, none, some, List, [], ◌∷◌, ◌++◌, ltb, leb,
  ◌==◌, if◌then◌else◌,
}
use yalloc.Slab.Region.{Region, Diag}
use yalloc.Slab.Marks.{slab_cel, slab_chkfree}
use yalloc.Bump.Region.{BumpRegion, BumpOut}
use yalloc.Bump.Free.{to_size, bump_free}
use yalloc.Mmap.State.{MpRegion}
use yalloc.Mmap.New.{is_mmap}
use yalloc.Dispatch.State.{
  slab_reg, bump_reg, mmap_reg, reg_name, Place, in_heap, in_mini, Heaps, Env, HeapDiag, of_find,
  of_slab, of_bump, out_of_range, page_zero, unallocated, not_allocated, double_free, unknown_type,
  assertion, map_log, find_local, findgregion,
}

-- `struct ptrinfo`, for realloc().
pub record PtrInfo : Type 0 where
  pub reg : Option Place
  pub len : Option ℕ
  pub cel : ℕ
  pub local : Bool

-- What is known of an address: the length of its block, and more.
abbrev pub SizeOut : Type 0
SizeOut = Option ℕ × PtrInfo × List HeapDiag

-- A block of a slab region.
abbrev pub slab_sized : Region → Place → ℕ → PtrInfo → Option ℕ × List Diag → SizeOut
slab_sized creg at ip pi (none, log) = (none, pi, map_log of_slab log)
slab_sized creg at ip pi (some cel, log) =
    if not (slab_chkfree creg cel == 1)
    then (none, pi, map_log of_slab log ++ (not_allocated ip ∷ []))
    else (
      some creg.cellen,
      record pi { reg = some at; cel = cel; len = some 0 },
      map_log of_slab log,
    )

unfoldable pub size_slab : Region → Place → ℕ → PtrInfo → SizeOut
size_slab creg at ip pi = slab_sized creg at ip pi (slab_cel creg ip creg.cellen creg.celcnt)

abbrev pub bump_sized : Place → PtrInfo → BumpOut ℕ → SizeOut
bump_sized at pi (len4, reg, log) =
    if len4 == 0
    then (none, record pi { reg = some at; len = none }, map_log of_bump log)
    else (some len4, record pi { reg = some at; len = some len4 }, map_log of_bump log)

unfoldable pub size_bump : ℕ → BumpRegion → Place → ℕ → PtrInfo → SizeOut
size_bump logged reg at ip pi = bump_sized at pi (bump_free reg ip (to_size logged))

unfoldable pub size_mmap : MpRegion → Place → ℕ → PtrInfo → SizeOut
size_mmap mpreg at ip pi =
    let failed : SizeOut = (none, pi, assertion ∷ []) in
    if not (is_mmap mpreg.typ)
    then (none, pi, unknown_type ∷ [])
    else if mpreg.len == 0
    then failed
    else if ltb mpreg.len mpreg.ulen
    then failed
    else if ltb mpreg.len mpreg.align
    then failed
    else if not (mpreg.set == 1)
    then (none, pi, double_free ip ∷ [])
    else (some (mpreg.len - mpreg.align), record pi { reg = some at; len = some mpreg.ulen }, [])

-- From the type of the region on.
unfoldable pub size_place : Env → Heaps → Place → ℕ → PtrInfo → SizeOut
size_place env st (in_mini i) ip pi = size_bump env.ylog (st.minis i) (in_mini i) ip pi
size_place env st (in_heap h (slab_reg i)) ip pi =
    size_slab ((st.heaps h).slabs i) (in_heap h (slab_reg i)) ip pi
size_place env st (in_heap h (bump_reg i)) ip pi =
    size_bump env.ylog ((st.heaps h).bumpregs i) (in_heap h (bump_reg i)) ip pi
size_place env st (in_heap h (mmap_reg i)) ip pi =
    size_mmap ((st.heaps h).mp.regs i) (in_heap h (mmap_reg i)) ip pi

-- The mini region of the thread, if the address is in it.
abbrev pub mini_at : Heaps → ℕ → Option ℕ → Option ℕ
mini_at st ip none = none
mini_at st ip (some i) =
    let mhb = st.minis i in if leb mhb.user ip && ltb ip (mhb.user + mhb.len) then some i else none

-- With what the global directory answers.
abbrev pub size_remote : Env → Heaps → ℕ → PtrInfo → Option ℕ × List HeapDiag → SizeOut
size_remote env st ip pi (none, log) = (none, pi, log ++ (unallocated ip ∷ []))
size_remote env st ip pi (some n, log) =
    let (len, pi', log') = size_place env st (st.at n) ip (record pi { local = false }) in
    (len, pi', log ++ log')

abbrev pub size_elsewhere : Env → Heaps → ℕ → PtrInfo → Option ℕ → SizeOut
size_elsewhere env st ip pi (some i) =
    size_bump env.ylog (st.minis i) (in_mini i) ip (record pi { local = false })
size_elsewhere env st ip pi none =
    size_remote env st ip pi ((findgregion st ip).0, map_log of_find (findgregion st ip).1)

-- An address that is not in the directory of the heap.
unfoldable pub size_missing : Env → Heaps → ℕ → PtrInfo → SizeOut
size_missing env st ip pi =
    if ip == env.zeroblock
    then (some 0, pi, [])
    else if leb (2 ^ 48) ip
    then (none, pi, out_of_range ip ∷ [])
    else if ltb ip 4096
    then (none, pi, page_zero ip ∷ [])
    else size_elsewhere env st ip pi (mini_at st ip st.hd.mhb)

abbrev pub size_found : Env → Heaps → ℕ → ℕ → PtrInfo → Option ℕ × List HeapDiag → SizeOut
size_found env st h ip pi (none, log) =
    let (len, pi', log') = size_missing env st ip pi in (len, pi', log ++ log')
size_found env st h ip pi (some n, log) =
    let (len, pi', log') =
      size_place env st (in_heap h (reg_name n)) ip (record pi { local = true }) in
    (len, pi', log ++ log')

-- The length of the block at `ip`, or none. `hb` is the heap of the thread, if it has locked one.
unfoldable pub size_heap : Env → Heaps → Option ℕ → ℕ → PtrInfo → SizeOut
size_heap env st none ip pi = size_missing env st ip pi
size_heap env st (some h) ip pi =
    size_found env st h ip pi
      ((find_local (st.heaps h) ip).0, map_log of_find (find_local (st.heaps h) ip).1)
