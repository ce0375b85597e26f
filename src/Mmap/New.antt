-- ===== src/Mmap/New.antt =====
-- region.h `newmpregmem`, `newmpregion`.
use yalloc.Base.{
  ℕ, ◌+◌, ◌-◌, ◌*◌, ◌%◌, Bool, true, false, ◌&&◌, ◌||◌, not, Option, none, some, [], ◌∷◌, ltb, leb,
  ◌==◌, if◌then◌else◌, update,
}
use yalloc.Word.{clzl}
use yalloc.SizeClass.Popular.{mmap_limit}
use yalloc.Mmap.State.{
  pagesize, vmbits, xregmem_inc, Rtype, rnone, rmmap, MpRegion, MpHeap, Sys, assertion, MpOut,
  put_reg,
}
use yalloc.Mmap.Choose.{choose_region}

-- `sizeof(mpregion)`
abbrev pub mpregion_size : ℕ
mpregion_size = 128

-- Memory for a region, from the pool: its address, or none.
unfoldable pub newmpregmem : Sys → MpHeap → Option ℕ × MpHeap
newmpregmem sys hb =
    let pos = hb.xregmem_pos in
    let mapped = record hb { stat = record (hb.stat) { mmaps = hb.stat.mmaps + 1 } } in
    if pos == xregmem_inc
    then elim (sys.osmem (xregmem_inc * mpregion_size)) [
      | none ↦ (none, mapped)
      | some reg ↦ (some reg, record mapped { xregmem = reg; xregmem_pos = 1 })
    ]
    else (some (hb.xregmem + pos * mpregion_size), record hb { xregmem_pos = pos + 1 })

abbrev pub is_mmap : Rtype → Bool
is_mmap rmmap = true
is_mmap _ = false

-- The list of all regions, for ageing.
abbrev pub enlist_after : MpHeap → ℕ → Option ℕ → Option MpHeap
enlist_after hb reg none = none
enlist_after hb reg (some preg) =
    if not (is_mmap (hb.regs preg).typ)
    then none
    else some (record hb { nxt = update hb.nxt preg (some reg); mpregprv = some reg })

abbrev pub enlist : MpHeap → ℕ → Option ℕ → Option MpHeap
enlist hb reg none =
    some (record hb { mpreglst = some reg; mpregtrim = some reg; mpregprv = some reg })
enlist hb reg (some first) = enlist_after hb reg hb.mpregprv

-- A region that is new: given as if it was freed.
abbrev pub fresh_enlisted : ℕ → ℕ → MpHeap → Option MpHeap → MpOut (Option ℕ)
fresh_enlisted reg order hb none = (none, hb, assertion ∷ [])
fresh_enlisted reg order hb (some hb') = (
  some reg,
  put_reg hb' reg (record (hb'.regs reg) { order = order; age = 0; aged = 0; set = 2 }),
  [],
)

abbrev pub fresh_at : ℕ → ℕ → Option ℕ × MpHeap → MpOut (Option ℕ)
fresh_at reg order (none, hb) = (none, hb, [])
fresh_at reg order (some at, hb) = fresh_enlisted reg order hb (enlist hb reg hb.mpreglst)

unfoldable pub fresh_region : Sys → MpHeap → ℕ → MpOut (Option ℕ)
fresh_region sys hb order =
    let counted = record hb {
      stat = record (hb.stat) { newmpregions = hb.stat.newmpregions + 1 };
    } in
    fresh_at hb.stat.newmpregions order (newmpregmem sys counted)

-- The end of a reuse.
abbrev pub reused : MpHeap → ℕ → MpRegion → MpOut (Option ℕ)
reused hb reg r = (some reg, put_reg hb reg (record r { age = 0; aged = 0; typ = rnone }), [])

-- Memory for a region whose memory was given back.
abbrev pub refill : MpHeap → ℕ → ℕ → ℕ → Option ℕ → MpOut (Option ℕ)
refill hb reg len order none = (none, hb, [])
refill hb reg len order (some user) =
    if not (user % pagesize == 0)
    then (none, hb, assertion ∷ [])
    else reused hb reg
        (record (hb.regs reg) { user = user; len = len; order = order; clr = 0; real = 0; set = 2 })

unfoldable pub reuse_region : Sys → MpHeap → ℕ → ℕ → ℕ → MpOut (Option ℕ)
reuse_region sys hb reg len order =
    let r = hb.regs reg in
    let hb' = record hb {
      links = record {
        frenxt = update hb.links.frenxt reg none;
        freprv = update hb.links.freprv reg none;
      };
      stat = record (hb.stat) { usempregions = hb.stat.usempregions + 1 };
    } in
    if not (r.len == 0)
    then reused hb' reg (record r { gen = r.gen + 1; clr = 1 })
    else refill hb' reg len order (sys.osmmap len)

abbrev pub new_chosen : Sys → ℕ → ℕ → Option ℕ × MpHeap → MpOut (Option ℕ)
new_chosen sys len order (none, hb) = fresh_region sys hb order
new_chosen sys len order (some reg, hb) = reuse_region sys hb reg len order

-- A region for `len` bytes: one that was freed, or a new one, which has no memory yet.
unfoldable pub newmpregion : Sys → MpHeap → ℕ → Bool → MpOut (Option ℕ)
newmpregion sys hb len is_allocal =
    let order = 64 - clzl len in
    if ltb len mmap_limit && not is_allocal
    then (none, hb, assertion ∷ [])
    else if ltb order 12 || leb vmbits order
    then (none, hb, assertion ∷ [])
    else new_chosen sys len order (choose_region hb len order)
