-- ===== src/Slab/Marks.antt =====
-- slab.h `markfree`, `slab_chkfree`, `slab_markused`, `slab_getlen`, `slab_setlen`, `slab_cel`.
-- The compare-and-swap of a state byte is a test and a write in one step.
use yalloc.Base.{
  ℕ, ◌-◌, ◌*◌, ◌/◌, ◌%◌, ◌^◌, Bool, true, false, ◌||◌, Option, none, some, List, [], ◌∷◌, ◌++◌, ltb,
  leb, ◌==◌, if◌then◌else◌, update,
}
use yalloc.Word.{ub4_mod}
use yalloc.Slab.Region.{
  cel_nolen, Region, Diag, assertion, never_allocated, double_free, bad_status, not_free,
  beyond_region, inside_block, Out,
}

-- Mark a cell as freed, 2 by its own heap and 3 by another; true on an error.
unfoldable pub markfree : Region → ℕ → ℕ → Out Bool
markfree reg cel to =
    let from = reg.binset cel in
    if from == 1
    then (false, record reg { binset = update reg.binset cel to }, [])
    else if leb reg.inipos cel
    then (true, reg, never_allocated cel ∷ [])
    else if from == 2 || from == 3
    then (true, reg, double_free cel ∷ [])
    else (true, reg, bad_status cel from ∷ [])

-- As above, just check.
unfoldable pub slab_chkfree : Region → ℕ → ℕ
slab_chkfree reg cel = reg.binset cel

-- Mark a cell in the state `from` as allocated; true on an error.
unfoldable pub slab_markused : Region → ℕ → ℕ → Out Bool
slab_markused reg cel from =
    let expect = reg.binset cel in
    if expect == from
    then (false, record reg { binset = update reg.binset cel 1 }, [])
    else if leb reg.inipos cel
    then (true, reg, never_allocated cel ∷ [])
    else (true, reg, not_free cel expect ∷ [])

-- The net length that the user asked for.
unfoldable pub slab_getlen : Region → ℕ → ℕ → ℕ × List Diag
slab_getlen reg cel cellen =
    let ulen = reg.lens cel in if ltb cellen ulen then (0, assertion ∷ []) else (ulen, [])

unfoldable pub slab_setlen : Region → ℕ → ℕ → Out Bool
slab_setlen reg cel len =
    if len == 0
    then (true, reg, assertion ∷ [])
    else if ltb reg.cellen len
    then (true, reg, assertion ∷ [])
    else (false, record reg { lens = update reg.lens cel len }, [])

-- The offset by shift where the cell length is a power of two, cast to `ub4`.
unfoldable pub cel_of_ofs : Region → ℕ → ℕ → ℕ
cel_of_ofs reg cellen ofs8 =
    if reg.celord == 0 then ofs8 / cellen % ub4_mod else ofs8 / 2 ^ reg.celord % ub4_mod

-- The cell of a block address, checked.
unfoldable pub slab_cel : Region → ℕ → ℕ → ℕ → Option ℕ × List Diag
unfolding cel_of_ofs slab_getlen
slab_cel reg ip cellen celcnt =
    if ltb ip reg.user
    then (none, assertion ∷ [])
    else let ofs8 = ip - reg.user in
      let cel = cel_of_ofs reg cellen ofs8 in
      if leb celcnt cel
      then (none, beyond_region cel ∷ [])
      else if cel * cellen == ofs8
      then (some cel, [])
      else let ulen = if ltb cel_nolen cellen then slab_getlen reg cel cellen else (cellen, []) in
        (none, ulen.1 ++ (inside_block cel ∷ []))
