-- ===== src/Bump/Alloc.antt =====
-- bump.h `bumpalloc`.
use yalloc.Base.{
  ℕ, zero, suc, ◌+◌, ◌/◌, ◌%◌, ◌^◌, bit_and, Bool, true, false, ◌&&◌, ◌||◌, not, Option, none, some,
  List, [], ◌∷◌, ◌++◌, ltb, leb, ◌==◌, if◌then◌else◌, update,
}
use yalloc.Word.{add4, sub4, doalign4}
use yalloc.Bump.Region.{
  stdalign, pagesize, bumplen, BumpRegion, BumpDiag, assertion, not_free, BumpOut, newbump,
}

-- Where the block starts: for aligned_alloc() with more than the usual alignment, at the next
-- multiple of `align`, unless that is too far or does not fit.
abbrev pub bump_pos : BumpRegion → ℕ → ℕ → Bool → Option ℕ
bump_pos reg len align is_allocal =
    let apos = if reg.pos == 0 then reg.pos else doalign4 reg.pos align in
    if is_allocal && ltb stdalign align
    then if ltb reg.len (add4 apos len)
      then none
      else if ltb pagesize align || ltb 512 (sub4 apos reg.pos)
      then none
      else some apos
    else some reg.pos

-- From `reg->pos = pos + len` on, after the checks.
abbrev pub bump_take : BumpRegion → ℕ → ℕ → BumpOut (Option ℕ)
bump_take reg pos len =
    let cel = pos / stdalign in
    let reg' = record reg { pos = add4 pos len } in
    if reg.fres cel == 0
    then (
      some (reg.user + pos),
      record reg' {
        fres = update reg.fres cel 1;
        lens = update reg.lens cel (len / stdalign % 2 ^ 16);
        allocs = reg.allocs + 1;
      },
      [],
    )
    else (none, reg', not_free cel ∷ [])

-- The checks, and the block.
abbrev pub bump_at : BumpRegion → ℕ → ℕ → Option ℕ → BumpOut (Option ℕ)
bump_at reg len align none = (none, reg, [])
bump_at reg len align (some pos) =
    if not (bit_and pos (sub4 align 1) == 0)
    then (none, reg, assertion ∷ [])
    else if ltb reg.len (add4 pos len)
    then (none, reg, assertion ∷ [])
    else bump_take reg pos len

-- The block in the region that was chosen: from `base = reg->user` to the end.
unfoldable pub bump_block : BumpRegion → ℕ → ℕ → Bool → BumpOut (Option ℕ)
bump_block reg len align is_allocal = bump_at reg len align (bump_pos reg len align is_allocal)

-- The regions after the search, those entered in the directory, and what was reported.
abbrev pub PickOut : Type 0
PickOut = Option ℕ × (ℕ → BumpRegion) × List ℕ × List BumpDiag

abbrev pub pick_log : List ℕ → List BumpDiag → PickOut → PickOut
pick_log entered log (found, regs, entered', log') = (found, regs, entered ++ entered', log ++ log')

-- The region at `regpos`, if it has room, or the rest of the search.
abbrev pub pick_here : ((ℕ → BumpRegion) → PickOut) → (ℕ → BumpRegion) → ℕ → ℕ → PickOut
pick_here rest regs regpos len =
    if leb (add4 (regs regpos).pos len) (regs regpos).len
    then (some regpos, regs, [], [])
    else rest regs

-- With the outcome of newbump(): an error ends the search.
abbrev pub pick_new :
    ((ℕ → BumpRegion) → PickOut) → (ℕ → BumpRegion) → ℕ → ℕ → BumpOut Bool → PickOut
pick_new rest regs regpos len (true, made, log) = (none, update regs regpos made, [], log)
pick_new rest regs regpos len (false, made, log) =
    pick_log (regpos ∷ []) log (pick_here rest (update regs regpos made) regpos len)

-- The position of the first region with room, from `regpos` on, with the number of regions left.
-- A region that has no block of memory yet gets one. What the system answers is asked by position.
unfoldable pub bump_pick :
    ℕ → (ℕ → Option ℕ) → (ℕ → Option ℕ) → ℕ → ℕ → ℕ → (ℕ → BumpRegion) → PickOut
bump_pick hid user meta len zero regpos regs = (none, regs, [], [])
bump_pick hid user meta len (suc left) regpos regs =
    let rest : (ℕ → BumpRegion) → PickOut =
      λ regs'. bump_pick hid user meta len left (regpos + 1) regs' in
    let made = newbump hid (regs regpos) bumplen regpos false (user regpos) (meta regpos) in
    if (regs regpos).len == 0
    then pick_new rest regs regpos len made
    else pick_here rest regs regpos len

-- The block in the region that was found.
abbrev pub bump_served : ℕ → ℕ → Bool → PickOut → PickOut
bump_served len align is_allocal (none, regs, entered, log) = (none, regs, entered, log)
bump_served len align is_allocal (some regpos, regs, entered, log) =
    let (ip, reg, log') = bump_block (regs regpos) len align is_allocal in
    (ip, update regs regpos reg, entered, log ++ log')

-- bumpalloc() for a heap's regions; those of the mini heap are the single region of `mini_block`.
unfoldable pub bumpalloc :
    ℕ → (ℕ → Option ℕ) → (ℕ → Option ℕ) → (ℕ → BumpRegion) → ℕ → ℕ → ℕ → Bool → PickOut
bumpalloc hid user meta regs regcnt ulen align is_allocal =
    let len = doalign4 ulen stdalign in
    bump_served len align is_allocal (bump_pick hid user meta len regcnt 0 regs)

-- bumpalloc() for the region of the mini heap.
unfoldable pub mini_block : BumpRegion → ℕ → ℕ → Bool → BumpOut (Option ℕ)
unfolding bump_block
mini_block reg ulen align is_allocal =
    let len = doalign4 ulen stdalign in
    if ltb reg.len (add4 reg.pos len) then (none, reg, []) else bump_block reg len align is_allocal
