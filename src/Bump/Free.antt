-- ===== src/Bump/Free.antt =====
-- bump.h `bump_free`: take a block back, or tell its length. The check that the region is one of the
-- heap's own compares addresses of the records and is the caller's here.
use yalloc.Base.{
  ℕ, ◌+◌, ◌-◌, ◌*◌, ◌/◌, ◌%◌, bit_and, ◌||◌, not, Option, none, some, List, [], ◌∷◌, ltb, leb, ◌==◌,
  if◌then◌else◌, update,
}
use yalloc.Word.{ub4_mod, add8, sub8}
use yalloc.Bump.Region.{
  stdalign, BumpRegion, BumpDiag, invalid_ptr, above_cnt, already_freed, bad_status,
  never_allocated, BumpOut,
}

-- The cell of an address, or what is wrong with it.
unfoldable pub bump_cel : BumpRegion → ℕ → Option ℕ × List BumpDiag
bump_cel reg ip =
    let ofs = (ip - reg.user) % ub4_mod in
    let cel = ofs / stdalign in
    if ltb ip reg.user || ltb (sub8 (add8 reg.user reg.len) stdalign) ip
    then (none, invalid_ptr ip ∷ [])
    else if not (bit_and ofs (stdalign - 1) == 0)
    then (none, invalid_ptr ip ∷ [])
    else if leb reg.cnt cel
    then (none, above_cnt cel ∷ [])
    else (some cel, [])

-- What is asked for: to free a block, or, with `reqlen = Nolen`, to tell its length. An error is then
-- answered with what do_ylog() answers: 0, or the length of the text that it logged; free2() answers 0.
pub data BumpAsk : Type 0 where
  to_free : BumpAsk
  to_size : ℕ → BumpAsk

-- `reqlen = Nolen`: the length of a block that is in use
abbrev pub bump_size : ℕ → BumpRegion → ℕ → ℕ × List BumpDiag
bump_size logged reg cel =
    let one = reg.fres cel in
    if one == 1
    then (reg.lens cel * stdalign, [])
    else if one == 0
    then (logged, never_allocated cel ∷ [])
    else if one == 2
    then (0, already_freed cel ∷ [])
    else (logged, bad_status cel one ∷ [])

-- Mark for double free. The length of the block, or 0 on an error.
abbrev pub bump_mark : BumpRegion → ℕ → BumpOut ℕ
bump_mark reg cel =
    let one = reg.fres cel in
    if one == 1
    then (
      reg.lens cel * stdalign,
      record reg { fres = update reg.fres cel 2; frees = reg.frees + 1 },
      [],
    )
    else if one == 2
    then (0, reg, already_freed cel ∷ [])
    else (0, reg, bad_status cel one ∷ [])

-- Once the cell is known.
abbrev pub bump_found : BumpRegion → BumpAsk → Option ℕ × List BumpDiag → BumpOut ℕ
bump_found reg ask (none, log) = (0, reg, log)
bump_found reg (to_size logged) (some cel, log) =
    ((bump_size logged reg cel).0, reg, (bump_size logged reg cel).1)
bump_found reg to_free (some cel, log) = bump_mark reg cel

unfoldable pub bump_free : BumpRegion → ℕ → BumpAsk → BumpOut ℕ
bump_free reg ip ask = bump_found reg ask (bump_cel reg ip)
