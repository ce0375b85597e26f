-- ===== src/Mmap/Resize.antt =====
-- realloc.h `real_mmap` for a block of the heap at hand: its memory gets a new length, and perhaps a new
-- place. What osmremap() answers for a length is an argument.
use yalloc.Base.{
  ℕ, ◌+◌, ◌/◌, ◌%◌, Bool, true, false, not, Option, none, some, [], ◌∷◌, ◌==◌, if◌then◌else◌,
}
use yalloc.Word.{doalign8, add8}
use yalloc.Directory.Tree.{Dirs}
use yalloc.Directory.Set.{setregion}
use yalloc.Mmap.State.{pagesize, MpRegion, MpHeap, Sys, assertion, MpOut, mp_id, put_reg}

-- From the second change of length on with an eighth more, in whole pages.
unfoldable pub resized_len : MpRegion → ℕ → ℕ
resized_len r newlen = doalign8 (if r.real == 0 then newlen else add8 newlen (newlen / 8)) pagesize

abbrev pub set_page : Sys → Dirs → ℕ → ℕ → Bool → Dirs
set_page sys dirs reg ip add = (setregion sys.osmem dirs (mp_id reg) ip pagesize add).1

-- An aligned block: in place, or at its new place.
abbrev pub aligned_placed : Sys → MpHeap → ℕ → ℕ → ℕ → Option ℕ → MpOut (Option ℕ)
aligned_placed sys hb reg newlen newulen none = (none, hb, [])
aligned_placed sys hb reg newlen newulen (some nip) =
    let r = hb.regs reg in
    let dirs = set_page sys (set_page sys hb.dirs reg r.user false) reg (r.user + r.align) false in
    let dirs' = set_page sys (set_page sys dirs reg nip true) reg (nip + r.align) true in
    let grown : MpRegion = record r { len = newlen + r.align; ulen = newulen } in
    if not (nip % pagesize == 0)
    then (none, hb, assertion ∷ [])
    else if nip == r.user
    then (some r.user, put_reg hb reg grown, [])
    else (
      some (nip + r.align),
      put_reg (record hb { dirs = dirs' }) reg (record grown { user = nip }),
      [],
    )

-- The others.
abbrev pub plain_placed : Sys → MpHeap → ℕ → ℕ → ℕ → Option ℕ → MpOut (Option ℕ)
plain_placed sys hb reg newlen newulen none = (none, hb, [])
plain_placed sys hb reg newlen newulen (some nip) =
    let r = hb.regs reg in
    let dirs = set_page sys (set_page sys hb.dirs reg r.user false) reg nip true in
    let grown : MpRegion = record r { len = newlen; ulen = newulen } in
    if nip == r.user
    then (some r.user, put_reg hb reg grown, [])
    else if not (nip % pagesize == 0)
    then (none, put_reg hb reg grown, assertion ∷ [])
    else (some nip, put_reg (record hb { dirs = dirs }) reg (record grown { user = nip }), [])

-- The new address, or none.
unfoldable pub real_mmap : Sys → (ℕ → Option ℕ) → MpHeap → ℕ → ℕ → ℕ → MpOut (Option ℕ)
real_mmap sys osmremap hb reg newlen newulen =
    let r = hb.regs reg in
    let len = resized_len r newlen in
    let hb' = put_reg hb reg (record r { real = 1 }) in
    if r.align == 0
    then plain_placed sys hb' reg len newulen (osmremap len)
    else if not (r.align % pagesize == 0)
    then (none, hb', assertion ∷ [])
    else aligned_placed sys hb' reg len newulen (osmremap (len + r.align))
