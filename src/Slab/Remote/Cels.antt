-- ===== src/Slab/Remote/Cels.antt =====
-- slab.h `cels2rbin`: buffered cells go to the remote bin of their region. What getrbinmem() answers is
-- an argument: memory with some contents, by the number of entries, or none.
use yalloc.Base.{
  ℕ, zero, suc, ◌+◌, ◌*◌, ◌%◌, max, not, Option, none, some, [], ◌∷◌, ltb, leb, ◌==◌, if◌then◌else◌,
  update,
}
use yalloc.Word.{ub4_mod, add4, doalign4}
use yalloc.Slab.Region.{rbinbuf, Region, assertion, Out}

-- `memcpy(rbin2,rbin,rpos * 4)`
abbrev pub copy : (ℕ → ℕ) → (ℕ → ℕ) → ℕ → ℕ → ℕ
copy to from n i = if ltb i n then from i else to i

-- `for (c = 0; c < cnt; c++)`, with the count of rounds left: the new position in the remote bin, or
-- none on an error, and the remote bin.
unfoldable pub rbin_loop : ℕ → (ℕ → ℕ) → ℕ → ℕ → (ℕ → ℕ) → ℕ → Option ℕ × (ℕ → ℕ)
rbin_loop celcnt bin zero c rbin rpos = (some rpos, rbin)
rbin_loop celcnt bin (suc left) c rbin rpos =
    let cel = bin c in
    let rest = rbin_loop celcnt bin left (c + 1) (update rbin rpos cel) (rpos + 1) in
    if leb celcnt cel then (none, rbin) else rest

-- After the remote bin has room: the check of the sizes, the loop, and the new position. The result is
-- 0, or the number of cells that were not moved.
abbrev pub rbin_add : (ℕ → ℕ) → Region → ℕ → Option ℕ × (ℕ → ℕ) → Out ℕ
rbin_add bin reg cnt (none, rbin) = (cnt, record reg { rembin = some rbin }, assertion ∷ [])
rbin_add bin reg cnt (some rpos, rbin) = (0, record reg { rembin = some rbin; rbinpos = rpos }, [])

abbrev pub rbin_put : (ℕ → ℕ) → Region → ℕ → (ℕ → ℕ) → Out ℕ
rbin_put bin reg cnt rbin =
    if ltb reg.celcnt (add4 (add4 reg.binpos reg.rbinpos) cnt)
    then (cnt, reg, assertion ∷ [])
    else rbin_add bin reg cnt (rbin_loop reg.celcnt bin cnt 0 rbin reg.rbinpos)

-- A larger remote bin with the entries of the old one.
abbrev pub rbin_grow : (ℕ → Option (ℕ → ℕ)) → (ℕ → ℕ) → Region → ℕ → ℕ → Option (ℕ → ℕ) → Out ℕ
rbin_grow getrbinmem bin reg cnt rcnt old =
    let rcnt' = doalign4 (add4 (max rcnt reg.rbininc) rbinbuf) rbinbuf in
    let reg' = record reg { rbininc = reg.rbininc * 2 % ub4_mod } in
    elim (getrbinmem rcnt') [
      | none ↦ (cnt, reg', [])
      | some fresh ↦
          let rbin : ℕ → ℕ = elim old [ none ↦ fresh | some rbin ↦ copy fresh rbin reg.rbinpos ] in
          rbin_put bin (record reg' { rembin = some rbin; rbinlen = rcnt' }) cnt rbin
    ]

abbrev pub rbin_of : (ℕ → Option (ℕ → ℕ)) → (ℕ → ℕ) → Region → ℕ → Option (ℕ → ℕ) → Out ℕ
rbin_of getrbinmem bin reg cnt none =
    if not (reg.rbinpos == 0)
    then (1, reg, assertion ∷ [])
    else rbin_grow getrbinmem bin reg cnt (doalign4 (add4 cnt rbinbuf) rbinbuf) none
rbin_of getrbinmem bin reg cnt (some rbin) =
    let rcnt = doalign4 (add4 (add4 reg.rbinpos cnt) rbinbuf) rbinbuf in
    if ltb reg.rbinlen rcnt
    then rbin_grow getrbinmem bin reg cnt rcnt (some rbin)
    else rbin_put bin reg cnt rbin

-- Add cells to the remote bin. They are marked already. 0, or the number of cells not added. The
-- reference of the region is counted first, on an error too.
unfoldable pub cels2rbin : (ℕ → Option (ℕ → ℕ)) → (ℕ → ℕ) → Region → ℕ → Out ℕ
cels2rbin getrbinmem bin reg cnt =
    let reg' = record reg {
      remref = if reg.rbinpos == 0 then (reg.remref + 1) % ub4_mod else reg.remref;
    } in
    rbin_of getrbinmem bin reg' cnt reg.rembin
