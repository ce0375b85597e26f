-- ===== src/Slab/Remote/Move.antt =====
-- slab.h `cels2rbin`: no cell is lost or doubled on its way from a buffer to the remote bin.
use native.Mathlib.Decide.{dec_lt}
use yalloc.Base.{
  ℕ, ◌+◌, ◌*◌, ◌%◌, ◌^◌, max, ◌≤◌, ◌<◌, ◌≡◌, ◌≢◌, ◌⊎◌, inl, inr, refl, true, false, Option, none,
  some, [], ltb, ◌==◌, if◌then◌else◌, arith, subst,
}
use yalloc.Word.{add4, doalign4, ub4_mod}
use yalloc.Word.Align.{doalign4-IsRoundUp}
use yalloc.Slab.Region.{Region, Out}
use yalloc.Slab.Count.{count, count-add-le}
use yalloc.Slab.Valid.{IsListOf, IsRemoteBin, IsValid}
use yalloc.Slab.Remote.Cels.{copy, rbin_put, rbin_grow, rbin_of, cels2rbin}
use yalloc.Slab.Remote.Lists.{rbin_put_lem, copy-IsListOf}

-- No entry of a remote bin is among the first `cnt` of a buffer.
abbrev pub Apart : Region → Option (ℕ → ℕ) → ℕ → (ℕ → ℕ) → Type 0
Apart reg none cnt bin = Unit
Apart reg (some rbin) cnt bin = (i j : ℕ) → i < reg.rbinpos → j < cnt → rbin i ≢ bin j

-- The buffer of another heap holds `cnt` cells of the region.
pub record IsPending (reg : Region) (cnt : ℕ) (bin : ℕ → ℕ) : Type 0 where
  pub list : IsListOf 3 reg.inipos reg.binset cnt bin
  pub apart : Apart reg reg.rembin cnt bin
  pub counted : reg.rbinpos + cnt ≤ count 3 reg.celcnt reg.binset

-- The cells went to the remote bin.
abbrev pub Moved : Region → ℕ → Out ℕ → Type 0
Moved reg cnt (left, reg', log) =
    (left ≡ 0)
    × (log ≡ [])
    × IsValid reg'
    × (reg'.rbinpos ≡ reg.rbinpos + cnt)
    × (reg'.binset ≡ reg.binset)

-- There was no memory for the remote bin, and the cells are left with the buffer.
abbrev pub Left : (ℕ → Option (ℕ → ℕ)) → Region → ℕ → Out ℕ → Type 0
Left getrbinmem reg cnt (left, reg', log) =
    (left ≡ cnt)
    × (log ≡ [])
    × IsValid reg'
    × (reg'.rbinpos ≡ reg.rbinpos)
    × (reg'.binset ≡ reg.binset)
    × ((n : ℕ) × (getrbinmem n ≡ none))

-- What the region is when the remote bin has room.
module _ (reg : Region) (v : IsValid reg) (small : reg.celcnt < 2 ^ 31) (cnt : ℕ) (pos : 0 < cnt)
    (bin : ℕ → ℕ) (p : IsPending reg cnt bin) where
  fits : reg.binpos + (reg.rbinpos + cnt) ≤ reg.celcnt
  fits = omega (arith, p.counted, v.bin_count, count-add-le 2 3 reg.celcnt reg.binset (omega arith))

  put-Moved :
      (ref inc len : ℕ) (rbin : ℕ → ℕ) (rem : Option (ℕ → ℕ))
      → 0 < ref
      → reg.rbinpos + cnt < len
      → IsListOf 3 reg.inipos reg.binset reg.rbinpos rbin
      → ((i j : ℕ) → i < reg.rbinpos → j < cnt → rbin i ≢ bin j)
      → Moved reg cnt (
          rbin_put bin
            (record reg { remref = ref; rbininc = inc; rbinlen = len; rembin = rem })
            cnt
            rbin)
  put-Moved ref inc len rbin rem some_ref room l apart =
      let reg' = record reg { remref = ref; rbininc = inc; rbinlen = len; rembin = rem } in
      let (rbin', e, l') =
        rbin_put_lem reg' rbin bin cnt (omega arith) v.inipos_le fits l p.list apart in
      rw e (
        refl,
        refl,
        record {
          small = v.small;
          inipos_le = v.inipos_le;
          fresh = v.fresh;
          begun = v.begun;
          bin_list = v.bin_list;
          bin_count = v.bin_count;
          remote_list = (l', room);
          remote_count = p.counted;
          referred = λ h. some_ref;
          room = v.room;
        },
        refl,
        refl,
      )

  -- The entries of a remote bin in new memory.
  abbrev entries : (ℕ → ℕ) → Option (ℕ → ℕ) → ℕ → ℕ
  entries fresh old = elim old [ none ↦ fresh | some rbin ↦ copy fresh rbin reg.rbinpos ]

  new_list :
      (fresh : ℕ → ℕ) (old : Option (ℕ → ℕ))
      → reg.rembin ≡ old
      → IsListOf 3 reg.inipos reg.binset reg.rbinpos (entries fresh old)
        × ((i j : ℕ) → i < reg.rbinpos → j < cnt → entries fresh old i ≢ bin j)
  new_list fresh none e =
      let empty : reg.rbinpos ≡ 0 = subst (IsRemoteBin reg) e v.remote_list in
      (
        record {
          started = λ i h. absurd (omega arith);
          status = λ i h. absurd (omega arith);
          distinct = λ i j h. absurd (omega arith);
        },
        λ i j h. absurd (omega arith),
      )
  new_list fresh (some rbin) e =
      let l : IsRemoteBin reg (some rbin) = subst (IsRemoteBin reg) e v.remote_list in
      let apart : Apart reg (some rbin) cnt bin = subst (λ o. Apart reg o cnt bin) e p.apart in
      (copy-IsListOf reg.rbinpos fresh rbin l.0, λ i j hi hj. ground (arith, apart i j hi hj))

  -- Rounding up to the next 64 leaves room above.
  round_lem : (x : ℕ) → x + 128 < 2 ^ 32 → x ≤ doalign4 x 64
  round_lem x h = (doalign4-IsRoundUp x 6 (omega arith) (omega arith)).above

  grow-Moved :
      (getrbinmem : ℕ → Option (ℕ → ℕ)) (ref rcnt : ℕ) (old : Option (ℕ → ℕ))
      → 0 < ref
      → reg.rbininc ≤ 2 ^ 30
      → rcnt ≤ 2 ^ 31 + 256
      → reg.rbinpos + cnt ≤ rcnt
      → reg.rembin ≡ old
      → Moved reg cnt (rbin_grow getrbinmem bin (record reg { remref = ref }) cnt rcnt old)
        ⊎ Left getrbinmem reg cnt
            (rbin_grow getrbinmem bin (record reg { remref = ref }) cnt rcnt old)
  grow-Moved getrbinmem ref rcnt old some_ref inc_le rcnt_le le e =
      go (getrbinmem (doalign4 (add4 (max rcnt reg.rbininc) 64) 64)) refl
    where
      left_list :
          (o : Option (ℕ → ℕ))
          → IsRemoteBin reg o
          → IsRemoteBin (record reg { remref = ref; rbininc = reg.rbininc * 2 % ub4_mod }) o
      left_list none h = h
      left_list (some rbin) h = h

      len : ℕ
      len = doalign4 (add4 (max rcnt reg.rbininc) 64) 64

      large : reg.rbinpos + cnt < len
      large =
          let sum : add4 (max rcnt reg.rbininc) 64 ≡ max rcnt reg.rbininc + 64 = omega arith in
          let above = round_lem (max rcnt reg.rbininc + 64) (omega arith) in rw sum (omega arith)

      grown : Option (ℕ → ℕ) → Out ℕ
      grown mem = elim mem [
        | none ↦ (cnt, record reg { remref = ref; rbininc = reg.rbininc * 2 % ub4_mod }, [])
        | some fresh ↦
            rbin_put bin
              (record reg {
                remref = ref;
                rbininc = reg.rbininc * 2 % ub4_mod;
                rembin = some (elim old [ none ↦ fresh | some rbin ↦ copy fresh rbin reg.rbinpos ]);
                rbinlen = doalign4 (add4 (max rcnt reg.rbininc) 64) 64;
              })
              cnt (elim old [ none ↦ fresh | some rbin ↦ copy fresh rbin reg.rbinpos ])
      ]

      go :
          (mem : Option (ℕ → ℕ))
          → getrbinmem len ≡ mem
          → Moved reg cnt (grown mem) ⊎ Left getrbinmem reg cnt (grown mem)
      go none none_left = inr (
        refl,
        refl,
        record {
          small = v.small;
          inipos_le = v.inipos_le;
          fresh = v.fresh;
          begun = v.begun;
          bin_list = v.bin_list;
          bin_count = v.bin_count;
          remote_list = left_list reg.rembin v.remote_list;
          remote_count = v.remote_count;
          referred = λ h. some_ref;
          room = v.room;
        },
        refl,
        refl,
        (len, none_left),
      )
      go (some fresh) some_mem =
          let (l, apart) = new_list fresh old e in
          inl (put-Moved ref (reg.rbininc * 2 % ub4_mod) len _ _ some_ref large l apart)

  -- A remote bin that is large enough takes the cells as it is.
  of-Moved :
      (getrbinmem : ℕ → Option (ℕ → ℕ)) (ref : ℕ) (old : Option (ℕ → ℕ))
      → 0 < ref
      → reg.rbininc ≤ 2 ^ 30
      → reg.rembin ≡ old
      → Moved reg cnt (rbin_of getrbinmem bin (record reg { remref = ref }) cnt old)
        ⊎ Left getrbinmem reg cnt (rbin_of getrbinmem bin (record reg { remref = ref }) cnt old)
  of-Moved getrbinmem ref none some_ref inc_le e =
      let empty : reg.rbinpos ≡ 0 = subst (IsRemoteBin reg) e v.remote_list in
      let test : (reg.rbinpos == 0) ≡ true = ground arith in
      let sum : add4 cnt 64 ≡ cnt + 64 = omega (arith, fits) in
      let up = doalign4-IsRoundUp (cnt + 64) 6 (omega arith) (omega (arith, fits)) in
      rw (test, sum)
        (grow-Moved getrbinmem ref (doalign4 (cnt + 64) 64) none some_ref inc_le
          (omega (arith, up.near, fits)) (omega (arith, up.above)) e)
  of-Moved getrbinmem ref (some rbin) some_ref inc_le e =
      let (l, room) : IsListOf 3 reg.inipos reg.binset reg.rbinpos rbin
          × (reg.rbinpos < reg.rbinlen) =
        subst (IsRemoteBin reg) e v.remote_list in
      let apart : (i j : ℕ) → i < reg.rbinpos → j < cnt → rbin i ≢ bin j =
        subst (λ o. Apart reg o cnt bin) e p.apart in
      let sum : add4 (add4 reg.rbinpos cnt) 64 ≡ reg.rbinpos + cnt + 64 = omega (arith, fits) in
      let up = doalign4-IsRoundUp (reg.rbinpos + cnt + 64) 6 (omega arith) (omega (arith, fits)) in
      let rcnt = doalign4 (reg.rbinpos + cnt + 64) 64 in
      elim (dec_lt reg.rbinlen rcnt) [
        | yes over ↦
            let test : ltb reg.rbinlen rcnt ≡ true = ground arith in
            rw (sum, test)
              (grow-Moved getrbinmem ref rcnt (some rbin) some_ref inc_le
                (omega (arith, up.near, fits)) (omega (arith, up.above)) e)
        | no enough ↦
            let test : ltb reg.rbinlen rcnt ≡ false = ground arith in
            rw (sum, test)
              (inl (
                put-Moved ref reg.rbininc reg.rbinlen rbin reg.rembin some_ref
                  (omega (arith, up.above)) l apart))
      ]

  -- Whether there is memory for the remote bin or not.
  pub cels2rbin_lem :
      (getrbinmem : ℕ → Option (ℕ → ℕ))
      → reg.rbininc ≤ 2 ^ 30
      → reg.remref + 1 < 2 ^ 32
      → Moved reg cnt (cels2rbin getrbinmem bin reg cnt)
        ⊎ Left getrbinmem reg cnt (cels2rbin getrbinmem bin reg cnt)
  unfolding cels2rbin
  cels2rbin_lem getrbinmem inc_le ref_lt =
      of-Moved getrbinmem (if reg.rbinpos == 0 then (reg.remref + 1) % ub4_mod else reg.remref)
        reg.rembin (ground (arith, v.referred)) inc_le refl

  -- With memory for the remote bin, fewer than 2 ^ 31 cells, an increment of at most 2 ^ 30 and a count
  -- of references that does not overflow, cels2rbin() moves all buffered cells of a region in order to its
  -- remote bin: it reports nothing, the region stays in order, no state byte changes, and the remote
  -- bin grows by the number of cells.
  pub cels2rbin-Moved :
      (getrbinmem : ℕ → Option (ℕ → ℕ))
      → ((n : ℕ) → getrbinmem n ≢ none)
      → reg.rbininc ≤ 2 ^ 30
      → reg.remref + 1 < 2 ^ 32
      → Moved reg cnt (cels2rbin getrbinmem bin reg cnt)
  cels2rbin-Moved getrbinmem memory inc_le ref_lt = elim (cels2rbin_lem getrbinmem inc_le ref_lt) [
    | inl moved ↦ moved
    | inr (left, quiet, valid, rbinpos, binset, (n, none_left)) ↦ absurd (memory n none_left)
  ]
