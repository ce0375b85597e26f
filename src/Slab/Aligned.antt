-- ===== src/Slab/Aligned.antt =====
-- slab.h `slab_newalcel`: a cell at an alignment.
use native.Mathlib.Decide.{dec_lt}
use native.Mathlib.Nat.{le_of_mul-le-mul_right, div-mul-le_self}
use yalloc.Base.{
  ℕ, ◌+◌, ◌-◌, ◌*◌, ◌/◌, ◌%◌, ◌^◌, ◌≤◌, ◌<◌, ◌≡◌, ◌≢◌, refl, ◌∙◌, ap, true, false, Option, none,
  some, [], leb, ◌==◌, if◌then◌else◌, arith, inl, inr, update, Bool-cases, ne→not-==, ==→eq,
}
use yalloc.Slab.Region.{Region, Out}
use yalloc.Slab.Marks.{slab_markused}
use yalloc.Slab.Blocks.{slab_newalcel, aligned_ofs, newalcel_at, newalcel_end}
use yalloc.Slab.Address.{cel_ip}
use yalloc.Word.{doalign8}
use yalloc.Word.Align.{IsRoundUp, doalign8-IsRoundUp}
use yalloc.Word.Powers.{pow_le, pow_pos}
use yalloc.Slab.Count.{count-update}
use yalloc.Slab.Valid.{live, IsValid, IsRemoteBin, list_write, list_grow}
use yalloc.Slab.Gap.{Gap, gap_loop_lem}

-- The region after an aligned block.
abbrev skipped : Region → ℕ → ℕ → (ℕ → ℕ) → (ℕ → ℕ) → Region
skipped reg cel pos bs bn = record reg {
  inipos = cel + 1;
  binset = bs;
  bin = bn;
  binpos = pos;
  stat = record (reg.stat) { iniallocs = reg.stat.iniallocs + 1 };
}

module _ (reg : Region) (v : IsValid reg) (cel : ℕ) (lo : reg.inipos ≤ cel)
    (inside : cel < reg.celcnt) where
  start : Gap reg.binset reg.celcnt cel reg.inipos reg.binpos (update reg.binset cel 1) reg.bin
  start =
      let none_yet : reg.binset cel ≡ 0 = v.fresh cel lo in
      let two = count-update 2 reg.celcnt reg.binset cel 1 inside in
      let three = count-update 3 reg.celcnt reg.binset cel 1 inside in
      record {
        fresh = λ x h. ground (arith, v.fresh x);
        skipped = λ x h h'. ground (arith, v.fresh x);
        begun = λ x h. ground (arith, v.begun x);
        marked = ground arith;
        bin_list = list_write cel 1 (list_grow v.bin_list (omega arith)) (omega arith);
        bin_count = ground (arith, v.bin_count, two);
        remote = λ x h. ground arith;
        remote_count = ground (arith, three);
        in_use = λ x. ground arith;
      }

  -- The remote bin is as it was.
  remote_kept :
      (bs : ℕ → ℕ)
      → ((x : ℕ) → reg.binset x ≡ 3 → bs x ≡ 3)
      → (pos : ℕ) (bn : ℕ → ℕ) (o : Option (ℕ → ℕ)) → IsRemoteBin reg o
      → IsRemoteBin (skipped reg cel pos bs bn) o
  remote_kept bs kept pos bn none h = h
  remote_kept bs kept pos bn (some rbin) (l, room) = (
    record {
      started = λ i h. omega (arith, l.started i h);
      status = λ i h. kept (rbin i) (l.status i h);
      distinct = l.distinct;
    },
    room,
  )

  skipped-IsValid :
      (pos : ℕ) (bs bn : ℕ → ℕ)
      → Gap reg.binset reg.celcnt cel cel pos bs bn
      → IsValid (skipped reg cel pos bs bn)
  skipped-IsValid pos bs bn g = record {
    small = v.small;
    inipos_le = omega arith;
    fresh = λ x h. g.fresh x (omega arith);
    begun = λ x h. ground (arith, g.begun x, g.marked);
    bin_list = g.bin_list;
    bin_count = g.bin_count;
    remote_list = remote_kept bs g.remote pos bn reg.rembin v.remote_list;
    remote_count = omega (arith, g.remote_count, v.remote_count);
    referred = v.referred;
    room = v.room;
  }

  -- A cell that was never handed out is taken, and those below it that were not either go to the bin.
  at_lem :
      (pos : ℕ) × (bs : ℕ → ℕ) × (bn : ℕ → ℕ) × (newalcel_at reg cel
        ≡ (some cel, skipped reg cel pos bs bn, []))
      × Gap reg.binset reg.celcnt cel cel pos bs bn
  unfolding newalcel_at slab_markused
  at_lem =
      let (pos, bs, bn, e, g) =
        gap_loop_lem reg.binset (record reg { inipos = cel + 1 }) cel inside (cel - reg.inipos)
          reg.inipos reg.binpos (update reg.binset cel 1) reg.bin start (omega arith) in
      let new : (reg.binset cel == 0) ≡ true = ground (arith, v.fresh cel lo) in
      (pos, bs, bn, rw new (ap (newalcel_end cel) e), g)

-- The cell was never handed out, its block is aligned, and the region is in order with it, and no
-- other cell, in use.
pub record NewAligned (reg : Region) (align cel : ℕ) (reg' : Region) : Type 0 where
  pub inside : cel < reg.celcnt
  pub new : reg.inipos ≤ cel
  pub at_align : cel_ip reg cel % align ≡ 0
  pub valid : IsValid reg'
  pub marks : (c : ℕ) → live reg' c ≡ (if cel == c then true else live reg c)

-- A new cell, or an unchanged region; no report in either case.
abbrev pub AlignedOutcome : Region → ℕ → Out (Option ℕ) → Type 0
AlignedOutcome reg align (some cel, reg', log) = NewAligned reg align cel reg' × (log ≡ [])
AlignedOutcome reg align (none, reg', log) = (reg' ≡ reg) × (log ≡ [])

module _ (reg : Region) (v : IsValid reg) (k : ℕ) (order : reg.celord ≢ 0)
    (pow : reg.cellen ≡ 2 ^ reg.celord) (fits : reg.celcnt * reg.cellen + 2 ^ k ≤ 2 ^ 32)
    (space : reg.user + 2 ^ 32 ≤ 2 ^ 64) where
  -- The offset is that of the next multiple of the alignment.
  ofs_lem :
      IsRoundUp
        (reg.user + reg.inipos * reg.cellen)
        (2 ^ k)
        (reg.user + aligned_ofs reg (2 ^ k) reg.cellen)
  ofs_lem =
      let low : k < 64 = elim (dec_lt k 64) [
        | yes lt ↦ lt
        | no ge ↦ absurd (omega (arith, pow_le 33 k (omega arith)))
      ] in
      let cells : reg.inipos * reg.cellen ≤ reg.celcnt * reg.cellen = grind (arith, v.inipos_le) in
      let up = doalign8-IsRoundUp (reg.user + reg.inipos * reg.cellen) k low (omega arith) in
      let back : reg.user + aligned_ofs reg (2 ^ k) reg.cellen
          ≡ doalign8 (reg.user + reg.inipos * reg.cellen) (2 ^ k) =
        omega (arith, up.above, up.near) in
      rw back up

  at-AlignedOutcome :
      (cel : ℕ)
      → cel * reg.cellen ≡ aligned_ofs reg (2 ^ k) reg.cellen
      → cel < reg.celcnt
      → AlignedOutcome reg (2 ^ k) (newalcel_at reg cel)
  at-AlignedOutcome cel e inside =
      let up = ofs_lem in
      let some_len : 0 < reg.cellen = rw pow (pow_pos reg.celord) in
      let lo : reg.inipos ≤ cel = le_of_mul-le-mul_right (omega (arith, up.above)) some_len in
      let (pos, bs, bn, came, g) = at_lem reg v cel lo inside in
      rw came (
        record {
          inside = inside;
          new = lo;
          at_align = rw e up.multiple;
          valid = skipped-IsValid reg v cel lo inside pos bs bn g;
          marks = λ c. g.in_use c;
        },
        refl,
      )

  pub slab_newalcel-AlignedOutcome :
      AlignedOutcome reg (2 ^ k) (slab_newalcel reg (2 ^ k) reg.cellen)
  unfolding slab_newalcel
  slab_newalcel-AlignedOutcome =
      let ofs = aligned_ofs reg (2 ^ k) reg.cellen in
      let cel = ofs / 2 ^ reg.celord in
      let some_order : (reg.celord == 0) ≡ false = ne→not-== _ _ order in
      elim (Bool-cases (reg.inipos == reg.celcnt)) [
        | inl full ↦ rw full (refl, refl)
        | inr room ↦ elim (Bool-cases (cel * 2 ^ reg.celord % 2 ^ 32 == ofs)) [
          | inr off ↦ rw (room, some_order, off) (refl, refl)
          | inl on ↦ elim (dec_lt cel reg.celcnt) [
            | no over ↦
                let test : leb reg.celcnt cel ≡ true = ground arith in
                rw (room, some_order, on, test) (refl, refl)
            | yes inside ↦
                let test : leb reg.celcnt cel ≡ false = ground arith in
                let exact : cel * 2 ^ reg.celord ≡ ofs =
                  omega (arith, ==→eq _ _ on, div-mul-le_self ofs (2 ^ reg.celord)) in
                let at : cel * reg.cellen ≡ ofs = ap (λ n. cel * n) pow ∙ exact in
                rw (room, some_order, on, test) (at-AlignedOutcome cel at inside)
          ]
        ]
      ]
