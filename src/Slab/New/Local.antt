-- ===== src/Slab/New/Local.antt =====
-- From the bin, or from the cells that were never allocated.
use yalloc.Base.{◌+◌, ◌-◌, ◌≤◌, ◌<◌, ◌≡◌, refl, inl, inr, false, some, [], ◌==◌, update, arith}
use yalloc.Slab.Region.{Region, nocel}
use yalloc.Slab.Marks.{slab_markused}
use yalloc.Slab.Cells.{newcel_bin, newcel_ini, slab_newcel}
use yalloc.Slab.Count.{count-update, count_le_of_above}
use yalloc.Slab.Valid.{IsValid, list_pop, list_grow, list_write, remote_write, remote_begin}
use yalloc.Slab.New.Defs.{Alloced}

-- The region after the top of the bin was taken.
abbrev pub popped : Region → Region
popped reg = record reg {
  binset = update reg.binset (reg.bin (reg.binpos - 1)) 1;
  bin = update reg.bin (reg.binpos - 1) nocel;
  binpos = reg.binpos - 1;
  stat = record (reg.stat) { binallocs = reg.stat.binallocs + 1 };
}

-- The region after the next cell that was never allocated was taken.
abbrev pub begun : Region → Region
begun reg = record reg {
  binset = update reg.binset reg.inipos 1;
  inipos = reg.inipos + 1;
  stat = record (reg.stat) { iniallocs = reg.stat.iniallocs + 1 };
}

module _ {reg : Region} (v : IsValid reg) where
  -- The bin holds no more cells than were ever handed out.
  bin_le : reg.binpos ≤ reg.inipos
  bin_le = omega (
    arith,
    v.bin_count,
    count_le_of_above 2 reg.inipos reg.celcnt reg.binset (λ c h. omega (arith, v.fresh c h)),
  )

  newcel_bin_lem :
      0 < reg.binpos → newcel_bin reg ≡ (some (reg.bin (reg.binpos - 1)), popped reg, [])
  unfolding newcel_bin slab_markused
  newcel_bin_lem pos =
      let last : reg.binpos - 1 < reg.binpos = omega arith in
      let below = v.bin_list.started (reg.binpos - 1) last in
      let two = v.bin_list.status (reg.binpos - 1) last in
      ground (arith, bin_le, v.inipos_le, v.room, v.small)

  -- The bin goes first.
  pub newcel_popped :
      0 < reg.binpos → slab_newcel reg ≡ (some (reg.bin (reg.binpos - 1)), popped reg, [])
  unfolding slab_newcel
  newcel_popped pos = let e : (reg.binpos == 0) ≡ false = ground arith in rw e (newcel_bin_lem pos)

  pub popped-Alloced : 0 < reg.binpos → Alloced reg (reg.bin (reg.binpos - 1)) (popped reg)
  popped-Alloced pos =
      let last : reg.binpos - 1 < reg.binpos = omega arith in
      let cel = reg.bin (reg.binpos - 1) in
      let below : cel < reg.inipos = v.bin_list.started (reg.binpos - 1) last in
      let two : reg.binset cel ≡ 2 = v.bin_list.status (reg.binpos - 1) last in
      let inside : cel < reg.celcnt = omega (arith, v.inipos_le) in
      let from_two = count-update 2 reg.celcnt reg.binset cel 1 inside in
      let from_three = count-update 3 reg.celcnt reg.binset cel 1 inside in
      record {
        inside = inside;
        free = ground arith;
        valid = record {
          small = v.small;
          inipos_le = v.inipos_le;
          fresh = λ c hc. ground (arith, v.fresh c hc);
          begun = λ c hc. ground (arith, v.begun c hc);
          bin_list = list_pop 1 nocel v.bin_list (omega arith);
          bin_count = ground (arith, v.bin_count, from_two);
          remote_list = remote_write reg cel 1 (omega arith) v.remote_list;
          remote_count = ground (arith, v.remote_count, from_three);
          referred = v.referred;
          room = v.room;
        };
        marks = λ c. ground arith;
        shape = ground arith;
        ini = inl refl;
      }

  pub newcel_ini_lem : reg.inipos < reg.celcnt → newcel_ini reg ≡ (some reg.inipos, begun reg, [])
  unfolding newcel_ini slab_markused
  newcel_ini_lem lt = ground (arith, v.fresh reg.inipos)

  pub begun-Alloced : reg.inipos < reg.celcnt → Alloced reg reg.inipos (begun reg)
  begun-Alloced lt =
      let none_yet : reg.binset reg.inipos ≡ 0 = v.fresh reg.inipos (omega arith) in
      let from_two = count-update 2 reg.celcnt reg.binset reg.inipos 1 lt in
      let from_three = count-update 3 reg.celcnt reg.binset reg.inipos 1 lt in
      record {
        inside = lt;
        free = ground arith;
        valid = record {
          small = v.small;
          inipos_le = omega arith;
          fresh = λ c hc. ground (arith, v.fresh c);
          begun = λ c hc. ground (arith, v.begun c);
          bin_list = list_write reg.inipos 1 (list_grow v.bin_list (omega arith)) (omega arith);
          bin_count = ground (arith, v.bin_count, from_two);
          remote_list = remote_begin reg 1 none_yet v.remote_list;
          remote_count = ground (arith, v.remote_count, from_three);
          referred = v.referred;
          room = v.room;
        };
        marks = λ c. ground arith;
        shape = ground arith;
        ini = inr (refl, refl);
      }
