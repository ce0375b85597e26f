-- ===== src/Slab/New/Remote.antt =====
-- From the remote bin: slab_remalloc() moves all but the topmost cell to the local bin.
use yalloc.Base.{
  ℕ, ◌+◌, ◌-◌, ◌%◌, ◌≤◌, ◌<◌, ◌≡◌, refl, inl, true, some, [], ◌==◌, update, arith, ◌∙◌, ap, subst,
}
use yalloc.Word.{ub4_mod}
use yalloc.Slab.Region.{Region}
use yalloc.Slab.Marks.{slab_markused}
use yalloc.Slab.Cells.{
  remalloc_loop, remalloc_top, remalloc_warn, slab_remalloc, remalloc_end, newcel_unlock,
  newcel_mark, newcel_remote,
}
use yalloc.Slab.Count.{count-update, count-add-le}
use yalloc.Slab.Valid.{IsListOf, IsRemoteBin, IsValid, list_write}
use yalloc.Slab.New.Defs.{Alloced}
use yalloc.Slab.New.Moving.{at, Moving, remalloc_loop_lem}

-- The region after the cells of the remote bin went to the bin, all but the topmost, which is taken.
abbrev moved : Region → (ℕ → ℕ) → ℕ → (ℕ → ℕ) → (ℕ → ℕ) → Region
moved reg rbin pos bs bn = record reg {
  lock = 0;
  rbinpos = 0;
  binpos = pos;
  binset = update bs (rbin (reg.rbinpos - 1)) 1;
  bin = bn;
  remref = (reg.remref + ub4_mod - 1) % ub4_mod;
  stat = record (reg.stat) {
    rfrees = reg.stat.rfrees + reg.rbinpos;
    xallocs = reg.stat.xallocs + 1;
  };
}

pub remote_open :
    (reg : Region)
    → reg.lock ≡ 0
    → newcel_remote reg ≡ newcel_unlock (slab_remalloc (record reg { lock = 1 }))
unfolding newcel_remote
remote_open reg unlocked = let e : (reg.lock == 0) ≡ true = ground arith in rw e refl

module _ {reg : Region} (v : IsValid reg) (rbin : ℕ → ℕ) (re : reg.rembin ≡ some rbin)
    (pos : 0 < reg.rbinpos) where
  remote_list : IsListOf 3 reg.inipos reg.binset reg.rbinpos rbin × (reg.rbinpos < reg.rbinlen)
  remote_list = subst (IsRemoteBin reg) re v.remote_list

  start :
      Moving (record reg { lock = 1; rbinpos = 0 }) rbin reg.rbinpos 0 reg.binpos reg.binset reg.bin
  start = record {
    fresh = v.fresh;
    begun = v.begun;
    bin_list = v.bin_list;
    bin_count = v.bin_count;
    rest = λ i lo hi. remote_list.0.status i hi;
    rest_count = omega (arith, v.remote_count);
    in_use = λ x. refl;
  }

  -- What the remote bin and the local bin hold together fits in the region.
  fits : reg.binpos + reg.rbinpos ≤ reg.celcnt
  fits =
      omega
        (arith, v.bin_count, v.remote_count, count-add-le 2 3 reg.celcnt reg.binset (omega arith))

  enter :
      slab_remalloc (record reg { lock = 1 })
      ≡ remalloc_end rbin reg.rbinpos []
          (remalloc_loop rbin (reg.rbinpos - 1) 0 (record reg { lock = 1; rbinpos = 0 }) reg.binpos)
  unfolding slab_remalloc remalloc_warn
  enter = rw re (ground (arith, fits, v.small, v.referred pos, remote_list.1))

  take :
      (n : ℕ) (bs bn : ℕ → ℕ)
      → bs (rbin (reg.rbinpos - 1)) ≡ 3
      → newcel_unlock (
          remalloc_end rbin reg.rbinpos []
            (some n, at (record reg { lock = 1; rbinpos = 0 }) bs bn, []))
        ≡ (some (rbin (reg.rbinpos - 1)), moved reg rbin n bs bn, [])
  unfolding remalloc_top newcel_mark slab_markused
  take n bs bn three =
      let below = remote_list.0.started (reg.rbinpos - 1) (omega arith) in
      ground (arith, v.inipos_le)

  moved-Alloced :
      (n : ℕ) (bs bn : ℕ → ℕ)
      → Moving
          (record reg { lock = 1; rbinpos = 0 })
          rbin
          reg.rbinpos
          (0 + (reg.rbinpos - 1))
          n
          bs
          bn
      → Alloced reg (rbin (reg.rbinpos - 1)) (moved reg rbin n bs bn)
  moved-Alloced n bs bn m =
      let last : reg.rbinpos - 1 < reg.rbinpos = omega arith in
      let cel = rbin (reg.rbinpos - 1) in
      let below : cel < reg.inipos = remote_list.0.started (reg.rbinpos - 1) last in
      let was : reg.binset cel ≡ 3 = remote_list.0.status (reg.rbinpos - 1) last in
      let three : bs cel ≡ 3 = m.rest (reg.rbinpos - 1) (omega arith) last in
      let inside : cel < reg.celcnt = omega (arith, v.inipos_le) in
      let from_two = count-update 2 reg.celcnt bs cel 1 inside in
      record {
        inside = inside;
        free = ground arith;
        valid = record {
          small = v.small;
          inipos_le = v.inipos_le;
          fresh = λ c hc. ground (arith, m.fresh c hc);
          begun = λ c hc. ground (arith, m.begun c hc);
          bin_list = list_write cel 1 m.bin_list (omega arith);
          bin_count = ground (arith, m.bin_count, from_two);
          remote_list = rw re (
            record {
              started = λ i h. absurd (omega arith);
              status = λ i h. absurd (omega arith);
              distinct = λ i j h. absurd (omega arith);
            },
            omega (arith, remote_list.1),
          );
          remote_count = omega arith;
          referred = λ h. absurd (omega arith);
          room = v.room;
        };
        marks = λ c. ground (arith, m.in_use c);
        shape = ground arith;
        ini = inl refl;
      }

  pub newcel_remote_lem :
      reg.lock ≡ 0
      → (cel : ℕ) × (reg' : Region) × (newcel_remote reg ≡ (some cel, reg', []))
        × Alloced reg cel reg'
  newcel_remote_lem unlocked =
      let (n, bs, bn, e, m) =
        remalloc_loop_lem (record reg { lock = 1; rbinpos = 0 }) rbin reg.rbinpos
          remote_list.0.started remote_list.0.distinct v.inipos_le v.room (reg.rbinpos - 1) 0
          reg.binpos reg.binset reg.bin start (omega arith) in
      let three = m.rest (reg.rbinpos - 1) (omega arith) (omega arith) in
      let came : newcel_remote reg ≡ (some (rbin (reg.rbinpos - 1)), moved reg rbin n bs bn, []) =
        remote_open reg unlocked
        ∙ ap newcel_unlock (enter ∙ ap (remalloc_end rbin reg.rbinpos []) e)
        ∙ take n bs bn three in
      (rbin (reg.rbinpos - 1), moved reg rbin n bs bn, came, moved-Alloced n bs bn m)
