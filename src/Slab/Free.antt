-- ===== src/Slab/Free.antt =====
-- slab.h `slab_frecel`: freeing a cell that is in use, and refusing to free any other.
use yalloc.Base.{
  ℕ, ◌+◌, ◌<◌, ◌≡◌, true, false, [], ◌∷◌, leb, ◌==◌, if◌then◌else◌, update, arith, ==→eq,
}
use yalloc.Slab.Region.{Region, Diag, never_allocated, double_free, HeapStat}
use yalloc.Slab.Marks.{markfree}
use yalloc.Slab.Cells.{slab_frecel}
use yalloc.Slab.Count.{count_pos, count-update, count-add-le}
use yalloc.Slab.Valid.{live, IsValid, list_push, remote_write}

-- The region after `cel` went to the top of the bin.
abbrev pub freed : Region → ℕ → Region
freed reg cel = record reg {
  binset = update reg.binset cel 2;
  bin = update reg.bin reg.binpos cel;
  binpos = reg.binpos + 1;
  stat = record (reg.stat) { frees = reg.stat.frees + 1 };
  age = if reg.binpos + 1 == reg.inipos then 1 else reg.age;
}

-- The report of a free of a cell that is not in use.
abbrev pub not_live : Region → ℕ → Diag
not_live reg cel = if leb reg.inipos cel then never_allocated cel else double_free cel

module _ {reg : Region} (v : IsValid reg) where
  -- A cell in use lies below `inipos`.
  pub live-lt-inipos : (cel : ℕ) → live reg cel ≡ true → cel < reg.inipos
  live-lt-inipos cel h = ground (arith, v.fresh cel)

  -- A cell in use leaves room in the bin.
  pub live_room : (cel : ℕ) → live reg cel ≡ true → reg.binpos < reg.celcnt
  live_room cel h =
      let below = live-lt-inipos cel h in
      omega (
        arith,
        v.bin_count,
        v.inipos_le,
        count-add-le 1 2 reg.celcnt reg.binset (omega arith),
        count_pos 1 reg.celcnt reg.binset cel (omega (arith, v.inipos_le)) (==→eq _ _ h),
      )

  pub frecel_live :
      (hb : HeapStat) (cel : ℕ)
      → live reg cel ≡ true
      → slab_frecel hb reg cel reg.celcnt ≡ (reg.binpos + 1, hb, freed reg cel, [])
  unfolding slab_frecel markfree
  frecel_live hb cel h = ground (arith, live_room cel h, live-lt-inipos cel h, v.inipos_le, v.room)

  pub freed-IsValid : (cel : ℕ) → live reg cel ≡ true → IsValid (freed reg cel)
  freed-IsValid cel h =
      let below = live-lt-inipos cel h in
      let used : reg.binset cel ≡ 1 = ==→eq _ _ h in
      let from_two = count-update 2 reg.celcnt reg.binset cel 2 (omega (arith, v.inipos_le)) in
      let from_three = count-update 3 reg.celcnt reg.binset cel 2 (omega (arith, v.inipos_le)) in
      record {
        small = v.small;
        inipos_le = v.inipos_le;
        fresh = λ c hc. ground (arith, v.fresh c hc);
        begun = λ c hc. ground (arith, v.begun c hc);
        bin_list = list_push v.bin_list below (omega arith);
        bin_count = ground (arith, v.bin_count, from_two);
        remote_list = remote_write reg cel 2 (omega arith) v.remote_list;
        remote_count = ground (arith, v.remote_count, from_three);
        referred = v.referred;
        room = v.room;
      }

  live-freed : (cel c : ℕ) → live (freed reg cel) c ≡ (if cel == c then false else live reg c)
  live-freed cel c = ground arith

  -- slab_frecel() of a cell in use reports nothing, takes that cell and no other out of use, and leaves
  -- the region in order.
  pub frecel-IsValid :
      (hb : HeapStat) (cel : ℕ)
      → live reg cel ≡ true
      → (slab_frecel hb reg cel reg.celcnt ≡ (reg.binpos + 1, hb, freed reg cel, []))
        × IsValid (freed reg cel)
        × ((c : ℕ) → live (freed reg cel) c ≡ (if cel == c then false else live reg c))
  frecel-IsValid hb cel h = (frecel_live hb cel h, freed-IsValid cel h, live-freed cel)

  -- A cell that is not in use is refused: the region stays as it is, the heap counts the error, and
  -- the report tells a double free from a cell that was never allocated.
  pub frecel_dead :
      (hb : HeapStat) (cel : ℕ)
      → cel < reg.celcnt
      → live reg cel ≡ false
      → slab_frecel hb reg cel reg.celcnt
        ≡ (0, record hb { invalid_frees = hb.invalid_frees + 1 }, reg, not_live reg cel ∷ [])
  unfolding slab_frecel markfree
  frecel_dead hb cel lt h = ground (arith, v.begun cel)
