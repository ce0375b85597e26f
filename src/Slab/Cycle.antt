-- ===== src/Slab/Cycle.antt =====
-- slab.h `slab_frecel` and `slab_newcel` one after the other.
use yalloc.Base.{ℕ, ◌+◌, ◌-◌, ◌<◌, ◌≡◌, true, false, some, [], ◌∷◌, arith, ap, ◌∙◌, update}
use yalloc.Slab.Region.{Region, double_free, HeapStat}
use yalloc.Slab.Cells.{slab_newcel, slab_frecel}
use yalloc.Slab.Valid.{live, IsValid}
use yalloc.Slab.Free.{freed, frecel_live, freed-IsValid, frecel_dead, live-lt-inipos, not_live}
use yalloc.Slab.New.{popped, newcel_popped}

-- The region that slab_frecel() leaves.
abbrev pub after_free : HeapStat → Region → ℕ → Region
after_free hb reg cel = (slab_frecel hb reg cel reg.celcnt).2

-- The region that slab_newcel() leaves.
abbrev pub after_new : Region → Region
after_new reg = (slab_newcel reg).1

-- The cell that was freed last is handed out first, without a report.
pub newcel-frecel :
    (hb : HeapStat) (reg : Region) (cel : ℕ)
    → IsValid reg
    → live reg cel ≡ true
    → slab_newcel (after_free hb reg cel) ≡ (some cel, popped (freed reg cel), [])
newcel-frecel hb reg cel v h =
    let e : after_free hb reg cel ≡ freed reg cel = ap (λ out. out.2) (frecel_live v hb cel h) in
    let vf = freed-IsValid v cel h in
    let top : update reg.bin reg.binpos cel (reg.binpos + 1 - 1) ≡ cel = ground arith in
    ap slab_newcel e
    ∙ newcel_popped vf (omega arith)
    ∙ ap (λ c. (some c, popped (freed reg cel), [])) top

-- A second free of the same cell is refused as a double free, and changes only the count of errors.
pub frecel-frecel :
    (hb : HeapStat) (reg : Region) (cel : ℕ)
    → IsValid reg
    → live reg cel ≡ true
    → slab_frecel hb (after_free hb reg cel) cel reg.celcnt
      ≡ (0, record hb { invalid_frees = hb.invalid_frees + 1 }, freed reg cel, double_free cel ∷ [])
frecel-frecel hb reg cel v h =
    let e : after_free hb reg cel ≡ freed reg cel = ap (λ out. out.2) (frecel_live v hb cel h) in
    let below : cel < reg.inipos = live-lt-inipos v cel h in
    let dead : live (freed reg cel) cel ≡ false = ground arith in
    let told : not_live (freed reg cel) cel ≡ double_free cel = ground arith in
    ap (λ r. slab_frecel hb r cel reg.celcnt) e
    ∙ frecel_dead (freed-IsValid v cel h) hb cel (omega (arith, v.inipos_le)) dead
    ∙ ap (λ d. (0, record hb { invalid_frees = hb.invalid_frees + 1 }, freed reg cel, d ∷ [])) told
