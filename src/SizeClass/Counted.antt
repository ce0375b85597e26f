-- ===== src/SizeClass/Counted.antt =====
-- alloc.h: a class stands for one block length, so that the checks of alloc_heap() hold.
use yalloc.Base.{ℕ, ◌^◌, ◌<◌, Option, none, some, ◌≢◌}
use yalloc.SizeClass.Popular.{Classes, Route, refused}
use yalloc.SizeClass.Length.{IsLength}

-- A class that was counted has its length.
abbrev pub IsCounted : Classes → Type 0
IsCounted hb = (clas : ℕ) → hb.clascnts clas ≢ 0 → IsLength clas (hb.claslens clas)

-- What the first part of alloc_heap() promises.
abbrev pub Routed : ℕ → Option (Route × Classes) → Type 0
Routed ulen none = 2 ^ 46 < ulen
Routed ulen (some (to, hb')) = (to ≢ refused) × IsCounted hb'
