-- ===== src/SizeClass/Popular.antt =====
-- alloc.h, alloc_heap(): counting the popularity of a class, and where the request goes.
use yalloc.Base.{
  ℕ, ◌+◌, ◌-◌, ◌/◌, ◌^◌, min, max, bit_and, Bool, ◌&&◌, ◌||◌, Option, none, some, ltb, leb, ◌==◌,
  if◌then◌else◌, update,
}
use yalloc.SizeClass.Choose.{Choice, mmap_max_threshold, choose_class}

-- `Xclascnt`, `Clascnt`
abbrev pub xclascnt : ℕ
xclascnt = 132

abbrev pub clascnt_max : ℕ
clascnt_max = 100

-- `mmap_limit` is the option Mmap_threshold as a length.
abbrev pub mmap_limit : ℕ
mmap_limit = 2 ^ 16

abbrev pub mmap_max_limit : ℕ
mmap_max_limit = 2 ^ mmap_max_threshold

abbrev pub xclas_threshold : ℕ
xclas_threshold = 4

abbrev pub clas_threshold : ℕ
clas_threshold = 128

-- `min(Bumplen,Bumpmax)`
abbrev pub bump_limit : ℕ
bump_limit = min 16384 256

-- The arrays of `struct st_heap` that count.
pub record Classes : Type 0 where
  pub clascnts : ℕ → ℕ
  pub claslens : ℕ → ℕ
  pub cfremsk : ℕ → ℕ

-- Where a request goes first; `refused` is a return of nil with a report.
pub data Route : Type 0 where
  to_mmap : Route
  to_bump : ℕ → Route
  to_slab : ℕ → Route
  refused : Route

-- `clascnt = hb->clascnts[clas] & Hi31` to `hb->clascnts[clas] = clascnt + 1`; none on an error.
unfoldable pub count_class : Classes → Choice → Option (ℕ × Classes)
count_class hb c =
    let clascnt = bit_and (hb.clascnts c.clas) (2 ^ 31 - 1) in
    let first = record hb {
      clascnts = update hb.clascnts c.clas (clascnt + 1);
      claslens = update hb.claslens c.clas c.alen;
      cfremsk = update hb.cfremsk c.clas (2 ^ 32 - 1);
    } in
    let next = record hb { clascnts = update hb.clascnts c.clas (clascnt + 1) } in
    if leb xclascnt c.clas
    then none
    else if clascnt == 0
    then some (clascnt, first)
    else if hb.claslens c.clas == c.alen
    then some (clascnt, next)
    else none

-- The length that is asked of the bump allocator: for realloc() with some headroom.
abbrev pub bump_request : ℕ → Bool → ℕ
bump_request ulen is_real = if is_real then ulen + ulen / 4 else ulen

-- From `if (ulen >= mmap_limit)` on: a class that is not popular goes to mmap() if large, and to the
-- bump allocator if small; the others go to the slabs of their class.
unfoldable pub route : ℕ → Bool → Choice → ℕ → Route
route ulen is_real c clascnt =
    let threshold = max (clas_threshold / 2 ^ (c.ord / 2)) 3 in
    if leb mmap_limit ulen && (leb clascnt xclas_threshold || leb mmap_max_limit c.alen)
    then to_mmap
    else if leb clascnt_max c.clas
    then refused
    else if ltb clascnt threshold && leb c.len bump_limit
    then to_bump (bump_request ulen is_real)
    else to_slab c.clas

-- The first part of alloc_heap(); none is out of memory.
abbrev pub route_counted :
    ℕ → Bool → Classes → Choice → Option (ℕ × Classes) → Option (Route × Classes)
route_counted ulen is_real hb c none = some (refused, hb)
route_counted ulen is_real hb c (some (clascnt, hb')) = some (route ulen is_real c clascnt, hb')

abbrev pub route_choice : ℕ → Bool → Classes → Option Choice → Option (Route × Classes)
route_choice ulen is_real hb none = none
route_choice ulen is_real hb (some c) = route_counted ulen is_real hb c (count_class hb c)

unfoldable pub alloc_route : ℕ → Bool → Classes → Option (Route × Classes)
alloc_route ulen is_real hb = route_choice ulen is_real hb (choose_class ulen)
