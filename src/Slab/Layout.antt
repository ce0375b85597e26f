-- ===== src/Slab/Layout.antt =====
-- slab.h `newslab`: the size of a new region, the number of its cells, and where its metadata lies.
-- The tags and call sites per cell are the options `tags` and `flns`. `claseq`, `tagorg` and `flnorg`
-- of the region are not read by what is modelled, and are not kept.
pub mod Room
use yalloc.Base.{
  ℕ, zero, suc, ◌+◌, ◌-◌, ◌*◌, ◌/◌, ◌%◌, ◌^◌, min, max, bit_and, Bool, ◌&&◌, not, Option, none,
  some, List, [], ◌∷◌, ltb, leb, ◌==◌, if◌then◌else◌,
}
use yalloc.Word.{ub4_mod, clz, ctz, doalign8}
use yalloc.SizeClass.Table.{clas2len}
use yalloc.Slab.Region.{cel_nolen, rbinbuf, Region, Diag, assertion}

-- `addords`
abbrev pub addords : ℕ → ℕ
addords n =
    if ltb n 13
    then (n + 1) / 2
    else if n == 13
    then 7
    else if n == 14
    then 8
    else if n == 15
    then 9
    else if n == 16
    then 10
    else 11

abbrev pub is_pow2 : ℕ → Bool
is_pow2 n = bit_and n (n - 1) == 0

abbrev pub minregion : ℕ
minregion = 16

-- The largest order of a region: `min(Vmbits - 2,Regorder)`, and less for small cells.
unfoldable pub max_order : ℕ → ℕ
max_order cellen =
    let low = 31 - clz cellen in
    let celord = if is_pow2 cellen then low else low + 1 in
    let maxord = min (48 - 2) 36 in if ltb celord 8 then maxord - (8 - celord) else maxord

-- The order to begin with; `order` is what newregorder() answers.
unfoldable pub first_order : ℕ → ℕ → ℕ → ℕ
first_order maxord claseq order =
    let addord = if ltb 17 claseq then claseq - 6 else addords claseq in
    min maxord (max (minregion + addord) order)

pub record Sizes : Type 0 where
  pub order : ℕ
  pub reglen : ℕ
  pub cnt : ℕ
  pub celord : ℕ
  pub align : ℕ

-- The sizes for one order. The length of a large rest is cut off, with `Page`, which is 12, as the
-- alignment.
abbrev pub sizes_of : ℕ → ℕ → ℕ → ℕ → Sizes
sizes_of cellen clas maxord order =
    let reglen = 2 ^ order in
    let cnt = reglen / cellen % ub4_mod in
    let xlen = cnt * cellen in
    if is_pow2 cellen
    then record {
      order = order;
      reglen = reglen;
      cnt = reglen / 2 ^ ctz cellen % ub4_mod;
      celord = ctz cellen;
      align = min cellen 4096;
    }
    else record {
      order = order;
      reglen = if ltb order maxord && ltb 65536 (reglen - xlen) then doalign8 xlen 12 else reglen;
      cnt = cnt;
      celord = 0;
      align = if ltb cellen 16 then clas2len clas else 16;
    }

abbrev pub min_cells : ℕ → ℕ
min_cells claseq = 2 * 2 ^ (claseq / 4) % ub4_mod

-- `do ... while (1)`, with the number of rounds left
unfoldable pub slab_sizes : ℕ → ℕ → ℕ → ℕ → ℕ → ℕ → Option Sizes
slab_sizes cellen clas claseq maxord zero order = none
slab_sizes cellen clas claseq maxord (suc left) order =
    let s = sizes_of cellen clas maxord order in
    let few = ltb s.cnt (min_cells claseq) in
    let rest = slab_sizes cellen clas claseq maxord left (if few then order + 1 else order - 1) in
    if few
    then if leb maxord order then some s else rest
    else if leb (2 ^ 32 - 1) s.cnt && ltb minregion order
    then rest
    else some s

-- Offsets and length of the metadata in words.
pub record Metas : Type 0 where
  pub binorg : ℕ
  pub lenorg : ℕ
  pub tagorg : ℕ
  pub flnorg : ℕ
  pub metacnt : ℕ

-- State bytes, bin, lengths of large cells, tags, call sites.
unfoldable pub slab_metas : ℕ → ℕ → Bool → Bool → Metas
slab_metas cellen cnt tags flns =
    let acnt = doalign8 cnt 4 in
    let binorg = acnt * 1 / 4 in
    let lenorg = binorg + doalign8 acnt (128 / 4) in
    let tagorg = lenorg + (if ltb cel_nolen cellen then acnt else 0) in
    let flnorg = tagorg + (if tags then acnt else 0) in
    record {
      binorg = binorg;
      lenorg = lenorg;
      tagorg = tagorg;
      flnorg = flnorg;
      metacnt = flnorg + (if flns then acnt else 0);
    }

-- What newregion() answers is an argument, by the order and the lengths: a region and the length of
-- its metadata, or none. The result is the region, and whether it is to enter the directory.
abbrev pub NewRegion : Type 0
NewRegion = ℕ → ℕ → ℕ → Option (Region × ℕ)

abbrev pub slab_init : Region → ℕ → ℕ → Sizes → Metas → Region
slab_init reg cellen clas s m = record reg {
  rbininc = rbinbuf;
  cellen = cellen;
  celcnt = s.cnt;
  celord = s.celord;
  clas = clas;
  binorg = m.binorg;
  lenorg = m.lenorg;
  align = s.align;
}

abbrev pub slab_checked : ℕ → ℕ → Sizes → Metas → Option (Region × ℕ) → Option Region × List Diag
slab_checked cellen clas s m none = (none, [])
slab_checked cellen clas s m (some (reg, metalen)) =
    if ltb reg.len s.reglen
    then (none, assertion ∷ [])
    else if ltb metalen (m.metacnt * 4)
    then (none, assertion ∷ [])
    else if ltb (reg.len / cellen) s.cnt
    then (none, assertion ∷ [])
    else (some (slab_init reg cellen clas s m), [])

abbrev pub slab_sized : NewRegion → Bool → Bool → ℕ → ℕ → Option Sizes → Option Region × List Diag
slab_sized newregion tags flns cellen clas none = (none, [])
slab_sized newregion tags flns cellen clas (some s) =
    let m = slab_metas cellen s.cnt tags flns in
    if s.cnt == 0
    then (none, assertion ∷ [])
    else if leb (2 ^ 30) m.metacnt
    then (none, assertion ∷ [])
    else slab_checked cellen clas s m (newregion s.order s.reglen (m.metacnt * 4))

-- The loop has at most `maxord` rounds; the caller enters the region in the directory.
unfoldable pub newslab : NewRegion → Bool → Bool → ℕ → ℕ → ℕ → ℕ → Option Region × List Diag
unfolding max_order first_order
newslab newregion tags flns order cellen clas claseq =
    let maxord = max_order cellen in
    let first = first_order maxord claseq order in
    slab_sized newregion tags flns cellen clas
      (slab_sizes cellen clas claseq maxord (maxord + 1) first)
