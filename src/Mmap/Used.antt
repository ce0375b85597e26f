-- ===== src/Mmap/Used.antt =====
-- alloc.h `yal_mmap`: the block that is handed out shares no byte with another one.
use native.Mathlib.Decide.{ℕ_discrete, dec_lt}
use yalloc.Base.{
  ℕ, ◌%◌, ◌^◌, ◌≤◌, ◌<◌, Option, none, some, List, ◌++◌, refl, true, false, ltb, leb, ◌==◌, arith,
  ◌≡◌, ◌≢◌, inl, update, update_self, update_ne, sym, subst, ap, ◌∙◌,
}
use yalloc.Word.{doalign8}
use yalloc.Word.Align.{doalign8-IsRoundUp}
use yalloc.Directory.Find.{find_reg}
use yalloc.Directory.Set.{setregion}
use yalloc.Mmap.State.{pagesize, rmmap, MpRegion, MpHeap, Sys, MpOut, mp_id, put_reg}
use yalloc.Mmap.Use.{MapLoc, is_allocal, map_block, map_new, map_region, map_found, yal_mmap}
use yalloc.Mmap.Valid.{Apart, IsBlock, IsBlocks, IsOrdered, put-IsMp, off_lem, in_use_age}
use yalloc.Mmap.Memory.{IsMapped, same-IsBlocks, mapped-IsBlocks}
use yalloc.Mmap.Entered.{page-find_reg}
use yalloc.Mmap.Fresh.{Given, GivenOut}
use yalloc.Mmap.Given.{newmpregion-Given}

-- `reg` was not in use and is now; the other regions are as before.
pub record Using (hb : MpHeap) (reg : ℕ) (hb' : MpHeap) : Type 0 where
  pub lists : ℕ → List ℕ
  pub zeros : List ℕ
  pub ordered : IsOrdered hb' lists zeros
  pub lt : reg < hb'.stat.newmpregions
  pub unused : (hb.regs reg).set ≢ 1
  pub used : (hb'.regs reg).set ≡ 1
  pub others : (q : ℕ) → reg ≢ q → hb'.regs q ≡ hb.regs q

-- A block of at least `len` bytes, whose address leads to it, and that shares no byte with the block of
-- another region.
pub record Mapped (hb : MpHeap) (len ulen reg : ℕ) (hb' : MpHeap) : Type 0 where
  pub using : Using hb reg hb'
  pub room : len ≤ (hb'.regs reg).len
  pub block : IsBlock (hb'.regs reg).user (hb'.regs reg).len
  pub apart :
      (q : ℕ)
      → reg ≢ q
      → (hb'.regs q).len ≢ 0
      → Apart (hb'.regs reg).user (hb'.regs reg).len (hb'.regs q).user (hb'.regs q).len
  pub of_ulen : (hb'.regs reg).ulen ≡ ulen
  pub of_typ : (hb'.regs reg).typ ≡ rmmap
  pub found : find_reg hb'.dirs (hb'.regs reg).user ≡ some (mp_id reg)

-- No block: the regions in use are as before.
pub record Unmapped (hb hb' : MpHeap) : Type 0 where
  pub lists : ℕ → List ℕ
  pub zeros : List ℕ
  pub ordered : IsOrdered hb' lists zeros
  pub others : (q : ℕ) → (hb.regs q).set ≡ 1 → hb'.regs q ≡ hb.regs q

abbrev pub MappedOut : MpHeap → ℕ → ℕ → MpOut (Option ℕ) → Type 0
MappedOut hb len ulen (some reg, hb', log) = Mapped hb len ulen reg hb'
MappedOut hb len ulen (none, hb', log) = Unmapped hb hb'

-- A region in use is written.
put-Using :
    {hb hb' : MpHeap} {reg : ℕ}
    → Using hb reg hb'
    → (r : MpRegion) → r.aged ≡ 0
    → r.age ≡ 0
    → r.set ≡ 1
    → IsBlocks (update hb'.regs reg r)
    → Using hb reg (put_reg hb' reg r)
put-Using {hb' = hb'} {reg} u r young unaged used blocks = record {
  lists = u.lists;
  zeros = u.zeros;
  ordered =
      put-IsMp u.ordered reg r (off_lem u.ordered reg (u.ordered.in_use reg u.used)) u.lt
        (λ q ne e. cc) (inl young) (λ h. absurd (h unaged)) blocks;
  lt = u.lt;
  unused = u.unused;
  used = ap (λ x. x.set) (update_self hb'.regs reg r) ∙ used;
  others = λ q ne. update_ne hb'.regs r ne ∙ u.others q ne;
}

stop-Unmapped : {hb hb' : MpHeap} {reg : ℕ} → Using hb reg hb' → Unmapped hb hb'
stop-Unmapped {hb} u = record {
  lists = u.lists;
  zeros = u.zeros;
  ordered = u.ordered;
  others = λ q used. u.others q (λ e. u.unused (subst (λ m. (hb.regs m).set ≡ 1) (sym e) used));
}

module _ (sys : Sys) (memory : (n : ℕ) → sys.osmem n ≢ none) (hb : MpHeap) (len ulen : ℕ) where
  map_block-Mapped :
      (reg : ℕ) (hb' : MpHeap) (loc : MapLoc)
      → Using hb reg hb'
      → (hb'.regs reg).len ≢ 0
      → len ≤ (hb'.regs reg).len
      → MappedOut hb len ulen (map_block sys hb' reg ulen loc)
  unfolding map_block
  map_block-Mapped reg hb' loc u some_len room =
      let r = hb'.regs reg in
      let r' : MpRegion = record r { ulen = ulen; typ = rmmap } in
      let young = u.ordered.in_use reg u.used in
      let u' =
        put-Using u r' young (in_use_age u.ordered reg u.used) u.used
          (same-IsBlocks hb'.regs u.ordered.blocks reg r' refl refl) in
      let at = update_self hb'.regs reg r' in
      let block = u.ordered.blocks.block reg some_len in
      record {
        using = record {
          lists = u'.lists;
          zeros = u'.zeros;
          ordered = u'.ordered;
          lt = u'.lt;
          unused = u'.unused;
          used = u'.used;
          others = u'.others;
        };
        room = subst (λ x. len ≤ x.len) (sym at) room;
        block = subst (λ x. IsBlock x.user x.len) (sym at) block;
        apart = λ q ne hq.
            u'.ordered.blocks.apart reg q ne (subst (λ x. x.len ≢ 0) (sym at) some_len) hq;
        of_ulen = ap (λ x. x.ulen) at;
        of_typ = ap (λ x. x.typ) at;
        found =
            subst
              (λ x.
                find_reg (setregion sys.osmem hb'.dirs (mp_id reg) r.user pagesize true).1 x.user
                ≡ some (mp_id reg))
              (sym at)
              (page-find_reg sys.osmem memory hb'.dirs (mp_id reg) r.user r.len block some_len
                true);
      }

  -- With new memory, or without.
  map_new-Mapped :
      (reg alen : ℕ) (hb' : MpHeap) (loc : MapLoc) (o : Option ℕ)
      → Using hb reg hb'
      → (hb'.regs reg).len ≡ 0
      → IsMapped hb.regs alen o
      → 0 < alen
      → len ≤ alen
      → MappedOut hb len ulen (map_new sys hb' reg alen ulen loc o)
  map_new-Mapped reg alen hb' loc none u no_len mapped pos le = stop-Unmapped u
  map_new-Mapped reg alen hb' loc (some ip) u no_len (block, apart) pos le =
      let test : (ip % 2 ^ 12 == 0) ≡ true = ground (arith, block.aligned) in
      let r : MpRegion = record (hb'.regs reg) { len = alen; user = ip } in
      let at = update_self hb'.regs reg r in
      let u' =
        put-Using u r (u.ordered.in_use reg u.used) (in_use_age u.ordered reg u.used) u.used (
          mapped-IsBlocks hb'.regs u.ordered.blocks reg r block (λ q ne hq.
            subst (λ x. Apart ip alen x.user x.len) (sym (u.others q ne))
              (apart q (subst (λ x. x.len ≢ 0) (u.others q ne) hq)))) in
      rw test (
        map_block-Mapped reg (put_reg hb' reg r) loc u'
          (λ e. omega (arith, pos, sym (ap (λ x. x.len) at) ∙ e))
          (subst (λ x. len ≤ x.len) (sym at) le))

  map_region-Mapped :
      (reg alen : ℕ) (hb' : MpHeap) (loc : MapLoc)
      → Given hb alen reg hb'
      → IsMapped hb.regs alen (sys.osmem len)
      → 0 < alen
      → len ≤ alen
      → MappedOut hb len ulen (map_region sys hb' reg len alen ulen loc)
  unfolding map_region
  map_region-Mapped reg alen hb' loc g mapped pos le =
      let r = hb'.regs reg in
      let r₁ : MpRegion = record r { set = 1 } in
      let r₂ : MpRegion = record r { set = 1; typ = rmmap } in
      let start : (x : MpRegion)
          → x.aged ≡ 0
          → x.age ≡ 0
          → x.set ≡ 1
          → IsBlocks (update hb'.regs reg x)
          → Using hb reg (put_reg hb' reg x) =
        λ x young unaged used blocks. record {
          lists = g.lists;
          zeros = g.zeros;
          ordered =
              put-IsMp g.ordered reg x (off_lem g.ordered reg g.young) g.lt (λ q ne e. cc)
                (inl young) (λ h. absurd (h unaged)) blocks;
          lt = g.lt;
          unused = g.unused;
          used = ap (λ y. y.set) (update_self hb'.regs reg x) ∙ used;
          others = λ q ne. update_ne hb'.regs x ne ∙ g.others q ne;
        } in
      let free : (r.set == 2) ≡ true = ground (arith, g.free) in
      elim (ℕ_discrete r.len 0) [
        | yes e ↦
            let test : (r.len == 0) ≡ true = ground arith in
            let u =
              start r₁ g.young g.unaged refl
                (same-IsBlocks hb'.regs g.ordered.blocks reg r₁ refl refl) in
            rw (free, test)
              (map_new-Mapped reg alen (put_reg hb' reg r₁) loc (sys.osmem len) u
                (ap (λ x. x.len) (update_self hb'.regs reg r₁) ∙ e) mapped pos le)
        | no some_len ↦
            let test : (r.len == 0) ≡ false = ground arith in
            let block = g.ordered.blocks.block reg some_len in
            let far : ltb r.user 4096 ≡ false = ground (arith, block.above) in
            let at = update_self hb'.regs reg r₂ in
            let u =
              start r₂ g.young g.unaged refl
                (same-IsBlocks hb'.regs g.ordered.blocks reg r₂ refl refl) in
            let room : len ≤ r.len = omega (arith, g.room, some_len) in
            rw (free, test, far)
              (map_block-Mapped reg (put_reg hb' reg r₂) loc u
                (λ e'. some_len (sym (ap (λ x. x.len) at) ∙ e'))
                (subst (λ x. len ≤ x.len) (sym at) room))
      ]

  map_found-Mapped :
      (alen : ℕ) (loc : MapLoc) (out : MpOut (Option ℕ))
      → GivenOut hb alen out
      → IsMapped hb.regs alen (sys.osmem len)
      → 0 < alen
      → len ≤ alen
      → MappedOut hb len ulen (map_found sys len alen ulen loc out)
  map_found-Mapped alen loc (none, hb', log) g mapped pos le = record {
    lists = g.lists;
    zeros = g.zeros;
    ordered = g.ordered;
    others = λ q used. ap (λ f. f q) g.same;
  }
  map_found-Mapped alen loc (some reg, hb', log) g mapped pos le =
      go (map_region sys hb' reg len alen ulen loc)
        (map_region-Mapped reg alen hb' loc g mapped pos le)
    where
      go :
          (out : MpOut (Option ℕ))
          → MappedOut hb len ulen out
          → MappedOut hb len ulen (out.0, out.1, log ++ out.2)
      go (none, hb'', log') m = m
      go (some reg', hb'', log') m = m

  -- yal_mmap() on a heap whose regions are in order, where the system maps only memory that no region
  -- has, and has memory for directories: a region that was not in use is, with a block of at least `len`
  -- bytes that shares no byte with that of any other region, and its address leads to it; or there is
  -- none. In both cases the regions are in order, and those in use before are as they were.
  pub yal_mmap-Mapped :
      (lists : ℕ → List ℕ) (zeros : List ℕ) (loc : MapLoc)
      → IsOrdered hb lists zeros
      → len < 2 ^ 48
      → IsMapped hb.regs (doalign8 len 4096) (sys.osmmap (doalign8 len 4096))
      → IsMapped hb.regs (doalign8 len 4096) (sys.osmem len)
      → MappedOut hb len ulen (yal_mmap sys hb len ulen loc)
  unfolding yal_mmap
  yal_mmap-Mapped lists zeros loc v lt mapped mapped' =
      let up = doalign8-IsRoundUp len 12 (omega arith) (omega arith) in
      let stop : Unmapped hb hb = record {
        lists = lists;
        zeros = zeros;
        ordered = v;
        others = λ q used. refl;
      } in
      let near : leb (2 ^ 48) len ≡ false = ground arith in
      elim (dec_lt len 4096) [
        | yes short ↦ let test : ltb len 4096 ≡ true = ground arith in rw test stop
        | no long ↦
            let test : ltb len 4096 ≡ false = ground arith in
            rw (test, near)
              (map_found-Mapped (doalign8 len 4096) loc _
                (newmpregion-Given sys hb lists zeros v (doalign8 len 4096) (is_allocal loc) mapped)
                mapped' (omega (arith, up.above)) up.above)
      ]
