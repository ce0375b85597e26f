-- ===== src/ClassRegions/Block.antt =====
-- slab.h `slab_alloc` but for aligned_alloc(), on a region in order.
use yalloc.Base.{
  ℕ, ◌+◌, ◌*◌, true, false, not, ◌&&◌, Option, none, some, List, ◌==◌, ltb, arith, ◌≡◌, inl, inr,
  refl, sym, ap, subst, ◌∙◌, ◌<◌, ◌^◌, Bool-cases, ◌∷◌, if◌then◌else◌, [],
}
use yalloc.Slab.Region.{assertion, Region, RegStat, Diag, Out, HeapStat}
use yalloc.Slab.Cells.{slab_newcel}
use yalloc.Slab.Blocks.{
  Loc, lalloc, lallocal, lcalloc, lreal, is_allocal, is_calloc, Allocated, slab_alloc, alloc_block,
  store_len,
}
use yalloc.Slab.Valid.{IsValid, IsRemoteBin, live}
use yalloc.Slab.New.{Alloced, Outcome, newcel-Outcome}
use yalloc.Slab.Malloc.{with_age, store_len-IsValid}
use yalloc.ClassRegions.Valid.{IsOpen, IsBlock, SlabOut}

with_stat : (reg : Region) (stat : RegStat) → IsValid reg → IsValid (record reg { stat = stat })
with_stat reg stat v = record {
  small = v.small;
  inipos_le = v.inipos_le;
  fresh = v.fresh;
  begun = v.begun;
  bin_list = v.bin_list;
  bin_count = v.bin_count;
  remote_list = remote reg.rembin v.remote_list;
  remote_count = v.remote_count;
  referred = v.referred;
  room = v.room;
}
  where
    remote : (o : Option (ℕ → ℕ)) → IsRemoteBin reg o → IsRemoteBin (record reg { stat = stat }) o
    remote none h = h
    remote (some rbin) h = h

-- The stored length changes nothing else.
store_len-same :
    {A : Type 0} (f : Region → A)
    → ((r : Region) (lens : ℕ → ℕ) → f (record r { lens = lens }) ≡ f r)
    → (reg : Region) (cel ulen : ℕ) → f (store_len reg cel ulen) ≡ f reg
store_len-same f same reg cel ulen = elim (Bool-cases (ltb 1023 reg.cellen)) [
  | inl large ↦ rw large (same reg _)
  | inr small ↦ rw small refl
]

module _ (reg : Region) (o : IsOpen reg) (hb : HeapStat) (ulen : ℕ) (loc : Loc) (mem : ℕ → ℕ) where
  abbrev young : Region
  young = record reg { age = 0 }

  -- The block of a cell.
  block-SlabOut :
      (cel : ℕ) (reg₁ : Region) (log : List Diag)
      → Alloced young cel reg₁
      → SlabOut reg
          (alloc_block hb reg₁ ulen loc mem reg.inipos cel log).ptr
          (alloc_block hb reg₁ ulen loc mem reg.inipos cel log).reg
  unfolding alloc_block
  block-SlabOut cel reg₁ log al =
      let stored = store_len reg₁ cel ulen in
      let valid = store_len-IsValid reg₁ cel ulen al.valid in
      let aged : stored.aged ≡ 0 =
        store_len-same (λ r. r.aged) (λ r l. refl) reg₁ cel ulen ∙ (al.shape.aged ∙ o.young) in
      let of_cellen : stored.cellen ≡ reg₁.cellen =
        store_len-same (λ r. r.cellen) (λ r l. refl) reg₁ cel ulen in
      let of_user : stored.user ≡ reg₁.user =
        store_len-same (λ r. r.user) (λ r l. refl) reg₁ cel ulen in
      let of_celcnt : stored.celcnt ≡ reg₁.celcnt =
        store_len-same (λ r. r.celcnt) (λ r l. refl) reg₁ cel ulen in
      let short : stored.cellen < 2 ^ 32 =
        subst (λ n. n < 2 ^ 32) (sym (of_cellen ∙ al.shape.cellen)) o.short in
      let is_block : IsBlock reg stored (reg₁.user + cel * reg₁.cellen) = record {
        cel = cel;
        at_cel = rw (of_user, of_cellen) refl;
        inside = omega (arith, of_celcnt, al.shape.celcnt, al.inside);
        of_cellen = of_cellen ∙ al.shape.cellen;
        free = al.free;
        marks = λ c. store_len-same (λ r. live r c) (λ r l. refl) reg₁ cel ulen ∙ al.marks c;
      } in
      let counted = record stored {
        stat = record (stored.stat) { callocs = stored.stat.callocs + 1 };
      } in
      let is_block' : IsBlock reg counted (reg₁.user + cel * reg₁.cellen) = record {
        cel = cel;
        at_cel = is_block.at_cel;
        inside = is_block.inside;
        of_cellen = is_block.of_cellen;
        free = al.free;
        marks = is_block.marks;
      } in
      let opened : IsOpen counted = record {
        valid = with_stat stored _ valid;
        young = aged;
        short = short;
      } in
      elim (Bool-cases (is_calloc loc)) [
        | inr plain ↦ rw plain (record { valid = valid; young = aged; short = short }, is_block)
        | inl clears ↦ elim (Bool-cases (not (reg.inipos == reg₁.inipos) && (reg₁.clr == 0))) [
          | inl zeros ↦ rw (clears, zeros) (opened, is_block')
          | inr dirty ↦ rw (clears, dirty) (opened, is_block')
        ]
      ]

  -- Once the cell is looked for.
  abbrev pub found : Out (Option ℕ) → Allocated
  found out = elim (out.0) [
    | none ↦ record { ptr = none; hb = hb; reg = out.1; mem = mem; log = out.2 }
    | some cel ↦ alloc_block hb out.1 ulen loc mem reg.inipos cel out.2
  ]

  abbrev stopped : Allocated
  stopped = record { ptr = none; hb = hb; reg = reg; mem = mem; log = assertion ∷ [] }

  found-SlabOut :
      (out : Out (Option ℕ)) → Outcome young out → SlabOut reg (found out).ptr (found out).reg
  found-SlabOut (none, reg₁, log) (full, same, quiet) = (
    subst IsOpen (sym same)
        (record { valid = with_age reg 0 o.valid; young = o.young; short = o.short }),
    λ c. ap (λ (r : Region). live r c) same,
  )
  found-SlabOut (some cel, reg₁, log) (al, quiet) = block-SlabOut cel reg₁ log al

-- Without an alignment.
pub plain_lem :
    (reg : Region) (o : IsOpen reg) (hb : HeapStat) (ulen align : ℕ) (loc : Loc) (mem : ℕ → ℕ)
    → is_allocal loc ≡ false
    → slab_alloc hb reg ulen align loc mem ≡ (
        if ulen == 0
        then stopped reg o hb ulen loc mem
        else if ltb reg.cellen ulen
        then stopped reg o hb ulen loc mem
        else if not (reg.aged == 0)
        then stopped reg o hb ulen loc mem
        else found reg o hb ulen loc mem (slab_newcel (record reg { age = 0 })))
unfolding slab_alloc
plain_lem reg o hb ulen align lallocal mem e = cc
plain_lem reg o hb ulen align lalloc mem e = refl
plain_lem reg o hb ulen align lcalloc mem e = refl
plain_lem reg o hb ulen align lreal mem e = refl

pub slab_alloc-SlabOut :
    (reg : Region)
    → IsOpen reg
    → (hb : HeapStat) (ulen align : ℕ) (loc : Loc) (mem : ℕ → ℕ) → is_allocal loc ≡ false
    → SlabOut reg
        (slab_alloc hb reg ulen align loc mem).ptr
        (slab_alloc hb reg ulen align loc mem).reg
slab_alloc-SlabOut reg o hb ulen align loc mem plain =
    subst (λ (a : Allocated). SlabOut reg a.ptr a.reg)
      (sym (plain_lem reg o hb ulen align loc mem plain))
      (elim (Bool-cases (ulen == 0)) [
        | inl nothing ↦ rw nothing (o, λ c. refl)
        | inr some_len ↦ elim (Bool-cases (ltb reg.cellen ulen)) [
          | inl large ↦ rw (some_len, large) (o, λ c. refl)
          | inr fits ↦
              let young_test : (reg.aged == 0) ≡ true = ground (arith, o.young) in
              rw (some_len, fits, young_test)
                (found-SlabOut reg o hb ulen loc mem (slab_newcel (record reg { age = 0 }))
                  (newcel-Outcome (record reg { age = 0 }) (with_age reg 0 o.valid)))
        ]
      ])
