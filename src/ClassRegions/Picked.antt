-- ===== src/ClassRegions/Picked.antt =====
-- alloc.h `alloc_heap`: the region that a round picks is one that was made.
use native.Mathlib.Decide.{ℕ_discrete, dec_lt}
use yalloc.Base.{
  ℕ, ◌+◌, ◌-◌, ◌^◌, ◌≤◌, ◌<◌, false, not, ◌&&◌, Option, none, some, List, ◌==◌, ltb, leb, arith,
  ◌≡◌, inl, inr, refl, sym, ap, subst, ◌∙◌, update, update_self, update_ne, Bool-cases,
}
use yalloc.SizeClass.Popular.{clascnt_max}
use yalloc.Slab.Region.{Region, Diag}
use yalloc.Slab.Valid.{IsRemoteBin, live}
use yalloc.Slab.Blocks.{is_allocal}
use yalloc.ClassRegions.State.{ClassHeap, Request, Vars, Maker}
use yalloc.ClassRegions.Alloc.{
  Pick, picked, zero_block, refused, no_region, is_real, has_space, with_space, next_class,
  place_region, new_placed, new_region, or_new, or_second, pick_other, pick_here, pick_headroom,
  pick,
}
use yalloc.ClassRegions.Valid.{IsOpen, IsOrdered}
use yalloc.ClassRegions.Fresh.{IsAnswered, NewOut, newslab-NewOut}

-- The same cells are in use; regions may have been made.
pub record Before (hb hb' : ClassHeap) : Type 0 where
  pub more : hb.made ≤ hb'.made
  pub same : (i c : ℕ) → i < hb.made → live (hb'.regs i) c ≡ live (hb.regs i) c
  pub unused : (i c : ℕ) → hb.made ≤ i → i < hb'.made → live (hb'.regs i) c ≡ false

pub same-Before : (hb : ClassHeap) → Before hb hb
same-Before hb = record {
  more = omega arith;
  same = λ i c lt. refl;
  unused = λ i c ge lt. absurd (omega (arith, ge, lt));
}

pub then-Before : {hb hb₁ hb₂ : ClassHeap} → Before hb hb₁ → Before hb₁ hb₂ → Before hb hb₂
then-Before {hb} {hb₁} b b' = record {
  more = omega (arith, b.more, b'.more);
  same = λ i c lt. b'.same i c (omega (arith, b.more, lt)) ∙ b.same i c lt;
  unused = λ i c ge lt. elim (dec_lt i hb₁.made) [
    | yes old ↦ b'.same i c old ∙ b.unused i c ge old
    | no new ↦ b'.unused i c (omega arith) lt
  ];
}

abbrev pub PickOut : ClassHeap → Pick → Type 0
PickOut hb (picked i v hb') = IsOrdered hb' × (i < hb'.made) × (v.alen < 2 ^ 32) × Before hb hb'
PickOut hb zero_block = ◌≡◌ {A = ℕ} 0 0
PickOut hb (refused hb') = IsOrdered hb' × Before hb hb'
PickOut hb (no_region log) = ◌≡◌ {A = ℕ} 0 0

-- A region of another class, if it has space.
abbrev SpaceOut : ClassHeap → Option (ℕ × Vars) → Type 0
SpaceOut hb none = ◌≡◌ {A = ℕ} 0 0
SpaceOut hb (some (i, v)) = (i < hb.made) × (v.alen < 2 ^ 32)

with_space-SpaceOut :
    (hb : ClassHeap) (clas : ℕ) (o : Option ℕ)
    → IsOrdered hb
    → ((i : ℕ) → o ≡ some i → i < hb.made)
    → SpaceOut hb (with_space hb clas o)
with_space-SpaceOut hb clas none v entered = refl
with_space-SpaceOut hb clas (some i) v entered = elim (Bool-cases (has_space (hb.regs i))) [
  | inr full ↦ rw full refl
  | inl space ↦ rw space (entered i refl, (v.opened i (entered i refl)).short)
]

next_class-SpaceOut :
    (hb : ClassHeap) (v : Vars) (nx : ℕ) → IsOrdered hb → SpaceOut hb (next_class hb v nx)
next_class-SpaceOut hb v nx o =
    with_space-SpaceOut hb (v.clas + nx) _ o
      (λ i e. o.entered (v.clas + nx) (hb.claspos (v.clas + nx)) i e)

with_claspos : (reg : Region) (pos : ℕ) → IsOpen reg → IsOpen (record reg { claspos = pos })
with_claspos reg pos o =
    let v = o.valid in
    record {
      valid = record {
        small = v.small;
        inipos_le = v.inipos_le;
        fresh = v.fresh;
        begun = v.begun;
        bin_list = v.bin_list;
        bin_count = v.bin_count;
        remote_list = remote reg.rembin v.remote_list;
        remote_count = v.remote_count;
        referred = v.referred;
        room = v.room;
      };
      young = o.young;
      short = o.short;
    }
  where
    remote : (m : Option (ℕ → ℕ)) → IsRemoteBin reg m → IsRemoteBin (record reg { claspos = pos }) m
    remote none h = h
    remote (some rbin) h = h

some_eq : {a b : ℕ} → ◌≡◌ {A = Option ℕ} (some a) (some b) → a ≡ b
some_eq e = ground (arith, e)

module _ (hb : ClassHeap) (o : IsOrdered hb) (v : Vars) where
  -- A new region is entered.
  placed-IsOrdered : (reg : Region) → IsOpen reg → IsOrdered (place_region hb v reg)
  placed-IsOrdered reg is_open = record { opened = opened; entered = entered }
    where
      opened :
          (i : ℕ)
          → i < hb.made + 1
          → IsOpen (update hb.regs hb.made (record reg { claspos = v.pos }) i)
      opened i lt = elim (ℕ_discrete hb.made i) [
        | yes e ↦
            subst (λ m. IsOpen (update hb.regs hb.made (record reg { claspos = v.pos }) m)) e
              (subst IsOpen (sym (update_self hb.regs hb.made _)) (with_claspos reg v.pos is_open))
        | no ne ↦ subst IsOpen (sym (update_ne hb.regs _ ne)) (o.opened i (omega (arith, lt)))
      ]

      entered :
          (clas pos i : ℕ)
          → update hb.clasregs v.clas (update (hb.clasregs v.clas) v.pos (some hb.made)) clas pos
            ≡ some i
          → i < hb.made + 1
      entered clas pos i e = elim (ℕ_discrete v.clas clas) [
        | no ne ↦
            omega
              (arith, o.entered clas pos i (sym (ap (λ f. f pos) (update_ne hb.clasregs _ ne)) ∙ e))
        | yes same ↦
            let e' : update (hb.clasregs v.clas) v.pos (some hb.made) pos ≡ some i =
              sym (
                ap (λ f. f pos)
                  (subst
                    (λ k.
                      update hb.clasregs v.clas (update (hb.clasregs v.clas) v.pos (some hb.made)) k
                      ≡ update (hb.clasregs v.clas) v.pos (some hb.made))
                    same (update_self hb.clasregs v.clas _)))
              ∙ e in
            elim (ℕ_discrete v.pos pos) [
              | no ne ↦
                  omega
                    (arith, o.entered v.clas pos i (sym (update_ne (hb.clasregs v.clas) _ ne) ∙ e'))
              | yes here ↦
                  let at : ◌≡◌ {A = Option ℕ} (some hb.made) (some i) =
                    sym (
                      subst (λ k. update (hb.clasregs v.clas) v.pos (some hb.made) k ≡ some hb.made)
                        here (update_self (hb.clasregs v.clas) v.pos _))
                    ∙ e' in
                  omega (arith, some_eq at)
            ]
      ]

  placed-Before :
      (reg : Region) → ((c : ℕ) → live reg c ≡ false) → Before hb (place_region hb v reg)
  placed-Before reg free = record {
    more = omega arith;
    same =
        λ i c lt. ap (λ (r : Region). live r c) (update_ne hb.regs _ (λ e. omega (arith, lt, e)));
    unused = λ i c ge lt.
        let e : hb.made ≡ i = omega (arith, ge, lt) in
        subst (λ k. live (update hb.regs hb.made (record reg { claspos = v.pos }) k) c ≡ false) e
          (ap (λ (r : Region). live r c) (update_self hb.regs hb.made _) ∙ free c);
  }

  new_placed-PickOut :
      v.alen < 2 ^ 32
      → (out : Option Region × List Diag) → NewOut out
      → PickOut hb (new_placed hb v out)
  new_placed-PickOut short (none, log) n = refl
  new_placed-PickOut short (some reg, log) (is_open, free) =
      let ordered = placed-IsOrdered reg is_open in
      let before = placed-Before reg free in
      elim (Bool-cases (not (reg.lock == 0))) [
        | inl locked ↦ rw locked (ordered, before)
        | inr unlocked ↦ rw unlocked (
          record { opened = ordered.opened; entered = ordered.entered },
          omega arith,
          short,
          record { more = before.more; same = before.same; unused = before.unused },
        )
      ]

module _ (env : Maker) (answered : IsAnswered env.newregion) (q : Request) (hb : ClassHeap)
    (o : IsOrdered hb) (v : Vars) (short : v.alen < 2 ^ 32) where
  new_region-PickOut : 0 < q.len → PickOut hb (new_region env q hb v)
  unfolding new_region
  new_region-PickOut pos = elim (Bool-cases (ltb v.alen q.len)) [
    | inl few ↦ rw few (o, same-Before hb)
    | inr fits ↦ rw fits (
        new_placed-PickOut hb o v short _ (
          newslab-NewOut env.newregion answered env.tags env.flns env.order v.alen v.clas
            (hb.clasregcnt v.clas) (ground (arith, fits, pos)) short))
  ]

  or_new-PickOut :
      0 < q.len → (r : Option (ℕ × Vars)) → SpaceOut hb r → PickOut hb (or_new env q hb v r)
  or_new-PickOut pos (some (i, v')) (lt, small) = (o, lt, small, same-Before hb)
  or_new-PickOut pos none s = new_region-PickOut pos

  or_second-PickOut :
      0 < q.len → (r : Option (ℕ × Vars)) → SpaceOut hb r → PickOut hb (or_second env q hb v r)
  or_second-PickOut pos (some (i, v')) (lt, small) = (o, lt, small, same-Before hb)
  or_second-PickOut pos none s = elim (Bool-cases (leb 32 (hb.claspos (v.clas + 2)))) [
    | inl far ↦ rw far (o, same-Before hb)
    | inr near ↦ rw near (or_new-PickOut pos (next_class hb v 2) (next_class-SpaceOut hb v 2 o))
  ]

  pick_other-PickOut : (iter : ℕ) → PickOut hb (pick_other env q hb iter v)
  unfolding pick_other
  pick_other-PickOut iter = elim (Bool-cases (q.len == 0)) [
    | inl nothing ↦ rw nothing refl
    | inr some_len ↦
        let pos : 0 < q.len = ground (arith, some_len) in
        elim (Bool-cases
          (not q.popular && ltb iter 4 && ltb v.clas (clascnt_max - 4) && not (is_allocal q.loc))) [
            | inr popular ↦ rw (some_len, popular) (new_region-PickOut pos)
            | inl rare ↦ elim (Bool-cases (leb 32 (hb.claspos (v.clas + 1)))) [
              | inl far ↦ rw (some_len, rare, far) (o, same-Before hb)
              | inr near ↦
                  rw (some_len, rare, near)
                    (or_second-PickOut pos (next_class hb v 1) (next_class-SpaceOut hb v 1 o))
            ]
          ]
  ]

  pick_here-PickOut :
      (iter : ℕ) (r : Option ℕ)
      → ((i : ℕ) → r ≡ some i → i < hb.made)
      → PickOut hb (pick_here env q hb iter v r)
  pick_here-PickOut iter (some i) entered = (o, entered i refl, short, same-Before hb)
  pick_here-PickOut iter none entered = pick_other-PickOut iter

  pick_headroom-PickOut :
      (iter : ℕ) (r : Option (ℕ × Vars))
      → SpaceOut hb r
      → PickOut hb (pick_headroom env q hb iter v r)
  pick_headroom-PickOut iter (some (i, v')) (lt, small) = (o, lt, small, same-Before hb)
  pick_headroom-PickOut iter none s =
      pick_here-PickOut iter (hb.clasregs v.clas v.pos) (λ i e. o.entered v.clas v.pos i e)

  pub pick-PickOut : (iter : ℕ) → PickOut hb (pick env q hb iter v)
  unfolding pick
  pick-PickOut iter = elim (Bool-cases (is_real q.loc && ltb 1 q.clen)) [
    | inl real ↦
        rw real (pick_headroom-PickOut iter (next_class hb v 1) (next_class-SpaceOut hb v 1 o))
    | inr other ↦ rw other (pick_headroom-PickOut iter none refl)
  ]
