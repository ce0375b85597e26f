-- ===== src/Dispatch/Parts.antt =====
-- free.h `free_heap`, from the type of the region on.
use native.Mathlib.Decide.{ℕ_discrete}
use yalloc.Base.{
  ℕ, ◌-◌, Bool, true, false, ◌&&◌, not, Option, none, some, [], leb, ◌==◌, if◌then◌else◌, arith,
  ◌≡◌, ◌≢◌, ◌⊎◌, inl, inr, refl, sym, ap, subst, ◌∙◌, Bool-cases, update, update_self, update_ne,
}
use yalloc.Slab.Blocks.{slab_free}
use yalloc.Slab.Remote.Buffer.{slab_free_rheap}
use yalloc.Bump.Region.{BumpRegion, BumpOut}
use yalloc.Bump.Free.{to_free, bump_free}
use yalloc.Mmap.State.{MpHeap, MpOut}
use yalloc.Mmap.New.{is_mmap}
use yalloc.Mmap.Free.{free_mmap}
use yalloc.Dispatch.State.{
  slab_reg, bump_reg, mmap_reg, Heap, Place, in_heap, in_mini, Heaps, Env, of_slab, of_bump,
  of_mmap, map_log, put_heap, invalid, HeapOut,
}
use yalloc.Dispatch.Free.{
  some_len, is_some, count_map, reinclude, free_slab, free_slab_remote, slab_at, free_large,
  free_mini, free_bump, free_place, nolen, bump_ask,
}
use yalloc.Dispatch.Live.{append_some, map_log_some}
use yalloc.Dispatch.Sized.{IsBumps}
use yalloc.Dispatch.LargeTaken.{MpTaken, free_mmap-MpTaken}
use yalloc.Dispatch.Taken.{
  SlabTaken, BumpTaken, BumpFreed, bump_free-Freed, slab_free-Taken, slab_free_rheap-Taken,
}

-- The block of `len` bytes at `ip` was in use, and is marked as free.
abbrev pub Took : Heaps → Heaps → Place → ℕ → ℕ → Type 0
Took st st' (in_mini i) ip len = BumpTaken (st.minis i) (st'.minis i) ip len
Took st st' (in_heap h (bump_reg i)) ip len =
    BumpTaken ((st.heaps h).bumpregs i) ((st'.heaps h).bumpregs i) ip len
Took st st' (in_heap h (slab_reg i)) ip len =
    ((to : ℕ) × SlabTaken ((st.heaps h).slabs i) ((st'.heaps h).slabs i) ip to
      × ((to ≡ 2) ⊎ (to ≡ 3)))
    × (len ≡ ((st.heaps h).slabs i).cellen)
Took st st' (in_heap h (mmap_reg i)) ip len =
    (((st.heaps h).mp.regs i).set ≡ 1)
    × (((st'.heaps h).mp.regs i).set ≡ 2)
    × (len ≡ ((st.heaps h).mp.regs i).len - ((st.heaps h).mp.regs i).align)

-- All regions are as before.
pub record SameBlocks (st st' : Heaps) : Type 0 where
  pub slabs : (h i : ℕ) → (st'.heaps h).slabs i ≡ (st.heaps h).slabs i
  pub bumpregs : (h i : ℕ) → (st'.heaps h).bumpregs i ≡ (st.heaps h).bumpregs i
  pub regs : (h i : ℕ) → (st'.heaps h).mp.regs i ≡ (st.heaps h).mp.regs i
  pub minis : (i : ℕ) → st'.minis i ≡ st.minis i

abbrev pub PlaceOut : Heaps → Place → ℕ → HeapOut (Option ℕ) → Type 0
PlaceOut st at ip (none, st', log) = log ≢ []
PlaceOut st at ip (some len, st', log) = Took st st' at ip len ⊎ ((len ≡ 0) × SameBlocks st st')

free_slab-PlaceOut :
    (st : Heaps) (h i ip : ℕ) → PlaceOut st (in_heap h (slab_reg i)) ip (free_slab st h i ip)
unfolding free_slab
free_slab-PlaceOut st h i ip =
    let x = st.heaps h in
    let creg = x.slabs i in
    let out = slab_free x.slab_stat creg ip creg.cellen creg.celcnt in
    let x' : Heap = record x { slab_stat = out.1; slabs = update x.slabs i out.2 } in
    elim (slab_free-Taken x.slab_stat creg ip) [
      | inr (nothing, logged) ↦
          let test : (out.0 == 0) ≡ true = ground (arith, nothing) in
          rw test (map_log_some of_slab _ logged)
      | inl (some_cnt, taken) ↦
          let test : (out.0 == 0) ≡ false = ground (arith, some_cnt) in
          let took : (y : Heap)
              → y.slabs ≡ x'.slabs
              → Took st (put_heap st h y) (in_heap h (slab_reg i)) ip creg.cellen =
            λ y e.
              let path : ((put_heap st h y).heaps h).slabs i ≡ out.2 =
                ap (λ (z : Heap). z.slabs i) (update_self st.heaps h y)
                ∙ (ap (λ f. f i) e ∙ update_self x.slabs i out.2) in
              ((2, subst (λ r. SlabTaken creg r ip 2) (sym path) taken, inl refl), refl) in
          elim (Bool-cases ((out.0 == 1) && (out.2.inipos == creg.celcnt))) [
            | inr plain ↦ rw (test, plain) (inl (took x' refl))
            | inl full ↦ elim (Bool-cases (leb 32 out.2.claspos)) [
              | inl far ↦ rw (test, full, far) (append_some (map_log of_slab out.3) _ (λ e. cc))
              | inr near ↦ rw (test, full, near) (inl (took (reinclude x' out.2) refl))
            ]
          ]
    ]

same-SameBlocks : (st : Heaps) → SameBlocks st st
same-SameBlocks st = record {
  slabs = λ h i. refl;
  bumpregs = λ h i. refl;
  regs = λ h i. refl;
  minis = λ i. refl;
}

free_slab_remote-PlaceOut :
    (env : Env) (st : Heaps) (hb h i ip : ℕ)
    → PlaceOut st (in_heap h (slab_reg i)) ip (free_slab_remote env st hb h i ip)
unfolding free_slab_remote
free_slab_remote-PlaceOut env st hb h i ip =
    let x = st.heaps h in
    let creg = x.slabs i in
    let out = slab_free_rheap env.getrbinmem env.newrem (st.heaps hb).rem creg ip in
    let owned : Heap = record x { slabs = update x.slabs i out.2 } in
    let owner = put_heap st h owned in
    elim (Bool-cases (hb == h)) [
      | inl own ↦ rw own (inr (refl, same-SameBlocks st))
      | inr other ↦ elim (Bool-cases (out.0 == 0)) [
        | inl failed ↦ rw (other, failed) (append_some (map_log of_slab out.3) _ (λ e. cc))
        | inr ok ↦
            elim (slab_free_rheap-Taken env.getrbinmem env.newrem (st.heaps hb).rem creg ip) [
              | inl nothing ↦ absurd (ground (arith, nothing, ok))
              | inr (of_len, taken) ↦
                  let y : Heap = record (owner.heaps hb) { rem = out.1 } in
                  let path : ((put_heap owner hb y).heaps h).slabs i ≡ out.2 =
                    ap (λ (z : Heap). z.slabs i)
                      (update_ne owner.heaps y (λ e. ground (arith, other, e)))
                    ∙ (ap (λ (z : Heap). z.slabs i) (update_self st.heaps h owned)
                        ∙ update_self x.slabs i out.2) in
                  rw (other, ok)
                    (inl
                      ((3, subst (λ r. SlabTaken creg r ip 3) (sym path) taken, inr refl), of_len))
            ]
      ]
    ]

slab_at-PlaceOut :
    (env : Env) (st : Heaps) (hb : Option ℕ) (local : Bool) (h i ip : ℕ)
    → PlaceOut st (in_heap h (slab_reg i)) ip (slab_at env st hb local h i ip)
slab_at-PlaceOut env st none local h i ip = λ e. cc
slab_at-PlaceOut env st (some hb) true h i ip = elim (Bool-cases (not (hb == h))) [
  | inl other ↦ rw other (λ e. cc)
  | inr own ↦ rw own (free_slab-PlaceOut st h i ip)
]
slab_at-PlaceOut env st (some hb) false h i ip = free_slab_remote-PlaceOut env st hb h i ip

-- The length, or none for 0.
bump-PlaceOut :
    (st st' : Heaps) (at : Place) (reg : BumpRegion) (ip : ℕ) (out : BumpOut ℕ)
    → BumpFreed reg ip out
    → (BumpTaken reg out.1 ip out.0 → Took st st' at ip out.0)
    → PlaceOut st at ip (some_len out.0, st', map_log of_bump out.2)
bump-PlaceOut st st' at reg ip (len, reg', log) (inl (some_cells, taken)) took =
    let test : (len == 0) ≡ false = ground (arith, some_cells) in rw test (inl (took taken))
bump-PlaceOut st st' at reg ip (len, reg', log) (inr (nothing, logged)) took =
    let test : (len == 0) ≡ true = ground (arith, nothing) in
    rw test (map_log_some of_bump log logged)

-- The count of frees leaves the blocks alone.
count_map-mp :
    (st : Heaps) (hb : Option ℕ) (h : ℕ) → ((count_map st hb).heaps h).mp ≡ (st.heaps h).mp
count_map-mp st none h = refl
count_map-mp st (some g) h = elim (ℕ_discrete g h) [
  | no other ↦ ap (λ (z : Heap). z.mp) (update_ne st.heaps _ other)
  | yes same ↦
      subst (λ k. ((count_map st (some g)).heaps k).mp ≡ (st.heaps k).mp) same
        (ap (λ (z : Heap). z.mp) (update_self st.heaps g _))
]

-- With the outcome of free_mmap().
large-PlaceOut :
    (st st₂ : Heaps) (h i ip : ℕ) (failure : Heaps) (out : MpOut Bool)
    → MpTaken (st.heaps h).mp i out
    → (st₂.heaps h).mp ≡ out.1
    → PlaceOut st (in_heap h (mmap_reg i)) ip (
        if out.0 then (none, failure, map_log of_mmap out.2) else (
          some (((st.heaps h).mp.regs i).len - ((st.heaps h).mp.regs i).align),
          st₂,
          map_log of_mmap out.2,
        ))
large-PlaceOut st st₂ h i ip failure (true, mp, log) logged same = map_log_some of_mmap log logged
large-PlaceOut st st₂ h i ip failure (false, mp, log) (was, gone) same =
    inl (was, ap (λ (m : MpHeap). (m.regs i).set) same ∙ gone, refl)

free_large-PlaceOut :
    (env : Env) (st : Heaps) (hb : Option ℕ) (local : Bool) (h i ip reqlen : ℕ)
    → PlaceOut st (in_heap h (mmap_reg i)) ip (free_large env st hb local h i ip reqlen)
unfolding free_large
free_large-PlaceOut env st hb local h i ip reqlen =
    let st₁ = count_map st hb in
    let out = free_mmap env.sys (st₁.heaps h).mp (local && is_some hb) i ip reqlen in
    let y : Heap = record (st₁.heaps h) { mp = out.1 } in
    let st₂ = put_heap st₁ h y in
    elim (Bool-cases (not (is_mmap ((st.heaps h).mp.regs i).typ))) [
      | inl other ↦ rw other (λ e. cc)
      | inr of_mmap' ↦ rw of_mmap' (
          large-PlaceOut st st₂ h i ip (if is_some hb then invalid st₂ else st₂) out
            (subst (λ m. MpTaken m i out) (count_map-mp st hb h)
              (free_mmap-MpTaken env.sys (local && is_some hb) i ip (st₁.heaps h).mp reqlen))
            (ap (λ (z : Heap). z.mp) (update_self st₁.heaps h y)))
    ]

ask-to_free : (env : Env) (reqlen : ℕ) → reqlen ≢ nolen → bump_ask env reqlen ≡ to_free
ask-to_free env reqlen sized =
    let test : (reqlen == nolen) ≡ false = ground (arith, sized) in rw test refl

-- free_heap() from the type of the region on.
pub free_place-PlaceOut :
    (env : Env) (st : Heaps)
    → IsBumps st
    → (hb : Option ℕ) (local : Bool) (at : Place) (ip reqlen : ℕ) → reqlen ≢ nolen
    → PlaceOut st at ip (free_place env st hb local at ip reqlen)
unfolding free_place free_mini free_bump
free_place-PlaceOut env st v hb local (in_mini i) ip reqlen sized =
    let out = bump_free (st.minis i) ip to_free in
    rw (ask-to_free env reqlen sized) (
      bump-PlaceOut st _ (in_mini i) (st.minis i) ip out
        (bump_free-Freed (st.minis i) (v.of_minis i) ip)
        (λ t.
          subst (λ r. BumpTaken (st.minis i) r ip out.0) (sym (update_self st.minis i out.1)) t))
free_place-PlaceOut env st v hb local (in_heap h (slab_reg i)) ip reqlen sized =
    slab_at-PlaceOut env st hb local h i ip
free_place-PlaceOut env st v hb local (in_heap h (bump_reg i)) ip reqlen sized =
    let x = st.heaps h in
    let reg = x.bumpregs i in
    let out = bump_free reg ip to_free in
    let y : Heap = record x { bumpregs = update x.bumpregs i out.1 } in
    let path : ((put_heap st h y).heaps h).bumpregs i ≡ out.1 =
      ap (λ (z : Heap). z.bumpregs i) (update_self st.heaps h y) ∙ update_self x.bumpregs i out.1 in
    rw (ask-to_free env reqlen sized) (
      bump-PlaceOut st (put_heap st h y) (in_heap h (bump_reg i)) reg ip out
        (bump_free-Freed reg (v.of_heaps h i) ip)
        (λ t. subst (λ r. BumpTaken reg r ip out.0) (sym path) t))
free_place-PlaceOut env st v hb local (in_heap h (mmap_reg i)) ip reqlen sized =
    free_large-PlaceOut env st hb local h i ip reqlen
