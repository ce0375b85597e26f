-- ===== src/Bump/Pick.antt =====
-- bump.h `newbump`, `bumpalloc`: the regions of a heap stay in order, and a block comes from one of them.
use native.Mathlib.Decide.{dec_lt, ℕ_discrete}
use yalloc.Base.{
  ℕ, zero, suc, ◌+◌, ◌-◌, ◌*◌, ◌/◌, ◌%◌, ◌^◌, ◌≤◌, ◌<◌, Bool, true, false, Option, none, some, List,
  [], ◌∷◌, ltb, leb, ◌==◌, update, update_self, update_ne, arith, ◌≡◌, ◌≢◌, refl, ◌⊎◌, inl, inr,
  subst, sym,
}
use yalloc.Word.{add4, doalign4}
use yalloc.Word.Align.{doalign4-IsRoundUp, doalign4_sixteen}
use yalloc.Bump.Region.{BumpRegion, BumpDiag, BumpOut, newbump, bump_made, bump_len}
use yalloc.Bump.Alloc.{bump_pick, bump_served, pick_log, pick_here, pick_new, bumpalloc, PickOut}
use yalloc.Bump.Valid.{IsBump}
use yalloc.Bump.Laws.{Carved, bump_block-Cut}

-- The length of one of the four regions.
bump_len_lem :
    (regpos : ℕ)
    → regpos < 4
    → (4096 ≤ bump_len 16384 regpos)
      × (bump_len 16384 regpos ≤ 2 ^ 17)
      × (bump_len 16384 regpos % 4096 ≡ 0)
bump_len_lem regpos h =
    let n = 16384 * (regpos + 1) % 2 ^ 32 in
    let up = doalign4-IsRoundUp n 12 (omega arith) (omega arith) in
    (omega (arith, up.above), omega (arith, up.near), omega (arith, up.multiple, up.near))

-- The region is as it was, or it had no memory and has no block.
abbrev pub Since : BumpRegion → BumpRegion → Type 0
Since reg reg' = (reg' ≡ reg) ⊎ ((reg.len ≡ 0) × (reg'.pos ≡ 0) × ((c : ℕ) → reg'.fres c ≡ 0))

then-Since : (reg reg₁ reg₂ : BumpRegion) → Since reg reg₁ → Since reg₁ reg₂ → Since reg reg₂
then-Since reg reg₁ reg₂ (inl same) s = subst (λ r. Since r reg₂) same s
then-Since reg reg₁ reg₂ (inr (no_len, no_pos, unused)) (inl same) = inr (
  no_len,
  subst (λ (r : BumpRegion). r.pos ≡ 0) (sym same) no_pos,
  subst (λ (r : BumpRegion). (c : ℕ) → r.fres c ≡ 0) (sym same) unused,
)
then-Since reg reg₁ reg₂ (inr (no_len, no_pos, unused)) (inr (no_len', no_pos', unused')) =
    inr (no_len, no_pos', unused')

-- A new region is in order and has no block; a failure changes nothing.
abbrev NewOut : BumpRegion → BumpOut Bool → Type 0
NewOut reg (true, reg', log) = reg' ≡ reg
NewOut reg (false, reg', log) = IsBump reg' × (reg'.pos ≡ 0) × ((c : ℕ) → reg'.fres c ≡ 0)

made-NewOut :
    (hid len regpos : ℕ) (reg : BumpRegion) (user meta : Option ℕ)
    → 4096 ≤ len
    → len ≤ 2 ^ 17
    → len % 4096 ≡ 0
    → reg.pos ≡ 0
    → ((base : ℕ) → user ≡ some base → base + 2 ^ 17 < 2 ^ 64)
    → NewOut reg (bump_made hid reg len regpos false user meta)
made-NewOut hid len regpos reg none meta lo hi whole unused space = refl
made-NewOut hid len regpos reg (some base) none lo hi whole unused space = refl
made-NewOut hid len regpos reg (some base) (some org) lo hi whole unused space = (
  record {
    whole = omega arith;
    small = omega arith;
    used = omega arith;
    within = omega arith;
    aligned = omega arith;
    space = omega (arith, space base refl);
    fresh = λ c h. refl;
    states = λ c. omega arith;
    inside = λ c h. absurd (h refl);
    apart = λ c d h. absurd (h refl);
  },
  unused,
  λ c. refl,
)

newbump-NewOut :
    (hid regpos : ℕ) (reg : BumpRegion) (user meta : Option ℕ)
    → regpos < 4
    → reg.pos ≡ 0
    → ((base : ℕ) → user ≡ some base → base + 2 ^ 17 < 2 ^ 64)
    → NewOut reg (newbump hid reg 16384 regpos false user meta)
unfolding newbump
newbump-NewOut hid regpos reg user meta lt unused space =
    let (lo, hi, whole) = bump_len_lem regpos lt in
    let len = bump_len 16384 regpos in
    let some_page : ltb len 4096 ≡ false = ground arith in
    let few : ltb (2 ^ 16 - 1) (len / 16) ≡ false = ground arith in
    rw (some_page, few) (made-NewOut hid len regpos reg user meta lo hi whole unused space)

-- A region that is in order, or that has no memory yet.
abbrev pub IsSlot : BumpRegion → Type 0
IsSlot reg = ((reg.len ≡ 0) × (reg.pos ≡ 0)) ⊎ IsBump reg

-- The regions are in order or without memory, and each is as it was, or new.
abbrev pub Kept : (ℕ → BumpRegion) → (ℕ → BumpRegion) → Type 0
Kept regs regs' = (p : ℕ) → p < 4 → IsSlot (regs' p) × Since (regs p) (regs' p)

then-Kept :
    (regs regs₁ regs₂ : ℕ → BumpRegion) → Kept regs regs₁ → Kept regs₁ regs₂ → Kept regs regs₂
then-Kept regs regs₁ regs₂ k k' p lt =
    ((k' p lt).0, then-Since (regs p) (regs₁ p) (regs₂ p) (k p lt).1 (k' p lt).1)

-- After the search in `before`: the regions are kept, and the one found has room.
abbrev Picked : (ℕ → BumpRegion) → ℕ → PickOut → Type 0
Picked before len (none, regs, entered, log) = Kept before regs
Picked before len (some regpos, regs, entered, log) =
    Kept before regs
    × (regpos < 4)
    × IsBump (regs regpos)
    × ((regs regpos).pos + len ≤ (regs regpos).len)

then-Picked :
    (regs regs₁ : ℕ → BumpRegion) (len : ℕ)
    → Kept regs regs₁
    → (out : PickOut) → Picked regs₁ len out
    → Picked regs len out
then-Picked regs regs₁ len k (none, regs₂, entered, log) k' = then-Kept regs regs₁ regs₂ k k'
then-Picked regs regs₁ len k (some regpos, regs₂, entered, log) (k', lt, v, fits) =
    (then-Kept regs regs₁ regs₂ k k', lt, v, fits)

same-Kept : (regs : ℕ → BumpRegion) → ((p : ℕ) → p < 4 → IsSlot (regs p)) → Kept regs regs
same-Kept regs slots p lt = (slots p lt, inl refl)

slots_update :
    (regs : ℕ → BumpRegion) (regpos : ℕ) (made : BumpRegion)
    → ((p : ℕ) → p < 4 → IsSlot (regs p))
    → IsSlot made
    → (p : ℕ) → p < 4
    → IsSlot (update regs regpos made p)
slots_update regs regpos made slots m p lt = elim (ℕ_discrete regpos p) [
  | yes e ↦ subst (λ n. IsSlot (update regs regpos made n)) e (rw (update_self regs regpos made) m)
  | no ne ↦ rw (update_ne regs made ne) (slots p lt)
]

update-Kept :
    (regs : ℕ → BumpRegion) (regpos : ℕ) (made : BumpRegion)
    → ((p : ℕ) → p < 4 → IsSlot (regs p))
    → IsSlot made
    → Since (regs regpos) made
    → Kept regs (update regs regpos made)
update-Kept regs regpos made slots m since p lt = (
  slots_update regs regpos made slots m p lt,
  elim (ℕ_discrete regpos p) [
    | yes e ↦
        subst (λ n. Since (regs n) (update regs regpos made n)) e
          (subst (Since (regs regpos)) (sym (update_self regs regpos made)) since)
    | no ne ↦ inl (update_ne regs made ne)
  ],
)

module _ (hid : ℕ) (user meta : ℕ → Option ℕ)
    (space : (p base : ℕ) → user p ≡ some base → base + 2 ^ 17 < 2 ^ 64) (len : ℕ)
    (some_len : 0 < len) (len_le : len ≤ 2 ^ 30) where
  log-Picked :
      (before : ℕ → BumpRegion) (entered : List ℕ) (log : List BumpDiag) (out : PickOut)
      → Picked before len out
      → Picked before len (pick_log entered log out)
  log-Picked before entered log (none, regs, entered', log') p = p
  log-Picked before entered log (some regpos, regs, entered', log') p = p

  here-Picked :
      (rest : (ℕ → BumpRegion) → PickOut) (regs : ℕ → BumpRegion) (regpos : ℕ)
      → regpos < 4
      → IsBump (regs regpos)
      → ((p : ℕ) → p < 4 → IsSlot (regs p))
      → Picked regs len (rest regs)
      → Picked regs len (pick_here rest regs regpos len)
  here-Picked rest regs regpos lt v slots p =
      let sum : add4 (regs regpos).pos len ≡ (regs regpos).pos + len =
        omega (arith, v.within, v.whole, v.small) in
      elim (dec_lt (regs regpos).len ((regs regpos).pos + len)) [
        | yes over ↦
            let test : leb (add4 (regs regpos).pos len) (regs regpos).len ≡ false = ground arith in
            rw test p
        | no fits ↦
            let test : leb (add4 (regs regpos).pos len) (regs regpos).len ≡ true = ground arith in
            rw test (same-Kept regs slots, lt, v, omega arith)
      ]

  new-Picked :
      (rest : (ℕ → BumpRegion) → PickOut) (regs : ℕ → BumpRegion) (regpos : ℕ) (out : BumpOut Bool)
      → regpos < 4
      → NewOut (regs regpos) out
      → ((p : ℕ) → p < 4 → IsSlot (regs p))
      → (regs regpos).len ≡ 0
      → ((regs' : ℕ → BumpRegion)
          → ((p : ℕ) → p < 4 → IsSlot (regs' p))
          → Picked regs' len (rest regs'))
      → Picked regs len (pick_new rest regs regpos len out)
  new-Picked rest regs regpos (true, made, log) lt same slots no_len later =
      update-Kept regs regpos made slots (subst IsSlot (sym same) (slots regpos lt)) (inl same)
  new-Picked rest regs regpos (false, made, log) lt (v, no_pos, unused) slots no_len later =
      let slots' = slots_update regs regpos made slots (inr v) in
      let regs' = update regs regpos made in
      let kept = update-Kept regs regpos made slots (inr v) (inr (no_len, no_pos, unused)) in
      log-Picked regs (regpos ∷ []) log (pick_here rest regs' regpos len) (
        then-Picked regs regs' len kept (pick_here rest regs' regpos len) (
          here-Picked rest (update regs regpos made) regpos lt
            (subst IsBump (sym (update_self regs regpos made)) v) slots' (later _ slots')))

  pick-Picked :
      (left regpos : ℕ) (regs : ℕ → BumpRegion)
      → regpos + left ≡ 4
      → ((p : ℕ) → p < 4 → IsSlot (regs p))
      → Picked regs len (bump_pick hid user meta len left regpos regs)
  unfolding bump_pick
  pick-Picked zero regpos regs e slots = same-Kept regs slots
  pick-Picked (suc left) regpos regs e slots =
      let later : (regs' : ℕ → BumpRegion)
          → ((p : ℕ) → p < 4 → IsSlot (regs' p))
          → Picked regs' len (bump_pick hid user meta len left (regpos + 1) regs') =
        λ regs' slots'. pick-Picked left (regpos + 1) regs' (omega arith) slots' in
      let lt : regpos < 4 = omega arith in
      let rest : (ℕ → BumpRegion) → PickOut =
        λ regs'. bump_pick hid user meta len left (regpos + 1) regs' in
      let made = newbump hid (regs regpos) 16384 regpos false (user regpos) (meta regpos) in
      elim (slots regpos lt) [
        | inl (no_len, no_pos) ↦
            let test : ((regs regpos).len == 0) ≡ true = ground arith in
            rw test (
              new-Picked rest regs regpos made lt
                (newbump-NewOut hid regpos (regs regpos) (user regpos) (meta regpos) lt no_pos
                  (space regpos))
                slots no_len later)
        | inr v ↦
            let test : ((regs regpos).len == 0) ≡ false = ground (arith, v.whole, v.used) in
            rw test (here-Picked rest regs regpos lt v slots (later regs slots))
      ]

-- What bumpalloc() promises: a block of `len` bytes in one of the regions, which was as it is in `regs`
-- or is new, or none; all other regions are as they were or new.
abbrev pub BumpServed : (ℕ → BumpRegion) → ℕ → ℕ → PickOut → Type 0
BumpServed regs len align (none, regs', entered, log) = Kept regs regs'
BumpServed regs len align (some ip, regs', entered, log) =
    ((p : ℕ) → p < 4 → IsSlot (regs' p))
    × ((regpos : ℕ) × (before : BumpRegion) × (regpos < 4)
        × Since (regs regpos) before
        × IsBump before
        × Carved before len align ip (regs' regpos)
        × ((p : ℕ) → p < 4 → regpos ≢ p → Since (regs p) (regs' p)))

served-BumpServed :
    (before : ℕ → BumpRegion) (len k : ℕ) (is_allocal : Bool) (out : PickOut)
    → 0 < len
    → len % 16 ≡ 0
    → len ≤ 2 ^ 30
    → k < 32
    → (is_allocal ≡ false → 2 ^ k ≤ 16)
    → Picked before len out
    → BumpServed before len (2 ^ k) (bump_served len (2 ^ k) is_allocal out)
served-BumpServed before len k is_allocal (none, regs, entered, log) some_len whole le hk plain
      slots =
    slots
served-BumpServed before len k is_allocal (some regpos, regs, entered, log) some_len whole le hk
      plain (kept, lt, v, fits) =
    let slots : (p : ℕ) → p < 4 → IsSlot (regs p) = λ p h. (kept p h).0 in
    elim (bump_block-Cut (regs regpos) v len some_len whole le k is_allocal hk plain fits) [
      | inl (ip, reg', came, carved) ↦ rw came (
        slots_update regs regpos reg' slots (inr carved.valid),
        (
          regpos,
          regs regpos,
          lt,
          (kept regpos lt).1,
          v,
          subst (Carved (regs regpos) len (2 ^ k) ip) (sym (update_self regs regpos reg')) carved,
          λ p h other. subst (Since (before p)) (sym (update_ne regs reg' other)) (kept p h).1,
        ),
      )
      | inr (came, big) ↦ rw came (
          then-Kept before regs (update regs regpos (regs regpos)) kept
            (update-Kept regs regpos (regs regpos) slots (inr v) (inl refl)))
    ]

-- bumpalloc() on the four regions of a heap, each in order or without memory yet, where the memory
-- that the system answers lies below 2 ^ 64, for a length that is not 0 and at most 2 ^ 29, and an
-- alignment that is a power of two below 2 ^ 32, at most 16 but for aligned_alloc(): a block of the
-- rounded length is cut from one region, above all blocks that it had, or there is none. That
-- region was one of the four as it stood, or is new and without a block; every other region is as
-- it was, or is new and without a block where it had no memory; and all are in order or without
-- memory again.
pub bumpalloc-BumpServed :
    (hid : ℕ) (user meta : ℕ → Option ℕ) (regs : ℕ → BumpRegion) (ulen k : ℕ) (is_allocal : Bool)
    → ((p base : ℕ) → user p ≡ some base → base + 2 ^ 17 < 2 ^ 64)
    → ((p : ℕ) → p < 4 → IsSlot (regs p))
    → 0 < ulen
    → ulen ≤ 2 ^ 29
    → k < 32
    → (is_allocal ≡ false → 2 ^ k ≤ 16)
    → BumpServed regs
        (doalign4 ulen 16)
        (2 ^ k)
        (bumpalloc hid user meta regs 4 ulen (2 ^ k) is_allocal)
unfolding bumpalloc
bumpalloc-BumpServed hid user meta regs ulen k is_allocal space slots some_len le hk plain =
    let up = doalign4_sixteen ulen (omega arith) in
    let len_le : doalign4 ulen 16 ≤ 2 ^ 30 = omega (arith, up.near) in
    let len_pos : 0 < doalign4 ulen 16 = omega (arith, up.above) in
    served-BumpServed regs (doalign4 ulen 16) k is_allocal
      (bump_pick hid user meta (doalign4 ulen 16) 4 0 regs) len_pos up.multiple len_le hk plain
      (pick-Picked hid user meta space (doalign4 ulen 16) len_pos len_le 4 0 regs refl slots)
