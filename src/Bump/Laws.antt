-- ===== src/Bump/Laws.antt =====
-- bump.h `bumpalloc`: blocks do not overlap.
use native.Mathlib.Decide.{dec_lt}
use yalloc.Base.{
  ℕ, ◌+◌, ◌-◌, ◌*◌, ◌/◌, ◌%◌, ◌^◌, ◌≤◌, ◌<◌, bit_and, Bool, true, false, ◌&&◌, Option, none, some,
  [], ltb, ◌==◌, update, arith, ◌≡◌, refl, ◌⊎◌, inl, inr, ◌∙◌, subst, sym,
}
use yalloc.Word.{add4, sub4}
use yalloc.Word.Masks.{bit_and_low}
use yalloc.Word.Powers.{pow_pos, pow_le, mod_sixteen, mod_small}
use yalloc.Word.Align.{doalign4-IsRoundUp}
use yalloc.Bump.Region.{stdalign, BumpRegion, BumpOut}
use yalloc.Bump.Alloc.{bump_pos, bump_take, bump_at, bump_block}
use yalloc.Bump.Valid.{next_cel, IsBump}

-- A block of `len` bytes at `ip` was cut from a region.
pub record Carved (reg : BumpRegion) (len align ip : ℕ) (reg' : BumpRegion) : Type 0 where
  pub valid : IsBump reg'
  -- of the same place
  pub at_user : reg'.user ≡ reg.user
  pub same_len : reg'.len ≡ reg.len
  -- it lies in the region, above every block before it, and the region goes on above it
  pub above : reg.user + reg.pos ≤ ip
  pub below : ip + len ≡ reg.user + reg'.pos
  pub bounded : ip + len ≤ reg.user + reg.len
  -- an offset in the region
  pub at_align : (ip - reg.user) % align ≡ 0
  -- it is in use with its length, and the blocks before it are as they were
  pub in_use : reg'.fres ((ip - reg.user) / 16) ≡ 1
  pub size : reg'.lens ((ip - reg.user) / 16) * 16 ≡ len
  pub others : (c : ℕ) → c < next_cel reg → (reg'.fres c ≡ reg.fres c) × (reg'.lens c ≡ reg.lens c)

module _ (reg : BumpRegion) (v : IsBump reg) (len : ℕ) (pos_len : 0 < len) (len16 : len % 16 ≡ 0)
    (len_le : len ≤ 2 ^ 30) where
  take-Carved :
      (pos align : ℕ)
      → reg.pos ≤ pos
      → pos % 16 ≡ 0
      → pos % align ≡ 0
      → pos + len ≤ reg.len
      → (ip : ℕ) × (reg' : BumpRegion) × (bump_take reg pos len ≡ (some ip, reg', []))
        × Carved reg len align ip reg'
  take-Carved pos align above at16 at_align fits =
      let nothing : reg.fres (pos / 16) ≡ 0 = v.fresh (pos / 16) (omega arith) in
      let cells : len / 16 % 2 ^ 16 ≡ len / 16 = omega (arith, v.whole, v.small) in
      let sum : (pos + len) % 2 ^ 32 ≡ pos + len = omega (arith, v.whole, v.small) in
      let reg' = record reg {
        pos = (pos + len) % 2 ^ 32;
        fres = update reg.fres (pos / 16) 1;
        lens = update reg.lens (pos / 16) (len / 16 % 2 ^ 16);
        allocs = reg.allocs + 1;
      } in
      let free : (reg.fres (pos / 16) == 0) ≡ true = ground arith in
      (
        reg.user + pos,
        reg',
        rw free refl,
        record {
          valid = record {
            whole = v.whole;
            small = v.small;
            used = v.used;
            within = omega arith;
            aligned = omega arith;
            space = v.space;
            fresh = λ c h. ground (arith, v.fresh c);
            states = λ c. ground (arith, v.states c);
            inside = λ c h. ground (arith, v.inside c);
            apart = λ c d hc hd lt. ground (arith, v.inside c, v.inside d, v.apart c d);
          };
          at_user = refl;
          same_len = refl;
          above = omega arith;
          below = omega arith;
          bounded = omega arith;
          at_align = let back : reg.user + pos - reg.user ≡ pos = omega arith in rw back at_align;
          in_use = ground arith;
          size = ground arith;
          others = λ c h. ground arith;
        },
      )

  pos_plain :
      (k : ℕ) (is_allocal : Bool)
      → (is_allocal && ltb stdalign (2 ^ k)) ≡ false
      → bump_pos reg len (2 ^ k) is_allocal ≡ some reg.pos
  pos_plain k is_allocal e = rw e refl

  pos_aligned :
      (k : ℕ)
      → 16 < 2 ^ k
      → k < 32
      → (pos : ℕ) → bump_pos reg len (2 ^ k) true ≡ some pos
      → (reg.pos ≤ pos) × (pos % 2 ^ k ≡ 0) × (pos + len ≤ reg.len)
  pos_aligned k big hk pos e = elim (dec_lt 4096 (2 ^ k)) [
    | yes huge ↦ absurd (ground (arith, e, huge))
    | no small ↦
        let up = doalign4-IsRoundUp reg.pos k hk (omega (arith, v.within, v.whole, v.small)) in
        ground (arith, e, up.multiple, up.above, up.near, v.within, v.whole, v.small)
  ]

  -- The request was met.
  abbrev pub Cut : ℕ → BumpOut (Option ℕ) → Type 0
  Cut align out =
      (ip : ℕ) × (reg' : BumpRegion) × (out ≡ (some ip, reg', [])) × Carved reg len align ip reg'

  at-Cut :
      (k pos : ℕ)
      → reg.pos ≤ pos
      → pos % 16 ≡ 0
      → pos % 2 ^ k ≡ 0
      → k < 32
      → pos + len ≤ reg.len
      → Cut (2 ^ k) (bump_at reg len (2 ^ k) (some pos))
  at-Cut k pos above at16 at_align hk fits =
      let one = pow_pos k in
      let le = pow_le k 31 (omega arith) in
      let mask : sub4 (2 ^ k) 1 ≡ 2 ^ k - 1 = omega arith in
      let low : bit_and pos (2 ^ k - 1) ≡ 0 = bit_and_low k pos ∙ at_align in
      let test : (bit_and pos (sub4 (2 ^ k) 1) == 0) ≡ true = rw (mask, low) refl in
      let room : ltb reg.len (add4 pos len) ≡ false = ground (arith, v.whole, v.small) in
      let (ip, reg', came, carved) = take-Carved pos (2 ^ k) above at16 at_align fits in
      (ip, reg', rw (test, room) came, carved)

  aligned-Cut :
      (k : ℕ)
      → 16 < 2 ^ k
      → k < 32
      → Cut (2 ^ k) (bump_block reg len (2 ^ k) true)
        ⊎ (bump_block reg len (2 ^ k) true ≡ (none, reg, []))
  unfolding bump_block
  aligned-Cut k big hk = go (bump_pos reg len (2 ^ k) true) refl
    where
      four : 4 ≤ k
      four = elim (dec_lt k 4) [
        | yes lt ↦ absurd (omega (arith, pow_le k 4 (omega arith)))
        | no ge ↦ omega arith
      ]

      go :
          (o : Option ℕ)
          → bump_pos reg len (2 ^ k) true ≡ o
          → Cut (2 ^ k) (bump_at reg len (2 ^ k) o) ⊎ (bump_at reg len (2 ^ k) o ≡ (none, reg, []))
      go none e = inr refl
      go (some pos) e =
          let (above, at_align, fits) = pos_aligned k big hk pos e in
          inl (at-Cut k pos above (mod_sixteen k pos four at_align) at_align hk fits)

  -- A plain request is refused only if the block does not fit.
  plain-Cut :
      (k : ℕ) (is_allocal : Bool)
      → 2 ^ k ≤ 16
      → reg.pos + len ≤ reg.len
      → Cut (2 ^ k) (bump_block reg len (2 ^ k) is_allocal)
  unfolding bump_block
  plain-Cut k is_allocal small fits =
      subst (λ o. Cut (2 ^ k) (bump_at reg len (2 ^ k) o))
        (sym (pos_plain k is_allocal (ground arith)))
        (at-Cut k reg.pos (omega arith) v.aligned (mod_small k reg.pos small v.aligned) low fits)
    where
      low : k < 32
      low = elim (dec_lt k 32) [
        | yes lt ↦ lt
        | no ge ↦ absurd (omega (arith, pow_le 5 k (omega arith)))
      ]

  -- A block is cut, at an offset that is aligned, or the alignment is above 16 and nothing changes.
  pub bump_block-Cut :
      (k : ℕ) (is_allocal : Bool)
      → k < 32
      → (is_allocal ≡ false → 2 ^ k ≤ 16)
      → reg.pos + len ≤ reg.len
      → Cut (2 ^ k) (bump_block reg len (2 ^ k) is_allocal)
        ⊎ ((bump_block reg len (2 ^ k) is_allocal ≡ (none, reg, [])) × (16 < 2 ^ k))
  bump_block-Cut k false hk plain fits = inl (plain-Cut k false (plain refl) fits)
  bump_block-Cut k true hk plain fits = elim (dec_lt 16 (2 ^ k)) [
    | no small ↦ inl (plain-Cut k true (omega arith) fits)
    | yes big ↦ elim (aligned-Cut k big hk) [ inl cut ↦ inl cut | inr refused ↦ inr (refused, big) ]
  ]
