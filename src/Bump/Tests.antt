-- ===== src/Bump/Tests.antt =====
-- Runs of the bump allocator.
use mathlib.Core.Option.{some-injective}
use yalloc.Base.{
  ℕ, zero, suc, ◌^◌, ◌<◌, ◌%◌, ◌≡◌, ◌⊎◌, inl, inr, refl, true, false, none, some, [], ◌∷◌, ◌==◌,
  if◌then◌else◌, update, arith,
}
use yalloc.Word.{doalign4}
use yalloc.Bump.Region.{BumpRegion, already_freed, bad_status}
use yalloc.Bump.Alloc.{bump_block, bumpalloc}
use yalloc.Bump.Free.{to_free, bump_free}
use yalloc.Bump.Valid.{next_cel, IsBump}
use yalloc.Bump.Laws.{Carved}
use yalloc.Bump.Aligned.{bump_block-Carved}
use yalloc.Bump.Cycle.{bump_free-Carved}
use yalloc.Bump.Pick.{IsSlot, BumpServed, bumpalloc-BumpServed}
use yalloc.Bump.Release.{bump_free_lem, freed}

-- One block of 32 bytes at the start.
abbrev one_block : BumpRegion
one_block = record {
  user = 65536;
  len = 4096;
  hid = 1;
  id = 1;
  uid = 4294967297;
  pos = 32;
  cnt = 256;
  freorg = 128;
  allocs = 1;
  frees = 0;
  is_mini = false;
  lens = λ c. if c == 0 then 2 else 0;
  fres = λ c. if c == 0 then 1 else 0;
}

one_block-IsBump : IsBump one_block
one_block-IsBump = record {
  whole = refl;
  small = omega arith;
  used = omega arith;
  within = omega arith;
  aligned = refl;
  space = omega arith;
  fresh = λ c h. ground arith;
  states = λ c. ground arith;
  inside = λ c h. ground arith;
  apart = λ c d hc hd lt. ground arith;
}

bump_block-Carved_example :
    ((ip : ℕ) × (reg' : BumpRegion) × (bump_block one_block 48 64 true ≡ (some ip, reg', []))
      × Carved one_block 48 64 ip reg'
      × (ip % 64 ≡ 0))
    ⊎ ((bump_block one_block 48 64 true ≡ (none, one_block, [])) × (16 < 64))
bump_block-Carved_example =
    bump_block-Carved one_block one_block-IsBump 48 (omega arith) refl (omega arith) refl 6 true
      (omega arith) (λ e. ground (arith, e)) (omega arith)

bump_free_lem_example :
    ((bump_free one_block 65536 to_free ≡ (32, freed one_block 0, []))
      × (one_block.fres 0 ≡ 1)
      × IsBump (freed one_block 0))
    ⊎ ((bump_free one_block 65536 to_free ≡ (0, one_block, already_freed 0 ∷ []))
        × (one_block.fres 0 ≡ 2))
    ⊎ ((bump_free one_block 65536 to_free ≡ (0, one_block, bad_status 0 0 ∷ []))
        × (one_block.fres 0 ≡ 0))
bump_free_lem_example = bump_free_lem one_block one_block-IsBump 0 (omega arith)

-- A region without memory.
abbrev no_block : BumpRegion
no_block = record one_block { len = 0; pos = 0; fres = λ c. 0; lens = λ c. 0; allocs = 0 }

-- The first region has a block, the others have no memory yet.
abbrev four : ℕ → BumpRegion
four zero = one_block
four (suc p) = no_block

abbrev slot : (p : ℕ) → IsSlot (four p)
slot zero = inr one_block-IsBump
slot (suc p) = inl (refl, refl)

bumpalloc-BumpServed_example :
    BumpServed four
      (doalign4 5000 16)
      (2 ^ 4)
      (bumpalloc 1 (λ p. some 65536) (λ p. some 128) four 4 5000 (2 ^ 4) false)
bumpalloc-BumpServed_example =
    bumpalloc-BumpServed 1 (λ p. some 65536) (λ p. some 128) four 5000 4 false
      (λ p base e. omega (arith, some-injective 65536 base e)) (λ p lt. slot p) (omega arith)
      (omega arith) (omega arith) (λ e. omega arith)

-- A block of 48 bytes more.
abbrev two_blocks : BumpRegion
two_blocks = record one_block {
  pos = 80;
  allocs = 2;
  lens = update one_block.lens 2 3;
  fres = update one_block.fres 2 1;
}

two_blocks-Carved : Carved one_block 48 16 65568 two_blocks
two_blocks-Carved = record {
  valid = record {
    whole = refl;
    small = omega arith;
    used = omega arith;
    within = omega arith;
    aligned = refl;
    space = omega arith;
    fresh = λ c h. ground arith;
    states = λ c. ground arith;
    inside = λ c h. ground arith;
    apart = λ c d hc hd lt. ground arith;
  };
  at_user = refl;
  same_len = refl;
  above = omega arith;
  below = refl;
  bounded = omega arith;
  at_align = refl;
  in_use = refl;
  size = refl;
  others = λ c h. ground arith;
}

bump_free-Carved_example :
    (cel : ℕ) × (reg'' : BumpRegion) × (bump_free two_blocks 65568 to_free ≡ (48, reg'', []))
    × IsBump reg''
    × (bump_free reg'' 65568 to_free ≡ (0, reg'', already_freed cel ∷ []))
    × ((c : ℕ)
        → c < next_cel one_block
        → (reg''.fres c ≡ one_block.fres c) × (reg''.lens c ≡ one_block.lens c))
bump_free-Carved_example =
    bump_free-Carved one_block 48 16 65568 two_blocks (omega arith) refl two_blocks-Carved
