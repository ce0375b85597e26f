-- ===== src/Boot/Laws.antt =====
-- boot.h `bootalloc`: the blocks follow each other.
use native.Mathlib.Decide.{dec_lt}
use yalloc.Base.{
  ℕ, ◌+◌, ◌-◌, ◌%◌, ◌≤◌, ◌<◌, ◌≡◌, ◌≢◌, ◌⊎◌, inl, inr, refl, true, false, [], ◌∷◌, leb, ◌==◌,
  if◌then◌else◌, arith,
}
use yalloc.Word.{doalign4}
use yalloc.Word.Align.{doalign4_sixteen}
use yalloc.Boot.{boot_size, BootMem, out_of_memory, bootalloc, boot_cut}

-- The block at hand.
abbrev pub boot_base : BootMem → ℕ
boot_base bootp = if bootp.mem == 0 then bootp.inimem else bootp.mem

-- The pool in order: unlocked, with its next block inside the memory at hand.
pub record IsBoot (bootp : BootMem) : Type 0 where
  pub based : boot_base bootp ≢ 0
  pub unlocked : bootp.lock ≡ 0
  pub within : bootp.pos ≤ boot_size
  pub whole : bootp.pos % 16 ≡ 0

-- A block of at least `ulen` bytes at `p`, which the pool does not hand out again.
pub record BootBlock (osmmap : ℕ → ℕ) (bootp : BootMem) (ulen p : ℕ) (bootp' : BootMem)
    : Type 0 where
  pub valid : IsBoot bootp'
  -- behind the blocks before it, or, if the memory at hand is used up, at the start of what the system
  -- maps
  pub place :
      ((p ≡ boot_base bootp + bootp.pos) × (boot_base bootp' ≡ boot_base bootp))
      ⊎ ((p ≡ osmmap boot_size)
          × (boot_base bootp' ≡ osmmap boot_size)
          × (boot_size < bootp.pos + ulen + 16))
  -- the pool goes on behind it
  pub before : p + ulen ≤ boot_base bootp' + bootp'.pos
  pub bounded : p + ulen ≤ boot_base bootp' + boot_size

module _ (osmmap : ℕ → ℕ) (bootp : BootMem) (v : IsBoot bootp) (ulen len : ℕ) (le : ulen ≤ len)
    (near : len < ulen + 16) (lt : len < boot_size) (whole : len % 16 ≡ 0) where
  abbrev counted : BootMem
  counted = record bootp { allocs = bootp.allocs + 1 }

  cut :
      ((p : ℕ) × (bootp' : BootMem) × (boot_cut osmmap counted len ≡ (p, bootp', []))
        × BootBlock osmmap bootp ulen p bootp')
      ⊎ ((bootp' : BootMem) × (boot_cut osmmap counted len ≡ (0, bootp', out_of_memory ∷ []))
          × IsBoot bootp'
          × (osmmap boot_size ≡ 0))
  cut = elim (dec_lt boot_size (bootp.pos + len)) [
    | no fits ↦
        let test : leb (bootp.pos + len) boot_size ≡ true = ground arith in
        let again : (if boot_base bootp == 0 then bootp.inimem else boot_base bootp)
            ≡ boot_base bootp =
          ground (arith, v.based) in
        inl (
          boot_base bootp + bootp.pos,
          record counted { mem = boot_base bootp; pos = bootp.pos + len; lock = 0 },
          rw test refl,
          record {
            valid = record {
              based = rw again v.based;
              unlocked = refl;
              within = omega arith;
              whole = omega (arith, v.whole);
            };
            place = inl (refl, again);
            before = rw again (omega arith);
            bounded = rw again (omega arith);
          },
        )
    | yes over ↦
        let test : leb (bootp.pos + len) boot_size ≡ false = ground arith in
        elim (dec_lt 0 (osmmap boot_size)) [
          | yes mapped ↦
              let some_mem : (osmmap boot_size == 0) ≡ false = ground arith in
              let again : (if osmmap boot_size == 0 then bootp.inimem else osmmap boot_size)
                  ≡ osmmap boot_size =
                ground arith in
              inl (
                osmmap boot_size,
                record counted {
                  mem = osmmap boot_size;
                  pos = len;
                  lock = 0;
                  mmaps = bootp.mmaps + 1;
                },
                rw (test, some_mem) refl,
                record {
                  valid = record {
                    based = rw again (omega arith);
                    unlocked = refl;
                    within = omega arith;
                    whole = whole;
                  };
                  place = inr (refl, again, omega (arith, near));
                  before = rw again (omega arith);
                  bounded = rw again (omega arith);
                },
              )
          | no nothing ↦
              let no_mem : (osmmap boot_size == 0) ≡ true = ground arith in
              let again : (if boot_base bootp == 0 then bootp.inimem else boot_base bootp)
                  ≡ boot_base bootp =
                ground (arith, v.based) in
              inr (
                record counted { mem = boot_base bootp; lock = 0; mmaps = bootp.mmaps + 1 },
                rw (test, no_mem) refl,
                record {
                  based = rw again v.based;
                  unlocked = refl;
                  within = v.within;
                  whole = v.whole;
                },
                omega arith,
              )
        ]
  ]

-- A request for at least one and fewer than 4048 bytes to the pool, unlocked and in order, gets a
-- block behind those before it, in the memory at hand, or, where that has no room for it, at the
-- start of a block of memory that the system maps, and the pool goes on behind it; or, if the
-- system has no memory, it gets nothing but a report. In both cases the pool is unlocked and in
-- order again.
pub bootalloc-BootBlock :
    (osmmap : ℕ → ℕ) (bootp : BootMem) (ulen : ℕ)
    → IsBoot bootp
    → 0 < ulen
    → ulen < boot_size - 16
    → ((p : ℕ) × (bootp' : BootMem) × (bootalloc osmmap bootp ulen ≡ (p, bootp', []))
        × BootBlock osmmap bootp ulen p bootp')
      ⊎ ((bootp' : BootMem) × (bootalloc osmmap bootp ulen ≡ (0, bootp', out_of_memory ∷ []))
          × IsBoot bootp'
          × (osmmap boot_size ≡ 0))
unfolding bootalloc
bootalloc-BootBlock osmmap bootp ulen v pos lt =
    let up = doalign4_sixteen ulen (omega arith) in
    let some_test : (ulen == 0) ≡ false = ground arith in
    let small : leb boot_size (doalign4 ulen 16) ≡ false = ground (arith, up.near) in
    let open_test : (bootp.lock == 0) ≡ true = ground (arith, v.unlocked) in
    rw (some_test, small, open_test)
      (cut osmmap bootp v ulen (doalign4 ulen 16) up.above up.near (omega (arith, up.near))
        up.multiple)
