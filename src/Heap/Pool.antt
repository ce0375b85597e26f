-- ===== src/Heap/Pool.antt =====
-- heap.h `getrbinmem`: memory for remote bins, cut from blocks that the system maps. Places and lengths
-- count in words of four bytes. What osmmap() answers is an argument: an address, or 0, by the length.
use native.Mathlib.Decide.{dec_lt}
use yalloc.Base.{
  ℕ, ◌+◌, ◌-◌, ◌*◌, ◌%◌, ◌^◌, ◌≤◌, ◌<◌, max, true, false, ltb, if◌then◌else◌, arith, ◌≡◌, ◌≢◌, ◌⊎◌,
  inl, inr, refl,
}
use yalloc.Word.{add4, doalign4}
use yalloc.Word.Align.{doalign4-IsRoundUp}

-- `struct st_heap`, the fields of the pool
pub record RbinPool : Type 0 where
  pub rbinmem : ℕ
  pub rbmempos : ℕ
  pub rbmemlen : ℕ
  pub rmeminc : ℕ
  pub rbinallocs : ℕ

-- The address, and the pool after it. The first place of the new block if the old one has no room.
unfoldable pub getrbinmem : (ℕ → ℕ) → RbinPool → ℕ → ℕ × RbinPool
getrbinmem osmmap hb ulen =
    let len = doalign4 ulen 8 in
    let inc = doalign4 (max hb.rmeminc len) 1024 in
    let mem = osmmap (inc * 4 % 2 ^ 32) in
    if ltb hb.rbmemlen (add4 hb.rbmempos len)
    then (
      mem + 0 * 4,
      record hb {
        rbinmem = mem;
        rbmemlen = inc;
        rmeminc = if ltb hb.rmeminc (2 ^ 24 - 1) then hb.rmeminc * 2 % 2 ^ 32 else hb.rmeminc;
        rbinallocs = hb.rbinallocs + 1;
        rbmempos = add4 0 len;
      },
    )
    else (hb.rbinmem + hb.rbmempos * 4, record hb { rbmempos = add4 hb.rbmempos len })

-- The pool in order. It may be empty.
pub record IsPool (hb : RbinPool) : Type 0 where
  pub within : hb.rbmempos ≤ hb.rbmemlen
  pub small : hb.rbmemlen ≤ 2 ^ 26
  pub step : hb.rmeminc ≤ 2 ^ 25
  pub mapped : hb.rbmemlen ≢ 0 → hb.rbinmem ≢ 0
  pub whole : hb.rbmempos % 8 ≡ 0

-- `ulen` words at `p`, which the pool does not hand out again.
pub record RbinBlock (osmmap : ℕ → ℕ) (hb : RbinPool) (ulen p : ℕ) (hb' : RbinPool) : Type 0 where
  pub valid : IsPool hb'
  pub not_nil : p ≢ 0
  -- behind the blocks before it, or at the start of what the system maps, all of which, and no more,
  -- the pool has
  pub place :
      ((p ≡ hb.rbinmem + hb.rbmempos * 4)
        × (hb'.rbinmem ≡ hb.rbinmem)
        × (hb'.rbmemlen ≡ hb.rbmemlen))
      ⊎ ((len : ℕ) × (p ≡ osmmap len)
          × (hb'.rbinmem ≡ p)
          × (hb'.rbmemlen * 4 ≡ len)
          × (hb.rbmemlen < hb.rbmempos + ulen + 8)
          × (hb'.rbinallocs ≡ hb.rbinallocs + 1))
  -- the pool goes on behind it, and it ends inside the memory
  pub before : p + ulen * 4 ≤ hb'.rbinmem + hb'.rbmempos * 4
  pub bounded : p + ulen * 4 ≤ hb'.rbinmem + hb'.rbmemlen * 4

-- getrbinmem() on a pool in order, for a length that is not 0 and at most 2 ^ 25 words, if the system
-- has memory, answers a block that lies behind those before it in the memory at hand, or, where that
-- has no room for it, at the start of memory that the system maps and whose bytes are those that the
-- pool counts. It ends inside the memory, and the pool, in order again, goes on behind it.
pub getrbinmem-RbinBlock :
    (osmmap : ℕ → ℕ)
    → ((len : ℕ) → osmmap len ≢ 0)
    → (hb : RbinPool) → IsPool hb
    → (ulen : ℕ) → 0 < ulen
    → ulen ≤ 2 ^ 25
    → RbinBlock osmmap hb ulen (getrbinmem osmmap hb ulen).0 (getrbinmem osmmap hb ulen).1
unfolding getrbinmem
getrbinmem-RbinBlock osmmap memory hb v ulen some_len le =
    let len = doalign4 ulen 8 in
    let inc = doalign4 (max hb.rmeminc len) 1024 in
    let up = doalign4-IsRoundUp ulen 3 (omega arith) (omega arith) in
    let up' =
      doalign4-IsRoundUp (max hb.rmeminc len) 10 (omega arith) (omega (arith, up.near, v.step)) in
    let sum : add4 hb.rbmempos len ≡ hb.rbmempos + len =
      omega (arith, v.within, v.small, up.near) in
    elim (dec_lt hb.rbmemlen (hb.rbmempos + len)) [
      | yes over ↦
          let full : ltb hb.rbmemlen (add4 hb.rbmempos len) ≡ true = ground arith in
          rw full (record {
            valid = record {
              within = omega arith;
              small = omega (arith, up'.near, up.near, v.step);
              step = ground (arith, v.step);
              mapped = λ h. memory (inc * 4 % 2 ^ 32);
              whole = omega (arith, up.multiple);
            };
            not_nil = λ e. memory (inc * 4 % 2 ^ 32) (omega arith);
            place = inr (
              inc * 4 % 2 ^ 32,
              omega arith,
              omega arith,
              omega (arith, up'.near, up.near, v.step),
              omega (arith, up.near),
              refl,
            );
            before = omega (arith, up.above);
            bounded = omega (arith, up.above, up'.above);
          })
      | no fits ↦
          let room : ltb hb.rbmemlen (add4 hb.rbmempos len) ≡ false = ground arith in
          rw room (record {
            valid = record {
              within = omega arith;
              small = v.small;
              step = v.step;
              mapped = v.mapped;
              whole = omega (arith, v.whole, up.multiple);
            };
            not_nil = λ e. v.mapped (omega (arith, up.above)) (omega arith);
            place = inl (refl, refl, refl);
            before = omega (arith, up.above);
            bounded = omega (arith, up.above);
          })
    ]
