-- ===== src/Slab/Malloc.antt =====
-- slab.h `slab_malloc`: the block that a request gets.
use native.Mathlib.Decide.{dec_lt}
use yalloc.Base.{
  ℕ, ◌+◌, ◌*◌, ◌≤◌, ◌<◌, ◌≡◌, ◌≢◌, refl, true, false, Option, none, some, [], ltb, ◌==◌,
  if◌then◌else◌, arith, ap, ◌⊎◌, inl, inr, update,
}
use yalloc.Slab.Region.{Region, Out}
use yalloc.Slab.Cells.{slab_newcel}
use yalloc.Slab.Blocks.{slab_malloc, store_len}
use yalloc.Slab.Valid.{live, IsValid, IsRemoteBin}
use yalloc.Slab.New.{Alloced, IsFull, Outcome, newcel-Outcome}
use yalloc.Slab.Address.{cel_ip}

-- A new block of `ulen` bytes at `p`: a cell of the region that was not in use.
pub record NewBlock (reg : Region) (ulen p : ℕ) (reg' : Region) : Type 0 where
  pub cel : ℕ
  pub at_cel : p ≡ cel_ip reg cel
  -- inside the region
  pub above : reg.user ≤ p
  pub bounded : p + ulen ≤ reg.user + reg.celcnt * reg.cellen
  -- it shares no byte with a block that is in use
  pub apart :
      (c : ℕ) → live reg c ≡ true → (p + ulen ≤ cel_ip reg c) ⊎ (cel_ip reg c + reg.cellen ≤ p)
  pub valid : IsValid reg'
  pub marks : (c : ℕ) → live reg' c ≡ (if cel == c then true else live reg c)

-- A block, or a full region, and no report in either case.
abbrev pub Served : Region → ℕ → Out (Option ℕ) → Type 0
Served reg ulen (some p, reg', log) = NewBlock reg ulen p reg' × (log ≡ [])
Served reg ulen (none, reg', log) = IsFull reg × (log ≡ [])

-- Validity does not depend on the stored lengths, nor on the age.
pub with_lens : (reg : Region) (lens : ℕ → ℕ) → IsValid reg → IsValid (record reg { lens = lens })
with_lens reg lens v = record {
  small = v.small;
  inipos_le = v.inipos_le;
  fresh = v.fresh;
  begun = v.begun;
  bin_list = v.bin_list;
  bin_count = v.bin_count;
  remote_list = remote reg.rembin v.remote_list;
  remote_count = v.remote_count;
  referred = v.referred;
  room = v.room;
}
  where
    remote : (o : Option (ℕ → ℕ)) → IsRemoteBin reg o → IsRemoteBin (record reg { lens = lens }) o
    remote none h = h
    remote (some rbin) h = h

pub with_age : (reg : Region) (age : ℕ) → IsValid reg → IsValid (record reg { age = age })
with_age reg age v = record {
  small = v.small;
  inipos_le = v.inipos_le;
  fresh = v.fresh;
  begun = v.begun;
  bin_list = v.bin_list;
  bin_count = v.bin_count;
  remote_list = remote reg.rembin v.remote_list;
  remote_count = v.remote_count;
  referred = v.referred;
  room = v.room;
}
  where
    remote : (o : Option (ℕ → ℕ)) → IsRemoteBin reg o → IsRemoteBin (record reg { age = age }) o
    remote none h = h
    remote (some rbin) h = h

pub store_len-IsValid :
    (reg : Region) (cel ulen : ℕ) → IsValid reg → IsValid (store_len reg cel ulen)
store_len-IsValid reg cel ulen v = elim (dec_lt 1023 reg.cellen) [
  | yes large ↦
      let e : ltb 1023 reg.cellen ≡ true = ground arith in
      rw e (with_lens reg (update reg.lens cel ulen) v)
  | no small ↦ let e : ltb 1023 reg.cellen ≡ false = ground arith in rw e v
]

-- Two cells are the same or lie apart.
cells_apart : (a b len : ℕ) → a ≢ b → (a * len + len ≤ b * len) ⊎ (b * len + len ≤ a * len)
cells_apart a b len ne = elim (dec_lt a b) [
  | yes lt ↦ inl (grind arith)
  | no ge ↦ inr (grind arith)
]

module _ (reg : Region) (ulen : ℕ) (some_len : 0 < ulen) (le : ulen ≤ reg.cellen) where
  found-NewBlock :
      (cel : ℕ) (reg₁ : Region)
      → Alloced (record reg { age = 0 }) cel reg₁
      → NewBlock reg ulen (reg₁.user + cel * reg₁.cellen) (store_len reg₁ cel ulen)
  found-NewBlock cel reg₁ a =
      let place : reg₁.user + cel * reg₁.cellen ≡ cel_ip reg cel =
        rw (a.shape.user, a.shape.cellen) refl in
      let inside : cel * reg.cellen + reg.cellen ≤ reg.celcnt * reg.cellen =
        grind (arith, a.inside) in
      rw place (record {
        cel = cel;
        at_cel = refl;
        above = omega arith;
        bounded = omega arith;
        apart = λ c h.
            ground
              (arith, cells_apart cel c reg.cellen (λ e. ground (arith, a.free, ap (live reg) e)));
        valid = store_len-IsValid reg₁ cel ulen a.valid;
        marks = λ c. ground (arith, a.marks c);
      })

  go :
      (out : Out (Option ℕ))
      → Outcome (record reg { age = 0 }) out
      → Served reg ulen (elim (out.0) [
        | none ↦ (none, out.1, out.2)
        | some cel ↦ (some (out.1.user + cel * out.1.cellen), store_len out.1 cel ulen, out.2)
      ])
  go (none, reg₁, log) (full, same, quiet) =
      (record { bin = full.bin; ini = full.ini; remote = full.remote }, quiet)
  go (some cel, reg₁, log) (a, quiet) = (found-NewBlock cel reg₁ a, quiet)

  -- slab_malloc() of a length that fits a cell, on a region in order that is in use, gives a block
  -- inside the region that shares no byte with a block in use, and leaves the region in order with
  -- that block, and no other, added to those in use; or the region is full. It reports nothing.
  pub slab_malloc-Served : reg.aged ≡ 0 → IsValid reg → Served reg ulen (slab_malloc reg ulen)
  unfolding slab_malloc
  slab_malloc-Served young v =
      let some_test : (ulen == 0) ≡ false = ground arith in
      let le_test : ltb reg.cellen ulen ≡ false = ground arith in
      let young_test : (reg.aged == 0) ≡ true = ground arith in
      rw (some_test, le_test, young_test)
        (go (slab_newcel (record reg { age = 0 }))
          (newcel-Outcome (record reg { age = 0 }) (with_age reg 0 v)))
