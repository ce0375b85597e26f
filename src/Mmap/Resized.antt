-- ===== src/Mmap/Resized.antt =====
-- realloc.h `real_mmap`: the block stays apart from the others.
use native.Mathlib.Decide.{dec_lt}
use yalloc.Base.{
  ℕ, ◌+◌, ◌/◌, ◌%◌, ◌^◌, ◌≤◌, ◌<◌, Option, none, some, List, refl, true, not, ◌==◌, arith, ◌≡◌, ◌≢◌,
  inl, inr, Bool-cases, update, update_self, update_ne, sym, subst, ap, ◌∙◌,
}
use yalloc.Word.Align.{doalign8-IsRoundUp}
use yalloc.Directory.Tree.{Dirs}
use yalloc.Directory.Find.{find_reg}
use yalloc.Mmap.State.{MpRegion, MpHeap, Sys, MpOut, mp_id, put_reg}
use yalloc.Mmap.Resize.{resized_len, aligned_placed, plain_placed, real_mmap}
use yalloc.Mmap.Valid.{Apart, IsBlock, IsBlocks, IsOrdered, put-IsMp, off_lem, in_use_age}
use yalloc.Mmap.Memory.{same-IsBlocks, put-IsBlocks}
use yalloc.Mmap.Entered.{page-find_reg}

-- What osmremap() answers, if it succeeds: a block of whole pages that no other region has.
abbrev pub IsMoved : (ℕ → MpRegion) → ℕ → ℕ → Option ℕ → Type 0
IsMoved regs reg len none = ◌≡◌ {A = ℕ} 0 0
IsMoved regs reg len (some p) =
    IsBlock p len × ((q : ℕ) → reg ≢ q → (regs q).len ≢ 0 → Apart p len (regs q).user (regs q).len)

-- The region is in use, and the others are as before.
pub record Kept (hb : MpHeap) (reg : ℕ) (hb' : MpHeap) (lists : ℕ → List ℕ) (zeros : List ℕ)
    : Type 0 where
  pub ordered : IsOrdered hb' lists zeros
  pub used : (hb'.regs reg).set ≡ 1
  pub others : (q : ℕ) → reg ≢ q → hb'.regs q ≡ hb.regs q

-- The block has the new length behind its alignment, and `ip` leads to it.
pub record Resized (hb' : MpHeap) (reg ip align newlen newulen : ℕ) : Type 0 where
  pub room : newlen + align ≤ (hb'.regs reg).len
  pub of_ulen : (hb'.regs reg).ulen ≡ newulen
  pub found : find_reg hb'.dirs ip ≡ some (mp_id reg)

abbrev pub ResizedOut : MpHeap → ℕ → ℕ → ℕ → (ℕ → List ℕ) → List ℕ → MpOut (Option ℕ) → Type 0
ResizedOut hb reg newlen newulen lists zeros (none, hb', log) = Kept hb reg hb' lists zeros
ResizedOut hb reg newlen newulen lists zeros (some ip, hb', log) =
    Kept hb reg hb' lists zeros × Resized hb' reg ip (hb.regs reg).align newlen newulen

module _ (sys : Sys) (memory : (n : ℕ) → sys.osmem n ≢ none) (hb : MpHeap) (reg : ℕ)
    (lists : ℕ → List ℕ) (zeros : List ℕ) (v : IsOrdered hb lists zeros)
    (used : (hb.regs reg).set ≡ 1) where
  -- A region in use is written, and the directory.
  put-Kept :
      (dirs : Dirs) (r : MpRegion)
      → r.set ≡ 1
      → r.aged ≡ (hb.regs reg).aged
      → r.age ≡ (hb.regs reg).age
      → IsBlocks (update hb.regs reg r)
      → Kept hb reg (put_reg (record hb { dirs = dirs }) reg r) lists zeros
  put-Kept dirs r still aged age blocks =
      let lt : reg < hb.stat.newmpregions = elim (dec_lt reg hb.stat.newmpregions) [
        | yes h ↦ h
        | no ge ↦ absurd (omega (arith, (v.unmade reg (omega arith)).unset, used))
      ] in
      record {
        ordered =
            put-IsMp v reg r (off_lem v reg (v.in_use reg used)) lt (λ q ne e. cc)
              (inl (aged ∙ v.in_use reg used))
              (λ begun. absurd (begun (age ∙ in_use_age v reg used))) blocks;
        used = ap (λ (x : MpRegion). x.set) (update_self hb.regs reg r) ∙ still;
        others = λ q ne. update_ne hb.regs r ne;
      }

  moved-IsBlocks :
      (r : MpRegion)
      → IsBlock r.user r.len
      → ((q : ℕ)
          → reg ≢ q
          → (hb.regs q).len ≢ 0
          → Apart r.user r.len (hb.regs q).user (hb.regs q).len)
      → IsBlocks (update hb.regs reg r)
  moved-IsBlocks r block apart =
      put-IsBlocks hb.regs v.blocks reg r (λ h. block) (λ q ne h. apart q ne)

  plain_placed-ResizedOut :
      (want newlen newulen : ℕ) (o : Option ℕ)
      → IsMoved hb.regs reg newlen o
      → (hb.regs reg).align ≡ 0
      → 0 < newlen
      → want ≤ newlen
      → find_reg hb.dirs (hb.regs reg).user ≡ some (mp_id reg)
      → ResizedOut hb reg want newulen lists zeros (plain_placed sys hb reg newlen newulen o)
  plain_placed-ResizedOut want newlen newulen none moved plain pos le found = record {
    ordered = v;
    used = used;
    others = λ q ne. refl;
  }
  plain_placed-ResizedOut want newlen newulen (some nip) (block, apart) plain pos le found =
      let r = hb.regs reg in
      let r₁ : MpRegion = record r { len = newlen; ulen = newulen } in
      let r₂ : MpRegion = record r { len = newlen; ulen = newulen; user = nip } in
      let at₁ = update_self hb.regs reg r₁ in
      let at₂ = update_self hb.regs reg r₂ in
      let page : (nip % 2 ^ 12 == 0) ≡ true = ground (arith, block.aligned) in
      let room : want + r.align ≤ newlen = omega (arith, plain, le) in
      elim (Bool-cases (nip == r.user)) [
        | inl here ↦
            let e : nip ≡ r.user = ground (arith, here) in
            rw here (
              put-Kept hb.dirs r₁ used refl refl (
                  moved-IsBlocks r₁ (subst (λ p. IsBlock p newlen) e block) (
                    subst
                      (λ p.
                        (q : ℕ)
                        → reg ≢ q
                        → (hb.regs q).len ≢ 0
                        → Apart p newlen (hb.regs q).user (hb.regs q).len)
                      e apart)),
              record {
                room = subst (λ (x : MpRegion). want + r.align ≤ x.len) (sym at₁) room;
                of_ulen = ap (λ (x : MpRegion). x.ulen) at₁;
                found = found;
              },
            )
        | inr away ↦
            rw (away, page)
              (
                put-Kept _ r₂ used refl refl (moved-IsBlocks r₂ block apart),
                record {
                  room = subst (λ (x : MpRegion). want + r.align ≤ x.len) (sym at₂) room;
                  of_ulen = ap (λ (x : MpRegion). x.ulen) at₂;
                  found =
                      page-find_reg sys.osmem memory _ (mp_id reg) nip newlen block (omega arith)
                        true;
                },
              )
      ]

  aligned_placed-ResizedOut :
      (want newlen newulen : ℕ) (o : Option ℕ)
      → IsMoved hb.regs reg (newlen + (hb.regs reg).align) o
      → (hb.regs reg).align % 2 ^ 12 ≡ 0
      → 0 < newlen
      → want ≤ newlen
      → find_reg hb.dirs (hb.regs reg).user ≡ some (mp_id reg)
      → ResizedOut hb reg want newulen lists zeros (aligned_placed sys hb reg newlen newulen o)
  aligned_placed-ResizedOut want newlen newulen none moved whole pos le found = record {
    ordered = v;
    used = used;
    others = λ q ne. refl;
  }
  aligned_placed-ResizedOut want newlen newulen (some nip) (block, apart) whole pos le found =
      let r = hb.regs reg in
      let len = newlen + r.align in
      let r₁ : MpRegion = record r { len = len; ulen = newulen } in
      let r₂ : MpRegion = record r { len = len; ulen = newulen; user = nip } in
      let at₁ = update_self hb.regs reg r₁ in
      let at₂ = update_self hb.regs reg r₂ in
      let page : (nip % 2 ^ 12 == 0) ≡ true = ground (arith, block.aligned) in
      let room : want + r.align ≤ len = omega (arith, le) in
      elim (Bool-cases (nip == r.user)) [
        | inl here ↦
            let e : nip ≡ r.user = ground (arith, here) in
            rw (page, here)
              (
                put-Kept hb.dirs r₁ used refl refl (
                    moved-IsBlocks r₁ (subst (λ p. IsBlock p len) e block) (
                      subst
                        (λ p.
                          (q : ℕ)
                          → reg ≢ q
                          → (hb.regs q).len ≢ 0
                          → Apart p len (hb.regs q).user (hb.regs q).len)
                        e apart)),
                record {
                  room = subst (λ (x : MpRegion). want + r.align ≤ x.len) (sym at₁) room;
                  of_ulen = ap (λ (x : MpRegion). x.ulen) at₁;
                  found = found;
                },
              )
        | inr away ↦
            let rest : IsBlock (nip + r.align) newlen = record {
              aligned = omega (arith, block.aligned, whole);
              whole = omega (arith, block.whole, whole);
              above = omega (arith, block.above);
              below = omega (arith, block.below);
            } in
            rw (page, away)
              (
                put-Kept _ r₂ used refl refl (moved-IsBlocks r₂ block apart),
                record {
                  room = subst (λ (x : MpRegion). want + r.align ≤ x.len) (sym at₂) room;
                  of_ulen = ap (λ (x : MpRegion). x.ulen) at₂;
                  found =
                      page-find_reg sys.osmem memory _ (mp_id reg) (nip + r.align) newlen rest
                        (omega arith) true;
                },
              )
      ]

-- With what came before.
then-Kept :
    {hb hb₁ hb₂ : MpHeap} {reg : ℕ} {lists : ℕ → List ℕ} {zeros : List ℕ}
    → Kept hb reg hb₁ lists zeros
    → Kept hb₁ reg hb₂ lists zeros
    → Kept hb reg hb₂ lists zeros
then-Kept k k' = record {
  ordered = k'.ordered;
  used = k'.used;
  others = λ q ne. k'.others q ne ∙ k.others q ne;
}

then-ResizedOut :
    (hb hb₁ : MpHeap) (reg want newulen : ℕ) (lists : ℕ → List ℕ) (zeros : List ℕ)
    → Kept hb reg hb₁ lists zeros
    → (hb₁.regs reg).align ≡ (hb.regs reg).align
    → (out : MpOut (Option ℕ)) → ResizedOut hb₁ reg want newulen lists zeros out
    → ResizedOut hb reg want newulen lists zeros out
then-ResizedOut hb hb₁ reg want newulen lists zeros k same (none, hb₂, log) k' = then-Kept k k'
then-ResizedOut hb hb₁ reg want newulen lists zeros k same (some ip, hb₂, log) (k', r) =
    (then-Kept k k', subst (λ a. Resized hb₂ reg ip a want newulen) same r)

put-IsMoved :
    (regs : ℕ → MpRegion) (reg : ℕ) (r : MpRegion) (len : ℕ) (o : Option ℕ)
    → IsMoved regs reg len o
    → IsMoved (update regs reg r) reg len o
put-IsMoved regs reg r len none m = m
put-IsMoved regs reg r len (some p) (block, apart) = (
  block,
  λ q ne h.
      let e = update_ne regs r ne in
      subst (λ (x : MpRegion). Apart p len x.user x.len) (sym e)
        (apart q ne (subst (λ (x : MpRegion). x.len ≢ 0) e h)),
)

resized_len_le : (r : MpRegion) (newlen : ℕ) → newlen < 2 ^ 48 → newlen ≤ resized_len r newlen
unfolding resized_len
resized_len_le r newlen small = elim (Bool-cases (r.real == 0)) [
  | inl first ↦
      rw first (omega (arith, (doalign8-IsRoundUp newlen 12 (omega arith) (omega arith)).above))
  | inr again ↦ rw again (
      omega (
        arith,
        (doalign8-IsRoundUp ((newlen + newlen / 8) % 2 ^ 64) 12 (omega arith) (omega arith)).above,
      ))
]

zero_align : {n : ℕ} → (n == 0) ≡ true → n ≡ 0
zero_align e = ground (arith, e)

-- real_mmap() on a region in use of the heap at hand, whose regions are in order and whose address leads to
-- it, for a length that is not 0 and below 2 ^ 48, where the system answers only memory that no other
-- region has, and has memory for directories: the regions are in order again, the region in use, and the
-- others as before. If there is a new address, it leads to the region, whose memory has at least the new
-- length and that of the alignment.
pub real_mmap-ResizedOut :
    (sys : Sys)
    → ((n : ℕ) → sys.osmem n ≢ none)
    → (osmremap : ℕ → Option ℕ) (hb : MpHeap) (reg newlen newulen : ℕ) (lists : ℕ → List ℕ)
      (zeros : List ℕ)
    → IsOrdered hb lists zeros
    → (hb.regs reg).set ≡ 1
    → 0 < newlen
    → newlen < 2 ^ 48
    → find_reg hb.dirs (hb.regs reg).user ≡ some (mp_id reg)
    → (let len = resized_len (hb.regs reg) newlen + (hb.regs reg).align in
        IsMoved hb.regs reg len (osmremap len))
    → ResizedOut hb reg newlen newulen lists zeros (real_mmap sys osmremap hb reg newlen newulen)
unfolding real_mmap
real_mmap-ResizedOut sys memory osmremap hb reg newlen newulen lists zeros v used pos small found
      moved =
    let r = hb.regs reg in
    let r₁ : MpRegion = record r { real = 1 } in
    let hb₁ = put_reg hb reg r₁ in
    let at = update_self hb.regs reg r₁ in
    let k : Kept hb reg hb₁ lists zeros =
      put-Kept sys memory hb reg lists zeros v used hb.dirs r₁ used refl refl
        (same-IsBlocks hb.regs v.blocks reg r₁ refl refl) in
    let len = resized_len r newlen in
    let le = resized_len_le r newlen small in
    let found₁ : find_reg hb₁.dirs (hb₁.regs reg).user ≡ some (mp_id reg) =
      subst (λ (x : MpRegion). find_reg hb.dirs x.user ≡ some (mp_id reg)) (sym at) found in
    let align₁ : (hb₁.regs reg).align ≡ r.align = ap (λ (x : MpRegion). x.align) at in
    elim (Bool-cases (r.align == 0)) [
      | inl plain ↦ rw plain (
          then-ResizedOut hb hb₁ reg newlen newulen lists zeros k align₁ _ (
            plain_placed-ResizedOut sys memory hb₁ reg lists zeros k.ordered k.used newlen len
              newulen (osmremap len)
              (put-IsMoved hb.regs reg r₁ len (osmremap len) (
                subst (λ n. IsMoved hb.regs reg n (osmremap n)) (omega (arith, zero_align plain))
                  moved))
              (align₁ ∙ ground (arith, plain)) (omega (arith, pos, le)) le found₁))
      | inr aligned ↦ elim (Bool-cases (not (r.align % 4096 == 0))) [
        | inl odd ↦ rw (aligned, odd) k
        | inr whole ↦
            rw (aligned, whole)
              (then-ResizedOut hb hb₁ reg newlen newulen lists zeros k align₁ _ (
                aligned_placed-ResizedOut sys memory hb₁ reg lists zeros k.ordered k.used newlen len
                  newulen (osmremap (len + r.align))
                  (subst (λ a. IsMoved hb₁.regs reg (len + a) (osmremap (len + r.align)))
                    (sym align₁)
                    (put-IsMoved hb.regs reg r₁ (len + r.align) (osmremap (len + r.align)) moved))
                  (ap (λ a. a % 2 ^ 12) align₁ ∙ ground (arith, whole)) (omega (arith, pos, le)) le
                  found₁))
      ]
    ]
