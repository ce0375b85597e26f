-- ===== src/Mmap/Aged.antt =====
-- free.h `free_trim`: what happens to one region of its age.
use native.Mathlib.Decide.{dec_lt}
use yalloc.Base.{
  ℕ, ◌<◌, none, some, List, [], ◌∷◌, ◌++◌, refl, true, ◌&&◌, ◌||◌, leb, ◌==◌, arith, ◌≡◌, ◌≢◌, inl,
  inr, Bool-cases, update, update_ne, sym, subst, ap, ◌∙◌,
}
use yalloc.Mmap.State.{vmbits, MpRegion, MpHeap, Sys, MpOut, put_reg, count_trim}
use yalloc.Mmap.Trim.{Unmaps, trim_recycle, trim_empty, trim_aged}
use yalloc.Mmap.Valid.{Apart, IsOrdered, off_lem}
use yalloc.Mmap.Memory.{same-IsBlocks, empty-IsBlocks}
use yalloc.Mmap.Lists.{take-IsMp, take-IsOff, cut-IsMp}
use yalloc.Mmap.Pushed.{wait-IsMp, empty-IsMp}
use yalloc.Mmap.Touched.{touch-IsMp}

-- Memory that no region in use has.
abbrev pub IsSpare : (ℕ → MpRegion) → List (ℕ × ℕ) → Type 0
IsSpare regs [] = ◌≡◌ {A = ℕ} 0 0
IsSpare regs ((base, len) ∷ l) =
    ((q : ℕ) → (regs q).set ≡ 1 → (regs q).len ≢ 0 → Apart base len (regs q).user (regs q).len)
    × IsSpare regs l

-- The regions stay in order, and those in use as they are.
pub record Trimmed (hb hb' : MpHeap) : Type 0 where
  pub lists : ℕ → List ℕ
  pub zeros : List ℕ
  pub ordered : IsOrdered hb' lists zeros
  pub others : (q : ℕ) → (hb.regs q).set ≡ 1 → hb'.regs q ≡ hb.regs q

abbrev pub TrimmedOut : MpHeap → MpOut Unmaps → Type 0
TrimmedOut hb (none, hb', log) = Trimmed hb hb'
TrimmedOut hb (some unmaps, hb', log) = Trimmed hb hb' × IsSpare hb.regs unmaps

pub same-Trimmed :
    {hb : MpHeap} {lists : ℕ → List ℕ} {zeros : List ℕ} → IsOrdered hb lists zeros → Trimmed hb hb
same-Trimmed {lists = lists} {zeros} v = record {
  lists = lists;
  zeros = zeros;
  ordered = v;
  others = λ q used. refl;
}

pub then-Trimmed : {hb hb₁ hb₂ : MpHeap} → Trimmed hb hb₁ → Trimmed hb₁ hb₂ → Trimmed hb hb₂
then-Trimmed t t' = record {
  lists = t'.lists;
  zeros = t'.zeros;
  ordered = t'.ordered;
  others = λ q used. t'.others q (ap (λ x. x.set) (t.others q used) ∙ used) ∙ t.others q used;
}

-- What is spare later was spare before.
pub earlier-IsSpare :
    (hb hb₁ : MpHeap) (l : List (ℕ × ℕ)) → Trimmed hb hb₁ → IsSpare hb₁.regs l → IsSpare hb.regs l
earlier-IsSpare hb hb₁ [] t s = s
earlier-IsSpare hb hb₁ ((base, len) ∷ l) t (here, rest) = (
  λ q used some_len.
      let e = t.others q used in
      subst (λ x. Apart base len x.user x.len) e
        (here q (ap (λ x. x.set) e ∙ used) (λ z. some_len (sym (ap (λ x. x.len) e) ∙ z))),
  earlier-IsSpare hb hb₁ l t rest,
)

pub append-IsSpare :
    (regs : ℕ → MpRegion) (l l' : List (ℕ × ℕ))
    → IsSpare regs l
    → IsSpare regs l'
    → IsSpare regs (l ++ l')
append-IsSpare regs [] l' s s' = s'
append-IsSpare regs ((base, len) ∷ l) l' (here, rest) s' = (here, append-IsSpare regs l l' rest s')

-- A region that is not in use is written.
pub others_lem :
    (hb : MpHeap) (reg : ℕ) (r : MpRegion)
    → (hb.regs reg).set ≡ 2
    → (q : ℕ) → (hb.regs q).set ≡ 1
    → update hb.regs reg r q ≡ hb.regs q
others_lem hb reg r free q used =
    update_ne hb.regs r (λ e. omega (arith, ap (λ m. (hb.regs m).set) e, free, used))

module _ (sys : Sys) (ages : ℕ → ℕ) (hb : MpHeap) (lists : ℕ → List ℕ) (zeros : List ℕ)
    (v : IsOrdered hb lists zeros) (reg : ℕ) (free : (hb.regs reg).set ≡ 2)
    (some_len : (hb.regs reg).len ≢ 0) where
  lt_lem : reg < hb.stat.newmpregions
  lt_lem = elim (dec_lt reg hb.stat.newmpregions) [
    | yes h ↦ h
    | no ge ↦ absurd (omega (arith, (v.unmade reg (omega arith)).unset, free))
  ]

  trim_recycle-Trimmed : (hb.regs reg).aged ≡ 0 → Trimmed hb (trim_recycle sys hb reg)
  unfolding trim_recycle
  trim_recycle-Trimmed young =
      let r' : MpRegion = record (hb.regs reg) { align = 0; aged = 1 } in
      record {
        lists = _;
        zeros = zeros;
        ordered =
            wait-IsMp v reg (off_lem v reg young) lt_lem (λ q ne e. cc) r'
              (same-IsBlocks hb.regs v.blocks reg r' refl refl) (hb.regs reg).order
              (record {
                at_order = refl;
                free = free;
                some_len = some_len;
                begun = λ e. cc;
                kept = λ e. cc;
              });
        others = others_lem hb reg r' free;
      }

  trim_second-Trimmed :
      (stat : ℕ)
      → (hb.regs reg).aged ≡ 1
      → Trimmed hb (
          put_reg
            (record hb { stat = count_trim hb.stat stat })
            reg
            (record (hb.regs reg) { aged = 2 }))
  trim_second-Trimmed stat first =
      let r' : MpRegion = record (hb.regs reg) { aged = 2 } in
      record {
        lists = lists;
        zeros = zeros;
        ordered =
            touch-IsMp v reg r'
              (record {
                user = refl;
                len = refl;
                set = refl;
                order = refl;
                aged =
                    inr (
                      λ e. omega (arith, first, e),
                      λ e. omega (arith, first, e),
                      λ e. cc,
                      λ e. cc,
                    );
              })
              (λ a b. (free, some_len)) (λ e. omega (arith, free, e));
        others = others_lem hb reg r' free;
      }

  trim_empty-Trimmed : (hb.regs reg).aged ≡ 2 → Trimmed hb (trim_empty hb reg)
  unfolding trim_empty
  trim_empty-Trimmed second =
      let r = hb.regs reg in
      let on =
        v.listed reg (λ e. cc) (λ e. omega (arith, second, e)) (λ e. omega (arith, second, e)) in
      let off = take-IsOff v r.order reg on in
      let v' = cut-IsMp (take-IsMp v r.order reg on (λ q e. cc)) reg off in
      let r' : MpRegion = record r { set = 0; prvlen = r.len; len = 0; aged = 3 } in
      record {
        lists = _;
        zeros = reg ∷ zeros;
        ordered =
            empty-IsMp v' reg off lt_lem (λ q ne e. ne (ground (arith, e))) r'
              (empty-IsBlocks hb.regs v.blocks reg r' refl)
              (record { no_len = refl; unused = λ e. cc; over = refl });
        others = others_lem hb reg r' free;
      }

  spare_lem : IsSpare hb.regs (((hb.regs reg).user, (hb.regs reg).len) ∷ [])
  spare_lem = (
    λ q used q_len.
        v.blocks.apart reg q (λ e. omega (arith, ap (λ m. (hb.regs m).set) e, free, used)) some_len
          q_len,
    refl,
  )

  pub trim_aged-Trimmed :
      (age : ℕ) → TrimmedOut hb (trim_aged sys ages hb reg age (hb.regs reg).aged)
  unfolding trim_aged
  trim_aged-Trimmed age =
      let r = hb.regs reg in
      let stays = same-Trimmed v in
      elim (Bool-cases (leb vmbits r.order || leb r.order 12)) [
        | inl bad ↦ rw bad stays
        | inr good ↦ elim (Bool-cases ((r.aged == 0) && leb (ages 0) age)) [
          | inl first ↦ rw (good, first) (trim_recycle-Trimmed (ground (arith, first)), refl)
          | inr later ↦ elim (Bool-cases ((r.aged == 1) && leb (ages 1) age)) [
            | inl second ↦
                rw (good, later, second) (trim_second-Trimmed 6 (ground (arith, second)), refl)
            | inr later' ↦ elim (Bool-cases ((r.aged == 2) && leb (ages 2) age)) [
              | inr young ↦ rw (good, later, later', young) (stays, refl)
              | inl third ↦
                  let test : (r.set == 2) ≡ true = ground (arith, free) in
                  rw (good, later, later', third, test)
                    (trim_empty-Trimmed (ground (arith, third)), spare_lem)
            ]
          ]
        ]
      ]
