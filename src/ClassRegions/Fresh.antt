-- ===== src/ClassRegions/Fresh.antt =====
-- slab.h `newslab`: a new region is in order, and none of its cells is in use.
use yalloc.Base.{
  ℕ, ◌+◌, ◌-◌, ◌*◌, ◌/◌, ◌^◌, ◌<◌, Bool, false, Option, none, some, List, [], ◌==◌, ltb, leb, arith,
  ◌≡◌, ◌⊎◌, inl, inr, refl, sym, subst, Bool-cases,
}
use yalloc.Slab.Region.{Region, Diag}
use yalloc.Slab.Count.{count_le_of_above}
use yalloc.Slab.Valid.{live}
use yalloc.Slab.Valid.{empty_remote}
use yalloc.Slab.Layout.{
  NewRegion, Sizes, Metas, slab_metas, slab_init, slab_checked, slab_sized, newslab,
}
use yalloc.Slab.Layout.Room.{slab_metas-IsMetas, newslab-IsSizes}
use yalloc.ClassRegions.Valid.{IsOpen}

-- What newregion() answers: its record is 0, but for a remote bin that a region which is used again
-- keeps, empty and not without length; its metadata is 0 and ends behind the `metaulen` bytes asked for.
pub record IsUnused (reg : Region) (metaulen : ℕ) : Type 0 where
  pub inipos : reg.inipos ≡ 0
  pub binpos : reg.binpos ≡ 0
  pub aged : reg.aged ≡ 0
  pub binset : (c : ℕ) → reg.binset c ≡ 0
  pub rembin : (reg.rembin ≡ none) ⊎ (0 < reg.rbinlen)
  pub rbinpos : reg.rbinpos ≡ 0
  pub room : reg.metautop ≡ reg.meta + metaulen

abbrev pub IsAnswered : NewRegion → Type 0
IsAnswered newregion =
    (order len metaulen : ℕ) (reg : Region) (metalen : ℕ)
    → newregion order len metaulen ≡ some (reg, metalen)
    → IsUnused reg metaulen

abbrev pub NewOut : Option Region × List Diag → Type 0
NewOut (none, log) = ◌≡◌ {A = ℕ} 0 0
NewOut (some reg, log) = IsOpen reg × ((c : ℕ) → live reg c ≡ false)

module _ (cellen clas : ℕ) (s : Sizes) (tags flns : Bool) (small : s.cnt < 2 ^ 32 - 1)
    (short : cellen < 2 ^ 32) where
  abbrev m : Metas
  m = slab_metas cellen s.cnt tags flns

  init-NewOut :
      (reg : Region) (log : List Diag)
      → IsUnused reg (m.metacnt * 4)
      → NewOut (some (slab_init reg cellen clas s m), log)
  init-NewOut reg log u =
      let metas = slab_metas-IsMetas cellen s.cnt tags flns (omega (arith, small)) in
      (
        record {
          valid = record {
            small = small;
            inipos_le = omega (arith, u.inipos);
            fresh = λ c h. u.binset c;
            begun = λ c h. absurd (omega (arith, u.inipos, h));
            bin_list = record {
              started = λ i h. absurd (omega (arith, u.binpos, h));
              status = λ i h. absurd (omega (arith, u.binpos, h));
              distinct = λ i j h. absurd (omega (arith, u.binpos, h));
            };
            bin_count = omega (
              arith,
              u.binpos,
              count_le_of_above 2 0 s.cnt reg.binset (λ c h e. omega (arith, u.binset c, e)),
            );
            remote_list =
                empty_remote reg.rembin (slab_init reg cellen clas s m) u.rembin u.rbinpos;
            remote_count = omega (arith, u.rbinpos);
            referred = λ h. absurd (omega (arith, u.rbinpos, h));
            room = omega (arith, u.room, metas.bin, metas.lens, metas.tag, metas.fln);
          };
          young = u.aged;
          short = short;
        },
        λ c. ground (arith, u.binset c),
      )

  checked-NewOut :
      (o : Option (Region × ℕ))
      → ((reg : Region) (metalen : ℕ) → o ≡ some (reg, metalen) → IsUnused reg (m.metacnt * 4))
      → NewOut (slab_checked cellen clas s m o)
  checked-NewOut none answered = refl
  checked-NewOut (some (reg, metalen)) answered = elim (Bool-cases (ltb reg.len s.reglen)) [
    | inl short_len ↦ rw short_len refl
    | inr long ↦ elim (Bool-cases (ltb metalen (m.metacnt * 4))) [
      | inl few ↦ rw (long, few) refl
      | inr enough ↦ elim (Bool-cases (ltb (reg.len / cellen) s.cnt)) [
        | inl less ↦ rw (long, enough, less) refl
        | inr fits ↦ rw (long, enough, fits) (init-NewOut reg [] (answered reg metalen refl))
      ]
    ]
  ]

  sized-NewOut :
      (newregion : NewRegion)
      → IsAnswered newregion
      → NewOut (slab_sized newregion tags flns cellen clas (some s))
  sized-NewOut newregion answered = elim (Bool-cases (s.cnt == 0)) [
    | inl nothing ↦ rw nothing refl
    | inr cells ↦ elim (Bool-cases (leb (2 ^ 30) m.metacnt)) [
      | inl large ↦ rw (cells, large) refl
      | inr fits ↦
          rw (cells, fits)
            (checked-NewOut (newregion s.order s.reglen (m.metacnt * 4))
              (answered s.order s.reglen (m.metacnt * 4)))
    ]
  ]

pub newslab-NewOut :
    (newregion : NewRegion)
    → IsAnswered newregion
    → (tags flns : Bool) (order cellen clas claseq : ℕ) → 0 < cellen
    → cellen < 2 ^ 32
    → NewOut (newslab newregion tags flns order cellen clas claseq)
unfolding newslab
newslab-NewOut newregion answered tags flns order cellen clas claseq pos short =
    let (s, e, sizes) = newslab-IsSizes cellen clas claseq order pos short in
    subst (λ o. NewOut (slab_sized newregion tags flns cellen clas o)) (sym e)
      (sized-NewOut cellen clas s tags flns sizes.small short newregion answered)
