-- ===== src/Slab/New/All.antt =====
-- slab.h `slab_newcel`, from whichever place the cell comes.
use native.Mathlib.Decide.{dec_lt}
use yalloc.Base.{
  ℕ, ◌<◌, ◌≡◌, refl, ◌≢◌, inl, inr, true, false, Option, none, some, [], ◌==◌, arith, ap, sym, ◌∙◌,
  subst,
}
use yalloc.Slab.Region.{Region}
use yalloc.Slab.Cells.{newcel_remote, newcel_unlock, slab_remalloc, slab_newcel}
use yalloc.Slab.Valid.{IsValid, IsRemoteBin}
use yalloc.Slab.New.Defs.{Outcome}
use yalloc.Slab.New.Local.{newcel_popped, popped-Alloced, newcel_ini_lem, begun-Alloced}
use yalloc.Slab.New.Remote.{newcel_remote_lem, remote_open}

module _ {reg : Region} (v : IsValid reg) where
  newcel-Outcome_ini : reg.binpos ≡ 0 → reg.inipos < reg.celcnt → Outcome reg (slab_newcel reg)
  unfolding slab_newcel
  newcel-Outcome_ini none_free lt =
      let e : (reg.binpos == 0) ≡ true = ground arith in
      let e' : (reg.inipos == reg.celcnt) ≡ false = ground arith in
      rw (e, e', newcel_ini_lem v lt) (begun-Alloced v lt, refl)

  -- Without a remote bin, or with an empty one, slab_remalloc() changes nothing.
  remalloc_none :
      (o : Option (ℕ → ℕ))
      → reg.rembin ≡ o
      → reg.rbinpos ≡ 0
      → slab_remalloc (record reg { lock = 1 }) ≡ (none, record reg { lock = 1 }, [])
  unfolding slab_remalloc
  remalloc_none none e empty = rw e (ap (λ o. (none, record reg { lock = 1; rembin = o }, [])) e)
  remalloc_none (some rbin) e empty = rw e (ground arith)

  remote_none : reg.lock ≡ 0 → reg.rbinpos ≡ 0 → newcel_remote reg ≡ (none, reg, [])
  remote_none unlocked empty =
      remote_open reg unlocked
      ∙ ap newcel_unlock (remalloc_none reg.rembin refl empty)
      ∙ ap (λ n. (none, record reg { lock = n }, [])) (sym unlocked)

  remote_locked : reg.lock ≢ 0 → newcel_remote reg ≡ (none, reg, [])
  unfolding newcel_remote
  remote_locked ne = ground arith

  remote_some :
      (o : Option (ℕ → ℕ))
      → reg.rembin ≡ o
      → reg.lock ≡ 0
      → 0 < reg.rbinpos
      → Outcome reg (newcel_remote reg)
  remote_some none e unlocked pos =
      let empty : reg.rbinpos ≡ 0 = subst (IsRemoteBin reg) e v.remote_list in absurd (omega arith)
  remote_some (some rbin) e unlocked pos =
      let (cel, reg', came, alloced) = newcel_remote_lem v rbin e pos unlocked in
      rw came (alloced, refl)

  remote-Outcome :
      (o : Option (ℕ → ℕ))
      → reg.rembin ≡ o
      → reg.binpos ≡ 0
      → reg.inipos ≡ reg.celcnt
      → Outcome reg (newcel_remote reg)
  remote-Outcome o e none_free all = elim (dec_lt 0 reg.lock) [
    | yes locked ↦
        rw (remote_locked (omega arith))
          (record { bin = none_free; ini = all; remote = inl (omega arith) }, refl, refl)
    | no unlocked ↦ elim (dec_lt 0 reg.rbinpos) [
      | yes pos ↦ remote_some o e (omega arith) pos
      | no empty ↦
          rw (remote_none (omega arith) (omega arith))
            (record { bin = none_free; ini = all; remote = inr (omega arith) }, refl, refl)
    ]
  ]

  newcel-Outcome_remote : reg.binpos ≡ 0 → reg.inipos ≡ reg.celcnt → Outcome reg (slab_newcel reg)
  unfolding slab_newcel
  newcel-Outcome_remote none_free all =
      let e : (reg.binpos == 0) ≡ true = ground arith in
      let e' : (reg.inipos == reg.celcnt) ≡ true = ground arith in
      rw (e, e') (remote-Outcome reg.rembin refl none_free all)

-- slab_newcel() on a region in order hands out a cell that was not in use, marks it and no other as
-- in use, reports nothing and leaves the region in order; or it finds the region full (no cell in
-- the bin, none that was never allocated, and the remote bin empty or locked) and leaves it as it is.
pub newcel-Outcome : (reg : Region) → IsValid reg → Outcome reg (slab_newcel reg)
newcel-Outcome reg v = elim (dec_lt 0 reg.binpos) [
  | yes pos ↦ rw (newcel_popped v pos) (popped-Alloced v pos, refl)
  | no none_free ↦ elim (dec_lt reg.inipos reg.celcnt) [
    | yes lt ↦ newcel-Outcome_ini v (omega arith) lt
    | no all ↦ newcel-Outcome_remote v (omega arith) (omega (arith, v.inipos_le))
  ]
]
