-- ===== src/Slab/Release.antt =====
-- slab.h `slab_free`, `slab_free_rheap`: a block is given back by its address.
use native.Mathlib.Decide.{dec_lt}
use native.Mathlib.Nat.{mul-div_cancel}
use yalloc.Base.{
  ℕ, ◌+◌, ◌*◌, ◌/◌, ◌≡◌, ◌≢◌, refl, sym, ◌∙◌, true, false, Option, none, some, List, [], ◌∷◌, ◌++◌,
  arith, ap, ◌⊎◌, inl, inr, Bool-cases,
}
use yalloc.Slab.Region.{Region, Diag, HeapStat, OutHeap}
use yalloc.Slab.Marks.{slab_cel}
use yalloc.Slab.Cells.{slab_frecel}
use yalloc.Slab.Blocks.{slab_free}
use yalloc.Slab.Valid.{live, IsValid}
use yalloc.Slab.Free.{freed, frecel-IsValid, frecel_dead, not_live}
use yalloc.Slab.Address.{IsShaped, cel_ip, slab_cel_lem, slab_cel_found}

-- The block at `ip` was in use, and went to the bin.
pub record Released (hb : HeapStat) (reg : Region) (ip : ℕ) (out : OutHeap ℕ) : Type 0 where
  pub cel : ℕ
  pub at_ip : ip ≡ cel_ip reg cel
  pub used : live reg cel ≡ true
  pub result : out ≡ (reg.binpos + 1, hb, freed reg cel, [])
  pub valid : IsValid (freed reg cel)

-- No block that is in use starts at `ip`: an error is counted and reported, and nothing else changes.
pub record Refused (hb : HeapStat) (reg : Region) (ip : ℕ) (out : OutHeap ℕ) : Type 0 where
  pub log : List Diag
  pub result : out ≡ (0, record hb { invalid_frees = hb.invalid_frees + 1 }, reg, log)
  pub reported : log ≢ []
  pub unused : (cel : ℕ) → ip ≡ cel_ip reg cel → live reg cel ≡ false

-- slab_free() after the search for the cell.
abbrev free_found : HeapStat → Region → Option ℕ × List Diag → OutHeap ℕ
free_found hb reg (none, log) = (0, record hb { invalid_frees = hb.invalid_frees + 1 }, reg, log)
free_found hb reg (some cel, log) =
    let (bincnt, hb', reg', log') = slab_frecel hb reg cel reg.celcnt in
    (bincnt, hb', reg', log ++ log')

slab_free_lem :
    (hb : HeapStat) (reg : Region) (ip : ℕ)
    → slab_free hb reg ip reg.cellen reg.celcnt
      ≡ free_found hb reg (slab_cel reg ip reg.cellen reg.celcnt)
unfolding slab_free
slab_free_lem hb reg ip = go (slab_cel reg ip reg.cellen reg.celcnt)
  where
    go :
        (out : Option ℕ × List Diag)
        → (elim (out.0) [
          | none ↦ (0, record hb { invalid_frees = hb.invalid_frees + 1 }, reg, out.1)
          | some cel ↦
              let (bincnt, hb', reg', log') = slab_frecel hb reg cel reg.celcnt in
              (bincnt, hb', reg', out.1 ++ log')
        ])
          ≡ free_found hb reg out
    go (none, log) = refl
    go (some cel, log) = refl

module _ (reg : Region) (v : IsValid reg) (s : IsShaped reg) (hb : HeapStat) (ip : ℕ) where
  -- A search without a cell is reported.
  none_told :
      (slab_cel reg ip reg.cellen reg.celcnt).0 ≡ none
      → (slab_cel reg ip reg.cellen reg.celcnt).1 ≢ []
  unfolding slab_cel
  none_told e = ground (arith, e)

  -- A search with a cell is not.
  some_quiet :
      (cel : ℕ)
      → (slab_cel reg ip reg.cellen reg.celcnt).0 ≡ some cel
      → (slab_cel reg ip reg.cellen reg.celcnt).1 ≡ []
  unfolding slab_cel
  some_quiet cel e = ground (arith, e)

  none-unused :
      (slab_cel reg ip reg.cellen reg.celcnt).0 ≡ none
      → (cel : ℕ) → ip ≡ cel_ip reg cel
      → live reg cel ≡ false
  none-unused e cel at = elim (dec_lt cel reg.celcnt) [
    | yes lt ↦
        let found =
          ap (λ a. (slab_cel reg a reg.cellen reg.celcnt).0) at
          ∙ ap (λ o. o.0) (slab_cel_lem reg s cel lt) in
        absurd (ground (arith, e, found))
    | no ge ↦ ground (arith, v.fresh cel, v.inipos_le)
  ]

  -- Two cells with one address are one.
  cel_ip_inj : (cel cel' : ℕ) → cel_ip reg cel ≡ cel_ip reg cel' → cel ≡ cel'
  cel_ip_inj cel cel' e =
      let same : cel * reg.cellen ≡ cel' * reg.cellen = omega arith in
      sym (mul-div_cancel cel s.some_len)
      ∙ ap (λ n. n / reg.cellen) same
      ∙ mul-div_cancel cel' s.some_len

  found-Released :
      (out : Option ℕ × List Diag)
      → slab_cel reg ip reg.cellen reg.celcnt ≡ out
      → Released hb reg ip (free_found hb reg out) ⊎ Refused hb reg ip (free_found hb reg out)
  found-Released (none, log) e =
      let nothing = ap (λ o. o.0) e in
      inr (record {
        log = log;
        result = refl;
        reported = λ z. none_told nothing (ap (λ o. o.1) e ∙ z);
        unused = none-unused nothing;
      })
  found-Released (some cel, log) e =
      let found = ap (λ o. o.0) e in
      let (at_ip, inside) = slab_cel_found reg s ip cel found in
      let quiet : log ≡ [] = sym (ap (λ o. o.1) e) ∙ some_quiet cel found in
      elim (Bool-cases (live reg cel)) [
        | inl used ↦
            let (result, valid, marks) = frecel-IsValid v hb cel used in
            inl (record {
              cel = cel;
              at_ip = at_ip;
              used = used;
              result = rw (result, quiet) refl;
              valid = valid;
            })
        | inr dead ↦ inr (record {
          log = not_live reg cel ∷ [];
          result = rw (frecel_dead v hb cel inside dead, quiet) refl;
          reported = λ z. ground (arith, z);
          unused = λ cel' at. rw (cel_ip_inj cel' cel (sym at ∙ at_ip)) dead;
        })
      ]

  -- slab_free() of any address either takes back the block that is in use there, which goes to the bin
  -- of a region that stays in order, or, if no block in use starts there, changes nothing but the
  -- count of errors, and reports it.
  pub slab_free-Released :
      Released hb reg ip (slab_free hb reg ip reg.cellen reg.celcnt)
      ⊎ Refused hb reg ip (slab_free hb reg ip reg.cellen reg.celcnt)
  slab_free-Released =
      rw (slab_free_lem hb reg ip) (found-Released (slab_cel reg ip reg.cellen reg.celcnt) refl)
