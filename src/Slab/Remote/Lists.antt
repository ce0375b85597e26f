-- ===== src/Slab/Remote/Lists.antt =====
-- slab.h `cels2rbin`: the list of cells in the remote bin grows by the buffered ones.
use native.Mathlib.Decide.{dec_lt}
use yalloc.Base.{
  ℕ, zero, suc, ◌+◌, ◌-◌, ◌^◌, ◌≤◌, ◌<◌, ◌≡◌, ◌≢◌, refl, sym, ◌∙◌, false, ◌⊎◌, inl, inr, some, [],
  ltb, leb, update, arith, ap,
}
use yalloc.Word.{add4}
use yalloc.Slab.Region.{Region}
use yalloc.Slab.Valid.{IsListOf}
use yalloc.Slab.Remote.Cels.{copy, rbin_loop, rbin_put, rbin_add}

-- The loop appends `left` cells of `bin` from `c` on.
record Appended (bin : ℕ → ℕ) (left c : ℕ) (rbin : ℕ → ℕ) (rpos : ℕ) (rbin' : ℕ → ℕ) : Type 0 where
  before : (i : ℕ) → i < rpos → rbin' i ≡ rbin i
  after : (i : ℕ) → i < left → rbin' (rpos + i) ≡ bin (c + i)

rbin_loop_lem :
    (celcnt : ℕ) (bin : ℕ → ℕ) (left c : ℕ) (rbin : ℕ → ℕ) (rpos : ℕ)
    → ((i : ℕ) → i < left → bin (c + i) < celcnt)
    → (rbin' : ℕ → ℕ) × (rbin_loop celcnt bin left c rbin rpos ≡ (some (rpos + left), rbin'))
      × Appended bin left c rbin rpos rbin'
unfolding rbin_loop
rbin_loop_lem celcnt bin zero c rbin rpos inside =
    let e : rpos + zero ≡ rpos = omega arith in
    (rbin, rw e refl, record { before = λ i h. refl; after = λ i h. absurd (omega arith) })
rbin_loop_lem celcnt bin (suc left) c rbin rpos inside =
    let here : bin c < celcnt = ground (arith, inside 0) in
    let test : leb celcnt (bin c) ≡ false = ground arith in
    let (rbin', e, a) =
      rbin_loop_lem celcnt bin left (c + 1) (update rbin rpos (bin c)) (rpos + 1)
        (λ i h. ground (arith, inside (i + 1))) in
    let sum : rpos + suc left ≡ rpos + 1 + left = omega arith in
    (
      rbin',
      rw (test, e, sum) refl,
      record {
        before = λ i h. ground (arith, a.before i);
        after = λ i h. ground (arith, a.before rpos, a.after (i - 1));
      },
    )

-- An entry of the long list is an entry of one of the two.
entry-Appended :
    {bin rbin rbin' : ℕ → ℕ} {n cnt : ℕ}
    → Appended bin cnt 0 rbin n rbin'
    → (i : ℕ) → i < n + cnt
    → ((i < n) × (rbin' i ≡ rbin i)) ⊎ ((n ≤ i) × (i - n < cnt) × (rbin' i ≡ bin (i - n)))
entry-Appended {bin} {rbin} {rbin'} {n} a i h = elim (dec_lt i n) [
  | yes lo ↦ inl (lo, a.before i lo)
  | no hi ↦
      let back : n + (i - n) ≡ i = omega arith in
      let front : 0 + (i - n) ≡ i - n = omega arith in
      let there = a.after (i - n) (omega arith) in
      inr (omega arith, omega arith, ap rbin' (sym back) ∙ there ∙ ap bin front)
]

-- Two lists of cells in one state that share no cell make one.
append-IsListOf :
    {s inipos : ℕ} {binset : ℕ → ℕ} (n cnt : ℕ) (rbin bin rbin' : ℕ → ℕ)
    → IsListOf s inipos binset n rbin
    → IsListOf s inipos binset cnt bin
    → ((i j : ℕ) → i < n → j < cnt → rbin i ≢ bin j)
    → Appended bin cnt 0 rbin n rbin'
    → IsListOf s inipos binset (n + cnt) rbin'
append-IsListOf n cnt rbin bin rbin' l l' apart a = record {
  started = λ i h. ground (arith, entry-Appended a i h, l.started i, l'.started (i - n));
  status = λ i h. ground (arith, entry-Appended a i h, l.status i, l'.status (i - n));
  distinct = λ i j hi hj e. ground (
    arith,
    entry-Appended a i hi,
    entry-Appended a j hj,
    l.distinct i j,
    l'.distinct (i - n) (j - n),
    apart i (j - n),
    apart j (i - n),
  );
}

-- With room in the region, all cells go to the remote bin, and nothing is reported.
pub rbin_put_lem :
    (reg : Region) (rbin bin : ℕ → ℕ) (cnt : ℕ)
    → reg.celcnt < 2 ^ 32
    → reg.inipos ≤ reg.celcnt
    → reg.binpos + (reg.rbinpos + cnt) ≤ reg.celcnt
    → IsListOf 3 reg.inipos reg.binset reg.rbinpos rbin
    → IsListOf 3 reg.inipos reg.binset cnt bin
    → ((i j : ℕ) → i < reg.rbinpos → j < cnt → rbin i ≢ bin j)
    → (rbin' : ℕ → ℕ) × (rbin_put bin reg cnt rbin
        ≡ (0, record reg { rembin = some rbin'; rbinpos = reg.rbinpos + cnt }, []))
      × IsListOf 3 reg.inipos reg.binset (reg.rbinpos + cnt) rbin'
rbin_put_lem reg rbin bin cnt small le fits l l' apart =
    let (rbin', e, a) =
      rbin_loop_lem reg.celcnt bin cnt 0 rbin reg.rbinpos (λ i h. ground (arith, l'.started i h)) in
    let test : ltb reg.celcnt (add4 (add4 reg.binpos reg.rbinpos) cnt) ≡ false = ground arith in
    (
      rbin',
      rw test (ap (rbin_add bin reg cnt) e),
      append-IsListOf _ cnt rbin bin rbin' l l' apart a,
    )

-- The copy of a list in new memory is the list.
pub copy-IsListOf :
    {s inipos : ℕ} {binset : ℕ → ℕ} (n : ℕ) (fresh rbin : ℕ → ℕ)
    → IsListOf s inipos binset n rbin
    → IsListOf s inipos binset n (copy fresh rbin n)
copy-IsListOf n fresh rbin l = record {
  started = λ i h. ground (arith, l.started i h);
  status = λ i h. ground (arith, l.status i h);
  distinct = λ i j hi hj e. ground (arith, l.distinct i j);
}
