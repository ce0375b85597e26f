-- ===== src/Slab/New/Moving.antt =====
-- slab.h `slab_remalloc`: the loop that moves cells from the remote bin to the local one.
use yalloc.Base.{
  ℕ, zero, suc, ◌+◌, ◌*◌, ◌≤◌, ◌<◌, ◌≡◌, refl, Option, none, some, [], ◌==◌, update, arith, ◌∙◌, ap,
}
use yalloc.Slab.Region.{Region, Out}
use yalloc.Slab.Cells.{remalloc_cel, remalloc_loop}
use yalloc.Slab.Count.{count, count-update, count-add-le}
use yalloc.Slab.Valid.{live, IsListOf, list_push}

-- The region with its state bytes and its bin as the loop has left them.
abbrev pub at : Region → (ℕ → ℕ) → (ℕ → ℕ) → Region
at reg bs bn = record reg { binset = bs; bin = bn }

-- What holds after `c` rounds: the bin has `pos` cells, the cells from `c` on are still to come.
pub record Moving (reg : Region) (rbin : ℕ → ℕ) (rpos c pos : ℕ) (bs bn : ℕ → ℕ) : Type 0 where
  pub fresh : (x : ℕ) → reg.inipos ≤ x → bs x ≡ 0
  pub begun : (x : ℕ) → x < reg.inipos → (1 ≤ bs x) × (bs x ≤ 3)
  pub bin_list : IsListOf 2 reg.inipos bs pos bn
  pub bin_count : pos ≡ count 2 reg.celcnt bs
  pub rest : (i : ℕ) → c ≤ i → i < rpos → bs (rbin i) ≡ 3
  pub rest_count : rpos ≤ count 3 reg.celcnt bs + c
  pub in_use : (x : ℕ) → (bs x == 1) ≡ live reg x

-- The loop ends with everything but the cells from `c` on moved.
abbrev pub Moved : Region → (ℕ → ℕ) → ℕ → ℕ → Out (Option ℕ) → Type 0
Moved reg rbin rpos c out =
    (pos : ℕ) × (bs : ℕ → ℕ) × (bn : ℕ → ℕ) × (out ≡ (some pos, at reg bs bn, []))
    × Moving reg rbin rpos c pos bs bn

-- How the loop goes on from the outcome of a round.
abbrev remalloc_next : (ℕ → ℕ) → ℕ → ℕ → Out (Option ℕ) → Out (Option ℕ)
remalloc_next rbin left c (none, reg, log) = (none, reg, log)
remalloc_next rbin left c (some pos, reg, log) = remalloc_loop rbin left (c + 1) reg pos

remalloc_loop_step :
    (rbin : ℕ → ℕ) (left c : ℕ) (reg : Region) (pos : ℕ) {reg' : Region} {pos' : ℕ}
    → remalloc_cel reg pos (rbin c) ≡ (some pos', reg', [])
    → remalloc_loop rbin (suc left) c reg pos ≡ remalloc_loop rbin left (c + 1) reg' pos'
unfolding remalloc_loop
remalloc_loop_step rbin left c reg pos h =
    step (remalloc_cel reg pos (rbin c)) ∙ ap (remalloc_next rbin left c) h
  where
    step :
        (out : Out (Option ℕ))
        → elim (out.0) [
          | none ↦ (none, out.1, out.2)
          | some pos' ↦ remalloc_loop rbin left (c + 1) out.1 pos'
        ]
          ≡ remalloc_next rbin left c out
    step (none, reg, log) = refl
    step (some pos, reg, log) = refl

module _ (reg : Region) (rbin : ℕ → ℕ) (rpos : ℕ)
    (started : (i : ℕ) → i < rpos → rbin i < reg.inipos)
    (distinct : (i j : ℕ) → i < rpos → j < rpos → rbin i ≡ rbin j → i ≡ j)
    (inipos_le : reg.inipos ≤ reg.celcnt)
    (room : reg.meta + (reg.binorg + reg.celcnt) * 4 ≤ reg.metautop) where
  remalloc_cel_lem :
      {c pos : ℕ} {bs bn : ℕ → ℕ}
      → Moving reg rbin rpos c pos bs bn
      → c < rpos
      → remalloc_cel (at reg bs bn) pos (rbin c)
        ≡ (some (pos + 1), at reg (update bs (rbin c) 2) (update bn pos (rbin c)), [])
  unfolding remalloc_cel
  remalloc_cel_lem {c} {pos} {bs} m h =
      let below = started c h in
      let three = m.rest c (omega arith) h in
      let rest_count = m.rest_count in
      let both = count-add-le 2 3 reg.celcnt bs (omega arith) in
      ground (arith, m.bin_count, m.rest_count, inipos_le, room)

  remalloc_cel-Moving :
      {c pos : ℕ} {bs bn : ℕ → ℕ}
      → Moving reg rbin rpos c pos bs bn
      → c < rpos
      → Moving reg rbin rpos (c + 1) (pos + 1) (update bs (rbin c) 2) (update bn pos (rbin c))
  remalloc_cel-Moving {c} {pos} {bs} m h =
      let below = started c h in
      let three : bs (rbin c) ≡ 3 = m.rest c (omega arith) h in
      let inside : rbin c < reg.celcnt = omega (arith, inipos_le) in
      let from_two = count-update 2 reg.celcnt bs (rbin c) 2 inside in
      let from_three = count-update 3 reg.celcnt bs (rbin c) 2 inside in
      record {
        fresh = λ x hx. ground (arith, m.fresh x hx);
        begun = λ x hx. ground (arith, m.begun x hx);
        bin_list = list_push m.bin_list below (omega arith);
        bin_count = ground (arith, m.bin_count, from_two);
        rest = λ i lo hi. ground (arith, m.rest i, distinct c i);
        rest_count = ground (arith, m.rest_count, from_three);
        in_use = λ x. ground (arith, m.in_use x);
      }

  pub remalloc_loop_lem :
      (left c pos : ℕ) (bs bn : ℕ → ℕ)
      → Moving reg rbin rpos c pos bs bn
      → c + left < rpos
      → Moved reg rbin rpos (c + left) (remalloc_loop rbin left c (at reg bs bn) pos)
  unfolding remalloc_loop
  remalloc_loop_lem zero c pos bs bn m h =
      let e : c + zero ≡ c = omega arith in rw e (pos, bs, bn, refl, m)
  remalloc_loop_lem (suc left) c pos bs bn m h =
      let e : c + suc left ≡ c + 1 + left = omega arith in
      rw (e, remalloc_loop_step rbin left c (at reg bs bn) pos (remalloc_cel_lem m (omega arith)))
        (remalloc_loop_lem left (c + 1) (pos + 1) _ _ (remalloc_cel-Moving m (omega arith))
          (omega arith))
