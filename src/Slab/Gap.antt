-- ===== src/Slab/Gap.antt =====
-- slab.h `slab_newalcel`: the loop that puts the cells that an aligned block skips in the bin.
use yalloc.Base.{
  ℕ, zero, suc, ◌+◌, ◌≤◌, ◌<◌, ◌≡◌, refl, ◌∙◌, subst, true, some, [], ◌==◌, if◌then◌else◌, arith,
  update,
}
use yalloc.Slab.Region.{Region}
use yalloc.Slab.Marks.{slab_markused, markfree}
use yalloc.Slab.Blocks.{gap_loop}
use yalloc.Slab.Count.{count, count-update}
use yalloc.Slab.Valid.{IsListOf, list_push, list_write}

-- The region with its state bytes and its bin as the loop has left them.
abbrev pub with_marks : Region → (ℕ → ℕ) → (ℕ → ℕ) → Region
with_marks reg bs bn = record reg { binset = bs; bin = bn }

-- What holds when the cells from `inipos` to `c` are in the bin and `cel` is marked; `old` are the
-- state bytes before the call.
pub record Gap (old : ℕ → ℕ) (celcnt cel c pos : ℕ) (bs bn : ℕ → ℕ) : Type 0 where
  pub fresh : (x : ℕ) → cel < x → bs x ≡ 0
  pub skipped : (x : ℕ) → c ≤ x → x < cel → bs x ≡ 0
  pub begun : (x : ℕ) → x < c → (1 ≤ bs x) × (bs x ≤ 3)
  pub marked : bs cel ≡ 1
  pub bin_list : IsListOf 2 (cel + 1) bs pos bn
  pub bin_count : pos ≡ count 2 celcnt bs
  pub remote : (x : ℕ) → old x ≡ 3 → bs x ≡ 3
  pub remote_count : count 3 celcnt bs ≡ count 3 celcnt old
  pub in_use : (x : ℕ) → (bs x == 1) ≡ (if cel == x then true else old x == 1)

-- The state bytes after a cell was marked as used and as free.
abbrev twice : (ℕ → ℕ) → ℕ → ℕ → ℕ
twice bs c = update (update bs c 1) c 2

module _ (old : ℕ → ℕ) (reg : Region) (cel : ℕ) (inside : cel < reg.celcnt) where
  gap_step :
      {c pos : ℕ} {bs bn : ℕ → ℕ} (left : ℕ)
      → Gap old reg.celcnt cel c pos bs bn
      → c < cel
      → gap_loop (suc left) c (with_marks reg bs bn) pos []
        ≡ gap_loop left (c + 1) (with_marks reg (twice bs c) (update bn pos c)) (pos + 1) []
  unfolding gap_loop slab_markused markfree
  gap_step {c} {pos} {bs} left g lt =
      let zero_state : (bs c == 0) ≡ true = ground (arith, g.skipped c) in
      let one_state : (update bs c 1 c == 1) ≡ true = ground arith in
      rw (zero_state, one_state) refl

  gap-Gap :
      {c pos : ℕ} {bs bn : ℕ → ℕ}
      → Gap old reg.celcnt cel c pos bs bn
      → c < cel
      → Gap old reg.celcnt cel (c + 1) (pos + 1) (twice bs c) (update bn pos c)
  gap-Gap {c} {pos} {bs} g lt =
      let none_yet : bs c ≡ 0 = g.skipped c (omega arith) lt in
      let two = count-update 2 reg.celcnt bs c 1 (omega arith) in
      let two' = count-update 2 reg.celcnt (update bs c 1) c 2 (omega arith) in
      let three = count-update 3 reg.celcnt bs c 1 (omega arith) in
      let three' = count-update 3 reg.celcnt (update bs c 1) c 2 (omega arith) in
      record {
        fresh = λ x h. ground (arith, g.fresh x h);
        skipped = λ x lo hi. ground (arith, g.skipped x);
        begun = λ x h. ground (arith, g.begun x);
        marked = ground (arith, g.marked);
        bin_list = list_push (list_write c 1 g.bin_list (omega arith)) (omega arith) (ground arith);
        bin_count = ground (arith, g.bin_count, two, two');
        remote = λ x h. ground (arith, g.remote x h);
        remote_count = ground (arith, g.remote_count, three, three');
        in_use = λ x. ground (arith, g.in_use x);
      }

  gap_done :
      (c pos : ℕ) (bs bn : ℕ → ℕ)
      → gap_loop zero c (with_marks reg bs bn) pos [] ≡ (some pos, with_marks reg bs bn, [])
  unfolding gap_loop
  gap_done c pos bs bn = refl

  pub gap_loop_lem :
      (left c pos : ℕ) (bs bn : ℕ → ℕ)
      → Gap old reg.celcnt cel c pos bs bn
      → c + left ≡ cel
      → (pos' : ℕ) × (bs' : ℕ → ℕ) × (bn' : ℕ → ℕ) × (gap_loop left c (with_marks reg bs bn) pos []
          ≡ (some pos', with_marks reg bs' bn', []))
        × Gap old reg.celcnt cel cel pos' bs' bn'
  gap_loop_lem zero c pos bs bn g e =
      let at : c ≡ cel = omega arith in
      (pos, bs, bn, gap_done c pos bs bn, subst (λ d. Gap old reg.celcnt cel d pos bs bn) at g)
  gap_loop_lem (suc left) c pos bs bn g e =
      let (pos', bs', bn', e', g') =
        gap_loop_lem left (c + 1) (pos + 1) (twice bs c) (update bn pos c) (gap-Gap g (omega arith))
          (omega arith) in
      (pos', bs', bn', gap_step left g (omega arith) ∙ e', g')
