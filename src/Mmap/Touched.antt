-- ===== src/Mmap/Touched.antt =====
-- A region grows older where it stands.
use yalloc.Base.{ℕ, ◌≤◌, Option, some, List, true, ◌≡◌, ◌≢◌, ◌⊎◌, arith, update, sym, subst, ◌∙◌}
use yalloc.FreeList.{Links}
use yalloc.FreeList.Chain.{has}
use yalloc.Mmap.State.{MpRegion}
use yalloc.Mmap.Valid.{IsWaiting, IsEmptied, IsUnmade, IsAging, IsMp}
use yalloc.Mmap.Memory.{same-IsBlocks}
use yalloc.Mmap.Pushed.{put_case}

-- What a region keeps that only grows older.
pub record Older (old r : MpRegion) : Type 0 where
  pub user : r.user ≡ old.user
  pub len : r.len ≡ old.len
  pub set : r.set ≡ old.set
  pub order : r.order ≡ old.order
  -- it waits as it did before
  pub aged : (r.aged ≡ old.aged) ⊎ ((old.aged ≢ 0) × (old.aged ≢ 3) × (r.aged ≢ 0) × (r.aged ≢ 3))

module _ {regs : ℕ → MpRegion} {k : Links} {heads : ℕ → Option ℕ} {head : Option ℕ} {n : ℕ}
    {but : Option ℕ} {lists : ℕ → List ℕ} {zeros : List ℕ}
    (v : IsMp regs k heads head n but lists zeros) (reg : ℕ) (r : MpRegion) (o : Older (regs reg) r)
    (aging : IsAging r) (made : (regs reg).set ≢ 0) where
  Older-IsWaiting : (ord : ℕ) → IsWaiting ord (regs reg) → IsWaiting ord r
  Older-IsWaiting ord w = record {
    at_order = o.order ∙ w.at_order;
    free = o.set ∙ w.free;
    some_len = λ e. w.some_len (sym o.len ∙ e);
    begun = λ e. ground (arith, o.aged, w.begun, e);
    kept = λ e. ground (arith, o.aged, w.kept, e);
  }

  Older-IsEmptied : IsEmptied (regs reg) → IsEmptied r
  Older-IsEmptied w = record {
    no_len = o.len ∙ w.no_len;
    unused = λ e. w.unused (sym o.set ∙ e);
    over = ground (arith, o.aged, w.over);
  }

  pub touch-IsMp : IsMp (update regs reg r) k heads head n but lists zeros
  touch-IsMp = record {
    sized = v.sized;
    empties = v.empties;
    once = v.once;
    once_empty = v.once_empty;
    waiting = λ ord.
        put_case (λ m x. has (lists ord) m ≡ true → IsWaiting ord x) regs reg r
          (λ on. Older-IsWaiting ord (v.waiting ord reg on)) (λ m ne. v.waiting ord m);
    emptied =
        put_case (λ m x. has zeros m ≡ true → IsEmptied x) regs reg r
          (λ on. Older-IsEmptied (v.emptied reg on)) (λ m ne. v.emptied m);
    made = v.made;
    made_empty = v.made_empty;
    listed = λ q ne begun kept.
        put_case (λ m x. but ≢ some m → x.aged ≢ 0 → x.aged ≢ 3 → has (lists x.order) m ≡ true) regs
          reg r
          (λ ne' b c.
            subst (λ a. has (lists a) reg ≡ true) (sym o.order)
              (v.listed reg ne' (λ e. ground (arith, o.aged, b, e))
                (λ e. ground (arith, o.aged, c, e))))
          (λ m other. v.listed m) q ne begun kept;
    in_use =
        put_case (λ m x. x.set ≡ 1 → x.aged ≡ 0) regs reg r
          (λ e. ground (arith, o.aged, v.in_use reg (sym o.set ∙ e))) (λ m ne. v.in_use m);
    older = put_case (λ m x. IsAging x) regs reg r aging (λ m ne. v.older m);
    unmade =
        put_case (λ m x. n ≤ m → IsUnmade x) regs reg r
          (λ ge. absurd (made (v.unmade reg ge).unset)) (λ m ne. v.unmade m);
    blocks = same-IsBlocks regs v.blocks reg r o.user o.len;
  }
