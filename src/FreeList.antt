-- ===== src/FreeList.antt =====
-- The free lists of regions, region.h and free.h: doubly linked through `frenxt` and `freprv`. A region
-- is named by its number; the two fields of all regions are kept in two tables. `Chain` says what a
-- list is.
pub mod Chain
pub mod Unlink
pub mod Search
pub mod Counted
mod Tests
use yalloc.Base.{ℕ, zero, suc, Option, none, some, Bool, ◌==◌, if◌then◌else◌, update}
use yalloc.Word.{sub4}

pub record Links : Type 0 where
  pub frenxt : ℕ → Option ℕ
  pub freprv : ℕ → Option ℕ

-- `if (i) i->freprv = v`
abbrev pub set_prv : Links → Option ℕ → Option ℕ → Links
set_prv k none v = k
set_prv k (some i) v = record k { freprv = update k.freprv i v }

-- `if (i) i->frenxt = v`
abbrev pub set_nxt : Links → Option ℕ → Option ℕ → Links
set_nxt k none v = k
set_nxt k (some i) v = record k { frenxt = update k.frenxt i v }

-- Put `reg` in front of the list that starts at `preg`: `head = reg; reg->frenxt = preg;
-- reg->freprv = nil; if (preg) preg->freprv = reg;`
unfoldable pub push : Links → Option ℕ → ℕ → Links
push k preg reg =
    set_prv (record { frenxt = update k.frenxt reg preg; freprv = update k.freprv reg none }) preg
      (some reg)

-- Take `reg` out: `if (preg) preg->frenxt = nreg; else head = nreg; if (nreg) nreg->freprv = preg;`
unfoldable pub unlink : Links → ℕ → Links
unlink k reg = set_prv (set_nxt k (k.freprv reg) (k.frenxt reg)) (k.frenxt reg) (k.freprv reg)

-- The head after that.
abbrev pub new_head : Option ℕ → Option ℕ → Option ℕ → Option ℕ
new_head head none nreg = nreg
new_head head (some preg) nreg = head

abbrev pub unlink_head : Links → Option ℕ → ℕ → Option ℕ
unlink_head k head reg = new_head head (k.freprv reg) (k.frenxt reg)

-- `while (ureg && --iter) { if (test) break; ureg = ureg->frenxt; }`, with the number of rounds left:
-- what was found, and `iter`.
unfoldable pub find_fit : (ℕ → Bool) → (ℕ → Option ℕ) → ℕ → ℕ → Option ℕ → Option ℕ × ℕ
find_fit test frenxt zero iter ureg = (none, iter)
find_fit test frenxt (suc left) iter none = (none, iter)
find_fit test frenxt (suc left) iter (some reg) =
    let rest = find_fit test frenxt left (sub4 iter 1) (frenxt reg) in
    if sub4 iter 1 == 0
    then (none, sub4 iter 1)
    else if test reg
    then (some reg, sub4 iter 1)
    else rest
