-- ===== src/ClassRegions/Served.antt =====
-- alloc.h `alloc_heap`: what the slab regions of a class answer.
use native.Mathlib.Decide.{ℕ_discrete}
use yalloc.Base.{
  ℕ, ◌≤◌, ◌<◌, true, false, ◌&&◌, none, some, List, ◌==◌, if◌then◌else◌, arith, ◌≡◌, ◌⊎◌, inl, inr,
  sym, ap, subst, ◌∙◌, update, update_self, update_ne,
}
use yalloc.Slab.Region.{Region, Diag}
use yalloc.Slab.Valid.{live}
use yalloc.Slab.Address.{cel_ip}
use yalloc.Slab.Blocks.{Allocated}
use yalloc.ClassRegions.State.{ClassHeap, Request, Maker, BlockOut}
use yalloc.ClassRegions.Alloc.{after, with_out}
use yalloc.ClassRegions.Valid.{IsOpen, IsOrdered, IsSame, IsBlock}
use yalloc.ClassRegions.Picked.{Before, then-Before}

-- The block at `p` is a cell of at least `len` bytes that was not in use and is now, and no other cell
-- changes.
pub record Served (hb : ClassHeap) (len p : ℕ) (hb' : ClassHeap) : Type 0 where
  pub reg : ℕ
  pub cel : ℕ
  pub lt : reg < hb'.made
  pub at_cel : p ≡ cel_ip (hb'.regs reg) cel
  pub inside : cel < (hb'.regs reg).celcnt
  pub room : len ≤ (hb'.regs reg).cellen
  pub used : live (hb'.regs reg) cel ≡ true
  pub free : reg < hb.made → live (hb.regs reg) cel ≡ false
  pub others :
      (i c : ℕ)
      → i < hb.made
      → live (hb'.regs i) c ≡ (if (reg == i) && (cel == c) then true else live (hb.regs i) c)

-- All regions are in order. Without a block no cell changes, nor with that of malloc(0).
abbrev pub ServedOut : Maker → Request → ClassHeap → BlockOut → Type 0
ServedOut env q hb (none, hb', log) = IsOrdered hb' × Before hb hb'
ServedOut env q hb (some p, hb', log) =
    IsOrdered hb' × (((p ≡ env.zeroblock) × Before hb hb') ⊎ Served hb q.len p hb')

-- What came before does not matter, if no cell changed.
later-Served :
    {hb hb₁ hb' : ClassHeap} {len p : ℕ}
    → Before hb hb₁
    → Served hb₁ len p hb'
    → Served hb len p hb'
later-Served {hb} {hb₁} {hb'} b s = record {
  reg = s.reg;
  cel = s.cel;
  lt = s.lt;
  at_cel = s.at_cel;
  inside = s.inside;
  room = s.room;
  used = s.used;
  free = λ lt. sym (b.same s.reg s.cel lt) ∙ s.free (omega (arith, b.more, lt));
  others = λ i c lt.
      subst (λ x. live (hb'.regs i) c ≡ (if (s.reg == i) && (s.cel == c) then true else x))
        (b.same i c lt) (s.others i c (omega (arith, b.more, lt)));
}

pub later-ServedOut :
    (env : Maker) (q : Request) (hb hb₁ : ClassHeap)
    → Before hb hb₁
    → (out : BlockOut) → ServedOut env q hb₁ out
    → ServedOut env q hb out
later-ServedOut env q hb hb₁ b (none, hb', log) (o, b') = (o, then-Before b b')
later-ServedOut env q hb hb₁ b (some p, hb', log) (o, inl (e, b')) = (o, inl (e, then-Before b b'))
later-ServedOut env q hb hb₁ b (some p, hb', log) (o, inr s) = (o, inr (later-Served b s))

pub after-ServedOut :
    (env : Maker) (q : Request) (hb : ClassHeap) (log : List Diag) (out : BlockOut)
    → ServedOut env q hb out
    → ServedOut env q hb (after log out)
after-ServedOut env q hb log (none, hb', log') s = s
after-ServedOut env q hb log (some p, hb', log') s = s

-- One region is written.
module _ (hb : ClassHeap) (o : IsOrdered hb) (i : ℕ) (lt : i < hb.made) (out : Allocated) where
  pub written-IsOrdered : IsOpen out.reg → IsOrdered (with_out hb i out)
  written-IsOrdered is_open = record {
    opened = λ j lt'. elim (ℕ_discrete i j) [
      | yes e ↦
          subst (λ k. IsOpen (update hb.regs i out.reg k)) e
            (subst IsOpen (sym (update_self hb.regs i out.reg)) is_open)
      | no ne ↦ subst IsOpen (sym (update_ne hb.regs out.reg ne)) (o.opened j lt')
    ];
    entered = o.entered;
  }

  pub written-Before : IsSame (hb.regs i) out.reg → Before hb (with_out hb i out)
  written-Before same = record {
    more = omega arith;
    same = λ j c lt'. elim (ℕ_discrete i j) [
      | yes e ↦
          subst (λ k. live (update hb.regs i out.reg k) c ≡ live (hb.regs k) c) e
            (ap (λ (r : Region). live r c) (update_self hb.regs i out.reg) ∙ same c)
      | no ne ↦ ap (λ (r : Region). live r c) (update_ne hb.regs out.reg ne)
    ];
    unused = λ j c ge lt'. absurd (omega (arith, ge, lt'));
  }

  pub written-Served :
      (len p : ℕ)
      → len ≤ (hb.regs i).cellen
      → IsBlock (hb.regs i) out.reg p
      → Served hb len p (with_out hb i out)
  written-Served len p room b =
      let at = update_self hb.regs i out.reg in
      record {
        reg = i;
        cel = b.cel;
        lt = lt;
        at_cel = subst (λ (r : Region). p ≡ cel_ip r b.cel) (sym at) b.at_cel;
        inside = subst (λ (r : Region). b.cel < r.celcnt) (sym at) b.inside;
        room = subst (λ (r : Region). len ≤ r.cellen) (sym at) (omega (arith, room, b.of_cellen));
        used = subst (λ (r : Region). live r b.cel ≡ true) (sym at) (ground (arith, b.marks b.cel));
        free = λ lt'. b.free;
        others = λ j c lt'. elim (ℕ_discrete i j) [
          | yes e ↦
              let test : (i == j) ≡ true = ground (arith, e) in
              subst
                (λ k.
                  live (update hb.regs i out.reg k) c
                  ≡ (if (i == j) && (b.cel == c) then true else live (hb.regs k) c))
                e
                (subst
                  (λ t.
                    live (update hb.regs i out.reg i) c
                    ≡ (if t && (b.cel == c) then true else live (hb.regs i) c))
                  (sym test) (ap (λ (r : Region). live r c) at ∙ b.marks c))
          | no ne ↦
              let test : (i == j) ≡ false = ground (arith, ne) in
              subst
                (λ t.
                  live (update hb.regs i out.reg j) c
                  ≡ (if t && (b.cel == c) then true else live (hb.regs j) c))
                (sym test) (ap (λ (r : Region). live r c) (update_ne hb.regs out.reg ne))
        ];
      }
