-- ===== src/Dispatch/Live.antt =====
-- size.h `size_heap`: only an address of a block in use has a length.
use yalloc.Base.{
  ℕ, ◌+◌, ◌-◌, ◌*◌, ◌%◌, ◌^◌, ◌≤◌, ◌<◌, not, Option, none, some, List, [], ◌∷◌, ◌++◌, ltb, ◌==◌,
  arith, ◌≡◌, ◌≢◌, ◌⊎◌, inl, inr, refl, Bool-cases,
}
use yalloc.Word.Masks.{bit_and_low}
use yalloc.Slab.Region.{Region, Diag}
use yalloc.Slab.Marks.{slab_cel, slab_chkfree}
use yalloc.Slab.Address.{cel_ip}
use yalloc.Bump.Region.{BumpRegion, BumpDiag, never_allocated, bad_status}
use yalloc.Directory.Tree.{Dirs}
use yalloc.Directory.Find.{findregion}
use yalloc.Bump.Valid.{IsBump}
use yalloc.Bump.Free.{to_size, bump_cel, bump_found, bump_free}
use yalloc.Mmap.State.{MpRegion}
use yalloc.Mmap.New.{is_mmap}
use yalloc.Dispatch.State.{
  slab_reg, bump_reg, mmap_reg, Place, in_heap, in_mini, Heaps, HeapDiag, of_slab, of_bump, map_log,
}
use yalloc.Dispatch.Size.{PtrInfo, SizeOut, size_slab, size_bump, slab_sized, bump_sized, size_mmap}

-- `cel` is in use, and `ip` its address.
pub record SlabLive (reg : Region) (ip len : ℕ) : Type 0 where
  pub cel : ℕ
  pub at_ip : ip ≡ cel_ip reg cel
  pub lt : cel < reg.celcnt
  pub used : reg.binset cel ≡ 1
  pub of_len : len ≡ reg.cellen

pub record BumpLive (reg : BumpRegion) (ip len : ℕ) : Type 0 where
  pub cel : ℕ
  pub at_ip : ip ≡ reg.user + cel * 16
  pub lt : cel < reg.cnt
  pub used : reg.fres cel ≡ 1
  pub of_len : len ≡ reg.lens cel * 16

-- The address is on the pages of the block, or at its end.
pub record MmapLive (r : MpRegion) (ip len : ℕ) : Type 0 where
  pub from : r.user ≤ ip
  pub to : ip ≤ r.user + r.len
  pub used : r.set ≡ 1
  pub of_len : len ≡ r.len - r.align

abbrev pub IsLive : Heaps → Place → ℕ → ℕ → Type 0
IsLive st (in_mini i) ip len = BumpLive (st.minis i) ip len
IsLive st (in_heap h (slab_reg i)) ip len = SlabLive ((st.heaps h).slabs i) ip len
IsLive st (in_heap h (bump_reg i)) ip len = BumpLive ((st.heaps h).bumpregs i) ip len
IsLive st (in_heap h (mmap_reg i)) ip len = MmapLive ((st.heaps h).mp.regs i) ip len

-- The bump regions are in order or have no memory.
abbrev pub IsBumpOr : BumpRegion → Type 0
IsBumpOr reg = IsBump reg ⊎ (reg.cnt ≡ 0)

pub slab_cel_at :
    (reg : Region) (ip cel : ℕ)
    → (slab_cel reg ip reg.cellen reg.celcnt).0 ≡ some cel
    → (ip ≡ cel_ip reg cel) × (cel < reg.celcnt)
unfolding slab_cel
slab_cel_at reg ip cel e = ground (arith, e)

pub slab_cel_log :
    (reg : Region) (ip : ℕ)
    → (slab_cel reg ip reg.cellen reg.celcnt).0 ≡ none
    → ◌≢◌ (slab_cel reg ip reg.cellen reg.celcnt).1 []
unfolding slab_cel
slab_cel_log reg ip e = ground (arith, e)

pub bump_cel_found :
    (reg : BumpRegion)
    → IsBumpOr reg
    → (ip cel : ℕ) → (bump_cel reg ip).0 ≡ some cel
    → (ip ≡ reg.user + cel * 16) × (cel < reg.cnt)
unfolding bump_cel
bump_cel_found reg (inr no_cells) ip cel e = ground (arith, e, no_cells)
bump_cel_found reg (inl v) ip cel e =
    ground (arith, e, bit_and_low 4 ((ip - reg.user) % 2 ^ 32), v.whole, v.small, v.space, v.used)

-- A block in use is not empty.
pub bump_some :
    (reg : BumpRegion)
    → IsBumpOr reg
    → (cel : ℕ) → cel < reg.cnt
    → reg.fres cel ≡ 1
    → reg.lens cel * 16 ≢ 0
bump_some reg (inl b) cel lt used e =
    omega (arith, (b.inside cel (λ x. omega (arith, used, x))).0, e)
bump_some reg (inr no_cells) cel lt used e = omega (arith, lt, no_cells)

pub bump_cel_log :
    (reg : BumpRegion) (ip : ℕ) → (bump_cel reg ip).0 ≡ none → ◌≢◌ (bump_cel reg ip).1 []
unfolding bump_cel
bump_cel_log reg ip e = ground (arith, e)

pub map_log_some : {A : Type 0} (f : A → HeapDiag) (l : List A) → l ≢ [] → map_log f l ≢ []
map_log_some f [] some_log = absurd (some_log refl)
map_log_some f (x ∷ l) some_log = λ e. cc

pub append_some : (l l' : List HeapDiag) → ◌≢◌ l' [] → ◌≢◌ (l ++ l') []
append_some [] l' some_log = some_log
append_some (x ∷ l) l' some_log = λ e. cc

append_first : (l l' : List HeapDiag) → ◌≢◌ l [] → ◌≢◌ (l ++ l') []
append_first [] l' some_log = absurd (some_log refl)
append_first (x ∷ l) l' some_log = λ e. cc

-- A length is that of a block in use, or, with a report, what do_ylog() answers and not 0. None comes
-- with a report.
abbrev pub Sized : ℕ → (ℕ → Type 0) → SizeOut → Type 0
Sized logged P (some len, pi, log) = P len ⊎ ((len ≡ logged) × (len ≢ 0) × (log ≢ []))
Sized logged P (none, pi, log) = log ≢ []

pub size_slab-Sized :
    (logged : ℕ) (creg : Region) (at : Place) (ip : ℕ) (pi : PtrInfo)
    → Sized logged (SlabLive creg ip) (size_slab creg at ip pi)
unfolding size_slab slab_chkfree
size_slab-Sized logged creg at ip pi =
    go (slab_cel creg ip creg.cellen creg.celcnt) (slab_cel_at creg ip) (slab_cel_log creg ip)
  where
    go :
        (o : Option ℕ × List Diag)
        → ((cel : ℕ) → o.0 ≡ some cel → (ip ≡ cel_ip creg cel) × (cel < creg.celcnt))
        → (o.0 ≡ none → o.1 ≢ [])
        → Sized logged (SlabLive creg ip) (slab_sized creg at ip pi o)
    go (none, log) found fail = map_log_some of_slab log (fail refl)
    go (some cel, log) found fail = elim (Bool-cases (creg.binset cel == 1)) [
      | inl used ↦ rw used (
          inl (record {
            cel = cel;
            at_ip = (found cel refl).0;
            lt = (found cel refl).1;
            used = ground (arith, used);
            of_len = refl;
          }))
      | inr free ↦ rw free (append_some (map_log of_slab log) _ (λ x. cc))
    ]

pub size_bump-Sized :
    (logged : ℕ) (reg : BumpRegion)
    → IsBumpOr reg
    → (at : Place) (ip : ℕ) (pi : PtrInfo)
    → Sized logged (BumpLive reg ip) (size_bump logged reg at ip pi)
unfolding size_bump bump_free
size_bump-Sized logged reg v at ip pi =
    go (bump_cel reg ip) (bump_cel_found reg v ip) (bump_cel_log reg ip)
  where
    failed :
        (d : BumpDiag) → Sized logged (BumpLive reg ip) (bump_sized at pi (logged, reg, d ∷ []))
    failed d = elim (Bool-cases (logged == 0)) [
      | inl nothing ↦ rw nothing (λ e. cc)
      | inr text ↦ rw text (inr (refl, ground (arith, text), λ e. cc))
    ]

    go :
        (o : Option ℕ × List BumpDiag)
        → ((cel : ℕ) → o.0 ≡ some cel → (ip ≡ reg.user + cel * 16) × (cel < reg.cnt))
        → (o.0 ≡ none → o.1 ≢ [])
        → Sized logged (BumpLive reg ip) (bump_sized at pi (bump_found reg (to_size logged) o))
    go (none, log) found fail = map_log_some of_bump log (fail refl)
    go (some cel, log) found fail = elim (Bool-cases (reg.fres cel == 1)) [
      | inl used ↦ elim (Bool-cases (reg.lens cel * 16 == 0)) [
        | inl empty ↦
            absurd (
              bump_some reg v cel (found cel refl).1 (ground (arith, used)) (ground (arith, empty)))
        | inr full ↦
            rw (used, full)
              (inl (record {
                cel = cel;
                at_ip = (found cel refl).0;
                lt = (found cel refl).1;
                used = ground (arith, used);
                of_len = refl;
              }))
      ]
      | inr other ↦ elim (Bool-cases (reg.fres cel == 0)) [
        | inl never ↦ rw (other, never) (failed (never_allocated cel))
        | inr freed ↦ elim (Bool-cases (reg.fres cel == 2)) [
          | inl twice ↦ rw (other, freed, twice) (λ e. cc)
          | inr bad ↦ rw (other, freed, bad) (failed (bad_status cel (reg.fres cel)))
        ]
      ]
    ]

pub size_mmap-Sized :
    (logged : ℕ) (r : MpRegion) (at : Place) (ip : ℕ) (pi : PtrInfo)
    → r.user ≤ ip
    → ip ≤ r.user + r.len
    → Sized logged (MmapLive r ip) (size_mmap r at ip pi)
unfolding size_mmap
size_mmap-Sized logged r at ip pi from to = elim (Bool-cases (not (is_mmap r.typ))) [
  | inl other ↦ rw other (λ e. cc)
  | inr of_mmap ↦ elim (Bool-cases (r.len == 0)) [
    | inl empty ↦ rw (of_mmap, empty) (λ e. cc)
    | inr full ↦ elim (Bool-cases (ltb r.len r.ulen)) [
      | inl over ↦ rw (of_mmap, full, over) (λ e. cc)
      | inr under ↦ elim (Bool-cases (ltb r.len r.align)) [
        | inl over ↦ rw (of_mmap, full, under, over) (λ e. cc)
        | inr within ↦ elim (Bool-cases (not (r.set == 1))) [
          | inl free ↦ rw (of_mmap, full, under, within, free) (λ e. cc)
          | inr used ↦
              rw (of_mmap, full, under, within, used)
                (inl (record { from = from; to = to; used = ground (arith, used); of_len = refl }))
        ]
      ]
    ]
  ]
]

-- What findregion() accepts is from the base to the end of the region.
pub findregion-range :
    (user len : ℕ → ℕ) (dirs : Dirs) (ip n : ℕ)
    → (findregion user len dirs ip).0 ≡ some n
    → (user n ≤ ip) × (ip ≤ user n + len n)
unfolding findregion
findregion-range user len dirs ip n e = ground (arith, e)
