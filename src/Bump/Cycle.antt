-- ===== src/Bump/Cycle.antt =====
-- bump.h `bumpalloc`, `bump_free`: a block is taken back once, at its own address, with its length.
use yalloc.Base.{
  ℕ, ◌+◌, ◌-◌, ◌*◌, ◌/◌, ◌%◌, ◌≤◌, ◌<◌, [], ◌∷◌, update_self, update_ne, arith, ◌≡◌, inl, inr, ◌∙◌,
  subst,
}
use yalloc.Bump.Region.{BumpRegion, already_freed}
use yalloc.Bump.Free.{to_free, bump_free}
use yalloc.Bump.Valid.{next_cel, IsBump}
use yalloc.Bump.Laws.{Carved}
use yalloc.Bump.Release.{bump_free_lem, freed}

-- bump_free() of a block in use.
free-in_use :
    (reg : BumpRegion)
    → IsBump reg
    → (cel : ℕ) → cel < reg.cnt
    → reg.fres cel ≡ 1
    → (bump_free reg (reg.user + cel * 16) to_free ≡ (reg.lens cel * 16, freed reg cel, []))
      × IsBump (freed reg cel)
free-in_use reg v cel lt used = elim (bump_free_lem reg v cel lt) [
  | inl (came, one, v') ↦ (came, v')
  | inr (inl (came, two)) ↦ absurd (omega (arith, used, two))
  | inr (inr (came, none_yet)) ↦ absurd (omega (arith, used, none_yet))
]

-- bump_free() of a block that was freed.
free-twice :
    (reg : BumpRegion)
    → IsBump reg
    → (cel : ℕ) → cel < reg.cnt
    → reg.fres cel ≡ 2
    → bump_free reg (reg.user + cel * 16) to_free ≡ (0, reg, already_freed cel ∷ [])
free-twice reg v cel lt two = elim (bump_free_lem reg v cel lt) [
  | inl (came, one, v') ↦ absurd (omega (arith, one, two))
  | inr (inl (came, e)) ↦ came
  | inr (inr (came, none_yet)) ↦ absurd (omega (arith, two, none_yet))
]

-- A block of `len` bytes that was cut from a region in order is freed at its address and with its
-- length, which leaves the region in order and the blocks before it as they were. To free it again is
-- an error and changes nothing.
pub bump_free-Carved :
    (reg : BumpRegion) (len align ip : ℕ) (reg' : BumpRegion)
    → 0 < len
    → len % 16 ≡ 0
    → Carved reg len align ip reg'
    → (cel : ℕ) × (reg'' : BumpRegion) × (bump_free reg' ip to_free ≡ (len, reg'', []))
      × IsBump reg''
      × (bump_free reg'' ip to_free ≡ (0, reg'', already_freed cel ∷ []))
      × ((c : ℕ) → c < next_cel reg → (reg''.fres c ≡ reg.fres c) × (reg''.lens c ≡ reg.lens c))
bump_free-Carved reg len align ip reg' some_len whole c =
    let cel = (ip - reg.user) / 16 in
    let v = c.valid in
    let ip_cel : reg'.user + cel * 16 ≡ ip =
      omega (arith, c.at_user, c.above, c.below, v.aligned, whole) in
    let in_reg : cel < reg'.cnt =
      omega
        (arith, v.whole, c.same_len, c.at_user, c.above, c.below, c.bounded, v.within, some_len) in
    let (came, v') = free-in_use reg' v cel in_reg c.in_use in
    let again = free-twice (freed reg' cel) v' cel in_reg (update_self reg'.fres cel 2) in
    let before : next_cel reg ≤ cel = omega (arith, c.above) in
    (
      cel,
      freed reg' cel,
      subst (λ n. bump_free reg' n to_free ≡ (len, freed reg' cel, [])) ip_cel
          (subst (λ n. bump_free reg' (reg'.user + cel * 16) to_free ≡ (n, freed reg' cel, []))
            c.size came),
      v',
      subst
          (λ n. bump_free (freed reg' cel) n to_free ≡ (0, freed reg' cel, already_freed cel ∷ []))
          ip_cel again,
      λ d h. (update_ne reg'.fres 2 (omega arith) ∙ (c.others d h).0, (c.others d h).1),
    )
