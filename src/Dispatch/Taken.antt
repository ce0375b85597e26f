-- ===== src/Dispatch/Taken.antt =====
-- free.h `free_heap`: what each part takes back was in use.
use yalloc.Base.{
  ℕ, ◌+◌, ◌*◌, ◌<◌, ◌&&◌, ◌||◌, not, Option, none, some, List, [], ◌∷◌, ◌++◌, ltb, leb, ◌==◌, arith,
  ◌≡◌, ◌≢◌, ◌⊎◌, inl, inr, refl, sym, subst, ◌∙◌, Bool-cases, update, update_self, Option-cases,
}
use yalloc.Slab.Region.{Region, Diag, HeapStat}
use yalloc.Slab.Marks.{markfree, slab_cel}
use yalloc.Slab.Cells.{slab_frecel}
use yalloc.Slab.Blocks.{slab_free}
use yalloc.Slab.Address.{cel_ip}
use yalloc.Slab.Remote.Buffer.{
  Remote, RemBuf, RemHeap, RemOut, is_same, is_owned, is_none, remote_room, remote_roomed,
  remote_buffer, remote_heap, remote_marked, or_else, rheap_found, slab_free_rheap,
}
use yalloc.Word.{add4, doalign4}
use yalloc.Bump.Region.{BumpRegion, BumpDiag, BumpOut}
use yalloc.Bump.Free.{to_free, bump_cel, bump_found, bump_free}
use yalloc.Dispatch.Live.{
  slab_cel_at, slab_cel_log, IsBumpOr, bump_some, bump_cel_found, bump_cel_log,
}

-- The cell at `ip` was in use, and is in the state `to` now.
pub record SlabTaken (reg reg' : Region) (ip to : ℕ) : Type 0 where
  pub cel : ℕ
  pub at_ip : ip ≡ cel_ip reg cel
  pub lt : cel < reg.celcnt
  pub used : reg.binset cel ≡ 1
  pub gone : reg'.binset cel ≡ to

some_diag : (log : List Diag) (d : Diag) → ◌≢◌ (log ++ (d ∷ [])) []
some_diag [] d e = cc
some_diag (x ∷ log) d e = cc

some_first : (log log' : List Diag) → log' ≢ [] → ◌≢◌ (log ++ log') []
some_first [] log' s = s
some_first (x ∷ log) log' s = λ e. cc

slab_frecel-Taken :
    (hb : HeapStat) (reg : Region) (cel cnt : ℕ)
    → (((slab_frecel hb reg cel cnt).0 ≢ 0)
        × (reg.binset cel ≡ 1)
        × ((slab_frecel hb reg cel cnt).2.binset cel ≡ 2))
      ⊎ (((slab_frecel hb reg cel cnt).0 ≡ 0) × ((slab_frecel hb reg cel cnt).3 ≢ []))
unfolding slab_frecel markfree
slab_frecel-Taken hb reg cel cnt = elim (Bool-cases (leb cnt cel)) [
  | inl out ↦ rw out (inr (refl, λ e. cc))
  | inr inside ↦ elim (Bool-cases (reg.binset cel == 1)) [
    | inl used ↦ elim (Bool-cases (leb cnt reg.binpos)) [
      | inl full ↦ rw (inside, used, full) (inr (refl, λ e. cc))
      | inr room ↦ elim (Bool-cases (leb reg.metautop (reg.meta + (reg.binorg + reg.binpos) * 4))) [
        | inl outside ↦ rw (inside, used, room, outside) (inr (refl, λ e. cc))
        | inr within ↦
            rw (inside, used, room, within)
              (inl (λ e. omega (arith, e), ground (arith, used), update_self reg.binset cel 2))
      ]
    ]
    | inr other ↦ elim (Bool-cases (leb reg.inipos cel)) [
      | inl never ↦ rw (inside, other, never) (inr (refl, λ e. cc))
      | inr begun ↦ elim (Bool-cases ((reg.binset cel == 2) || (reg.binset cel == 3))) [
        | inl twice ↦ rw (inside, other, begun, twice) (inr (refl, λ e. cc))
        | inr bad ↦ rw (inside, other, begun, bad) (inr (refl, λ e. cc))
      ]
    ]
  ]
]

abbrev pub BumpTaken : BumpRegion → BumpRegion → ℕ → ℕ → Type 0
BumpTaken reg reg' ip len =
    (cel : ℕ) × (ip ≡ reg.user + cel * 16)
    × (cel < reg.cnt)
    × (reg.fres cel ≡ 1)
    × (reg'.fres cel ≡ 2)
    × (len ≡ reg.lens cel * 16)

abbrev pub BumpFreed : BumpRegion → ℕ → BumpOut ℕ → Type 0
BumpFreed reg ip (len, reg', log) =
    ((len ≢ 0) × BumpTaken reg reg' ip len) ⊎ ((len ≡ 0) × (log ≢ []))

pub bump_free-Freed :
    (reg : BumpRegion) → IsBumpOr reg → (ip : ℕ) → BumpFreed reg ip (bump_free reg ip to_free)
unfolding bump_free
bump_free-Freed reg v ip = go (bump_cel reg ip) (bump_cel_found reg v ip) (bump_cel_log reg ip)
  where
    go :
        (o : Option ℕ × List BumpDiag)
        → ((cel : ℕ) → o.0 ≡ some cel → (ip ≡ reg.user + cel * 16) × (cel < reg.cnt))
        → (o.0 ≡ none → o.1 ≢ [])
        → BumpFreed reg ip (bump_found reg to_free o)
    go (none, log) found logged = inr (refl, logged refl)
    go (some cel, log) found logged = elim (Bool-cases (reg.fres cel == 1)) [
      | inl used ↦ rw used (
          inl (
            bump_some reg v cel (found cel refl).1 (ground (arith, used)),
            (
              cel,
              (found cel refl).0,
              (found cel refl).1,
              ground (arith, used),
              update_self reg.fres cel 2,
              refl,
            ),
          ))
      | inr other ↦ elim (Bool-cases (reg.fres cel == 2)) [
        | inl twice ↦ rw (other, twice) (inr (refl, λ e. cc))
        | inr bad ↦ rw (other, bad) (inr (refl, λ e. cc))
      ]
    ]

pub slab_free-Taken :
    (hb : HeapStat) (reg : Region) (ip : ℕ)
    → let out = slab_free hb reg ip reg.cellen reg.celcnt in
      ((out.0 ≢ 0) × SlabTaken reg out.2 ip 2) ⊎ ((out.0 ≡ 0) × (out.3 ≢ []))
unfolding slab_free
slab_free-Taken hb reg ip = elim (Option-cases (slab_cel reg ip reg.cellen reg.celcnt).0) [
  | inl e ↦ rw (slab_free, e) (inr (refl, slab_cel_log reg ip e))
  | inr (cel, e) ↦
      let (at_ip, lt) = slab_cel_at reg ip cel e in
      rw (slab_free, e)
        (elim (slab_frecel-Taken hb reg cel reg.celcnt) [
          | inl (some_cnt, used, gone) ↦
              inl (some_cnt, record { cel = cel; at_ip = at_ip; lt = lt; used = used; gone = gone })
          | inr (nothing, logged) ↦ inr (nothing, some_first _ _ logged)
        ])
]

-- Buffering does not change the region.
abbrev Kept : Region → RemOut → Type 0
Kept reg (n, hb, reg', log) = (reg' ≡ reg) × ((n ≡ 0) ⊎ (n ≡ reg.cellen))

module _ (getrbinmem : ℕ → Option (ℕ → ℕ)) (newrem : Option RemBuf) where
  roomed-Kept :
      (hb : RemHeap) (rb : RemBuf) (n : ℕ) (reg : Region) (cel : ℕ) (log : List Diag)
      → (o : Remote × Option (ℕ → ℕ)) → Kept reg (remote_roomed hb rb n reg cel log o)
  roomed-Kept hb rb n reg cel log (remp, none) = (refl, inl refl)
  roomed-Kept hb rb n reg cel log (remp, some bin) =
      elim (Bool-cases ((remp.pos == 0) && is_owned remp.reg)) [
        | inl owned ↦ rw owned (refl, inl refl)
        | inr fresh ↦ elim (Bool-cases (not (remp.pos == 0) && not (is_same remp.reg reg.uid))) [
          | inl other ↦ rw (fresh, other) (refl, inr refl)
          | inr own ↦ rw (fresh, own) (refl, inr refl)
        ]
      ]

  buffer-Kept :
      (hb : RemHeap) (rb : RemBuf) (reg : Region) (cel : ℕ) (log : List Diag)
      → Kept reg (remote_buffer getrbinmem hb rb reg cel log)
  buffer-Kept hb rb reg cel log =
      let n = reg.clas * 32 + reg.claspos in
      elim (Bool-cases ((reg.clas == 0) || leb 100 reg.clas)) [
        | inl bad ↦ rw bad (refl, inl refl)
        | inr clas ↦ elim (Bool-cases (leb 32 reg.claspos)) [
          | inl bad ↦ rw (clas, bad) (refl, inl refl)
          | inr pos ↦ elim (Bool-cases (leb reg.celcnt (rb.rem n).pos)) [
            | inl full ↦ rw (clas, pos, full) (refl, inl refl)
            | inr room ↦ elim (Bool-cases (is_none (rb.rem n).bin && not ((rb.rem n).pos == 0))) [
              | inl no_bin ↦ rw (clas, pos, room, no_bin) (refl, inl refl)
              | inr begun ↦
                  elim (Bool-cases (
                    not (is_none (rb.rem n).bin)
                    && ltb (doalign4 (add4 (rb.rem n).pos 64) 64) (rb.rem n).pos)) [
                      | inl over ↦ rw (clas, pos, room, begun, over) (refl, inl refl)
                      | inr under ↦
                          rw (clas, pos, room, begun, under)
                            (roomed-Kept hb rb n reg cel log (remote_room getrbinmem (rb.rem n)))
                    ]
            ]
          ]
        ]
      ]

  heap-Kept :
      (hb : RemHeap) (reg : Region) (cel : ℕ) (log : List Diag)
      → (o : Option RemBuf) → Kept reg (remote_heap getrbinmem hb reg cel log o)
  heap-Kept hb reg cel log none = (refl, inl refl)
  heap-Kept hb reg cel log (some rb) = elim (Bool-cases (ltb (hb.xfreebuf + 1) hb.xfreebatch)) [
    | inl over ↦ rw over (refl, inl refl)
    | inr under ↦ rw under (buffer-Kept _ rb reg cel log)
  ]

  marked-Kept :
      (hb : RemHeap) (reg : Region) (cel : ℕ) (log : List Diag)
      → Kept reg (remote_marked getrbinmem newrem hb reg cel log)
  marked-Kept hb reg cel log = elim (Bool-cases (leb 64 reg.hid)) [
    | inl far ↦ rw far (refl, inr refl)
    | inr near ↦ rw near (heap-Kept hb reg cel log (or_else (hb.rembufs reg.hid) newrem))
  ]

  abbrev pub RemTaken : Region → ℕ → RemOut → Type 0
  RemTaken reg ip (n, hb, reg', log) = (n ≡ 0) ⊎ ((n ≡ reg.cellen) × SlabTaken reg reg' ip 3)

  kept_lem :
      (reg reg₁ : Region) (ip : ℕ)
      → SlabTaken reg reg₁ ip 3
      → reg₁.cellen ≡ reg.cellen
      → (out : RemOut) → Kept reg₁ out
      → RemTaken reg ip out
  kept_lem reg reg₁ ip t of_len (n, hb, reg', log) (same, inl z) = inl z
  kept_lem reg reg₁ ip t of_len (n, hb, reg', log) (same, inr e) =
      inr (e ∙ of_len, subst (λ r. SlabTaken reg r ip 3) (sym same) t)

  pub slab_free_rheap-Taken :
      (hb : RemHeap) (reg : Region) (ip : ℕ)
      → RemTaken reg ip (slab_free_rheap getrbinmem newrem hb reg ip)
  unfolding slab_free_rheap markfree
  slab_free_rheap-Taken hb reg ip = go (slab_cel reg ip reg.cellen reg.celcnt) (slab_cel_at reg ip)
    where
      go :
          (o : Option ℕ × List Diag)
          → ((cel : ℕ) → o.0 ≡ some cel → (ip ≡ cel_ip reg cel) × (cel < reg.celcnt))
          → RemTaken reg ip (rheap_found getrbinmem newrem hb reg o)
      go (none, log) found = inl refl
      go (some cel, log) found = elim (Bool-cases (reg.binset cel == 1)) [
        | inl used ↦
            let marked : Region = record reg { binset = update reg.binset cel 3 } in
            rw used (
              kept_lem reg marked ip
                (record {
                  cel = cel;
                  at_ip = (found cel refl).0;
                  lt = (found cel refl).1;
                  used = ground (arith, used);
                  gone = update_self reg.binset cel 3;
                })
                refl (remote_marked getrbinmem newrem hb marked cel (log ++ []))
                (marked-Kept hb marked cel (log ++ [])))
        | inr other ↦ elim (Bool-cases (leb reg.inipos cel)) [
          | inl never ↦ rw (other, never) (inl refl)
          | inr begun ↦ elim (Bool-cases ((reg.binset cel == 2) || (reg.binset cel == 3))) [
            | inl twice ↦ rw (other, begun, twice) (inl refl)
            | inr bad ↦ rw (other, begun, bad) (inl refl)
          ]
        ]
      ]
