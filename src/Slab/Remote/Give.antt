-- ===== src/Slab/Remote/Give.antt =====
-- slab.h `slab_free_rheap`: the region when another heap's thread frees a block.
use yalloc.Base.{
  ℕ, ◌+◌, ◌*◌, ◌<◌, ◌≡◌, refl, ◌∙◌, true, false, Option, none, some, List, [], ◌∷◌, ◌==◌,
  if◌then◌else◌, arith, ap, update, ==→eq,
}
use yalloc.Slab.Region.{Region, Diag}
use yalloc.Slab.Marks.{markfree}
use yalloc.Slab.Count.{count-update}
use yalloc.Slab.Valid.{live, IsValid, list_write, remote_write}
use yalloc.Slab.Free.{live-lt-inipos, not_live}
use yalloc.Slab.Address.{IsShaped, cel_ip, slab_cel_lem}
use yalloc.Slab.Remote.Buffer.{
  RemHeap, RemBuf, remote_marked, remote_heap, remote_buffer, remote_roomed, remote_room,
  rheap_found, slab_free_rheap, or_else, Remote,
}

-- The region while a cell waits in another heap's buffer.
abbrev pub given : Region → ℕ → Region
given reg cel = record reg { binset = update reg.binset cel 3 }

-- Buffering a cell does not touch its region.
roomed_reg :
    (hb : RemHeap) (rb : RemBuf) (n : ℕ) (reg : Region) (cel : ℕ) (log : List Diag)
    → (out : Remote × Option (ℕ → ℕ)) → (remote_roomed hb rb n reg cel log out).2 ≡ reg
roomed_reg hb rb n reg cel log (remp, none) = refl
roomed_reg hb rb n reg cel log (remp, some bin) = ground arith

buffer_reg :
    (mem : ℕ → Option (ℕ → ℕ)) (hb : RemHeap) (rb : RemBuf) (reg : Region) (cel : ℕ)
    (log : List Diag)
    → (remote_buffer mem hb rb reg cel log).2 ≡ reg
buffer_reg mem hb rb reg cel log =
    let n = reg.clas * 32 + reg.claspos in
    ground (arith, roomed_reg hb rb n reg cel log (remote_room mem (rb.rem n)))

heap_reg :
    (mem : ℕ → Option (ℕ → ℕ)) (hb : RemHeap) (reg : Region) (cel : ℕ) (log : List Diag)
    → (o : Option RemBuf) → (remote_heap mem hb reg cel log o).2 ≡ reg
heap_reg mem hb reg cel log none = refl
heap_reg mem hb reg cel log (some rb) = grind (arith, buffer_reg)

marked_reg :
    (mem : ℕ → Option (ℕ → ℕ)) (new : Option RemBuf) (hb : RemHeap) (reg : Region) (cel : ℕ)
    → (log : List Diag) → (remote_marked mem new hb reg cel log).2 ≡ reg
marked_reg mem new hb reg cel log =
    ground (arith, heap_reg mem hb reg cel log (or_else (hb.rembufs reg.hid) new))

-- A cell that waits in a buffer counts with those freed from elsewhere.
pub given-IsValid :
    (reg : Region) (cel : ℕ) → IsValid reg → live reg cel ≡ true → IsValid (given reg cel)
given-IsValid reg cel v h =
    let below = live-lt-inipos v cel h in
    let used : reg.binset cel ≡ 1 = ==→eq _ _ h in
    let inside : cel < reg.celcnt = omega (arith, v.inipos_le) in
    let from_two = count-update 2 reg.celcnt reg.binset cel 3 inside in
    let from_three = count-update 3 reg.celcnt reg.binset cel 3 inside in
    record {
      small = v.small;
      inipos_le = v.inipos_le;
      fresh = λ c hc. ground (arith, v.fresh c hc);
      begun = λ c hc. ground (arith, v.begun c hc);
      bin_list = list_write cel 3 v.bin_list (omega arith);
      bin_count = ground (arith, v.bin_count, from_two);
      remote_list = remote_write reg cel 3 (omega arith) v.remote_list;
      remote_count = ground (arith, v.remote_count, from_three);
      referred = v.referred;
      room = v.room;
    }

module _ (reg : Region) (v : IsValid reg) (s : IsShaped reg) (mem : ℕ → Option (ℕ → ℕ))
    (new : Option RemBuf) (hb : RemHeap) (cel : ℕ) where
  found :
      cel < reg.celcnt
      → slab_free_rheap mem new hb reg (cel_ip reg cel) ≡ rheap_found mem new hb reg (some cel, [])
  unfolding slab_free_rheap
  found lt = ap (rheap_found mem new hb reg) (slab_cel_lem reg s cel lt)

  -- When another heap's thread frees a block that is in use, its region stays in order and the cell,
  -- and no other, is out of use: it has the state 3, which slab_newcel() hands out only after the
  -- cell has come back through the remote bin.
  pub free_rheap-given :
      live reg cel ≡ true
      → ((slab_free_rheap mem new hb reg (cel_ip reg cel)).2 ≡ given reg cel)
        × IsValid (given reg cel)
        × ((c : ℕ) → live (given reg cel) c ≡ (if cel == c then false else live reg c))
  unfolding markfree
  free_rheap-given h =
      let below = live-lt-inipos v cel h in
      let used : (reg.binset cel == 1) ≡ true = h in
      let step : rheap_found mem new hb reg (some cel, [])
          ≡ remote_marked mem new hb (given reg cel) cel [] =
        rw used refl in
      (
        ap (λ out. out.2) (found (omega (arith, v.inipos_le)) ∙ step)
            ∙ marked_reg mem new hb (given reg cel) cel [],
        given-IsValid reg cel v h,
        λ c. ground arith,
      )

  -- A block that is not in use is refused from another heap too, and nothing changes: what was freed
  -- before, by whatever heap, is a double free.
  pub free_rheap-dead :
      cel < reg.celcnt
      → live reg cel ≡ false
      → slab_free_rheap mem new hb reg (cel_ip reg cel) ≡ (0, hb, reg, not_live reg cel ∷ [])
  unfolding markfree
  free_rheap-dead lt h =
      let step : rheap_found mem new hb reg (some cel, []) ≡ (0, hb, reg, not_live reg cel ∷ []) =
        ground (arith, v.begun cel) in
      found lt ∙ step
