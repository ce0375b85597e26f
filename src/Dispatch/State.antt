-- ===== src/Dispatch/State.antt =====
-- yalloc.c `struct st_heap`, `struct st_heapdesc`, as far as size.h and free.h use them. A region is named
-- in the directory of its heap by a number, in the global one by a number that leads to its heap and
-- its name there.
use yalloc.Base.{ℕ, ◌+◌, ◌-◌, ◌/◌, ◌%◌, Bool, Option, List, [], ◌∷◌, ◌==◌, if◌then◌else◌, update}
use yalloc.Slab.Region.{Region, Diag, HeapStat}
use yalloc.Slab.Remote.Buffer.{RemBuf, RemHeap}
use yalloc.Bump.Region.{BumpRegion, BumpDiag}
use yalloc.Directory.Tree.{Dirs}
use yalloc.Directory.Find.{FindDiag, findregion}
use yalloc.Mmap.State.{MpHeap, Sys, MpDiag}

-- A region of a heap, by its kind and number.
pub data RegName : Type 0 where
  slab_reg bump_reg mmap_reg : ℕ → RegName

-- Those of large blocks have odd numbers, `mp_id`.
abbrev pub reg_name : ℕ → RegName
reg_name n =
    if n % 2 == 1
    then mmap_reg ((n - 3) / 2)
    else if n % 4 == 0
    then slab_reg (n / 4)
    else bump_reg (n / 4)

pub record Heap : Type 0 where
  -- the regions of large blocks, and the directory
  pub mp : MpHeap
  pub slabs : ℕ → Region
  pub bumpregs : ℕ → BumpRegion
  pub slab_stat : HeapStat
  pub rem : RemHeap
  pub clasmsk : ℕ → ℕ
  pub claspos : ℕ → ℕ
  pub mapfrees : ℕ
  pub lock : ℕ

-- `struct st_heapdesc`, what a thread has. `is_private`: `tidstate == Ts_private`.
pub record HeapDesc : Type 0 where
  pub hb : Option ℕ
  pub mhb : Option ℕ
  pub locked : Bool
  pub is_private : Bool
  pub free0s : ℕ
  pub invalid_frees : ℕ
  pub xmapfrees : ℕ

-- Where a pointer of the global directory leads.
pub data Place : Type 0 where
  in_heap : ℕ → RegName → Place
  in_mini : ℕ → Place

pub record Heaps : Type 0 where
  pub hd : HeapDesc
  pub heaps : ℕ → Heap
  pub minis : ℕ → BumpRegion
  pub global_dirs : Dirs
  pub at : ℕ → Place

-- The address of the block for malloc(0), and what is asked for on the way: memory, the heap that
-- heap_new() answers, and a new buffer.
pub record Env : Type 0 where
  pub sys : Sys
  pub zeroblock : ℕ
  pub heap_new : Option ℕ
  pub getrbinmem : ℕ → Option (ℕ → ℕ)
  pub newrem : Option RemBuf
  -- what do_ylog() answers for an error: 0, or the length of the text
  pub ylog : ℕ

pub data HeapDiag : Type 0 where
  of_find : FindDiag → HeapDiag
  of_slab : Diag → HeapDiag
  of_bump : BumpDiag → HeapDiag
  of_mmap : MpDiag → HeapDiag
  out_of_range : ℕ → HeapDiag
  page_zero : ℕ → HeapDiag
  unallocated : ℕ → HeapDiag
  not_allocated : ℕ → HeapDiag
  invalid_free : ℕ → HeapDiag
  double_free : ℕ → HeapDiag
  unknown_type : HeapDiag
  assertion : HeapDiag

abbrev pub map_log {ℓ} : {A : Type ℓ} → (A → HeapDiag) → List A → List HeapDiag
map_log f [] = []
map_log f (x ∷ l) = f x ∷ map_log f l

abbrev pub reg_user : Heap → RegName → ℕ
reg_user h (slab_reg i) = (h.slabs i).user
reg_user h (bump_reg i) = (h.bumpregs i).user
reg_user h (mmap_reg i) = (h.mp.regs i).user

abbrev pub reg_len : Heap → RegName → ℕ
reg_len h (slab_reg i) = (h.slabs i).len
reg_len h (bump_reg i) = (h.bumpregs i).len
reg_len h (mmap_reg i) = (h.mp.regs i).len

-- findregion() in a heap.
abbrev pub find_local : Heap → ℕ → Option ℕ × List FindDiag
find_local h ip =
    findregion (λ n. reg_user h (reg_name n)) (λ n. reg_len h (reg_name n)) h.mp.dirs ip

abbrev pub place_user : Heaps → Place → ℕ
place_user st (in_heap h name) = reg_user (st.heaps h) name
place_user st (in_mini i) = (st.minis i).user

abbrev pub place_len : Heaps → Place → ℕ
place_len st (in_heap h name) = reg_len (st.heaps h) name
place_len st (in_mini i) = (st.minis i).len

-- findgregion(): in the global directory. What it reports of an address outside of the address space is left
-- out, as its callers here refuse such an address before.
unfoldable pub findgregion : Heaps → ℕ → Option ℕ × List FindDiag
findgregion st ip =
    findregion (λ n. place_user st (st.at n)) (λ n. place_len st (st.at n)) st.global_dirs ip

abbrev pub put_heap : Heaps → ℕ → Heap → Heaps
put_heap st h x = record st { heaps = update st.heaps h x }

abbrev pub invalid : Heaps → Heaps
invalid st = record st { hd = record (st.hd) { invalid_frees = st.hd.invalid_frees + 1 } }

-- The result, the heaps after it, and what was reported. A length is none for `Nolen`.
abbrev pub HeapOut : Type 0 → Type 0
HeapOut A = A × Heaps × List HeapDiag
