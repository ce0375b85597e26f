-- ===== src/Dispatch/Sized.antt =====
-- size.h `size_heap`: the search for the region, on all paths.
use yalloc.Base.{ℕ, ◌≡◌, ◌⊎◌}
use yalloc.Dispatch.State.{Place, Heaps, Env}
use yalloc.Dispatch.Live.{IsLive, IsBumpOr}

-- The bump regions are in order or have no memory.
pub record IsBumps (st : Heaps) : Type 0 where
  pub of_heaps : (h i : ℕ) → IsBumpOr ((st.heaps h).bumpregs i)
  pub of_minis : (i : ℕ) → IsBumpOr (st.minis i)

-- An address has the length 0 if it is that of the block for malloc(0), or that of a block in use.
abbrev pub HasLength : Env → Heaps → ℕ → ℕ → Type 0
HasLength env st ip len = ((ip ≡ env.zeroblock) × (len ≡ 0)) ⊎ ((at : Place) × IsLive st at ip len)
