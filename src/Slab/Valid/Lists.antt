-- ===== src/Slab/Valid/Lists.antt =====
-- Lists of cells under a write of one state byte, a push and a pop.
use yalloc.Base.{
  ◌⊎◌, inl, inr, ℕ, ◌+◌, ◌≤◌, ◌<◌, ◌≡◌, ◌≢◌, Option, none, some, update, update_ne, arith, ◌∙◌,
}
use yalloc.Slab.Region.{Region}
use yalloc.Slab.Valid.Defs.{IsListOf, IsRemoteBin}

module _ {s inipos : ℕ} {binset : ℕ → ℕ} {n : ℕ} {list : ℕ → ℕ} where
  -- A cell that is in another state is not on the list.
  list_apart :
      {cel : ℕ} → IsListOf s inipos binset n list → binset cel ≢ s → (i : ℕ) → i < n → cel ≢ list i
  list_apart l ne i h e = ne (rw e (l.status i h))

  pub list_write :
      (cel to : ℕ)
      → IsListOf s inipos binset n list
      → binset cel ≢ s
      → IsListOf s inipos (update binset cel to) n list
  list_write cel to l ne = record {
    started = l.started;
    status = λ i h. update_ne binset to (list_apart l ne i h) ∙ l.status i h;
    distinct = l.distinct;
  }

  pub list_push :
      {cel : ℕ}
      → IsListOf s inipos binset n list
      → cel < inipos
      → binset cel ≢ s
      → IsListOf s inipos (update binset cel s) (n + 1) (update list n cel)
  list_push {cel} l below ne = record {
    started = λ i h. ground (arith, l.started i);
    status = λ i h. ground (arith, l.status i);
    distinct = λ i j hi hj e. ground (arith, list_apart l ne i, list_apart l ne j, l.distinct i j);
  }

  -- The entries below `m` without the entry `m` itself, which is written over.
  pub list_pop :
      {m : ℕ} (to v : ℕ)
      → IsListOf s inipos binset n list
      → m + 1 ≡ n
      → IsListOf s inipos (update binset (list m) to) m (update list m v)
  list_pop {m} to v l e = record {
    started = λ i h. ground (arith, l.started i);
    status = λ i h. ground (arith, l.status i, l.distinct m i);
    distinct = λ i j hi hj e'. ground (arith, l.distinct i j);
  }

  pub list_grow :
      {inipos' : ℕ}
      → IsListOf s inipos binset n list
      → inipos ≤ inipos'
      → IsListOf s inipos' binset n list
  list_grow l le = record {
    started = λ i h. omega (arith, l.started i h);
    status = l.status;
    distinct = l.distinct;
  }

-- The remote bin under a write of the state byte of a cell that is in use.
pub remote_write :
    (reg : Region) (cel to : ℕ)
    → reg.binset cel ≢ 3
    → IsRemoteBin reg reg.rembin
    → IsRemoteBin (record reg { binset = update reg.binset cel to }) reg.rembin
remote_write reg cel to ne h = go reg.rembin h
  where
    go :
        (o : Option (ℕ → ℕ))
        → IsRemoteBin reg o
        → IsRemoteBin (record reg { binset = update reg.binset cel to }) o
    go none h = h
    go (some rbin) h = (list_write cel to h.0 ne, h.1)

-- The remote bin when the next cell that was never allocated gets its first state.
pub remote_begin :
    (reg : Region) (to : ℕ)
    → reg.binset reg.inipos ≡ 0
    → IsRemoteBin reg reg.rembin
    → IsRemoteBin
        (record reg { binset = update reg.binset reg.inipos to; inipos = reg.inipos + 1 })
        reg.rembin
remote_begin reg to e h = go reg.rembin h
  where
    go :
        (o : Option (ℕ → ℕ))
        → IsRemoteBin reg o
        → IsRemoteBin
            (record reg { binset = update reg.binset reg.inipos to; inipos = reg.inipos + 1 })
            o
    go none h = h
    go (some rbin) h = (list_write reg.inipos to (list_grow h.0 (omega arith)) (omega arith), h.1)

-- A remote bin without entries.
pub empty_remote :
    (o : Option (ℕ → ℕ)) (reg : Region)
    → (o ≡ none) ⊎ (0 < reg.rbinlen)
    → reg.rbinpos ≡ 0
    → IsRemoteBin reg o
empty_remote none reg e z = z
empty_remote (some rbin) reg (inl e) z = cc
empty_remote (some rbin) reg (inr some_len) z = (
  record {
    started = λ i h. absurd (omega (arith, z, h));
    status = λ i h. absurd (omega (arith, z, h));
    distinct = λ i j h. absurd (omega (arith, z, h));
  },
  omega (arith, z, some_len),
)
