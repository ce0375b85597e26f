-- ===== src/SizeClass/Spec.antt =====
-- What a size class is: four to a power of two.
use yalloc.Base.{ℕ, ◌+◌, ◌-◌, ◌*◌, ◌^◌, ◌≤◌, ◌≡◌}

-- The class number and the block length of `q` eighths of `2 ^ ord`, with `q` from 4 to 8.
pub record IsClass (clas alen : ℕ) : Type 0 where
  pub ord : ℕ
  pub q : ℕ
  pub ord_lo : 7 ≤ ord
  pub ord_hi : ord ≤ 31
  pub q_lo : 4 ≤ q
  pub q_hi : q ≤ 8
  pub alen_eq : alen ≡ q * 2 ^ (ord - 3)
  pub clas_eq : clas + 25 ≡ ord * 4 + q
