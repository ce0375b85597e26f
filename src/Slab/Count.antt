-- ===== src/Slab/Count.antt =====
-- How many of the first `n` cells are in a state, and how a write changes that.
use native.Mathlib.Decide.{dec_lt}
use yalloc.Base.{ℕ, zero, suc, ◌+◌, ◌≤◌, ◌<◌, ◌≡◌, refl, ◌≢◌, ◌==◌, if◌then◌else◌, update, arith}

unfoldable pub count : ℕ → ℕ → (ℕ → ℕ) → ℕ
count s zero f = 0
count s (suc n) f = count s n f + (if f n == s then 1 else 0)

count-update_of_le :
    (s n : ℕ) (f : ℕ → ℕ) (i v : ℕ) → n ≤ i → count s n (update f i v) ≡ count s n f
unfolding count
count-update_of_le s zero f i v h = refl
count-update_of_le s (suc n) f i v h = ground (arith, count-update_of_le s n f i v)

-- A write moves one cell from the state it was in to the state written.
pub count-update :
    (s n : ℕ) (f : ℕ → ℕ) (i v : ℕ)
    → i < n
    → count s n (update f i v) + (if f i == s then 1 else 0)
      ≡ count s n f + (if v == s then 1 else 0)
unfolding count
count-update s zero f i v h = absurd (omega arith)
count-update s (suc n) f i v h = elim (dec_lt i n) [
  | yes below ↦ ground (arith, count-update s n f i v below)
  | no last ↦ let e : i ≡ n = omega arith in rw e (ground (arith, count-update_of_le s n f n v))
]

-- Distinct states share no cell.
pub count-add-le : (s t n : ℕ) (f : ℕ → ℕ) → s ≢ t → count s n f + count t n f ≤ n
unfolding count
count-add-le s t zero f ne = omega arith
count-add-le s t (suc n) f ne = ground (arith, count-add-le s t n f)

count_le : (s n : ℕ) (f : ℕ → ℕ) → count s n f ≤ n
unfolding count
count_le s zero f = omega arith
count_le s (suc n) f = ground (arith, count_le s n f)

-- A cell in a state counts.
pub count_pos : (s n : ℕ) (f : ℕ → ℕ) (i : ℕ) → i < n → f i ≡ s → 0 < count s n f
unfolding count
count_pos s zero f i h e = absurd (omega arith)
count_pos s (suc n) f i h e = elim (dec_lt i n) [
  | yes below ↦ omega (arith, count_pos s n f i below e)
  | no last ↦ let e' : i ≡ n = omega arith in ground arith
]

-- Only the cells below `m` are counted where the others are in other states.
pub count_le_of_above : (s m n : ℕ) (f : ℕ → ℕ) → ((c : ℕ) → m ≤ c → f c ≢ s) → count s n f ≤ m
unfolding count
count_le_of_above s m zero f above = omega arith
count_le_of_above s m (suc n) f above = elim (dec_lt n m) [
  | yes below ↦ ground (arith, count_le s n f)
  | no over ↦ ground (arith, above n, count_le_of_above s m n f above)
]
