-- ===== src/Word.antt =====
-- yalloc.h and util.h: the helpers on machine words. `ub4` is a number below 2 ^ 32 and `size_t`
-- one below 2 ^ 64 (the 64-bit build); a sum is reduced modulo the width, as in C. Bit `n` of a
-- word, which the source tests by `x & (1 << n)`, is written `x / 2 ^ n % 2`.
pub mod Masks
pub mod Powers
pub mod Align
pub mod Log
mod Tests
use yalloc.Base.{
  ℕ, zero, suc, ◌+◌, ◌-◌, ◌*◌, ◌/◌, ◌%◌, ◌^◌, bit_and, Bool, ltb, leb, ◌==◌, ◌||◌, if◌then◌else◌,
}

abbrev pub ub4_mod : ℕ
ub4_mod = 2 ^ 32

abbrev pub size_mod : ℕ
size_mod = 2 ^ 64

-- `a + b` in `ub4`
abbrev pub add4 : ℕ → ℕ → ℕ
add4 a b = (a + b) % ub4_mod

-- `a - b` in `ub4`
abbrev pub sub4 : ℕ → ℕ → ℕ
sub4 a b = (a + ub4_mod - b) % ub4_mod

-- `a + b` in `size_t`
abbrev pub add8 : ℕ → ℕ → ℕ
add8 a b = (a + b) % size_mod

-- `a - b` in `size_t`
abbrev pub sub8 : ℕ → ℕ → ℕ
sub8 a b = (a + size_mod - b) % size_mod

-- `(n + a - 1) & ~(a - 1)`, each sum in `ub4`
unfoldable pub doalign4 : ℕ → ℕ → ℕ
doalign4 n a = bit_and (sub4 (add4 n a) 1) (ub4_mod - 1 - sub4 a 1)

-- the same in `size_t`
unfoldable pub doalign8 : ℕ → ℕ → ℕ
doalign8 n a = bit_and (sub8 (add8 n a) 1) (size_mod - 1 - sub8 a 1)

-- `while ((x & (1 << n)) == 0) n--;`: the number of the highest bit that is set, from `n` down
unfoldable pub high_bit : ℕ → ℕ → ℕ
high_bit zero x = zero
high_bit (suc n) x = let rest = high_bit n x in if x / 2 ^ suc n % 2 == 0 then rest else suc n

-- The built-in is undefined at 0; the fallback returns 0.
unfoldable pub clz : ℕ → ℕ
unfolding high_bit
clz x = if x == 0 then 0 else 31 - high_bit 31 x

unfoldable pub clzl : ℕ → ℕ
unfolding high_bit
clzl x = if x == 0 then 0 else 63 - high_bit 63 x

-- `while ((x & (1 << n)) == 0) n++;`, with as many rounds left as the word has bits above `n`
unfoldable pub low_bit : ℕ → ℕ → ℕ → ℕ
low_bit zero n x = n
low_bit (suc f) n x = let rest = low_bit f (n + 1) x in if x / 2 ^ n % 2 == 0 then rest else n

unfoldable pub ctz : ℕ → ℕ
unfolding low_bit
ctz x = low_bit 32 0 x

unfoldable pub ctzl : ℕ → ℕ
unfolding low_bit
ctzl x = low_bit 64 0 x

-- What `__builtin_umull_overflow` is documented to do: the product modulo the width, and whether
-- it was reduced.
unfoldable pub sat_mul : ℕ → ℕ → ℕ × Bool
sat_mul a b = (a * b % size_mod, leb size_mod (a * b))

-- The version of yalloc.h for other compilers.
unfoldable pub sat_mul_fallback : ℕ → ℕ → ℕ × Bool
sat_mul_fallback a b = let c = a * b % size_mod in (c, ltb c a || ltb c b)

-- `(a & b) == b`
unfoldable pub sometimes : ℕ → ℕ → Bool
sometimes a b = bit_and a b == b
