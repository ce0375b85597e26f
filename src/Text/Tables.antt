-- ===== src/Text/Tables.antt =====
-- What the tables of printf.c hold, checked entry by entry.
use yalloc.Base.{
  ℕ, zero, suc, ◌+◌, ◌*◌, ◌/◌, ◌%◌, ◌<◌, ◌≤◌, bit_or, Bool, true, false, ltb, List, Option, none,
  some, ◌==◌, arith, ◌≡◌, refl, if◌then◌else◌, ==→eq, Bool-cases, inl, inr, ap, subst,
}
use native.Mathlib.Decide.{ℕ_discrete}
use yalloc.Text.Digits.{entry, hextab, upper_hextab, cnvtab}
use yalloc.Text.Parse.{hex_val}

unfoldable all_below : (ℕ → Bool) → ℕ → Bool
all_below p zero = true
all_below p (suc n) = if p n then all_below p n else false

all_below_lem : (p : ℕ → Bool) (n : ℕ) → all_below p n ≡ true → (r : ℕ) → r < n → p r ≡ true
unfolding all_below
all_below_lem p zero h r lt = absurd (omega arith)
all_below_lem p (suc n) h r lt = elim (Bool-cases (p n)) [
  | inr no_p ↦ absurd (ground (arith, h, no_p))
  | inl yes_p ↦ elim (ℕ_discrete n r) [
    | yes e ↦ subst (λ m. p m ≡ true) e yes_p
    | no ne ↦ all_below_lem p n (ground (arith, h, yes_p)) r (omega arith)
  ]
]

pub cnvtab_high : (r : ℕ) → r < 100 → entry cnvtab (2 * r) ≡ r / 10 + 48
unfolding entry all_below
cnvtab_high r lt =
    ==→eq _ _ (all_below_lem (λ n. entry cnvtab (2 * n) == n / 10 + 48) 100 refl r lt)

pub cnvtab_low : (r : ℕ) → r < 100 → entry cnvtab (2 * r + 1) ≡ r % 10 + 48
unfolding entry all_below
cnvtab_low r lt =
    ==→eq _ _ (all_below_lem (λ n. entry cnvtab (2 * n + 1) == n % 10 + 48) 100 refl r lt)

-- The digit is `d`.
is_val : ℕ → Option ℕ → Bool
is_val d (some v) = v == d
is_val d none = false

pub no_letter : (c : ℕ) → 48 ≤ c → c ≤ 57 → (bit_or c 32 == 120) ≡ false
unfolding all_below
no_letter c low high = elim (Bool-cases (bit_or c 32 == 120)) [
  | inr no_x ↦ no_x
  | inl yes_x ↦
      let ok : (if bit_or c 32 == 120 then (if ltb c 58 then ltb c 48 else true) else true) ≡ true =
        all_below_lem
          (λ n. if bit_or n 32 == 120 then (if ltb n 58 then ltb n 48 else true) else true) 58 refl
          c (omega arith) in
      absurd (ground (arith, ok, yes_x))
]

-- A digit is read back as it was written, and is neither a null nor a dot.
readable : List ℕ → ℕ → Bool
readable tab d =
    if entry tab d == 0
    then false
    else if entry tab d == 46
    then false
    else is_val d (hex_val (entry tab d))

pub record Readable (c d : ℕ) : Type 0 where
  pub no_nul : (c == 0) ≡ false
  pub no_dot : (c == 46) ≡ false
  pub value : hex_val c ≡ some d

is_val_lem : (d : ℕ) (o : Option ℕ) → is_val d o ≡ true → o ≡ some d
unfolding is_val
is_val_lem d none h = absurd (ground (arith, h))
is_val_lem d (some v) h = ap some (==→eq v d h)

readable_lem :
    (tab : List ℕ)
    → all_below (readable tab) 16 ≡ true
    → (d : ℕ) → d < 16
    → Readable (entry tab d) d
unfolding readable
readable_lem tab h d lt =
    let ok = all_below_lem (readable tab) 16 h d lt in
    let no_nul : (entry tab d == 0) ≡ false = ground (arith, ok) in
    let no_dot : (entry tab d == 46) ≡ false = ground (arith, ok) in
    record {
      no_nul = no_nul;
      no_dot = no_dot;
      value = is_val_lem d (hex_val (entry tab d)) (ground (arith, ok, no_nul, no_dot));
    }

pub hextab-Readable :
    (case : Bool) (d : ℕ) → d < 16 → Readable (entry (if case then upper_hextab else hextab) d) d
unfolding all_below readable is_val entry hex_val
hextab-Readable true d lt = readable_lem upper_hextab refl d lt
hextab-Readable false d lt = readable_lem hextab refl d lt
