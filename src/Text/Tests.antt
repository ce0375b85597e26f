-- ===== src/Text/Tests.antt =====
-- Runs of the conversions.
use yalloc.Base.{[], ◌∷◌, ◌≡◌, refl, true, arith}
use yalloc.Text.Digits.{entry}
use yalloc.Text.Print.{ulcnv, ulcnv_loop, hexlcnv}
use yalloc.Text.Parse.{atox, atox_loop, hex_val, atoul}
use yalloc.Text.Laws.{atoul-ulcnv}
use yalloc.Text.Hex.{atox-hexlcnv}

-- 1024
ulcnv_run : ulcnv [] 1024 ≡ 49 ∷ 48 ∷ 50 ∷ 52 ∷ []
unfolding ulcnv ulcnv_loop entry
ulcnv_run = refl

-- "12g" is read as 0x120
atox_run : atox (49 ∷ 50 ∷ 103 ∷ []) ≡ 288
unfolding atox atox_loop hex_val
atox_run = refl

atoul-ulcnv_example : atoul (ulcnv [] 18446744073709551615) ≡ 18446744073709551615
atoul-ulcnv_example = atoul-ulcnv 18446744073709551615 (omega arith)

atox-hexlcnv_example : atox (hexlcnv [] 48879 true) ≡ 48879
atox-hexlcnv_example = atox-hexlcnv 48879 true (omega arith)
