-- ===== src/Word/Tests.antt =====
-- Runs of the helpers on words.
use yalloc.Base.{◌≡◌, arith}
use yalloc.Word.{ctz}
use yalloc.Word.Log.{ctz_of_pow2}

ctz_of_pow2_example : ctz 64 ≡ 6
ctz_of_pow2_example = ctz_of_pow2 6 (omega arith)
