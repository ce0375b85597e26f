-- ===== src/Boot.antt =====
-- boot.h `bootalloc`: memory for the first heap and the global directory, cut from a block in the
-- program's data and then from further blocks that the system maps.
pub mod Laws
mod Tests
use yalloc.Base.{ℕ, ◌+◌, ◌-◌, ◌^◌, Bool, true, false, List, [], ◌∷◌, ltb, leb, ◌==◌, if◌then◌else◌}
use yalloc.Word.{doalign4}

-- `Bootmem`
abbrev pub boot_size : ℕ
boot_size = 4096 - 32

-- `struct bootmem`; `inimem` is the address of its first field.
pub record BootMem : Type 0 where
  pub inimem : ℕ
  pub pos : ℕ
  pub mem : ℕ
  pub lock : ℕ
  pub allocs : ℕ
  pub mmaps : ℕ
  pub nolocks : ℕ

pub data BootDiag : Type 0 where
  zero_len : BootDiag
  out_of_memory : BootDiag

-- An address or 0, the pool, and what was reported.
abbrev pub BootOut : Type 0
BootOut = ℕ × BootMem × List BootDiag

-- Under the lock: from the block at hand, or from a new one.
abbrev pub boot_cut : (ℕ → ℕ) → BootMem → ℕ → BootOut
boot_cut osmmap bootp len =
    let imp = if bootp.mem == 0 then bootp.inimem else bootp.mem in
    let based = record bootp { mem = imp } in
    let inp = osmmap boot_size in
    let counted = record based { mmaps = bootp.mmaps + 1 } in
    if leb (bootp.pos + len) boot_size
    then (imp + bootp.pos, record based { pos = bootp.pos + len; lock = 0 }, [])
    else if inp == 0
    then (0, record counted { lock = 0 }, out_of_memory ∷ [])
    else (inp, record counted { mem = inp; pos = len; lock = 0 }, [])

-- What osmmap() answers is an argument: an address by the length asked for, or 0. The lock is tried
-- eight times; here, if it is held, it stays so.
unfoldable pub bootalloc : (ℕ → ℕ) → BootMem → ℕ → BootOut
bootalloc osmmap bootp ulen =
    let len = doalign4 ulen 16 in
    let counted = record bootp { allocs = bootp.allocs + 1 } in
    if ulen == 0
    then (0, bootp, zero_len ∷ [])
    else if leb boot_size len
    then (osmmap len, record bootp { mmaps = bootp.mmaps + 1 }, [])
    else if bootp.lock == 0
    then boot_cut osmmap counted len
    else (osmmap len, record counted { nolocks = bootp.nolocks + 1 }, [])
