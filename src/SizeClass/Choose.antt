-- ===== src/SizeClass/Choose.antt =====
-- alloc.h, alloc_heap(): the class of a length.
use yalloc.Base.{
  ℕ, ◌+◌, ◌-◌, ◌*◌, ◌/◌, ◌^◌, bit_and, Option, none, some, ltb, leb, ◌==◌, not, if◌then◌else◌,
}
use yalloc.Word.{add4, sub4, doalign4, clz, ctz, clzl}
use yalloc.SizeClass.Table.{class_grain, class_grain1, baseclass, len2clas, clas2len}

-- `Vmbits`
abbrev pub vmbits : ℕ
vmbits = 48

-- `Mmap_max_threshold`
abbrev pub mmap_max_threshold : ℕ
mmap_max_threshold = 22

-- What alloc_heap() computes of a length before it counts the class.
pub record Choice : Type 0 where
  pub len : ℕ
  pub clas : ℕ
  pub alen : ℕ
  pub ord : ℕ
  pub clen : ℕ

-- `ulen < 64`
unfoldable pub choose_small : ℕ → Choice
unfolding len2clas clas2len
choose_small ulen =
    let clas = len2clas ulen in
    record { len = ulen; clas = clas; alen = clas2len clas; ord = clas; clen = 4 }

-- The offset that both normal cases add to the class, in `ub4`.
abbrev pub add_base : ℕ → ℕ
add_base clas = add4 clas (sub4 baseclass (7 * class_grain1))

-- `ulen <= Hi30`
unfoldable pub choose_normal : ℕ → Choice
choose_normal len =
    if not (bit_and len (len - 1) == 0)
    then (let ord = 32 - clz len in
        let cord = ord - class_grain in
        let alen = doalign4 len (2 ^ cord) in
        let low = bit_and (alen / 2 ^ cord) class_grain in
        let clen = if low == 0 then 4 else low in
        record {
          len = len;
          clas = add_base (ord * class_grain1 + clen);
          alen = alen;
          ord = ord;
          clen = clen;
        })
    else record {
      len = len;
      clas = add_base ((ctz len + 1) * class_grain1);
      alen = len;
      ord = ctz len;
      clen = 0;
    }

-- Larger lengths; none is out of memory.
unfoldable pub choose_large : ℕ → Option Choice
choose_large ulen =
    let bits = 64 - clzl ulen in
    let ord = if not (bit_and ulen (ulen - 1) == 0) then bits + 1 else bits in
    if leb vmbits ord
    then none
    else some (record {
      len = 2 ^ mmap_max_threshold;
      clas = 31 * class_grain1 + ord - 30 + baseclass - 7 * class_grain1;
      alen = 2 ^ mmap_max_threshold;
      ord = ord;
      clen = 0;
    })

unfoldable pub choose_class : ℕ → Option Choice
unfolding choose_small choose_normal choose_large
choose_class ulen =
    if ltb ulen 64
    then some (choose_small ulen)
    else if leb ulen (2 ^ 30)
    then some (choose_normal ulen)
    else choose_large ulen
