-- ===== src/SizeClass/Table.antt =====
-- configure.c `genclasses`: the tables `len2clas` and `clas2len` that ./configure writes, as
-- functions, and `Baseclass`, the last class of the first table.
use yalloc.Base.{ℕ, ◌+◌, ◌-◌, ◌*◌, ◌/◌, ◌^◌, bit_and, ltb, leb, ◌==◌, if◌then◌else◌}
use yalloc.Word.{add4, sub4, doalign4, clz, ctz}

abbrev pub class_grain : ℕ
class_grain = 3

abbrev pub class_grain1 : ℕ
class_grain1 = 4

-- `Smalclas`, the length of `len2clas`
abbrev pub smalclas : ℕ
smalclas = 1024

-- `basclas`, with a Stdalign of 16
abbrev pub baseclass : ℕ
baseclass = 7

-- A size class and the length of its blocks.
pub record Class : Type 0 where
  pub clas : ℕ
  pub alen : ℕ

abbrev pub class_of : ℕ → ℕ → Class
class_of clas alen = record { clas = clas; alen = alen }

-- The loop over the lengths below 64; length 0 has the class 0.
unfoldable pub genclass_small : ℕ → Class
genclass_small len =
    if len == 0
    then class_of 0 0
    else if leb len 2
    then class_of 1 2
    else if leb len 4
    then class_of 2 4
    else if leb len 8
    then class_of 3 8
    else if leb len 16
    then class_of 4 16
    else if leb len 32
    then class_of 5 32
    else if leb len 48
    then class_of 6 48
    else class_of 7 64

-- The loop over the lengths from 64 to `Smalclas`.
unfoldable pub genclass : ℕ → Class
genclass len =
    if bit_and len (len - 1) == 0
    then class_of (sub4 (add4 ((ctz len + 1) * class_grain1) baseclass) (7 * class_grain1)) len
    else let ord = 32 - clz len in
      let cord = ord - class_grain in
      let alen = doalign4 len (2 ^ cord) in
      let clen = bit_and (alen / 2 ^ cord) class_grain in
      class_of
        (sub4 (add4 (ord * (class_grain + 1) + (if clen == 0 then 4 else clen)) baseclass)
          (7 * class_grain1))
        alen

-- `len2clas[len]`
unfoldable pub len2clas : ℕ → ℕ
unfolding genclass_small genclass
len2clas len = if ltb len 64 then (genclass_small len).clas else (genclass len).clas

-- `clas2len[clas]`, as the lengths below 64 fill it
unfoldable pub clas2len : ℕ → ℕ
clas2len clas =
    if clas == 0
    then 0
    else if clas == 1
    then 2
    else if clas == 2
    then 4
    else if clas == 3
    then 8
    else if clas == 4
    then 16
    else if clas == 5
    then 32
    else if clas == 6
    then 48
    else 64
