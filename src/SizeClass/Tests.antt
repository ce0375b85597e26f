-- ===== src/SizeClass/Tests.antt =====
-- Runs of the size classes.
use yalloc.SizeClass.Popular.{Classes}

-- A heap that has not counted anything.
abbrev no_classes : Classes
no_classes = record { clascnts = λ c. 0; claslens = λ c. 0; cfremsk = λ c. 0 }
