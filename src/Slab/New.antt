-- ===== src/Slab/New.antt =====
-- slab.h `slab_newcel`: the cell handed out was not in use, and nothing else changes hands.
mod Defs
mod Local
mod Moving
mod Remote
mod All
pub use Defs.*
pub use Local.{popped, newcel_popped}
pub use All.*
