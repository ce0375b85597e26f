-- ===== src/Slab.antt =====
-- slab.h: regions of cells of one size. The children model the region and its metadata (`Region`),
-- the state of one cell (`Marks`), the choice of a cell (`Cells`), the blocks handed out and taken
-- back (`Blocks`) and the remote bin (`Remote`); the others prove what holds of them.
pub mod Region
pub mod Marks
pub mod Cells
pub mod Blocks
pub mod Remote
pub mod Count
pub mod Valid
pub mod Free
pub mod New
pub mod Cycle
pub mod Address
pub mod Release
pub mod Malloc
pub mod Layout
pub mod Trace
pub mod Calloc
pub mod Gap
pub mod Aligned
mod Tests
mod PowerTests
