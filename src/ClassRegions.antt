-- ===== src/ClassRegions.antt =====
-- The slab regions of a heap by size class: the last part of alloc.h alloc_heap, which looks for a region
-- with a free cell, of the class or one that is a little larger, and makes a new one if there is none.
-- State and Alloc are the code, Valid the invariant, and the others the proofs.
pub mod State
pub mod Alloc
pub mod Valid
pub mod Block
pub mod Fresh
pub mod Picked
pub mod Served
pub mod Rounds
pub mod Space
mod Tests
