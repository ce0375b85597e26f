-- ===== src/Dispatch.antt =====
-- From an address to the part that its block belongs to: size.h size_heap and free.h free_heap, with
-- region.h findgregion. The children model the heaps and what a thread knows (`State`), the length of a
-- block (`Size`) and how it is freed (`Free`); the others are the proofs.
pub mod State
pub mod Size
pub mod Free
pub mod Live
pub mod Sized
pub mod Taken
pub mod LargeTaken
pub mod Parts
pub mod Freed
mod Tests
