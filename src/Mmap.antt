-- ===== src/Mmap.antt =====
-- Large blocks, served by mmap(): alloc.h yal_mmap, free.h free_mmap and the second half of free_trim,
-- region.h newmpregmem and newmpregion,
-- realloc.h real_mmap. The children model the regions of a heap (`State`), how one is
-- chosen (`Choose`, `New`), used (`Use`), freed (`Free`), aged (`Trim`) and resized (`Resize`); `Valid` is the invariant.
pub mod State
pub mod Choose
pub mod New
pub mod Use
pub mod Free
pub mod Trim
pub mod Valid
pub mod Memory
pub mod Lists
pub mod Pushed
pub mod Chosen
pub mod Fresh
pub mod Given
pub mod Entered
pub mod Used
pub mod Marked
pub mod Freed
pub mod Touched
pub mod Aged
pub mod Trimmed
pub mod Resize
pub mod Resized
pub mod Start
mod Tests
