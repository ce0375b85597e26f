-- ===== src/Directory.antt =====
-- region.h: the page directory of a heap, which leads from an address to its region. The directory
-- is a tree of three tables with 4096 entries each; the children model the tree (`Tree`), how it is
-- written (`Set`) and searched (`Find`), and prove that it is a map from pages.
pub mod Tree
pub mod Set
pub mod Find
pub mod Pages
pub mod Range
pub mod Memory
pub mod Laws
mod Tests
