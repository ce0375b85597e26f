-- ===== src/Heap.antt =====
-- heap.h: what a heap hands out to its parts. The child models the memory for remote bins (`Pool`).
pub mod Pool
mod Tests
