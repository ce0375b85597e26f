-- ===== src/Slab/Remote.antt =====
-- slab.h: cells that a thread frees on behalf of another heap. It buffers them (`Buffer`), and a buffer
-- goes to the remote bin of the region in one move (`Cels`). The other children prove that no cell is
-- lost or doubled (`Lists`, `Move`), and what a region sees of a remote free (`Give`).
pub mod Cels
pub mod Buffer
mod Lists
pub mod Move
pub mod Give
