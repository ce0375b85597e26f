-- ===== src/Slab/Valid.antt =====
-- What holds of a region between two calls: the state byte of a cell says which list it is on.
mod Defs
mod Lists
pub use Defs.*
pub use Lists.*
