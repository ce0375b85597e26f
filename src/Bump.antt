-- ===== src/Bump.antt =====
-- bump.h: regions that hand out blocks one after the other and never again. The children model the
-- region (`Region`), handing out (`Alloc`) and taking back (`Free`); the others prove what holds.
pub mod Region
pub mod Alloc
pub mod Free
pub mod Valid
pub mod Laws
pub mod Aligned
pub mod Release
pub mod Pick
pub mod Cycle
mod Tests
