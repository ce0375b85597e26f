-- ===== src/SizeClass.antt =====
-- alloc.h, the first part of alloc_heap(), and configure.c `genclasses`: the size class of a request,
-- and from its popularity the place where it goes. The children model the tables (`Table`), the
-- class (`Choose`) and the count (`Popular`), and prove what holds (`Spec`, `Laws`, `Length`, `Counted`).
pub mod Table
pub mod Choose
pub mod Popular
pub mod Spec
pub mod Laws
pub mod Length
pub mod Counted
mod Tests
