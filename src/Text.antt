-- ===== src/Text.antt =====
-- util.h, printf.c: numbers as text. The children model the writing (`Print`) and the reading
-- (`Parse`), and prove that they fit (`Laws`).
pub mod Digits
pub mod Print
pub mod Parse
pub mod Tables
pub mod Laws
pub mod Hex
mod Tests
