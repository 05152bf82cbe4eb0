-- ===== src/Bits.antt =====
-- Bitwise operations on numbers of any width: laws by the lowest digit, and by fields.
pub mod Step
pub mod Fields
pub mod Tail
