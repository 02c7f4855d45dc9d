-- ===== src/Values.antt =====
-- finsy/p4values.py: the codec between values and the byte strings of P4Runtime.
pub mod Masks
pub mod Exact
pub mod Lpm
pub mod Ternary
pub mod Range
pub mod Signed
mod Examples
