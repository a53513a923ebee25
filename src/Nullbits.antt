-- ===== src/Nullbits.antt =====
-- internal/nullbits/nullbits.go and logic.go: bitmaps that mark the null fields of a row, and SQL's
-- logic of three values.
pub mod Logic
pub mod Bitmap
mod Bits
pub mod Laws
mod Tests
