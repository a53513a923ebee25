-- ===== src/Codec.antt =====
-- internal/codec: variable-length integers, values and memcomparable keys.
-- A byte slice is a list of numbers; a uint64 is its value, an int64 and a float64 their 64 bits.
pub mod Varint
pub mod Value
pub mod Key
mod Tests
