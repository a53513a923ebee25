-- ===== src/Codec/Key.antt =====
-- internal/codec/key.go: keys whose bytes compare as the values do.
-- An int64 or a float64 is the number that its 64 bits spell.
pub mod Order
use scutedb.Base.{ℕ, ◌+◌, ◌-◌, ◌*◌, ◌/◌, ◌%◌, ◌^◌, ◌<◌, bit_and, bit_or, bit_xor}
use scutedb.Base.{
  List, ◌++◌, ltb, leb, ◌==◌, if◌then◌else◌, not, ◌&&◌, Bool, length, be_bytes, be_uint,
}
use scutedb.Base.{Result, ok, err}
use scutedb.Codec.Varint.{Error, truncated}

abbrev pub sign_bit : ℕ
sign_bit = 2 ^ 63

unfoldable pub append_key_uint64 : List ℕ → ℕ → List ℕ
append_key_uint64 dst v = dst ++ be_bytes 8 v

unfoldable pub key_uint64 : List ℕ → Result Error (ℕ × ℕ)
key_uint64 src = if ltb (length src) 8 then err truncated else ok (be_uint 8 src, 8)

unfoldable pub append_key_int64 : List ℕ → ℕ → List ℕ
append_key_int64 dst v = dst ++ be_bytes 8 (bit_xor v sign_bit)

unfoldable pub key_int64 : List ℕ → Result Error (ℕ × ℕ)
key_int64 src =
    if ltb (length src) 8 then err truncated else ok (bit_xor (be_uint 8 src) sign_bit, 8)

-- IEEE 754 binary64 by its bits: `f == 0` holds at both zeros, and a NaN has all exponent bits set
-- and a fraction that is not 0.
abbrev pub inf_bits : ℕ
inf_bits = 0x7ff0_0000_0000_0000

abbrev pub nan_bits : ℕ
nan_bits = 0x7ff8_0000_0000_0001

abbrev pub is_zero : ℕ → Bool
is_zero f = f % 2 ^ 63 == 0

abbrev pub is_nan : ℕ → Bool
is_nan f = ltb inf_bits (f % 2 ^ 63)

-- `if f == 0 { f = 0 }; if math.IsNaN(f) { f = math.NaN() }`
unfoldable pub canonical : ℕ → ℕ
canonical f = let f = if is_zero f then 0 else f in if is_nan f then nan_bits else f

-- The bits of the key: all turned over below zero, and the sign bit set from zero on.
unfoldable pub float_key_bits : ℕ → ℕ
unfolding canonical
float_key_bits f =
    let b = canonical f in
    if not (bit_and b sign_bit == 0) then bit_xor b (2 ^ 64 - 1) else bit_or b sign_bit

unfoldable pub append_key_float64 : List ℕ → ℕ → List ℕ
append_key_float64 dst f = dst ++ be_bytes 8 (float_key_bits f)

-- `b &^= signBit` clears the bit: at 64 bits, `b & ^signBit`.
unfoldable pub key_float_bits : ℕ → ℕ
key_float_bits b =
    if not (bit_and b sign_bit == 0)
    then bit_and b (bit_xor sign_bit (2 ^ 64 - 1))
    else bit_xor b (2 ^ 64 - 1)

unfoldable pub key_float64 : List ℕ → Result Error (ℕ × ℕ)
key_float64 src =
    if ltb (length src) 8 then err truncated else ok (key_float_bits (be_uint 8 src), 8)

unfoldable pub append_key_string : List ℕ → List ℕ → List ℕ
append_key_string dst s = dst ++ s
