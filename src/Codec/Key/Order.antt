-- ===== src/Codec/Key/Order.antt =====
-- The order and the round trip of the keys.
use Prim.Native.Nat.{compare, Ordering}
use scutedb.Base.{ℕ, ◌+◌, ◌-◌, ◌%◌, ◌^◌, ◌<◌, ◌≡◌, ◌∙◌, arith}
use scutedb.Base.{List, [], ◌++◌, ltb, leb, if◌then◌else◌, ◌&&◌, length-append}
use scutedb.Base.{bit_xor, bit_xor_top, bit_xor_ones, bit_and_top, bit_or_shifted, bit_and_ones}
use scutedb.Base.{
  be_bytes, length-be_bytes, be_uint-be_bytes, compare_bytes, compare_bytes-be_bytes,
}
use scutedb.Base.{ok}
use scutedb.Codec.Varint.{IsU64}
use scutedb.Codec.Key.{
  sign_bit, append_key_uint64, key_uint64, append_key_int64, key_int64, nan_bits, is_zero, is_nan,
  canonical, float_key_bits, append_key_float64, key_float_bits, key_float64,
}

-- KeyUint64 reads a uint64 key back, whatever follows it, and the keys of two uint64s compare as
-- the numbers do.
pub key_uint64_lem :
    (a b : ℕ) (rest : List ℕ)
    → IsU64 a
    → IsU64 b
    → (key_uint64 (append_key_uint64 [] a ++ rest) ≡ ok (a, 8))
      × (compare_bytes (append_key_uint64 [] a) (append_key_uint64 [] b) ≡ compare a b)
unfolding key_uint64 append_key_uint64
key_uint64_lem a b rest ha hb = (
  ground (arith, length-append (be_bytes 8 a) rest, length-be_bytes 8 a, be_uint-be_bytes 8 a rest),
  compare_bytes-be_bytes 8 a b ha hb,
)

-- The order of int64s, by their two's complement patterns.
abbrev pub compare_int64 : ℕ → ℕ → Ordering
compare_int64 a b =
    if leb sign_bit a
    then (if leb sign_bit b then compare a b else Ordering.lt)
    else if leb sign_bit b
    then Ordering.gt
    else compare a b

-- KeyInt64 reads an int64 key back, whatever follows it, and the keys of two int64s compare as the
-- signed numbers do.
pub key_int64_lem :
    (a b : ℕ) (rest : List ℕ)
    → IsU64 a
    → IsU64 b
    → (key_int64 (append_key_int64 [] a ++ rest) ≡ ok (a, 8))
      × (compare_bytes (append_key_int64 [] a) (append_key_int64 [] b) ≡ compare_int64 a b)
unfolding key_int64 append_key_int64
key_int64_lem a b rest ha hb = (
  ground (
    arith,
    length-append (be_bytes 8 (bit_xor a sign_bit)) rest,
    length-be_bytes 8 (bit_xor a sign_bit),
    be_uint-be_bytes 8 (bit_xor a sign_bit) rest,
    bit_xor_top 63 a,
    bit_xor_top 63 (bit_xor a sign_bit),
  ),
  ground (
    arith,
    compare_bytes-be_bytes 8 (bit_xor a sign_bit) (bit_xor b sign_bit),
    bit_xor_top 63 a,
    bit_xor_top 63 b,
  ),
)

float_key_bits_value :
    (f : ℕ)
    → IsU64 f
    → float_key_bits f ≡ (
        if is_nan f
        then nan_bits + sign_bit
        else if is_zero f
        then sign_bit
        else if ltb f sign_bit
        then f + sign_bit
        else 2 ^ 64 - 1 - f)
unfolding float_key_bits canonical
float_key_bits_value f h =
    ground (arith, bit_and_top 63 f, bit_xor_ones 64 f, bit_or_shifted 63 f 1)

-- The order of float64s by sign and magnitude, for numbers; the two zeros are equal.
abbrev compare_numbers : ℕ → ℕ → Ordering
compare_numbers f g =
    if is_zero f && is_zero g
    then Ordering.eq
    else if leb sign_bit f
    then (if leb sign_bit g then compare (g % 2 ^ 63) (f % 2 ^ 63) else Ordering.lt)
    else if leb sign_bit g
    then Ordering.gt
    else compare f g

-- NaNs are equal to one another and above every number.
abbrev pub compare_float64 : ℕ → ℕ → Ordering
compare_float64 f g =
    if is_nan f
    then (if is_nan g then Ordering.eq else Ordering.gt)
    else if is_nan g
    then Ordering.lt
    else compare_numbers f g

-- The keys of two float64s compare as the numbers do by sign and magnitude, with the zeros equal
-- and every NaN one value above all numbers.
pub compare-append_key_float64 :
    (f g : ℕ)
    → IsU64 f
    → IsU64 g
    → compare_bytes (append_key_float64 [] f) (append_key_float64 [] g) ≡ compare_float64 f g
unfolding append_key_float64
compare-append_key_float64 f g hf hg =
    compare_bytes-be_bytes 8 (float_key_bits f) (float_key_bits g) (below f hf) (below g hg)
    ∙ ground (arith, float_key_bits_value f hf, float_key_bits_value g hg)
  where
    below : (x : ℕ) → IsU64 x → float_key_bits x < 256 ^ 8
    below x hx = ground (arith, float_key_bits_value x hx)

-- KeyFloat64 reads back the canonical form of the float64 that AppendKeyFloat64 wrote: the same
-- bits, but +0 for either zero and the one NaN of math.NaN for each NaN.
pub key_float64-append_key_float64 :
    (f : ℕ) (rest : List ℕ)
    → IsU64 f
    → key_float64 (append_key_float64 [] f ++ rest) ≡ ok (canonical f, 8)
unfolding key_float64 append_key_float64 canonical key_float_bits
key_float64-append_key_float64 f rest h = ground (
  arith,
  length-append (be_bytes 8 (float_key_bits f)) rest,
  length-be_bytes 8 (float_key_bits f),
  be_uint-be_bytes 8 (float_key_bits f) rest,
  float_key_bits_value f h,
  bit_and_top 63 (float_key_bits f),
  bit_and_ones 63 (float_key_bits f),
  bit_xor_ones 64 (float_key_bits f),
)
