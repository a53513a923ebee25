-- ===== src/Codec/Varint.antt =====
-- internal/codec/varint.go: unsigned integers in 1 to 10 bytes, seven bits a byte, and zigzag.
pub mod Encode
pub mod Decode
pub mod RoundTrip
pub mod Zigzag
use scutedb.Base.{ℕ, zero, suc, ◌+◌, ◌-◌, ◌*◌, ◌/◌, ◌%◌, ◌^◌, ◌<◌, bit_and, bit_or, bit_xor}
use scutedb.Base.{List, [], ◌∷◌, ◌++◌, ltb, leb, ◌==◌, if◌then◌else◌, ◌&&◌}
use scutedb.Base.{Result, ok, err, ◌>>=◌}

pub data Error : Type 0 where
  truncated overflow : Error

abbrev pub IsByte : ℕ → Type 0
IsByte b = b < 256

abbrev pub IsU64 : ℕ → Type 0
IsU64 v = v < 2 ^ 64

abbrev pub max_varint_len64 : ℕ
max_varint_len64 = 10

-- `for v >= 0x80 { dst = append(dst, byte(v)|0x80); v >>= 7 }`; a round at least halves `v`, so
-- `v` rounds are enough.
pub append_uvarint_loop : ℕ → List ℕ → ℕ → List ℕ
append_uvarint_loop zero dst v = dst ++ (v % 256 ∷ [])
append_uvarint_loop (suc fuel) dst v =
    let more = append_uvarint_loop fuel (dst ++ (bit_or (v % 256) 0x80 ∷ [])) (v / 2 ^ 7) in
    if leb 0x80 v then more else dst ++ (v % 256 ∷ [])

unfoldable pub append_uvarint : List ℕ → ℕ → List ℕ
unfolding append_uvarint_loop
append_uvarint dst v = append_uvarint_loop v dst v

-- `x |= uint64(b) << s`
abbrev pub or_shifted : ℕ → ℕ → ℕ → ℕ
or_shifted x b s = bit_or x (b * 2 ^ s % 2 ^ 64)

-- The list is what the loop has not reached: `src[i:]`.
pub uvarint_loop : List ℕ → ℕ → ℕ → ℕ → Result Error (ℕ × ℕ)
uvarint_loop [] x s i = err truncated
uvarint_loop (b ∷ src) x s i =
    let more = uvarint_loop src (or_shifted x (bit_and b 0x7f) s) (s + 7) (i + 1) in
    if i == max_varint_len64 - 1 && ltb 1 b
    then err overflow
    else if ltb b 0x80
    then ok (or_shifted x b s, i + 1)
    else more

unfoldable pub uvarint : List ℕ → Result Error (ℕ × ℕ)
unfolding uvarint_loop
uvarint src = uvarint_loop src 0 0 0

pub uvarint_len_loop : ℕ → ℕ → ℕ → ℕ
uvarint_len_loop zero v n = n
uvarint_len_loop (suc fuel) v n =
    let more = uvarint_len_loop fuel (v / 2 ^ 7) (n + 1) in if leb 0x80 v then more else n

unfoldable pub uvarint_len : ℕ → ℕ
unfolding uvarint_len_loop
uvarint_len v = uvarint_len_loop v v 1

-- `v >> 63` at an int64, which copies the sign bit.
abbrev pub sign_fill : ℕ → ℕ
sign_fill v = if leb (2 ^ 63) v then 2 ^ 64 - 1 else 0

unfoldable pub zigzag : ℕ → ℕ
zigzag v = bit_xor (v * 2 % 2 ^ 64) (sign_fill v)

unfoldable pub unzigzag : ℕ → ℕ
unzigzag u = bit_xor (u / 2) ((2 ^ 64 - bit_and u 1) % 2 ^ 64)

unfoldable pub append_varint : List ℕ → ℕ → List ℕ
append_varint dst v = append_uvarint dst (zigzag v)

unfoldable pub varint : List ℕ → Result Error (ℕ × ℕ)
varint src = do (u, n) ← uvarint src; ok (unzigzag u, n)
