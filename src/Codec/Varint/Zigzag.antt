-- ===== src/Codec/Varint/Zigzag.antt =====
-- Zigzag: int64 patterns onto uint64s, so that small magnitudes stay small; and Varint over it.
use scutedb.Base.{ℕ, ◌+◌, ◌-◌, ◌*◌, ◌/◌, ◌%◌, ◌^◌, ◌≡◌, arith, ap}
use scutedb.Base.{List, [], ◌++◌, ltb, ◌==◌, if◌then◌else◌}
use scutedb.Base.{bit_and_ones, bit_xor-zero, bit_xor_ones}
use scutedb.Base.{ok}
use scutedb.Codec.Varint.{IsU64, zigzag, unzigzag, append_varint, varint, uvarint_len}
use scutedb.Codec.Varint.RoundTrip.{uvarint-append_uvarint}

-- `n` and `-n - 1`, as int64 patterns, go to `2n` and `2n + 1`.
pub zigzag_value :
    (v : ℕ) → IsU64 v → zigzag v ≡ (if ltb v (2 ^ 63) then 2 * v else 2 * (2 ^ 64 - 1 - v) + 1)
unfolding zigzag
zigzag_value v h = ground (arith, bit_xor-zero (v * 2 % 2 ^ 64), bit_xor_ones 64 (v * 2 % 2 ^ 64))

pub unzigzag_value :
    (u : ℕ) → IsU64 u → unzigzag u ≡ (if u % 2 == 0 then u / 2 else 2 ^ 64 - 1 - u / 2)
unfolding unzigzag
unzigzag_value u h = ground (arith, bit_and_ones 1 u, bit_xor-zero (u / 2), bit_xor_ones 64 (u / 2))

-- zigzag and unzigzag are inverse to one another on 64 bits, and the code of `n` is `2n` for the
-- int64s `n` from 0 on and `-2n - 1` for the negative ones.
pub zigzag_inverse :
    (v : ℕ)
    → IsU64 v
    → (unzigzag (zigzag v) ≡ v)
      × (zigzag (unzigzag v) ≡ v)
      × (zigzag v ≡ (if ltb v (2 ^ 63) then 2 * v else 2 * (2 ^ 64 - v) - 1))
zigzag_inverse v h = (
  ground (arith, zigzag_value v, unzigzag_value (zigzag v)),
  ground (arith, unzigzag_value v, zigzag_value (unzigzag v)),
  ground (arith, zigzag_value v),
)

-- Varint reads back the int64 that AppendVarint appended, whatever bytes follow.
pub varint-append_varint :
    (v : ℕ) (rest : List ℕ)
    → IsU64 v
    → varint (append_varint [] v ++ rest) ≡ ok (v, uvarint_len (zigzag v))
unfolding varint append_varint
varint-append_varint v rest h =
    rw (uvarint-append_uvarint (zigzag v) rest (ground (arith, zigzag_value v)))
      (ap (λ w. ok (w, uvarint_len (zigzag v))) (zigzag_inverse v h).0)
