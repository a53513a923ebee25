-- ===== src/Codec/Varint/Encode.antt =====
-- What AppendUvarint writes, in plain arithmetic.
use scutedb.Base.{false}
use scutedb.Base.{ℕ, zero, suc, ◌+◌, ◌/◌, ◌%◌, ◌^◌, ◌≤◌, ◌<◌, ◌≡◌, refl, arith}
use scutedb.Base.{List, [], ◌∷◌, ◌++◌, append_assoc, length, All, ltb}
use scutedb.Base.{bit_or, if◌then◌else◌, true, Bool, ◌==◌}
use scutedb.Codec.Varint.{
  IsByte, IsU64, append_uvarint_loop, append_uvarint, uvarint_len_loop, uvarint_len,
}

-- The top bit of every number under `n` is set by `| 0x80`.
tops : ℕ → Bool
tops zero = true
tops (suc b) = if bit_or b 0x80 == b % 128 + 128 then tops b else false

tops-below : (n b : ℕ) → b < n → tops n ≡ true → bit_or b 0x80 ≡ b % 128 + 128
unfolding tops
tops-below zero b h t = absurd (omega arith)
tops-below (suc n) b h t = ground (arith, tops-below n b)

byte_top : (b : ℕ) → b < 256 → bit_or b 0x80 ≡ b % 128 + 128
unfolding tops
byte_top b h = tops-below 256 b h refl

-- The groups of seven bits of `v`, lowest first, for `v` below 128 ^ (k + 1).
unfoldable pub groups : ℕ → ℕ → List ℕ
groups zero v = v ∷ []
groups (suc k) v =
    let rest = groups k (v / 128) in if ltb v 128 then v ∷ [] else (v % 128 + 128) ∷ rest

append_uvarint_loop-groups :
    (k fuel : ℕ) (dst : List ℕ) (v : ℕ)
    → v ≤ fuel
    → v < 128 ^ suc k
    → append_uvarint_loop fuel dst v ≡ dst ++ groups k v
unfolding append_uvarint_loop groups
append_uvarint_loop-groups zero zero dst v e h = ground arith
append_uvarint_loop-groups zero (suc fuel) dst v e h = ground arith
append_uvarint_loop-groups (suc k) zero dst v e h = ground arith
append_uvarint_loop-groups (suc k) (suc fuel) dst v e h =
    let head : List ℕ = (v % 128 + 128) ∷ [] in
    ground (
      arith,
      byte_top (v % 256),
      append_uvarint_loop-groups k fuel (dst ++ head) (v / 128),
      append_assoc dst head (groups k (v / 128)),
    )

-- On every uint64 AppendUvarint keeps `dst` and appends the groups of seven bits.
pub append_uvarint-groups :
    (dst : List ℕ) (v : ℕ) → IsU64 v → append_uvarint dst v ≡ dst ++ groups 9 v
unfolding append_uvarint
append_uvarint-groups dst v h = append_uvarint_loop-groups 9 v dst v (omega arith) (omega arith)

groups-IsByte : (k v : ℕ) → v < 128 ^ suc k → All IsByte (groups k v)
unfolding groups
groups-IsByte zero v h = omega arith
groups-IsByte (suc k) v h = ground (arith, groups-IsByte k (v / 128) (omega arith))

pub length-groups : (k v : ℕ) → (1 ≤ length (groups k v)) × (length (groups k v) ≤ k + 1)
unfolding groups
length-groups zero v = omega arith
length-groups (suc k) v = ground (arith, length-groups k (v / 128))

uvarint_len_loop-groups :
    (k fuel v n : ℕ)
    → v ≤ fuel
    → v < 128 ^ suc k
    → uvarint_len_loop fuel v n + 1 ≡ n + length (groups k v)
unfolding uvarint_len_loop groups
uvarint_len_loop-groups zero zero v n e h = ground arith
uvarint_len_loop-groups zero (suc fuel) v n e h = ground arith
uvarint_len_loop-groups (suc k) zero v n e h = ground arith
uvarint_len_loop-groups (suc k) (suc fuel) v n e h =
    ground (arith, uvarint_len_loop-groups k fuel (v / 128) (n + 1))

-- For every uint64, UvarintLen is the number of bytes that AppendUvarint appends, it lies between
-- 1 and 10, what was in `dst` stays in front, and each appended element is a byte.
pub uvarint_len-append_uvarint :
    (dst : List ℕ) (v : ℕ)
    → IsU64 v
    → (out : List ℕ) × (append_uvarint dst v ≡ dst ++ out)
      × (length out ≡ uvarint_len v)
      × (1 ≤ uvarint_len v)
      × (uvarint_len v ≤ 10)
      × All IsByte out
unfolding uvarint_len
uvarint_len-append_uvarint dst v h =
    let count = uvarint_len_loop-groups 9 v v 1 (omega arith) (omega arith) in
    let (lo, hi) = length-groups 9 v in
    (
      groups 9 v,
      append_uvarint-groups dst v h,
      omega arith,
      omega arith,
      omega arith,
      groups-IsByte 9 v (omega arith),
    )
