-- ===== src/Codec/Varint/RoundTrip.antt =====
-- Uvarint against AppendUvarint: the round trip, what a successful read takes, and truncation.
use scutedb.Base.{ℕ, zero, suc, ◌+◌, ◌*◌, ◌/◌, ◌%◌, ◌^◌, ◌≤◌, ◌<◌, ◌≡◌, sym, ap, ◌∙◌, arith}
use scutedb.Base.{List, [], ◌∷◌, ◌++◌, length}
use scutedb.Base.{bit_or_shifted, bit_and_ones, ◌⊎◌, inr}
use scutedb.Base.{ok}
use scutedb.Codec.Varint.{IsU64, uvarint_loop, uvarint, append_uvarint, or_shifted, uvarint_len}
use scutedb.Codec.Varint.Encode.{groups, append_uvarint-groups, uvarint_len-append_uvarint}
use native.Mathlib.Nat.{div-add-mod}
use native.Mathlib.Numerals.{towards_suc}

pow_seven_more : (s : ℕ) → 2 ^ (s + 7) ≡ 128 * 2 ^ s
pow_seven_more s = simp towards_suc (omega arith)

-- The lowest group of `w` and the rest, both moved up by `s`.
split_low : (w s : ℕ) → w * 2 ^ s ≡ w % 128 * 2 ^ s + w / 128 * 2 ^ (s + 7)
split_low w s = omega (
  arith,
  ap (λ (t : ℕ). t * 2 ^ s) (div-add-mod w 128),
  ap (λ (t : ℕ). w / 128 * t) (pow_seven_more s),
)

-- Below the shift, `x | b << s` is a sum, as long as it fits 64 bits.
pub or_shifted-sum :
    (x b s : ℕ) → x < 2 ^ s → x + b * 2 ^ s < 2 ^ 64 → or_shifted x b s ≡ x + b * 2 ^ s
or_shifted-sum x b s h fits = ground (arith, bit_or_shifted s x b)

pub group_below : (x g s : ℕ) → x < 2 ^ s → g < 128 → x + g * 2 ^ s < 2 ^ (s + 7)
group_below x g s h hg = grind (arith, pow_seven_more s)

last_byte :
    (w x s i : ℕ) (rest : List ℕ)
    → w < 128
    → x < 2 ^ s
    → x + w * 2 ^ s < 2 ^ 64
    → i < 9 ⊎ (w ≤ 1)
    → uvarint_loop (w ∷ rest) x s i ≡ ok (x + w * 2 ^ s, i + 1)
unfolding uvarint_loop
last_byte w x s i rest hw hx fits hi = ground (arith, or_shifted-sum x w s)

inner_byte :
    (g x s i : ℕ) (rest : List ℕ)
    → g < 128
    → i < 9
    → x < 2 ^ s
    → x + g * 2 ^ s < 2 ^ 64
    → uvarint_loop ((g + 128) ∷ rest) x s i ≡ uvarint_loop rest (x + g * 2 ^ s) (s + 7) (i + 1)
unfolding uvarint_loop
inner_byte g x s i rest hg hi hx fits =
    ground (arith, or_shifted-sum x g s, bit_and_ones 7 (g + 128))

last_group_small : (w x s i : ℕ) → s ≡ 7 * i → i ≡ 9 → x + w * 2 ^ s < 2 ^ 64 → w ≤ 1
last_group_small w x s i hs hi fits =
    let e : s ≡ 63 = omega arith in
    let fits' : x + w * 2 ^ 63 < 2 ^ 64 = rw e at fits in omega arith

-- `w` is what is still to be read, and it counts from bit `s` on.
uvarint_loop-groups :
    (k w x s i : ℕ) (rest : List ℕ)
    → i + k ≡ 9
    → s ≡ 7 * i
    → w < 128 ^ suc k
    → x < 2 ^ s
    → x + w * 2 ^ s < 2 ^ 64
    → uvarint_loop (groups k w ++ rest) x s i ≡ ok (x + w * 2 ^ s, i + length (groups k w))
unfolding groups
uvarint_loop-groups zero w x s i rest hk hs hw hx fits =
    last_byte w x s i rest hw hx fits (inr (last_group_small w x s i hs (omega arith) fits))
uvarint_loop-groups (suc k) w x s i rest hk hs hw hx fits = ground (
  arith,
  last_byte w x s i rest,
  split_low w s,
  group_below x (w % 128) s,
  inner_byte (w % 128) x s i (groups k (w / 128) ++ rest),
  uvarint_loop-groups k (w / 128) (x + w % 128 * 2 ^ s) (s + 7) (i + 1) rest,
)

-- Uvarint reads back the uint64 that AppendUvarint appended, whatever bytes follow it, and says
-- that it took UvarintLen bytes.
pub uvarint-append_uvarint :
    (v : ℕ) (rest : List ℕ)
    → IsU64 v
    → uvarint (append_uvarint [] v ++ rest) ≡ ok (v, uvarint_len v)
unfolding uvarint
uvarint-append_uvarint v rest h =
    let (out, e, len, _, _, _) = uvarint_len-append_uvarint [] v h in
    ground (
      arith,
      append_uvarint-groups [] v h,
      ap length (sym e ∙ append_uvarint-groups [] v h),
      uvarint_loop-groups 9 v 0 0 0 rest,
    )
