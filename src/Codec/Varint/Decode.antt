-- ===== src/Codec/Varint/Decode.antt =====
-- Uvarint and Varint on any bytes, well formed or not.
use scutedb.Base.{ℕ, ◌+◌, ◌*◌, ◌%◌, ◌^◌, ◌≤◌, ◌<◌, ◌≡◌, ap, ◌∙◌, arith}
use scutedb.Base.{List, [], ◌∷◌, ◌++◌, append-nil, length, length-append, All}
use scutedb.Base.{bit_and, bit_and_ones, inl, inr}
use scutedb.Base.{ok, err, Result-cases}
use scutedb.Codec.Varint.{
  truncated, overflow, IsByte, IsU64, uvarint_loop, uvarint, append_uvarint, or_shifted,
  uvarint_len,
}
use scutedb.Codec.Varint.RoundTrip.{uvarint-append_uvarint, or_shifted-sum, group_below}
use scutedb.Codec.Varint.Encode.{uvarint_len-append_uvarint}
use native.Mathlib.Nat.{pow-le-pow_right}

room : (s i : ℕ) → s ≡ 7 * i → i ≤ 8 → 2 ^ (s + 7) ≤ 2 ^ 63
room s i hs hi = pow-le-pow_right {n = 2} (omega arith) {i = s + 7} {j = 63} (omega arith)

sum_fits :
    (x b s i : ℕ) → s ≡ 7 * i → i ≤ 9 → x < 2 ^ s → b < 128 → i ≡ 9 → b ≤ 1 → x + b * 2 ^ s < 2 ^ 64
sum_fits x b s i hs hi hx hb e hb' =
    let s63 : s ≡ 63 = omega arith in let hx' : x < 2 ^ 63 = rw s63 at hx in rw s63 (omega arith)

-- What the loop has read stays below the shift, so the value fits 64 bits.
uvarint_loop_takes :
    (src : List ℕ) (x s i v n : ℕ)
    → All IsByte src
    → s ≡ 7 * i
    → i ≤ 9
    → x < 2 ^ s
    → uvarint_loop src x s i ≡ ok (v, n)
    → IsU64 v × (i < n) × (n ≤ i + length src) × (n ≤ 10)
unfolding uvarint_loop
uvarint_loop_takes [] x s i v n hb hs hi hx e = cc
uvarint_loop_takes (b ∷ src) x s i v n hb hs hi hx e = ground (
  arith,
  bit_and_ones 7 b,
  room s i hs,
  group_below x b s hx,
  group_below x (b % 128) s hx,
  sum_fits x b s i hs hi hx,
  or_shifted-sum x b s,
  or_shifted-sum x (b % 128) s,
  uvarint_loop_takes src (x + b % 128 * 2 ^ s) (s + 7) (i + 1) v n,
)

-- A successful Uvarint of bytes returns a uint64, and takes at least one byte, at most ten, and no
-- more than there are.
pub uvarint_takes :
    (src : List ℕ) (v n : ℕ)
    → All IsByte src
    → uvarint src ≡ ok (v, n)
    → IsU64 v × (1 ≤ n) × (n ≤ length src) × (n ≤ 10)
unfolding uvarint
uvarint_takes src v n hb e =
    ground (arith, uvarint_loop_takes src 0 0 0 v n hb (omega arith) (omega arith))

uvarint_loop-append_ok :
    (src more : List ℕ) (x s i v n : ℕ)
    → uvarint_loop src x s i ≡ ok (v, n)
    → uvarint_loop (src ++ more) x s i ≡ ok (v, n)
unfolding uvarint_loop
uvarint_loop-append_ok [] more x s i v n e = cc
uvarint_loop-append_ok (b ∷ src) more x s i v n e =
    ground
      (arith, uvarint_loop-append_ok src more (or_shifted x (bit_and b 0x7f) s) (s + 7) (i + 1) v n)

uvarint_loop-append_overflow :
    (src more : List ℕ) (x s i : ℕ)
    → uvarint_loop src x s i ≡ err overflow
    → uvarint_loop (src ++ more) x s i ≡ err overflow
unfolding uvarint_loop
uvarint_loop-append_overflow [] more x s i e = cc
uvarint_loop-append_overflow (b ∷ src) more x s i e =
    ground (
      arith,
      uvarint_loop-append_overflow src more (or_shifted x (bit_and b 0x7f) s) (s + 7) (i + 1),
    )

uvarint_loop_within :
    (src : List ℕ) (x s i v n : ℕ) → uvarint_loop src x s i ≡ ok (v, n) → n ≤ i + length src
unfolding uvarint_loop
uvarint_loop_within [] x s i v n e = cc
uvarint_loop_within (b ∷ src) x s i v n e =
    ground (arith, uvarint_loop_within src (or_shifted x (bit_and b 0x7f) s) (s + 7) (i + 1) v n)

-- Uvarint answers ErrTruncated on every proper prefix of what AppendUvarint wrote for a uint64.
pub uvarint_truncated :
    (v b : ℕ) (front back : List ℕ)
    → IsU64 v
    → append_uvarint [] v ≡ front ++ (b ∷ back)
    → uvarint front ≡ err truncated
unfolding uvarint
uvarint_truncated v b front back h e = elim (Result-cases (uvarint front)) [
  | inl ((u, n), r) ↦ absurd (
      ground (
        arith,
        whole,
        size,
        ap length e,
        length-append front (b ∷ back),
        uvarint_loop-append_ok front (b ∷ back) 0 0 0 u n r,
        uvarint_loop_within front 0 0 0 u n r,
      ))
  | inr (truncated, r) ↦ r
  | inr (overflow, r) ↦ cc (whole, uvarint_loop-append_overflow front (b ∷ back) 0 0 0 r)
]
  where
    whole : uvarint (front ++ (b ∷ back)) ≡ ok (v, uvarint_len v)
    whole = rw (append-nil, e) at (uvarint-append_uvarint v [] h)

    size : length (append_uvarint [] v) ≡ uvarint_len v
    size = let (out, w, len, _, _, _) = uvarint_len-append_uvarint [] v h in ap length w ∙ len
