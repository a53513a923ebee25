-- ===== src/Nullbits/Bits.antt =====
-- A bit of a byte after another bit was set or cleared.
use scutedb.Base.{
  ℕ, zero, suc, ◌^◌, ◌<◌, ◌≡◌, refl, arith, bit_and, bit_or, Bool, true, false, not, ◌&&◌, ◌||◌,
  ◌==◌, if◌then◌else◌,
}
use scutedb.Nullbits.Bitmap.{and_not}

abbrev pub test : ℕ → ℕ → Bool
test x k = not (bit_and x (2 ^ k) == 0)

abbrev same : Bool → Bool → Bool
same true q = q
same false q = not q

every : (ℕ → Bool) → ℕ → Bool
every q zero = true
every q (suc m) = if q m then every q m else false

every-at : (q : ℕ → Bool) (m k : ℕ) → k < m → every q m ≡ true → q k ≡ true
unfolding every
every-at q zero k lt t = absurd (omega arith)
every-at q (suc m) k lt t = ground (arith, every-at q m k)

abbrev agrees : ℕ → ℕ → ℕ → Bool
agrees x k m =
    same (test (bit_or x (2 ^ k)) m) ((k == m) || test x m)
    && same (test (and_not x (2 ^ k)) m) (not (k == m) && test x m)

agrees_table : every (λ x. every (λ k. every (agrees x k) 8) 8) 256 ≡ true
unfolding every
agrees_table = refl

agrees_at : (x k m : ℕ) → x < 256 → k < 8 → m < 8 → agrees x k m ≡ true
agrees_at x k m hx hk hm = every-at (agrees x k) 8 m hm (
    every-at (λ k. every (agrees x k) 8) 8 k hk
      (every-at (λ x. every (λ k. every (agrees x k) 8) 8) 256 x hx agrees_table))

pub test-bit_or :
    (x k m : ℕ)
    → x < 256
    → k < 8
    → m < 8
    → test (bit_or x (2 ^ k)) m ≡ (if k == m then true else test x m)
test-bit_or x k m hx hk hm = ground (arith, agrees_at x k m hx hk hm)

pub test-and_not :
    (x k m : ℕ)
    → x < 256
    → k < 8
    → m < 8
    → test (and_not x (2 ^ k)) m ≡ (if k == m then false else test x m)
test-and_not x k m hx hk hm = ground (arith, agrees_at x k m hx hk hm)
