-- ===== src/Base/Bytes.antt =====
-- Bytes: the big-endian words of encoding/binary and the comparison of package bytes.
-- A byte slice is a list of numbers below 256.
use Prim.Native.Nat.{ℕ, zero, suc, ◌+◌, ◌*◌, ◌/◌, ◌%◌, ◌^◌, ◌≤◌, ◌<◌, compare, Ordering}
use mathlib.Core.Path.{◌≡◌, refl, ap, ◌∙◌}
use mathlib.Core.List.{List, [], ◌∷◌, ◌++◌}
use native.Mathlib.Nat.{
  pow-suc, one-le-pow, mod-lt, mod-add-div', add-mul-mod_self_right, mod-eq_of_lt,
}
use native.Mathlib.Omega.{arith}
use scutedb.Base.Lists.{length, All}

abbrev pub IsByte : ℕ → Type 0
IsByte b = b < 256

-- The low `k` bytes of `v`, the highest first: `binary.BigEndian.AppendUint16`, `32` and `64`.
unfoldable pub be_bytes : ℕ → ℕ → List ℕ
be_bytes zero v = []
be_bytes (suc k) v = v / 256 ^ k % 256 ∷ be_bytes k v

-- The number in the first `k` bytes, the highest first: `binary.BigEndian.Uint16`, `32` and `64`.
unfoldable pub be_uint : ℕ → List ℕ → ℕ
be_uint zero bs = 0
be_uint (suc k) [] = 0
be_uint (suc k) (b ∷ bs) = b * 256 ^ k + be_uint k bs

pub length-be_bytes : (k v : ℕ) → length (be_bytes k v) ≡ k
unfolding be_bytes
length-be_bytes zero v = refl
length-be_bytes (suc k) v = ap suc (length-be_bytes k v)

pub be_bytes-IsByte : (k v : ℕ) → All IsByte (be_bytes k v)
unfolding be_bytes
be_bytes-IsByte zero v = tt
be_bytes-IsByte (suc k) v = (omega arith, be_bytes-IsByte k v)

mod_split : (v p : ℕ) → 0 < p → v % (p * 256) ≡ v / p % 256 * p + v % p
mod_split v p h =
    ap (λ (t : ℕ). t % (p * 256)) parts
    ∙ add-mul-mod_self_right (v / p % 256 * p + v % p) (v / p / 256) (p * 256)
    ∙ mod-eq_of_lt (grind (arith, mod-lt v h))
  where
    parts : v ≡ v / p % 256 * p + v % p + v / p / 256 * (p * 256)
    parts = omega (arith, mod-add-div' v p, ap (λ (t : ℕ). t * p) (mod-add-div' (v / p) 256))

pub be_uint-be_bytes : (k v : ℕ) (rest : List ℕ) → be_uint k (be_bytes k v ++ rest) ≡ v % 256 ^ k
unfolding be_bytes be_uint
be_uint-be_bytes zero v rest = omega arith
be_uint-be_bytes (suc k) v rest = ground (
  arith,
  be_uint-be_bytes k v rest,
  pow-suc 256 k,
  one-le-pow k 256,
  mod_split v (256 ^ k) (one-le-pow k 256 (omega arith)),
)

pub be_uint-lt : (k : ℕ) (bs : List ℕ) → All IsByte bs → be_uint k bs < 256 ^ k
unfolding be_uint
be_uint-lt zero bs h = omega arith
be_uint-lt (suc k) [] h = one-le-pow (suc k) 256 (omega arith)
be_uint-lt (suc k) (b ∷ bs) h =
    let below : b * 256 ^ k ≤ 255 * 256 ^ k = grind arith in
    omega (arith, be_uint-lt k bs h.1, pow-suc 256 k)

-- Go's bytes.Compare.
unfoldable pub compare_bytes : List ℕ → List ℕ → Ordering
compare_bytes [] [] = Ordering.eq
compare_bytes [] (y ∷ ys) = Ordering.lt
compare_bytes (x ∷ xs) [] = Ordering.gt
compare_bytes (x ∷ xs) (y ∷ ys) = elim (compare x y) [
  | Ordering.lt ↦ Ordering.lt
  | Ordering.eq ↦ compare_bytes xs ys
  | Ordering.gt ↦ Ordering.gt
]

leading_lt : (d e r t p : ℕ) → r < p → d < e → d * p + r < e * p + t
leading_lt d e r t p h g = let step : d * p + p ≤ e * p = grind arith in omega arith

compare_leading :
    (d e r t p : ℕ)
    → r < p
    → t < p
    → compare (d * p + r) (e * p + t) ≡ elim (compare d e) [
      | Ordering.lt ↦ Ordering.lt
      | Ordering.eq ↦ compare r t
      | Ordering.gt ↦ Ordering.gt
    ]
compare_leading d e r t p hr ht = ground (
  arith,
  leading_lt d e r t p hr,
  leading_lt e d t r p ht,
  λ (q : d ≡ e). ap (λ (x : ℕ). x * p) q,
)

compare_be_mod :
    (k a b : ℕ) → compare_bytes (be_bytes k a) (be_bytes k b) ≡ compare (a % 256 ^ k) (b % 256 ^ k)
unfolding be_bytes compare_bytes
compare_be_mod zero a b = ground arith
compare_be_mod (suc k) a b =
    let pos = one-le-pow k 256 (omega arith) in
    rw
      (
        pow-suc 256 k,
        mod_split a (256 ^ k) pos,
        mod_split b (256 ^ k) pos,
        compare_leading _ _ _ _ _ (mod-lt a pos) (mod-lt b pos),
      )
      λ i. elim (compare (a / 256 ^ k % 256) (b / 256 ^ k % 256)) [
        | Ordering.lt ↦ Ordering.lt
        | Ordering.eq ↦ compare_be_mod k a b i
        | Ordering.gt ↦ Ordering.gt
      ]

-- The big-endian bytes of numbers compare as the numbers do.
pub compare_bytes-be_bytes :
    (k a b : ℕ)
    → a < 256 ^ k
    → b < 256 ^ k
    → compare_bytes (be_bytes k a) (be_bytes k b) ≡ compare a b
compare_bytes-be_bytes k a b ha hb = compare_be_mod k a b ∙ rw (mod-eq_of_lt ha, mod-eq_of_lt hb)
