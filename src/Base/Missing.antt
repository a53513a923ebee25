-- ===== src/Base/Missing.antt =====
-- Which of the numbers below a bound a list of numbers leaves out.
use scutedb.Base.{
  ℕ, zero, suc, ◌+◌, ◌≤◌, ◌<◌, ◌≡◌, refl, arith, List, [], ◌∷◌, ◌++◌, length, false, count, has,
  count-append, if◌then◌else◌,
}

-- How many of the numbers below `n` are not on the list.
pub unseen : ℕ → List ℕ → ℕ
unseen zero ids = 0
unseen (suc n) ids = (if has n ids then 0 else 1) + unseen n ids

pub unseen_all : (n : ℕ) → unseen n [] ≡ n
unfolding unseen
unseen_all zero = refl
unseen_all (suc n) = ground (arith, unseen_all n)

unseen_kept : (n id : ℕ) (ids : List ℕ) → n ≤ id → unseen n (ids ++ (id ∷ [])) ≡ unseen n ids
unfolding unseen
unseen_kept zero id ids h = refl
unseen_kept (suc n) id ids h =
    ground (arith, unseen_kept n id ids (omega arith), count-append n ids (id ∷ []))

-- One that was not on the list makes one fewer.
pub unseen_less :
    (n id : ℕ) (ids : List ℕ)
    → id < n
    → has id ids ≡ false
    → unseen n (ids ++ (id ∷ [])) + 1 ≡ unseen n ids
unfolding unseen
unseen_less zero id ids h new = absurd (omega arith)
unseen_less (suc n) id ids h new =
    ground (arith, unseen_less n id ids, unseen_kept n id ids, count-append n ids (id ∷ []))

unseen_above : (n id : ℕ) (ids : List ℕ) → n ≤ id → unseen n (id ∷ ids) ≡ unseen n ids
unfolding unseen
unseen_above zero id ids h = refl
unseen_above (suc n) id ids h = ground (arith, unseen_above n id ids (omega arith))

unseen_one :
    (n id : ℕ) (ids : List ℕ) → id < n → count id ids ≡ 0 → unseen n (id ∷ ids) + 1 ≡ unseen n ids
unfolding unseen
unseen_one zero id ids h new = absurd (omega arith)
unseen_one (suc n) id ids h new = ground (arith, unseen_one n id ids, unseen_above n id ids)

-- Different numbers below `n` are at most `n`.
pub unseen-length :
    (n : ℕ) (ids : List ℕ)
    → ((j : ℕ) → count j ids ≤ 1)
    → ((j : ℕ) → 1 ≤ count j ids → j < n)
    → unseen n ids + length ids ≡ n
unseen-length n [] o h = omega (arith, unseen_all n)
unseen-length n (id ∷ ids) o h =
    let rest = unseen-length n ids (λ j. ground (arith, o j)) (λ j q. h j (ground arith)) in
    ground (arith, rest, unseen_one n id ids, o id, h id)
