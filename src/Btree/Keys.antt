-- ===== src/Btree/Keys.antt =====
-- Keys in the order of their bytes.
use scutedb.Base.{
  inl, inr, Bool-cases, subst, ◌≡◌, refl, sym, ap, ◌∙◌, arith, [], ◌∷◌, Bool, true, false, not,
  compare_bytes,
}
use Prim.Native.Nat.{Ordering}
use scutedb.Nodepage.{is_less, is_equal}
use scutedb.Nodepage.Searching.{
  compare_bytes_trans, compare_bytes_refl, compare_bytes-eq, is_equal-eq,
}
use scutedb.Btree.{Key}

-- `bytes.Compare(a, b) < 0`
abbrev pub lt : Key → Key → Bool
lt a b = is_less (compare_bytes a b)

compare_bytes_total :
    (a b : Key)
    → is_less (compare_bytes a b) ≡ false
    → is_less (compare_bytes b a) ≡ false
    → compare_bytes a b ≡ Ordering.eq
unfolding compare_bytes
compare_bytes_total [] [] h k = refl
compare_bytes_total [] (y ∷ b) h k = ground arith
compare_bytes_total (x ∷ a) [] h k = ground arith
compare_bytes_total (x ∷ a) (y ∷ b) h k = ground (arith, compare_bytes_total a b)

less-lt : (o : Ordering) → is_less o ≡ true → o ≡ Ordering.lt
less-lt Ordering.lt h = refl
less-lt Ordering.eq h = ground arith
less-lt Ordering.gt h = ground arith

pub lt_irrefl : (a : Key) → lt a a ≡ false
lt_irrefl a = ap is_less (compare_bytes_refl a)

pub lt_trans : (a b c : Key) → lt a b ≡ true → lt b c ≡ true → lt a c ≡ true
lt_trans a b c h k = ap is_less (compare_bytes_trans a b c (less-lt _ h) (less-lt _ k))

pub lt_total : (a b : Key) → lt a b ≡ false → lt b a ≡ false → a ≡ b
lt_total a b h k = compare_bytes-eq a b (compare_bytes_total a b h k)

pub lt_asym : (a b : Key) → lt a b ≡ true → lt b a ≡ false
lt_asym a b h = ground (arith, lt_trans a b a, lt_irrefl a)

-- `a < b <= c` and `a <= b < c`.
pub lt-le_trans : (a b c : Key) → lt a b ≡ true → lt c b ≡ false → lt a c ≡ true
lt-le_trans a b c h k = elim (Bool-cases (lt b c)) [
  | inl e ↦ lt_trans a b c h e
  | inr e ↦ subst (λ x. lt a x ≡ true) (lt_total b c e k) h
]

pub le-lt_trans : (a b c : Key) → lt b a ≡ false → lt b c ≡ true → lt a c ≡ true
le-lt_trans a b c h k = elim (Bool-cases (lt a b)) [
  | inl e ↦ lt_trans a b c e k
  | inr e ↦ subst (λ x. lt x c ≡ true) (lt_total b a h e) k
]

pub le_trans : (a b c : Key) → lt b a ≡ false → lt c b ≡ false → lt c a ≡ false
le_trans a b c h k = elim (Bool-cases (lt c a)) [
  | inl e ↦ absurd (ground (arith, sym k ∙ lt-le_trans c a b e h))
  | inr e ↦ e
]

-- What bytes.Equal says.
pub is_equal-lt : (a b : Key) → lt a b ≡ false → is_equal (compare_bytes a b) ≡ not (lt b a)
is_equal-lt a b h = elim (Bool-cases (lt b a)) [
  | inl e ↦ rw e (elim (Bool-cases (is_equal (compare_bytes a b))) [
    | inl q ↦
        let same = compare_bytes-eq a b (is_equal-eq (compare_bytes a b) q) in
        absurd (ground (arith, sym e ∙ ap (λ x. lt x a) (sym same) ∙ lt_irrefl a))
    | inr q ↦ q
  ])
  | inr e ↦ rw e (ap is_equal (compare_bytes_total a b h e))
]
