-- ===== src/Nodepage/Searching.antt =====
-- What Search finds in a node whose keys ascend.
use scutedb.Base.{ℕ, zero, suc, ◌+◌, ◌/◌, ◌≤◌, ◌<◌, ◌≡◌, refl, sym, ap, ap₂, ◌∙◌, arith, inl, inr}
use scutedb.Base.{Bool, true, false, not, ◌&&◌, ltb, ltb→lt, ltb→ge, lt→ltb, if-cases, Bool-cases}
use scutedb.Base.{List, [], ◌∷◌, compare_bytes}
use Prim.Native.Nat.{Ordering}
use scutedb.Page.{Page}
use scutedb.Nodepage.{key_ref, key_count, search_loop, search, is_less, is_equal}

pub compare_bytes_trans :
    (a b c : List ℕ)
    → compare_bytes a b ≡ Ordering.lt
    → compare_bytes b c ≡ Ordering.lt
    → compare_bytes a c ≡ Ordering.lt
unfolding compare_bytes
compare_bytes_trans [] [] c h k = ground arith
compare_bytes_trans [] (y ∷ b) [] h k = ground arith
compare_bytes_trans [] (y ∷ b) (z ∷ c) h k = refl
compare_bytes_trans (x ∷ a) [] c h k = ground arith
compare_bytes_trans (x ∷ a) (y ∷ b) [] h k = ground arith
compare_bytes_trans (x ∷ a) (y ∷ b) (z ∷ c) h k = ground (arith, compare_bytes_trans a b c)

pub compare_bytes_refl : (a : List ℕ) → compare_bytes a a ≡ Ordering.eq
unfolding compare_bytes
compare_bytes_refl [] = refl
compare_bytes_refl (x ∷ a) = ground (arith, compare_bytes_refl a)

pub compare_bytes-eq : (a b : List ℕ) → compare_bytes a b ≡ Ordering.eq → a ≡ b
unfolding compare_bytes
compare_bytes-eq [] [] h = refl
compare_bytes-eq [] (y ∷ b) h = ground arith
compare_bytes-eq (x ∷ a) [] h = ground arith
compare_bytes-eq (x ∷ a) (y ∷ b) h = ground (arith, compare_bytes-eq a b)

-- `r` is the least number below `n` that satisfies `f`, or `n`.
pub record IsLeast (f : ℕ → Bool) (n r : ℕ) : Type 0 where
  pub bounded : r ≤ n
  pub below : (k : ℕ) → k < r → f k ≡ false
  pub above : (k : ℕ) → r ≤ k → k < n → f k ≡ true

module _ (f : ℕ → Bool) (n : ℕ) (mono : (i j : ℕ) → i < j → j < n → f i ≡ true → f j ≡ true) where
  pub search_loop-IsLeast :
      (fuel i j : ℕ)
      → i ≤ j
      → j ≤ n
      → j ≤ i + fuel
      → ((k : ℕ) → k < i → f k ≡ false)
      → ((k : ℕ) → j ≤ k → k < n → f k ≡ true)
      → IsLeast f n (search_loop f fuel i j)
  unfolding search_loop
  search_loop-IsLeast zero i j ij jn enough lo hi = record {
    bounded = omega arith;
    below = lo;
    above = λ k ik kn. hi k (omega arith) kn;
  }
  search_loop-IsLeast (suc fuel) i j ij jn enough lo hi =
      let h = (i + j) / 2 in
      if-cases (IsLeast f n) (ltb i j) _ _
        (λ e.
          let lt = ltb→lt i j e in
          if-cases (IsLeast f n) (f h) _ _
            (λ t.
              search_loop-IsLeast fuel i h (omega arith) (omega arith) (omega arith) lo (λ k hk kn.
                elim (Bool-cases (ltb h k)) [
                  | inl q ↦ mono h k (ltb→lt _ _ q) kn t
                  | inr q ↦ ap f {x = k} {y = h} (omega (arith, ltb→ge _ _ q)) ∙ t
                ]))
            (λ t.
              search_loop-IsLeast fuel (h + 1) j (omega arith) jn (omega arith)
                (λ k hk. elim (Bool-cases (ltb k h)) [
                  | inl q ↦ elim (Bool-cases (f k)) [
                    | inl fk ↦ absurd (ground (arith, mono k h (ltb→lt _ _ q) (omega arith) fk))
                    | inr fk ↦ fk
                  ]
                  | inr q ↦ ap f {x = k} {y = h} (omega (arith, ltb→ge _ _ q)) ∙ t
                ])
                hi))
        (λ e. record {
          bounded = omega arith;
          below = lo;
          above = λ k ik kn. hi k (omega (arith, ltb→ge _ _ e)) kn;
        })

unfoldable pub IsSorted : Page → Type 0
IsSorted n =
    (i j : ℕ) → i < j → j < key_count n → compare_bytes (key_ref n i) (key_ref n j) ≡ Ordering.lt

pub is_less-lt : (o : Ordering) → not (is_less o) ≡ false → o ≡ Ordering.lt
is_less-lt Ordering.lt h = refl
is_less-lt Ordering.eq h = ground arith
is_less-lt Ordering.gt h = ground arith

pub is_equal-eq : (o : Ordering) → is_equal o ≡ true → o ≡ Ordering.eq
is_equal-eq Ordering.lt h = ground arith
is_equal-eq Ordering.eq h = refl
is_equal-eq Ordering.gt h = ground arith

both : (p q : Bool) → (p && q) ≡ true → (p ≡ true) × (q ≡ true)
both p q h = (ground arith, ground arith)

-- A search for `key` that came to the index `r.0`, and found the key there or not.
pub record IsFound (n : Page) (key : List ℕ) (r : ℕ × Bool) : Type 0 where
  pub in_node : r.0 ≤ key_count n
  pub smaller : (k : ℕ) → k < r.0 → compare_bytes (key_ref n k) key ≡ Ordering.lt
  pub no_smaller :
      (k : ℕ) → r.0 ≤ k → k < key_count n → not (is_less (compare_bytes (key_ref n k) key)) ≡ true
  pub found : r.1 ≡ true → (r.0 < key_count n) × (key_ref n r.0 ≡ key)
  pub never_missed : (k : ℕ) → k < key_count n → key_ref n k ≡ key → (r.1 ≡ true) × (r.0 ≡ k)

module _ (n : Page) (key : List ℕ) (sorted : IsSorted n) where
  abbrev not_less : ℕ → Bool
  not_less k = not (is_less (compare_bytes (key_ref n k) key))

  not_less_mono : (i j : ℕ) → i < j → j < key_count n → not_less i ≡ true → not_less j ≡ true
  unfolding IsSorted
  not_less_mono i j ij jn h = elim (Bool-cases (not_less j)) [
    | inl e ↦ e
    | inr e ↦
        let below =
          compare_bytes_trans (key_ref n i) (key_ref n j) key (sorted i j ij jn)
            (is_less-lt (compare_bytes (key_ref n j) key) e) in
        absurd (ground (arith, sym h ∙ ap (λ o. not (is_less o)) below))
  ]

  module _ (r : ℕ) (least : IsLeast not_less (key_count n) r) where
    hit : (k : ℕ) → k < key_count n → key_ref n k ≡ key → r ≡ k
    unfolding IsSorted
    hit k lt e = elim (Bool-cases (ltb k r)) [
      | inl q ↦
          let same = ap (λ a. not (is_less (compare_bytes a key))) e in
          let miss = least.below k (ltb→lt _ _ q) in
          absurd
            (ground (arith, sym miss ∙ same ∙ ap (λ o. not (is_less o)) (compare_bytes_refl key)))
      | inr q ↦ elim (Bool-cases (ltb r k)) [
        | inl w ↦
            let under = sorted r k (ltb→lt _ _ w) lt in
            let low = ap (compare_bytes (key_ref n r)) (sym e) ∙ under in
            let top = least.above r (omega arith) (omega (arith, ltb→lt _ _ w)) in
            absurd (ground (arith, sym top ∙ ap (λ o. not (is_less o)) low))
        | inr w ↦ omega (arith, ltb→ge _ _ q, ltb→ge _ _ w)
      ]
    ]

    least-IsFound :
        IsFound n key (r, ltb r (key_count n) && is_equal (compare_bytes (key_ref n r) key))
    least-IsFound = record {
      in_node = least.bounded;
      smaller = λ k lt. is_less-lt (compare_bytes (key_ref n k) key) (least.below k lt);
      no_smaller = least.above;
      found =
          λ e. let (p, q) = both _ _ e in (ltb→lt _ _ p, compare_bytes-eq _ _ (is_equal-eq _ q));
      never_missed = λ k lt e.
          let at = hit k lt e in
          let here =
            ap (λ a. compare_bytes a key) (ap (key_ref n) at ∙ e) ∙ compare_bytes_refl key in
          (ap₂ (λ x o. x && is_equal o) (lt→ltb r (key_count n) (omega arith)) here, at);
    }

  -- In a node whose keys ascend, Search returns the least index whose key is not below the one
  -- that it looks for, or the number of keys if there is none, and says whether that key is there:
  -- it finds every key of the node, at its index.
  pub search-IsFound : IsFound n key (search n key)
  unfolding search
  search-IsFound = least-IsFound (search_loop not_less (key_count n) 0 (key_count n)) (
      search_loop-IsLeast not_less (key_count n) not_less_mono (key_count n) 0 (key_count n)
        (omega arith) (omega arith) (omega arith) (λ k lt. absurd (omega arith))
        (λ k ge lt. absurd (omega arith)))
