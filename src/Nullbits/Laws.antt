-- ===== src/Nullbits/Laws.antt =====
-- What a bitmap says of a field after another was marked, and what Any and Count say of it.
use scutedb.Base.{ltb→lt}
use scutedb.Base.{subst}
use scutedb.Base.{◌-◌}
use scutedb.Base.{
  ℕ, zero, suc, ◌+◌, ◌/◌, ◌%◌, ◌≤◌, ◌<◌, ◌≡◌, refl, ap, ◌∙◌, arith, min, bit_or, inl, inr,
}
use scutedb.Base.{Bool, true, false, ◌&&◌, ltb, ◌==◌, ==→eq, if◌then◌else◌, if-cases, Bool-cases}
use scutedb.Base.{
  [], ◌∷◌, length, length-set, get_or, get_or-set_self, get_or-set_ne, set, All, IsByte,
}
use scutedb.Base.Int.{ℤ, pos, negsuc}
use scutedb.Nullbits.Bitmap.{
  Bitmap, fields, bit_at, and_not, set_null, set_present, is_null, any_loop, any, count_loop, count,
}
use scutedb.Nullbits.Bits.{test, test-bit_or, test-and_not}

get_or-IsByte : (b : Bitmap) (k : ℕ) → All IsByte b → get_or b k 0 < 256
get_or-IsByte [] k h = omega arith
get_or-IsByte (x ∷ b) zero h = h.0
get_or-IsByte (x ∷ b) (suc k) h = get_or-IsByte b k h.1

get_or-set :
    (b : Bitmap) (k m v : ℕ)
    → k < length b
    → get_or (set b k v) m 0 ≡ (if k == m then v else get_or b m 0)
get_or-set b k m v h = elim (Bool-cases (k == m)) [
  | inl e ↦ ground (arith, get_or-set_self b k v 0 h)
  | inr e ↦ ground (arith, get_or-set_ne b k m v 0 (λ q. ground arith))
]

-- The bit that stands for the field `i`.
abbrev bit : Bitmap → ℕ → Bool
bit b i = test (get_or b (i / 8) 0) (i % 8)

bit-set :
    (b : Bitmap) (i j v : ℕ) (w : Bool)
    → i < fields b
    → test v (j % 8) ≡ (if i % 8 == j % 8 then w else test (get_or b (i / 8) 0) (j % 8))
    → bit (set b (i / 8) v) j ≡ (if i == j then w else bit b j)
bit-set b i j v w h t = elim (Bool-cases (i / 8 == j / 8)) [
  | inl e ↦ ground (arith, get_or-set b (i / 8) (j / 8) v (omega arith), ==→eq _ _ e)
  | inr e ↦ ground (arith, get_or-set b (i / 8) (j / 8) v (omega arith))
]

module _ (b : Bitmap) (i j : ℕ) (h : All IsByte b) (lt : i < fields b) where
  bit-set_null :
      bit (set b (i / 8) (bit_or (get_or b (i / 8) 0) (bit_at i))) j
      ≡ (if i == j then true else bit b j)
  bit-set_null = bit-set b i j _ true lt (
      test-bit_or (get_or b (i / 8) 0) (i % 8) (j % 8) (get_or-IsByte b (i / 8) h) (omega arith)
        (omega arith))

  bit-set_present :
      bit (set b (i / 8) (and_not (get_or b (i / 8) 0) (bit_at i))) j
      ≡ (if i == j then false else bit b j)
  bit-set_present = bit-set b i j _ false lt (
      test-and_not (get_or b (i / 8) 0) (i % 8) (j % 8) (get_or-IsByte b (i / 8) h) (omega arith)
        (omega arith))

length-set_if :
    (b : Bitmap) (i v : ℕ) → length (if ltb i (fields b) then set b (i / 8) v else b) ≡ length b
length-set_if b i v =
    if-cases (λ (t : Bitmap). length t ≡ length b) (ltb i (fields b)) _ _
      (λ e. length-set b (i / 8) v) (λ e. refl)

-- The field `j` is the field `i`, and the bitmap has it.
abbrev pub marks_field : Bitmap → ℤ → ℤ → Bool
marks_field b (pos i) (pos j) = ltb i (fields b) && i == j
marks_field b (pos i) (negsuc j) = false
marks_field b (negsuc i) j = false

-- In a bitmap of bytes, SetNull makes the field that it is given null and leaves every other field
-- as it was, and SetPresent makes it present; an index that the bitmap does not have changes
-- nothing. Both keep the bitmap's length.
pub is_null-set_null :
    (b : Bitmap) (i j : ℤ)
    → All IsByte b
    → (is_null (set_null b i) j ≡ (if marks_field b i j then true else is_null b j))
      × (is_null (set_present b i) j ≡ (if marks_field b i j then false else is_null b j))
      × (length (set_null b i) ≡ length b)
      × (length (set_present b i) ≡ length b)
unfolding set_null set_present is_null
is_null-set_null b (negsuc i) j h = (refl, refl, refl, refl)
is_null-set_null b (pos i) (negsuc j) h = (refl, refl, length-set_if b i _, length-set_if b i _)
is_null-set_null b (pos i) (pos j) h = (
  if-cases
      (λ t. is_null t (pos j) ≡ (if marks_field b (pos i) (pos j) then true else is_null b (pos j)))
      (ltb i (fields b)) _ _
      (λ e. ground (
        arith,
        length-set b (i / 8) (bit_or (get_or b (i / 8) 0) (bit_at i)),
        bit-set_null b i j h (ltb→lt _ _ e),
      ))
      (λ e. ground arith),
  if-cases
      (λ t.
        is_null t (pos j) ≡ (if marks_field b (pos i) (pos j) then false else is_null b (pos j)))
      (ltb i (fields b)) _ _
      (λ e. ground (
        arith,
        length-set b (i / 8) (and_not (get_or b (i / 8) 0) (bit_at i)),
        bit-set_present b i j h (ltb→lt _ _ e),
      ))
      (λ e. ground arith),
  length-set_if b i _,
  length-set_if b i _,
)

abbrev pub first_fields : Bitmap → ℤ → ℕ
first_fields b (negsuc n) = 0
first_fields b (pos n) = min n (fields b)

-- How many of the `k` fields from `i` on are null.
unfoldable pub nulls : Bitmap → ℕ → ℕ → ℕ
nulls b i zero = 0
nulls b i (suc k) = (if is_null b (pos i) then 1 else 0) + nulls b (i + 1) k

nulls-none : (b : Bitmap) (i m : ℕ) → m ≤ i → nulls b i (m - i) ≡ 0
unfolding nulls
nulls-none b i m h = subst (λ k. nulls b i k ≡ 0) {x = 0} (omega arith) refl

nulls-some :
    (b : Bitmap) (i m : ℕ)
    → i < m
    → nulls b i (m - i) ≡ (if is_null b (pos i) then 1 else 0) + nulls b (i + 1) (m - (i + 1))
unfolding nulls
nulls-some b i m h =
    subst (λ k. nulls b i k ≡ (if is_null b (pos i) then 1 else 0) + nulls b (i + 1) (m - (i + 1)))
      {x = suc (m - (i + 1))} (omega arith) refl

count_loop-nulls :
    (b : Bitmap) (n fuel i c : ℕ)
    → n ≤ i + fuel
    → count_loop b n fuel i c ≡ c + nulls b i (min n (fields b) - i)
unfolding count_loop
count_loop-nulls b n zero i c h = ground (arith, nulls-none b i (min n (fields b)) (omega arith))
count_loop-nulls b n (suc fuel) i c h = ground (
  arith,
  nulls-none b i (min n (fields b)),
  nulls-some b i (min n (fields b)),
  count_loop-nulls b n fuel (i + 1) (if is_null b (pos i) then c + 1 else c) (omega arith),
)

any_loop-nulls :
    (b : Bitmap) (n fuel i : ℕ)
    → n ≤ i + fuel
    → any_loop b n fuel i ≡ ltb 0 (nulls b i (min n (fields b) - i))
unfolding any_loop
any_loop-nulls b n zero i h = ground (arith, nulls-none b i (min n (fields b)) (omega arith))
any_loop-nulls b n (suc fuel) i h = ground (
  arith,
  nulls-none b i (min n (fields b)),
  nulls-some b i (min n (fields b)),
  any_loop-nulls b n fuel (i + 1) (omega arith),
)

-- Of `n` fields, or of all of the bitmap's if those are fewer, Count says how many are null, and Any
-- whether one is; of a negative number of fields Count says 0 and Any says no.
pub count_lem :
    (b : Bitmap) (n : ℤ)
    → (count b n ≡ nulls b 0 (first_fields b n)) × (any b n ≡ ltb 0 (count b n))
unfolding count any
count_lem b (negsuc n) = unfold nulls in (refl, refl)
count_lem b (pos n) =
    let counted = count_loop-nulls b n n 0 0 (omega arith) in
    let all : min n (fields b) - 0 ≡ min n (fields b) = omega arith in
    (
      omega (arith, counted, ap (nulls b 0) all),
      any_loop-nulls b n n 0 (omega arith) ∙ ap (ltb 0) (omega (arith, counted)),
    )
