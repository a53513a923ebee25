-- ===== src/Base/Splice.antt =====
-- Overwriting part of a buffer, `copy(p[off:], bs)`, and the words read from it.
use scutedb.Base.Bytes.{be_bytes, be_uint, length-be_bytes, be_uint-be_bytes}
use scutedb.Base.Lists.{length, drop, take}
use Prim.Native.Nat.{ℕ, zero, suc, ◌+◌, ◌*◌, ◌%◌, ◌^◌, ◌≤◌}
use mathlib.Core.Path.{◌≡◌, refl, ap, ◌∙◌, sym}
use mathlib.Core.Logic.{◌⊎◌, inl, inr}
use mathlib.Core.List.{List, [], ◌∷◌, ◌++◌}
use native.Mathlib.Omega.{arith}

module _ {ℓ} {A : Type ℓ} where
  -- `copy(p[off:], bs)`, which stops at the end of `p`.
  abbrev pub splice : List A → ℕ → List A → List A
  splice [] off bs = []
  splice (x ∷ p) (suc off) bs = x ∷ splice p off bs
  splice (x ∷ p) zero [] = x ∷ p
  splice (x ∷ p) zero (b ∷ bs) = b ∷ splice p zero bs

  pub length-splice : (p : List A) (off : ℕ) (bs : List A) → length (splice p off bs) ≡ length p
  length-splice [] off bs = refl
  length-splice (x ∷ p) (suc off) bs = ap suc (length-splice p off bs)
  length-splice (x ∷ p) zero [] = refl
  length-splice (x ∷ p) zero (b ∷ bs) = ap suc (length-splice p zero bs)

  pub splice-all : (p bs : List A) → length bs ≡ length p → splice p 0 bs ≡ bs
  splice-all [] [] h = refl
  splice-all [] (b ∷ bs) h = absurd (omega arith)
  splice-all (x ∷ p) [] h = absurd (omega arith)
  splice-all (x ∷ p) (b ∷ bs) h = ap (λ t. b ∷ t) (splice-all p bs (omega arith))

  pub splice-splice :
      (p : List A) (off : ℕ) (xs ys : List A)
      → splice (splice p off xs) (off + length xs) ys ≡ splice p off (xs ++ ys)
  splice-splice [] off xs ys = refl
  splice-splice (z ∷ p) (suc off) xs ys =
      let shape : suc off + length xs ≡ suc (off + length xs) = omega arith in
      ap (λ k. splice (z ∷ splice p off xs) k ys) shape
      ∙ ap (λ t. z ∷ t) (splice-splice p off xs ys)
  splice-splice (z ∷ p) zero [] ys = refl
  splice-splice (z ∷ p) zero (x ∷ xs) ys =
      let shape : 0 + suc (length xs) ≡ suc (0 + length xs) = omega arith in
      ap (λ k. splice (x ∷ splice p zero xs) k ys) shape
      ∙ ap (λ t. x ∷ t) (splice-splice p zero xs ys)

  -- From the written part on, the bytes written and then what stood behind them.
  pub drop-splice_self :
      (p : List A) (off : ℕ) (bs : List A)
      → off + length bs ≤ length p
      → drop off (splice p off bs) ≡ bs ++ drop (off + length bs) p
  drop-splice_self [] zero [] h = refl
  drop-splice_self [] zero (b ∷ bs) h = absurd (omega arith)
  drop-splice_self [] (suc off) bs h = absurd (omega arith)
  drop-splice_self (x ∷ p) (suc off) bs h =
      let shape : suc (off + length bs) ≡ suc off + length bs = omega arith in
      drop-splice_self p off bs (omega arith) ∙ ap (λ k. bs ++ drop k (x ∷ p)) shape
  drop-splice_self (x ∷ p) zero [] h = refl
  drop-splice_self (x ∷ p) zero (b ∷ bs) h =
      let shape : suc (0 + length bs) ≡ 0 + suc (length bs) = omega arith in
      ap (λ t. b ∷ t) (drop-splice_self p zero bs (omega arith))
      ∙ ap (λ k. b ∷ (bs ++ drop k (x ∷ p))) shape

  pub drop-splice_after :
      (p : List A) (off j : ℕ) (bs : List A)
      → off + length bs ≤ j
      → drop j (splice p off bs) ≡ drop j p
  drop-splice_after [] off j bs h = refl
  drop-splice_after (x ∷ p) (suc off) zero bs h = absurd (omega arith)
  drop-splice_after (x ∷ p) (suc off) (suc j) bs h = drop-splice_after p off j bs (omega arith)
  drop-splice_after (x ∷ p) zero j [] h = refl
  drop-splice_after (x ∷ p) zero zero (b ∷ bs) h = absurd (omega arith)
  drop-splice_after (x ∷ p) zero (suc j) (b ∷ bs) h = drop-splice_after p zero j bs (omega arith)

  pub take-splice_before :
      (p : List A) (off j k : ℕ) (bs : List A)
      → j + k ≤ off
      → take k (drop j (splice p off bs)) ≡ take k (drop j p)
  take-splice_before [] off j k bs h = refl
  take-splice_before (x ∷ p) (suc off) zero zero bs h = refl
  take-splice_before (x ∷ p) (suc off) zero (suc k) bs h =
      ap (λ t. x ∷ t) (take-splice_before p off zero k bs (omega arith))
  take-splice_before (x ∷ p) (suc off) (suc j) k bs h =
      take-splice_before p off j k bs (omega arith)
  take-splice_before (x ∷ p) zero zero zero bs h = refl
  take-splice_before (x ∷ p) zero zero (suc k) bs h = absurd (omega arith)
  take-splice_before (x ∷ p) zero (suc j) k bs h = absurd (omega arith)

-- `binary.BigEndian.PutUint16(p[off:], v)` and `PutUint32`, and `p[off] = byte(v)` at one byte.
abbrev pub put_uint : ℕ → List ℕ → ℕ → ℕ → List ℕ
put_uint k p off v = splice p off (be_bytes k v)

-- `binary.BigEndian.Uint16(p[off:])` and `Uint32`, and `p[off]` at one byte.
abbrev pub get_uint : ℕ → List ℕ → ℕ → ℕ
get_uint k p off = be_uint k (drop off p)

be_uint-take : (k : ℕ) (bs : List ℕ) → be_uint k bs ≡ be_uint k (take k bs)
unfolding be_uint
be_uint-take zero bs = refl
be_uint-take (suc k) [] = refl
be_uint-take (suc k) (b ∷ bs) = ap (λ t. b * 256 ^ k + t) (be_uint-take k bs)

pub get_uint-put_uint_self :
    (k : ℕ) (p : List ℕ) (off v : ℕ)
    → off + k ≤ length p
    → get_uint k (put_uint k p off v) off ≡ v % 256 ^ k
get_uint-put_uint_self k p off v h =
    rw (drop-splice_self p off (be_bytes k v) (rw length-be_bytes h)) (be_uint-be_bytes k v _)

-- Bytes outside the written ones read as before.
pub get_uint-splice_ne :
    (k : ℕ) (p : List ℕ) (off j : ℕ) (bs : List ℕ)
    → (j + k ≤ off) ⊎ (off + length bs ≤ j)
    → get_uint k (splice p off bs) j ≡ get_uint k p j
get_uint-splice_ne k p off j bs (inl h) =
    be_uint-take k _ ∙ ap (be_uint k) (take-splice_before p off j k bs h) ∙ sym (be_uint-take k _)
get_uint-splice_ne k p off j bs (inr h) = ap (be_uint k) (drop-splice_after p off j bs h)

pub get_uint-put_uint_ne :
    (k : ℕ) (p : List ℕ) (off j n v : ℕ)
    → (j + k ≤ off) ⊎ (off + n ≤ j)
    → get_uint k (put_uint n p off v) j ≡ get_uint k p j
get_uint-put_uint_ne k p off j n v h =
    get_uint-splice_ne k p off j (be_bytes n v) (rw length-be_bytes h)
