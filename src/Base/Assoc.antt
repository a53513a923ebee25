-- ===== src/Base/Assoc.antt =====
-- A Go map with number keys, as an association list, and counting in lists of numbers.
use Prim.Native.Nat.{ℕ, ◌+◌}
use mathlib.Core.Path.{◌≡◌, refl}
use mathlib.Core.Bool.{Bool}
use mathlib.Core.Option.{Option, none, some}
use mathlib.Core.List.{List, [], ◌∷◌, ◌++◌}
use native.Mathlib.Omega.{arith}
use scutedb.Base.Test.{◌==◌, ltb, if◌then◌else◌, Option-cases}
use mathlib.Core.Logic.{inl, inr}

module _ {ℓ} {V : Type ℓ} where
  unfoldable pub lookup : ℕ → List (ℕ × V) → Option V
  lookup k [] = none
  lookup k ((i, found) ∷ rest) = if i == k then some found else lookup k rest

  unfoldable pub insert : ℕ → V → List (ℕ × V) → List (ℕ × V)
  insert k v [] = (k, v) ∷ []
  insert k v ((i, old) ∷ rest) = if i == k then (i, v) ∷ rest else (i, old) ∷ insert k v rest

  unfoldable pub delete : ℕ → List (ℕ × V) → List (ℕ × V)
  delete k [] = []
  delete k ((j, w) ∷ m) = if j == k then delete k m else (j, w) ∷ delete k m

  -- `for _, id := range ids { m[id] = v }`
  unfoldable pub insert_all : V → List ℕ → List (ℕ × V) → List (ℕ × V)
  unfolding insert
  insert_all v [] m = m
  insert_all v (k ∷ ks) m = insert_all v ks (insert k v m)

  pub lookup-nil : (k : ℕ) → ◌≡◌ {A = Option V} (lookup k []) none
  unfolding lookup
  lookup-nil k = refl

  pub lookup-insert :
      (k j : ℕ) (v : V) (m : List (ℕ × V))
      → lookup j (insert k v m) ≡ (if k == j then some v else lookup j m)
  unfolding lookup insert
  lookup-insert k j v [] = refl
  lookup-insert k j v ((i, old) ∷ rest) = ground (arith, lookup-insert k j v rest)

  pub lookup-delete :
      (k j : ℕ) (m : List (ℕ × V)) → lookup j (delete k m) ≡ (if k == j then none else lookup j m)
  unfolding lookup delete
  lookup-delete k j [] = ground arith
  lookup-delete k j ((i, w) ∷ m) = ground (arith, lookup-delete k j m)

-- How often a number stands in a list.
abbrev pub count : ℕ → List ℕ → ℕ
count a [] = 0
count a (x ∷ xs) = (if x == a then 1 else 0) + count a xs

abbrev pub has : ℕ → List ℕ → Bool
has a xs = ltb 0 (count a xs)

pub count-append : (a : ℕ) (xs ys : List ℕ) → count a (xs ++ ys) ≡ count a xs + count a ys
count-append a [] ys = omega arith
count-append a (head ∷ rest) ys = ground (arith, count-append a rest ys)

pub lookup-insert_all {ℓ} :
    {V : Type ℓ} (j : ℕ) (v : V) (ks : List ℕ) (m : List (ℕ × V))
    → lookup j (insert_all v ks m) ≡ (if has j ks then some v else lookup j m)
unfolding insert_all
lookup-insert_all j v [] m = refl
lookup-insert_all j v (k ∷ ks) m =
    ground (arith, lookup-insert_all j v ks (insert k v m), lookup-insert k j v m)

-- The last element and what stands before it: `xs[len(xs)-1]` and `xs[:len(xs)-1]`.
unfoldable pub unsnoc {ℓ} : {A : Type ℓ} → List A → Option (List A × A)
unsnoc [] = none
unsnoc (x ∷ xs) = elim (unsnoc xs) [ none ↦ some ([], x) | some (ys, y) ↦ some (x ∷ ys, y) ]

unsnoc-none {ℓ} : {A : Type ℓ} (xs : List A) → unsnoc xs ≡ none → xs ≡ []
unfolding unsnoc
unsnoc-none [] h = refl
unsnoc-none (x ∷ xs) h = ground arith

-- `unsnoc` is `none` on the empty list alone, and otherwise takes the list apart.
pub unsnoc-append {ℓ} :
    {A : Type ℓ} (xs ys : List A) (y : A) → unsnoc xs ≡ some (ys, y) → xs ≡ ys ++ (y ∷ [])
unfolding unsnoc
unsnoc-append [] ys y h = cc
unsnoc-append (x ∷ xs) ys y h = elim (Option-cases (unsnoc xs)) [
  | inl e ↦ ground (arith, unsnoc-none xs e)
  | inr ((zs, z), e) ↦ ground (arith, unsnoc-append xs zs z e)
]
