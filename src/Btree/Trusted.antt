-- ===== src/Btree/Trusted.antt =====
-- What a tree that Validate lets pass is like.
use scutedb.Base.{
  ℕ, ◌≡◌, refl, ap, arith, List, [], ◌∷◌, ◌++◌, All, All-append, Option, none, some, true, ok, err,
}
use scutedb.Base.{Result}
use scutedb.Btree.{Error}
use scutedb.Nodepage.{RowId}
use scutedb.Btree.{Key}
use scutedb.Btree.Keys.{lt}
use scutedb.Btree.Items.{Item, row, sep, item_lt, item_lt_trans, Below, IsSorted, zip_rows}
use scutedb.Btree.Separator.{Below-trans}
use scutedb.Btree.Validate.{in_order, under, within}
use scutedb.Btree.Checked.{After, Before}

depth_or : Option ℕ → Result Error (Option ℕ) → Option ℕ
depth_or d (ok e) = e
depth_or d (err f) = d

pub ok_inv : (a b : Option ℕ) → ◌≡◌ {A = Result Error (Option ℕ)} (ok a) (ok b) → a ≡ b
unfolding depth_or
ok_inv a b h = ap (depth_or a) h

-- The keys of a leaf, each below the next, are in order.
in_order-Below :
    (a : Key) (r : RowId) (ks : List Key) (rs : List RowId)
    → in_order (a ∷ ks) ≡ true
    → Below (row a r) (zip_rows ks rs)
unfolding zip_rows
in_order-Below a r [] rs h = tt
in_order-Below a r (k ∷ ks) [] h = tt
in_order-Below a r (k ∷ ks) (q ∷ rs) h =
    let less : lt a k ≡ true = ground (arith, h) in
    let rest : in_order (k ∷ ks) ≡ true = ground (arith, h) in
    (less, Below-trans (row a r) (row k q) (zip_rows ks rs) less (in_order-Below k q ks rs rest))

in_order-tail : (a : Key) (ks : List Key) → in_order (a ∷ ks) ≡ true → in_order ks ≡ true
in_order-tail a [] h = refl
in_order-tail a (k ∷ ks) h = ground (arith, h)

pub in_order-IsSorted :
    (ks : List Key) (rs : List RowId) → in_order ks ≡ true → IsSorted (zip_rows ks rs)
unfolding IsSorted zip_rows
in_order-IsSorted [] rs h = tt
in_order-IsSorted (k ∷ ks) [] h = tt
in_order-IsSorted (k ∷ ks) (r ∷ rs) h =
    (in_order-Below k r ks rs h, in_order-IsSorted ks rs (in_order-tail k ks h))

pub within-After :
    (low high : Option Key) (ks : List Key) (rs : List RowId)
    → within low high ks ≡ true
    → After low (zip_rows ks rs)
unfolding zip_rows
within-After none high ks rs h = tt
within-After (some low) high [] rs h = tt
within-After (some low) high (k ∷ ks) [] h = tt
within-After (some low) high (k ∷ ks) (r ∷ rs) h =
    (ground (arith, h), within-After (some low) high ks rs (ground (arith, h)))

pub within-Before :
    (low high : Option Key) (ks : List Key) (rs : List RowId)
    → within low high ks ≡ true
    → Before high (zip_rows ks rs)
unfolding zip_rows
within-Before low none ks rs h = tt
within-Before low (some high) [] rs h = tt
within-Before low (some high) (k ∷ ks) [] h = tt
within-Before low (some high) (k ∷ ks) (r ∷ rs) h =
    (ground (arith, h), within-Before low (some high) ks rs (ground (arith, h)))

pub IsSorted-join :
    (xs ys : List Item) → IsSorted xs → IsSorted ys → All (λ x. Below x ys) xs → IsSorted (xs ++ ys)
unfolding IsSorted
IsSorted-join [] ys s t h = t
IsSorted-join (x ∷ xs) ys (b, s) t (a, h) =
    (All-append (λ y. item_lt x y ≡ true) xs ys b a, IsSorted-join xs ys s t h)

-- What is before a separator is before all that stands behind it.
pub Before-Below :
    (k : Key) (xs ys : List Item)
    → Before (some k) xs
    → Below (sep k) ys
    → All (λ x. Below x (sep k ∷ ys)) xs
Before-Below k [] ys h b = tt
Before-Below k (x ∷ xs) ys (l, h) b = ((l, Below-trans x (sep k) ys l b), Before-Below k xs ys h b)

Before-all :
    (k : Key) (high : Option Key) (xs : List Item)
    → under high k ≡ true
    → Before (some k) xs
    → Before high xs
Before-all k none xs u h = tt
Before-all k (some z) [] u h = tt
Before-all k (some z) (x ∷ xs) u (l, h) =
    (item_lt_trans x (sep k) (sep z) l u, Before-all k (some z) xs u h)

abbrev pub HasItem : List Item → Type 0
HasItem [] = ⊥
HasItem (x ∷ xs) = Unit {0}

-- A child that is not empty keeps the separators at its sides apart.
After-sep :
    (low : Option Key) (k : Key) (xs : List Item)
    → HasItem xs
    → After low xs
    → Before (some k) xs
    → After low (sep k ∷ [])
After-sep none k xs i a b = tt
After-sep (some low) k [] i a b = absurd i
After-sep (some low) k (x ∷ xs) i (l, a) (m, b) = (item_lt_trans (sep low) x (sep k) l m, tt)

pub After-join :
    (low : Option Key) (k : Key) (xs ys : List Item)
    → HasItem xs
    → After low xs
    → Before (some k) xs
    → Below (sep k) ys
    → After low (xs ++ (sep k ∷ ys))
After-join none k xs ys i a b c = tt
After-join (some low) k xs ys i a b c =
    let (at, u) = After-sep (some low) k xs i a b in
    All-append (λ y. item_lt (sep low) y ≡ true) xs (sep k ∷ ys) a
      (at, Below-trans (sep low) (sep k) ys at c)

pub Before-join :
    (high : Option Key) (k : Key) (xs ys : List Item)
    → under high k ≡ true
    → Before (some k) xs
    → Before high ys
    → Before high (xs ++ (sep k ∷ ys))
Before-join none k xs ys u b c = tt
Before-join (some z) k xs ys u b c =
    All-append (λ x. item_lt x (sep z) ≡ true) xs (sep k ∷ ys) (Before-all k (some z) xs u b) (u, c)
