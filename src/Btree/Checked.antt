-- ===== src/Btree/Checked.antt =====
-- Validate finds nothing wrong with a tree.
use scutedb.Base.{
  ℕ, ◌+◌, ◌≤◌, ◌≡◌, refl, ap, ◌∙◌, arith, List, [], ◌∷◌, ◌++◌, All, Option, none, some, Bool, true,
  false, not, ◌&&◌, if-cases, ltb, leb, length, ◌==◌, inl, inr, ◌⊎◌, ok,
}
use scutedb.Base.{Result, ◌||◌}
use scutedb.Btree.{Error}
use scutedb.Nodepage.{RowId}
use scutedb.Btree.{Key, Node, Nodes, nil, cons}
use scutedb.Btree.Keys.{lt_asym}
use scutedb.Btree.Items.{Item, sep, item_lt, Below, zip_rows, items, items_among, All-front}
use scutedb.Btree.Delete.{key_count, node_count}
use scutedb.Btree.Index.{Ascending, All-behind}
use scutedb.Btree.Balanced.{HasKeys}
use scutedb.Btree.Validate.{
  in_order, not_under, under, within, keys_fit, same_depth, check_leaf, check_inner,
}

abbrev pub After : Option Key → List Item → Type 0
After none xs = Unit {0}
After (some low) xs = Below (sep low) xs

abbrev pub Before : Option Key → List Item → Type 0
Before none xs = Unit {0}
Before (some high) xs = All (λ x. item_lt x (sep high) ≡ true) xs

Ascending-in_order : (ks : List Key) → Ascending ks → in_order ks ≡ true
Ascending-in_order [] h = refl
Ascending-in_order (a ∷ []) h = refl
Ascending-in_order (a ∷ (b ∷ ks)) ((l, m), h) = rw l (Ascending-in_order (b ∷ ks) h)

-- The keys of a node are between its bounds.
pub leaf-within :
    (low high : Option Key) (ks : List Key) (rs : List RowId)
    → length rs ≡ length ks
    → After low (zip_rows ks rs)
    → Before high (zip_rows ks rs)
    → within low high ks ≡ true
unfolding zip_rows
leaf-within low high [] rs e a b = refl
leaf-within low high (k ∷ ks) [] e a b = absurd (omega (arith, e))
leaf-within none none (k ∷ ks) (r ∷ rs) e a b = leaf-within none none ks rs (omega (arith, e)) tt tt
leaf-within none (some z) (k ∷ ks) (r ∷ rs) e a (l, b) =
    rw l (leaf-within none (some z) ks rs (omega (arith, e)) tt b)
leaf-within (some y) none (k ∷ ks) (r ∷ rs) e (m, a) b =
    rw m (leaf-within (some y) none ks rs (omega (arith, e)) a tt)
leaf-within (some y) (some z) (k ∷ ks) (r ∷ rs) e (m, a) (l, b) =
    rw m (rw l (leaf-within (some y) (some z) ks rs (omega (arith, e)) a b))

pub After-front : (low : Option Key) (xs ys : List Item) → After low (xs ++ ys) → After low xs
After-front none xs ys h = tt
After-front (some low) xs ys h = All-front (λ y. item_lt (sep low) y ≡ true) xs ys h

pub After-back : (low : Option Key) (xs ys : List Item) → After low (xs ++ ys) → After low ys
After-back none xs ys h = tt
After-back (some low) xs ys h = All-behind (λ y. item_lt (sep low) y ≡ true) xs ys h

pub Before-back : (high : Option Key) (xs ys : List Item) → Before high (xs ++ ys) → Before high ys
Before-back none xs ys h = tt
Before-back (some high) xs ys h = All-behind (λ x. item_lt x (sep high) ≡ true) xs ys h

pub Before-front : (high : Option Key) (xs ys : List Item) → Before high (xs ++ ys) → Before high xs
Before-front none xs ys h = tt
Before-front (some high) xs ys h = All-front (λ x. item_lt x (sep high) ≡ true) xs ys h

After-not_under :
    (low : Option Key) (k : Key) (xs : List Item) → After low (sep k ∷ xs) → not_under low k ≡ true
After-not_under none k xs h = refl
After-not_under (some low) k xs (l, h) = ap not (lt_asym low k l)

Before-under :
    (high : Option Key) (k : Key) (xs : List Item) → Before high (sep k ∷ xs) → under high k ≡ true
Before-under none k xs h = refl
Before-under (some high) k xs (l, h) = l

pub inner-within :
    (low high : Option Key) (cs : Nodes) (ks : List Key)
    → node_count cs ≡ length ks + 1
    → After low (items_among cs ks)
    → Before high (items_among cs ks)
    → within low high ks ≡ true
unfolding items
inner-within low high cs [] e a b = refl
inner-within low high nil (k ∷ ks) e a b = absurd (omega (arith, e))
inner-within low high (cons c cs) (k ∷ ks) e a b =
    let rest = items_among cs ks in
    let a' = After-back low (items c) (sep k ∷ rest) a in
    let b' = Before-back high (items c) (sep k ∷ rest) b in
    rw (After-not_under low k rest a') (
      rw (Before-under high k rest b') (
        inner-within low high cs ks (omega (arith, e)) (After-back low (sep k ∷ []) rest a')
          (Before-back high (sep k ∷ []) rest b')))

pub first-Before :
    (k : Key) (xs ys : List Item) → All (λ x. Below x (sep k ∷ ys)) xs → Before (some k) xs
first-Before k [] ys h = tt
first-Before k (x ∷ xs) ys ((l, m), h) = (l, first-Before k xs ys h)

all_true :
    (a b c d : Bool) → a ≡ true → b ≡ true → c ≡ true → d ≡ true → (a && (b && (c && d))) ≡ true
all_true a b c d p q r s = rw p (rw q (rw r s))

abbrev pub Depth : Option ℕ → ℕ → Type 0
Depth depth d = (depth ≡ none) ⊎ (depth ≡ some d)

same_depth-Depth : (depth : Option ℕ) (d : ℕ) → Depth depth d → same_depth depth d ≡ ok (some d)
same_depth-Depth depth d (inl e) = ap (λ x. same_depth x d) e
same_depth-Depth depth d (inr e) =
    ap (λ x. same_depth x d) e
    ∙ if-cases {A = Result Error (Option ℕ)} (λ r. r ≡ ok (some d)) (d == d) _ _ (λ q. refl)
        (λ q. absurd (ground (arith, q)))

-- The least number of keys does not bind the root.
abbrev pub Enough : ℕ → Bool → Node → Type 0
Enough least is_root n =
    ((is_root ≡ true) × HasKeys n) ⊎ ((is_root ≡ false) × (least ≤ key_count n))

module _ (least most : ℕ) where
  pub fit :
      (is_root : Bool) (low high : Option Key) (ks : List Key)
      → Ascending ks
      → within low high ks ≡ true
      → length ks ≤ most
      → (is_root ≡ true) ⊎ (least ≤ length ks)
      → keys_fit least most is_root low high ks ≡ true
  fit is_root low high ks up between small enough =
      all_true _ _ _ _ (Ascending-in_order ks up) between (ground (arith, small)) (roomy enough)
    where
      roomy : (is_root ≡ true) ⊎ (least ≤ length ks) → (is_root || leb least (length ks)) ≡ true
      roomy (inl e) = ground (arith, e)
      roomy (inr e) = ground (arith, e)

  pub Enough-keys :
      (is_root : Bool) (n : Node)
      → Enough least is_root n
      → (is_root ≡ true) ⊎ (least ≤ key_count n)
  Enough-keys is_root n (inl (e, h)) = inl e
  Enough-keys is_root n (inr (e, h)) = inr h

  pub check_leaf-passes :
      (b : Bool) (ks : List Key) (rs : List RowId) (depth : Option ℕ) (level : ℕ)
      → b ≡ true
      → length rs ≡ length ks
      → Depth depth level
      → check_leaf b ks rs depth level ≡ ok (some level)
  check_leaf-passes b ks rs depth level q e d = rw q (
      if-cases {A = Result Error (Option ℕ)} (λ r. r ≡ ok (some level)) (length rs == length ks) _ _
        (λ z. same_depth-Depth depth level d) (λ z. absurd (ground (arith, z, e))))

  pub check_inner-passes :
      (b is_root : Bool) (ks : List Key) (cs : Nodes) (below : Result Error (Option ℕ))
      → b ≡ true
      → node_count cs ≡ length ks + 1
      → (is_root ≡ true → 1 ≤ length ks)
      → check_inner b is_root ks cs below ≡ below
  check_inner-passes b is_root ks cs below q e one = rw q (
      if-cases {A = Result Error (Option ℕ)} (λ r. r ≡ below) (not (node_count cs == length ks + 1))
        _ _ (λ z. absurd (ground (arith, z, e)))
        (λ z.
          if-cases {A = Result Error (Option ℕ)} (λ r. r ≡ below) (is_root && ltb (node_count cs) 2)
            _ _ (λ y. absurd (ground (arith, y, e, one))) (λ y. refl)))
