-- ===== src/Btree/Index.antt =====
-- The binary searches in a node, and the same index found by going over the keys.
use scutedb.Base.{
  ℕ, zero, suc, ◌+◌, ◌≤◌, ◌<◌, ◌≡◌, refl, ap, arith, List, [], ◌∷◌, ◌++◌, All, Bool, true, not,
  if◌then◌else◌, if-cases, length, get_or,
}
use scutedb.Nodepage.{RowId, search_loop}
use scutedb.Nodepage.Searching.{IsLeast, search_loop-IsLeast}
use scutedb.Btree.{Key, Nodes, nil, cons, child_index, leaf_index}
use scutedb.Btree.Keys.{lt, lt_trans, le_trans, lt_asym}
use scutedb.Btree.Items.{
  Item, row, sep, item_lt, Below, IsSorted, zip_rows, items, items_among, IsSorted-append,
}
use scutedb.Btree.Delete.{node_count}

-- The number of keys below `key`.
abbrev pub linear_leaf : List Key → Key → ℕ
linear_leaf [] key = 0
linear_leaf (k ∷ ks) key = let rest = linear_leaf ks key in if lt k key then suc rest else 0

-- The number of keys up to `key`.
abbrev pub linear_child : List Key → Key → ℕ
linear_child [] key = 0
linear_child (k ∷ ks) key = let rest = linear_child ks key in if lt key k then 0 else suc rest

abbrev pub Ascending : List Key → Type 0
Ascending [] = Unit {0}
Ascending (k ∷ ks) = All (λ b. lt k b ≡ true) ks × Ascending ks

All-get_or :
    (k : Key) (ks : List Key) (i : ℕ)
    → All (λ b. lt k b ≡ true) ks
    → i < length ks
    → lt k (get_or ks i []) ≡ true
All-get_or k [] i h less = absurd (omega arith)
All-get_or k (b ∷ ks) zero (a, h) less = a
All-get_or k (b ∷ ks) (suc i) (a, h) less = All-get_or k ks i h (omega arith)

ascends :
    (ks : List Key) (i j : ℕ)
    → Ascending ks
    → i < j
    → j < length ks
    → lt (get_or ks i []) (get_or ks j []) ≡ true
ascends [] i j h ij jn = absurd (omega arith)
ascends (k ∷ ks) i zero h ij jn = absurd (omega arith)
ascends (k ∷ ks) zero (suc j) (a, h) ij jn = All-get_or k ks j a (omega arith)
ascends (k ∷ ks) (suc i) (suc j) (a, h) ij jn = ascends ks i j h (omega arith) (omega arith)

found-IsLeast :
    (f : ℕ → Bool) (n : ℕ)
    → ((i j : ℕ) → i < j → j < n → f i ≡ true → f j ≡ true)
    → IsLeast f n (search_loop f n 0 n)
found-IsLeast f n mono =
    search_loop-IsLeast f n mono n 0 n (omega arith) (omega arith) (omega arith)
      (λ k lt. absurd (omega arith)) (λ k ge lt. absurd (omega arith))

-- The least number is unique.
leaf_least :
    (ks : List Key) (key : Key) (r : ℕ)
    → IsLeast (λ i. not (lt (get_or ks i []) key)) (length ks) r
    → r ≡ linear_leaf ks key
leaf_least [] key r h = omega (arith, h.bounded)
leaf_least (k ∷ ks) key zero h =
    if-cases (λ n. 0 ≡ n) (lt k key) _ _
      (λ e. absurd (ground (arith, h.above 0 (omega arith) (omega arith), e))) (λ e. refl)
leaf_least (k ∷ ks) key (suc r) h =
    if-cases (λ n. suc r ≡ n) (lt k key) _ _
      (λ e. ap suc (
        leaf_least ks key r (record {
          bounded = omega (arith, h.bounded);
          below = λ i less. h.below (suc i) (omega arith);
          above = λ i ge less. h.above (suc i) (omega arith) (omega arith);
        })))
      (λ e. absurd (ground (arith, h.below 0 (omega arith), e)))

child_least :
    (ks : List Key) (key : Key) (r : ℕ)
    → IsLeast (λ i. lt key (get_or ks i [])) (length ks) r
    → r ≡ linear_child ks key
child_least [] key r h = omega (arith, h.bounded)
child_least (k ∷ ks) key zero h =
    if-cases (λ n. 0 ≡ n) (lt key k) _ _ (λ e. refl)
      (λ e. absurd (ground (arith, h.above 0 (omega arith) (omega arith), e)))
child_least (k ∷ ks) key (suc r) h =
    if-cases (λ n. suc r ≡ n) (lt key k) _ _
      (λ e. absurd (ground (arith, h.below 0 (omega arith), e)))
      (λ e. ap suc (
        child_least ks key r (record {
          bounded = omega (arith, h.bounded);
          below = λ i less. h.below (suc i) (omega arith);
          above = λ i ge less. h.above (suc i) (omega arith) (omega arith);
        })))

pub leaf_index-linear_leaf :
    (ks : List Key) (key : Key) → Ascending ks → leaf_index ks key ≡ linear_leaf ks key
unfolding leaf_index
leaf_index-linear_leaf ks key up = leaf_least ks key (leaf_index ks key) (
    found-IsLeast (λ i. not (lt (get_or ks i []) key)) (length ks)
      (λ i j ij jn h. ap not (
        le_trans key (get_or ks i []) (get_or ks j []) (ground (arith, h))
          (lt_asym (get_or ks i []) (get_or ks j []) (ascends ks i j up ij jn)))))

pub child_index-linear_child :
    (ks : List Key) (key : Key) → Ascending ks → child_index ks key ≡ linear_child ks key
unfolding child_index
child_index-linear_child ks key up = child_least ks key (child_index ks key) (
    found-IsLeast (λ i. lt key (get_or ks i [])) (length ks)
      (λ i j ij jn h. lt_trans key (get_or ks i []) (get_or ks j []) h (ascends ks i j up ij jn)))

pub linear_child-le : (ks : List Key) (key : Key) → linear_child ks key ≤ length ks
linear_child-le [] key = omega arith
linear_child-le (k ∷ ks) key =
    if-cases (λ n. n ≤ suc (length ks)) (lt key k) _ _ (λ e. omega arith)
      (λ e. omega (arith, linear_child-le ks key))

leaf_heads :
    (k : Key) (r : RowId) (js : List Key) (qs : List RowId)
    → length qs ≡ length js
    → Below (row k r) (zip_rows js qs)
    → All (λ j. lt k j ≡ true) js
unfolding zip_rows
leaf_heads k r [] qs same h = tt
leaf_heads k r (j ∷ js) [] same h = absurd (omega (arith, same))
leaf_heads k r (j ∷ js) (q ∷ qs) same (a, h) = (a, leaf_heads k r js qs (omega (arith, same)) h)

-- What the order of the items says of the keys of a node.
pub leaf-Ascending :
    (ks : List Key) (rs : List RowId)
    → length rs ≡ length ks
    → IsSorted (zip_rows ks rs)
    → Ascending ks
unfolding IsSorted zip_rows
leaf-Ascending [] rs same h = tt
leaf-Ascending (k ∷ ks) [] same h = absurd (omega (arith, same))
leaf-Ascending (k ∷ ks) (r ∷ rs) same (b, h) =
    (leaf_heads k r ks rs (omega (arith, same)) b, leaf-Ascending ks rs (omega (arith, same)) h)

pub All-behind : (P : Item → Type 0) (xs ys : List Item) → All P (xs ++ ys) → All P ys
All-behind P [] ys h = h
All-behind P (x ∷ xs) ys (a, h) = All-behind P xs ys h

child_heads :
    (k : Key) (cs : Nodes) (ks : List Key)
    → node_count cs ≡ length ks + 1
    → Below (sep k) (items_among cs ks)
    → All (λ j. lt k j ≡ true) ks
unfolding items
child_heads k cs [] same h = tt
child_heads k nil (j ∷ ks) same h = absurd (omega (arith, same))
child_heads k (cons c cs) (j ∷ ks) same h =
    let (a, g) =
      All-behind (λ y. item_lt (sep k) y ≡ true) (items c) (sep j ∷ items_among cs ks) h in
    (a, child_heads k cs ks (omega (arith, same)) g)

pub child-Ascending :
    (cs : Nodes) (ks : List Key)
    → node_count cs ≡ length ks + 1
    → IsSorted (items_among cs ks)
    → Ascending ks
unfolding IsSorted items
child-Ascending cs [] same h = tt
child-Ascending nil (k ∷ ks) same h = absurd (omega (arith, same))
child-Ascending (cons c cs) (k ∷ ks) same h =
    let (p, (b, q), l) = IsSorted-append (items c) (sep k ∷ items_among cs ks) h in
    (child_heads k cs ks (omega (arith, same)) b, child-Ascending cs ks (omega (arith, same)) q)
