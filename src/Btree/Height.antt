-- ===== src/Btree/Height.antt =====
-- How high a tree may be for the number of its keys.
use native.Mathlib.Nat.{
  pow-zero, pow-succ', mul_left_comm, mul-one, one-mul, add-mul, zero-mul, mul-le-mul_right,
}
use scutedb.Btree.Measure.{levels, root_levels, height, len, levels-IsShaped}
use Prim.Native.Nat.{◌*◌, ◌^◌}
use scutedb.Base.{
  ℕ, zero, suc, ◌+◌, ◌≤◌, ◌≡◌, refl, sym, ap, ◌∙◌, subst, arith, List, [], ◌∷◌, Option, none, some,
  length, length-append,
}
use scutedb.Nodepage.{RowId}
use scutedb.Btree.{Key, Node, Nodes, leaf, internal, nil, cons, Tree}
use scutedb.Btree.Items.{sep, rows_of, rows_of-append, zip_rows, items, items_among}
use scutedb.Btree.Delete.{key_count, node_count}
use scutedb.Btree.Shape.{IsShaped, AllShaped}
use scutedb.Btree.Balanced.{HasKeys, RootShaped}
use scutedb.Btree.Map.{root_items, IsTree}

-- What a subtree of height `h` holds at least.
abbrev pub held : ℕ → ℕ → ℕ
held least h = least * (least + 1) ^ h

length-zip_rows :
    (ks : List Key) (rs : List RowId)
    → length rs ≡ length ks
    → length (rows_of (zip_rows ks rs)) ≡ length ks
unfolding zip_rows rows_of
length-zip_rows [] rs e = refl
length-zip_rows (k ∷ ks) [] e = absurd (omega (arith, e))
length-zip_rows (k ∷ ks) (r ∷ rs) e = ap suc (length-zip_rows ks rs (omega (arith, e)))

held-suc : (least h : ℕ) → held least (suc h) ≡ (least + 1) * held least h
held-suc least h =
    ap (λ p. least * p) (pow-succ' (least + 1) h)
    ∙ mul_left_comm least (least + 1) ((least + 1) ^ h)

held-zero : (least : ℕ) → held least 0 ≡ least
held-zero least = ap (λ p. least * p) (pow-zero (least + 1)) ∙ mul-one least

one_more : (n m : ℕ) → (n + 1) * m ≡ n * m + m
one_more n m = add-mul n 1 m ∙ ap (λ k. n * m + k) (one-mul m)

module _ (least most : ℕ) where
  mutual
    unfolding items rows_of

    held-items :
        (n : Node) (h : ℕ)
        → IsShaped least most n h
        → least ≤ key_count n
        → held least h ≤ length (rows_of (items n))
    held-items (leaf addr ks rs nx) zero s e =
        omega (arith, length-zip_rows ks rs s, e, held-zero least)
    held-items (leaf addr ks rs nx) (suc h) s e = absurd s
    held-items (internal ks cs) zero s e = absurd s
    held-items (internal ks cs) (suc h) (even, all) e = omega (
      arith,
      held-suc least h,
      mul-le-mul_right {m = least + 1} {n = node_count cs} (held least h) (omega (arith, even, e)),
      held-items_among cs ks h all,
    )

    pub held-items_among :
        (cs : Nodes) (ks : List Key) (h : ℕ)
        → AllShaped least most cs h
        → node_count cs * held least h ≤ length (rows_of (items_among cs ks))
    held-items_among nil ks h all = omega (arith, zero-mul (held least h))
    held-items_among (cons c cs) [] h (s, few, many, all) = omega (
      arith,
      one_more (node_count cs) (held least h),
      held-items c h s few,
      held-items_among cs [] h all,
      ap length (rows_of-append (items c) (items_among cs [])),
      length-append (rows_of (items c)) (rows_of (items_among cs [])),
    )
    held-items_among (cons c cs) (k ∷ ks) h (s, few, many, all) = omega (
      arith,
      one_more (node_count cs) (held least h),
      held-items c h s few,
      held-items_among cs ks h all,
      ap length (rows_of-append (items c) (sep k ∷ items_among cs ks)),
      length-append (rows_of (items c)) (rows_of (items_among cs ks)),
    )

-- A root above `h` levels of inner nodes or leaves.
height_root :
    (t : Tree) (root : Option Node) (h : ℕ)
    → RootShaped t.min_keys t.max_keys root
    → root_levels root ≡ h + 2
    → 2 * held t.min_keys h ≤ length (rows_of (root_items root))
unfolding items levels
height_root t none h s e = absurd (omega (arith, e))
height_root t (some n) h s e = tall n s.height s.shaped s.branches e
  where
    tall :
        (n : Node) (g : ℕ)
        → IsShaped t.min_keys t.max_keys n g
        → HasKeys n
        → levels n ≡ h + 2
        → 2 * held t.min_keys h ≤ length (rows_of (items n))
    tall (leaf addr ks rs nx) g s b e = absurd (omega (arith, e))
    tall (internal ks cs) zero s b e = absurd s
    tall (internal ks cs) (suc g) (even, all) b e =
        let up = levels-IsShaped t.min_keys t.max_keys (internal ks cs) (suc g) (even, all) in
        let here : h ≡ g = omega (arith, up, e) in
        let low = mul-le-mul_right (held t.min_keys g) (two_children ks cs even b) in
        let sum = held-items_among t.min_keys t.max_keys cs ks g all in
        subst (λ g. 2 * held t.min_keys g ≤ length (rows_of (items_among cs ks))) (sym here)
          (omega (arith, low, sum))
      where
        two_children :
            (ks : List Key) (cs : Nodes)
            → node_count cs ≡ length ks + 1
            → 1 ≤ length ks
            → 2 ≤ node_count cs
        two_children ks cs e b = omega (arith, e, b)

-- A balanced tree with its keys in order whose height is `h + 2` counts at least
-- `2 * min_keys * (min_keys + 1) ^ h` keys.
pub height-le-len : (t : Tree) (h : ℕ) → IsTree t → height t ≡ h + 2 → 2 * held t.min_keys h ≤ len t
unfolding height
height-le-len t h tree e =
    subst (λ n. 2 * held t.min_keys h ≤ n) (sym tree.counted)
      (height_root t t.root h tree.balanced.root_shaped e)
