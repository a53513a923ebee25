-- ===== src/Btree/Descent.antt =====
-- The items to the left and to the right of a child, and the search that descends to it.
use scutedb.Base.{
  ℕ, zero, suc, ◌+◌, ◌<◌, ◌≡◌, refl, sym, ap, ◌∙◌, subst, arith, List, [], ◌∷◌, ◌++◌, append_assoc,
  All-append, none, some, true, false, not, ◌&&◌, if◌then◌else◌, Bool-cases, ltb, lt→ltb, length,
  get_or, inl, inr, compare_bytes,
}
use scutedb.Nodepage.{RowId}
use scutedb.Btree.{
  Key, Node, Nodes, leaf, internal, nil, cons, leaf_index, is_at, no_row, leaf_get, get_node,
  get_child,
}
use scutedb.Btree.Keys.{lt, is_equal-lt}
use scutedb.Btree.Items.{
  Item, row, sep, item_lt, item_lt_trans, Below, IsSorted, rows_of, zip_rows, items, items_among,
  IsSorted-append,
}
use scutedb.Btree.Separator.{Below-trans}
use scutedb.Btree.Entries.{
  same, find, Under, find_front, find_back, Under-Lacks, Above-Lacks, unequal,
}
use scutedb.Btree.Delete.{node_count, node_at}
use scutedb.Btree.Shape.{IsShaped, AllShaped}
use scutedb.Btree.Index.{
  linear_leaf, linear_child, leaf_index-linear_leaf, child_index-linear_child, linear_child-le,
  leaf-Ascending, All-behind, child-Ascending,
}

unfoldable pub before : Nodes → ℕ → List Key → List Item
before nil i ks = []
before (cons c cs) zero ks = []
before (cons c cs) (suc i) [] = items c ++ before cs i []
before (cons c cs) (suc i) (k ∷ ks) = items c ++ (sep k ∷ before cs i ks)

unfoldable pub after : Nodes → ℕ → List Key → List Item
after nil i ks = []
after (cons c cs) zero [] = items_among cs []
after (cons c cs) zero (k ∷ ks) = sep k ∷ items_among cs ks
after (cons c cs) (suc i) [] = after cs i []
after (cons c cs) (suc i) (k ∷ ks) = after cs i ks

pub items_among-at :
    (cs : Nodes) (i : ℕ) (ks : List Key)
    → items_among cs ks ≡ before cs i ks ++ (items (node_at cs i) ++ after cs i ks)
unfolding before after items node_at
items_among-at nil i ks = refl
items_among-at (cons c cs) zero [] = refl
items_among-at (cons c cs) zero (k ∷ ks) = refl
items_among-at (cons c cs) (suc i) [] =
    ap (λ l. items c ++ l) (items_among-at cs i [])
    ∙ sym (append_assoc (items c) (before cs i []) (items (node_at cs i) ++ after cs i []))
items_among-at (cons c cs) (suc i) (k ∷ ks) =
    ap (λ l. items c ++ (sep k ∷ l)) (items_among-at cs i ks)
    ∙ sym (append_assoc (items c) (sep k ∷ before cs i ks) (items (node_at cs i) ++ after cs i ks))

Under-sep :
    (key k : Key) (rid : RowId) (xs ys : List Item)
    → IsSorted (xs ++ (sep k ∷ ys))
    → lt key k ≡ false
    → Under key rid (xs ++ (sep k ∷ []))
unfolding IsSorted
Under-sep key k rid [] ys h e = (ap not e, tt)
Under-sep key k rid (x ∷ xs) ys (b, h) e =
    let at = (All-behind (λ y. item_lt x y ≡ true) xs (sep k ∷ ys) b).0 in
    (item_lt_trans x (sep k) (row key rid) at (ap not e), Under-sep key k rid xs ys h e)

-- What stands to the left of the child is below the key, and what stands to its right is above.
pub before-Under :
    (key : Key) (rid : RowId) (cs : Nodes) (ks : List Key)
    → IsSorted (items_among cs ks)
    → Under key rid (before cs (linear_child ks key) ks)
unfolding before items
before-Under key rid nil ks h = tt
before-Under key rid (cons c cs) [] h = tt
before-Under key rid (cons c cs) (k ∷ ks) h = elim (Bool-cases (lt key k)) [
  | inl e ↦ rw e tt
  | inr e ↦
      let (p, q, l) =
        IsSorted-append (items c ++ (sep k ∷ [])) (items_among cs ks)
          (subst IsSorted (sym (append_assoc (items c) (sep k ∷ []) (items_among cs ks))) h) in
      rw e (
        subst (Under key rid)
          (append_assoc (items c) (sep k ∷ []) (before cs (linear_child ks key) ks))
          (All-append (λ x. item_lt x (row key rid) ≡ true) (items c ++ (sep k ∷ []))
            (before cs (linear_child ks key) ks)
            (Under-sep key k rid (items c) (items_among cs ks) h e) (before-Under key rid cs ks q)))
]

pub after-Above :
    (key : Key) (rid : RowId) (cs : Nodes) (ks : List Key)
    → node_count cs ≡ length ks + 1
    → IsSorted (items_among cs ks)
    → Below (row key rid) (after cs (linear_child ks key) ks)
unfolding after items IsSorted
after-Above key rid nil ks same h = tt
after-Above key rid (cons c nil) [] same h = tt
after-Above key rid (cons c (cons d cs)) [] same h = absurd (omega (arith, same))
after-Above key rid (cons c cs) (k ∷ ks) same h =
    let (p, (b, q), l) = IsSorted-append (items c) (sep k ∷ items_among cs ks) h in
    elim (Bool-cases (lt key k)) [
      | inl e ↦ rw e (e, Below-trans (row key rid) (sep k) (items_among cs ks) e b)
      | inr e ↦ rw e (after-Above key rid cs ks (omega (arith, same)) q)
    ]

-- The items of a child are sorted too.
pub child-IsSorted :
    (cs : Nodes) (i : ℕ) (ks : List Key)
    → IsSorted (items_among cs ks)
    → IsSorted (items (node_at cs i))
child-IsSorted cs i ks h =
    let (p, q, l) =
      IsSorted-append (before cs i ks) (items (node_at cs i) ++ after cs i ks)
        (subst IsSorted (items_among-at cs i ks) h) in
    (IsSorted-append (items (node_at cs i)) (after cs i ks) q).0

pub ltb-suc : (m n : ℕ) → ltb (suc m) (suc n) ≡ ltb m n
ltb-suc m n = ground arith

-- A search for a key of the leaf.
linear_get-find :
    (key : Key) (ks : List Key) (rs : List RowId)
    → length rs ≡ length ks
    → IsSorted (zip_rows ks rs)
    → (if is_at ks (linear_leaf ks key) key
        then some (get_or rs (linear_leaf ks key) no_row)
        else none)
      ≡ find key (rows_of (zip_rows ks rs))
unfolding IsSorted zip_rows find rows_of
linear_get-find key [] rs e h = refl
linear_get-find key (k ∷ ks) [] e h = absurd (omega (arith, e))
linear_get-find key (k ∷ ks) (r ∷ rs) e (b, h) = elim (Bool-cases (lt k key)) [
  | inl q ↦ rw q (
      rw (unequal (compare_bytes k key) q) (
        rw (ltb-suc (linear_leaf ks key) (length ks))
          (linear_get-find key ks rs (omega (arith, e)) h)))
  | inr q ↦ elim (Bool-cases (same k key)) [
    | inl z ↦ rw q (
        rw z
          (ap (λ b. if b && true then some r else none) (lt→ltb 0 (suc (length ks)) (omega arith))))
    | inr z ↦
        let less : lt key k ≡ true = ground (arith, is_equal-lt k key q, z) in
        let rest = Below-trans (row key no_row) (row k r) (zip_rows ks rs) less b in
        rw q (
          rw z (
            ap (λ b. if b && false then some r else none) (lt→ltb 0 (suc (length ks)) (omega arith))
            ∙ sym
                (find_back key [] (zip_rows ks rs) (Above-Lacks key no_row (zip_rows ks rs) rest))))
  ]
]

leaf_get-find :
    (key : Key) (ks : List Key) (rs : List RowId)
    → length rs ≡ length ks
    → IsSorted (zip_rows ks rs)
    → leaf_get ks rs key ≡ find key (rows_of (zip_rows ks rs))
unfolding leaf_index
leaf_get-find key ks rs e h =
    ap (λ i. if is_at ks i key then some (get_or rs i no_row) else none)
      (leaf_index-linear_leaf ks key (leaf-Ascending ks rs e h))
    ∙ linear_get-find key ks rs e h

mutual
  unfolding get_node items node_at

  pub get_node-find :
      (least most : ℕ) (key : Key) (n : Node) (h : ℕ)
      → IsShaped least most n h
      → IsSorted (items n)
      → get_node n key ≡ find key (rows_of (items n))
  get_node-find least most key (leaf addr ks rs next) zero s o = leaf_get-find key ks rs s o
  get_node-find least most key (leaf addr ks rs next) (suc h) s o = absurd s
  get_node-find least most key (internal ks cs) zero s o = absurd s
  get_node-find least most key (internal ks cs) (suc h) (e, all) o =
      let i = linear_child ks key in
      ap (λ i. get_child cs i key) (child_index-linear_child ks key (child-Ascending cs ks e o))
      ∙ get_child-find least most key cs i h all (omega (arith, e, linear_child-le ks key))
          (child-IsSorted cs i ks o)
      ∙ sym (
          ap (λ l. find key (rows_of l)) (items_among-at cs i ks)
          ∙ find_front key (before cs i ks) (items (node_at cs i) ++ after cs i ks)
              (Under-Lacks key no_row (before cs i ks) (before-Under key no_row cs ks o))
          ∙ find_back key (items (node_at cs i)) (after cs i ks)
              (Above-Lacks key no_row (after cs i ks) (after-Above key no_row cs ks e o)))

  get_child-find :
      (least most : ℕ) (key : Key) (cs : Nodes) (i h : ℕ)
      → AllShaped least most cs h
      → i < node_count cs
      → IsSorted (items (node_at cs i))
      → get_child cs i key ≡ find key (rows_of (items (node_at cs i)))
  get_child-find least most key nil i h s less o = absurd (omega arith)
  get_child-find least most key (cons c cs) zero h (s, a, b, t) less o =
      get_node-find least most key c h s o
  get_child-find least most key (cons c cs) (suc i) h (s, a, b, t) less o =
      get_child-find least most key cs i h t (omega arith) o
