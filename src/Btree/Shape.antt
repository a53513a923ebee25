-- ===== src/Btree/Shape.antt =====
-- The shape of the tree: all leaves at one depth, one child more than keys, and bounds on the keys.
use scutedb.Btree.Delete.{key_count, node_count}
use scutedb.Base.{
  ℕ, zero, suc, ◌+◌, ◌-◌, ◌/◌, ◌≤◌, ◌≡◌, refl, ◌∙◌, subst, arith, if-cases, List, ◌∷◌, length,
  length-append, length-take, length-drop, length-set, take, drop, min, Option, none, some, Bool,
}
use scutedb.Base.{leb}
use scutedb.Nodepage.{RowId}
use scutedb.Btree.{
  Key, Node, Nodes, leaf, internal, nil, cons, Inserted, beside, insert_elem, take_nodes,
  drop_nodes, split_leaf, split_internal, insert_leaf, insert_internal, insert, insert_child,
  child_index, leaf_index, is_at,
}

module _ (least most : ℕ) where
  -- A node whose leaves all lie `h` levels below it. Every node but this one has at least `least`
  -- keys, and at most `most`.
  abbrev mutual
    pub IsShaped : Node → ℕ → Type 0
    IsShaped (leaf addr keys rows next) zero = length rows ≡ length keys
    IsShaped (leaf addr keys rows next) (suc h) = ⊥
    IsShaped (internal keys children) zero = ⊥
    IsShaped (internal keys children) (suc h) =
        (node_count children ≡ length keys + 1) × AllShaped children h

    pub AllShaped : Nodes → ℕ → Type 0
    AllShaped nil h = Unit {0}
    AllShaped (cons c cs) h =
        IsShaped c h × (least ≤ key_count c) × (key_count c ≤ most) × AllShaped cs h

pub length-insert_elem :
    {A : Type 0} (i : ℕ) (x : A) (xs : List A) → length (insert_elem i x xs) ≡ length xs + 1
unfolding insert_elem
length-insert_elem i x xs =
    omega (arith, length-append (take i xs) (x ∷ drop i xs), length-take i xs, length-drop i xs)

pub node_count-take_nodes :
    (n : ℕ) (cs : Nodes) → node_count (take_nodes n cs) ≡ min n (node_count cs)
unfolding take_nodes
node_count-take_nodes zero cs = omega arith
node_count-take_nodes (suc n) nil = omega arith
node_count-take_nodes (suc n) (cons c cs) = omega (arith, node_count-take_nodes n cs)

node_count-drop_nodes : (n : ℕ) (cs : Nodes) → node_count (drop_nodes n cs) ≡ node_count cs - n
unfolding drop_nodes
node_count-drop_nodes zero cs = omega arith
node_count-drop_nodes (suc n) nil = omega arith
node_count-drop_nodes (suc n) (cons c cs) = omega (arith, node_count-drop_nodes n cs)

module _ (least most : ℕ) where
  pub take_nodes-AllShaped :
      (n : ℕ) (cs : Nodes) (h : ℕ)
      → AllShaped least most cs h
      → AllShaped least most (take_nodes n cs) h
  unfolding take_nodes
  take_nodes-AllShaped zero cs h a = tt
  take_nodes-AllShaped (suc n) nil h a = tt
  take_nodes-AllShaped (suc n) (cons c cs) h (a, b, d, e) = (a, b, d, take_nodes-AllShaped n cs h e)

  drop_nodes-AllShaped :
      (n : ℕ) (cs : Nodes) (h : ℕ)
      → AllShaped least most cs h
      → AllShaped least most (drop_nodes n cs) h
  unfolding drop_nodes
  drop_nodes-AllShaped zero cs h a = a
  drop_nodes-AllShaped (suc n) nil h a = tt
  drop_nodes-AllShaped (suc n) (cons c cs) h (a, b, d, e) = drop_nodes-AllShaped n cs h e

  -- A node with `k` keys after an insertion, and the one to its right if it was split.
  abbrev pub Fits : ℕ → ℕ → Node → Option (Key × Node) → Type 0
  Fits h k n none = IsShaped least most n h × (k ≤ key_count n) × (key_count n ≤ most)
  Fits h k n (some (sep, r)) =
      IsShaped least most n h
      × (least ≤ key_count n)
      × (key_count n ≤ most)
      × IsShaped least most r h
      × (least ≤ key_count r)
      × (key_count r ≤ most)

  abbrev pub FitsIn : ℕ → ℕ → Inserted → Type 0
  FitsIn h k r = Fits h k r.node r.split

  -- The children of a node of `k` keys after an insertion.
  abbrev pub FitsBelow : ℕ → ℕ → Nodes → Option Key → Type 0
  FitsBelow h k cs none = AllShaped least most cs h × (node_count cs ≡ k)
  FitsBelow h k cs (some sep) = AllShaped least most cs h × (node_count cs ≡ k + 1)

  module _ (room : 2 ≤ most) (half : least ≤ most / 2) where
    split_leaf-Fits :
        (fresh addr k : ℕ) (keys : List Key) (rows : List RowId) (next : Option ℕ)
        → length rows ≡ length keys
        → length keys ≡ most + 1
        → FitsIn 0 k (split_leaf fresh addr keys rows next)
    unfolding split_leaf
    split_leaf-Fits fresh addr k keys rows next same over =
        let mid = length keys / 2 in
        let kt = length-take mid keys in
        let kd = length-drop mid keys in
        let rt = length-take mid rows in
        let rd = length-drop mid rows in
        (
          omega (arith, kt, rt, same),
          omega (arith, kt),
          omega (arith, kt),
          omega (arith, kd, rd, same),
          omega (arith, kd),
          omega (arith, kd),
        )

    split_internal-Fits :
        (h k : ℕ) (keys : List Key) (cs : Nodes) (added : Bool)
        → AllShaped least most cs h
        → node_count cs ≡ length keys + 1
        → length keys ≡ most + 1
        → FitsIn (suc h) k (split_internal keys cs added)
    unfolding split_internal
    split_internal-Fits h k keys cs added all same over =
        let mid = length keys / 2 in
        let kt = length-take mid keys in
        let kd = length-drop (mid + 1) keys in
        let ct = node_count-take_nodes (mid + 1) cs in
        let cd = node_count-drop_nodes (mid + 1) cs in
        (
          (omega (arith, kt, ct, same), take_nodes-AllShaped (mid + 1) cs h all),
          omega (arith, kt),
          omega (arith, kt),
          (omega (arith, kd, cd, same), drop_nodes-AllShaped (mid + 1) cs h all),
          omega (arith, kd),
          omega (arith, kd),
        )

    insert_leaf-Fits :
        (fresh : ℕ) (key : Key) (rid : RowId) (addr : ℕ) (keys : List Key) (rows : List RowId)
        (next : Option ℕ)
        → length rows ≡ length keys
        → length keys ≤ most
        → FitsIn 0 (length keys) (insert_leaf most fresh key rid addr keys rows next)
    unfolding insert_leaf
    insert_leaf-Fits fresh key rid addr keys rows next same small =
        let i = leaf_index keys key in
        let k1 = length-insert_elem i key keys in
        let r1 = length-insert_elem i rid rows in
        if-cases (FitsIn 0 (length keys)) (is_at keys i key) _ _
          (λ e. (length-set rows i rid ∙ same, omega arith, small))
          (λ e.
            if-cases (FitsIn 0 (length keys)) (leb (length (insert_elem i key keys)) most) _ _
              (λ e'. (omega (arith, k1, r1, same), omega (arith, k1), ground (arith, e')))
              (λ e'.
                split_leaf-Fits fresh addr (length keys) (insert_elem i key keys)
                  (insert_elem i rid rows) next (omega (arith, k1, r1, same))
                  (ground (arith, e', k1))))

    insert_internal-Fits :
        (h : ℕ) (keys : List Key) (i : ℕ) (cs : Nodes) (sep : Option Key) (added : Bool)
        → FitsBelow h (length keys + 1) cs sep
        → length keys ≤ most
        → FitsIn (suc h) (length keys) (insert_internal most keys i cs sep added)
    unfolding insert_internal
    insert_internal-Fits h keys i cs none added (all, same) small =
        ((same, all), omega arith, small)
    insert_internal-Fits h keys i cs (some sep) added (all, same) small =
        let k1 = length-insert_elem i sep keys in
        if-cases (FitsIn (suc h) (length keys)) (leb (length (insert_elem i sep keys)) most) _ _
          (λ e. ((omega (arith, k1, same), all), omega (arith, k1), ground (arith, e)))
          (λ e.
            split_internal-Fits h (length keys) (insert_elem i sep keys) cs added all
              (omega (arith, k1, same)) (ground (arith, e, k1)))

    beside-FitsBelow :
        (h k : ℕ) (n : Node) (split : Option (Key × Node)) (added : Bool) (cs : Nodes)
        → least ≤ k
        → Fits h k n split
        → AllShaped least most cs h
        → FitsBelow h
            (node_count cs + 1)
            (beside n split added cs).children
            (beside n split added cs).separator
    beside-FitsBelow h k n none added cs low (a, b, c) all =
        ((a, omega (arith, low, b), c, all), refl)
    beside-FitsBelow h k n (some (sep, r)) added cs low (a, b, c, d, e, g) all =
        ((a, b, c, (d, e, g, all)), refl)

    cons-FitsBelow :
        (h k : ℕ) (c : Node) (cs : Nodes) (sep : Option Key)
        → IsShaped least most c h × (least ≤ key_count c) × (key_count c ≤ most)
        → FitsBelow h k cs sep
        → FitsBelow h (k + 1) (cons c cs) sep
    cons-FitsBelow h k c cs none (a, b, d) (all, same) = ((a, b, d, all), omega (arith, same))
    cons-FitsBelow h k c cs (some sep) (a, b, d) (all, same) = ((a, b, d, all), omega (arith, same))

    module _ (fresh : ℕ) (key : Key) (rid : RowId) where
      mutual
        unfolding insert

        pub insert-Fits :
            (n : Node) (h : ℕ)
            → IsShaped least most n h
            → key_count n ≤ most
            → FitsIn h (key_count n) (insert most fresh key rid n)
        insert-Fits (leaf addr keys rows next) zero s small =
            insert_leaf-Fits fresh key rid addr keys rows next s small
        insert-Fits (leaf addr keys rows next) (suc h) s small = absurd s
        insert-Fits (internal keys cs) zero s small = absurd s
        insert-Fits (internal keys cs) (suc h) (same, all) small =
            let below = insert_child-FitsBelow cs (child_index keys key) h all in
            insert_internal-Fits h keys (child_index keys key)
              (insert_child most fresh key rid cs (child_index keys key)).children
              (insert_child most fresh key rid cs (child_index keys key)).separator
              (insert_child most fresh key rid cs (child_index keys key)).added
              (subst
                (λ k.
                  FitsBelow h k (insert_child most fresh key rid cs (child_index keys key)).children
                    (insert_child most fresh key rid cs (child_index keys key)).separator)
                same below)
              small

        pub insert_child-FitsBelow :
            (cs : Nodes) (i h : ℕ)
            → AllShaped least most cs h
            → FitsBelow h
                (node_count cs)
                (insert_child most fresh key rid cs i).children
                (insert_child most fresh key rid cs i).separator
        insert_child-FitsBelow nil i h all = (tt, refl)
        insert_child-FitsBelow (cons c cs) zero h (a, b, d, e) =
            beside-FitsBelow h (key_count c) (insert most fresh key rid c).node
              (insert most fresh key rid c).split (insert most fresh key rid c).added cs b
              (insert-Fits c h a d) e
        insert_child-FitsBelow (cons c cs) (suc i) h (a, b, d, e) =
            cons-FitsBelow h (node_count cs) c (insert_child most fresh key rid cs i).children
              (insert_child most fresh key rid cs i).separator (a, b, d)
              (insert_child-FitsBelow cs i h e)
