-- ===== src/Btree/Shrink.antt =====
-- Delete keeps the tree balanced.
use scutedb.Base.{
  ℕ, zero, suc, ◌+◌, ◌/◌, ◌≤◌, ◌<◌, ◌≡◌, refl, subst, arith, if-cases, List, [], ◌∷◌, length,
  Option, none, some, Bool, true, false, ◌&&◌, Bool-cases, inl, inr,
}
use scutedb.Base.{ltb}
use scutedb.Nodepage.{RowId}
use scutedb.Btree.{
  Key, Node, Nodes, leaf, internal, nil, cons, Stats, Tree, leaf_index, child_index, is_at,
}
use scutedb.Btree.Delete.{
  key_count, node_count, node_at, Deleted, DeletedBelow, delete_leaf, delete_internal, delete,
  delete_child, collapse, collapsed, delete_root, remove,
}
use scutedb.Btree.Shape.{IsShaped, AllShaped}
use scutedb.Btree.Repair.{repair-Repaired}
use scutedb.Btree.Children.{Full, AllBut, length-remove_elem}
use scutedb.Btree.Balanced.{HasKeys, IsRoot, RootShaped, IsBalanced}

module _ (least most : ℕ) (room : 2 ≤ most) (some_keys : 1 ≤ least) (half : least ≤ most / 2) where
  -- All children have enough keys if the one that may have lost a key has.
  AllBut-AllShaped :
      (i : ℕ) (cs : Nodes) (h : ℕ)
      → AllBut least most i cs h
      → i < node_count cs
      → least ≤ key_count (node_at cs i)
      → AllShaped least most cs h
  unfolding node_at
  AllBut-AllShaped i nil h a lt full = tt
  AllBut-AllShaped zero (cons c cs) h ((p, q, m), b) lt full = (p, full, m, b)
  AllBut-AllShaped (suc i) (cons c cs) h ((p, q, m), b) lt full =
      (p, q, m, AllBut-AllShaped i cs h b (omega arith) full)

  -- A node of `k` keys after `delete`: it has as many, or one less if it held the key.
  pub record Shrunk (h k : ℕ) (r : Deleted) : Type 0 where
    pub shaped : IsShaped least most r.node h
    pub enough : k ≤ key_count r.node + 1
    pub bounded : key_count r.node ≤ k
    pub missed : r.hit ≡ false → key_count r.node ≡ k

  pub record ShrunkBelow (h k i : ℕ) (r : DeletedBelow) : Type 0 where
    pub same_count : node_count r.children ≡ k
    pub one_less : r.hit ≡ true → AllBut least most i r.children h × (i < node_count r.children)
    pub missed : r.hit ≡ false → AllShaped least most r.children h

  delete_leaf-Shrunk :
      (key : Key) (addr : ℕ) (keys : List Key) (rows : List RowId) (next : Option ℕ) (st : Stats)
      → length rows ≡ length keys
      → Shrunk 0 (length keys) (delete_leaf key addr keys rows next st)
  unfolding delete_leaf
  delete_leaf-Shrunk key addr keys rows next st same =
      if-cases (Shrunk 0 (length keys)) (is_at keys (leaf_index keys key) key) _ _
        (λ e.
          let i = leaf_index keys key in
          let lt : i < length keys = ground (arith, e) in
          let ks = length-remove_elem i keys lt in
          let rs = length-remove_elem i rows (omega (arith, lt, same)) in
          record {
            shaped = omega (arith, ks, rs, same);
            enough = omega (arith, ks);
            bounded = omega (arith, ks);
            missed = λ q. absurd (ground (arith, q));
          })
        (λ e. record {
          shaped = same;
          enough = omega arith;
          bounded = omega arith;
          missed = λ q. refl;
        })

  delete_internal-Shrunk :
      (keys : List Key) (i h : ℕ) (r : DeletedBelow)
      → ShrunkBelow h (length keys + 1) i r
      → 1 ≤ length keys
      → Shrunk (suc h) (length keys) (delete_internal least keys i r)
  unfolding delete_internal
  delete_internal-Shrunk keys i h r below has =
      if-cases (Shrunk (suc h) (length keys))
        (r.hit && ltb (key_count (node_at r.children i)) least) _ _
        (λ e.
          let (all, here) = below.one_less (ground (arith, e)) in
          let (a, b, c, d) =
            repair-Repaired least most room some_keys half keys r.children i h r.stats
              below.same_count all here (ground (arith, e)) has in
          record {
            shaped = (b, a);
            enough = c;
            bounded = d;
            missed = λ q. absurd (ground (arith, q));
          })
        (λ e. record {
          shaped = (
            below.same_count,
            elim (Bool-cases r.hit) [
              | inl hit ↦
                  let (all, here) = below.one_less hit in
                  AllBut-AllShaped i r.children h all here (ground (arith, e, hit))
              | inr hit ↦ below.missed hit
            ],
          );
          enough = omega arith;
          bounded = omega arith;
          missed = λ q. refl;
        })

  replaced-ShrunkBelow :
      (h : ℕ) (c : Node) (cs : Nodes) (r : Deleted)
      → Shrunk h (key_count c) r
      → least ≤ key_count c
      → key_count c ≤ most
      → AllShaped least most cs h
      → ShrunkBelow h
          (node_count cs + 1)
          0
          (record { children = cons r.node cs; hit = r.hit; stats = r.stats })
  replaced-ShrunkBelow h c cs r s low high all = record {
    same_count = refl;
    one_less = λ q. (
      ((s.shaped, omega (arith, s.enough, low), omega (arith, s.bounded, high)), all),
      omega arith,
    );
    missed = λ q. (s.shaped, omega (arith, s.missed q, low), omega (arith, s.bounded, high), all);
  }

  below-ShrunkBelow :
      (h i : ℕ) (c : Node) (cs : Nodes) (r : DeletedBelow)
      → ShrunkBelow h (node_count cs) i r
      → Full least most c h
      → ShrunkBelow h
          (node_count cs + 1)
          (suc i)
          (record { children = cons c r.children; hit = r.hit; stats = r.stats })
  below-ShrunkBelow h i c cs r s (a, b, d) = record {
    same_count = omega (arith, s.same_count);
    one_less = λ q. let (all, lt) = s.one_less q in (((a, b, d), all), omega (arith, lt));
    missed = λ q. (a, b, d, s.missed q);
  }

  pub Full-HasKeys : (n : Node) → least ≤ key_count n → HasKeys n
  Full-HasKeys (leaf addr keys rows next) h = tt
  Full-HasKeys (internal keys children) h = omega (arith, some_keys, h)

  module _ (key : Key) where
    mutual
      unfolding delete

      pub delete-Shrunk :
          (n : Node) (h : ℕ) (st : Stats)
          → IsShaped least most n h
          → HasKeys n
          → Shrunk h (key_count n) (delete least key n st)
      delete-Shrunk (leaf addr keys rows next) zero st s has =
          delete_leaf-Shrunk key addr keys rows next st s
      delete-Shrunk (leaf addr keys rows next) (suc h) st s has = absurd s
      delete-Shrunk (internal keys cs) zero st s has = absurd s
      delete-Shrunk (internal keys cs) (suc h) st (same, all) has =
          delete_internal-Shrunk keys (child_index keys key) h
            (delete_child least key cs (child_index keys key) st)
            (subst
              (λ k.
                ShrunkBelow h k (child_index keys key)
                  (delete_child least key cs (child_index keys key) st))
              same (delete_child-ShrunkBelow cs (child_index keys key) h st all))
            has

      pub delete_child-ShrunkBelow :
          (cs : Nodes) (i h : ℕ) (st : Stats)
          → AllShaped least most cs h
          → ShrunkBelow h (node_count cs) i (delete_child least key cs i st)
      delete_child-ShrunkBelow nil i h st all = record {
        same_count = refl;
        one_less = λ q. absurd (ground (arith, q));
        missed = λ q. tt;
      }
      delete_child-ShrunkBelow (cons c cs) zero h st (a, b, d, e) =
          replaced-ShrunkBelow h c cs (delete least key c st)
            (delete-Shrunk c h st a (Full-HasKeys c b)) b d e
      delete_child-ShrunkBelow (cons c cs) (suc i) h st (a, b, d, e) =
          below-ShrunkBelow h i c cs (delete_child least key cs i st)
            (delete_child-ShrunkBelow cs i h st e) (a, b, d)

  -- The root after a delete may have no key left, and then gives way to its only child.
  collapse-IsRoot :
      (n : Node) (h : ℕ) (st : Stats)
      → IsShaped least most n h
      → key_count n ≤ most
      → IsRoot least most (collapse n st).0
  unfolding collapse
  collapse-IsRoot (leaf addr keys rows next) h st s small = record {
    height = h;
    shaped = s;
    bounded = small;
    branches = tt;
  }
  collapse-IsRoot (internal (k ∷ keys) cs) h st s small = record {
    height = h;
    shaped = s;
    bounded = small;
    branches = omega arith;
  }
  collapse-IsRoot (internal [] cs) zero st s small = absurd s
  collapse-IsRoot (internal [] nil) (suc h) st (same, all) small = absurd (omega (arith, same))
  collapse-IsRoot (internal [] (cons c cs)) (suc h) st (same, (a, b, d, e)) small =
      collapse-IsRoot c h (record st { collapses = st.collapses + 1 }) a d

module _ (t : Tree) (h : IsBalanced t) where
  pub deleted-IsBalanced :
      (n : Node) (key : Key)
      → IsRoot t.min_keys t.max_keys n
      → IsBalanced (
          collapsed t (
            collapse
              (delete t.min_keys key n t.stats).node
              (delete t.min_keys key n t.stats).stats))
  deleted-IsBalanced n key r =
      let room : 2 ≤ t.max_keys = omega (arith, h.most_keys, h.known_order) in
      let some_keys : 1 ≤ t.min_keys = omega (arith, h.least_keys, h.known_order) in
      let half : t.min_keys ≤ t.max_keys / 2 = omega (arith, h.least_keys, h.most_keys) in
      let s =
        delete-Shrunk t.min_keys t.max_keys room some_keys half key n r.height t.stats r.shaped
          r.branches in
      record {
        known_order = h.known_order;
        most_keys = h.most_keys;
        least_keys = h.least_keys;
        root_shaped =
            collapse-IsRoot t.min_keys t.max_keys room some_keys half
              (delete t.min_keys key n t.stats).node r.height
              (delete t.min_keys key n t.stats).stats s.shaped
              (omega (arith, s.bounded, r.bounded));
      }

  delete_root-IsBalanced :
      (root : Option Node) (key : Key)
      → RootShaped t.min_keys t.max_keys root
      → IsBalanced (delete_root t root key).1
  delete_root-IsBalanced none key r = h
  delete_root-IsBalanced (some n) key r =
      if-cases (λ (x : Bool × Tree). IsBalanced x.1) (delete t.min_keys key n t.stats).hit _ _
        (λ e. deleted-IsBalanced n key r) (λ e. h)

  -- Delete on a balanced tree leaves a balanced tree, whether the key was there or not.
  pub remove-IsBalanced : (key : Key) → IsBalanced (remove t key).1
  unfolding remove
  remove-IsBalanced key = delete_root-IsBalanced t.root key h.root_shaped
