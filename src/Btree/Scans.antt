-- ===== src/Btree/Scans.antt =====
-- A scan of a tree, from its first leaf to its last.
use scutedb.Base.{
  map, ℕ, zero, suc, ◌+◌, ◌≤◌, ◌<◌, ◌≡◌, refl, sym, ap, ap₂, ◌∙◌, subst, arith, List, [], ◌∷◌, ◌++◌,
  append_assoc, append-nil, All, Option, none, some, true, Bool-cases, length, drop, inl, inr,
  length-append,
}
use scutedb.Btree.{Key, Node, Nodes, leaf, internal, nil, cons, Tree, leaf_index, no_row}
use scutedb.Btree.Keys.{lt}
use scutedb.Btree.Items.{IsSorted, rows_of, rows_of-append, items, items_among}
use scutedb.Btree.Entries.{Entries}
use scutedb.Btree.Delete.{node_count, node_at}
use scutedb.Btree.Shape.{IsShaped, AllShaped}
use scutedb.Btree.Index.{
  linear_child, leaf_index-linear_leaf, child_index-linear_child, linear_child-le, leaf-Ascending,
  child-Ascending,
}
use scutedb.Btree.Descent.{before, after, items_among-at, before-Under, after-Above, child-IsSorted}
use scutedb.Btree.Balanced.{RootShaped}
use scutedb.Btree.Map.{root_items, contents, IsTree}
use scutedb.Btree.Links.{IsChain}
use scutedb.Btree.Linking.{root_links, IsLinked}
use scutedb.Btree.Scan.{
  Leaf, collect_leaves, collect_below, Iterator, leaf_for, leaf_below, scan_root, scan, next, drain,
  root_leaves,
}
use scutedb.Btree.Scanning.{pairs, all_pairs, left, Chained, until, drain-left, all_pairs-append}
use scutedb.Btree.Reaching.{
  link_of, links-collect_leaves, all_pairs-collect_below, HasRows, collect_leaves-HasRows,
  chain-Chained,
}
use scutedb.Btree.Ranges.{
  range, since, since-append, since_none, since_all, until-since, linear_since,
}

-- A scan comes to the leaf in which the keys from `from` on begin.
pub record IsReached (from : Key) (leaves : List Leaf) (es : Entries) (l : Leaf) : Type 0 where
  before_leaves : List Leaf
  behind : List Leaf
  in_order : leaves ≡ before_leaves ++ (l ∷ behind)
  rest : left (l ∷ behind) (leaf_index l.keys from) ≡ since from es

abbrev front : Nodes → ℕ → List Leaf
front nil i = []
front (cons c cs) zero = []
front (cons c cs) (suc i) = collect_leaves c ++ front cs i

abbrev back : Nodes → ℕ → List Leaf
back nil i = []
back (cons c cs) zero = collect_below cs
back (cons c cs) (suc i) = back cs i

collect_below-at :
    (cs : Nodes) (i : ℕ)
    → i < node_count cs
    → collect_below cs ≡ front cs i ++ (collect_leaves (node_at cs i) ++ back cs i)
unfolding collect_leaves node_at
collect_below-at nil i h = absurd (omega arith)
collect_below-at (cons c cs) zero h = refl
collect_below-at (cons c cs) (suc i) h =
    ap (λ l. collect_leaves c ++ l) (collect_below-at cs i (omega arith))
    ∙ sym
        (append_assoc (collect_leaves c) (front cs i) (collect_leaves (node_at cs i) ++ back cs i))

all_pairs-back :
    (cs : Nodes) (i : ℕ) (ks : List Key) → all_pairs (back cs i) ≡ rows_of (after cs i ks)
unfolding all_pairs after rows_of
all_pairs-back nil i ks = refl
all_pairs-back (cons c cs) zero [] = all_pairs-collect_below cs []
all_pairs-back (cons c cs) zero (k ∷ ks) = all_pairs-collect_below cs ks
all_pairs-back (cons c cs) (suc i) [] = all_pairs-back cs i []
all_pairs-back (cons c cs) (suc i) (k ∷ ks) = all_pairs-back cs i ks

-- The keys from `from` on, in a node: those of the child that the search comes to, and all behind it.
since-among :
    (from : Key) (cs : Nodes) (ks : List Key)
    → node_count cs ≡ length ks + 1
    → IsSorted (items_among cs ks)
    → (let i = linear_child ks from in
        since from (rows_of (items_among cs ks))
        ≡ since from (rows_of (items (node_at cs i))) ++ rows_of (after cs i ks))
since-among from cs ks e o =
    let i = linear_child ks from in
    let p = before cs i ks in
    let x = items (node_at cs i) in
    let s = after cs i ks in
    ap (λ l. since from (rows_of l)) (items_among-at cs i ks)
    ∙ ap (since from) (rows_of-append p (x ++ s) ∙ ap (λ l. rows_of p ++ l) (rows_of-append x s))
    ∙ since-append from (rows_of p) (rows_of x ++ rows_of s)
    ∙ ap₂ (λ a b. a ++ b) (since_none from no_row p (before-Under from no_row cs ks o))
        (since-append from (rows_of x) (rows_of s))
    ∙ ap (λ b. since from (rows_of x) ++ b)
        (since_all from no_row s (after-Above from no_row cs ks e o))

widened :
    (from : Key) (f c g : List Leaf) (es rest : Entries) (l : Leaf)
    → all_pairs g ≡ rest
    → (r : IsReached from c es l)
    → left (l ∷ (r.behind ++ g)) (leaf_index l.keys from) ≡ since from es ++ rest
unfolding left
widened from f c g es rest l e r =
    let d = drop (leaf_index l.keys from) (pairs l.keys l.rows) in
    ap (λ a. d ++ a) (all_pairs-append r.behind g)
    ∙ sym (append_assoc d (all_pairs r.behind) (all_pairs g))
    ∙ ap₂ (λ a b. a ++ b) r.rest e

regroup :
    (f b : List Leaf) (l : Leaf) (c g : List Leaf)
    → f ++ ((b ++ (l ∷ c)) ++ g) ≡ (f ++ b) ++ (l ∷ (c ++ g))
regroup f b l c g =
    ap (λ x. f ++ x) (append_assoc b (l ∷ c) g) ∙ sym (append_assoc f b (l ∷ (c ++ g)))

module _ (least most : ℕ) (from : Key) where
  mutual
    unfolding leaf_for collect_leaves items left all_pairs node_at

    leaf_for-IsReached :
        (n : Node) (h : ℕ)
        → IsShaped least most n h
        → IsSorted (items n)
        → IsReached from (collect_leaves n) (rows_of (items n)) (leaf_for n from)
    leaf_for-IsReached (leaf addr ks rs nx) zero s o = record {
      before_leaves = [];
      behind = [];
      in_order = refl;
      rest =
          append-nil (drop (leaf_index ks from) (pairs ks rs))
          ∙ ap (λ i. drop i (pairs ks rs))
              (leaf_index-linear_leaf ks from (leaf-Ascending ks rs s o))
          ∙ linear_since from ks rs s o;
    }
    leaf_for-IsReached (leaf addr ks rs nx) (suc h) s o = absurd s
    leaf_for-IsReached (internal ks cs) zero s o = absurd s
    leaf_for-IsReached (internal ks cs) (suc h) (e, all) o =
        let i = linear_child ks from in
        let here : i < node_count cs = omega (arith, e, linear_child-le ks from) in
        let r = leaf_below-IsReached cs i h all here (child-IsSorted cs i ks o) in
        subst
          (λ j.
            IsReached from (collect_below cs) (rows_of (items_among cs ks)) (leaf_below cs j from))
          (sym (child_index-linear_child ks from (child-Ascending cs ks e o)))
          (record {
            before_leaves = front cs i ++ r.before_leaves;
            behind = r.behind ++ back cs i;
            in_order =
                collect_below-at cs i here
                ∙ ap (λ c. front cs i ++ (c ++ back cs i)) r.in_order
                ∙ regroup (front cs i) r.before_leaves (leaf_below cs i from) r.behind (back cs i);
            rest =
                widened from [] (collect_leaves (node_at cs i)) (back cs i)
                  (rows_of (items (node_at cs i))) (rows_of (after cs i ks)) (leaf_below cs i from)
                  (all_pairs-back cs i ks) r
                ∙ sym (since-among from cs ks e o);
          })

    leaf_below-IsReached :
        (cs : Nodes) (i h : ℕ)
        → AllShaped least most cs h
        → i < node_count cs
        → IsSorted (items (node_at cs i))
        → IsReached from
            (collect_leaves (node_at cs i))
            (rows_of (items (node_at cs i)))
            (leaf_below cs i from)
    leaf_below-IsReached nil i h all less o = absurd (omega arith)
    leaf_below-IsReached (cons c cs) zero h (s, low, high, all) less o = leaf_for-IsReached c h s o
    leaf_below-IsReached (cons c cs) (suc i) h (s, low, high, all) less o =
        leaf_below-IsReached cs i h all (omega arith) o

length-since : (from : Key) (es : Entries) → length (since from es) ≤ length es
unfolding since
length-since from [] = omega arith
length-since from ((k, r) ∷ es) = elim (Bool-cases (lt k from)) [
  | inl e ↦ rw e (omega (arith, length-since from es))
  | inr e ↦ rw e (omega (arith, length-since from es))
]

drain_done : (rounds : ℕ) (it : Iterator) → it.done ≡ true → drain [] rounds it ≡ []
unfolding drain next
drain_done zero it h = refl
drain_done (suc rounds) it h = rw h refl

All-suffix : (P : Leaf → Type 0) (xs ys : List Leaf) → All P (xs ++ ys) → All P ys
All-suffix P [] ys h = h
All-suffix P (x ∷ xs) ys (a, h) = All-suffix P xs ys h

module _ (t : Tree) (from : Key) (to : Option Key) (rounds : ℕ) (tree : IsTree t)
    (linked : IsLinked t) (enough : t.count < rounds) where
  scan_root-range :
      (root : Option Node)
      → t.root ≡ root
      → RootShaped t.min_keys t.max_keys root
      → drain (root_leaves root) rounds (scan_root root from to)
        ≡ range from to (rows_of (root_items root))
  unfolding range rows_of
  scan_root-range none e s = drain_done rounds (scan_root none from to) refl
  scan_root-range (some n) e s =
      let o = subst (λ r. IsSorted (root_items r)) e tree.ordered in
      let size = tree.counted ∙ ap (λ r. length (rows_of (root_items r))) e in
      let l = leaf_for n from in
      let r = leaf_for-IsReached t.min_keys t.max_keys from n s.height s.shaped o in
      let m = l ∷ r.behind in
      let chain =
        subst (λ ls. IsChain t.fresh (map link_of ls)) r.in_order
          (subst (IsChain t.fresh) (sym (links-collect_leaves n))
            (subst (λ u. IsChain t.fresh (root_links u)) e linked)) in
      let rows = All-suffix HasRows r.before_leaves m (
        subst (All HasRows) r.in_order
          (collect_leaves-HasRows t.min_keys t.max_keys n s.height s.shaped)) in
      let chained =
        subst (λ heap. Chained heap m) (sym r.in_order)
          (chain-Chained t.fresh r.before_leaves m chain rows) in
      let short : length m ≤ length (collect_leaves n) =
        omega (arith, ap length r.in_order, length-append r.before_leaves m) in
      let few : length (left m (leaf_index l.keys from)) < rounds =
        omega (arith, ap length r.rest, length-since from (rows_of (items n)), size, enough) in
      drain-left (collect_leaves n) rounds to m (leaf_index l.keys from) [] no_row chained short few
      ∙ ap (until to) r.rest
      ∙ until-since from to (items n) o

  -- On a balanced tree with its keys in order and its leaves in one chain, a client that calls
  -- Next in more rounds than there are keys reads, up to the round in which Next says no, the keys
  -- of the tree that are not below `from` and, if there is a `to`, below `to`, each with its row,
  -- in order.
  pub drain-scan : drain (root_leaves t.root) rounds (scan t from to) ≡ range from to (contents t)
  unfolding scan
  drain-scan = scan_root-range t.root refl tree.balanced.root_shaped
