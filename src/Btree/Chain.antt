-- ===== src/Btree/Chain.antt =====
-- Delete keeps the chain of leaves, and so does any sequence of Puts and Deletes.
use scutedb.Base.{
  ℕ, zero, suc, ◌+◌, ◌/◌, ◌≤◌, ◌≡◌, refl, sym, ◌∙◌, subst, arith, List, [], ◌∷◌, append-nil, Option,
  none, some, Bool, ◌&&◌, if-cases, ltb, length,
}
use scutedb.Nodepage.{RowId}
use scutedb.Btree.{
  Key, Node, Nodes, leaf, internal, nil, cons, Tree, Stats, child_index, leaf_index, is_at,
}
use scutedb.Btree.Delete.{
  key_count, node_count, node_at, Deleted, DeletedBelow, delete_leaf, delete_internal, delete,
  delete_child, collapse, collapse_first, collapsed, delete_root, remove,
}
use scutedb.Btree.Shape.{IsShaped, AllShaped}
use scutedb.Btree.Shrink.{ShrunkBelow, delete-Shrunk, delete_child-ShrunkBelow, Full-HasKeys}
use scutedb.Btree.Balanced.{HasKeys, IsRoot, RootShaped, IsBalanced}
use scutedb.Btree.Map.{IsTree}
use scutedb.Btree.Links.{
  links, links_among, IsChain, Relinks, Relinks-eq, Relinks-trans, Relinks-within, Relinks-behind,
}
use scutedb.Btree.Linking.{Relinks-IsChain, root_links, IsLinked, put-IsLinked}
use scutedb.Btree.Unlinking.{repair-Linked}
use scutedb.Btree.Refinement.{Command, to_put, to_delete, step, run, step-IsTree}

delete_leaf-links :
    (key : Key) (addr : ℕ) (ks : List Key) (rs : List RowId) (next : Option ℕ) (st : Stats)
    → (addr, next) ∷ [] ≡ links (delete_leaf key addr ks rs next st).node
unfolding delete_leaf links
delete_leaf-links key addr ks rs next st =
    if-cases (λ (d : Deleted). (addr, next) ∷ [] ≡ links d.node) (is_at ks (leaf_index ks key) key)
      _ _ (λ e. refl) (λ e. refl)

module _ (b least most : ℕ) (room : 2 ≤ most) (some_keys : 1 ≤ least)
    (half : least ≤ most / 2) where
  delete_internal-Relinks :
      (keys : List Key) (i h : ℕ) (r : DeletedBelow)
      → ShrunkBelow least most room some_keys half h (length keys + 1) i r
      → 1 ≤ length keys
      → Relinks b b (links_among r.children) (links (delete_internal least keys i r).node)
  unfolding delete_internal links
  delete_internal-Relinks keys i h r below has =
      if-cases (λ (d : Deleted). Relinks b b (links_among r.children) (links d.node))
        (r.hit && ltb (key_count (node_at r.children i)) least) _ _
        (λ e.
          let (all, here) = below.one_less (ground (arith, e)) in
          repair-Linked b least most some_keys keys r.children i h r.stats below.same_count all here
            has)
        (λ e. Relinks-eq refl)

  module _ (key : Key) where
    mutual
      unfolding delete links

      delete-Relinks :
          (n : Node) (h : ℕ) (st : Stats)
          → IsShaped least most n h
          → HasKeys n
          → Relinks b b (links n) (links (delete least key n st).node)
      delete-Relinks (leaf addr ks rs next) h st s has =
          Relinks-eq (delete_leaf-links key addr ks rs next st)
      delete-Relinks (internal ks cs) zero st s has = absurd s
      delete-Relinks (internal ks cs) (suc h) st (e, all) has =
          let i = child_index ks key in
          let r = delete_child least key cs i st in
          let shrunk = delete_child-ShrunkBelow least most room some_keys half key cs i h st all in
          Relinks-trans (delete_child-Relinks cs i h st all) (
            delete_internal-Relinks ks i h r
              (subst (λ k. ShrunkBelow least most room some_keys half h k i r) e shrunk) has)

      delete_child-Relinks :
          (cs : Nodes) (i h : ℕ) (st : Stats)
          → AllShaped least most cs h
          → Relinks b b (links_among cs) (links_among (delete_child least key cs i st).children)
      delete_child-Relinks nil i h st all = Relinks-eq refl
      delete_child-Relinks (cons c cs) zero h st (s, low, high, all) =
          Relinks-within [] (links_among cs)
            (delete-Relinks c h st s (Full-HasKeys least most room some_keys half c low))
      delete_child-Relinks (cons c cs) (suc i) h st (s, low, high, all) =
          Relinks-behind (links c) (delete_child-Relinks cs i h st all)

  mutual
    unfolding collapse links

    collapse-links :
        (n : Node) (h : ℕ) (st : Stats)
        → IsShaped least most n h
        → links (collapse n st).0 ≡ links n
    collapse-links (leaf addr ks rs next) h st s = refl
    collapse-links (internal (k ∷ ks) cs) h st s = refl
    collapse-links (internal [] cs) zero st s = absurd s
    collapse-links (internal [] cs) (suc h) st (e, all) =
        collapse_first-links cs h (record st { collapses = st.collapses + 1 }) all e

    collapse_first-links :
        (cs : Nodes) (h : ℕ) (st : Stats)
        → AllShaped least most cs h
        → node_count cs ≡ 1
        → links (collapse_first cs st).0 ≡ links_among cs
    collapse_first-links nil h st all e = absurd (omega (arith, e))
    collapse_first-links (cons c nil) h st (s, low, high, all) e =
        collapse-links c h st s ∙ sym (append-nil (links c))
    collapse_first-links (cons c (cons d cs)) h st all e = absurd (omega (arith, e))

module _ (t : Tree) (key : Key) (balanced : IsBalanced t) where
  deleted-IsLinked :
      (n : Node)
      → IsRoot t.min_keys t.max_keys n
      → IsChain t.fresh (links n)
      → (let d = delete t.min_keys key n t.stats in
          IsLinked (collapsed t (collapse d.node d.stats)))
  deleted-IsLinked n s h =
      let few : 1 ≤ t.min_keys = omega (arith, balanced.least_keys, balanced.known_order) in
      let room : 2 ≤ t.max_keys = omega (arith, balanced.most_keys, balanced.known_order) in
      let half : t.min_keys ≤ t.max_keys / 2 =
        omega (arith, balanced.least_keys, balanced.most_keys) in
      let d = delete t.min_keys key n t.stats in
      let shrunk =
        delete-Shrunk t.min_keys t.max_keys room few half key n s.height t.stats s.shaped
          s.branches in
      Relinks-IsChain t.fresh t.fresh (links n) (links (collapse d.node d.stats).0)
        (Relinks-trans
          (delete-Relinks t.fresh t.min_keys t.max_keys room few half key n s.height t.stats
            s.shaped s.branches)
          (Relinks-eq (
            sym (
              collapse-links t.fresh t.min_keys t.max_keys room few half d.node s.height d.stats
                shrunk.shaped))))
        h

  delete_root-IsLinked :
      (root : Option Node)
      → RootShaped t.min_keys t.max_keys root
      → IsChain t.fresh (root_links root)
      → IsLinked t
      → IsLinked (delete_root t root key).1
  delete_root-IsLinked none s h g = g
  delete_root-IsLinked (some n) s h g =
      if-cases (λ (x : Bool × Tree). IsLinked x.1) (delete t.min_keys key n t.stats).hit _ _
        (λ e. deleted-IsLinked n s h) (λ e. g)

  -- Delete on a balanced tree keeps the leaves in one chain from left to right: a leaf that was
  -- merged into its left neighbour is no longer on it.
  pub remove-IsLinked : IsLinked t → IsLinked (remove t key).1
  unfolding remove
  remove-IsLinked h = delete_root-IsLinked t.root balanced.root_shaped h h

step-IsLinked : (c : Command) (t : Tree) → IsTree t → IsLinked t → IsLinked (step c t)
step-IsLinked (to_put key rid) t h l = put-IsLinked t key rid l
step-IsLinked (to_delete key) t h l = remove-IsLinked t key h.balanced l

-- After any sequence of Puts and Deletes on a balanced tree with its keys in order, the leaves are
-- in one chain from left to right if they were before: each names the next one as its `next`, the
-- last names none, and no leaf is on the chain twice.
pub run-IsLinked : (cs : List Command) (t : Tree) → IsTree t → IsLinked t → IsLinked (run cs t)
unfolding run
run-IsLinked [] t h l = l
run-IsLinked (c ∷ cs) t h l = run-IsLinked cs (step c t) (step-IsTree c t h) (step-IsLinked c t h l)
