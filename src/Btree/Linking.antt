-- ===== src/Btree/Linking.antt =====
-- Put and the chain of leaves.
use scutedb.Base.{
  ℕ, zero, suc, ◌+◌, ◌/◌, ◌≡◌, refl, sym, ap, ◌∙◌, subst, arith, List, [], ◌∷◌, ◌++◌, append_assoc,
  append-nil, Option, none, some, Bool, if-cases, leb, length, ◌==◌,
}
use scutedb.Nodepage.{RowId}
use scutedb.Btree.{
  Key, Node, Nodes, leaf, internal, nil, cons, Tree, Inserted, beside, insert_elem, take_nodes,
  drop_nodes, split_leaf, split_internal, insert_leaf, insert_internal, insert, insert_child,
  child_index, leaf_index, is_at, put, put_root, ensure, ensure_order, ensure_root, root_or,
  grown_root, fresh_for,
}
use scutedb.Btree.Links.{
  Link, links, links_among, IsChain, Relinks, Relinks-eq, Relinks-trans, Relinks-stay,
  Relinks-within, Relinks-behind, Relinks-split,
}

pub links_among-split :
    (n : ℕ) (cs : Nodes)
    → links_among (take_nodes n cs) ++ links_among (drop_nodes n cs) ≡ links_among cs
unfolding links take_nodes drop_nodes
links_among-split zero cs = refl
links_among-split (suc n) nil = refl
links_among-split (suc n) (cons c cs) =
    append_assoc (links c) (links_among (take_nodes n cs)) (links_among (drop_nodes n cs))
    ∙ ap (λ l. links c ++ l) (links_among-split n cs)

abbrev pub split_links : Option (Key × Node) → List Link
split_links none = []
split_links (some (k, n)) = links n

abbrev pub inserted_links : Inserted → List Link
inserted_links r = links r.node ++ split_links r.split

insert_leaf-Relinks :
    (most fresh : ℕ) (key : Key) (rid : RowId) (addr : ℕ) (ks : List Key) (rs : List RowId)
    (next : Option ℕ)
    → Relinks fresh
        (fresh + 1)
        ((addr, next) ∷ [])
        (inserted_links (insert_leaf most fresh key rid addr ks rs next))
unfolding insert_leaf split_leaf links
insert_leaf-Relinks most fresh key rid addr ks rs next =
    if-cases Fine (is_at ks (leaf_index ks key) key) _ _ (λ e. Relinks-stay refl)
      (λ e.
        if-cases Fine (leb (length (insert_elem (leaf_index ks key) key ks)) most) _ _
          (λ z. Relinks-stay refl) (λ z. Relinks-split fresh addr next))
  where
    Fine : Inserted → Type 0
    Fine r = Relinks fresh (fresh + 1) ((addr, next) ∷ []) (inserted_links r)

insert_internal-links :
    (most : ℕ) (ks : List Key) (i : ℕ) (cs : Nodes) (s : Option Key) (added : Bool)
    → links_among cs ≡ inserted_links (insert_internal most ks i cs s added)
unfolding insert_internal split_internal links
insert_internal-links most ks i cs none added = sym (append-nil (links_among cs))
insert_internal-links most ks i cs (some s) added =
    if-cases (λ r. links_among cs ≡ inserted_links r) (leb (length (insert_elem i s ks)) most) _ _
      (λ z. sym (append-nil (links_among cs)))
      (λ z. sym (links_among-split (length (insert_elem i s ks) / 2 + 1) cs))

beside-links :
    (n : Node) (split : Option (Key × Node)) (added : Bool) (cs : Nodes)
    → (links n ++ split_links split) ++ links_among cs
      ≡ links_among (beside n split added cs).children
unfolding links
beside-links n none added cs = ap (λ l. l ++ links_among cs) (append-nil (links n))
beside-links n (some (s, r)) added cs = append_assoc (links n) (links r) (links_among cs)

module _ (most fresh : ℕ) (key : Key) (rid : RowId) where
  mutual
    unfolding insert links

    pub insert-Relinks :
        (n : Node)
        → Relinks fresh (fresh + 1) (links n) (inserted_links (insert most fresh key rid n))
    insert-Relinks (leaf addr ks rs next) = insert_leaf-Relinks most fresh key rid addr ks rs next
    insert-Relinks (internal ks cs) =
        let i = child_index ks key in
        let r = insert_child most fresh key rid cs i in
        Relinks-trans (insert_child-Relinks cs i)
          (Relinks-eq (insert_internal-links most ks i r.children r.separator r.added))

    insert_child-Relinks :
        (cs : Nodes) (i : ℕ)
        → Relinks fresh
            (fresh + 1)
            (links_among cs)
            (links_among (insert_child most fresh key rid cs i).children)
    insert_child-Relinks nil i = Relinks-stay refl
    insert_child-Relinks (cons c cs) zero =
        let r = insert most fresh key rid c in
        Relinks-trans (Relinks-within [] (links_among cs) (insert-Relinks c))
          (Relinks-eq (beside-links r.node r.split r.added cs))
    insert_child-Relinks (cons c cs) (suc i) = Relinks-behind (links c) (insert_child-Relinks cs i)

-- From a whole chain to a whole chain.
pub Relinks-IsChain :
    (b b' : ℕ) (xs ys : List Link) → Relinks b b' xs ys → IsChain b xs → IsChain b' ys
Relinks-IsChain b b' xs ys f h =
    subst (IsChain b') (append-nil ys) (f.keeps [] [] (subst (IsChain b) (sym (append-nil xs)) h))

abbrev pub root_links : Option Node → List Link
root_links none = []
root_links (some n) = links n

-- The chain of a tree's leaves visits each leaf once, from left to right, and ends with the last.
abbrev pub IsLinked : Tree → Type 0
IsLinked t = IsChain t.fresh (root_links t.root)

grown_root-links :
    (n : Node) (split : Option (Key × Node))
    → links n ++ split_links split ≡ links (grown_root n split)
unfolding links
grown_root-links n none = append-nil (links n)
grown_root-links n (some (s, r)) = ap (λ l. links n ++ l) (sym (append-nil (links r)))

put_root-IsLinked :
    (t : Tree) (n : Node) (key : Key) (rid : RowId)
    → IsChain t.fresh (links n)
    → IsLinked (put_root t n key rid)
put_root-IsLinked t n key rid h =
    let r = insert t.max_keys t.fresh key rid n in
    Relinks-IsChain t.fresh (t.fresh + 1) (links n) (links (grown_root r.node r.split))
      (Relinks-trans (insert-Relinks t.max_keys t.fresh key rid n)
        (Relinks-eq (grown_root-links r.node r.split)))
      h

ensured_links :
    (root : Option Node) (addr : ℕ)
    → IsChain addr (root_links root)
    → IsChain (fresh_for root addr) (links (root_or root addr))
unfolding links IsChain
ensured_links none addr h = (refl, omega arith, tt, tt)
ensured_links (some n) addr h = h

ensure_order-IsLinked : (t : Tree) → IsLinked t → IsLinked (ensure_order t)
ensure_order-IsLinked t h = if-cases IsLinked (t.order == 0) _ _ (λ e. h) (λ e. h)

-- Put keeps the leaves of a tree in one chain from left to right, in which a leaf that was split
-- has the new one behind it.
pub put-IsLinked : (t : Tree) (key : Key) (rid : RowId) → IsLinked t → IsLinked (put t key rid)
unfolding put ensure
put-IsLinked t key rid h =
    let u = ensure_root (ensure_order t) in
    let v = ensure_order t in
    let w = ensured_links v.root v.fresh (ensure_order-IsLinked t h) in
    put_root-IsLinked u (root_or u.root u.fresh) key rid w
