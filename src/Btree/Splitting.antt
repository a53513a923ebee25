-- ===== src/Btree/Splitting.antt =====
-- What a split makes of the items of an inner node, and a split child of those of its parent.
use scutedb.Base.{
  ℕ, zero, suc, ◌+◌, ◌/◌, ◌≤◌, ◌<◌, ◌≡◌, refl, sym, ap, ◌∙◌, subst, arith, List, [], ◌∷◌, ◌++◌,
  append_assoc, append-nil, Option, none, some, Bool, if-cases, leb, length, take, drop, get_or,
}
use scutedb.Nodepage.{RowId}
use scutedb.Btree.{
  Key, Node, Nodes, leaf, internal, nil, cons, beside, insert_elem, take_nodes, drop_nodes,
  split_internal, insert_internal, insert, insert_child,
}
use scutedb.Btree.Items.{
  sep, IsSorted, items, items_among, Moves, Moves-trans, Moves-within, Moves-eq, Moves-after,
}
use scutedb.Btree.Entries.{upsert_items, upsert_front, upsert_back}
use scutedb.Btree.Delete.{node_count, node_at}
use scutedb.Btree.Shape.{FitsBelow, insert_child-FitsBelow, IsShaped, AllShaped, length-insert_elem}
use scutedb.Btree.Index.{linear_child, child_index-linear_child, linear_child-le, child-Ascending}
use scutedb.Btree.Descent.{before, after, items_among-at, before-Under, after-Above, child-IsSorted}
use scutedb.Btree.Inserting.{split_items, inserted_items, insert_leaf-Moves}

pub items_among-split :
    (i : ℕ) (cs : Nodes) (ks : List Key)
    → node_count cs ≡ length ks + 1
    → i < length ks
    → items_among cs ks
      ≡ items_among (take_nodes (suc i) cs) (take i ks)
        ++ (sep (get_or ks i []) ∷ items_among (drop_nodes (suc i) cs) (drop (suc i) ks))
unfolding items take_nodes drop_nodes
items_among-split i cs [] e less = absurd (omega arith)
items_among-split i nil (k ∷ ks) e less = absurd (omega (arith, e))
items_among-split zero (cons c cs) (k ∷ ks) e less =
    ap (λ l. l ++ (sep k ∷ items_among cs ks)) (sym (append-nil (items c)))
items_among-split (suc i) (cons c cs) (k ∷ ks) e less =
    ap (λ l. items c ++ (sep k ∷ l)) (items_among-split i cs ks (omega (arith, e)) (omega arith))
    ∙ sym (append_assoc (items c) (sep k ∷ items_among (take_nodes (suc i) cs) (take i ks)) _)

pub split_internal-items :
    (ks : List Key) (cs : Nodes) (added : Bool)
    → node_count cs ≡ length ks + 1
    → 1 ≤ length ks
    → items_among cs ks ≡ inserted_items (split_internal ks cs added)
unfolding split_internal items
split_internal-items ks cs added e one =
    let mid = length ks / 2 in
    items_among-split mid cs ks e (omega (arith, one))
    ∙ ap
        (λ n.
          items_among (take_nodes n cs) (take mid ks)
          ++ (sep (get_or ks mid []) ∷ items_among (drop_nodes n cs) (drop n ks)))
        {x = suc mid} {y = mid + 1} (omega arith)

-- The keys of a node when the child at `i` gave a separator.
abbrev pub placed : ℕ → Option Key → List Key → List Key
placed i none ks = ks
placed i (some k) ks = insert_elem i k ks

insert_elem-suc :
    (i : ℕ) (x k : Key) (ks : List Key) → insert_elem (suc i) x (k ∷ ks) ≡ k ∷ insert_elem i x ks
unfolding insert_elem
insert_elem-suc i x k ks = refl

placed-suc :
    (i : ℕ) (s : Option Key) (k : Key) (ks : List Key)
    → placed (suc i) s (k ∷ ks) ≡ k ∷ placed i s ks
unfolding insert_elem
placed-suc i none k ks = refl
placed-suc i (some x) k ks = refl

-- The child in its place.
pub beside-items :
    (n : Node) (split : Option (Key × Node)) (added : Bool) (cs : Nodes) (ks : List Key)
    → items_among
        (beside n split added cs).children
        (placed 0 (beside n split added cs).separator ks)
      ≡ (items n ++ split_items split) ++ after (cons n cs) 0 ks
unfolding items after insert_elem
beside-items n none added cs [] = ap (λ l. l ++ items_among cs []) (sym (append-nil (items n)))
beside-items n none added cs (k ∷ ks) =
    ap (λ l. l ++ (sep k ∷ items_among cs ks)) (sym (append-nil (items n)))
beside-items n (some (s, r)) added cs [] =
    sym (append_assoc (items n) (sep s ∷ items r) (items_among cs []))
beside-items n (some (s, r)) added cs (k ∷ ks) =
    sym (append_assoc (items n) (sep s ∷ items r) (sep k ∷ items_among cs ks))

module _ (least most : ℕ) (two : 2 ≤ most) (half : least ≤ most / 2) (fresh : ℕ) (key : Key)
    (rid : RowId) where
  insert_internal-items :
      (ks : List Key) (i h : ℕ) (cs : Nodes) (s : Option Key) (added : Bool)
      → FitsBelow least most h (length ks + 1) cs s
      → items_among cs (placed i s ks) ≡ inserted_items (insert_internal most ks i cs s added)
  unfolding insert_internal items
  insert_internal-items ks i h cs none added (all, e) = sym (append-nil (items_among cs ks))
  insert_internal-items ks i h cs (some s) added (all, e) =
      let k1 = length-insert_elem i s ks in
      if-cases (λ r. items_among cs (insert_elem i s ks) ≡ inserted_items r)
        (leb (length (insert_elem i s ks)) most) _ _
        (λ z. sym (append-nil (items_among cs (insert_elem i s ks))))
        (λ z.
          split_internal-items (insert_elem i s ks) cs added (omega (arith, k1, e))
            (omega (arith, k1)))

  mutual
    unfolding insert items before after node_at

    pub insert-Moves :
        (n : Node) (h : ℕ)
        → IsShaped least most n h
        → IsSorted (items n)
        → Moves (upsert_items key rid (items n)) (inserted_items (insert most fresh key rid n))
    insert-Moves (leaf addr ks rs next) zero s o =
        insert_leaf-Moves most fresh key rid addr ks rs next two s o
    insert-Moves (leaf addr ks rs next) (suc h) s o = absurd s
    insert-Moves (internal ks cs) zero s o = absurd s
    insert-Moves (internal ks cs) (suc h) (e, all) o =
        let i = linear_child ks key in
        let r = insert_child most fresh key rid cs i in
        let there = child_index-linear_child ks key (child-Ascending cs ks e o) in
        let at =
          ap (upsert_items key rid) (items_among-at cs i ks)
          ∙ upsert_front key rid (before cs i ks) (items (node_at cs i) ++ after cs i ks)
              (before-Under key rid cs ks o)
          ∙ ap (λ l. before cs i ks ++ l)
              (upsert_back key rid (items (node_at cs i)) (after cs i ks)
                (after-Above key rid cs ks e o)) in
        let below =
          insert_child-Moves cs i ks h all (omega (arith, e, linear_child-le ks key))
            (linear_child-le ks key) (child-IsSorted cs i ks o) in
        let fits = insert_child-FitsBelow least most two half fresh key rid cs i h all in
        subst
          (λ i. Moves (upsert_items key rid (items_among cs ks)) (
            inserted_items (
              let r = insert_child most fresh key rid cs i in
              insert_internal most ks i r.children r.separator r.added)))
          (sym there)
          (Moves-trans (Moves-eq at) (
            Moves-trans below (
              Moves-eq (
                insert_internal-items ks i h r.children r.separator r.added
                  (subst (λ k. FitsBelow least most h k r.children r.separator) e fits)))))

    insert_child-Moves :
        (cs : Nodes) (i : ℕ) (ks : List Key) (h : ℕ)
        → AllShaped least most cs h
        → i < node_count cs
        → i ≤ length ks
        → IsSorted (items (node_at cs i))
        → Moves (before cs i ks ++ (upsert_items key rid (items (node_at cs i)) ++ after cs i ks)) (
            items_among
              (insert_child most fresh key rid cs i).children
              (placed i (insert_child most fresh key rid cs i).separator ks))
    insert_child-Moves nil i ks h all less le o = absurd (omega arith)
    insert_child-Moves (cons c cs) zero ks h (s, a, b, all) less le o =
        let r = insert most fresh key rid c in
        Moves-trans (Moves-within [] (after (cons c cs) 0 ks) (insert-Moves c h s o))
          (Moves-eq (sym (beside-items r.node r.split r.added cs ks)))
    insert_child-Moves (cons c cs) (suc i) [] h (s, a, b, all) less le o = absurd (omega arith)
    insert_child-Moves (cons c cs) (suc i) (k ∷ ks) h (s, a, b, all) less le o =
        let r = insert_child most fresh key rid cs i in
        let rest = upsert_items key rid (items (node_at cs i)) ++ after cs i ks in
        Moves-trans (Moves-eq (append_assoc (items c) (sep k ∷ before cs i ks) rest)) (
          Moves-trans
            (Moves-after (items c) k
              (insert_child-Moves cs i ks h all (omega arith) (omega arith) o))
            (Moves-eq (ap (items_among (cons c r.children)) (sym (placed-suc i r.separator k ks)))))
