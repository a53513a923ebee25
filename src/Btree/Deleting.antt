-- ===== src/Btree/Deleting.antt =====
-- What a deletion makes of the items of a node.
use scutedb.Base.{
  ℕ, zero, suc, ◌+◌, ◌/◌, ◌≤◌, ◌<◌, ◌≡◌, sym, ap, ◌∙◌, subst, arith, List, [], ◌∷◌, ◌++◌,
  append_assoc, Option, ◌&&◌, if◌then◌else◌, if-cases, Bool-cases, ltb, length, inl, inr,
}
use scutedb.Nodepage.{RowId}
use scutedb.Btree.{Key, Node, Nodes, leaf, internal, nil, cons, Stats, leaf_index, is_at, no_row}
use scutedb.Btree.Items.{
  sep, IsSorted, zip_rows, items, items_among, Moves, Moves-stay, Moves-trans, Moves-within,
  Moves-eq, Moves-after,
}
use scutedb.Btree.Entries.{erase_items, erase_front, erase_back, Under-Lacks, Above-Lacks}
use scutedb.Btree.Delete.{
  key_count, node_count, node_at, remove_elem, Deleted, DeletedBelow, delete_leaf, delete_internal,
  delete, delete_child,
}
use scutedb.Btree.Shape.{IsShaped, AllShaped}
use scutedb.Btree.Index.{linear_child, child_index-linear_child, linear_child-le, child-Ascending}
use scutedb.Btree.Descent.{before, after, items_among-at, before-Under, after-Above, child-IsSorted}
use scutedb.Btree.Leaves.{cut_leaf}
use scutedb.Btree.Mending.{repair-Kept}
use scutedb.Btree.Shrink.{ShrunkBelow, delete_child-ShrunkBelow, Full-HasKeys}
use scutedb.Btree.Balanced.{HasKeys}

delete_leaf-Moves :
    (key : Key) (addr : ℕ) (ks : List Key) (rs : List RowId) (next : Option ℕ) (st : Stats)
    → length rs ≡ length ks
    → IsSorted (zip_rows ks rs)
    → Moves (erase_items key (zip_rows ks rs)) (items (delete_leaf key addr ks rs next st).node)
unfolding delete_leaf items
delete_leaf-Moves key addr ks rs next st e h =
    let i = leaf_index ks key in
    let cut = cut_leaf key ks rs e h in
    elim (Bool-cases (is_at ks i key)) [
      | inl q ↦ rw q (
          Moves-eq (
            sym cut
            ∙ ap (λ b. if b then zip_rows (remove_elem i ks) (remove_elem i rs) else zip_rows ks rs)
                q))
      | inr q ↦ rw q (
          Moves-eq (
            sym cut
            ∙ ap (λ b. if b then zip_rows (remove_elem i ks) (remove_elem i rs) else zip_rows ks rs)
                q))
    ]

module _ (least most : ℕ) (room : 2 ≤ most) (some_keys : 1 ≤ least) (half : least ≤ most / 2) where
  delete_internal-Moves :
      (keys : List Key) (i h : ℕ) (r : DeletedBelow)
      → ShrunkBelow least most room some_keys half h (length keys + 1) i r
      → 1 ≤ length keys
      → Moves (items_among r.children keys) (items (delete_internal least keys i r).node)
  unfolding delete_internal items
  delete_internal-Moves keys i h r below has =
      if-cases (λ (d : Deleted). Moves (items_among r.children keys) (items d.node))
        (r.hit && ltb (key_count (node_at r.children i)) least) _ _
        (λ e.
          let (all, here) = below.one_less (ground (arith, e)) in
          repair-Kept least most some_keys keys r.children i h r.stats below.same_count all here
            has)
        (λ e. Moves-stay (items_among r.children keys))

  module _ (key : Key) where
    mutual
      unfolding delete items before after node_at

      pub delete-Moves :
          (n : Node) (h : ℕ) (st : Stats)
          → IsShaped least most n h
          → HasKeys n
          → IsSorted (items n)
          → Moves (erase_items key (items n)) (items (delete least key n st).node)
      delete-Moves (leaf addr ks rs next) zero st s has o =
          delete_leaf-Moves key addr ks rs next st s o
      delete-Moves (leaf addr ks rs next) (suc h) st s has o = absurd s
      delete-Moves (internal ks cs) zero st s has o = absurd s
      delete-Moves (internal ks cs) (suc h) st (e, all) has o =
          let i = linear_child ks key in
          let r = delete_child least key cs i st in
          let there = child_index-linear_child ks key (child-Ascending cs ks e o) in
          let at =
            ap (erase_items key) (items_among-at cs i ks)
            ∙ erase_front key (before cs i ks) (items (node_at cs i) ++ after cs i ks)
                (Under-Lacks key no_row (before cs i ks) (before-Under key no_row cs ks o))
            ∙ ap (λ l. before cs i ks ++ l)
                (erase_back key (items (node_at cs i)) (after cs i ks)
                  (Above-Lacks key no_row (after cs i ks) (after-Above key no_row cs ks e o))) in
          let below =
            delete_child-Moves cs i ks h st all (omega (arith, e, linear_child-le ks key))
              (linear_child-le ks key) (child-IsSorted cs i ks o) in
          let shrunk = delete_child-ShrunkBelow least most room some_keys half key cs i h st all in
          subst
            (λ i.
              Moves (erase_items key (items_among cs ks))
                (items (delete_internal least ks i (delete_child least key cs i st)).node))
            (sym there)
            (Moves-trans (Moves-eq at) (
              Moves-trans below (
                delete_internal-Moves ks i h r
                  (subst (λ k. ShrunkBelow least most room some_keys half h k i r) e shrunk) has)))

      delete_child-Moves :
          (cs : Nodes) (i : ℕ) (ks : List Key) (h : ℕ) (st : Stats)
          → AllShaped least most cs h
          → i < node_count cs
          → i ≤ length ks
          → IsSorted (items (node_at cs i))
          → Moves
              (before cs i ks ++ (erase_items key (items (node_at cs i)) ++ after cs i ks))
              (items_among (delete_child least key cs i st).children ks)
      delete_child-Moves nil i ks h st all less le o = absurd (omega arith)
      delete_child-Moves (cons c cs) zero [] h st (s, a, b, all) less le o =
          Moves-within [] (items_among cs [])
            (delete-Moves c h st s (Full-HasKeys least most room some_keys half c a) o)
      delete_child-Moves (cons c cs) zero (k ∷ ks) h st (s, a, b, all) less le o =
          Moves-within [] (sep k ∷ items_among cs ks)
            (delete-Moves c h st s (Full-HasKeys least most room some_keys half c a) o)
      delete_child-Moves (cons c cs) (suc i) [] h st (s, a, b, all) less le o = absurd (omega arith)
      delete_child-Moves (cons c cs) (suc i) (k ∷ ks) h st (s, a, b, all) less le o =
          let rest = erase_items key (items (node_at cs i)) ++ after cs i ks in
          Moves-trans (Moves-eq (append_assoc (items c) (sep k ∷ before cs i ks) rest)) (
            Moves-after (items c) k
              (delete_child-Moves cs i ks h st all (omega arith) (omega arith) o))
