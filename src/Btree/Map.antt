-- ===== src/Btree/Map.antt =====
-- The tree is a sorted map: Put, Get and Delete do what they say.
use scutedb.Base.{
  ℕ, ◌+◌, ◌≡◌, refl, sym, ap, ◌∙◌, subst, arith, List, [], ◌∷◌, ◌++◌, append-nil, Option, none,
  some, Bool, true, false, not, if◌then◌else◌, if-cases, length, ◌==◌, inl, inr, ◌⊎◌,
}
use scutedb.Nodepage.{RowId}
use scutedb.Btree.{
  Key, Node, Tree, Inserted, insert, get_root, get, put, put_root, ensure, ensure_order,
  ensure_root, root_or, grown_root,
}
use scutedb.Btree.Items.{
  Item, sep, IsSorted, rows_of, zip_rows, items, Moves, Moves-trans, Moves-eq,
}
use scutedb.Btree.Entries.{Entries, find, upsert, upsert_items}
use scutedb.Btree.Descent.{get_node-find}
use scutedb.Btree.Sorting.{upsert_items-IsSorted, rows_of-upsert_items}
use scutedb.Btree.Inserting.{split_items}
use scutedb.Btree.Splitting.{insert-Moves}
use scutedb.Btree.Balanced.{
  IsRoot, RootShaped, IsBalanced, IsUnset, put-IsBalanced, ensure_root-IsBalanced,
  ensure_order-IsBalanced, root_or-IsRoot,
}
use scutedb.Btree.Hits.{is_found, insert-added, length-upsert_items}

abbrev pub root_items : Option Node → List Item
root_items none = []
root_items (some n) = items n

-- The keys of the tree with their rows, in the order of the leaves.
abbrev pub contents : Tree → Entries
contents t = rows_of (root_items t.root)

-- A balanced tree whose keys and separators are in order, with the number of its keys in `count`.
pub record IsTree (t : Tree) : Type 0 where
  pub balanced : IsBalanced t
  pub ordered : IsSorted (root_items t.root)
  pub counted : t.count ≡ length (contents t)

get_root-find :
    (least most : ℕ) (root : Option Node) (key : Key)
    → RootShaped least most root
    → IsSorted (root_items root)
    → get_root root key ≡ find key (rows_of (root_items root))
unfolding find rows_of
get_root-find least most none key s o = refl
get_root-find least most (some n) key s o = get_node-find least most key n s.height s.shaped o

-- Get finds the row that stands with the key among the entries of the tree, or none.
pub get-find : (t : Tree) (key : Key) → IsTree t → get t key ≡ find key (contents t)
unfolding get
get-find t key h = get_root-find t.min_keys t.max_keys t.root key h.balanced.root_shaped h.ordered

-- A root after an insertion.
grown_root-items :
    (n : Node) (split : Option (Key × Node))
    → items n ++ split_items split ≡ items (grown_root n split)
unfolding items
grown_root-items n none = append-nil (items n)
grown_root-items n (some (s, r)) = ap (λ l. items n ++ (sep s ∷ l)) (sym (append-nil (items r)))

-- From a whole tree to a whole tree.
pub Moves-IsSorted : (xs ys : List Item) → Moves xs ys → IsSorted xs → IsSorted ys
Moves-IsSorted xs ys h s =
    subst IsSorted (append-nil ys) (h.keeps [] [] (subst IsSorted (sym (append-nil xs)) s))

grown_count :
    (found : Bool) (c l : ℕ)
    → c ≡ l
    → (if not found then c + 1 else c) ≡ (if found then l else l + 1)
grown_count true c l e = e
grown_count false c l e = omega (arith, e)

module _ (t : Tree) (n : Node) (key : Key) (rid : RowId) (balanced : IsBalanced t)
    (s : IsRoot t.min_keys t.max_keys n) (o : IsSorted (items n)) where
  abbrev grown : Inserted
  grown = insert t.max_keys t.fresh key rid n

  grown-Moves : Moves (upsert_items key rid (items n)) (items (grown_root grown.node grown.split))
  grown-Moves =
      Moves-trans
        (insert-Moves t.min_keys t.max_keys
          (omega (arith, balanced.most_keys, balanced.known_order))
          (omega (arith, balanced.most_keys, balanced.least_keys)) t.fresh key rid n s.height
          s.shaped o)
        (Moves-eq (grown_root-items grown.node grown.split))

  put_root-contents : contents (put_root t n key rid) ≡ upsert key rid (rows_of (items n))
  put_root-contents = grown-Moves.same_rows ∙ rows_of-upsert_items key rid (items n) o

  put_root-ordered : IsSorted (root_items (put_root t n key rid).root)
  put_root-ordered =
      Moves-IsSorted (upsert_items key rid (items n)) _ grown-Moves
        (upsert_items-IsSorted key rid (items n) o)

  put_root-counted :
      t.count ≡ length (rows_of (items n))
      → (put_root t n key rid).count ≡ length (contents (put_root t n key rid))
  put_root-counted c =
      let added = insert-added t.min_keys t.max_keys t.fresh key rid n s.height s.shaped o in
      let there = get_node-find t.min_keys t.max_keys key n s.height s.shaped o in
      let size = ap length grown-Moves.same_rows ∙ length-upsert_items key rid (items n) o in
      ap (λ b. if b then t.count + 1 else t.count) (added ∙ ap (λ x. not (is_found x)) there)
      ∙ grown_count (is_found (find key (rows_of (items n)))) t.count (length (rows_of (items n))) c
      ∙ sym size

-- Go's zero value of a Tree, or a tree.
abbrev pub IsUsable : Tree → Type 0
IsUsable t = (IsUnset t × (t.count ≡ 0)) ⊎ IsTree t

usable-IsBalanced : (t : Tree) → IsUsable t → IsUnset t ⊎ IsBalanced t
usable-IsBalanced t (inl (u, c)) = inl u
usable-IsBalanced t (inr h) = inr h.balanced

bare_items : (root : Option Node) (addr : ℕ) → items (root_or root addr) ≡ root_items root
unfolding items zip_rows
bare_items none addr = refl
bare_items (some n) addr = refl

ensured_root : (t : Tree) → (ensure_root (ensure_order t)).root ≡ some (root_or t.root t.fresh)
ensured_root t =
    if-cases (λ (u : Tree). (ensure_root u).root ≡ some (root_or t.root t.fresh)) (t.order == 0) _ _
      (λ e. refl) (λ e. refl)

ensured_count : (t : Tree) → (ensure_root (ensure_order t)).count ≡ t.count
ensured_count t =
    if-cases (λ (u : Tree). (ensure_root u).count ≡ t.count) (t.order == 0) _ _ (λ e. refl)
      (λ e. refl)

ensured_items : (t : Tree) → root_items (ensure_root (ensure_order t)).root ≡ root_items t.root
ensured_items t = ap root_items (ensured_root t) ∙ bare_items t.root t.fresh

usable_ordered : (t : Tree) → IsUsable t → IsSorted (root_items t.root)
unfolding IsSorted
usable_ordered t (inl ((u, bare), c)) = subst (λ r. IsSorted (root_items r)) (sym bare) tt
usable_ordered t (inr h) = h.ordered

usable_counted : (t : Tree) → IsUsable t → t.count ≡ length (contents t)
unfolding rows_of
usable_counted t (inl ((u, bare), c)) = c ∙ ap (λ r. length (rows_of (root_items r))) (sym bare)
usable_counted t (inr h) = h.counted

module _ (t : Tree) (key : Key) (rid : RowId) (h : IsUsable t) where
  abbrev ready : Tree
  ready = ensure_root (ensure_order t)

  abbrev ready_root : Node
  ready_root = root_or ready.root ready.fresh

  ready-IsBalanced : IsBalanced ready
  ready-IsBalanced =
      ensure_root-IsBalanced (ensure_order t) (ensure_order-IsBalanced t (usable-IsBalanced t h))

  ready_items : items ready_root ≡ root_items t.root
  ready_items = bare_items ready.root ready.fresh ∙ ensured_items t

  ready_ordered : IsSorted (items ready_root)
  ready_ordered = subst IsSorted (sym ready_items) (usable_ordered t h)

  ready_IsRoot : IsRoot ready.min_keys ready.max_keys ready_root
  ready_IsRoot =
      root_or-IsRoot ready.min_keys ready.max_keys ready.fresh ready.root
        ready-IsBalanced.root_shaped

  -- Put on a tree, or on Go's zero value of one, leaves a tree.
  pub put-IsTree : IsTree (put t key rid)
  unfolding put ensure
  put-IsTree = record {
    balanced = put-IsBalanced t key rid (usable-IsBalanced t h);
    ordered = put_root-ordered ready ready_root key rid ready-IsBalanced ready_IsRoot ready_ordered;
    counted =
        put_root-counted ready ready_root key rid ready-IsBalanced ready_IsRoot ready_ordered
          (ensured_count t ∙ usable_counted t h ∙ ap (λ l. length (rows_of l)) (sym ready_items));
  }

  -- Put replaces the row of the key among the entries of the tree, or puts the key with its row in
  -- its place among them.
  pub contents-put : contents (put t key rid) ≡ upsert key rid (contents t)
  unfolding put ensure
  contents-put =
      put_root-contents ready ready_root key rid ready-IsBalanced ready_IsRoot ready_ordered
      ∙ ap (λ l. upsert key rid (rows_of l)) ready_items
