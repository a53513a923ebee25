-- ===== src/Btree/Removal.antt =====
-- Delete takes a key out of the map.
use scutedb.Base.{
  ℕ, zero, suc, ◌+◌, ◌-◌, ◌/◌, ◌≤◌, ◌≡◌, refl, sym, ap, ◌∙◌, subst, arith, [], ◌∷◌, append-nil,
  Option, none, some, Bool, true, false, if◌then◌else◌, if-cases, Bool-cases, length, inl, inr,
}
use scutedb.Btree.{Key, Node, Nodes, leaf, internal, nil, cons, Tree, Stats}
use scutedb.Btree.Items.{IsSorted, rows_of, items, items_among, Moves, Moves-trans, Moves-eq}
use scutedb.Btree.Entries.{Entries, same, find, erase, erase_items}
use scutedb.Btree.Delete.{
  node_count, Deleted, delete, collapse, collapse_first, delete_root, remove,
}
use scutedb.Btree.Shape.{IsShaped, AllShaped}
use scutedb.Btree.Descent.{get_node-find}
use scutedb.Btree.Sorting.{erase_items-IsSorted, rows_of-erase_items}
use scutedb.Btree.Shrink.{delete-Shrunk, deleted-IsBalanced}
use scutedb.Btree.Balanced.{IsRoot, RootShaped, IsBalanced}
use scutedb.Btree.Deleting.{delete-Moves}
use scutedb.Btree.Hits.{is_found, delete-hit, length-erase}
use scutedb.Btree.Map.{root_items, contents, IsTree, Moves-IsSorted}

mutual
  unfolding collapse items

  collapse-items :
      (least most : ℕ) (n : Node) (h : ℕ) (st : Stats)
      → IsShaped least most n h
      → items (collapse n st).0 ≡ items n
  collapse-items least most (leaf addr ks rs next) h st s = refl
  collapse-items least most (internal (k ∷ ks) cs) h st s = refl
  collapse-items least most (internal [] cs) zero st s = absurd s
  collapse-items least most (internal [] cs) (suc h) st (e, all) =
      collapse_first-items least most cs h (record st { collapses = st.collapses + 1 }) all e

  collapse_first-items :
      (least most : ℕ) (cs : Nodes) (h : ℕ) (st : Stats)
      → AllShaped least most cs h
      → node_count cs ≡ 1
      → items (collapse_first cs st).0 ≡ items_among cs []
  collapse_first-items least most nil h st all e = absurd (omega (arith, e))
  collapse_first-items least most (cons c nil) h st (s, a, b, all) e =
      collapse-items least most c h st s ∙ sym (append-nil (items c))
  collapse_first-items least most (cons c (cons d cs)) h st all e = absurd (omega (arith, e))

erase_missing : (key : Key) (es : Entries) → is_found (find key es) ≡ false → erase key es ≡ es
unfolding erase find
erase_missing key [] h = refl
erase_missing key ((k, r) ∷ es) h = elim (Bool-cases (same k key)) [
  | inl e ↦ absurd (ground (arith, h, e))
  | inr e ↦ rw e (ap (λ l. (k, r) ∷ l) (erase_missing key es (ground (arith, h, e))))
]

-- What a deletion gives: whether the key was there, and a tree without it.
pub record IsRemoved (t : Tree) (key : Key) (x : Bool × Tree) : Type 0 where
  pub tree : IsTree x.1
  pub without : contents x.1 ≡ erase key (contents t)
  pub says : x.0 ≡ is_found (find key (contents t))

module _ (t : Tree) (key : Key) (balanced : IsBalanced t) (n : Node)
    (s : IsRoot t.min_keys t.max_keys n) (o : IsSorted (items n))
    (counted : t.count ≡ length (rows_of (items n))) where
  abbrev found : Bool
  found = is_found (find key (rows_of (items n)))

  abbrev done : Deleted
  done = delete t.min_keys key n t.stats

  abbrev few : 1 ≤ t.min_keys
  few = omega (arith, balanced.least_keys, balanced.known_order)

  abbrev room : 2 ≤ t.max_keys
  room = omega (arith, balanced.most_keys, balanced.known_order)

  abbrev half : t.min_keys ≤ t.max_keys / 2
  half = omega (arith, balanced.least_keys, balanced.most_keys)

  hit_found : done.hit ≡ found
  hit_found =
      delete-hit t.min_keys key n t.stats
      ∙ ap is_found (get_node-find t.min_keys t.max_keys key n s.height s.shaped o)

  collapsed_Moves : Moves (erase_items key (items n)) (items (collapse done.node done.stats).0)
  collapsed_Moves =
      let shrunk =
        delete-Shrunk t.min_keys t.max_keys room few half key n s.height t.stats s.shaped
          s.branches in
      Moves-trans
        (delete-Moves t.min_keys t.max_keys room few half key n s.height t.stats s.shaped s.branches
          o)
        (Moves-eq
          (sym (collapse-items t.min_keys t.max_keys done.node s.height done.stats shrunk.shaped)))

  collapsed_without :
      rows_of (items (collapse done.node done.stats).0) ≡ erase key (rows_of (items n))
  collapsed_without = collapsed_Moves.same_rows ∙ rows_of-erase_items key (items n)

  collapsed_counted :
      done.hit ≡ true → t.count - 1 ≡ length (rows_of (items (collapse done.node done.stats).0))
  collapsed_counted hit =
      let size = length-erase key (rows_of (items n)) in
      let there : found ≡ true = sym hit_found ∙ hit in
      let sized =
        size
        ∙ ap
            (λ b.
              if b
              then length (erase key (rows_of (items n))) + 1
              else length (erase key (rows_of (items n))))
            there in
      omega (arith, counted, sized) ∙ ap length (sym collapsed_without)

delete_root-IsRemoved :
    (t : Tree) (key : Key) (root : Option Node)
    → t.root ≡ root
    → IsTree t
    → IsRemoved t key (delete_root t root key)
unfolding find rows_of
delete_root-IsRemoved t key none e h =
    let missing = ap (λ r. is_found (find key (rows_of (root_items r)))) e in
    record { tree = h; without = sym (erase_missing key (contents t) missing); says = sym missing }
delete_root-IsRemoved t key (some n) e h =
    let s = subst (RootShaped t.min_keys t.max_keys) e h.balanced.root_shaped in
    let o = subst (λ r. IsSorted (root_items r)) e h.ordered in
    let same_rows = ap (λ r. rows_of (root_items r)) e in
    let c = h.counted ∙ ap length same_rows in
    let says =
      hit_found t key h.balanced n s o c ∙ ap (λ es. is_found (find key es)) (sym same_rows) in
    if-cases (IsRemoved t key) (delete t.min_keys key n t.stats).hit _ _
      (λ hit. record {
        tree = record {
          balanced = deleted-IsBalanced t h.balanced n key s;
          ordered =
              Moves-IsSorted (erase_items key (items n)) _
                (collapsed_Moves t key h.balanced n s o c) (erase_items-IsSorted key (items n) o);
          counted = collapsed_counted t key h.balanced n s o c hit;
        };
        without = collapsed_without t key h.balanced n s o c ∙ ap (erase key) (sym same_rows);
        says = sym hit ∙ says;
      })
      (λ miss. record {
        tree = h;
        without = sym (erase_missing key (contents t) (sym says ∙ miss));
        says = sym miss ∙ says;
      })

-- Delete on a tree says whether the key is among its entries, takes it out of them with its row,
-- and leaves a tree.
pub remove-IsRemoved : (t : Tree) (key : Key) → IsTree t → IsRemoved t key (remove t key)
unfolding remove
remove-IsRemoved t key h = delete_root-IsRemoved t key t.root refl h
