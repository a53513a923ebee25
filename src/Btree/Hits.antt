-- ===== src/Btree/Hits.antt =====
-- Whether a key was there: what an insertion and a deletion say of it, and the number of entries.
use scutedb.Base.{
  ℕ, zero, suc, ◌+◌, ◌<◌, ◌≡◌, refl, ap, ◌∙◌, arith, List, [], ◌∷◌, Option, none, some, Bool, true,
  false, not, ◌&&◌, if◌then◌else◌, if-cases, Bool-cases, ltb, leb, length, inl, inr, compare_bytes,
}
use scutedb.Nodepage.{RowId}
use scutedb.Btree.{
  Key, Node, Nodes, leaf, internal, nil, cons, Stats, Inserted, beside, insert_elem, split_leaf,
  split_internal, insert_leaf, insert_internal, insert, insert_child, child_index, leaf_index,
  is_at, leaf_get, get_node, get_child,
}
use scutedb.Btree.Keys.{lt, is_equal-lt}
use scutedb.Btree.Items.{Item, row, sep, IsSorted, rows_of, items, items_among, IsSorted-append}
use scutedb.Btree.Separator.{Below-trans}
use scutedb.Btree.Entries.{
  Entries, same, find, erase, upsert_items, Lacks, find_back, Above-Lacks, unequal,
}
use scutedb.Btree.Delete.{
  key_count, node_count, node_at, Deleted, DeletedBelow, delete_leaf, delete_internal, delete,
  delete_child,
}
use scutedb.Btree.Shape.{IsShaped, AllShaped}
use scutedb.Btree.Index.{child_index-linear_child, linear_child-le, child-Ascending}
use scutedb.Btree.Descent.{child-IsSorted}

abbrev pub is_found : {A : Type 0} → Option A → Bool
is_found none = false
is_found (some x) = true

insert_leaf-added :
    (most fresh : ℕ) (key : Key) (rid : RowId) (addr : ℕ) (ks : List Key) (rs : List RowId)
    (next : Option ℕ)
    → (insert_leaf most fresh key rid addr ks rs next).added ≡ not (is_found (leaf_get ks rs key))
unfolding insert_leaf split_leaf
insert_leaf-added most fresh key rid addr ks rs next =
    elim (Bool-cases (is_at ks (leaf_index ks key) key)) [
      | inl e ↦ rw e refl
      | inr e ↦ rw e (
          if-cases (λ (r : Inserted). r.added ≡ true)
            (leb (length (insert_elem (leaf_index ks key) key ks)) most) _ _ (λ z. refl)
            (λ z. refl))
    ]

insert_internal-added :
    (most : ℕ) (ks : List Key) (i : ℕ) (cs : Nodes) (s : Option Key) (added : Bool)
    → (insert_internal most ks i cs s added).added ≡ added
unfolding insert_internal split_internal
insert_internal-added most ks i cs none added = refl
insert_internal-added most ks i cs (some s) added =
    if-cases (λ (r : Inserted). r.added ≡ added) (leb (length (insert_elem i s ks)) most) _ _
      (λ z. refl) (λ z. refl)

beside-added :
    (n : Node) (split : Option (Key × Node)) (added : Bool) (cs : Nodes)
    → (beside n split added cs).added ≡ added
beside-added n none added cs = refl
beside-added n (some (s, r)) added cs = refl

module _ (least most fresh : ℕ) (key : Key) (rid : RowId) where
  mutual
    unfolding insert get_node items IsSorted node_at

    pub insert-added :
        (n : Node) (h : ℕ)
        → IsShaped least most n h
        → IsSorted (items n)
        → (insert most fresh key rid n).added ≡ not (is_found (get_node n key))
    insert-added (leaf addr ks rs next) zero s o =
        insert_leaf-added most fresh key rid addr ks rs next
    insert-added (leaf addr ks rs next) (suc h) s o = absurd s
    insert-added (internal ks cs) zero s o = absurd s
    insert-added (internal ks cs) (suc h) (e, all) o =
        let i = child_index ks key in
        let r = insert_child most fresh key rid cs i in
        let there = child_index-linear_child ks key (child-Ascending cs ks e o) in
        insert_internal-added most ks i r.children r.separator r.added
        ∙ insert_child-added cs i ks h all (omega (arith, e, there, linear_child-le ks key)) o

    insert_child-added :
        (cs : Nodes) (i : ℕ) (ks : List Key) (h : ℕ)
        → AllShaped least most cs h
        → i < node_count cs
        → IsSorted (items_among cs ks)
        → (insert_child most fresh key rid cs i).added ≡ not (is_found (get_child cs i key))
    insert_child-added nil i ks h all less o = absurd (omega arith)
    insert_child-added (cons c cs) zero ks h (s, a, b, all) less o =
        let r = insert most fresh key rid c in
        beside-added r.node r.split r.added cs
        ∙ insert-added c h s (child-IsSorted (cons c cs) 0 ks o)
    insert_child-added (cons c cs) (suc i) [] h (s, a, b, all) less o =
        insert_child-added cs i [] h all (omega arith)
          (IsSorted-append (items c) (items_among cs []) o).1
    insert_child-added (cons c cs) (suc i) (k ∷ ks) h (s, a, b, all) less o =
        insert_child-added cs i ks h all (omega arith)
          (IsSorted-append (items c) (sep k ∷ items_among cs ks) o).1.1

delete_leaf-hit :
    (key : Key) (addr : ℕ) (ks : List Key) (rs : List RowId) (next : Option ℕ) (st : Stats)
    → (delete_leaf key addr ks rs next st).hit ≡ is_found (leaf_get ks rs key)
unfolding delete_leaf
delete_leaf-hit key addr ks rs next st = elim (Bool-cases (is_at ks (leaf_index ks key) key)) [
  | inl e ↦ rw e refl
  | inr e ↦ rw e refl
]

delete_internal-hit :
    (least : ℕ) (ks : List Key) (i : ℕ) (r : DeletedBelow)
    → (delete_internal least ks i r).hit ≡ r.hit
unfolding delete_internal
delete_internal-hit least ks i r =
    if-cases (λ (d : Deleted). d.hit ≡ r.hit)
      (r.hit && ltb (key_count (node_at r.children i)) least) _ _ (λ e. ground (arith, e))
      (λ e. refl)

module _ (least : ℕ) (key : Key) where
  mutual
    unfolding delete get_node

    pub delete-hit :
        (n : Node) (st : Stats) → (delete least key n st).hit ≡ is_found (get_node n key)
    delete-hit (leaf addr ks rs next) st = delete_leaf-hit key addr ks rs next st
    delete-hit (internal ks cs) st =
        delete_internal-hit least ks (child_index ks key)
          (delete_child least key cs (child_index ks key) st)
        ∙ delete_child-hit cs (child_index ks key) st

    delete_child-hit :
        (cs : Nodes) (i : ℕ) (st : Stats)
        → (delete_child least key cs i st).hit ≡ is_found (get_child cs i key)
    delete_child-hit nil i st = refl
    delete_child-hit (cons c cs) zero st = delete-hit c st
    delete_child-hit (cons c cs) (suc i) st = delete_child-hit cs i st

Lacks-none : (key : Key) (xs : List Item) → Lacks key xs → is_found (find key (rows_of xs)) ≡ false
unfolding find rows_of
Lacks-none key xs h = ap is_found (find_back key [] xs h)

pub length-upsert_items :
    (key : Key) (rid : RowId) (xs : List Item)
    → IsSorted xs
    → length (rows_of (upsert_items key rid xs))
      ≡ (if is_found (find key (rows_of xs)) then length (rows_of xs) else length (rows_of xs) + 1)
unfolding upsert_items rows_of find IsSorted
length-upsert_items key rid [] h = refl
length-upsert_items key rid (sep k ∷ xs) (b, h) = elim (Bool-cases (lt key k)) [
  | inl e ↦ rw e (
      rw (Lacks-none key xs (Above-Lacks key rid xs (Below-trans (row key rid) (sep k) xs e b)))
        (omega arith))
  | inr e ↦ rw e (length-upsert_items key rid xs h)
]
length-upsert_items key rid (row k r ∷ xs) (b, h) = elim (Bool-cases (lt k key)) [
  | inl e ↦
      rw e (rw (unequal (compare_bytes k key) e) (ground (arith, length-upsert_items key rid xs h)))
  | inr e ↦ elim (Bool-cases (same k key)) [
    | inl z ↦ rw e (rw z refl)
    | inr z ↦
        let less : lt key k ≡ true = ground (arith, is_equal-lt k key e, z) in
        let rest = Below-trans (row key rid) (row k r) xs less b in
        rw e (rw z (rw (Lacks-none key xs (Above-Lacks key rid xs rest)) (omega arith)))
  ]
]

pub length-erase :
    (key : Key) (es : Entries)
    → length es
      ≡ (if is_found (find key es) then length (erase key es) + 1 else length (erase key es))
unfolding erase find
length-erase key [] = refl
length-erase key ((k, r) ∷ es) = elim (Bool-cases (same k key)) [
  | inl e ↦ rw e (omega arith)
  | inr e ↦ rw e (ground (arith, length-erase key es))
]
