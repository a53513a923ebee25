-- ===== src/Btree/Delete.antt =====
-- internal/btree/delete.go: Delete, with the repair of a node that has too few keys.
use scutedb.Base.{
  ℕ, zero, suc, ◌+◌, ◌-◌, List, [], ◌∷◌, ◌++◌, length, take, drop, get_or, set, Option, none, some,
  Bool, true, false, ◌&&◌,
}
use scutedb.Base.{ltb, if◌then◌else◌}
use scutedb.Nodepage.{RowId}
use scutedb.Btree.{
  Key, Node, Nodes, leaf, internal, nil, cons, Stats, Tree, child_index, leaf_index, is_at, no_row,
  take_nodes,
}

abbrev pub key_count : Node → ℕ
key_count (leaf addr keys rows next) = length keys
key_count (internal keys children) = length keys

abbrev pub node_count : Nodes → ℕ
node_count nil = 0
node_count (cons c cs) = node_count cs + 1

-- A child out of range, where the program would panic, is an empty leaf.
unfoldable pub node_at : Nodes → ℕ → Node
node_at nil i = leaf 0 [] [] none
node_at (cons c cs) zero = c
node_at (cons c cs) (suc i) = node_at cs i

unfoldable pub set_node : Nodes → ℕ → Node → Nodes
set_node nil i n = nil
set_node (cons c cs) zero n = cons n cs
set_node (cons c cs) (suc i) n = cons c (set_node cs i n)

unfoldable pub remove_node : Nodes → ℕ → Nodes
remove_node nil i = nil
remove_node (cons c cs) zero = cs
remove_node (cons c cs) (suc i) = cons c (remove_node cs i)

unfoldable pub append_nodes : Nodes → Nodes → Nodes
append_nodes nil ds = ds
append_nodes (cons c cs) ds = cons c (append_nodes cs ds)

unfoldable pub remove_elem {ℓ} : {A : Type ℓ} → ℕ → List A → List A
remove_elem i xs = take i xs ++ drop (i + 1) xs

-- Two neighbours, and the key between them.
pub record Pair : Type 0 where
  pub left : Node
  pub right : Node
  pub separator : Key

-- The last entry of the left node moves to the right one. A leaf beside an inner node, where the
-- program would panic, stays as it is.
unfoldable pub shift_right : Node → Node → Key → Pair
unfolding node_at take_nodes
shift_right (leaf a ks rs nx) (leaf b kc rc ny) sep =
    let last = length ks - 1 in
    record {
      left = leaf a (take last ks) (take last rs) nx;
      right = leaf b (get_or ks last [] ∷ kc) (get_or rs last no_row ∷ rc) ny;
      separator = get_or ks last [];
    }
shift_right (internal ks cs) (internal kc cc) sep =
    let last = length ks - 1 in
    let last_child = node_count cs - 1 in
    record {
      left = internal (take last ks) (take_nodes last_child cs);
      right = internal (sep ∷ kc) (cons (node_at cs last_child) cc);
      separator = get_or ks last [];
    }
shift_right (leaf a ks rs nx) (internal kc cc) sep = record {
  left = leaf a ks rs nx;
  right = internal kc cc;
  separator = sep;
}
shift_right (internal ks cs) (leaf b kc rc ny) sep = record {
  left = internal ks cs;
  right = leaf b kc rc ny;
  separator = sep;
}

-- The first entry of the right node moves to the left one.
unfoldable pub shift_left : Node → Node → Key → Pair
unfolding node_at remove_node
shift_left (leaf a ks rs nx) (leaf b kr rr ny) sep = record {
  left = leaf a (ks ++ (get_or kr 0 [] ∷ [])) (rs ++ (get_or rr 0 no_row ∷ [])) nx;
  right = leaf b (drop 1 kr) (drop 1 rr) ny;
  separator = get_or (drop 1 kr) 0 [];
}
shift_left (internal ks cs) (internal kr cr) sep = record {
  left = internal (ks ++ (sep ∷ [])) (append_nodes cs (cons (node_at cr 0) nil));
  right = internal (drop 1 kr) (remove_node cr 0);
  separator = get_or kr 0 [];
}
shift_left (leaf a ks rs nx) (internal kr cr) sep = record {
  left = leaf a ks rs nx;
  right = internal kr cr;
  separator = sep;
}
shift_left (internal ks cs) (leaf b kr rr ny) sep = record {
  left = internal ks cs;
  right = leaf b kr rr ny;
  separator = sep;
}

unfoldable pub join : Node → Node → Key → Node
unfolding append_nodes
join (leaf a ks rs nx) (leaf b kr rr ny) sep = leaf a (ks ++ kr) (rs ++ rr) ny
join (internal ks cs) (internal kr cr) sep = internal (ks ++ (sep ∷ kr)) (append_nodes cs cr)
join (leaf a ks rs nx) (internal kr cr) sep = leaf a ks rs nx
join (internal ks cs) (leaf b kr rr ny) sep = internal ks cs

-- The keys and children of a node, with the counters.
pub record Inner : Type 0 where
  pub keys : List Key
  pub children : Nodes
  pub stats : Stats

-- The children at `i - 1` and `i` give way to a pair.
abbrev pub with_pair : List Key → Nodes → ℕ → Pair → Stats → Inner
with_pair keys cs i p st = record {
  keys = set keys i p.separator;
  children = set_node (set_node cs i p.left) (i + 1) p.right;
  stats = st;
}

unfoldable pub borrow_from_left : List Key → Nodes → ℕ → Stats → Inner
unfolding node_at set_node shift_right
borrow_from_left keys cs i st =
    with_pair keys cs (i - 1)
      (shift_right (node_at cs (i - 1)) (node_at cs i) (get_or keys (i - 1) []))
      (record st { borrows_left = st.borrows_left + 1 })

unfoldable pub borrow_from_right : List Key → Nodes → ℕ → Stats → Inner
unfolding node_at set_node shift_left
borrow_from_right keys cs i st =
    with_pair keys cs i (shift_left (node_at cs i) (node_at cs (i + 1)) (get_or keys i []))
      (record st { borrows_right = st.borrows_right + 1 })

unfoldable pub merge : List Key → Nodes → ℕ → Stats → Inner
unfolding node_at set_node remove_node remove_elem join
merge keys cs i st = record {
  keys = remove_elem i keys;
  children =
      remove_node (set_node cs i (join (node_at cs i) (node_at cs (i + 1)) (get_or keys i [])))
        (i + 1);
  stats = record st { merges = st.merges + 1 };
}

unfoldable pub repair : ℕ → List Key → Nodes → ℕ → Stats → Inner
unfolding node_at borrow_from_left borrow_from_right merge
repair min_keys keys cs i st =
    if ltb 0 i && ltb min_keys (key_count (node_at cs (i - 1)))
    then borrow_from_left keys cs i st
    else if ltb (i + 1) (node_count cs) && ltb min_keys (key_count (node_at cs (i + 1)))
    then borrow_from_right keys cs i st
    else if ltb 0 i
    then merge keys cs (i - 1) st
    else merge keys cs i st

-- A node after `delete`, and whether it held the key.
pub record Deleted : Type 0 where
  pub node : Node
  pub hit : Bool
  pub stats : Stats

pub record DeletedBelow : Type 0 where
  pub children : Nodes
  pub hit : Bool
  pub stats : Stats

unfoldable pub delete_leaf : Key → ℕ → List Key → List RowId → Option ℕ → Stats → Deleted
unfolding leaf_index remove_elem
delete_leaf key addr keys rows next st =
    let i = leaf_index keys key in
    if is_at keys i key
    then record {
      node = leaf addr (remove_elem i keys) (remove_elem i rows) next;
      hit = true;
      stats = st;
    }
    else record { node = leaf addr keys rows next; hit = false; stats = st }

abbrev pub of_inner : Inner → Deleted
of_inner r = record { node = internal r.keys r.children; hit = true; stats = r.stats }

unfoldable pub delete_internal : ℕ → List Key → ℕ → DeletedBelow → Deleted
unfolding node_at repair
delete_internal min_keys keys i r =
    if r.hit && ltb (key_count (node_at r.children i)) min_keys
    then of_inner (repair min_keys keys r.children i r.stats)
    else record { node = internal keys r.children; hit = r.hit; stats = r.stats }

module _ (min_keys : ℕ) (key : Key) where
  unfoldable mutual
    unfolding delete_leaf delete_internal child_index

    pub delete : Node → Stats → Deleted
    delete (leaf addr keys rows next) st = delete_leaf key addr keys rows next st
    delete (internal keys children) st =
        let i = child_index keys key in delete_internal min_keys keys i (delete_child children i st)

    pub delete_child : Nodes → ℕ → Stats → DeletedBelow
    delete_child nil i st = record { children = nil; hit = false; stats = st }
    delete_child (cons c cs) zero st =
        let r = delete c st in record { children = cons r.node cs; hit = r.hit; stats = r.stats }
    delete_child (cons c cs) (suc i) st =
        let r = delete_child cs i st in record r { children = cons c r.children }

-- `for !t.root.leaf && len(t.root.keys) == 0`
unfoldable mutual
  pub collapse : Node → Stats → Node × Stats
  collapse (leaf addr keys rows next) st = (leaf addr keys rows next, st)
  collapse (internal (k ∷ keys) children) st = (internal (k ∷ keys) children, st)
  collapse (internal [] children) st =
      collapse_first children (record st { collapses = st.collapses + 1 })

  pub collapse_first : Nodes → Stats → Node × Stats
  collapse_first nil st = (leaf 0 [] [] none, st)
  collapse_first (cons c cs) st = collapse c st

abbrev pub collapsed : Tree → Node × Stats → Tree
collapsed t (n, st) = record t { root = some n; count = t.count - 1; stats = st }

-- Delete says whether the key was there.
abbrev pub delete_root : Tree → Option Node → Key → Bool × Tree
delete_root t none key = (false, t)
delete_root t (some n) key =
    let r = delete t.min_keys key n t.stats in
    if r.hit then (true, collapsed t (collapse r.node r.stats)) else (false, t)

unfoldable pub remove : Tree → Key → Bool × Tree
unfolding delete collapse
remove t key = delete_root t t.root key
