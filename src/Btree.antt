-- ===== src/Btree.antt =====
-- internal/btree/btree.go: a B+-tree in memory: nodes, Get and Put.
-- The leaves form a list through `next`, which the program shares as pointers. Here a leaf has an
-- address, and `next` is the address of another leaf.
pub mod Keys
pub mod Items
pub mod Separator
pub mod Entries
pub mod Sorting
pub mod Index
pub mod Descent
pub mod Leaves
pub mod Inserting
pub mod Splitting
pub mod Moving
pub mod Mending
pub mod Deleting
pub mod Hits
pub mod Map
pub mod Removal
pub mod Refinement
pub mod Lookup
pub mod Links
pub mod Linking
pub mod Unlinking
pub mod Chain
pub mod Scan
pub mod Scanning
pub mod Reaching
pub mod Ranges
pub mod Scans
pub mod Validate
pub mod Checked
pub mod Passing
pub mod Trusted
pub mod Inverting
pub mod Trusting
pub mod Adapter
pub mod Measure
pub mod Height
pub mod Shape
pub mod Delete
pub mod Balanced
pub mod Children
pub mod Repair
pub mod Shrink
mod Tests
use scutedb.Base.{
  ℕ, zero, suc, ◌+◌, ◌-◌, ◌/◌, List, [], ◌∷◌, ◌++◌, length, take, drop, get_or, set, Option, none,
  some, Bool, true, false, not, ◌&&◌,
}
use scutedb.Base.{ltb, leb, ◌==◌, if◌then◌else◌, Result, ok, err, compare_bytes}
use scutedb.Nodepage.{RowId, is_less, is_equal, search_loop}

abbrev pub Key : Type 0
Key = List ℕ

mutual
  pub data Node : Type 0 where
    leaf : (addr : ℕ) (keys : List Key) (rows : List RowId) (next : Option ℕ) → Node
    internal : (keys : List Key) (children : Nodes) → Node

  pub data Nodes : Type 0 where
    nil : Nodes
    cons : Node → Nodes → Nodes

pub record Stats : Type 0 where
  pub borrows_left : ℕ
  pub borrows_right : ℕ
  pub merges : ℕ
  pub collapses : ℕ

abbrev pub no_stats : Stats
no_stats = record { borrows_left = 0; borrows_right = 0; merges = 0; collapses = 0 }

-- `fresh` is an address that no leaf has. A root that is nil is `none`.
pub record Tree : Type 0 where
  pub root : Option Node
  pub order : ℕ
  pub max_keys : ℕ
  pub min_keys : ℕ
  pub count : ℕ
  pub fresh : ℕ
  pub stats : Stats

abbrev pub min_order : ℕ
min_order = 3

abbrev pub default_order : ℕ
default_order = 64

pub data Error : Type 0 where
  bad_order invariant : Error

unfoldable pub new : ℕ → Result Error Tree
new order =
    if ltb order min_order
    then err bad_order
    else ok (record {
      root = some (leaf 0 [] [] none);
      order = order;
      max_keys = order - 1;
      min_keys = (order - 1) / 2;
      count = 0;
      fresh = 1;
      stats = no_stats;
    })

-- The two halves of `ensure`, for a Tree that is Go's zero value.
abbrev pub ensure_order : Tree → Tree
ensure_order t =
    if t.order == 0
    then record t {
      order = default_order;
      max_keys = default_order - 1;
      min_keys = (default_order - 1) / 2;
    }
    else t

abbrev pub root_or : Option Node → ℕ → Node
root_or none addr = leaf addr [] [] none
root_or (some n) addr = n

abbrev pub fresh_for : Option Node → ℕ → ℕ
fresh_for none addr = addr + 1
fresh_for (some n) addr = addr

abbrev pub ensure_root : Tree → Tree
ensure_root t = record t { root = some (root_or t.root t.fresh); fresh = fresh_for t.root t.fresh }

unfoldable pub ensure : Tree → Tree
ensure t = ensure_root (ensure_order t)

unfoldable pub child_index : List Key → Key → ℕ
unfolding search_loop
child_index keys key =
    search_loop (λ i. is_less (compare_bytes key (get_or keys i []))) (length keys) 0 (length keys)

unfoldable pub leaf_index : List Key → Key → ℕ
unfolding search_loop
leaf_index keys key =
    search_loop (λ i. not (is_less (compare_bytes (get_or keys i []) key))) (length keys) 0
      (length keys)

-- `i < len(n.keys) && bytes.Equal(n.keys[i], key)`
abbrev pub is_at : List Key → ℕ → Key → Bool
is_at keys i key = ltb i (length keys) && is_equal (compare_bytes (get_or keys i []) key)

abbrev pub no_row : RowId
no_row = record { page = 0; slot = 0 }

abbrev pub leaf_get : List Key → List RowId → Key → Option RowId
leaf_get keys rows key =
    let i = leaf_index keys key in if is_at keys i key then some (get_or rows i no_row) else none

-- A child out of range, where the program would panic, has no key.
unfoldable mutual
  unfolding leaf_index child_index

  pub get_node : Node → Key → Option RowId
  get_node (leaf addr keys rows next) key = leaf_get keys rows key
  get_node (internal keys children) key = get_child children (child_index keys key) key

  pub get_child : Nodes → ℕ → Key → Option RowId
  get_child nil i key = none
  get_child (cons c cs) zero key = get_node c key
  get_child (cons c cs) (suc i) key = get_child cs i key

abbrev pub get_root : Option Node → Key → Option RowId
get_root none key = none
get_root (some n) key = get_node n key

unfoldable pub get : Tree → Key → Option RowId
unfolding get_node
get t key = get_root t.root key

-- `append`, and `copy` one place up.
unfoldable pub insert_elem {ℓ} : {A : Type ℓ} → ℕ → A → List A → List A
insert_elem i x xs = take i xs ++ (x ∷ drop i xs)

unfoldable pub take_nodes : ℕ → Nodes → Nodes
take_nodes zero cs = nil
take_nodes (suc n) nil = nil
take_nodes (suc n) (cons c cs) = cons c (take_nodes n cs)

unfoldable pub drop_nodes : ℕ → Nodes → Nodes
drop_nodes zero cs = cs
drop_nodes (suc n) nil = nil
drop_nodes (suc n) (cons c cs) = drop_nodes n cs

-- What `insert` leaves of a node: the node, the separator and the new node to its right if it was
-- split, and whether `count` went up.
pub record Inserted : Type 0 where
  pub node : Node
  pub split : Option (Key × Node)
  pub added : Bool

-- The same for the children of a node: the new node stands in its place among them.
pub record Descended : Type 0 where
  pub children : Nodes
  pub separator : Option Key
  pub added : Bool

abbrev pub whole : Node → Bool → Inserted
whole n added = record { node = n; split = none; added = added }

-- `fresh` is the address of the leaf to the right.
unfoldable pub split_leaf : ℕ → ℕ → List Key → List RowId → Option ℕ → Inserted
split_leaf fresh addr keys rows next =
    let mid = length keys / 2 in
    record {
      node = leaf addr (take mid keys) (take mid rows) (some fresh);
      split = some (get_or (drop mid keys) 0 [], leaf fresh (drop mid keys) (drop mid rows) next);
      added = true;
    }

unfoldable pub split_internal : List Key → Nodes → Bool → Inserted
unfolding take_nodes drop_nodes
split_internal keys children added =
    let mid = length keys / 2 in
    record {
      node = internal (take mid keys) (take_nodes (mid + 1) children);
      split =
          some (get_or keys mid [], internal (drop (mid + 1) keys) (drop_nodes (mid + 1) children));
      added = added;
    }

unfoldable pub insert_leaf : ℕ → ℕ → Key → RowId → ℕ → List Key → List RowId → Option ℕ → Inserted
unfolding leaf_index insert_elem split_leaf
insert_leaf max_keys fresh key rid addr keys rows next =
    let i = leaf_index keys key in
    let keys' = insert_elem i key keys in
    let rows' = insert_elem i rid rows in
    if is_at keys i key
    then whole (leaf addr keys (set rows i rid) next) false
    else if leb (length keys') max_keys
    then whole (leaf addr keys' rows' next) true
    else split_leaf fresh addr keys' rows' next

-- What the split of the child at `i` makes of its parent.
unfoldable pub insert_internal : ℕ → List Key → ℕ → Nodes → Option Key → Bool → Inserted
unfolding insert_elem split_internal
insert_internal max_keys keys i children none added = whole (internal keys children) added
insert_internal max_keys keys i children (some sep) added =
    let keys' = insert_elem i sep keys in
    if leb (length keys') max_keys
    then whole (internal keys' children) added
    else split_internal keys' children added

abbrev pub beside : Node → Option (Key × Node) → Bool → Nodes → Descended
beside n none added cs = record { children = cons n cs; separator = none; added = added }
beside n (some (sep, right)) added cs = record {
  children = cons n (cons right cs);
  separator = some sep;
  added = added;
}

module _ (max_keys fresh : ℕ) (key : Key) (rid : RowId) where
  unfoldable mutual
    unfolding insert_leaf insert_internal child_index

    pub insert : Node → Inserted
    insert (leaf addr keys rows next) = insert_leaf max_keys fresh key rid addr keys rows next
    insert (internal keys children) =
        let i = child_index keys key in
        let r = insert_child children i in
        insert_internal max_keys keys i r.children r.separator r.added

    pub insert_child : Nodes → ℕ → Descended
    insert_child nil i = record { children = nil; separator = none; added = false }
    insert_child (cons c cs) zero = let r = insert c in beside r.node r.split r.added cs
    insert_child (cons c cs) (suc i) =
        let r = insert_child cs i in record r { children = cons c r.children }

-- The root after an insertion: a split gives a new one.
abbrev pub grown_root : Node → Option (Key × Node) → Node
grown_root n none = n
grown_root n (some (sep, right)) = internal (sep ∷ []) (cons n (cons right nil))

abbrev pub put_root : Tree → Node → Key → RowId → Tree
put_root t n key rid =
    let r = insert t.max_keys t.fresh key rid n in
    record t {
      root = some (grown_root r.node r.split);
      count = if r.added then t.count + 1 else t.count;
      fresh = t.fresh + 1;
    }

unfoldable pub put : Tree → Key → RowId → Tree
unfolding insert ensure
put t key rid = let t = ensure t in put_root t (root_or t.root t.fresh) key rid
