-- ===== src/Btree/Scan.antt =====
-- internal/btree/btree.go: Scan and its Iterator, on a tree that does not change meanwhile.
-- A pointer to a leaf is the leaf that it points to, and `next` is looked up among the leaves.
use scutedb.Base.{
  ℕ, zero, suc, ◌+◌, List, [], ◌∷◌, ◌++◌, Option, none, some, Bool, true, false, not, if◌then◌else◌,
  leb, length, get_or, ◌==◌, compare_bytes,
}
use scutedb.Nodepage.{RowId, is_less}
use scutedb.Btree.{
  Key, Node, Nodes, leaf, internal, nil, cons, Tree, child_index, leaf_index, no_row,
}
use scutedb.Btree.Entries.{Entries}

pub record Leaf : Type 0 where
  pub addr : ℕ
  pub keys : List Key
  pub rows : List RowId
  pub next : Option ℕ

-- `collectLeaves`
unfoldable mutual
  pub collect_leaves : Node → List Leaf
  collect_leaves (leaf addr keys rows next) =
      (record { addr = addr; keys = keys; rows = rows; next = next }) ∷ []
  collect_leaves (internal keys children) = collect_below children

  pub collect_below : Nodes → List Leaf
  collect_below nil = []
  collect_below (cons c cs) = collect_leaves c ++ collect_below cs

unfoldable pub leaf_at : List Leaf → ℕ → Option Leaf
leaf_at [] addr = none
leaf_at (l ∷ ls) addr = let rest = leaf_at ls addr in if l.addr == addr then some l else rest

-- The leaf that a pointer names. The heap has to hold every leaf that a pointer may name: a pointer
-- to another one would read as nil.
abbrev pub follow : List Leaf → Option ℕ → Option Leaf
follow heap none = none
follow heap (some addr) = leaf_at heap addr

-- `to` is `none` for a scan without an end.
pub record Iterator : Type 0 where
  pub n : Option Leaf
  pub i : ℕ
  pub to : Option Key
  pub key : Key
  pub rid : RowId
  pub done : Bool

abbrev pub no_leaf : Leaf
no_leaf = record { addr = 0; keys = []; rows = []; next = none }

-- The leaf that a search for the key comes to.
unfoldable mutual
  unfolding child_index

  pub leaf_for : Node → Key → Leaf
  leaf_for (leaf addr keys rows next) key = record {
    addr = addr;
    keys = keys;
    rows = rows;
    next = next;
  }
  leaf_for (internal keys children) key = leaf_below children (child_index keys key) key

  pub leaf_below : Nodes → ℕ → Key → Leaf
  leaf_below nil i key = no_leaf
  leaf_below (cons c cs) zero key = leaf_for c key
  leaf_below (cons c cs) (suc i) key = leaf_below cs i key

abbrev pub scan_from : Leaf → Key → Option Key → Iterator
scan_from l from to = record {
  n = some l;
  i = leaf_index l.keys from;
  to = to;
  key = [];
  rid = no_row;
  done = false;
}

abbrev pub scan_root : Option Node → Key → Option Key → Iterator
scan_root none from to = record { n = none; i = 0; to = none; key = []; rid = no_row; done = true }
scan_root (some n) from to = scan_from (leaf_for n from) from to

-- A `from` that is nil compares like the empty key.
unfoldable pub scan : Tree → Key → Option Key → Iterator
unfolding leaf_for leaf_index
scan t from to = scan_root t.root from to

unfoldable pub scan_all : Tree → Iterator
unfolding scan
scan_all t = scan t [] none

abbrev pub close : Iterator → Iterator
close it = record it { n = none; done = true }

-- `for it.n != nil && it.i >= len(it.n.keys)`, with as many rounds as there are leaves.
unfoldable pub skip : List Leaf → ℕ → Option Leaf → ℕ → Option Leaf × ℕ
unfolding leaf_at
skip heap zero n i = (n, i)
skip heap (suc rounds) none i = (none, i)
skip heap (suc rounds) (some l) i =
    let rest = skip heap rounds (follow heap l.next) 0 in
    if leb (length l.keys) i then rest else (some l, i)

abbrev pub is_end : Option Key → Key → Bool
is_end none k = false
is_end (some to) k = not (is_less (compare_bytes k to))

-- What Next does when it has come to a key, or to the end.
abbrev pub next_at : Iterator → Option Leaf × ℕ → Bool × Iterator
next_at it (none, i) = (false, record it { n = none; i = i; done = true })
next_at it (some l, i) =
    let k = get_or l.keys i [] in
    if is_end it.to k
    then (false, record it { n = some l; i = i; done = true })
    else (true, record it { n = some l; i = i + 1; key = k; rid = get_or l.rows i no_row })

unfoldable pub next : List Leaf → Iterator → Bool × Iterator
unfolding skip
next heap it = if it.done then (false, it) else next_at it (skip heap (length heap) it.n it.i)

-- What a client reads with `for it.Next()` in the first `rounds` rounds.
unfoldable pub drain : List Leaf → ℕ → Iterator → Entries
unfolding next
drain heap zero it = []
drain heap (suc rounds) it =
    let r = next heap it in
    let rest = drain heap rounds r.1 in if r.0 then (r.1.key, r.1.rid) ∷ rest else []

abbrev pub root_leaves : Option Node → List Leaf
root_leaves none = []
root_leaves (some n) = collect_leaves n
