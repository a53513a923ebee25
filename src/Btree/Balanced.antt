-- ===== src/Btree/Balanced.antt =====
-- Put keeps the tree balanced.
use scutedb.Base.{
  ℕ, zero, suc, ◌-◌, ◌/◌, ◌≤◌, ◌≡◌, refl, sym, subst, arith, if-cases, [], length, Option, none,
  some, ◌⊎◌, inl, inr,
}
use scutedb.Base.{◌==◌, ltb, ok}
use scutedb.Nodepage.{RowId}
use scutedb.Btree.{
  Key, Node, leaf, internal, Tree, insert, put, put_root, ensure, ensure_order, ensure_root,
  root_or, grown_root, new, no_stats,
}
use scutedb.Btree.Delete.{key_count}
use scutedb.Btree.Shape.{IsShaped, Fits, insert-Fits}

-- The root may have fewer keys than the other nodes, but one at least if it is no leaf.
abbrev pub HasKeys : Node → Type 0
HasKeys (leaf addr keys rows next) = Unit {0}
HasKeys (internal keys children) = 1 ≤ length keys

pub record IsRoot (least most : ℕ) (n : Node) : Type 0 where
  pub height : ℕ
  pub shaped : IsShaped least most n height
  pub bounded : key_count n ≤ most
  pub branches : HasKeys n

abbrev pub RootShaped : ℕ → ℕ → Option Node → Type 0
RootShaped least most none = Unit {0}
RootShaped least most (some n) = IsRoot least most n

-- All leaves at one depth, each inner node with one child more than keys, and the keys of each node
-- within the limits of the tree's order.
pub record IsBalanced (t : Tree) : Type 0 where
  pub known_order : 3 ≤ t.order
  pub most_keys : t.max_keys ≡ t.order - 1
  pub least_keys : t.min_keys ≡ (t.order - 1) / 2
  pub root_shaped : RootShaped t.min_keys t.max_keys t.root

-- Go's zero value of a Tree, which has no root either.
abbrev pub IsUnset : Tree → Type 0
IsUnset t = (t.order ≡ 0) × (t.root ≡ none)

empty-IsRoot : (least most addr : ℕ) → IsRoot least most (leaf addr [] [] none)
empty-IsRoot least most addr = record {
  height = 0;
  shaped = refl;
  bounded = omega arith;
  branches = tt;
}

pub root_or-IsRoot :
    (least most addr : ℕ) (root : Option Node)
    → RootShaped least most root
    → IsRoot least most (root_or root addr)
root_or-IsRoot least most addr none h = empty-IsRoot least most addr
root_or-IsRoot least most addr (some n) h = h

pub ensure_order-IsBalanced : (t : Tree) → IsUnset t ⊎ IsBalanced t → IsBalanced (ensure_order t)
ensure_order-IsBalanced t (inl (zeroed, bare)) =
    if-cases IsBalanced (t.order == 0) _ _
      (λ e. record {
        known_order = omega arith;
        most_keys = refl;
        least_keys = refl;
        root_shaped = subst (RootShaped 31 63) (sym bare) tt;
      })
      (λ e. absurd (ground (arith, zeroed)))
ensure_order-IsBalanced t (inr h) =
    if-cases IsBalanced (t.order == 0) _ _ (λ e. absurd (ground (arith, h.known_order))) (λ e. h)

pub ensure_root-IsBalanced : (t : Tree) → IsBalanced t → IsBalanced (ensure_root t)
ensure_root-IsBalanced t h = record {
  known_order = h.known_order;
  most_keys = h.most_keys;
  least_keys = h.least_keys;
  root_shaped = root_or-IsRoot t.min_keys t.max_keys t.fresh t.root h.root_shaped;
}

-- New makes a balanced tree of any order from 3 on.
pub new-IsBalanced : (order : ℕ) → 3 ≤ order → (t : Tree) × (new order ≡ ok t) × IsBalanced t
unfolding new
new-IsBalanced order h =
    let made : Tree = record {
      root = some (leaf 0 [] [] none);
      order = order;
      max_keys = order - 1;
      min_keys = (order - 1) / 2;
      count = 0;
      fresh = 1;
      stats = no_stats;
    } in
    (
      made,
      if-cases (λ r. r ≡ ok made) (ltb order 3) _ _ (λ e. absurd (ground (arith, e))) (λ e. refl),
      record {
        known_order = h;
        most_keys = refl;
        least_keys = refl;
        root_shaped = empty-IsRoot ((order - 1) / 2) (order - 1) 0;
      },
    )

kept-HasKeys :
    (least most : ℕ) (old n : Node) (h : ℕ)
    → IsShaped least most old h
    → IsShaped least most n h
    → HasKeys old
    → key_count old ≤ key_count n
    → HasKeys n
kept-HasKeys least most old (leaf addr keys rows next) h so sn has le = tt
kept-HasKeys least most (internal ks cs) (internal keys children) h so sn has le =
    omega (arith, has, le)
kept-HasKeys least most (leaf a ks rs nx) (internal keys children) zero so sn has le = absurd sn
kept-HasKeys least most (leaf a ks rs nx) (internal keys children) (suc h) so sn has le = absurd so

grown_root-IsRoot :
    (least most h : ℕ) (old n : Node) (split : Option (Key × Node))
    → 1 ≤ most
    → HasKeys old
    → IsShaped least most old h
    → Fits least most h (key_count old) n split
    → IsRoot least most (grown_root n split)
grown_root-IsRoot least most h old n none room has s (a, b, c) = record {
  height = h;
  shaped = a;
  bounded = c;
  branches = kept-HasKeys least most old n h s a has b;
}
grown_root-IsRoot least most h old n (some (sep, r)) room has s (a, b, c, d, e, g) = record {
  height = suc h;
  shaped = (refl, (a, b, c, (d, e, g, tt)));
  bounded = room;
  branches = omega arith;
}

put_root-IsBalanced :
    (t : Tree) (n : Node) (key : Key) (rid : RowId)
    → IsBalanced t
    → IsRoot t.min_keys t.max_keys n
    → IsBalanced (put_root t n key rid)
put_root-IsBalanced t n key rid h r = record {
  known_order = h.known_order;
  most_keys = h.most_keys;
  least_keys = h.least_keys;
  root_shaped =
      grown_root-IsRoot t.min_keys t.max_keys r.height n (insert t.max_keys t.fresh key rid n).node
        (insert t.max_keys t.fresh key rid n).split (omega (arith, h.most_keys, h.known_order))
        r.branches r.shaped
        (insert-Fits t.min_keys t.max_keys (omega (arith, h.most_keys, h.known_order))
          (omega (arith, h.most_keys, h.least_keys)) t.fresh key rid n r.height r.shaped r.bounded);
}

-- Put on a balanced tree, or on Go's zero value of one, leaves a balanced tree: all leaves at one
-- depth, one child more than keys in every inner node, at most order - 1 keys in every node, and at
-- least (order - 1) / 2 in every node but the root.
pub put-IsBalanced :
    (t : Tree) (key : Key) (rid : RowId) → IsUnset t ⊎ IsBalanced t → IsBalanced (put t key rid)
unfolding put ensure
put-IsBalanced t key rid h =
    let u = ensure_root (ensure_order t) in
    let b = ensure_root-IsBalanced (ensure_order t) (ensure_order-IsBalanced t h) in
    put_root-IsBalanced u (root_or u.root u.fresh) key rid b
      (root_or-IsRoot u.min_keys u.max_keys u.fresh u.root b.root_shaped)
