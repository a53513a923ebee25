-- ===== src/Btree/Validate.antt =====
-- internal/btree/btree.go: Validate, which looks for what is wrong with a tree.
use scutedb.Base.{
  ℕ, ◌+◌, List, [], ◌∷◌, Option, none, some, Bool, true, false, not, ◌&&◌, if◌then◌else◌, ltb, leb,
  length, ◌==◌, compare_bytes, ok, err,
}
use scutedb.Base.{Result, ◌||◌}
use scutedb.Btree.{Error, invariant}
use scutedb.Btree.Scan.{no_leaf}
use scutedb.Nodepage.{RowId, is_less}
use scutedb.Btree.{Key, Node, Nodes, leaf, internal, nil, cons, Tree}
use scutedb.Btree.Delete.{node_count}
use scutedb.Btree.Scan.{Leaf, collect_leaves, next}

-- Each key below the next.
abbrev pub in_order : List Key → Bool
in_order [] = true
in_order (a ∷ []) = true
in_order (a ∷ (b ∷ ks)) = let rest = in_order (b ∷ ks) in is_less (compare_bytes a b) && rest

abbrev pub not_under : Option Key → Key → Bool
not_under none k = true
not_under (some low) k = not (is_less (compare_bytes k low))

abbrev pub under : Option Key → Key → Bool
under none k = true
under (some high) k = is_less (compare_bytes k high)

abbrev pub within : Option Key → Option Key → List Key → Bool
within low high [] = true
within low high (k ∷ ks) =
    let rest = within low high ks in (not_under low k && under high k) && rest

-- What `check` asks of the keys of any node, root or not.
abbrev pub keys_fit : ℕ → ℕ → Bool → Option Key → Option Key → List Key → Bool
keys_fit min_keys max_keys is_root low high keys =
    in_order keys
    && (within low high keys
        && (leb (length keys) max_keys && (is_root || leb min_keys (length keys))))

-- The depth of the leaves, `none` for -1.
abbrev pub same_depth : Option ℕ → ℕ → Result Error (Option ℕ)
same_depth none level = ok (some level)
same_depth (some depth) level = if depth == level then ok (some depth) else err invariant

abbrev pub check_leaf : Bool → List Key → List RowId → Option ℕ → ℕ → Result Error (Option ℕ)
check_leaf fit keys rows depth level =
    if not fit
    then err invariant
    else if length rows == length keys
    then same_depth depth level
    else err invariant

abbrev pub check_inner :
    Bool → Bool → List Key → Nodes → Result Error (Option ℕ) → Result Error (Option ℕ)
check_inner fit is_root keys children below =
    if not fit
    then err invariant
    else if not (node_count children == length keys + 1)
    then err invariant
    else if is_root && ltb (node_count children) 2
    then err invariant
    else below

abbrev pub then_check :
    (Option ℕ → Result Error (Option ℕ)) → Result Error (Option ℕ) → Result Error (Option ℕ)
then_check f (ok depth) = f depth
then_check f (err e) = err e

module _ (min_keys max_keys : ℕ) where
  unfoldable mutual
    pub check : Node → ℕ → Option ℕ → Option Key → Option Key → Bool → Result Error (Option ℕ)
    check (leaf addr keys rows next) level depth low high is_root =
        check_leaf (keys_fit min_keys max_keys is_root low high keys) keys rows depth level
    check (internal keys children) level depth low high is_root =
        let below = check_children children keys (level + 1) depth low high in
        check_inner (keys_fit min_keys max_keys is_root low high keys) is_root keys children below

    -- A child lies between the keys beside it.
    pub check_children :
        Nodes → List Key → ℕ → Option ℕ → Option Key → Option Key → Result Error (Option ℕ)
    check_children nil keys level depth low high = ok depth
    check_children (cons c cs) [] level depth low high =
        then_check (λ d. check_children cs [] level d low high) (check c level depth low high false)
    check_children (cons c cs) (k ∷ ks) level depth low high =
        then_check (λ d. check_children cs ks level d (some k) high)
          (check c level depth low (some k) false)

-- The chain beside the leaves of the tree. `got` is the address of the leaf that the chain has
-- come to, `none` for nil: past the leaves of the tree, any leaf is one too many.
unfoldable pub check_chain : Option ℕ → List Leaf → Result Error Bool
check_chain none [] = ok true
check_chain none (m ∷ ms) = err invariant
check_chain (some got) [] = err invariant
check_chain (some got) (m ∷ ms) =
    let rest = check_chain m.next ms in if got == m.addr then rest else err invariant

unfoldable mutual
  pub first_leaf : Node → Leaf
  first_leaf (leaf addr keys rows next) = record {
    addr = addr;
    keys = keys;
    rows = rows;
    next = next;
  }
  first_leaf (internal keys children) = first_below children

  pub first_below : Nodes → Leaf
  first_below nil = no_leaf
  first_below (cons c cs) = first_leaf c

unfoldable pub check_leaf_chain : Node → Result Error Bool
unfolding check_chain first_leaf collect_leaves
check_leaf_chain n = check_chain (some (first_leaf n).addr) (collect_leaves n)

abbrev pub after_check : Node → Result Error (Option ℕ) → Result Error Bool
after_check n (ok depth) = check_leaf_chain n
after_check n (err e) = err e

abbrev pub validate_root : ℕ → ℕ → Option Node → Result Error Bool
validate_root min_keys max_keys none = ok true
validate_root min_keys max_keys (some n) =
    after_check n (check min_keys max_keys n 0 none none none true)

unfoldable pub validate : Tree → Result Error Bool
unfolding check check_leaf_chain
validate t = validate_root t.min_keys t.max_keys t.root
