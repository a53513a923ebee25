-- ===== src/Btree/Passing.antt =====
-- Validate lets every balanced tree pass whose keys are in order and whose leaves are in one chain.
use scutedb.Base.{
  ℕ, zero, suc, ◌+◌, ◌≤◌, ◌≡◌, refl, sym, ap, ◌∙◌, subst, arith, List, [], ◌∷◌, ◌++◌, append_assoc,
  Option, none, some, Bool, true, false, if-cases, length, ◌==◌, inl, inr, ok, map,
}
use scutedb.Base.{Result}
use scutedb.Btree.{Error}
use scutedb.Btree.{Key, Node, Nodes, leaf, internal, nil, cons, Tree}
use scutedb.Btree.Items.{sep, IsSorted, items, items_among, IsSorted-append}
use scutedb.Btree.Delete.{key_count, node_count}
use scutedb.Btree.Shape.{IsShaped, AllShaped}
use scutedb.Btree.Index.{leaf-Ascending, child-Ascending}
use scutedb.Btree.Balanced.{RootShaped}
use scutedb.Btree.Map.{root_items, IsTree}
use scutedb.Btree.Links.{first, IsChain}
use scutedb.Btree.Linking.{root_links, IsLinked}
use scutedb.Btree.Scan.{Leaf, collect_leaves, collect_below}
use scutedb.Btree.Scanning.{head}
use scutedb.Btree.Reaching.{link_of, links-collect_leaves}
use scutedb.Btree.Validate.{
  then_check, check, check_children, check_chain, first_leaf, check_leaf_chain, after_check,
  validate_root, validate,
}
use scutedb.Btree.Checked.{
  leaf-within, inner-within, After-front, Before-front, Before-back, first-Before, After, Before,
  Depth, Enough, fit, Enough-keys, check_leaf-passes, check_inner-passes,
}

module _ (least most : ℕ) where
  abbrev Passes : Node → ℕ → Type 0
  Passes n h =
      (level : ℕ) (depth : Option ℕ) (low high : Option Key) (is_root : Bool)
      → After low (items n)
      → Before high (items n)
      → key_count n ≤ most
      → Enough least is_root n
      → Depth depth (level + h)
      → check least most n level depth low high is_root ≡ ok (some (level + h))

  mutual
    unfolding check items IsSorted

    check-Passes : (n : Node) (h : ℕ) → IsShaped least most n h → IsSorted (items n) → Passes n h
    check-Passes (leaf addr ks rs nx) zero s o level depth low high is_root a b small enough d =
        let z : level ≡ level + 0 = omega arith in
        check_leaf-passes least most _ ks rs depth level
          (fit least most is_root low high ks (leaf-Ascending ks rs s o)
            (leaf-within low high ks rs s a b) small
            (Enough-keys least most is_root (leaf addr ks rs nx) enough))
          s (subst (Depth depth) (sym z) d)
        ∙ ap (λ (n : ℕ). ok (some n)) z
    check-Passes (leaf addr ks rs nx) (suc h) s o level depth low high is_root a b small enough d =
        absurd s
    check-Passes (internal ks cs) zero s o level depth low high is_root a b small enough d =
        absurd s
    check-Passes (internal ks cs) (suc h) (e, all) o level depth low high is_root a b small enough
          d =
        let z : level + 1 + h ≡ level + suc h = omega arith in
        check_inner-passes least most _ is_root ks cs
          (check_children least most cs ks (level + 1) depth low high)
          (fit least most is_root low high ks (child-Ascending cs ks e o)
            (inner-within low high cs ks e a b) small
            (Enough-keys least most is_root (internal ks cs) enough))
          e (has enough)
        ∙ children-Passes cs ks h e all o (level + 1) depth low high a b
            (subst (Depth depth) (sym z) d)
        ∙ ap (λ (n : ℕ). ok (some n)) z
      where
        has : Enough least is_root (internal ks cs) → is_root ≡ true → 1 ≤ length ks
        has (inl (r, k)) q = k
        has (inr (r, k)) q = absurd (ground (arith, r, q))

    children-Passes :
        (cs : Nodes) (ks : List Key) (h : ℕ)
        → node_count cs ≡ length ks + 1
        → AllShaped least most cs h
        → IsSorted (items_among cs ks)
        → (level : ℕ) (depth : Option ℕ) (low high : Option Key) → After low (items_among cs ks)
        → Before high (items_among cs ks)
        → Depth depth (level + h)
        → check_children least most cs ks level depth low high ≡ ok (some (level + h))
    children-Passes nil ks h e all o level depth low high a b d = absurd (omega (arith, e))
    children-Passes (cons c nil) [] h e (s, few, many, all) o level depth low high a b d =
        ap (then_check (λ d. ok d)) (
          check-Passes c h s (IsSorted-append (items c) [] o).0 level depth low high false
            (After-front low (items c) [] a) (Before-front high (items c) [] b) many
            (inr (refl, few)) d)
    children-Passes (cons c (cons c' cs)) [] h e all o level depth low high a b d =
        absurd (omega (arith, e))
    children-Passes (cons c cs) (k ∷ ks) h e (s, few, many, all) o level depth low high a b d =
        let rest = sep k ∷ items_among cs ks in
        let (p, (above, q), l) = IsSorted-append (items c) rest o in
        ap (then_check (λ d. check_children least most cs ks level d (some k) high)) (
          check-Passes c h s p level depth low (some k) false (After-front low (items c) rest a)
            (first-Before k (items c) (items_among cs ks) l) many (inr (refl, few)) d)
        ∙ children-Passes cs ks h (omega (arith, e)) all q level (some (level + h)) (some k) high
            above
            (Before-back high (items c ++ (sep k ∷ [])) (items_among cs ks) (
              subst (Before high) (sym (append_assoc (items c) (sep k ∷ []) (items_among cs ks)))
                b))
            (inr refl)

check_chain-IsChain :
    (b : ℕ) (ls : List Leaf)
    → IsChain b (map link_of ls)
    → check_chain (first (map link_of ls)) ls ≡ ok true
unfolding check_chain IsChain
check_chain-IsChain b [] c = refl
check_chain-IsChain b (l ∷ ls) (e, less, apart, c) =
    if-cases {A = Result Error Bool} (λ r. r ≡ ok true) (l.addr == l.addr) _ _
      (λ q. ap (λ n. check_chain n ls) e ∙ check_chain-IsChain b ls c)
      (λ q. absurd (ground (arith, q)))

first-head_addr :
    (ls : List Leaf) (l : Leaf) → head ls ≡ some l → first (map link_of ls) ≡ some l.addr
first-head_addr [] l h = absurd (ground (arith, h))
first-head_addr (m ∷ ls) l h = cc

head-front : (xs ys : List Leaf) (l : Leaf) → head xs ≡ some l → head (xs ++ ys) ≡ some l
head-front [] ys l h = absurd (ground (arith, h))
head-front (x ∷ xs) ys l h = h

first-head :
    (least most : ℕ) (n : Node) (h : ℕ)
    → IsShaped least most n h
    → head (collect_leaves n) ≡ some (first_leaf n)
unfolding first_leaf collect_leaves
first-head least most (leaf addr ks rs nx) h s = refl
first-head least most (internal ks cs) zero s = absurd s
first-head least most (internal ks nil) (suc h) (e, all) = absurd (omega (arith, e))
first-head least most (internal ks (cons c cs)) (suc h) (e, (s, few, many, all)) =
    head-front (collect_leaves c) (collect_below cs) (first_leaf c) (first-head least most c h s)

chain_passes :
    (b : ℕ) (n : Node)
    → head (collect_leaves n) ≡ some (first_leaf n)
    → IsChain b (map link_of (collect_leaves n))
    → check_leaf_chain n ≡ ok true
unfolding check_leaf_chain
chain_passes b n f c =
    ap (λ l. check_chain l (collect_leaves n))
      (sym (first-head_addr (collect_leaves n) (first_leaf n) f))
    ∙ check_chain-IsChain b (collect_leaves n) c

module _ (t : Tree) (tree : IsTree t) (linked : IsLinked t) where
  validate_root-passes :
      (root : Option Node)
      → t.root ≡ root
      → RootShaped t.min_keys t.max_keys root
      → validate_root t.min_keys t.max_keys root ≡ ok true
  validate_root-passes none e s = refl
  validate_root-passes (some n) e s =
      let o = subst (λ r. IsSorted (root_items r)) e tree.ordered in
      let chain =
        subst (IsChain t.fresh) (sym (links-collect_leaves n))
          (subst (λ u. IsChain t.fresh (root_links u)) e linked) in
      ap (after_check n) (
        check-Passes t.min_keys t.max_keys n s.height s.shaped o 0 none none none true tt tt
          s.bounded (inl (refl, s.branches)) (inl refl))
      ∙ chain_passes t.fresh n (first-head t.min_keys t.max_keys n s.height s.shaped) chain

  -- Validate finds nothing wrong with a balanced tree whose keys are in order and whose leaves are
  -- in one chain.
  pub validate-passes : validate t ≡ ok true
  unfolding validate
  validate-passes = validate_root-passes t.root refl tree.balanced.root_shaped
