-- ===== src/Btree/Trusting.antt =====
-- A tree that Validate lets pass is balanced, with its keys in order.
use scutedb.Base.{
  ℕ, suc, ◌+◌, ◌≤◌, ◌≡◌, refl, sym, ap, ◌∙◌, subst, arith, List, [], ◌∷◌, append-nil, All, Option,
  none, some, Bool, true, false, length, ok, err,
}
use scutedb.Base.{Result}
use scutedb.Btree.{Error}
use scutedb.Btree.{Key, Node, Nodes, leaf, internal, nil, cons, Tree}
use scutedb.Btree.Items.{sep, IsSorted, items, items_among}
use scutedb.Btree.Delete.{node_count}
use scutedb.Btree.Shape.{AllShaped}
use scutedb.Btree.Balanced.{RootShaped}
use scutedb.Btree.Map.{root_items}
use scutedb.Btree.Validate.{
  under, within, check, check_children, after_check, validate_root, validate,
}
use scutedb.Btree.Checked.{After, Before, Depth}
use scutedb.Btree.Trusted.{
  ok_inv, in_order-IsSorted, within-After, within-Before, IsSorted-join, Before-Below, After-join,
  Before-join,
}
use scutedb.Btree.Inverting.{
  same_depth-inv, check_leaf-inv, check_inner-inv, then_check-inv, IsTrusted, AreTrusted,
  same_height, fit-inv, HasItem-front, HasItem-rows,
}

within-under :
    (low high : Option Key) (ks : List Key)
    → within low high ks ≡ true
    → All (λ k. under high k ≡ true) ks
within-under low high [] h = tt
within-under low high (k ∷ ks) h = (ground (arith, h), within-under low high ks (ground (arith, h)))

module _ (least most : ℕ) (some_keys : 1 ≤ least) where
  abbrev Trusted : Node → ℕ → Option ℕ → Option Key → Option Key → Bool → Option ℕ → Type 0
  Trusted = IsTrusted least most some_keys

  mutual
    unfolding check items IsSorted

    check-IsTrusted :
        (n : Node) (level : ℕ) (depth : Option ℕ) (low high : Option Key) (is_root : Bool)
        (d : Option ℕ)
        → check least most n level depth low high is_root ≡ ok d
        → Trusted n level depth low high is_root d
    check-IsTrusted (leaf addr ks rs nx) level depth low high is_root d h =
        let (p, e, q) = check_leaf-inv _ ks rs depth level d h in
        let (ord, between, small, enough) = fit-inv least most some_keys is_root low high ks p in
        let (deep, same_leaves) = same_depth-inv depth level d q in
        let z : level ≡ level + 0 = omega arith in
        record {
          height = 0;
          shaped = e;
          sorted = in_order-IsSorted ks rs ord;
          after_low = within-After low high ks rs between;
          before_high = within-Before low high ks rs between;
          deep = deep ∙ ap (λ (n : ℕ). some n) z;
          same_leaves = subst (Depth depth) z same_leaves;
          bounded = small;
          enough = enough;
          branches = λ q. tt;
          full = HasItem-rows least most some_keys ks rs e;
        }
    check-IsTrusted (internal ks cs) level depth low high is_root d h =
        let below = check_children least most cs ks (level + 1) depth low high in
        let (p, e, many, g) = check_inner-inv _ is_root ks cs below d h in
        let (ord, between, small, enough) = fit-inv least most some_keys is_root low high ks p in
        let r =
          children-AreTrusted cs ks (level + 1) depth low high d e
            (within-under low high ks between) g in
        let z : level + 1 + r.height ≡ level + suc r.height = omega arith in
        record {
          height = suc r.height;
          shaped = (e, r.shaped);
          sorted = r.sorted;
          after_low = r.after_low;
          before_high = r.before_high;
          deep = r.deep ∙ ap (λ (n : ℕ). some n) z;
          same_leaves = subst (Depth depth) z r.same_leaves;
          bounded = small;
          enough = enough;
          branches = many;
          full = λ q. r.full;
        }

    children-AreTrusted :
        (cs : Nodes) (ks : List Key) (level : ℕ) (depth : Option ℕ) (low high : Option Key)
        (d : Option ℕ)
        → node_count cs ≡ length ks + 1
        → All (λ k. under high k ≡ true) ks
        → check_children least most cs ks level depth low high ≡ ok d
        → AreTrusted least most some_keys cs ks level depth low high d
    children-AreTrusted nil ks level depth low high d e u h = absurd (omega (arith, e))
    children-AreTrusted (cons c nil) [] level depth low high d e u h =
        let (x, p, q) =
          then_check-inv (λ d. ok d) (check least most c level depth low high false) d h in
        let r = check-IsTrusted c level depth low high false x p in
        let z = sym (append-nil (items c)) in
        record {
          height = r.height;
          shaped = (r.shaped, r.enough refl, r.bounded, tt);
          sorted = subst IsSorted z r.sorted;
          after_low = subst (After low) z r.after_low;
          before_high = subst (Before high) z r.before_high;
          deep = sym (ok_inv x d q) ∙ r.deep;
          same_leaves = r.same_leaves;
          full =
              HasItem-front least most some_keys (items c) []
                (r.full (omega (arith, r.enough refl, some_keys)));
        }
    children-AreTrusted (cons c (cons c' cs)) [] level depth low high d e u h =
        absurd (omega (arith, e))
    children-AreTrusted (cons c cs) (k ∷ ks) level depth low high d e (under_high, u) h =
        let rest = items_among cs ks in
        let (x, p, q) =
          then_check-inv (λ d. check_children least most cs ks level d (some k) high)
            (check least most c level depth low (some k) false) d h in
        let r = check-IsTrusted c level depth low (some k) false x p in
        let s = children-AreTrusted cs ks level x (some k) high d (omega (arith, e)) u q in
        let one = same_height least most some_keys level r.height s.height x r.deep s.same_leaves in
        let has = r.full (omega (arith, r.enough refl, some_keys)) in
        record {
          height = r.height;
          shaped = (
            r.shaped,
            r.enough refl,
            r.bounded,
            subst (AllShaped least most cs) (sym one) s.shaped,
          );
          sorted =
              IsSorted-join (items c) (sep k ∷ rest) r.sorted (s.after_low, s.sorted)
                (Before-Below k (items c) rest r.before_high s.after_low);
          after_low = After-join low k (items c) rest has r.after_low r.before_high s.after_low;
          before_high = Before-join high k (items c) rest under_high r.before_high s.before_high;
          deep = s.deep ∙ ap (λ (n : ℕ). some (level + n)) (sym one);
          same_leaves = r.same_leaves;
          full = HasItem-front least most some_keys (items c) (sep k ∷ rest) has;
        }

module _ (t : Tree) (some_keys : 1 ≤ t.min_keys) where
  after_check-inv :
      (n : Node) (r : Result Error (Option ℕ))
      → after_check n r ≡ ok true
      → (d : Option ℕ) × (r ≡ ok d)
  after_check-inv n (ok d) h = (d, refl)
  after_check-inv n (err e) h = absurd (ground (arith, h))

  validate_root-trusted :
      (root : Option Node)
      → validate_root t.min_keys t.max_keys root ≡ ok true
      → RootShaped t.min_keys t.max_keys root × IsSorted (root_items root)
  unfolding IsSorted
  validate_root-trusted none h = (tt, tt)
  validate_root-trusted (some n) h =
      let (d, p) = after_check-inv n (check t.min_keys t.max_keys n 0 none none none true) h in
      let r = check-IsTrusted t.min_keys t.max_keys some_keys n 0 none none none true d p in
      (
        record {
          height = r.height;
          shaped = r.shaped;
          bounded = r.bounded;
          branches = r.branches refl;
        },
        r.sorted,
      )

  -- A tree that Validate lets pass, in which a node has one key at least, has all leaves at one
  -- depth, its keys within their limits, and its keys and separators in order.
  pub validate-IsSorted :
      validate t ≡ ok true → RootShaped t.min_keys t.max_keys t.root × IsSorted (root_items t.root)
  unfolding validate
  validate-IsSorted h = validate_root-trusted t.root h
