-- ===== src/Btree/Reaching.antt =====
-- The leaves of a tree as the iterator meets them.
use mathlib.Core.List.{map-append}
use scutedb.Base.{
  map, ℕ, zero, suc, ◌≡◌, refl, sym, ap, ap₂, ◌∙◌, subst, arith, List, [], ◌∷◌, ◌++◌, append_assoc,
  append-nil, All, All-append, some, if-cases, length, ◌==◌,
}
use scutedb.Btree.{Key, Node, Nodes, leaf, internal, nil, cons}
use scutedb.Btree.Items.{sep, rows_of, rows_of-append, items, items_among}
use scutedb.Btree.Shape.{IsShaped, AllShaped}
use scutedb.Btree.Links.{Link, links, links_among, first, IsChain}
use scutedb.Btree.Scan.{Leaf, collect_leaves, collect_below, leaf_at, follow, next}
use scutedb.Btree.Scanning.{pairs, all_pairs, head, Chained, all_pairs-append}

abbrev pub link_of : Leaf → Link
link_of l = (l.addr, l.next)

-- The leaves have the links of the chain.
mutual
  unfolding collect_leaves links

  pub links-collect_leaves : (n : Node) → map link_of (collect_leaves n) ≡ links n
  links-collect_leaves (leaf addr ks rs next) = refl
  links-collect_leaves (internal ks cs) = links-collect_below cs

  links-collect_below : (cs : Nodes) → map link_of (collect_below cs) ≡ links_among cs
  links-collect_below nil = refl
  links-collect_below (cons c cs) =
      map-append link_of (collect_leaves c) (collect_below cs)
      ∙ ap₂ (λ xs ys. xs ++ ys) (links-collect_leaves c) (links-collect_below cs)

-- The leaves hold the keys and rows of the tree.
mutual
  unfolding collect_leaves items all_pairs rows_of

  pub all_pairs-collect_leaves : (n : Node) → all_pairs (collect_leaves n) ≡ rows_of (items n)
  all_pairs-collect_leaves (leaf addr ks rs next) = append-nil (pairs ks rs)
  all_pairs-collect_leaves (internal ks cs) = all_pairs-collect_below cs ks

  pub all_pairs-collect_below :
      (cs : Nodes) (ks : List Key) → all_pairs (collect_below cs) ≡ rows_of (items_among cs ks)
  all_pairs-collect_below nil ks = refl
  all_pairs-collect_below (cons c cs) [] =
      all_pairs-append (collect_leaves c) (collect_below cs)
      ∙ ap₂ (λ xs ys. xs ++ ys) (all_pairs-collect_leaves c) (all_pairs-collect_below cs [])
      ∙ sym (rows_of-append (items c) (items_among cs []))
  all_pairs-collect_below (cons c cs) (k ∷ ks) =
      all_pairs-append (collect_leaves c) (collect_below cs)
      ∙ ap₂ (λ xs ys. xs ++ ys) (all_pairs-collect_leaves c) (all_pairs-collect_below cs ks)
      ∙ sym (rows_of-append (items c) (sep k ∷ items_among cs ks))

abbrev pub HasRows : Leaf → Type 0
HasRows l = length l.rows ≡ length l.keys

mutual
  unfolding collect_leaves

  pub collect_leaves-HasRows :
      (least most : ℕ) (n : Node) (h : ℕ) → IsShaped least most n h → All HasRows (collect_leaves n)
  collect_leaves-HasRows least most (leaf addr ks rs next) zero s = (s, tt)
  collect_leaves-HasRows least most (leaf addr ks rs next) (suc h) s = absurd s
  collect_leaves-HasRows least most (internal ks cs) zero s = absurd s
  collect_leaves-HasRows least most (internal ks cs) (suc h) (e, all) =
      collect_below-HasRows least most cs h all

  collect_below-HasRows :
      (least most : ℕ) (cs : Nodes) (h : ℕ)
      → AllShaped least most cs h
      → All HasRows (collect_below cs)
  collect_below-HasRows least most nil h all = tt
  collect_below-HasRows least most (cons c cs) h (s, low, high, all) =
      All-append HasRows (collect_leaves c) (collect_below cs)
        (collect_leaves-HasRows least most c h s) (collect_below-HasRows least most cs h all)

-- A leaf of a chain is found by its address.
leaf_at-chain :
    (b : ℕ) (ps ls : List Leaf) (l : Leaf)
    → IsChain b (map link_of (ps ++ (l ∷ ls)))
    → leaf_at (ps ++ (l ∷ ls)) l.addr ≡ some l
unfolding leaf_at IsChain
leaf_at-chain b [] ls l h =
    if-cases (λ o. o ≡ some l) (l.addr == l.addr) _ _ (λ e. refl) (λ e. absurd (ground (arith, e)))
leaf_at-chain b (p ∷ ps) ls l (e, less, apart, h) =
    if-cases (λ o. o ≡ some l) (p.addr == l.addr) _ _
      (λ q. absurd (All-there ps ls l p.addr apart (ground (arith, q))))
      (λ q. leaf_at-chain b ps ls l h)
  where
    All-there :
        (qs ms : List Leaf) (m : Leaf) (a : ℕ)
        → All (λ (y : Link). ¬ (y.0 ≡ a)) (map link_of (qs ++ (m ∷ ms)))
        → ¬ (m.addr ≡ a)
    All-there [] ms m a (x, y) = x
    All-there (q ∷ qs) ms m a (x, y) = All-there qs ms m a y

chain_rest :
    (b : ℕ) (ps ls : List Leaf) (l : Leaf)
    → IsChain b (map link_of (ps ++ (l ∷ ls)))
    → l.next ≡ first (map link_of ls)
unfolding IsChain
chain_rest b [] ls l (e, less, apart, h) = e
chain_rest b (p ∷ ps) ls l (e, less, apart, h) = chain_rest b ps ls l h

-- From any leaf on, each leaf leads to the next one.
pub chain-Chained :
    (b : ℕ) (ps ls : List Leaf)
    → IsChain b (map link_of (ps ++ ls))
    → All HasRows ls
    → Chained (ps ++ ls) ls
chain-Chained b ps [] h rows = tt
chain-Chained b ps (l ∷ ls) h (e, rows) = (
  ap (follow (ps ++ (l ∷ ls))) (chain_rest b ps ls l h) ∙ meets ls h,
  e,
  subst (λ heap. Chained heap ls) (append_assoc ps (l ∷ []) ls)
      (chain-Chained b (ps ++ (l ∷ [])) ls
        (subst (λ ms. IsChain b (map link_of ms)) (sym (append_assoc ps (l ∷ []) ls)) h) rows),
)
  where
    meets :
        (ms : List Leaf)
        → IsChain b (map link_of (ps ++ (l ∷ ms)))
        → follow (ps ++ (l ∷ ms)) (first (map link_of ms)) ≡ head ms
    meets [] g = refl
    meets (m ∷ ms) g =
        let moved = append_assoc ps (l ∷ []) (m ∷ ms) in
        ap (λ heap. leaf_at heap m.addr) (sym moved)
        ∙ leaf_at-chain b (ps ++ (l ∷ [])) ms m
            (subst (λ ns. IsChain b (map link_of ns)) (sym moved) g)
