-- ===== src/Btree/Unlinking.antt =====
-- Delete and the chain of leaves.
use scutedb.Base.{
  ℕ, zero, suc, ◌+◌, ◌-◌, ◌≤◌, ◌<◌, ◌≡◌, refl, sym, ap, ◌∙◌, subst, arith, List, [], ◌++◌,
  append_assoc, append-nil, length, get_or,
}
use scutedb.Btree.{Key, Node, Nodes, leaf, internal, nil, cons, Stats, take_nodes}
use scutedb.Btree.Delete.{
  key_count, node_count, node_at, set_node, remove_node, append_nodes, shift_right, shift_left,
  join, Inner, borrow_from_left, borrow_from_right, merge, repair,
}
use scutedb.Btree.Shape.{IsShaped}
use scutedb.Btree.Children.{AllBut, other-Full}
use scutedb.Btree.Mending.{repair_each}
use scutedb.Btree.Moving.{drop_last}
use scutedb.Btree.Links.{
  Link, links, links_among, Relinks, Relinks-eq, Relinks-trans, Relinks-within, Relinks-behind,
  Relinks-join,
}
use scutedb.Btree.Linking.{links_among-split}

links_among-append :
    (cs ds : Nodes) → links_among (append_nodes cs ds) ≡ links_among cs ++ links_among ds
unfolding links append_nodes
links_among-append nil ds = refl
links_among-append (cons c cs) ds =
    ap (λ l. links c ++ l) (links_among-append cs ds)
    ∙ sym (append_assoc (links c) (links_among cs) (links_among ds))

last_links :
    (cs : Nodes)
    → 1 ≤ node_count cs
    → links_among (take_nodes (node_count cs - 1) cs) ++ links (node_at cs (node_count cs - 1))
      ≡ links_among cs
unfolding links
last_links cs h =
    let n = node_count cs - 1 in
    ap (λ l. links_among (take_nodes n cs) ++ l)
      (sym (append-nil (links (node_at cs n)))
        ∙ ap links_among (sym (drop_last n cs (omega (arith, h)))))
    ∙ links_among-split n cs

abbrev two_links : Node → Node → List Link
two_links l r = links l ++ links r

module _ (least most : ℕ) where
  shift_right-links :
      (l r : Node) (s : Key) (h : ℕ)
      → IsShaped least most l h
      → (let p = shift_right l r s in two_links l r ≡ two_links p.left p.right)
  unfolding shift_right links
  shift_right-links (leaf a ks rs nx) (leaf b kc rc ny) s h e = refl
  shift_right-links (internal ks cs) (internal kc cc) s zero e = absurd e
  shift_right-links (internal ks cs) (internal kc cc) s (suc h) (e, all) =
      ap (λ l. l ++ links_among cc) (sym (last_links cs (omega (arith, e))))
      ∙ append_assoc (links_among (take_nodes (node_count cs - 1) cs))
          (links (node_at cs (node_count cs - 1))) (links_among cc)
  shift_right-links (leaf a ks rs nx) (internal kc cc) s h e = refl
  shift_right-links (internal ks cs) (leaf b kc rc ny) s h e = refl

  shift_left-links :
      (l r : Node) (s : Key) (h : ℕ)
      → IsShaped least most r h
      → (let p = shift_left l r s in two_links l r ≡ two_links p.left p.right)
  unfolding shift_left links node_at remove_node
  shift_left-links (leaf a ks rs nx) (leaf b kr rr ny) s h e = refl
  shift_left-links (internal ks cs) (internal kr cr) s zero e = absurd e
  shift_left-links (internal ks cs) (internal kr nil) s (suc h) (e, all) = absurd (omega (arith, e))
  shift_left-links (internal ks cs) (internal kr (cons c cr)) s (suc h) (e, all) = sym (
      ap (λ l. l ++ links_among cr)
        (links_among-append cs (cons c nil) ∙ ap (λ l. links_among cs ++ l) (append-nil (links c)))
      ∙ append_assoc (links_among cs) (links c) (links_among cr))
  shift_left-links (leaf a ks rs nx) (internal kr cr) s h e = refl
  shift_left-links (internal ks cs) (leaf b kr rr ny) s h e = refl

  join-Relinks :
      (b : ℕ) (l r : Node) (s : Key) (h : ℕ)
      → IsShaped least most l h
      → IsShaped least most r h
      → Relinks b b (two_links l r) (links (join l r s))
  unfolding join links
  join-Relinks b (leaf a ks rs nx) (leaf p kr rr ny) s h e f = Relinks-join b a p nx ny
  join-Relinks b (internal ks cs) (internal kr cr) s h e f =
      Relinks-eq (sym (links_among-append cs cr))
  join-Relinks b (leaf a ks rs nx) (internal kc cc) s zero f g = absurd g
  join-Relinks b (leaf a ks rs nx) (internal kc cc) s (suc h) f g = absurd f
  join-Relinks b (internal ks cs) (leaf p kc rc ny) s zero f g = absurd f
  join-Relinks b (internal ks cs) (leaf p kc rc ny) s (suc h) f g = absurd g

pair_suc-Relinks :
    (b i : ℕ) (cs : Nodes) (l r : Node)
    → suc i < node_count cs
    → Relinks b b (two_links (node_at cs i) (node_at cs (suc i))) (two_links l r)
    → Relinks b b (links_among cs) (links_among (set_node (set_node cs i l) (suc i) r))
unfolding links node_at set_node
pair_suc-Relinks b i nil l r less h = absurd (omega arith)
pair_suc-Relinks b zero (cons c nil) l r less h = absurd (omega arith)
pair_suc-Relinks b zero (cons c (cons d cs)) l r less h =
    Relinks-trans (Relinks-eq (sym (append_assoc (links c) (links d) (links_among cs)))) (
      Relinks-trans (Relinks-within [] (links_among cs) h)
        (Relinks-eq (append_assoc (links l) (links r) (links_among cs))))
pair_suc-Relinks b (suc i) (cons c cs) l r less h =
    Relinks-behind (links c) (pair_suc-Relinks b i cs l r (omega arith) h)

merge_suc-Relinks :
    (b i : ℕ) (cs : Nodes) (n : Node)
    → suc i < node_count cs
    → Relinks b b (two_links (node_at cs i) (node_at cs (suc i))) (links n)
    → Relinks b b (links_among cs) (links_among (remove_node (set_node cs i n) (suc i)))
unfolding links node_at set_node remove_node
merge_suc-Relinks b i nil n less h = absurd (omega arith)
merge_suc-Relinks b zero (cons c nil) n less h = absurd (omega arith)
merge_suc-Relinks b zero (cons c (cons d cs)) n less h =
    Relinks-trans (Relinks-eq (sym (append_assoc (links c) (links d) (links_among cs))))
      (Relinks-within [] (links_among cs) h)
merge_suc-Relinks b (suc i) (cons c cs) n less h =
    Relinks-behind (links c) (merge_suc-Relinks b i cs n (omega arith) h)

pair_at-Relinks :
    (b i j m : ℕ) (cs : Nodes) (l r : Node)
    → j ≡ suc i
    → m ≡ suc i
    → suc i < node_count cs
    → two_links (node_at cs i) (node_at cs j) ≡ two_links l r
    → Relinks b b (links_among cs) (links_among (set_node (set_node cs i l) m r))
pair_at-Relinks b i j m cs l r ej em less h =
    subst (λ m. Relinks b b (links_among cs) (links_among (set_node (set_node cs i l) m r)))
      (sym em)
      (pair_suc-Relinks b i cs l r less
        (Relinks-eq (ap (λ j. two_links (node_at cs i) (node_at cs j)) (sym ej) ∙ h)))

merge_at-Relinks :
    (b i j : ℕ) (cs : Nodes) (n : Node)
    → j ≡ suc i
    → suc i < node_count cs
    → Relinks b b (two_links (node_at cs i) (node_at cs j)) (links n)
    → Relinks b b (links_among cs) (links_among (remove_node (set_node cs i n) j))
merge_at-Relinks b i j cs n ej less h =
    subst (λ j. Relinks b b (links_among cs) (links_among (remove_node (set_node cs i n) j)))
      (sym ej)
      (merge_suc-Relinks b i cs n less
        (subst (λ j. Relinks b b (two_links (node_at cs i) (node_at cs j)) (links n)) ej h))

module _ (b least most : ℕ) (some_keys : 1 ≤ least) (keys : List Key) (cs : Nodes) (i h : ℕ)
    (st : Stats) (same : node_count cs ≡ length keys + 1) (all : AllBut least most i cs h)
    (here : i < node_count cs) where
  abbrev Linked : Inner → Type 0
  Linked q = Relinks b b (links_among cs) (links_among q.children)

  left-Linked :
      0 < i → least < key_count (node_at cs (i - 1)) → Linked (borrow_from_left keys cs i st)
  unfolding borrow_from_left
  left-Linked inside more =
      let p = shift_right (node_at cs (i - 1)) (node_at cs i) (get_or keys (i - 1) []) in
      pair_at-Relinks b (i - 1) i (i - 1 + 1) cs p.left p.right (omega (arith, inside))
        (omega arith) (omega (arith, inside, here))
        (shift_right-links least most (node_at cs (i - 1)) (node_at cs i) (get_or keys (i - 1) []) h
          (other-Full least most i (i - 1) cs h all (λ e. absurd (omega (arith, e, inside)))
            (omega (arith, here))).0)

  right-Linked :
      i + 1 < node_count cs
      → least < key_count (node_at cs (i + 1))
      → Linked (borrow_from_right keys cs i st)
  unfolding borrow_from_right
  right-Linked inside more =
      let p = shift_left (node_at cs i) (node_at cs (i + 1)) (get_or keys i []) in
      pair_at-Relinks b i (i + 1) (i + 1) cs p.left p.right (omega arith) (omega arith)
        (omega (arith, inside))
        (shift_left-links least most (node_at cs i) (node_at cs (i + 1)) (get_or keys i []) h
          (other-Full least most i (i + 1) cs h all (λ e. absurd (omega (arith, e))) inside).0)

  merge-Linked :
      (j : ℕ)
      → j + 1 < node_count cs
      → IsShaped least most (node_at cs j) h
      → IsShaped least most (node_at cs (j + 1)) h
      → Linked (merge keys cs j st)
  unfolding merge
  merge-Linked j inside l r =
      merge_at-Relinks b j (j + 1) cs (join (node_at cs j) (node_at cs (j + 1)) (get_or keys j []))
        (omega arith) (omega (arith, inside))
        (join-Relinks least most b (node_at cs j) (node_at cs (j + 1)) (get_or keys j []) h l r)

  pub repair-Linked : 1 ≤ length keys → Linked (repair least keys cs i st)
  repair-Linked =
      repair_each least most some_keys keys cs i h st same all here Linked left-Linked right-Linked
        merge-Linked
