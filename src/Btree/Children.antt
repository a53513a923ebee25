-- ===== src/Btree/Children.antt =====
-- Children of a node, one of which may have lost a key.
use scutedb.Base.{
  ℕ, zero, suc, ◌+◌, ◌≤◌, ◌<◌, ◌≡◌, refl, ap, arith, List, length, length-append, length-take,
  length-drop, take, drop,
}
use scutedb.Btree.{Node, Nodes, nil, cons}
use scutedb.Btree.Delete.{
  key_count, node_count, node_at, set_node, remove_node, append_nodes, remove_elem,
}
use scutedb.Btree.Shape.{IsShaped, AllShaped}

pub node_count-set_node :
    (cs : Nodes) (i : ℕ) (n : Node) → node_count (set_node cs i n) ≡ node_count cs
unfolding set_node
node_count-set_node nil i n = refl
node_count-set_node (cons c cs) zero n = refl
node_count-set_node (cons c cs) (suc i) n = omega (arith, node_count-set_node cs i n)

pub node_count-remove_node :
    (cs : Nodes) (i : ℕ) → i < node_count cs → node_count (remove_node cs i) + 1 ≡ node_count cs
unfolding remove_node
node_count-remove_node nil i lt = absurd (omega arith)
node_count-remove_node (cons c cs) zero lt = refl
node_count-remove_node (cons c cs) (suc i) lt =
    omega (arith, node_count-remove_node cs i (omega arith))

pub node_count-append_nodes :
    (cs ds : Nodes) → node_count (append_nodes cs ds) ≡ node_count cs + node_count ds
unfolding append_nodes
node_count-append_nodes nil ds = omega arith
node_count-append_nodes (cons c cs) ds = omega (arith, node_count-append_nodes cs ds)

pub length-remove_elem :
    {A : Type 0} (i : ℕ) (xs : List A) → i < length xs → length (remove_elem i xs) + 1 ≡ length xs
unfolding remove_elem
length-remove_elem i xs lt =
    omega
      (arith, length-append (take i xs) (drop (i + 1) xs), length-take i xs, length-drop (i + 1) xs)

module _ (least most : ℕ) where
  -- A child with enough keys.
  abbrev pub Full : Node → ℕ → Type 0
  Full c h = IsShaped least most c h × (least ≤ key_count c) × (key_count c ≤ most)

  -- A child that may have lost a key.
  abbrev pub Nearly : Node → ℕ → Type 0
  Nearly c h = IsShaped least most c h × (least ≤ key_count c + 1) × (key_count c ≤ most)

  -- All children have enough keys, but the one at `i`, which may have one key less.
  abbrev pub AllBut : ℕ → Nodes → ℕ → Type 0
  AllBut i nil h = Unit {0}
  AllBut zero (cons c cs) h = Nearly c h × AllShaped least most cs h
  AllBut (suc i) (cons c cs) h = Full c h × AllBut i cs h

  pub node_at-Nearly :
      (i : ℕ) (cs : Nodes) (h : ℕ) → AllBut i cs h → i < node_count cs → Nearly (node_at cs i) h
  unfolding node_at
  node_at-Nearly i nil h a lt = absurd (omega arith)
  node_at-Nearly zero (cons c cs) h a lt = a.0
  node_at-Nearly (suc i) (cons c cs) h a lt = node_at-Nearly i cs h a.1 (omega arith)

  pub node_at-Full :
      (j : ℕ) (cs : Nodes) (h : ℕ)
      → AllShaped least most cs h
      → j < node_count cs
      → Full (node_at cs j) h
  unfolding node_at
  node_at-Full j nil h a lt = absurd (omega arith)
  node_at-Full zero (cons c cs) h (a, b, d, e) lt = (a, b, d)
  node_at-Full (suc j) (cons c cs) h (a, b, d, e) lt = node_at-Full j cs h e (omega arith)

  pub other-Full :
      (i j : ℕ) (cs : Nodes) (h : ℕ)
      → AllBut i cs h
      → ¬ (i ≡ j)
      → j < node_count cs
      → Full (node_at cs j) h
  unfolding node_at
  other-Full i j nil h a ne lt = absurd (omega arith)
  other-Full zero zero (cons c cs) h a ne lt = absurd (ne refl)
  other-Full zero (suc j) (cons c cs) h a ne lt = node_at-Full j cs h a.1 (omega arith)
  other-Full (suc i) zero (cons c cs) h a ne lt = a.0
  other-Full (suc i) (suc j) (cons c cs) h a ne lt =
      other-Full i j cs h a.1 (λ e. ne (ap suc e)) (omega arith)

  pub set_node-AllShaped :
      (i : ℕ) (cs : Nodes) (n : Node) (h : ℕ)
      → AllBut i cs h
      → Full n h
      → AllShaped least most (set_node cs i n) h
  unfolding set_node
  set_node-AllShaped i nil n h a f = tt
  set_node-AllShaped zero (cons c cs) n h a (p, q, r) = (p, q, r, a.1)
  set_node-AllShaped (suc i) (cons c cs) n h ((p, q, r), b) f =
      (p, q, r, set_node-AllShaped i cs n h b f)

  pub set_node-kept :
      (j : ℕ) (cs : Nodes) (n : Node) (h : ℕ)
      → AllShaped least most cs h
      → Full n h
      → AllShaped least most (set_node cs j n) h
  unfolding set_node
  set_node-kept j nil n h a f = tt
  set_node-kept zero (cons c cs) n h (a, b, d, e) (p, q, r) = (p, q, r, e)
  set_node-kept (suc j) (cons c cs) n h (a, b, d, e) f = (a, b, d, set_node-kept j cs n h e f)

  pub set_node-AllBut :
      (i j : ℕ) (cs : Nodes) (n : Node) (h : ℕ)
      → AllBut i cs h
      → Full n h
      → AllBut i (set_node cs j n) h
  unfolding set_node
  set_node-AllBut i j nil n h a f = tt
  set_node-AllBut zero zero (cons c cs) n h a (p, q, r) = ((p, omega (arith, q), r), a.1)
  set_node-AllBut zero (suc j) (cons c cs) n h a f = (a.0, set_node-kept j cs n h a.1 f)
  set_node-AllBut (suc i) zero (cons c cs) n h a f = (f, a.1)
  set_node-AllBut (suc i) (suc j) (cons c cs) n h a f = (a.0, set_node-AllBut i j cs n h a.1 f)

  pub remove_node-AllShaped :
      (i : ℕ) (cs : Nodes) (h : ℕ) → AllBut i cs h → AllShaped least most (remove_node cs i) h
  unfolding remove_node
  remove_node-AllShaped i nil h a = tt
  remove_node-AllShaped zero (cons c cs) h a = a.1
  remove_node-AllShaped (suc i) (cons c cs) h ((p, q, r), b) =
      (p, q, r, remove_node-AllShaped i cs h b)

  pub AllShaped-AllBut : (i : ℕ) (cs : Nodes) (h : ℕ) → AllShaped least most cs h → AllBut i cs h
  AllShaped-AllBut i nil h a = tt
  AllShaped-AllBut zero (cons c cs) h (a, b, d, e) = ((a, omega (arith, b), d), e)
  AllShaped-AllBut (suc i) (cons c cs) h (a, b, d, e) = ((a, b, d), AllShaped-AllBut i cs h e)

  pub append_nodes-AllShaped :
      (cs ds : Nodes) (h : ℕ)
      → AllShaped least most cs h
      → AllShaped least most ds h
      → AllShaped least most (append_nodes cs ds) h
  unfolding append_nodes
  append_nodes-AllShaped nil ds h a b = b
  append_nodes-AllShaped (cons c cs) ds h (a, b, d, e) k =
      (a, b, d, append_nodes-AllShaped cs ds h e k)
