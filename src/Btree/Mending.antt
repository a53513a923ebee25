-- ===== src/Btree/Mending.antt =====
-- What the repair of a child makes of the items of its parent.
use scutedb.Base.{
  ℕ, zero, suc, ◌+◌, ◌-◌, ◌≤◌, ◌<◌, ◌≡◌, sym, ap, subst, arith, List, [], ◌∷◌, append_assoc, ◌&&◌,
  if-cases, ltb, ltb→lt, ltb→ge, length, get_or, set,
}
use scutedb.Btree.{Key, Node, Nodes, nil, cons, Stats}
use scutedb.Btree.Items.{
  sep, items, items_among, Moves, Moves-trans, Moves-within, Moves-eq, Moves-after,
}
use scutedb.Btree.Delete.{
  key_count, node_count, node_at, set_node, remove_node, remove_elem, Pair, shift_right, shift_left,
  join, Inner, borrow_from_left, borrow_from_right, merge, repair,
}
use scutedb.Btree.Shape.{IsShaped}
use scutedb.Btree.Leaves.{remove_elem-suc, remove_elem-zero}
use scutedb.Btree.Moving.{two_items, shift_right-Moves, shift_left-Moves, join-Moves}
use scutedb.Btree.Children.{AllBut, node_at-Nearly, other-Full}

pair_first :
    (c d l r : Node) (cs : Nodes) (k s : Key) (ks : List Key)
    → Moves (two_items c k d) (two_items l s r)
    → Moves (items_among (cons c (cons d cs)) (k ∷ ks)) (items_among (cons l (cons r cs)) (s ∷ ks))
unfolding items
pair_first c d l r cs k s [] h =
    Moves-trans (Moves-eq (sym (append_assoc (items c) (sep k ∷ items d) (items_among cs [])))) (
      Moves-trans (Moves-within [] (items_among cs []) h)
        (Moves-eq (append_assoc (items l) (sep s ∷ items r) (items_among cs []))))
pair_first c d l r cs k s (j ∷ ks) h =
    let rest = sep j ∷ items_among cs ks in
    Moves-trans (Moves-eq (sym (append_assoc (items c) (sep k ∷ items d) rest))) (
      Moves-trans (Moves-within [] rest h)
        (Moves-eq (append_assoc (items l) (sep s ∷ items r) rest)))

merge_first :
    (c d n : Node) (cs : Nodes) (k : Key) (ks : List Key)
    → Moves (two_items c k d) (items n)
    → Moves (items_among (cons c (cons d cs)) (k ∷ ks)) (items_among (cons n cs) ks)
unfolding items
merge_first c d n cs k [] h =
    Moves-trans (Moves-eq (sym (append_assoc (items c) (sep k ∷ items d) (items_among cs []))))
      (Moves-within [] (items_among cs []) h)
merge_first c d n cs k (j ∷ ks) h =
    let rest = sep j ∷ items_among cs ks in
    Moves-trans (Moves-eq (sym (append_assoc (items c) (sep k ∷ items d) rest)))
      (Moves-within [] rest h)

pair_suc :
    (i : ℕ) (cs : Nodes) (ks : List Key) (p : Pair)
    → node_count cs ≡ length ks + 1
    → i < length ks
    → Moves
        (two_items (node_at cs i) (get_or ks i []) (node_at cs (suc i)))
        (two_items p.left p.separator p.right)
    → Moves
        (items_among cs ks)
        (items_among (set_node (set_node cs i p.left) (suc i) p.right) (set ks i p.separator))
unfolding node_at set_node items
pair_suc i cs [] p e less h = absurd (omega arith)
pair_suc i nil (k ∷ ks) p e less h = absurd (omega (arith, e))
pair_suc zero (cons c nil) (k ∷ ks) p e less h = absurd (omega (arith, e))
pair_suc zero (cons c (cons d cs)) (k ∷ ks) p e less h =
    pair_first c d p.left p.right cs k p.separator ks h
pair_suc (suc i) (cons c cs) (k ∷ ks) p e less h =
    Moves-after (items c) k (pair_suc i cs ks p (omega (arith, e)) (omega arith) h)

merge_suc :
    (i : ℕ) (cs : Nodes) (ks : List Key) (n : Node)
    → node_count cs ≡ length ks + 1
    → i < length ks
    → Moves (two_items (node_at cs i) (get_or ks i []) (node_at cs (suc i))) (items n)
    → Moves
        (items_among cs ks)
        (items_among (remove_node (set_node cs i n) (suc i)) (remove_elem i ks))
unfolding node_at set_node remove_node items
merge_suc i cs [] n e less h = absurd (omega arith)
merge_suc i nil (k ∷ ks) n e less h = absurd (omega (arith, e))
merge_suc zero (cons c nil) (k ∷ ks) n e less h = absurd (omega (arith, e))
merge_suc zero (cons c (cons d cs)) (k ∷ ks) n e less h =
    Moves-trans (merge_first c d n cs k ks h)
      (Moves-eq (ap (items_among (cons n cs)) (sym (remove_elem-zero k ks))))
merge_suc (suc i) (cons c cs) (k ∷ ks) n e less h =
    Moves-trans (Moves-after (items c) k (merge_suc i cs ks n (omega (arith, e)) (omega arith) h)) (
      Moves-eq (
        ap (items_among (cons c (remove_node (set_node cs i n) (suc i))))
          (sym (remove_elem-suc i k ks))))

-- A pair in the place of two neighbours.
pair_at :
    (i j m : ℕ) (cs : Nodes) (ks : List Key) (p : Pair)
    → j ≡ suc i
    → m ≡ suc i
    → node_count cs ≡ length ks + 1
    → i < length ks
    → Moves
        (two_items (node_at cs i) (get_or ks i []) (node_at cs j))
        (two_items p.left p.separator p.right)
    → Moves
        (items_among cs ks)
        (items_among (set_node (set_node cs i p.left) m p.right) (set ks i p.separator))
pair_at i j m cs ks p ej em e less h =
    subst
      (λ m.
        Moves (items_among cs ks)
          (items_among (set_node (set_node cs i p.left) m p.right) (set ks i p.separator)))
      (sym em)
      (pair_suc i cs ks p e less (
        subst
          (λ j.
            Moves (two_items (node_at cs i) (get_or ks i []) (node_at cs j))
              (two_items p.left p.separator p.right))
          ej h))

merge_at :
    (i j m : ℕ) (cs : Nodes) (ks : List Key) (n : Node)
    → j ≡ suc i
    → m ≡ suc i
    → node_count cs ≡ length ks + 1
    → i < length ks
    → Moves (two_items (node_at cs i) (get_or ks i []) (node_at cs j)) (items n)
    → Moves (items_among cs ks) (items_among (remove_node (set_node cs i n) m) (remove_elem i ks))
merge_at i j m cs ks n ej em e less h =
    subst
      (λ m.
        Moves (items_among cs ks)
          (items_among (remove_node (set_node cs i n) m) (remove_elem i ks)))
      (sym em)
      (merge_suc i cs ks n e less (
        subst (λ j. Moves (two_items (node_at cs i) (get_or ks i []) (node_at cs j)) (items n)) ej
          h))

module _ (least most : ℕ) (some_keys : 1 ≤ least) (keys : List Key) (cs : Nodes) (i h : ℕ)
    (st : Stats) (same : node_count cs ≡ length keys + 1) (all : AllBut least most i cs h)
    (here : i < node_count cs) where
  abbrev Kept : Inner → Type 0
  Kept q = Moves (items_among cs keys) (items_among q.children q.keys)

  abbrev pub own : IsShaped least most (node_at cs i) h
  own = (node_at-Nearly least most i cs h all here).0

  pub other : (j : ℕ) → ¬ (i ≡ j) → j < node_count cs → IsShaped least most (node_at cs j) h
  other j ne less = (other-Full least most i j cs h all ne less).0

  -- A repair is a loan from the left or from the right, or a merge of two neighbours.
  pub repair_each :
      (P : Inner → Type 0)
      → (0 < i → least < key_count (node_at cs (i - 1)) → P (borrow_from_left keys cs i st))
      → (i + 1 < node_count cs
          → least < key_count (node_at cs (i + 1))
          → P (borrow_from_right keys cs i st))
      → ((j : ℕ)
          → j + 1 < node_count cs
          → IsShaped least most (node_at cs j) h
          → IsShaped least most (node_at cs (j + 1)) h
          → P (merge keys cs j st))
      → 1 ≤ length keys
      → P (repair least keys cs i st)
  unfolding repair
  repair_each P left right merged has =
      if-cases P (ltb 0 i && ltb least (key_count (node_at cs (i - 1)))) _ _
        (λ e. left (ground (arith, e)) (ground (arith, e)))
        (λ no_left.
          if-cases P (ltb (i + 1) (node_count cs) && ltb least (key_count (node_at cs (i + 1)))) _ _
            (λ e. right (ground (arith, e)) (ground (arith, e)))
            (λ no_right.
              if-cases P (ltb 0 i) _ _
                (λ e.
                  let inside = ltb→lt 0 i e in
                  merged (i - 1) (omega (arith, inside, here))
                    (other (i - 1) (λ q. absurd (omega (arith, q, inside))) (omega (arith, here)))
                    (subst (λ j. IsShaped least most (node_at cs j) h) {x = i} {y = i - 1 + 1}
                      (omega (arith, inside)) own))
                (λ e.
                  let inside : i + 1 < node_count cs = omega (arith, ltb→ge 0 i e, same, has) in
                  merged i inside own (other (i + 1) (λ q. absurd (omega (arith, q))) inside))))

  left-Kept : 0 < i → least < key_count (node_at cs (i - 1)) → Kept (borrow_from_left keys cs i st)
  unfolding borrow_from_left
  left-Kept inside more =
      pair_at (i - 1) i (i - 1 + 1) cs keys
        (shift_right (node_at cs (i - 1)) (node_at cs i) (get_or keys (i - 1) []))
        (omega (arith, inside)) (omega arith) same (omega (arith, inside, here, same))
        (shift_right-Moves least most (node_at cs (i - 1)) (node_at cs i) (get_or keys (i - 1) []) h
          (other (i - 1) (λ e. absurd (omega (arith, e, inside))) (omega (arith, here))) own
          (omega (arith, more, some_keys)))

  right-Kept :
      i + 1 < node_count cs
      → least < key_count (node_at cs (i + 1))
      → Kept (borrow_from_right keys cs i st)
  unfolding borrow_from_right
  right-Kept inside more =
      pair_at i (i + 1) (i + 1) cs keys
        (shift_left (node_at cs i) (node_at cs (i + 1)) (get_or keys i [])) (omega arith)
        (omega arith) same (omega (arith, inside, same))
        (shift_left-Moves least most (node_at cs i) (node_at cs (i + 1)) (get_or keys i []) h own
          (other (i + 1) (λ e. absurd (omega (arith, e))) inside) (omega (arith, more, some_keys)))

  merge-Kept :
      (j : ℕ)
      → j + 1 < node_count cs
      → IsShaped least most (node_at cs j) h
      → IsShaped least most (node_at cs (j + 1)) h
      → Kept (merge keys cs j st)
  unfolding merge
  merge-Kept j inside l r =
      merge_at j (j + 1) (j + 1) cs keys
        (join (node_at cs j) (node_at cs (j + 1)) (get_or keys j [])) (omega arith) (omega arith)
        same (omega (arith, inside, same))
        (join-Moves least most (node_at cs j) (node_at cs (j + 1)) (get_or keys j []) h l r)

  pub repair-Kept : 1 ≤ length keys → Kept (repair least keys cs i st)
  repair-Kept = repair_each Kept left-Kept right-Kept merge-Kept
