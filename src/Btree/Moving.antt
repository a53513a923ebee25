-- ===== src/Btree/Moving.antt =====
-- What a loan between neighbours, and their join, make of the items of the two.
use scutedb.Base.{
  ℕ, zero, suc, ◌+◌, ◌-◌, ◌≤◌, ◌<◌, ◌≡◌, refl, sym, ap, ap₂, ◌∙◌, arith, List, [], ◌∷◌, ◌++◌,
  append_assoc, append-nil, length, take, drop, get_or, length-take, length-append,
}
use scutedb.Nodepage.{RowId}
use scutedb.Btree.{Key, Node, Nodes, leaf, internal, nil, cons, take_nodes, drop_nodes, no_row}
use scutedb.Btree.Items.{
  Item, row, sep, zip_rows, items, items_among, Moves, Moves-trans, Moves-drop, Moves-eq,
}
use scutedb.Btree.Delete.{
  key_count, node_count, node_at, remove_node, append_nodes, shift_right, shift_left, join,
}
use scutedb.Btree.Shape.{IsShaped}
use scutedb.Btree.Leaves.{zip_rows-append, Moves-between}
use scutedb.Btree.Splitting.{items_among-split}

drop_all : {A : Type 0} (n : ℕ) (xs : List A) → length xs ≤ n → drop n xs ≡ []
drop_all zero [] h = refl
drop_all zero (x ∷ xs) h = absurd (omega (arith, h))
drop_all (suc n) [] h = refl
drop_all (suc n) (x ∷ xs) h = drop_all n xs (omega (arith, h))

zip_rows-at :
    (i : ℕ) (ks : List Key) (rs : List RowId)
    → length rs ≡ length ks
    → i < length ks
    → zip_rows ks rs
      ≡ zip_rows (take i ks) (take i rs)
        ++ (row (get_or ks i []) (get_or rs i no_row)
            ∷ zip_rows (drop (suc i) ks) (drop (suc i) rs))
unfolding zip_rows
zip_rows-at i [] rs e less = absurd (omega arith)
zip_rows-at i (k ∷ ks) [] e less = absurd (omega (arith, e))
zip_rows-at zero (k ∷ ks) (r ∷ rs) e less = refl
zip_rows-at (suc i) (k ∷ ks) (r ∷ rs) e less =
    ap (λ l. row k r ∷ l) (zip_rows-at i ks rs (omega (arith, e)) (omega arith))

pub drop_last :
    (n : ℕ) (cs : Nodes) → node_count cs ≡ n + 1 → drop_nodes n cs ≡ cons (node_at cs n) nil
unfolding drop_nodes node_at
drop_last n nil e = absurd (omega (arith, e))
drop_last zero (cons c nil) e = refl
drop_last zero (cons c (cons d cs)) e = absurd (omega (arith, e))
drop_last (suc n) (cons c cs) e = drop_last n cs (omega (arith, e))

items_among-append :
    (cs ds : Nodes) (ks kr : List Key) (s : Key)
    → node_count cs ≡ length ks + 1
    → items_among (append_nodes cs ds) (ks ++ (s ∷ kr))
      ≡ items_among cs ks ++ (sep s ∷ items_among ds kr)
unfolding items append_nodes
items_among-append nil ds ks kr s e = absurd (omega (arith, e))
items_among-append (cons c nil) ds [] kr s e =
    ap (λ l. l ++ (sep s ∷ items_among ds kr)) (sym (append-nil (items c)))
items_among-append (cons c (cons d cs)) ds [] kr s e = absurd (omega (arith, e))
items_among-append (cons c cs) ds (k ∷ ks) kr s e =
    ap (λ l. items c ++ (sep k ∷ l)) (items_among-append cs ds ks kr s (omega (arith, e)))
    ∙ sym (append_assoc (items c) (sep k ∷ items_among cs ks) (sep s ∷ items_among ds kr))

last_row :
    (ks : List Key) (rs : List RowId)
    → length rs ≡ length ks
    → 1 ≤ length ks
    → zip_rows ks rs
      ≡ zip_rows (take (length ks - 1) ks) (take (length ks - 1) rs)
        ++ (row (get_or ks (length ks - 1) []) (get_or rs (length ks - 1) no_row) ∷ [])
unfolding zip_rows
last_row ks rs e one =
    let i = length ks - 1 in
    zip_rows-at i ks rs e (omega (arith, one))
    ∙ ap
        (λ l.
          zip_rows (take i ks) (take i rs)
          ++ (row (get_or ks i []) (get_or rs i no_row) ∷ zip_rows l (drop (suc i) rs)))
        (drop_all (suc i) ks (omega arith))

last_child :
    (cs : Nodes) (ks : List Key)
    → node_count cs ≡ length ks + 1
    → 1 ≤ length ks
    → items_among cs ks
      ≡ items_among (take_nodes (node_count cs - 1) cs) (take (length ks - 1) ks)
        ++ (sep (get_or ks (length ks - 1) []) ∷ items (node_at cs (node_count cs - 1)))
unfolding items
last_child cs ks e one =
    let i = length ks - 1 in
    items_among-split i cs ks e (omega (arith, one))
    ∙ ap
        (λ n.
          items_among (take_nodes n cs) (take i ks)
          ++ (sep (get_or ks i []) ∷ items_among (drop_nodes n cs) (drop (suc i) ks)))
        {x = suc i} {y = node_count cs - 1} (omega (arith, e, one))
    ∙ ap₂
        (λ ds l.
          items_among (take_nodes (node_count cs - 1) cs) (take i ks)
          ++ (sep (get_or ks i []) ∷ items_among ds l))
        (drop_last (node_count cs - 1) cs (omega (arith, e))) (drop_all (suc i) ks (omega arith))
    ∙ ap
        (λ l.
          items_among (take_nodes (node_count cs - 1) cs) (take i ks) ++ (sep (get_or ks i []) ∷ l))
        (append-nil (items (node_at cs (node_count cs - 1))))

abbrev pub two_items : Node → Key → Node → List Item
two_items l s r = items l ++ (sep s ∷ items r)

module _ (least most : ℕ) where
  pub shift_right-Moves :
      (l r : Node) (s : Key) (h : ℕ)
      → IsShaped least most l h
      → IsShaped least most r h
      → 2 ≤ key_count l
      → (let p = shift_right l r s in
          Moves (two_items l s r) (two_items p.left p.separator p.right))
  unfolding shift_right items zip_rows
  shift_right-Moves (leaf a ks rs nx) (leaf b kc rc ny) s zero e f more =
      let i = length ks - 1 in
      let kt = length-take i ks in
      let rt = length-take i rs in
      let joined =
        ap (λ l. l ++ zip_rows kc rc) (last_row ks rs e (omega (arith, more)))
        ∙ append_assoc (zip_rows (take i ks) (take i rs))
            (row (get_or ks i []) (get_or rs i no_row) ∷ []) (zip_rows kc rc) in
      Moves-trans (Moves-drop s (zip_rows ks rs) (zip_rows kc rc)) (
        Moves-trans (Moves-eq joined) (
          Moves-between (take i ks) (get_or ks i [] ∷ kc) (take i rs) (get_or rs i no_row ∷ rc)
            (omega (arith, kt, rt, e)) (omega (arith, f)) (omega (arith, kt, more)) (omega arith)))
  shift_right-Moves (internal ks cs) (internal kc cc) s (suc h) (e, all) (f, all') more = Moves-eq (
      ap (λ l. l ++ (sep s ∷ items_among cc kc)) (last_child cs ks e (omega (arith, more)))
      ∙ append_assoc (items_among (take_nodes (node_count cs - 1) cs) (take (length ks - 1) ks))
          (sep (get_or ks (length ks - 1) []) ∷ items (node_at cs (node_count cs - 1)))
          (sep s ∷ items_among cc kc))
  shift_right-Moves (leaf a ks rs nx) (leaf b kc rc ny) s (suc h) f g more = absurd f
  shift_right-Moves (internal ks cs) (internal kc cc) s zero f g more = absurd f
  shift_right-Moves (leaf a ks rs nx) (internal kc cc) s zero f g more = absurd g
  shift_right-Moves (leaf a ks rs nx) (internal kc cc) s (suc h) f g more = absurd f
  shift_right-Moves (internal ks cs) (leaf b kc rc ny) s zero f g more = absurd f
  shift_right-Moves (internal ks cs) (leaf b kc rc ny) s (suc h) f g more = absurd g

  pub shift_left-Moves :
      (l r : Node) (s : Key) (h : ℕ)
      → IsShaped least most l h
      → IsShaped least most r h
      → 2 ≤ key_count r
      → (let p = shift_left l r s in Moves (two_items l s r) (two_items p.left p.separator p.right))
  unfolding shift_left items node_at remove_node zip_rows
  shift_left-Moves (leaf a ks rs nx) (leaf b (k ∷ kr) (r ∷ rr) ny) s zero e f more =
      Moves-trans (Moves-drop s (zip_rows ks rs) (row k r ∷ zip_rows kr rr)) (
        Moves-trans
          (Moves-eq (
            sym (
              ap (λ l. l ++ zip_rows kr rr) (zip_rows-append ks (k ∷ []) rs (r ∷ []) e)
              ∙ append_assoc (zip_rows ks rs) (row k r ∷ []) (zip_rows kr rr))))
          (Moves-between (ks ++ (k ∷ [])) kr (rs ++ (r ∷ [])) rr
            (omega (arith, length-append ks (k ∷ []), length-append rs (r ∷ []), e))
            (omega (arith, f)) (omega (arith, length-append ks (k ∷ []))) (omega (arith, more))))
  shift_left-Moves (leaf a ks rs nx) (leaf b [] rr ny) s zero e f more = absurd (omega arith)
  shift_left-Moves (leaf a ks rs nx) (leaf b (k ∷ kr) [] ny) s zero e f more =
      absurd (omega (arith, f))
  shift_left-Moves (internal ks cs) (internal (k ∷ kr) (cons c cr)) s (suc h) (e, all) (f, all')
        more =
      Moves-eq (
        sym (
          ap (λ l. l ++ (sep k ∷ items_among cr kr)) (items_among-append cs (cons c nil) ks [] s e)
          ∙ append_assoc (items_among cs ks) (sep s ∷ (items c ++ [])) (sep k ∷ items_among cr kr)
          ∙ ap (λ l. items_among cs ks ++ (sep s ∷ (l ++ (sep k ∷ items_among cr kr))))
              (append-nil (items c))))
  shift_left-Moves (internal ks cs) (internal [] cr) s (suc h) (e, all) (f, all') more =
      absurd (omega arith)
  shift_left-Moves (internal ks cs) (internal (k ∷ kr) nil) s (suc h) (e, all) (f, all') more =
      absurd (omega (arith, f))
  shift_left-Moves (leaf a ks rs nx) (leaf b kc rc ny) s (suc h) f g more = absurd f
  shift_left-Moves (internal ks cs) (internal kc cc) s zero f g more = absurd f
  shift_left-Moves (leaf a ks rs nx) (internal kc cc) s zero f g more = absurd g
  shift_left-Moves (leaf a ks rs nx) (internal kc cc) s (suc h) f g more = absurd f
  shift_left-Moves (internal ks cs) (leaf b kc rc ny) s zero f g more = absurd f
  shift_left-Moves (internal ks cs) (leaf b kc rc ny) s (suc h) f g more = absurd g

  pub join-Moves :
      (l r : Node) (s : Key) (h : ℕ)
      → IsShaped least most l h
      → IsShaped least most r h
      → Moves (two_items l s r) (items (join l r s))
  unfolding join items
  join-Moves (leaf a ks rs nx) (leaf b kr rr ny) s zero e f =
      Moves-trans (Moves-drop s (zip_rows ks rs) (zip_rows kr rr))
        (Moves-eq (sym (zip_rows-append ks kr rs rr e)))
  join-Moves (internal ks cs) (internal kr cr) s (suc h) (e, all) f =
      Moves-eq (sym (items_among-append cs cr ks kr s e))
  join-Moves (leaf a ks rs nx) (leaf b kc rc ny) s (suc h) f g = absurd f
  join-Moves (internal ks cs) (internal kc cc) s zero f g = absurd f
  join-Moves (leaf a ks rs nx) (internal kc cc) s zero f g = absurd g
  join-Moves (leaf a ks rs nx) (internal kc cc) s (suc h) f g = absurd f
  join-Moves (internal ks cs) (leaf b kc rc ny) s zero f g = absurd f
  join-Moves (internal ks cs) (leaf b kc rc ny) s (suc h) f g = absurd g
