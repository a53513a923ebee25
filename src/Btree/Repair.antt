-- ===== src/Btree/Repair.antt =====
-- Delete repairs the shape of the tree.
use scutedb.Base.{
  ℕ, zero, suc, ◌+◌, ◌-◌, ◌/◌, ◌≤◌, ◌<◌, ◌≡◌, sym, subst, arith, if-cases, List, [], ◌∷◌, length,
  length-append, length-take, length-drop, length-set, get_or, ◌&&◌,
}
use scutedb.Base.{ltb, ltb→lt, ltb→ge}
use scutedb.Btree.{Key, Node, Nodes, leaf, internal, nil, cons, Stats, no_row}
use scutedb.Btree.Delete.{
  key_count, node_count, node_at, set_node, shift_right, shift_left, join, Inner, borrow_from_left,
  borrow_from_right, merge, repair,
}
use scutedb.Btree.Shape.{IsShaped, AllShaped, node_count-take_nodes, take_nodes-AllShaped}
use scutedb.Btree.Children.{
  node_count-set_node, node_count-remove_node, node_count-append_nodes, length-remove_elem, Full,
  Nearly, AllBut, node_at-Nearly, node_at-Full, other-Full, set_node-AllShaped, set_node-kept,
  set_node-AllBut, remove_node-AllShaped, AllShaped-AllBut, append_nodes-AllShaped,
}

module _ (least most : ℕ) (room : 2 ≤ most) (some_keys : 1 ≤ least) (half : least ≤ most / 2) where
  shift_right-Full :
      (l r : Node) (sep : Key) (h : ℕ)
      → Full least most l h
      → Nearly least most r h
      → least < key_count l
      → key_count r < least
      → Full least most (shift_right l r sep).left h × Full least most (shift_right l r sep).right h
  unfolding shift_right
  shift_right-Full (leaf a ks rs nx) (leaf b kc rc ny) sep zero (p, q, m) (p', q', m') more few =
      let kt = length-take (length ks - 1) ks in
      let rt = length-take (length ks - 1) rs in
      (
        (omega (arith, kt, rt, p), omega (arith, kt, more), omega (arith, kt, m)),
        (omega (arith, p'), omega (arith, q'), omega (arith, few, half)),
      )
  shift_right-Full (internal ks cs) (internal kc cc) sep (suc h) ((s, all), q, m)
        ((s', all'), q', m') more few =
      let kt = length-take (length ks - 1) ks in
      let ct = node_count-take_nodes (node_count cs - 1) cs in
      let (x, y, z) = node_at-Full least most (node_count cs - 1) cs h all (omega (arith, s)) in
      (
        (
          (
            omega (arith, kt, ct, s, more),
            take_nodes-AllShaped least most (node_count cs - 1) cs h all,
          ),
          omega (arith, kt, more),
          omega (arith, kt, m),
        ),
        ((omega (arith, s'), (x, y, z, all')), omega (arith, q'), omega (arith, few, half)),
      )
  shift_right-Full (leaf a ks rs nx) (leaf b kc rc ny) sep (suc h) f g more few = absurd f.0
  shift_right-Full (internal ks cs) (internal kc cc) sep zero f g more few = absurd f.0
  shift_right-Full (leaf a ks rs nx) (internal kc cc) sep zero f g more few = absurd g.0
  shift_right-Full (leaf a ks rs nx) (internal kc cc) sep (suc h) f g more few = absurd f.0
  shift_right-Full (internal ks cs) (leaf b kc rc ny) sep zero f g more few = absurd f.0
  shift_right-Full (internal ks cs) (leaf b kc rc ny) sep (suc h) f g more few = absurd g.0

  shift_left-Full :
      (l r : Node) (sep : Key) (h : ℕ)
      → Nearly least most l h
      → Full least most r h
      → least < key_count r
      → key_count l < least
      → Full least most (shift_left l r sep).left h × Full least most (shift_left l r sep).right h
  unfolding shift_left
  shift_left-Full (leaf a ks rs nx) (leaf b kr rr ny) sep zero (p, q, m) (p', q', m') more few =
      let ka = length-append ks (get_or kr 0 [] ∷ []) in
      let ra = length-append rs (get_or rr 0 no_row ∷ []) in
      let kd = length-drop 1 kr in
      let rd = length-drop 1 rr in
      (
        (omega (arith, ka, ra, p), omega (arith, ka, q), omega (arith, ka, few, half)),
        (omega (arith, kd, rd, p'), omega (arith, kd, more), omega (arith, kd, m')),
      )
  shift_left-Full (internal ks cs) (internal kr cr) sep (suc h) ((s, all), q, m)
        ((s', all'), q', m') more few =
      let ka = length-append ks (sep ∷ []) in
      let ca = node_count-append_nodes cs (cons (node_at cr 0) nil) in
      let kd = length-drop 1 kr in
      let cd = node_count-remove_node cr 0 (omega (arith, s')) in
      let (x, y, z) = node_at-Full least most 0 cr h all' (omega (arith, s')) in
      (
        (
          (
            omega (arith, ka, ca, s),
            append_nodes-AllShaped least most cs (cons (node_at cr 0) nil) h all (x, y, z, tt),
          ),
          omega (arith, ka, q),
          omega (arith, ka, few, half),
        ),
        (
          (
            omega (arith, kd, cd, s', more),
            remove_node-AllShaped least most 0 cr h (AllShaped-AllBut least most 0 cr h all'),
          ),
          omega (arith, kd, more),
          omega (arith, kd, m'),
        ),
      )
  shift_left-Full (leaf a ks rs nx) (leaf b kc rc ny) sep (suc h) f g more few = absurd f.0
  shift_left-Full (internal ks cs) (internal kc cc) sep zero f g more few = absurd f.0
  shift_left-Full (leaf a ks rs nx) (internal kc cc) sep zero f g more few = absurd g.0
  shift_left-Full (leaf a ks rs nx) (internal kc cc) sep (suc h) f g more few = absurd f.0
  shift_left-Full (internal ks cs) (leaf b kc rc ny) sep zero f g more few = absurd f.0
  shift_left-Full (internal ks cs) (leaf b kc rc ny) sep (suc h) f g more few = absurd g.0

  join-Full :
      (l r : Node) (sep : Key) (h : ℕ)
      → IsShaped least most l h
      → IsShaped least most r h
      → key_count l + key_count r + 1 ≤ most
      → least ≤ key_count l + key_count r
      → Full least most (join l r sep) h
  unfolding join
  join-Full (leaf a ks rs nx) (leaf b kr rr ny) sep zero p p' fits full =
      let ka = length-append ks kr in
      let ra = length-append rs rr in
      (omega (arith, ka, ra, p, p'), omega (arith, ka, full), omega (arith, ka, fits))
  join-Full (internal ks cs) (internal kr cr) sep (suc h) (s, all) (s', all') fits full =
      let ka = length-append ks (sep ∷ kr) in
      let ca = node_count-append_nodes cs cr in
      (
        (omega (arith, ka, ca, s, s'), append_nodes-AllShaped least most cs cr h all all'),
        omega (arith, ka, full),
        omega (arith, ka, fits),
      )
  join-Full (leaf a ks rs nx) (leaf b kc rc ny) sep (suc h) f g fits full = absurd f
  join-Full (internal ks cs) (internal kc cc) sep zero f g fits full = absurd f
  join-Full (leaf a ks rs nx) (internal kc cc) sep zero f g fits full = absurd g
  join-Full (leaf a ks rs nx) (internal kc cc) sep (suc h) f g fits full = absurd f
  join-Full (internal ks cs) (leaf b kc rc ny) sep zero f g fits full = absurd f
  join-Full (internal ks cs) (leaf b kc rc ny) sep (suc h) f g fits full = absurd g

  -- The keys and children after a repair: `k` keys or one less, and every child with enough keys.
  abbrev pub Repaired : ℕ → ℕ → Inner → Type 0
  Repaired h k q =
      AllShaped least most q.children h
      × (node_count q.children ≡ length q.keys + 1)
      × (k ≤ length q.keys + 1)
      × (length q.keys ≤ k)

  module _ (keys : List Key) (cs : Nodes) (i h : ℕ) (st : Stats)
      (same : node_count cs ≡ length keys + 1) (all : AllBut least most i cs h)
      (here : i < node_count cs) (few : key_count (node_at cs i) < least) where
    left-Repaired :
        0 < i
        → least < key_count (node_at cs (i - 1))
        → Repaired h (length keys) (borrow_from_left keys cs i st)
    unfolding borrow_from_left
    left-Repaired inside more =
        let sep = get_or keys (i - 1) [] in
        let l = node_at cs (i - 1) in
        let r = node_at cs i in
        let p = shift_right l r sep in
        let (fl, fr) =
          shift_right-Full l r sep h
            (other-Full least most i (i - 1) cs h all (λ e. absurd (omega (arith, inside)))
              (omega (arith, here)))
            (node_at-Nearly least most i cs h all here) more few in
        let next : i ≡ i - 1 + 1 = omega (arith, inside) in
        let one = set_node-AllBut least most i (i - 1) cs p.left h all fl in
        let ks = length-set keys (i - 1) p.separator in
        (
          set_node-AllShaped least most (i - 1 + 1) (set_node cs (i - 1) p.left) p.right h
              (subst (λ j. AllBut least most j (set_node cs (i - 1) p.left) h) next one) fr,
          omega (
            arith,
            ks,
            same,
            node_count-set_node (set_node cs (i - 1) p.left) (i - 1 + 1) p.right,
            node_count-set_node cs (i - 1) p.left,
          ),
          omega (arith, ks),
          omega (arith, ks),
        )

    right-Repaired :
        i + 1 < node_count cs
        → least < key_count (node_at cs (i + 1))
        → Repaired h (length keys) (borrow_from_right keys cs i st)
    unfolding borrow_from_right
    right-Repaired inside more =
        let sep = get_or keys i [] in
        let l = node_at cs i in
        let r = node_at cs (i + 1) in
        let p = shift_left l r sep in
        let (fl, fr) =
          shift_left-Full l r sep h (node_at-Nearly least most i cs h all here)
            (other-Full least most i (i + 1) cs h all (λ e. absurd (omega (arith, e))) inside) more
            few in
        let ks = length-set keys i p.separator in
        (
          set_node-kept least most (i + 1) (set_node cs i p.left) p.right h
              (set_node-AllShaped least most i cs p.left h all fl) fr,
          omega (
            arith,
            ks,
            same,
            node_count-set_node (set_node cs i p.left) (i + 1) p.right,
            node_count-set_node cs i p.left,
          ),
          omega (arith, ks),
          omega (arith, ks),
        )

    -- A merge of the children at `j` and `j + 1`, one of which is the one with few keys.
    merge-Repaired :
        (j : ℕ)
        → (AllBut least most
            (j + 1)
            (set_node cs j (join (node_at cs j) (node_at cs (j + 1)) (get_or keys j [])))
            h)
        → j < length keys
        → Repaired h (length keys) (merge keys cs j st)
    unfolding merge
    merge-Repaired j rest lt =
        let n = join (node_at cs j) (node_at cs (j + 1)) (get_or keys j []) in
        let ks = length-remove_elem j keys lt in
        let size = node_count-set_node cs j n in
        let less =
          node_count-remove_node (set_node cs j n) (j + 1) (omega (arith, size, same, lt)) in
        (
          remove_node-AllShaped least most (j + 1) (set_node cs j n) h rest,
          omega (arith, ks, less, size, same),
          omega (arith, ks),
          omega (arith, ks),
        )

    merge_left-Repaired :
        0 < i
        → key_count (node_at cs (i - 1)) ≤ least
        → Repaired h (length keys) (merge keys cs (i - 1) st)
    merge_left-Repaired lt small =
        let (sr, qr, mr) = node_at-Nearly least most i cs h all here in
        let (sl, ql, ml) =
          other-Full least most i (i - 1) cs h all (λ p. absurd (omega (arith, p, lt)))
            (omega (arith, here)) in
        let next : i - 1 + 1 ≡ i = omega (arith, lt) in
        let few' : key_count (node_at cs (i - 1 + 1)) < least =
          subst (λ j. key_count (node_at cs j) < least) (sym next) few in
        let sr' : IsShaped least most (node_at cs (i - 1 + 1)) h =
          subst (λ j. IsShaped least most (node_at cs j) h) (sym next) sr in
        let full =
          join-Full (node_at cs (i - 1)) (node_at cs (i - 1 + 1)) (get_or keys (i - 1) []) h sl sr'
            (omega (arith, small, few', half)) (omega (arith, ql)) in
        merge-Repaired (i - 1)
          (subst (λ j. AllBut least most j (set_node cs (i - 1) (joined (i - 1))) h) (sym next)
            (set_node-AllBut least most i (i - 1) cs (joined (i - 1)) h all full))
          (omega (arith, here, same, lt))
      where
        joined : ℕ → Node
        joined j = join (node_at cs j) (node_at cs (j + 1)) (get_or keys j [])

    merge_right-Repaired :
        i + 1 < node_count cs
        → key_count (node_at cs (i + 1)) ≤ least
        → Repaired h (length keys) (merge keys cs i st)
    merge_right-Repaired lt small =
        let (sl, ql, ml) = node_at-Nearly least most i cs h all here in
        let (sr, qr, mr) =
          other-Full least most i (i + 1) cs h all (λ p. absurd (omega (arith, p))) lt in
        let full =
          join-Full (node_at cs i) (node_at cs (i + 1)) (get_or keys i []) h sl sr
            (omega (arith, small, few, half)) (omega (arith, qr)) in
        merge-Repaired i
          (AllShaped-AllBut least most (i + 1) _ h
            (set_node-AllShaped least most i cs _ h all full))
          (omega (arith, lt, same))

    pub repair-Repaired : 1 ≤ length keys → Repaired h (length keys) (repair least keys cs i st)
    unfolding repair
    repair-Repaired has =
        if-cases Fine (ltb 0 i && ltb least (key_count (node_at cs (i - 1)))) _ _
          (λ e. left-Repaired (ground (arith, e)) (ground (arith, e)))
          (λ no_left.
            if-cases Fine
              (ltb (i + 1) (node_count cs) && ltb least (key_count (node_at cs (i + 1)))) _ _
              (λ e. right-Repaired (ground (arith, e)) (ground (arith, e)))
              (λ no_right.
                if-cases Fine (ltb 0 i) _ _
                  (λ e. merge_left-Repaired (ltb→lt 0 i e) (ground (arith, no_left, e)))
                  (λ e.
                    let lt : i + 1 < node_count cs = omega (arith, ltb→ge 0 i e, same, has) in
                    merge_right-Repaired lt (ground (arith, no_right, lt)))))
      where
        Fine : Inner → Type 0
        Fine q = Repaired h (length keys) q
