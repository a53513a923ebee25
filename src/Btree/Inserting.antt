-- ===== src/Btree/Inserting.antt =====
-- What an insertion makes of the items of a node.
use scutedb.Base.{
  ℕ, ◌/◌, ◌≤◌, ◌≡◌, sym, ap, ◌∙◌, arith, List, [], ◌∷◌, ◌++◌, append-nil, Option, none, some,
  if◌then◌else◌, if-cases, Bool-cases, leb, length, take, drop, set, inl, inr, length-take,
  length-drop,
}
use scutedb.Nodepage.{RowId}
use scutedb.Btree.{Key, Node, Inserted, insert_elem, split_leaf, insert_leaf, leaf_index, is_at}
use scutedb.Btree.Items.{Item, sep, IsSorted, zip_rows, items, Moves, Moves-trans, Moves-eq}
use scutedb.Btree.Entries.{upsert_items}
use scutedb.Btree.Shape.{length-insert_elem}
use scutedb.Btree.Leaves.{put_leaf, zip_rows-split, Moves-between}

-- The separator and the new node to the right, if a node was split.
abbrev pub split_items : Option (Key × Node) → List Item
split_items none = []
split_items (some (k, n)) = sep k ∷ items n

abbrev pub inserted_items : Inserted → List Item
inserted_items r = items r.node ++ split_items r.split

split_leaf-Moves :
    (fresh addr : ℕ) (ks : List Key) (rs : List RowId) (next : Option ℕ)
    → length rs ≡ length ks
    → 2 ≤ length ks
    → Moves (zip_rows ks rs) (inserted_items (split_leaf fresh addr ks rs next))
unfolding split_leaf items
split_leaf-Moves fresh addr ks rs next e two =
    let mid = length ks / 2 in
    let kt = length-take mid ks in
    let kd = length-drop mid ks in
    let rt = length-take mid rs in
    let rd = length-drop mid rs in
    Moves-trans (Moves-eq (zip_rows-split mid ks rs e)) (
      Moves-between (take mid ks) (drop mid ks) (take mid rs) (drop mid rs)
        (omega (arith, kt, rt, e)) (omega (arith, kd, rd, e)) (omega (arith, kt, two))
        (omega (arith, kd, two)))

pub insert_leaf-Moves :
    (most fresh : ℕ) (key : Key) (rid : RowId) (addr : ℕ) (ks : List Key) (rs : List RowId)
    (next : Option ℕ)
    → 2 ≤ most
    → length rs ≡ length ks
    → IsSorted (zip_rows ks rs)
    → Moves
        (upsert_items key rid (zip_rows ks rs))
        (inserted_items (insert_leaf most fresh key rid addr ks rs next))
unfolding insert_leaf items
insert_leaf-Moves most fresh key rid addr ks rs next two e h =
    let i = leaf_index ks key in
    let put = put_leaf key rid ks rs e h in
    let k1 = length-insert_elem i key ks in
    let r1 = length-insert_elem i rid rs in
    elim (Bool-cases (is_at ks i key)) [
      | inl q ↦ rw q (
          Moves-eq (
            sym put
            ∙ ap
                (λ b.
                  if b
                  then zip_rows ks (set rs i rid)
                  else zip_rows (insert_elem i key ks) (insert_elem i rid rs))
                q
            ∙ sym (append-nil _)))
      | inr q ↦
          let made : zip_rows (insert_elem i key ks) (insert_elem i rid rs)
              ≡ upsert_items key rid (zip_rows ks rs) =
            sym (
              ap
                (λ b.
                  if b
                  then zip_rows ks (set rs i rid)
                  else zip_rows (insert_elem i key ks) (insert_elem i rid rs))
                q)
            ∙ put in
          rw q (
            if-cases (λ r. Moves (upsert_items key rid (zip_rows ks rs)) (inserted_items r))
              (leb (length (insert_elem i key ks)) most) _ _
              (λ z. Moves-eq (sym made ∙ sym (append-nil _)))
              (λ z. Moves-trans (Moves-eq (sym made)) (
                split_leaf-Moves fresh addr (insert_elem i key ks) (insert_elem i rid rs) next
                  (omega (arith, k1, r1, e)) (ground (arith, z, two)))))
    ]
