-- ===== src/Btree/Lookup.antt =====
-- What Get finds after a Put and after a Delete.
use scutedb.Base.{
  ◌≡◌, refl, sym, ap, ◌∙◌, arith, List, [], ◌∷◌, Option, none, some, true, false, if◌then◌else◌,
  if-cases, Bool-cases, inl, inr,
}
use scutedb.Nodepage.{RowId, is_equal}
use scutedb.Nodepage.Searching.{compare_bytes_refl}
use scutedb.Btree.{Key, Tree, get, put}
use scutedb.Btree.Keys.{lt, lt_irrefl}
use scutedb.Btree.Items.{Item, row, sep, IsSorted, rows_of}
use scutedb.Btree.Entries.{Entries, same, find, upsert, erase_items, find_back, Above-Lacks}
use scutedb.Btree.Delete.{remove}
use scutedb.Btree.Map.{root_items, contents, IsTree, get-find, put-IsTree, contents-put}
use scutedb.Btree.Removal.{remove-IsRemoved}
use scutedb.Btree.Sorting.{rows_of-erase_items, same-eq, Below-row}

find-upsert :
    (key k : Key) (rid : RowId) (es : Entries)
    → find key (upsert k rid es) ≡ (if same k key then some rid else find key es)
unfolding find upsert
find-upsert key k rid [] = refl
find-upsert key k rid ((j, r) ∷ es) = elim (Bool-cases (lt j k)) [
  | inl e ↦ elim (Bool-cases (same j key)) [
    | inl z ↦ rw e (rw z (rw (apart e z) refl))
    | inr z ↦ rw e (rw z (find-upsert key k rid es))
  ]
  | inr e ↦ elim (Bool-cases (same j k)) [
    | inl z ↦ elim (Bool-cases (same k key)) [
      | inl q ↦ rw e (rw z (rw q refl))
      | inr q ↦ rw e (rw z (rw q (rw (ap (λ a. same a key) (same-eq j k z) ∙ q) refl)))
    ]
    | inr z ↦ rw e (rw z refl)
  ]
]
  where
    apart : lt j k ≡ true → same j key ≡ true → same k key ≡ false
    apart e z = elim (Bool-cases (same k key)) [
      | inl q ↦ absurd (
          ground (
            arith,
            sym (lt_irrefl k) ∙ ap (λ a. lt a k) (same-eq k key q ∙ sym (same-eq j key z)) ∙ e,
          ))
      | inr q ↦ q
    ]

find-erase_items :
    (key k : Key) (xs : List Item)
    → IsSorted xs
    → find key (rows_of (erase_items k xs)) ≡ (if same k key then none else find key (rows_of xs))
unfolding find erase_items rows_of IsSorted
find-erase_items key k [] h =
    if-cases {A = Option RowId} (λ o. none ≡ o) (same k key) _ _ (λ e. refl) (λ e. refl)
find-erase_items key k (sep j ∷ xs) (b, h) = find-erase_items key k xs h
find-erase_items key k (row j r ∷ xs) (b, h) = elim (Bool-cases (same j k)) [
  | inl z ↦
      let there = ap (λ a. same a key) (same-eq j k z) in
      elim (Bool-cases (same k key)) [
        | inl q ↦
            let gone = Below-row j key r r xs (same-eq j key (there ∙ q)) b in
            rw z (rw q (find_back key [] xs (Above-Lacks key r xs gone)))
        | inr q ↦ rw z (rw q (rw (there ∙ q) refl))
      ]
  | inr z ↦ elim (Bool-cases (same j key)) [
    | inl w ↦ rw z (rw w (rw (apart z w) refl))
    | inr w ↦ rw z (rw w (find-erase_items key k xs h))
  ]
]
  where
    apart : same j k ≡ false → same j key ≡ true → same k key ≡ false
    apart z w = elim (Bool-cases (same k key)) [
      | inl q ↦
          let one = same-eq j key w ∙ sym (same-eq k key q) in
          absurd
            (ground (arith, sym z ∙ ap (λ a. same a k) one ∙ ap is_equal (compare_bytes_refl k)))
      | inr q ↦ q
    ]

-- Get finds the row that was put with the key last, and a Put of one key changes what Get finds
-- for no other.
pub get-put :
    (t : Tree) (k key : Key) (rid : RowId)
    → IsTree t
    → get (put t k rid) key ≡ (if same k key then some rid else get t key)
get-put t k key rid h =
    get-find (put t k rid) key (put-IsTree t k rid (inr h))
    ∙ ap (find key) (contents-put t k rid (inr h))
    ∙ find-upsert key k rid (contents t)
    ∙ ap (λ o. if same k key then some rid else o) (sym (get-find t key h))

-- After Delete of a key Get finds no row for it, and what it finds for another key is the same.
pub get-remove :
    (t : Tree) (k key : Key)
    → IsTree t
    → get (remove t k).1 key ≡ (if same k key then none else get t key)
get-remove t k key h =
    let gone = remove-IsRemoved t k h in
    get-find (remove t k).1 key gone.tree
    ∙ ap (find key) (gone.without ∙ sym (rows_of-erase_items k (root_items t.root)))
    ∙ find-erase_items key k (root_items t.root) h.ordered
    ∙ ap (λ o. if same k key then none else o) (sym (get-find t key h))
