-- ===== src/Btree/Sorting.antt =====
-- Insertion and deletion keep the order, and agree on a tree's items and on its entries.
use scutedb.Base.{
  ◌≡◌, refl, sym, ap, ◌∙◌, arith, List, [], ◌∷◌, All, true, false, not, if-cases, Bool-cases, inl,
  inr, compare_bytes,
}
use scutedb.Nodepage.{RowId}
use scutedb.Nodepage.Searching.{compare_bytes-eq, is_equal-eq}
use scutedb.Btree.{Key}
use scutedb.Btree.Keys.{lt, lt_asym, is_equal-lt}
use scutedb.Btree.Items.{Item, row, sep, item_lt, Below, IsSorted, rows_of}
use scutedb.Btree.Separator.{Below-trans}
use scutedb.Btree.Entries.{same, upsert, erase, is_row, upsert_items, erase_items}

All-upsert_items :
    (P : Item → Type 0) (key : Key) (rid : RowId) (xs : List Item)
    → P (row key rid)
    → All P xs
    → All P (upsert_items key rid xs)
unfolding upsert_items
All-upsert_items P key rid [] p h = (p, tt)
All-upsert_items P key rid (x ∷ xs) p (a, h) =
    if-cases (All P) (item_lt x (row key rid)) _ _ (λ e. (a, All-upsert_items P key rid xs p h))
      (λ e. if-cases (All P) (is_row key x) _ _ (λ e'. (p, h)) (λ e'. (p, (a, h))))

All-erase_items :
    (P : Item → Type 0) (key : Key) (xs : List Item) → All P xs → All P (erase_items key xs)
unfolding erase_items
All-erase_items P key [] h = tt
All-erase_items P key (x ∷ xs) (a, h) =
    if-cases (All P) (is_row key x) _ _ (λ e. h) (λ e. (a, All-erase_items P key xs h))

-- The row does not matter.
pub Below-row :
    (a key : Key) (r rid : RowId) (ys : List Item)
    → a ≡ key
    → Below (row a r) ys
    → Below (row key rid) ys
Below-row a key r rid [] e h = tt
Below-row a key r rid (sep b ∷ ys) e (l, h) =
    (ap (λ k. lt k b) (sym e) ∙ l, Below-row a key r rid ys e h)
Below-row a key r rid (row b q ∷ ys) e (l, h) =
    (ap (λ k. lt k b) (sym e) ∙ l, Below-row a key r rid ys e h)

pub same-eq : (a b : Key) → same a b ≡ true → a ≡ b
same-eq a b h = compare_bytes-eq a b (is_equal-eq (compare_bytes a b) h)

Below-same :
    (key : Key) (rid : RowId) (x : Item) (xs : List Item)
    → is_row key x ≡ true
    → Below x xs
    → Below (row key rid) xs
Below-same key rid (sep k) xs h b = absurd (ground (arith, h))
Below-same key rid (row k r) xs h b = Below-row k key r rid xs (same-eq k key h) b

above :
    (key : Key) (rid : RowId) (x : Item)
    → item_lt x (row key rid) ≡ false
    → is_row key x ≡ false
    → item_lt (row key rid) x ≡ true
above key rid (sep k) h e = ground (arith, h)
above key rid (row k r) h e = ground (arith, is_equal-lt k key h, e)

pub upsert_items-IsSorted :
    (key : Key) (rid : RowId) (xs : List Item) → IsSorted xs → IsSorted (upsert_items key rid xs)
unfolding upsert_items IsSorted
upsert_items-IsSorted key rid [] h = (tt, tt)
upsert_items-IsSorted key rid (x ∷ xs) (b, h) =
    if-cases IsSorted (item_lt x (row key rid)) _ _
      (λ e. (
        All-upsert_items (λ y. item_lt x y ≡ true) key rid xs e b,
        upsert_items-IsSorted key rid xs h,
      ))
      (λ e.
        if-cases IsSorted (is_row key x) _ _ (λ e'. (Below-same key rid x xs e' b, h))
          (λ e'.
            let up = above key rid x e e' in ((up, Below-trans (row key rid) x xs up b), (b, h))))

pub erase_items-IsSorted :
    (key : Key) (xs : List Item) → IsSorted xs → IsSorted (erase_items key xs)
unfolding erase_items IsSorted
erase_items-IsSorted key [] h = tt
erase_items-IsSorted key (x ∷ xs) (b, h) =
    if-cases IsSorted (is_row key x) _ _ (λ e. h)
      (λ e. (All-erase_items (λ y. item_lt x y ≡ true) key xs b, erase_items-IsSorted key xs h))

upsert_above :
    (key : Key) (rid : RowId) (ys : List Item)
    → Below (row key rid) ys
    → upsert key rid (rows_of ys) ≡ (key, rid) ∷ rows_of ys
unfolding upsert rows_of
upsert_above key rid [] h = refl
upsert_above key rid (sep k ∷ ys) (a, h) = upsert_above key rid ys h
upsert_above key rid (row k r ∷ ys) (a, h) =
    rw (lt_asym key k a) (rw (is_equal-lt k key (lt_asym key k a) ∙ ap not a) refl)

pub rows_of-upsert_items :
    (key : Key) (rid : RowId) (xs : List Item)
    → IsSorted xs
    → rows_of (upsert_items key rid xs) ≡ upsert key rid (rows_of xs)
unfolding upsert_items upsert rows_of IsSorted
rows_of-upsert_items key rid [] h = refl
rows_of-upsert_items key rid (sep k ∷ xs) (b, h) = elim (Bool-cases (lt key k)) [
  | inl e ↦ rw e (sym (upsert_above key rid xs (Below-trans (row key rid) (sep k) xs e b)))
  | inr e ↦ rw e (rows_of-upsert_items key rid xs h)
]
rows_of-upsert_items key rid (row k r ∷ xs) (b, h) = elim (Bool-cases (lt k key)) [
  | inl e ↦ rw e (ap (λ es. (k, r) ∷ es) (rows_of-upsert_items key rid xs h))
  | inr e ↦ elim (Bool-cases (same k key)) [
    | inl e' ↦ rw e (rw e' refl)
    | inr e' ↦ rw e (rw e' refl)
  ]
]

pub rows_of-erase_items :
    (key : Key) (xs : List Item) → rows_of (erase_items key xs) ≡ erase key (rows_of xs)
unfolding erase_items erase rows_of
rows_of-erase_items key [] = refl
rows_of-erase_items key (sep k ∷ xs) = rows_of-erase_items key xs
rows_of-erase_items key (row k r ∷ xs) = elim (Bool-cases (same k key)) [
  | inl e ↦ rw e refl
  | inr e ↦ rw e (ap (λ es. (k, r) ∷ es) (rows_of-erase_items key xs))
]
