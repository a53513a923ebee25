-- ===== src/Btree/Separator.antt =====
-- A separator may be put between two rows.
use scutedb.Base.{◌≡◌, sym, ap, ◌∙◌, subst, List, [], ◌∷◌, ◌++◌, append_assoc, All, true, not}
use scutedb.Nodepage.{RowId}
use scutedb.Btree.{Key}
use scutedb.Btree.Keys.{lt, lt_irrefl}
use scutedb.Btree.Items.{
  Item, row, sep, item_lt, item_lt_trans, Below, IsSorted, rows_of, rows_of-append, Moves,
}

abbrev pub IsRow : Item → Type 0
IsRow (sep k) = ⊥
IsRow (row k r) = Unit {0}

All-add :
    (P : Item → Type 0) (xs d : List Item) (y z : Item)
    → (P y → P z)
    → All P (xs ++ (y ∷ d))
    → All P (xs ++ (z ∷ (y ∷ d)))
All-add P [] d y z f (a, h) = (f a, (a, h))
All-add P (x ∷ xs) d y z f (a, h) = (a, All-add P xs d y z f h)

All-under :
    (P : Item → Type 0) (c xs d : List Item) (w y z : Item)
    → P z
    → All P (c ++ (w ∷ (xs ++ (y ∷ d))))
    → All P (c ++ (w ∷ (xs ++ (z ∷ (y ∷ d)))))
All-under P [] xs d w y z f (a, h) = (a, All-add P xs d y z (λ e. f) h)
All-under P (x ∷ c) xs d w y z f (a, h) = (a, All-under P c xs d w y z f h)

All-mid : (P : Item → Type 0) (c d : List Item) (y : Item) → All P (c ++ (y ∷ d)) → P y
All-mid P [] d y (a, h) = a
All-mid P (x ∷ c) d y (a, h) = All-mid P c d y h

pub Below-trans : (x y : Item) (ys : List Item) → item_lt x y ≡ true → Below y ys → Below x ys
Below-trans x y [] h b = tt
Below-trans x y (z ∷ ys) h (a, b) = (item_lt_trans x y z h a, Below-trans x y ys h b)

-- Before `row b r`, after rows only.
rows_add :
    (xs d : List Item) (b : Key) (r : RowId)
    → All IsRow xs
    → IsSorted (xs ++ (row b r ∷ d))
    → IsSorted (xs ++ (sep b ∷ (row b r ∷ d)))
unfolding IsSorted
rows_add [] d b r rows (low, h) =
    let at : item_lt (sep b) (row b r) ≡ true = ap not (lt_irrefl b) in
    ((at, Below-trans (sep b) (row b r) d at low), (low, h))
rows_add (sep a ∷ xs) d b r rows h = absurd rows.0
rows_add (row a s ∷ xs) d b r rows (low, h) = (
  All-add (λ y. item_lt (row a s) y ≡ true) xs d (row b r) (sep b) (λ e. e) low,
  rows_add xs d b r rows.1 h,
)

-- The first of the rows keeps it above what stands before them.
IsSorted-add :
    (c xs d : List Item) (a b : Key) (s r : RowId)
    → All IsRow xs
    → lt a b ≡ true
    → IsSorted (c ++ (row a s ∷ (xs ++ (row b r ∷ d))))
    → IsSorted (c ++ (row a s ∷ (xs ++ (sep b ∷ (row b r ∷ d)))))
unfolding IsSorted
IsSorted-add [] xs d a b s r rows less h = rows_add (row a s ∷ xs) d b r (tt, rows) h
IsSorted-add (x ∷ c) xs d a b s r rows less (low, h) =
    let at = All-mid (λ y. item_lt x y ≡ true) c (xs ++ (row b r ∷ d)) (row a s) low in
    (
      All-under (λ y. item_lt x y ≡ true) c xs d (row a s) (row b r) (sep b)
          (item_lt_trans x (row a s) (sep b) at less) low,
      IsSorted-add c xs d a b s r rows less h,
    )

sorted_less :
    (c xs d : List Item) (a b : Key) (s r : RowId)
    → IsSorted (c ++ (row a s ∷ (xs ++ (row b r ∷ d))))
    → lt a b ≡ true
unfolding IsSorted
sorted_less [] xs d a b s r (low, h) = All-mid (λ y. item_lt (row a s) y ≡ true) xs d (row b r) low
sorted_less (x ∷ c) xs d a b s r (low, h) = sorted_less c xs d a b s r h

pub Moves-add :
    (a b : Key) (s r : RowId) (xs ys : List Item)
    → All IsRow xs
    → Moves ((row a s ∷ xs) ++ (row b r ∷ ys)) ((row a s ∷ xs) ++ (sep b ∷ (row b r ∷ ys)))
unfolding rows_of
Moves-add a b s r xs ys rows = record {
  same_rows =
      rows_of-append (row a s ∷ xs) (sep b ∷ (row b r ∷ ys))
      ∙ sym (rows_of-append (row a s ∷ xs) (row b r ∷ ys));
  keeps = λ c d h.
      let g = subst (λ l. IsSorted (c ++ (row a s ∷ l))) (append_assoc xs (row b r ∷ ys) d) h in
      subst (λ l. IsSorted (c ++ (row a s ∷ l))) (sym (append_assoc xs (sep b ∷ (row b r ∷ ys)) d))
        (IsSorted-add c xs (ys ++ d) a b s r rows (sorted_less c xs (ys ++ d) a b s r g) g);
}
