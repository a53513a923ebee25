-- ===== src/Btree/Entries.antt =====
-- What a sorted map does: its keys with their rows, in order.
use scutedb.Base.{
  ◌≡◌, refl, sym, ap, ◌∙◌, arith, List, [], ◌∷◌, ◌++◌, All, Option, none, some, Bool, true, false,
  not, if◌then◌else◌, Bool-cases, inl, inr, compare_bytes,
}
use scutedb.Nodepage.{RowId, is_less, is_equal}
use scutedb.Btree.{Key}
use Prim.Native.Nat.{Ordering}
use scutedb.Btree.Keys.{lt, lt_irrefl, lt_asym, is_equal-lt}
use scutedb.Btree.Items.{Item, row, sep, item_lt, item_lt_trans, Below, rows_of}

abbrev pub same : Key → Key → Bool
same a b = is_equal (compare_bytes a b)

abbrev pub Entries : Type 0
Entries = List (Key × RowId)

-- The row that stands with a key.
unfoldable pub find : Key → Entries → Option RowId
find key [] = none
find key ((k, r) ∷ es) = if same k key then some r else find key es

-- Replace the row of a key, or put the key in its place.
unfoldable pub upsert : Key → RowId → Entries → Entries
upsert key rid [] = (key, rid) ∷ []
upsert key rid ((k, r) ∷ es) =
    let rest = upsert key rid es in
    if lt k key
    then (k, r) ∷ rest
    else if same k key
    then (key, rid) ∷ es
    else (key, rid) ∷ ((k, r) ∷ es)

unfoldable pub erase : Key → Entries → Entries
erase key [] = []
erase key ((k, r) ∷ es) = let rest = erase key es in if same k key then es else (k, r) ∷ rest

-- The same on the items of a tree.
abbrev pub is_row : Key → Item → Bool
is_row key (sep k) = false
is_row key (row k r) = same k key

unfoldable pub upsert_items : Key → RowId → List Item → List Item
upsert_items key rid [] = row key rid ∷ []
upsert_items key rid (x ∷ xs) =
    let rest = upsert_items key rid xs in
    if item_lt x (row key rid)
    then x ∷ rest
    else if is_row key x
    then row key rid ∷ xs
    else row key rid ∷ (x ∷ xs)

unfoldable pub erase_items : Key → List Item → List Item
erase_items key [] = []
erase_items key (x ∷ xs) = let rest = erase_items key xs in if is_row key x then xs else x ∷ rest

abbrev pub Lacks : Key → List Item → Type 0
Lacks key xs = All (λ x. is_row key x ≡ false) xs

abbrev pub Under : Key → RowId → List Item → Type 0
Under key rid xs = All (λ x. item_lt x (row key rid) ≡ true) xs

-- A search, a deletion and an insertion that pass over what does not concern them.
pub find_front :
    (key : Key) (xs ys : List Item)
    → Lacks key xs
    → find key (rows_of (xs ++ ys)) ≡ find key (rows_of ys)
unfolding find rows_of
find_front key [] ys h = refl
find_front key (sep k ∷ xs) ys (a, h) = find_front key xs ys h
find_front key (row k r ∷ xs) ys (a, h) = rw a (find_front key xs ys h)

pub find_back :
    (key : Key) (xs ys : List Item)
    → Lacks key ys
    → find key (rows_of (xs ++ ys)) ≡ find key (rows_of xs)
unfolding find rows_of
find_back key [] [] h = refl
find_back key [] (sep k ∷ ys) (a, h) = find_back key [] ys h
find_back key [] (row k r ∷ ys) (a, h) = rw a (find_back key [] ys h)
find_back key (sep k ∷ xs) ys h = find_back key xs ys h
find_back key (row k r ∷ xs) ys h = elim (Bool-cases (same k key)) [
  | inl e ↦ rw e refl
  | inr e ↦ rw e (find_back key xs ys h)
]

pub erase_front :
    (key : Key) (xs ys : List Item)
    → Lacks key xs
    → erase_items key (xs ++ ys) ≡ xs ++ erase_items key ys
unfolding erase_items
erase_front key [] ys h = refl
erase_front key (x ∷ xs) ys (a, h) = rw a (ap (λ l. x ∷ l) (erase_front key xs ys h))

pub erase_none : (key : Key) (ys : List Item) → Lacks key ys → erase_items key ys ≡ ys
unfolding erase_items
erase_none key [] h = refl
erase_none key (y ∷ ys) (a, h) = rw a (ap (λ l. y ∷ l) (erase_none key ys h))

pub erase_back :
    (key : Key) (xs ys : List Item)
    → Lacks key ys
    → erase_items key (xs ++ ys) ≡ erase_items key xs ++ ys
unfolding erase_items
erase_back key [] ys h = erase_none key ys h
erase_back key (x ∷ xs) ys h = elim (Bool-cases (is_row key x)) [
  | inl e ↦ rw e refl
  | inr e ↦ rw e (ap (λ l. x ∷ l) (erase_back key xs ys h))
]

pub upsert_front :
    (key : Key) (rid : RowId) (xs ys : List Item)
    → Under key rid xs
    → upsert_items key rid (xs ++ ys) ≡ xs ++ upsert_items key rid ys
unfolding upsert_items
upsert_front key rid [] ys h = refl
upsert_front key rid (x ∷ xs) ys (a, h) = rw a (ap (λ l. x ∷ l) (upsert_front key rid xs ys h))

pub unequal : (o : Ordering) → is_less o ≡ true → is_equal o ≡ false
unequal Ordering.lt h = refl
unequal Ordering.eq h = ground arith
unequal Ordering.gt h = ground arith

pub Under-Lacks : (key : Key) (rid : RowId) (xs : List Item) → Under key rid xs → Lacks key xs
Under-Lacks key rid [] h = tt
Under-Lacks key rid (sep k ∷ xs) (a, h) = (refl, Under-Lacks key rid xs h)
Under-Lacks key rid (row k r ∷ xs) (a, h) =
    (unequal (compare_bytes k key) a, Under-Lacks key rid xs h)

pub Above-Lacks : (key : Key) (rid : RowId) (xs : List Item) → Below (row key rid) xs → Lacks key xs
Above-Lacks key rid [] h = tt
Above-Lacks key rid (sep k ∷ xs) (a, h) = (refl, Above-Lacks key rid xs h)
Above-Lacks key rid (row k r ∷ xs) (a, h) =
    (is_equal-lt k key (lt_asym key k a) ∙ ap not a, Above-Lacks key rid xs h)

above_false :
    (key : Key) (rid : RowId) (y : Item)
    → item_lt (row key rid) y ≡ true
    → item_lt y (row key rid) ≡ false
above_false key rid y h = elim (Bool-cases (item_lt y (row key rid))) [
  | inl e ↦
      absurd (ground (arith, sym (lt_irrefl key) ∙ item_lt_trans (row key rid) y (row key rid) h e))
  | inr e ↦ e
]

upsert_first :
    (key : Key) (rid : RowId) (ys : List Item)
    → Below (row key rid) ys
    → upsert_items key rid ys ≡ row key rid ∷ ys
unfolding upsert_items
upsert_first key rid [] h = refl
upsert_first key rid (y ∷ ys) (a, h) =
    rw (above_false key rid y a) (rw (Above-Lacks key rid (y ∷ ys) (a, h)).0 refl)

pub upsert_back :
    (key : Key) (rid : RowId) (xs ys : List Item)
    → Below (row key rid) ys
    → upsert_items key rid (xs ++ ys) ≡ upsert_items key rid xs ++ ys
unfolding upsert_items
upsert_back key rid [] ys h = upsert_first key rid ys h
upsert_back key rid (x ∷ xs) ys h = elim (Bool-cases (item_lt x (row key rid))) [
  | inl e ↦ rw e (ap (λ l. x ∷ l) (upsert_back key rid xs ys h))
  | inr e ↦ elim (Bool-cases (is_row key x)) [
    | inl e' ↦ rw e (rw e' refl)
    | inr e' ↦ rw e (rw e' refl)
  ]
]
