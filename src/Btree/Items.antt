-- ===== src/Btree/Items.antt =====
-- What a tree holds from left to right: the keys of its leaves with their rows, and between two
-- subtrees their separator.
use scutedb.Base.{
  ◌≡◌, refl, sym, ap, ◌∙◌, subst, arith, List, [], ◌∷◌, ◌++◌, append_assoc, append-nil, All, Bool,
  true, not,
}
use scutedb.Nodepage.{RowId}
use scutedb.Btree.{Key, Node, Nodes, leaf, internal, nil, cons}
use scutedb.Btree.Keys.{lt, lt_trans, lt-le_trans, le-lt_trans, lt_asym}

pub data Item : Type 0 where
  sep : Key → Item
  row : Key → RowId → Item

-- A separator stands before the row of the same key.
abbrev pub item_lt : Item → Item → Bool
item_lt (sep a) (sep b) = lt a b
item_lt (sep a) (row b r) = not (lt b a)
item_lt (row a q) (sep b) = lt a b
item_lt (row a q) (row b r) = lt a b

pub item_lt_trans : (x y z : Item) → item_lt x y ≡ true → item_lt y z ≡ true → item_lt x z ≡ true
item_lt_trans (sep a) (sep b) (sep c) h k = lt_trans a b c h k
item_lt_trans (sep a) (sep b) (row c r) h k = ground (arith, h, k, lt_trans c a b)
item_lt_trans (sep a) (row b q) (sep c) h k = le-lt_trans a b c (ground (arith, h)) k
item_lt_trans (sep a) (row b q) (row c r) h k =
    ap not (lt_asym a c (le-lt_trans a b c (ground (arith, h)) k))
item_lt_trans (row a p) (sep b) (sep c) h k = lt_trans a b c h k
item_lt_trans (row a p) (sep b) (row c r) h k = lt-le_trans a b c h (ground (arith, k))
item_lt_trans (row a p) (row b q) (sep c) h k = lt_trans a b c h k
item_lt_trans (row a p) (row b q) (row c r) h k = lt_trans a b c h k

abbrev pub Below : Item → List Item → Type 0
Below x ys = All (λ y. item_lt x y ≡ true) ys

-- Every item is below all that follow it.
unfoldable pub IsSorted : List Item → Type 0
IsSorted [] = Unit {0}
IsSorted (x ∷ xs) = Below x xs × IsSorted xs

-- The keys and rows, without the separators.
unfoldable pub rows_of : List Item → List (Key × RowId)
rows_of [] = []
rows_of (sep k ∷ xs) = rows_of xs
rows_of (row k r ∷ xs) = (k, r) ∷ rows_of xs

pub rows_of-append : (xs ys : List Item) → rows_of (xs ++ ys) ≡ rows_of xs ++ rows_of ys
unfolding rows_of
rows_of-append [] ys = refl
rows_of-append (sep k ∷ xs) ys = rows_of-append xs ys
rows_of-append (row k r ∷ xs) ys = ap (λ es. (k, r) ∷ es) (rows_of-append xs ys)

-- A leaf's keys with their rows.
unfoldable pub zip_rows : List Key → List RowId → List Item
zip_rows [] rows = []
zip_rows (k ∷ ks) [] = []
zip_rows (k ∷ ks) (r ∷ rs) = row k r ∷ zip_rows ks rs

-- The items of a node, and those of children with the separators between them.
unfoldable mutual
  unfolding zip_rows

  pub items : Node → List Item
  items (leaf addr keys rows next) = zip_rows keys rows
  items (internal keys children) = items_among children keys

  pub items_among : Nodes → List Key → List Item
  items_among nil keys = []
  items_among (cons c cs) [] = items c ++ items_among cs []
  items_among (cons c cs) (k ∷ ks) = items c ++ (sep k ∷ items_among cs ks)

pub All-front : (P : Item → Type 0) (xs ys : List Item) → All P (xs ++ ys) → All P xs
All-front P [] ys h = tt
All-front P (x ∷ xs) ys (a, h) = (a, All-front P xs ys h)

All-back : (P : Item → Type 0) (xs ys : List Item) → All P (xs ++ ys) → All P ys
All-back P [] ys h = h
All-back P (x ∷ xs) ys (a, h) = All-back P xs ys h

-- Parts of a sorted list.
pub IsSorted-append :
    (xs ys : List Item) → IsSorted (xs ++ ys) → IsSorted xs × IsSorted ys × All (λ x. Below x ys) xs
unfolding IsSorted
IsSorted-append [] ys h = (tt, h, tt)
IsSorted-append (x ∷ xs) ys (b, h) =
    let (p, q, r) = IsSorted-append xs ys h in
    (
      (All-front (λ y. item_lt x y ≡ true) xs ys b, p),
      q,
      (All-back (λ y. item_lt x y ≡ true) xs ys b, r),
    )

-- One list may stand for another, in any sorted list, with the same rows.
pub record Moves (xs ys : List Item) : Type 0 where
  pub same_rows : rows_of ys ≡ rows_of xs
  pub keeps : (c d : List Item) → IsSorted (c ++ (xs ++ d)) → IsSorted (c ++ (ys ++ d))

pub Moves-stay : (xs : List Item) → Moves xs xs
Moves-stay xs = record { same_rows = refl; keeps = λ c d h. h }

pub Moves-trans : {xs ys zs : List Item} → Moves xs ys → Moves ys zs → Moves xs zs
Moves-trans h k = record {
  same_rows = k.same_rows ∙ h.same_rows;
  keeps = λ c d s. k.keeps c d (h.keeps c d s);
}

pub Moves-within :
    (a b : List Item) {xs ys : List Item} → Moves xs ys → Moves (a ++ (xs ++ b)) (a ++ (ys ++ b))
Moves-within a b {xs} {ys} h = record {
  same_rows =
      rows_of-append a (ys ++ b)
      ∙ ap (λ es. rows_of a ++ es)
          (rows_of-append ys b ∙ ap (λ es. es ++ rows_of b) h.same_rows ∙ sym (rows_of-append xs b))
      ∙ sym (rows_of-append a (xs ++ b));
  keeps = λ c d s.
      subst IsSorted (regroup c d ys)
        (h.keeps (c ++ a) (b ++ d) (subst IsSorted (sym (regroup c d xs)) s));
}
  where
    regroup : (c d zs : List Item) → (c ++ a) ++ (zs ++ (b ++ d)) ≡ c ++ ((a ++ (zs ++ b)) ++ d)
    regroup c d zs = simp append_assoc refl

All-drop : (P : Item → Type 0) (c d : List Item) (y : Item) → All P (c ++ (y ∷ d)) → All P (c ++ d)
All-drop P [] d y (a, h) = h
All-drop P (x ∷ c) d y (a, h) = (a, All-drop P c d y h)

IsSorted-drop : (c d : List Item) (k : Key) → IsSorted (c ++ (sep k ∷ d)) → IsSorted (c ++ d)
unfolding IsSorted
IsSorted-drop [] d k h = h.1
IsSorted-drop (x ∷ c) d k (b, h) =
    (All-drop (λ y. item_lt x y ≡ true) c d (sep k) b, IsSorted-drop c d k h)

-- A separator may go.
pub Moves-drop : (k : Key) (a b : List Item) → Moves (a ++ (sep k ∷ b)) (a ++ b)
unfolding rows_of
Moves-drop k a b = record {
  same_rows = rows_of-append a b ∙ sym (rows_of-append a (sep k ∷ b));
  keeps = λ c d s.
      subst IsSorted (simp append_assoc refl)
        (IsSorted-drop (c ++ a) (b ++ d) k (subst IsSorted (simp append_assoc refl) s));
}

pub Moves-eq : {xs ys : List Item} → xs ≡ ys → Moves xs ys
Moves-eq {xs} e = subst (Moves xs) e (Moves-stay xs)

-- Behind a separator.
pub Moves-after :
    (a : List Item) (k : Key) {xs ys : List Item}
    → Moves xs ys
    → Moves (a ++ (sep k ∷ xs)) (a ++ (sep k ∷ ys))
Moves-after a k {xs} {ys} h = Moves-trans (Moves-eq (simp append_assoc (simp append-nil refl))) (
    Moves-trans (Moves-within (a ++ (sep k ∷ [])) [] h)
      (Moves-eq (simp append_assoc (simp append-nil refl))))
