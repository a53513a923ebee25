-- ===== src/Btree/Leaves.antt =====
-- What Put and Delete make of the entries of a leaf.
use scutedb.Base.{
  ℕ, zero, suc, ◌+◌, ◌≤◌, ◌≡◌, refl, sym, ap, ◌∙◌, arith, List, [], ◌∷◌, ◌++◌, All, Bool, true,
  false, ◌&&◌, if◌then◌else◌, Bool-cases, lt→ltb, length, take, drop, get_or, set, inl, inr,
  compare_bytes,
}
use scutedb.Nodepage.{RowId}
use scutedb.Btree.{Key, insert_elem, leaf_index, is_at, no_row}
use scutedb.Btree.Keys.{lt, is_equal-lt}
use scutedb.Btree.Items.{Item, row, sep, IsSorted, zip_rows, Moves}
use scutedb.Btree.Separator.{IsRow, Below-trans, Moves-add}
use scutedb.Btree.Entries.{same, upsert_items, erase_items, Above-Lacks, erase_none, unequal}
use scutedb.Btree.Delete.{remove_elem}
use scutedb.Btree.Index.{linear_leaf, leaf_index-linear_leaf, leaf-Ascending}
use scutedb.Btree.Descent.{ltb-suc}
use scutedb.Btree.Sorting.{same-eq}

cons-if :
    (b : Bool) (x : Item) (p q : List Item)
    → (if b then x ∷ p else x ∷ q) ≡ x ∷ (if b then p else q)
cons-if true x p q = refl
cons-if false x p q = refl

abbrev pub placed_at : ℕ → List Key → List RowId → Key → RowId → List Item
placed_at i ks rs key rid =
    if is_at ks i key
    then zip_rows ks (set rs i rid)
    else zip_rows (insert_elem i key ks) (insert_elem i rid rs)

linear_put :
    (key : Key) (rid : RowId) (ks : List Key) (rs : List RowId)
    → length rs ≡ length ks
    → placed_at (linear_leaf ks key) ks rs key rid ≡ upsert_items key rid (zip_rows ks rs)
unfolding zip_rows upsert_items insert_elem
linear_put key rid [] [] e = refl
linear_put key rid [] (r ∷ rs) e = absurd (omega (arith, e))
linear_put key rid (k ∷ ks) [] e = absurd (omega (arith, e))
linear_put key rid (k ∷ ks) (r ∷ rs) e = elim (Bool-cases (lt k key)) [
  | inl q ↦ rw q (
      rw (ltb-suc (linear_leaf ks key) (length ks)) (
        cons-if (is_at ks (linear_leaf ks key) key) (row k r) _ _
        ∙ ap (λ l. row k r ∷ l) (linear_put key rid ks rs (omega (arith, e)))))
  | inr q ↦ elim (Bool-cases (same k key)) [
    | inl z ↦ rw q (
        rw z (
          ap
            (λ b.
              if b && true
              then row k rid ∷ zip_rows ks rs
              else row key rid ∷ (row k r ∷ zip_rows ks rs))
            (lt→ltb 0 (suc (length ks)) (omega arith))
          ∙ ap (λ a. row a rid ∷ zip_rows ks rs) (same-eq k key z)))
    | inr z ↦ rw q (
        rw z (
          ap
            (λ b.
              if b && false
              then row k rid ∷ zip_rows ks rs
              else row key rid ∷ (row k r ∷ zip_rows ks rs))
            (lt→ltb 0 (suc (length ks)) (omega arith))))
  ]
]

pub put_leaf :
    (key : Key) (rid : RowId) (ks : List Key) (rs : List RowId)
    → length rs ≡ length ks
    → IsSorted (zip_rows ks rs)
    → placed_at (leaf_index ks key) ks rs key rid ≡ upsert_items key rid (zip_rows ks rs)
put_leaf key rid ks rs e h =
    ap (λ i. placed_at i ks rs key rid) (leaf_index-linear_leaf ks key (leaf-Ascending ks rs e h))
    ∙ linear_put key rid ks rs e

pub remove_elem-suc :
    {A : Type 0} (i : ℕ) (x : A) (xs : List A) → remove_elem (suc i) (x ∷ xs) ≡ x ∷ remove_elem i xs
unfolding remove_elem
remove_elem-suc i x xs =
    ap (λ n. x ∷ (take i xs ++ drop n (x ∷ xs))) {x = suc i + 1} {y = suc (i + 1)} (omega arith)

pub remove_elem-zero : {A : Type 0} (x : A) (xs : List A) → remove_elem 0 (x ∷ xs) ≡ xs
unfolding remove_elem
remove_elem-zero x xs = refl

abbrev pub cut_at : ℕ → List Key → List RowId → Key → List Item
cut_at i ks rs key =
    if is_at ks i key then zip_rows (remove_elem i ks) (remove_elem i rs) else zip_rows ks rs

linear_cut :
    (key : Key) (ks : List Key) (rs : List RowId)
    → length rs ≡ length ks
    → IsSorted (zip_rows ks rs)
    → cut_at (linear_leaf ks key) ks rs key ≡ erase_items key (zip_rows ks rs)
unfolding zip_rows erase_items IsSorted
linear_cut key [] [] e h = refl
linear_cut key [] (r ∷ rs) e h = absurd (omega (arith, e))
linear_cut key (k ∷ ks) [] e h = absurd (omega (arith, e))
linear_cut key (k ∷ ks) (r ∷ rs) e (b, h) = elim (Bool-cases (lt k key)) [
  | inl q ↦ rw q (
      rw (unequal (compare_bytes k key) q) (
        rw (ltb-suc (linear_leaf ks key) (length ks)) (
          rw (remove_elem-suc (linear_leaf ks key) k ks) (
            rw (remove_elem-suc (linear_leaf ks key) r rs) (
              cons-if (is_at ks (linear_leaf ks key) key) (row k r) _ _
              ∙ ap (λ l. row k r ∷ l) (linear_cut key ks rs (omega (arith, e)) h))))))
  | inr q ↦ elim (Bool-cases (same k key)) [
    | inl z ↦ rw q (
        rw z (
          rw (remove_elem-zero k ks) (
            rw (remove_elem-zero r rs) (
              ap (λ b. if b && true then zip_rows ks rs else row k r ∷ zip_rows ks rs)
                (lt→ltb 0 (suc (length ks)) (omega arith))))))
    | inr z ↦
        let less : lt key k ≡ true = ground (arith, is_equal-lt k key q, z) in
        let rest = Below-trans (row key no_row) (row k r) (zip_rows ks rs) less b in
        rw q (
          rw z (
            ap
              (λ b.
                if b && false
                then zip_rows (remove_elem 0 (k ∷ ks)) (remove_elem 0 (r ∷ rs))
                else row k r ∷ zip_rows ks rs)
              (lt→ltb 0 (suc (length ks)) (omega arith))
            ∙ ap (λ l. row k r ∷ l)
                (sym (
                  erase_none key (zip_rows ks rs) (Above-Lacks key no_row (zip_rows ks rs) rest)))))
  ]
]

pub cut_leaf :
    (key : Key) (ks : List Key) (rs : List RowId)
    → length rs ≡ length ks
    → IsSorted (zip_rows ks rs)
    → cut_at (leaf_index ks key) ks rs key ≡ erase_items key (zip_rows ks rs)
cut_leaf key ks rs e h =
    ap (λ i. cut_at i ks rs key) (leaf_index-linear_leaf ks key (leaf-Ascending ks rs e h))
    ∙ linear_cut key ks rs e h

-- A leaf in two, at the entry `i`.
pub zip_rows-split :
    (i : ℕ) (ks : List Key) (rs : List RowId)
    → length rs ≡ length ks
    → zip_rows ks rs ≡ zip_rows (take i ks) (take i rs) ++ zip_rows (drop i ks) (drop i rs)
unfolding zip_rows
zip_rows-split zero ks rs e = refl
zip_rows-split (suc i) [] [] e = refl
zip_rows-split (suc i) [] (r ∷ rs) e = absurd (omega (arith, e))
zip_rows-split (suc i) (k ∷ ks) [] e = absurd (omega (arith, e))
zip_rows-split (suc i) (k ∷ ks) (r ∷ rs) e =
    ap (λ l. row k r ∷ l) (zip_rows-split i ks rs (omega (arith, e)))

pub zip_rows-append :
    (ks kr : List Key) (rs rr : List RowId)
    → length rs ≡ length ks
    → zip_rows (ks ++ kr) (rs ++ rr) ≡ zip_rows ks rs ++ zip_rows kr rr
unfolding zip_rows
zip_rows-append [] kr [] rr e = refl
zip_rows-append [] kr (r ∷ rs) rr e = absurd (omega (arith, e))
zip_rows-append (k ∷ ks) kr [] rr e = absurd (omega (arith, e))
zip_rows-append (k ∷ ks) kr (r ∷ rs) rr e =
    ap (λ l. row k r ∷ l) (zip_rows-append ks kr rs rr (omega (arith, e)))

zip_rows-IsRow : (ks : List Key) (rs : List RowId) → All IsRow (zip_rows ks rs)
unfolding zip_rows
zip_rows-IsRow [] rs = tt
zip_rows-IsRow (k ∷ ks) [] = tt
zip_rows-IsRow (k ∷ ks) (r ∷ rs) = (tt, zip_rows-IsRow ks rs)

-- Between two leaves that are not empty, a separator may be put.
pub Moves-between :
    (ks kr : List Key) (rs rr : List RowId)
    → length rs ≡ length ks
    → length rr ≡ length kr
    → 1 ≤ length ks
    → 1 ≤ length kr
    → Moves
        (zip_rows ks rs ++ zip_rows kr rr)
        (zip_rows ks rs ++ (sep (get_or kr 0 []) ∷ zip_rows kr rr))
unfolding zip_rows
Moves-between [] kr rs rr e f l m = absurd (omega arith)
Moves-between (k ∷ ks) kr [] rr e f l m = absurd (omega (arith, e))
Moves-between (k ∷ ks) [] (r ∷ rs) rr e f l m = absurd (omega arith)
Moves-between (k ∷ ks) (j ∷ kr) (r ∷ rs) [] e f l m = absurd (omega (arith, f))
Moves-between (k ∷ ks) (j ∷ kr) (r ∷ rs) (q ∷ rr) e f l m =
    Moves-add k j r q (zip_rows ks rs) (zip_rows kr rr) (zip_rows-IsRow ks rs)
