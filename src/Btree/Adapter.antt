-- ===== src/Btree/Adapter.antt =====
-- internal/btree/adapter.go: the tree behind the interface Index, where a missing key is an error.
use scutedb.Base.{ℕ, ◌≡◌, ap, ◌∙◌, Option, none, some, Bool, true, if◌then◌else◌, ok, err}
use scutedb.Base.{Result}
use scutedb.Btree.{Error}
use scutedb.Nodepage.{RowId, is_equal}
use scutedb.Btree.{Key, Tree, get, put, new}
use scutedb.Nodepage.Searching.{compare_bytes_refl}
use scutedb.Btree.Entries.{find, erase}
use scutedb.Btree.Delete.{remove}
use scutedb.Btree.Map.{contents, IsTree, get-find}
use scutedb.Btree.Removal.{remove-IsRemoved}
use scutedb.Btree.Hits.{is_found}
use scutedb.Btree.Lookup.{get-put}
use scutedb.Btree.Scan.{Iterator, scan}

pub record Index : Type 0 where
  pub t : Tree

pub data Fault : Type 0 where
  not_found : Fault
  bad_tree : Error → Fault

abbrev pub index_of : Result Error Tree → Result Fault Index
index_of (ok t) = ok (record { t = t })
index_of (err e) = err (bad_tree e)

unfoldable pub new_index : ℕ → Result Fault Index
unfolding new
new_index order = index_of (new order)

abbrev pub found_or : Option RowId → Result Fault RowId
found_or none = err not_found
found_or (some rid) = ok rid

unfoldable pub index_get : Index → Key → Result Fault RowId
unfolding get
index_get x key = found_or (get x.t key)

unfoldable pub index_put : Index → Key → RowId → Result Fault Bool × Index
unfolding put
index_put x key rid = (ok true, record { t = put x.t key rid })

abbrev pub deleted_or : Bool × Tree → Result Fault Bool × Index
deleted_or (hit, t) = (if hit then ok true else err not_found, record { t = t })

unfoldable pub index_delete : Index → Key → Result Fault Bool × Index
unfolding remove
index_delete x key = deleted_or (remove x.t key)

unfoldable pub index_scan : Index → Key → Option Key → Result Fault Iterator
unfolding scan
index_scan x from to = ok (scan x.t from to)

-- What the interface promises of a look-up: ErrNotFound for a missing key, else the key's row.
abbrev pub Gets : Index → Key → Result Fault RowId → Type 0
Gets x key r =
    (find key (contents x.t) ≡ none → r ≡ err not_found)
    × ((rid : RowId) → find key (contents x.t) ≡ some rid → r ≡ ok rid)

-- What the interface promises of a deletion.
abbrev pub Deletes : Index → Key → Result Fault Bool × Index → Type 0
Deletes x key (r, y) =
    (r ≡ (if is_found (find key (contents x.t)) then ok true else err not_found))
    × (contents y.t ≡ erase key (contents x.t))
    × IsTree y.t

-- On a tree in order, Get of the index is ErrNotFound where no entry has the key, and the row of
-- the entry otherwise; Delete
-- is ErrNotFound just when the key is missing, takes it out of the tree otherwise, and changes no
-- entry when it fails; and Put makes Get find the row.
pub index_missing :
    (x : Index) (key : Key) (rid : RowId)
    → IsTree x.t
    → Gets x key (index_get x key)
      × Deletes x key (index_delete x key)
      × (index_get (index_put x key rid).1 key ≡ ok rid)
unfolding index_get index_put index_delete
index_missing x key rid h =
    let gone = remove-IsRemoved x.t key h in
    (
      (
        λ miss. ap found_or (get-find x.t key h ∙ miss),
        λ r hit. ap found_or (get-find x.t key h ∙ hit),
      ),
      (ap (λ b. if b then ok true else err not_found) gone.says, gone.without, gone.tree),
      ap found_or (get-put x.t key key rid h)
          ∙ ap (λ (b : Bool). found_or (if b then some rid else get x.t key))
              (ap is_equal (compare_bytes_refl key)),
    )
