-- ===== src/Nodepage/Validate.antt =====
-- internal/nodepage/nodepage.go: Validate, the checks on a node read from a file. The texts of the
-- errors are left out.
use scutedb.Base.{ℕ, zero, suc, ◌+◌, ◌-◌, ◌*◌, List, [], ◌∷◌, Bool, not, ◌&&◌, ◌||◌, true, false}
use scutedb.Base.{ltb, leb, ◌==◌, if◌then◌else◌, Result, ok, err, compare_bytes, get_uint}
use scutedb.Fileio.Touch.{page_size}
use scutedb.Page.{
  Page, get_kind, get_free_start, get_free_end, kind_btree_leaf, kind_btree_internal,
}
use scutedb.Nodepage.{
  Error, bad_kind, bad_level, invariant, slot_array_start, slot_size, off_pad, is_leaf, get_level,
  key_count, suffix_len, cell_start, cell_length, key_ref, is_less,
}

-- The place of a cell: its first byte, and the one behind it.
abbrev pub Span : Type 0
Span = ℕ × ℕ

abbrev pub cell_bounds : Page → ℕ → Span
cell_bounds n i = (cell_start n i, cell_start n i + cell_length n i)

-- What makes Validate refuse one cell.
abbrev pub is_bad_span : Page → Span → Bool
is_bad_span n s =
    (ltb s.0 (get_free_start n) || ltb page_size s.1 || leb s.1 s.0)
    || ltb (s.1 - s.0) (suffix_len n + 1)

-- The spans of `k` cells from the `i`-th on.
unfoldable pub spans_from : Page → ℕ → ℕ → List Span
spans_from n i zero = []
spans_from n i (suc k) = cell_bounds n i ∷ spans_from n (i + 1) k

abbrev pub any_bad : Page → List Span → Bool
any_bad n [] = false
any_bad n (s ∷ ss) = is_bad_span n s || any_bad n ss

-- sort.Slice by the first byte. It promises no order among spans that begin at the same byte; as
-- none of them is empty then, two such are not adjacent in any order, and Validate refuses them.
abbrev pub insert_span : Span → List Span → List Span
insert_span s [] = s ∷ []
insert_span s (t ∷ ts) = let rest = insert_span s ts in if ltb t.0 s.0 then t ∷ rest else s ∷ t ∷ ts

unfoldable pub sort_spans : List Span → List Span
sort_spans [] = []
sort_spans (s ∷ ss) = insert_span s (sort_spans ss)

-- Each span ends where the next begins, and the last where the page ends.
abbrev pub is_tiled : ℕ → List Span → Bool
is_tiled at [] = at == page_size
is_tiled at (s ∷ ss) = (at == s.0) && is_tiled s.1 ss

-- Each key from the `i`-th on is below the next one, for `k` pairs.
unfoldable pub is_ascending : Page → ℕ → ℕ → Bool
is_ascending n i zero = true
is_ascending n i (suc k) =
    is_less (compare_bytes (key_ref n i) (key_ref n (i + 1))) && is_ascending n (i + 1) k

unfoldable pub check_cells : Page → Result Error (Unit {0})
unfolding spans_from sort_spans is_ascending
check_cells n =
    let spans = spans_from n 0 (key_count n) in
    if any_bad n spans
    then err invariant
    else if not (is_tiled (get_free_end n) (sort_spans spans))
    then err invariant
    else if not (is_ascending n 0 (key_count n - 1))
    then err invariant
    else ok tt

-- The header's fields, against the count of keys.
abbrev pub is_bad_header : Page → Bool
is_bad_header n =
    not (get_uint 2 n off_pad == 0)
    || not (get_free_start n == slot_array_start + key_count n * slot_size)
    || (ltb page_size (get_free_end n) || ltb (get_free_end n) (get_free_start n))

abbrev pub same_bool : Bool → Bool → Bool
same_bool true b = b
same_bool false b = not b

unfoldable pub validate : Page → Result Error (Unit {0})
validate n =
    if not (get_kind n == kind_btree_leaf) && not (get_kind n == kind_btree_internal)
    then err bad_kind
    else if not (same_bool (is_leaf n) (get_level n == 0))
    then err bad_level
    else if is_bad_header n
    then err invariant
    else if key_count n == 0
    then (if get_free_end n == page_size then ok tt else err invariant)
    else check_cells n
