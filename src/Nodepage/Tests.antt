-- ===== src/Nodepage/Tests.antt =====
-- The theorems on nodes at a concrete leaf.
use scutedb.Base.{
  ℕ, ◌+◌, ◌≡◌, refl, arith, List, [], ◌∷◌, ◌++◌, true, leb, if◌then◌else◌, ok, err, be_bytes,
  be_uint,
}
use scutedb.Base.{length}
use scutedb.Fileio.Touch.{page_size}
use scutedb.Nodepage.{key_ref, cell}
use scutedb.Nodepage.Validate.{validate, check_cells, spans_from, sort_spans, is_ascending}
use scutedb.Nodepage.Validating.{IsWellFormed, validate-IsWellFormed}
use scutedb.Nodepage.Accepted.{validate-new_leaf, validate-append_leaf}
use scutedb.Page.{Page, new, get_free_end}
use scutedb.Nodepage.{
  RowId, no_fit, new_leaf, slot_offset, slot_size, append_cell, append_leaf, with_cell, search,
  key_count, is_leaf, fits,
}
use scutedb.Nodepage.Cells.{Holds}
use scutedb.Nodepage.Append.{IsGrown, append_cell-Holds}
use scutedb.Nodepage.Entries.{IsExtended, append_leaf-reads}
use scutedb.Nodepage.Searching.{IsSorted, IsFound, search-IsFound}

abbrev key : List ℕ
key = 7 ∷ 9 ∷ []

abbrev rid : RowId
rid = record { page = 12; slot = 3 }

abbrev tail_bytes : List ℕ
tail_bytes = 0 ∷ 0 ∷ 0 ∷ 12 ∷ 0 ∷ 3 ∷ []

empty-Holds : Holds (new_leaf 5) []
unfolding new_leaf new be_bytes be_uint
empty-Holds = record {
  whole_page = refl;
  counted = refl;
  slots_end = refl;
  cells_start = (omega arith, omega arith);
  held = λ i lt. absurd (omega arith);
}

empty-leaf : is_leaf (new_leaf 5) ≡ true
unfolding new_leaf new be_bytes be_uint
empty-leaf = refl

empty-count : key_count (new_leaf 5) ≡ 0
unfolding new_leaf new be_bytes be_uint
empty-count = refl

empty-room : fits (new_leaf 5) 2 ≡ true
unfolding new_leaf new be_bytes be_uint
empty-room = refl

append_cell-Holds_example :
    (if leb (slot_offset 0 + (slot_size + 2 + 6)) (get_free_end (new_leaf 5))
      then ((q : Page) × (append_cell (new_leaf 5) key tail_bytes ≡ ok q)
          × Holds q ((key ++ tail_bytes) ∷ [])
          × IsGrown (new_leaf 5) q 8)
      else append_cell (new_leaf 5) key tail_bytes ≡ err no_fit)
append_cell-Holds_example = append_cell-Holds (new_leaf 5) [] key tail_bytes empty-Holds

append_leaf-reads_example :
    (q : Page) × (append_leaf (new_leaf 5) key rid ≡ ok q) × IsExtended (new_leaf 5) q key rid
append_leaf-reads_example =
    append_leaf-reads (new_leaf 5) [] key rid empty-Holds empty-leaf empty-room (omega arith)
      (omega arith)

abbrev one_key : Page
one_key = with_cell (new_leaf 5) 4088 key tail_bytes

one_key-count : key_count one_key ≡ 1
unfolding new_leaf new be_bytes be_uint with_cell
one_key-count = refl

one_key-IsSorted : IsSorted one_key
unfolding IsSorted
one_key-IsSorted = λ i j ij j1. absurd (omega (arith, one_key-count))

search-IsFound_example : IsFound one_key key (search one_key key)
search-IsFound_example = search-IsFound one_key key one_key-IsSorted

validate-append_leaf_example :
    (q : Page) × (append_leaf (new_leaf 5) key rid ≡ ok q)
    × (length q ≡ page_size)
    × (validate q ≡ ok tt)
    × IsExtended (new_leaf 5) q key rid
validate-append_leaf_example =
    validate-append_leaf (new_leaf 5) key rid (validate-new_leaf 5).1 (validate-new_leaf 5).0
      empty-leaf (omega arith) (λ i lt. absurd (omega (arith, empty-count, lt))) empty-room
      (omega arith) (omega arith)

one_key-valid : validate one_key ≡ ok tt
unfolding validate check_cells new_leaf new be_bytes be_uint with_cell spans_from sort_spans
    is_ascending key_ref cell
one_key-valid = refl

validate-IsWellFormed_example : IsWellFormed one_key
validate-IsWellFormed_example = validate-IsWellFormed one_key one_key-valid
