-- ===== src/Nodepage.antt =====
-- internal/nodepage/nodepage.go: the layout of B+-tree nodes in pages.
-- A node is its page. Where the program would panic on a slice that leaves the page, which needs a
-- page that no operation here makes, the model takes what there is of it.
pub mod Cells
pub mod Append
pub mod Entries
pub mod Searching
pub mod Validate
pub mod Spans
pub mod Validating
pub mod Accepted
mod Tests
use scutedb.Base.Int.{ℤ, pos, negsuc}
use scutedb.Base.{◌-◌, leb}
use scutedb.Base.{
  ℕ, zero, suc, ◌+◌, ◌-◌, ◌*◌, ◌/◌, ◌%◌, ◌^◌, ◌≤◌, ◌<◌, Bool, true, false, not, ◌&&◌,
}
use scutedb.Base.{
  List, [], ◌∷◌, ◌++◌, length, take, drop, splice, get_uint, put_uint, be_bytes, ltb, leb, ◌==◌,
  if◌then◌else◌,
}
use scutedb.Base.{Result, ok, err, compare_bytes}
use Prim.Native.Nat.{Ordering}
use scutedb.Fileio.Touch.{page_size}
use scutedb.Page.{
  Page, header_size, kind_btree_leaf, kind_btree_internal, get_kind, get_item_count, get_free_start,
  get_free_end, set_item_count, set_free_start, set_free_end,
}
use scutedb.Page

abbrev pub node_header_size : ℕ
node_header_size = 8

abbrev pub slot_size : ℕ
slot_size = 4

abbrev pub slot_array_start : ℕ
slot_array_start = header_size + node_header_size

abbrev pub entry_area : ℕ
entry_area = page_size - slot_array_start

abbrev pub leaf_suffix : ℕ
leaf_suffix = 6

abbrev pub internal_suffix : ℕ
internal_suffix = 4

abbrev pub off_link : ℕ
off_link = header_size

abbrev pub off_level : ℕ
off_level = header_size + 4

abbrev pub off_pad : ℕ
off_pad = header_size + 6

pub data Error : Type 0 where
  no_fit bad_kind bad_level invariant short_page : Error

-- core.RowID
pub record RowId : Type 0 where
  pub page : ℕ
  pub slot : ℕ

unfoldable pub new_leaf : ℕ → Page
new_leaf id = set_free_start (Page.new id kind_btree_leaf) slot_array_start

abbrev pub get_level : Page → ℕ
get_level n = get_uint 2 n off_level

abbrev pub set_level : Page → ℕ → Page
set_level n l = put_uint 2 n off_level l

unfoldable pub new_internal : ℕ → ℕ → Result Error Page
new_internal id level =
    if level == 0
    then err bad_level
    else ok (set_level (set_free_start (Page.new id kind_btree_internal) slot_array_start) level)

unfoldable pub load : Page → Result Error Page
load p =
    if not (length p == page_size)
    then err short_page
    else if not (get_kind p == kind_btree_leaf) && not (get_kind p == kind_btree_internal)
    then err bad_kind
    else ok p

abbrev pub is_leaf : Page → Bool
is_leaf n = get_kind n == kind_btree_leaf

abbrev pub key_count : Page → ℕ
key_count n = get_item_count n

abbrev pub child_count : Page → ℕ
child_count n = if is_leaf n then 0 else key_count n + 1

abbrev pub get_link : Page → ℕ
get_link n = get_uint 4 n off_link

abbrev pub set_link : Page → ℕ → Page
set_link n id = put_uint 4 n off_link id

abbrev pub suffix_len : Page → ℕ
suffix_len n = if is_leaf n then leaf_suffix else internal_suffix

-- `slotOffset` and the two halves of a slot.
abbrev pub slot_offset : ℕ → ℕ
slot_offset i = slot_array_start + i * slot_size

abbrev pub cell_start : Page → ℕ → ℕ
cell_start n i = get_uint 2 n (slot_offset i)

abbrev pub cell_length : Page → ℕ → ℕ
cell_length n i = get_uint 2 n (slot_offset i + 2)

unfoldable pub cell : Page → ℕ → List ℕ
cell n i = take (cell_length n i) (drop (cell_start n i) n)

unfoldable pub key_ref : Page → ℕ → List ℕ
unfolding cell
key_ref n i = take (length (cell n i) - suffix_len n) (cell n i)

unfoldable pub row : Page → ℕ → RowId
unfolding cell
row n i =
    let tail = drop (length (cell n i) - leaf_suffix) (cell n i) in
    record { page = get_uint 4 tail 0; slot = get_uint 2 tail 4 }

unfoldable pub child : Page → ℕ → ℕ
unfolding cell
child n zero = get_link n
child n (suc i) = get_uint 4 (drop (length (cell n i) - internal_suffix) (cell n i)) 0

abbrev pub entry_size : Page → ℕ → ℕ
entry_size n key_len = slot_size + key_len + suffix_len n

-- FreeSpace is an int and may be negative, when nothing fits.
abbrev pub fits : Page → ℕ → Bool
fits n key_len = leb (get_free_start n + entry_size n key_len) (get_free_end n)

-- The cell at the end of the free space, its slot behind the others, and the header's counts.
unfoldable pub with_cell : Page → ℕ → List ℕ → List ℕ → Page
with_cell n start key tail =
    let s = slot_offset (key_count n) in
    let p = splice n start key in
    let p = splice p (start + length key) tail in
    let p = put_uint 2 p s start in
    let p = put_uint 2 p (s + 2) (length key + length tail) in
    let p = set_free_end p start in
    let p = set_free_start p (s + slot_size) in set_item_count p (get_item_count p + 1)

unfoldable pub append_cell : Page → List ℕ → List ℕ → Result Error Page
append_cell n key tail =
    if ltb (get_free_end n) (get_free_start n + (slot_size + length key + length tail))
    then err no_fit
    else ok (with_cell n (get_free_end n - length key - length tail) key tail)

unfoldable pub append_leaf : Page → List ℕ → RowId → Result Error Page
append_leaf n key rid =
    if not (is_leaf n)
    then err bad_kind
    else append_cell n key (be_bytes 4 rid.page ++ be_bytes 2 rid.slot)

unfoldable pub append_internal : Page → List ℕ → ℕ → Result Error Page
append_internal n key c = if is_leaf n then err bad_kind else append_cell n key (be_bytes 4 c)

-- sort.Search: `i, j := 0, n; for i < j { h := (i+j)/2; … }`. The interval at least halves.
unfoldable pub search_loop : (ℕ → Bool) → ℕ → ℕ → ℕ → ℕ
search_loop f zero i j = i
search_loop f (suc fuel) i j =
    let h = (i + j) / 2 in
    let upper = search_loop f fuel (h + 1) j in
    let lower = search_loop f fuel i h in if ltb i j then (if f h then lower else upper) else i

abbrev pub is_less : Ordering → Bool
is_less Ordering.lt = true
is_less Ordering.eq = false
is_less Ordering.gt = false

abbrev pub is_equal : Ordering → Bool
is_equal Ordering.lt = false
is_equal Ordering.eq = true
is_equal Ordering.gt = false

unfoldable pub search : Page → List ℕ → ℕ × Bool
unfolding search_loop key_ref
search n key =
    let i =
      search_loop (λ i. not (is_less (compare_bytes (key_ref n i) key))) (key_count n) 0
        (key_count n) in
    (i, ltb i (key_count n) && is_equal (compare_bytes (key_ref n i) key))

unfoldable pub child_for : Page → List ℕ → ℕ
unfolding search_loop key_ref child
child_for n key =
    child n
      (search_loop (λ i. is_less (compare_bytes key (key_ref n i))) (key_count n) 0 (key_count n))

-- `EntryArea / per`, 0 where `per` is not positive; `fixed` is what an entry takes beside its key.
abbrev pub per_entry : ℕ → ℤ → ℕ
per_entry fixed (pos n) = if leb (fixed + n) 0 then 0 else entry_area / (fixed + n)
per_entry fixed (negsuc n) = if leb fixed (n + 1) then 0 else entry_area / (fixed - (n + 1))

unfoldable pub max_keys : ℕ → ℤ → ℕ
max_keys kind key_len =
    per_entry (slot_size + (if kind == kind_btree_leaf then leaf_suffix else internal_suffix))
      key_len

abbrev pub fanout : ℤ → ℕ
fanout key_len = max_keys kind_btree_internal key_len + 1
