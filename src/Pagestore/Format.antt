-- ===== src/Pagestore/Format.antt =====
-- internal/pagestore/pagestore.go: the bytes of the meta page and of the free-list pages.
pub mod RoundTrip
use scutedb.Base.{
  ℕ, zero, suc, ◌+◌, ◌-◌, ◌*◌, ◌/◌, ◌^◌, List, [], ◌∷◌, ◌++◌, Option, none, some, Bool, true, false,
  not,
}
use scutedb.Base.{
  Result, ok, err, ltb, leb, ◌==◌, ◌&&◌, if◌then◌else◌, length, take, drop, splice, put_uint,
  get_uint, min,
}
use scutedb.Base.State.{pure, fail}
use scutedb.Page.{
  Page, get_id, get_kind, get_item_count, set_item_count, set_free_start, header_size, kind_meta,
  kind_free_list,
}
use scutedb.Page
use scutedb.Fileio.Touch.{page_size}
use scutedb.Pagestore.Types.{
  version, meta_page, no_page, chunk_pages, max_pages, magic, off_magic, off_version, off_page_size,
}
use scutedb.Pagestore.Types.{
  off_root, off_free_list, off_free_count, off_next_page, off_file_pages, off_checkpoint, meta_size,
  off_free_list_next, free_list_header,
}
use scutedb.Pagestore.Types.{
  free_list_capacity, no_stats, Error, Meta, Stats, PageState, Store, not_scute_db, bad_version,
}
use scutedb.Pagestore.Types.{
  bad_page_size, bad_page_id, free_meta, free_root, double_free, not_allocated, corrupt, full,
  already_exists,
}
use scutedb.Pagestore.Types.{unexpected_eof, stuck, must_poison, page}

-- bytes.Equal
abbrev pub equal_bytes : List ℕ → List ℕ → Bool
equal_bytes [] [] = true
equal_bytes [] (y ∷ ys) = false
equal_bytes (x ∷ xs) [] = false
equal_bytes (x ∷ xs) (y ∷ ys) = (x == y) && equal_bytes xs ys

unfoldable pub decode_meta : Page → Result Error Meta
decode_meta p =
    if not (equal_bytes (take 8 (drop off_magic p)) magic)
    then err not_scute_db
    else if not (get_uint 4 p off_version == version)
    then err bad_version
    else if not (get_uint 4 p off_page_size == page_size)
    then err bad_page_size
    else if not (get_kind p == kind_meta)
    then err corrupt
    else if not (get_id p == meta_page)
    then err corrupt
    else ok (record {
      version = get_uint 4 p off_version;
      page_size = get_uint 4 p off_page_size;
      root = get_uint 4 p off_root;
      free_list_page = get_uint 4 p off_free_list;
      free_count = get_uint 4 p off_free_count;
      next_page = get_uint 4 p off_next_page;
      file_pages = get_uint 4 p off_file_pages;
      checkpoint = get_uint 4 p off_checkpoint;
    })

unfoldable pub encode_meta : Meta → Page
unfolding Page.new
encode_meta m =
    let p = Page.new meta_page kind_meta in
    let p = splice p off_magic magic in
    let p = put_uint 4 p off_version m.version in
    let p = put_uint 4 p off_page_size m.page_size in
    let p = put_uint 4 p off_root m.root in
    let p = put_uint 4 p off_free_list m.free_list_page in
    let p = put_uint 4 p off_free_count m.free_count in
    let p = put_uint 4 p off_next_page m.next_page in
    let p = put_uint 4 p off_file_pages m.file_pages in
    let p = put_uint 4 p off_checkpoint m.checkpoint in set_free_start p (header_size + meta_size)

unfoldable pub check_meta : Meta → ℕ → Result Error (Unit {0})
check_meta m pages_on_disk =
    if m.next_page == 0
    then err corrupt
    else if ltb m.file_pages m.next_page
    then err corrupt
    else if ltb pages_on_disk m.file_pages
    then err corrupt
    else if not (m.root == no_page) && leb m.next_page m.root
    then err corrupt
    else ok tt

unfoldable pub pages_for : ℕ → ℕ
pages_for entries = (entries + free_list_capacity - 1) / free_list_capacity

unfoldable pub grow_to : ℕ → ℕ
grow_to file_pages = let g = file_pages + chunk_pages in if ltb max_pages g then max_pages else g

-- `for j, e := range entries[lo:hi] { PutUint32(p[FreeListHeader+4*j:], e) }`, from `j` on.
unfoldable pub put_entries : Page → ℕ → List ℕ → Page
put_entries p j [] = p
put_entries p j (e ∷ es) = put_entries (put_uint 4 p (free_list_header + 4 * j) e) (j + 1) es

-- The `i`-th free-list page: its id, the next one's, and its part of the entries.
unfoldable pub free_list_bytes : ℕ → ℕ → List ℕ → Page
unfolding put_entries
free_list_bytes id next chunk =
    let p = Page.new id kind_free_list in
    let p = put_uint 4 p off_free_list_next next in
    let p = put_entries p 0 chunk in
    let p = set_item_count p (length chunk) in
    set_free_start p (free_list_header + 4 * length chunk)
