-- ===== src/Pagestore/Load.antt =====
-- internal/pagestore/pagestore.go: from a file to a store: readFreeList, load, openFile, Open and
-- Create behind the opening of the path, and Verify, which reads the file against the store.
pub mod Ends
pub mod Pages
pub mod Chunks
pub mod Chain
pub mod Recorded
pub mod Checks
pub mod Recover
pub mod Written
pub mod Durable
pub mod Synced
pub mod Reopened
use scutedb.Base.{
  ℕ, zero, suc, ◌+◌, ◌*◌, ◌%◌, ◌^◌, List, [], ◌∷◌, ◌++◌, length, take, Option, none, some, Bool,
  true, false, not, ◌&&◌, ◌||◌,
}
use scutedb.Base.{ltb, leb, ◌==◌, if◌then◌else◌, Result, ok, err, has, get_uint}
use scutedb.Base.State.{M, ◌>>=◌, ◌>>◌, bind, pure, fail, lift, wrap}
use scutedb.Fileio.{File, IoError}
use scutedb.Fileio.Touch.{page_size}
use scutedb.Page.{Page, get_kind, get_id, get_item_count, kind_free_list, io}
use scutedb.Page
use scutedb.Pagestore.Types.{
  Meta, Store, PageState, Error, corrupt, stuck, page, unexpected_eof, already_exists, foreign_data,
  not_scute_db, meta_page, no_page, chunk_pages, no_stats, magic, off_magic, off_free_list_next,
  free_list_header, free_list_capacity,
}
use scutedb.Pagestore.Format.{decode_meta, encode_meta, check_meta, equal_bytes}
use scutedb.Pagestore.Ops.{usable}
use scutedb.Pagestore.Checkpoint.{marks, discard}
use scutedb.Pagestore.Create.{create}
use scutedb.Pagestore.Verify.{check_free_set, verify_live, same_meta}

-- The checks on a page of the free list, in order.
abbrev pub check_list_page : Page → ℕ → Result Error (Unit {0})
check_list_page p id =
    if not (get_kind p == kind_free_list)
    then err corrupt
    else if not (get_id p == id)
    then err corrupt
    else if ltb free_list_capacity (get_item_count p)
    then err corrupt
    else ok tt

-- `for i := 0; i < n; i++`, from `i` on.
unfoldable pub page_entries : Page → ℕ → ℕ → List ℕ
page_entries p i zero = []
page_entries p i (suc n) = get_uint 4 p (free_list_header + 4 * i) ∷ page_entries p (i + 1) n

-- A check's result, as a step that changes nothing.
abbrev pub of_result : {S A : Type 0} → Result Error A → M Error S A
of_result r s = (r, s)

-- The store that load makes.
abbrev pub loaded : Meta → List ℕ → List ℕ → Store
loaded m entries lists = record {
  durable = m;
  root = m.root;
  next_page = m.next_page;
  file_pages = m.file_pages;
  free = entries;
  pending = [];
  list_page = lists;
  status = marks entries lists;
  dirty = false;
  closed = false;
  poisoned = none;
  stats = no_stats;
}

abbrev pub all_zero : List ℕ → Bool
all_zero [] = true
all_zero (b ∷ bs) = (b == 0) && all_zero bs

-- What isBlank makes of the bytes read.
abbrev pub blank_read : {F : Type 0} → ℕ → List ℕ × Option IoError × F → Result Error Bool × F
blank_read size (bs, none, w) =
    (if length bs == size then ok (all_zero bs) else err unexpected_eof, w)
blank_read size (bs, some e, w) =
    (if length bs == size then ok (all_zero bs) else err (page (io e)), w)

-- What hasMagic makes of the bytes read, whatever the error.
abbrev pub magic_read : {F : Type 0} → List ℕ × Option IoError × F → Result Error Bool × F
magic_read (bs, e, w) = (ok ((length bs == 8) && equal_bytes bs magic), w)

-- A failed step closes the file, whatever Close answers.
abbrev pub close_failed : {F A : Type 0} → File F → Result Error A × F → Result Error A × F
close_failed f (ok a, w) = (ok a, w)
close_failed f (err e, w) = (err e, (f.close w).1)

-- `if err := fileio.SyncParent(path); err != nil { s.Discard(); return nil, err }`
abbrev pub parent_synced :
    {F : Type 0} → File F → Store → Option IoError × F → Result Error Store × F
parent_synced f s (none, w) = (ok s, w)
parent_synced f s (some e, w) = (err (page (io e)), (discard f s w).2)

module _ {F : Type 0} (f : File F) where
  -- `for id := m.FreeListPage; id != NoPage;`. The map `seen` holds the ids of `lists`. A round puts
  -- a new page below NextPage on `lists`, so that NextPage rounds and one to end are enough.
  unfoldable pub read_chain : Meta → ℕ → ℕ → List ℕ → List ℕ → M Error F (List ℕ × List ℕ)
  read_chain m zero id entries lists = if id == no_page then pure (entries, lists) else fail stuck
  read_chain m (suc fuel) id entries lists =
      let more : M Error F (List ℕ × List ℕ) = (do
        p ← lift page (Page.read f id)
        of_result (check_list_page p id)
        read_chain m fuel (get_uint 4 p off_free_list_next)
            (entries ++ page_entries p 0 (get_item_count p)) (lists ++ (id ∷ []))) in
      if id == no_page
      then pure (entries, lists)
      else if leb m.next_page id
      then fail corrupt
      else if has id lists
      then fail corrupt
      else more

  unfoldable pub read_free_list : Meta → M Error F (List ℕ × List ℕ)
  read_free_list m = do
    r ← read_chain m (suc m.next_page) m.free_list_page [] []
    if length r.0 % 2 ^ 32 == m.free_count then pure r else fail corrupt

  unfoldable pub load : M Error F Store
  load = do
    raw ← lift page (Page.read f meta_page)
    m ← of_result (decode_meta raw)
    on_disk ← lift page (Page.page_count f)
    of_result (check_meta m on_disk)
    r ← read_free_list m
    of_result (check_free_set m r.0 r.1)
    of_result (verify_live (loaded m r.0 r.1) on_disk r.0 r.1)
    lift page (Page.write f (encode_meta m))
    lift page (Page.sync f)
    pure (loaded m r.0 r.1)

  -- `f.Size()`, below the page file.
  abbrev pub file_size : M Error F ℕ
  file_size w = wrap (λ e. page (io e)) (f.size w)

  unfoldable pub is_blank : M Error F Bool
  is_blank = do
    size ← file_size
    if size == 0
        then pure true
        else if ltb (chunk_pages * page_size) size
        then pure false
        else (λ w. blank_read size (f.read_at w size 0))

  unfoldable pub has_magic : M Error F Bool
  has_magic w = magic_read (f.read_at w 8 off_magic)

  -- The store, and whether it is new.
  abbrev pub with_flag : Bool → M Error F Store → M Error F (Store × Bool)
  with_flag b m = do s ← m; pure (s, b)

  abbrev pub too_short : M Error F (Store × Bool)
  too_short = do ours ← has_magic; fail (if ours then corrupt else not_scute_db)

  unfoldable pub open_file : M Error F (Store × Bool)
  open_file = do
    blank ← is_blank
    if blank
        then with_flag true (create f)
        else do size ← file_size; if ltb size page_size then too_short else with_flag false load

  -- Open and Create, from where the path is open. SyncParent syncs the directory and is no code of
  -- the file: the model takes it as an argument.
  unfoldable pub open_path : (F → Option IoError × F) → M Error F Store
  open_path sync_parent = do
    r ← λ w. close_failed f (open_file w)
    λ w. parent_synced f r.0 (sync_parent w)

  abbrev pub occupied : M Error F Store
  occupied = do
    ours ← has_magic
    λ w. (err (if ours then already_exists else foreign_data), (f.close w).1)

  unfoldable pub create_file : (F → Option IoError × F) → M Error F Store
  create_file sync_parent = do
    blank ← λ w. close_failed f (is_blank w)
    if blank
        then (do s ← λ w. close_failed f (create f w); λ w. parent_synced f s (sync_parent w))
        else occupied

  unfoldable pub verify : Store → M Error F (Unit {0})
  verify s = do
    of_result (usable s)
    raw ← lift page (Page.read f meta_page)
    m ← of_result (decode_meta raw)
    of_result (if same_meta m s.durable then ok tt else err corrupt)
    on_disk ← lift page (Page.page_count f)
    of_result (check_meta m on_disk)
    r ← read_free_list m
    of_result (check_free_set m r.0 r.1)
    of_result (verify_live s on_disk r.0 r.1)
