-- ===== src/Pagestore/Verify.antt =====
-- internal/pagestore/pagestore.go: checkFreeSet and verifyLive, the checks on a store's lists. The
-- texts of the errors are left out, and with them what the maps `seen` hold besides their keys.
use scutedb.Base.{ℕ, List, [], ◌∷◌, length, Option, none, some, Bool, true, false, not, ◌&&◌, ◌||◌}
use scutedb.Base.{ltb, leb, ◌==◌, if◌then◌else◌, Result, ok, err, lookup, insert, has}
use scutedb.Pagestore.Types.{Meta, Store, PageState, Error, corrupt, meta_page, no_page}
use scutedb.Pagestore.Ops.{in_range, guards}

-- The first loop of checkFreeSet: no free-list page is the root.
abbrev pub check_lists : Meta → List ℕ → Result Error (Unit {0})
check_lists m [] = ok tt
check_lists m (id ∷ ids) =
    let rest = check_lists m ids in
    if id == m.root && not (m.root == no_page) then err corrupt else rest

-- The second: each entry is a page handed out, on no list so far, and not the root.
abbrev pub check_entries : Meta → List ℕ → List ℕ → Result Error (Unit {0})
check_entries m seen [] = ok tt
check_entries m seen (id ∷ ids) =
    let rest = check_entries m (id ∷ seen) ids in
    if id == meta_page || leb m.next_page id
    then err corrupt
    else if has id seen
    then err corrupt
    else if id == m.root
    then err corrupt
    else rest

unfoldable pub check_free_set : Meta → List ℕ → List ℕ → Result Error (Unit {0})
check_free_set m entries lists = guards (check_lists m lists) (check_entries m lists entries)

-- Any error of a check, as ErrCorrupt.
abbrev pub as_corrupt : Result Error (Unit {0}) → Result Error (Unit {0})
as_corrupt (ok u) = ok u
as_corrupt (err e) = err corrupt

abbrev pub unmarked_root : Option PageState → Result Error (Unit {0})
unmarked_root none = ok tt
unmarked_root (some st) = err corrupt

abbrev pub check_root : Store → Result Error (Unit {0})
check_root s =
    if s.root == no_page
    then ok tt
    else guards (as_corrupt (in_range s s.root)) (unmarked_root (lookup s.root s.status))

-- The free-list pages in memory and on disk: as many, and each the same.
abbrev pub same_ids : List ℕ → List ℕ → Bool
same_ids [] [] = true
same_ids [] (y ∷ ys) = false
same_ids (x ∷ xs) [] = false
same_ids (x ∷ xs) (y ∷ ys) = (x == y) && same_ids xs ys

abbrev pub check_same : List ℕ → List ℕ → Result Error (Unit {0})
check_same xs ys = if same_ids xs ys then ok tt else err corrupt

abbrev pub is_state : PageState → PageState → Bool
is_state PageState.free PageState.free = true
is_state PageState.free st = false
is_state PageState.pending PageState.pending = true
is_state PageState.pending st = false
is_state PageState.free_list PageState.free_list = true
is_state PageState.free_list st = false

-- `s.status[id] == want`, where a page without a mark has Go's zero value.
abbrev pub is_marked : Option PageState → PageState → Bool
is_marked none want = false
is_marked (some st) want = is_state st want

abbrev pub is_some : Option PageState → Bool
is_some none = false
is_some (some st) = true

abbrev pub Seen : Type 0
Seen = List (ℕ × PageState)

abbrev pub in_list : Store → ℕ → Bool
in_list s id = not (id == meta_page) && ltb id s.next_page

-- `record`: the ids are in range, on no list so far, and marked as the list says.
unfoldable pub record_ids : Store → PageState → Seen → List ℕ → Result Error Seen
record_ids s want seen [] = ok seen
record_ids s want seen (id ∷ ids) =
    let rest = record_ids s want (insert id want seen) ids in
    if not (in_list s id)
    then err corrupt
    else if is_some (lookup id seen)
    then err corrupt
    else if not (is_marked (lookup id s.status) want)
    then err corrupt
    else rest

abbrev pub then_record : Store → PageState → List ℕ → Result Error Seen → Result Error Seen
then_record s want ids (ok seen) = record_ids s want seen ids
then_record s want ids (err e) = err e

abbrev pub record_all : Store → Result Error Seen
record_all s =
    then_record s PageState.free_list s.list_page
      (then_record s PageState.pending s.pending (record_ids s PageState.free [] s.free))

-- A page of the map `status` that is on no list.
abbrev pub all_listed : Seen → Seen → Result Error (Unit {0})
all_listed seen [] = ok tt
all_listed seen ((id, st) ∷ status) =
    let rest = all_listed seen status in if is_some (lookup id seen) then rest else err corrupt

abbrev pub check_listed : Store → Result Error Seen → Result Error (Unit {0})
check_listed s (ok seen) =
    if length seen == length s.status then ok tt else all_listed seen s.status
check_listed s (err e) = err e

-- What is reusable now was free at the last checkpoint.
abbrev pub check_reusable : List ℕ → List ℕ → Result Error (Unit {0})
check_reusable entries [] = ok tt
check_reusable entries (id ∷ ids) =
    let rest = check_reusable entries ids in if has id entries then rest else err corrupt

abbrev pub check_counts : Store → ℕ → Result Error (Unit {0})
check_counts s on_disk =
    if ltb s.next_page s.durable.next_page
    then err corrupt
    else if ltb s.file_pages s.next_page || ltb on_disk s.file_pages
    then err corrupt
    else ok tt

unfoldable pub verify_live : Store → ℕ → List ℕ → List ℕ → Result Error (Unit {0})
unfolding record_ids
verify_live s on_disk entries lists = guards (check_counts s on_disk) (
    guards (check_root s) (
      guards (check_same s.list_page lists)
        (guards (check_listed s (record_all s)) (check_reusable entries s.free))))

abbrev pub same_meta : Meta → Meta → Bool
same_meta m n =
    (m.version == n.version)
    && (m.page_size == n.page_size)
    && (m.root == n.root)
    && (m.free_list_page == n.free_list_page)
    && (m.free_count == n.free_count)
    && (m.next_page == n.next_page)
    && (m.file_pages == n.file_pages)
    && (m.checkpoint == n.checkpoint)
