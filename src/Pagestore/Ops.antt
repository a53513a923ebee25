-- ===== src/Pagestore/Ops.antt =====
-- internal/pagestore/pagestore.go: the operations on an open store, but for checkpoints.
-- An operation takes the store and the file, and returns its result with both as it left them.
use scutedb.Base.{leb, ◌==◌, if◌then◌else◌}
use scutedb.Base.{lookup}
use scutedb.Base.{insert, delete}
use scutedb.Base.{unsnoc, Result, ok, err, ℕ}
use scutedb.Base.{◌+◌}
use scutedb.Base.{Bool}
use scutedb.Base.{true, false, ◌||◌, Option, none, some, List}
use scutedb.Base.{[], ◌∷◌, ◌++◌}
use scutedb.Base.State.{M, ◌>>◌, pure, fail, lift}
use scutedb.Fileio.{File}
use scutedb.Page.{Page, get_id}
use scutedb.Page
use scutedb.Pagestore.Types.{meta_page, no_page, max_pages}
use scutedb.Pagestore.Types.{Error, Stats, PageState, Store}
use scutedb.Pagestore.Types.{bad_page_id, free_meta, free_root, double_free, not_allocated, full}
use scutedb.Pagestore.Types.{page}
use scutedb.Pagestore.Types.{PageState, Error}
use scutedb.Pagestore.Format.{grow_to}

abbrev pub Outcome : Type 0 → Type 0 → Type 0
Outcome F A = Result Error A × Store × F

-- `usable`: a poisoned store answers with its first error, a closed one with ErrClosed.
abbrev pub usable_by : Option Error → Bool → Result Error (Unit {0})
usable_by (some e) c = err (Error.poisoned e)
usable_by none true = err Error.closed
usable_by none false = ok tt

unfoldable pub usable : Store → Result Error (Unit {0})
usable s = usable_by s.poisoned s.closed

unfoldable pub in_range : Store → ℕ → Result Error (Unit {0})
in_range s id = if id == meta_page || leb s.next_page id then err bad_page_id else ok tt

abbrev pub unmarked : Option PageState → Result Error (Unit {0})
unmarked (some st) = err not_allocated
unmarked none = ok tt

unfoldable pub owned : Store → ℕ → Result Error (Unit {0})
unfolding in_range
owned s id =
    if id == meta_page || leb s.next_page id then err bad_page_id else unmarked (lookup id s.status)

-- `poison`: the first error stays.
abbrev pub first_error : Option Error → Error → Error
first_error (some e) e' = e
first_error none e' = e'

unfoldable pub poison : Store → Error → Error × Store
poison s e = (Error.poisoned e, record s { poisoned = some (first_error s.poisoned e) })

-- The guards of an operation, in order: the first that fails is its result.
abbrev pub guards : Result Error (Unit {0}) → Result Error (Unit {0}) → Result Error (Unit {0})
guards (ok u) g = g
guards (err e) g = err e

abbrev pub root_guard : Store → ℕ → Result Error (Unit {0})
root_guard s id = if id == no_page then ok tt else owned s id

abbrev pub when_ok : {A B : Type 0} → Result Error A → B → (Error → B) → B
when_ok (ok u) b h = b
when_ok (err e) b h = h e

unfoldable pub set_root : Store → ℕ → Result Error (Unit {0}) × Store
set_root s id =
    when_ok (guards (usable s) (root_guard s id)) (ok tt, record s { root = id; dirty = true })
      (λ e. (err e, s))

-- `Free` gives the page the mark `pending`; a page that is marked already is refused.
abbrev pub free_guard : Store → ℕ → Option PageState → Result Error (Unit {0})
free_guard s id (some PageState.free_list) = err not_allocated
free_guard s id (some PageState.free) = err double_free
free_guard s id (some PageState.pending) = err double_free
free_guard s id none = if id == s.root then err free_root else ok tt

abbrev pub free_guards : Store → ℕ → Result Error (Unit {0})
free_guards s id =
    if id == meta_page
    then err free_meta
    else guards (in_range s id) (free_guard s id (lookup id s.status))

unfoldable pub free : Store → ℕ → Result Error (Unit {0}) × Store
free s id =
    when_ok (guards (usable s) (free_guards s id))
      (
        ok tt,
        record s {
          pending = s.pending ++ (id ∷ []);
          status = insert id PageState.pending s.status;
          dirty = true;
          stats = record (s.stats) { freed = s.stats.freed + 1 };
        },
      )
      (λ e. (err e, s))

-- A page that no list holds: the next id, with the counts behind it, and whether the file grew.
pub record Fresh : Type 0 where
  pub id : ℕ
  pub next_page : ℕ
  pub file_pages : ℕ
  pub grew : ℕ

-- What a step on the file makes of the store: `good` where it succeeds, `bad` where it fails.
abbrev pub settle :
    {F A B : Type 0} → Result Error A × F → (A → B) → (A → Store) → Store → Outcome F B
settle (ok a, w) value good bad = (ok (value a), good a, w)
settle (err e, w) value good bad = (err e, bad, w)

abbrev pub poison_on : {F A : Type 0} → Store → Result Error A × F → Outcome F A
poison_on s (ok a, w) = (ok a, s, w)
poison_on s (err e, w) = (err (poison s e).0, (poison s e).1, w)

module _ {F : Type 0} (f : File F) where
  -- The part that Allocate and checkpoint share: ids run out at MaxPages, and the file grows by a
  -- chunk when it holds no page of that id.
  unfoldable pub fresh_page : ℕ → ℕ → M Error F Fresh
  fresh_page next_page file_pages =
      let grown = grow_to file_pages in
      if leb max_pages next_page
      then fail full
      else if leb file_pages next_page
      then (if leb grown next_page then fail full else do
        lift page (Page.grow f file_pages grown)
        pure (record { id = next_page; next_page = next_page + 1; file_pages = grown; grew = 1 }))
      else pure
          (record { id = next_page; next_page = next_page + 1; file_pages = file_pages; grew = 0 })

  unfoldable pub read : Store → ℕ → M Error F Page
  read s id w =
      when_ok (guards (usable s) (owned s id)) (lift page (Page.read f id) w) (λ e. (err e, w))

  -- For a page of at least four bytes; reading the id of a shorter one would panic.
  unfoldable pub write : Store → Page → F → Outcome F (Unit {0})
  write s p w =
      when_ok (guards (usable s) (owned s (get_id p)))
        (settle (lift page (Page.write f p) w) (λ u. u) (λ _. record s { dirty = true }) s)
        (λ e. (err e, s, w))

  -- The page `id` was taken off the free list, which was `free` and `id`. A failed write puts both
  -- the id and its mark back.
  unfoldable pub reuse : Store → ℕ → List ℕ → ℕ → F → Outcome F Page
  reuse s kind rest id w =
      let taken : Store = record s { free = rest; status = delete id s.status } in
      settle (lift page (Page.write f (Page.new id kind)) w) (λ _. Page.new id kind)
        (λ _. record taken {
          dirty = true;
          stats = record (s.stats) { reused = s.stats.reused + 1 };
        })
        (record taken {
          free = rest ++ (id ∷ []);
          status = insert id PageState.free (delete id s.status);
        })

  -- A page from the end of the file. A failed write takes the counts back.
  abbrev pub extend_with : Store → ℕ → Result Error Fresh × F → Outcome F Page
  extend_with s kind (err e, w) = (err e, s, w)
  extend_with s kind (ok n, w) =
      let grown : Stats = record (s.stats) { grown = s.stats.grown + n.grew } in
      settle (lift page (Page.write f (Page.new n.id kind)) w) (λ _. Page.new n.id kind)
        (λ _. record s {
          next_page = n.next_page;
          file_pages = n.file_pages;
          dirty = true;
          stats = record grown { allocated = s.stats.allocated + 1 };
        })
        s

  abbrev pub allocate_from : Store → ℕ → Option (List ℕ × ℕ) → F → Outcome F Page
  allocate_from s kind (some (rest, id)) w = reuse s kind rest id w
  allocate_from s kind none w = extend_with s kind (fresh_page s.next_page s.file_pages w)

  unfoldable pub allocate : Store → ℕ → F → Outcome F Page
  allocate s kind w =
      when_ok (usable s) (allocate_from s kind (unsnoc s.free) w) (λ e. (err e, s, w))

  unfoldable pub sync : Store → F → Outcome F (Unit {0})
  unfolding poison
  sync s w = when_ok (usable s) (poison_on s (lift page (Page.sync f) w)) (λ e. (err e, s, w))
