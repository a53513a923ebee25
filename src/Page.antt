-- ===== src/Page.antt =====
-- internal/page/page.go: 4096-byte pages with a 16-byte header, and a file of them.
-- A page is its bytes; ids, kinds and the header's fields are numbers, cut to their width when
-- they are written.
pub mod Header
pub mod Io
pub mod Disk
pub mod Sync
use scutedb.Base.{
  ℕ, zero, suc, ◌+◌, ◌-◌, ◌*◌, ◌/◌, ◌%◌, ◌^◌, List, [], ◌∷◌, ◌++◌, replicate, length, take,
}
use scutedb.Base.{
  Option, none, some, Bool, ltb, leb, ◌==◌, ◌&&◌, not, if◌then◌else◌, Result, ok, err, splice,
  put_uint, get_uint,
}
use scutedb.Base.State.{M, ◌>>=◌, ◌>>◌, pure, wrap, bind}
use scutedb.Fileio.{File, IoError}
use scutedb.Fileio.Touch.{page_size}

abbrev pub header_size : ℕ
header_size = 16

abbrev pub kind_free : ℕ
kind_free = 0

abbrev pub kind_meta : ℕ
kind_meta = 1

abbrev pub kind_heap : ℕ
kind_heap = 2

abbrev pub kind_btree_leaf : ℕ
kind_btree_leaf = 3

abbrev pub kind_btree_internal : ℕ
kind_btree_internal = 4

abbrev pub kind_free_list : ℕ
kind_free_list = 5

abbrev pub off_id : ℕ
off_id = 0

abbrev pub off_kind : ℕ
off_kind = 4

abbrev pub off_flags : ℕ
off_flags = 5

abbrev pub off_item_count : ℕ
off_item_count = 6

abbrev pub off_free_start : ℕ
off_free_start = 8

abbrev pub off_free_end : ℕ
off_free_end = 10

abbrev pub Page : Type 0
Page = List ℕ

abbrev pub get_id : Page → ℕ
get_id p = get_uint 4 p off_id

abbrev pub get_kind : Page → ℕ
get_kind p = get_uint 1 p off_kind

abbrev pub get_flags : Page → ℕ
get_flags p = get_uint 1 p off_flags

abbrev pub get_item_count : Page → ℕ
get_item_count p = get_uint 2 p off_item_count

abbrev pub get_free_start : Page → ℕ
get_free_start p = get_uint 2 p off_free_start

abbrev pub get_free_end : Page → ℕ
get_free_end p = get_uint 2 p off_free_end

abbrev pub set_id : Page → ℕ → Page
set_id p id = put_uint 4 p off_id id

abbrev pub set_kind : Page → ℕ → Page
set_kind p k = put_uint 1 p off_kind k

abbrev pub set_flags : Page → ℕ → Page
set_flags p f = put_uint 1 p off_flags f

abbrev pub set_item_count : Page → ℕ → Page
set_item_count p n = put_uint 2 p off_item_count n

abbrev pub set_free_start : Page → ℕ → Page
set_free_start p n = put_uint 2 p off_free_start n

abbrev pub set_free_end : Page → ℕ → Page
set_free_end p n = put_uint 2 p off_free_end n

unfoldable pub new : ℕ → ℕ → Page
new id kind =
    set_free_end (set_free_start (set_kind (set_id (replicate page_size 0) id) kind) header_size)
      page_size

pub data Error : Type 0 where
  io : IoError → Error
  short_page page_length no_room : Error

-- `p.FreeSpace()` is an int and may be negative, when nothing fits.
unfoldable pub append : Page → List ℕ → Result Error (ℕ × Page)
append p b =
    let at = get_free_start p in
    if ltb (get_free_end p) (at + length b)
    then err no_room
    else let p1 = splice p at b in
      let p2 = set_free_start p1 ((at + length b % 2 ^ 16) % 2 ^ 16) in
      ok (at, set_item_count p2 ((get_item_count p2 + 1) % 2 ^ 16))

abbrev pub max_uint32 : ℕ
max_uint32 = 2 ^ 32 - 1

abbrev pub grow_piece : ℕ
grow_piece = 256

abbrev pub Io : Type 0 → Type 0 → Type 0
Io F A = M Error F A

-- What an operation of the file that returned the error `e`, if any, makes of the caller's result.
abbrev pub finish : {F : Type 0} → Option IoError × F → Result Error (Unit {0}) × F
finish (none, s) = (ok tt, s)
finish (some e, s) = (err (io e), s)

-- What Read makes of the bytes read and the error that came with them.
abbrev pub finish_read : {F : Type 0} → List ℕ × Option IoError × F → Result Error Page × F
finish_read (p, none, s) = (if length p == page_size then ok p else err short_page, s)
finish_read (p, some e, s) = (if length p == page_size then ok p else err (io e), s)

module _ {F : Type 0} (f : File F) where
  unfoldable pub page_count : Io F ℕ
  page_count = do
    size ← λ s. wrap io (f.size s)
    pure (if ltb max_uint32 (size / page_size) then max_uint32 else size / page_size)

  unfoldable pub read : ℕ → Io F Page
  read id s = finish_read (f.read_at s page_size (id * page_size))

  unfoldable pub write : Page → Io F (Unit {0})
  write p s =
      if length p == page_size
      then finish (f.write_at s p (get_id p * page_size))
      else (err page_length, s)

  -- `for at := from; at < to; { … at += step }`, at most 256 pages a round; each round writes a
  -- page at least, so `to - from` rounds are enough.
  pub grow_loop : ℕ → ℕ → ℕ → Io F (Unit {0})
  grow_loop zero at to = pure tt
  grow_loop (suc fuel) at to =
      let step = if ltb grow_piece (to - at) then grow_piece else to - at in
      let round : Io F (Unit {0}) = do
        λ s. finish (f.write_at s (replicate (step * page_size) 0) (at * page_size))
        grow_loop fuel (at + step) to
      in if ltb at to then round else pure tt

  unfoldable pub grow : ℕ → ℕ → Io F (Unit {0})
  unfolding grow_loop
  grow from to = if leb to from then pure tt else grow_loop (to - from) from to

  -- What the sync promises is in Fileio/Held.
  unfoldable pub sync : Io F (Unit {0})
  sync s = finish (f.sync s)

  unfoldable pub close : Io F (Unit {0})
  close s = finish (f.close s)

  unfoldable pub allocate : ℕ → Io F Page
  allocate kind = do n ← page_count; write (new n kind); pure (new n kind)
