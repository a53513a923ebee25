-- ===== src/Pagestore/Types.antt =====
-- The types and constants of internal/pagestore/pagestore.go.
use scutedb.Base.{ℕ, ◌+◌, ◌-◌, ◌/◌, List, [], ◌∷◌, Option, Bool}
use scutedb.Fileio.Touch.{page_size}
use scutedb.Page.{header_size}
use scutedb.Page

abbrev pub version : ℕ
version = 1

abbrev pub meta_page : ℕ
meta_page = 0

abbrev pub no_page : ℕ
no_page = 0

abbrev pub chunk_pages : ℕ
chunk_pages = 16

abbrev pub max_pages : ℕ
max_pages = 0xFFFF_FFFF

abbrev pub magic : List ℕ
magic = b'S' ∷ b'C' ∷ b'U' ∷ b'T' ∷ b'E' ∷ b'D' ∷ b'B' ∷ 0 ∷ []

abbrev pub off_magic : ℕ
off_magic = header_size

abbrev pub off_version : ℕ
off_version = off_magic + 8

abbrev pub off_page_size : ℕ
off_page_size = off_version + 4

abbrev pub off_root : ℕ
off_root = off_page_size + 4

abbrev pub off_free_list : ℕ
off_free_list = off_root + 4

abbrev pub off_free_count : ℕ
off_free_count = off_free_list + 4

abbrev pub off_next_page : ℕ
off_next_page = off_free_count + 4

abbrev pub off_file_pages : ℕ
off_file_pages = off_next_page + 4

abbrev pub off_checkpoint : ℕ
off_checkpoint = off_file_pages + 4

abbrev pub meta_size : ℕ
meta_size = off_checkpoint + 4 - header_size

abbrev pub off_free_list_next : ℕ
off_free_list_next = header_size

abbrev pub free_list_header : ℕ
free_list_header = header_size + 4

abbrev pub free_list_capacity : ℕ
free_list_capacity = (page_size - free_list_header) / 4

-- The sentinel errors, without the text that wraps them. `page` is an error of the page file,
-- `must_poison` the marker of a failed step that leaves the disk in doubt, and `stuck` no error
-- of the program: a loop of the model that ran out of rounds.
pub data Error : Type 0 where
  not_scute_db bad_version bad_page_size bad_page_id : Error
  free_meta free_root double_free not_allocated corrupt closed full : Error
  already_exists foreign_data unexpected_eof stuck : Error
  poisoned must_poison : Error → Error
  page : Page.Error → Error

pub record Meta : Type 0 where
  pub version : ℕ
  pub page_size : ℕ
  pub root : ℕ
  pub free_list_page : ℕ
  pub free_count : ℕ
  pub next_page : ℕ
  pub file_pages : ℕ
  pub checkpoint : ℕ

pub record Stats : Type 0 where
  pub grown : ℕ
  pub allocated : ℕ
  pub reused : ℕ
  pub freed : ℕ
  pub checkpoints : ℕ

pub data PageState : Type 0 where
  free pending free_list : PageState

-- The file `pf` is not a field here: the operations take and return it beside the store.
pub record Store : Type 0 where
  pub durable : Meta
  pub root : ℕ
  pub next_page : ℕ
  pub file_pages : ℕ
  pub free : List ℕ
  pub pending : List ℕ
  pub list_page : List ℕ
  pub status : List (ℕ × PageState)
  pub dirty : Bool
  pub closed : Bool
  pub poisoned : Option Error
  pub stats : Stats

abbrev pub no_stats : Stats
no_stats = record { grown = 0; allocated = 0; reused = 0; freed = 0; checkpoints = 0 }
