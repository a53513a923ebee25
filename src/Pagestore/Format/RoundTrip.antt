-- ===== src/Pagestore/Format/RoundTrip.antt =====
-- What decodeMeta reads from a page that encodeMeta wrote.
use scutedb.Base.{ℕ, ◌^◌, ◌<◌, ◌≡◌, refl, ◌∙◌, arith, [], ◌++◌, Result, ok, err, length}
use scutedb.Base.{
  get_uint, be_uint, be_bytes, be_uint-be_bytes, take, drop, ◌==◌, if◌then◌else◌, Bool, true, false,
  not,
}
use scutedb.Page.{get_id, get_kind, kind_meta}
use scutedb.Fileio.Touch.{page_size}
use scutedb.Pagestore.Types.{version, meta_page, magic, off_magic, off_version, off_page_size}
use scutedb.Pagestore.Types.{
  off_root, off_free_list, off_free_count, off_next_page, off_file_pages, off_checkpoint,
}
use scutedb.Pagestore.Types.{Error, Meta, bad_version}
use scutedb.Pagestore.Types.{bad_page_size}
use scutedb.Pagestore.Format.{encode_meta, decode_meta}

-- Every field fits its 32 bits.
pub record IsFit (m : Meta) : Type 0 where
  pub version_fits : m.version < 2 ^ 32
  pub page_size_fits : m.page_size < 2 ^ 32
  pub root_fits : m.root < 2 ^ 32
  pub free_list_page_fits : m.free_list_page < 2 ^ 32
  pub free_count_fits : m.free_count < 2 ^ 32
  pub next_page_fits : m.next_page < 2 ^ 32
  pub file_pages_fits : m.file_pages < 2 ^ 32
  pub checkpoint_fits : m.checkpoint < 2 ^ 32

word_read : (v : ℕ) → v < 2 ^ 32 → be_uint 4 (be_bytes 4 v ++ []) ≡ v
word_read v h = be_uint-be_bytes 4 v [] ∙ omega arith

-- A page of encodeMeta has the length of a page.
pub length-encode_meta : (m : Meta) → length (encode_meta m) ≡ page_size
unfolding encode_meta be_bytes
length-encode_meta m = refl

magic_read : (m : Meta) → take 8 (drop off_magic (encode_meta m)) ≡ magic
unfolding encode_meta be_bytes
magic_read m = refl

pub kind_read : (m : Meta) → get_kind (encode_meta m) ≡ kind_meta
unfolding encode_meta be_bytes be_uint
kind_read m = refl

pub id_read : (m : Meta) → get_id (encode_meta m) ≡ meta_page
unfolding encode_meta be_bytes be_uint
id_read m = refl

module _ (m : Meta) where
  version_word : get_uint 4 (encode_meta m) off_version ≡ be_uint 4 (be_bytes 4 m.version ++ [])
  unfolding encode_meta be_bytes be_uint
  version_word = refl

  page_size_word :
      get_uint 4 (encode_meta m) off_page_size ≡ be_uint 4 (be_bytes 4 m.page_size ++ [])
  unfolding encode_meta be_bytes be_uint
  page_size_word = refl

  root_word : get_uint 4 (encode_meta m) off_root ≡ be_uint 4 (be_bytes 4 m.root ++ [])
  unfolding encode_meta be_bytes be_uint
  root_word = refl

  free_list_page_word :
      get_uint 4 (encode_meta m) off_free_list ≡ be_uint 4 (be_bytes 4 m.free_list_page ++ [])
  unfolding encode_meta be_bytes be_uint
  free_list_page_word = refl

  free_count_word :
      get_uint 4 (encode_meta m) off_free_count ≡ be_uint 4 (be_bytes 4 m.free_count ++ [])
  unfolding encode_meta be_bytes be_uint
  free_count_word = refl

  next_page_word :
      get_uint 4 (encode_meta m) off_next_page ≡ be_uint 4 (be_bytes 4 m.next_page ++ [])
  unfolding encode_meta be_bytes be_uint
  next_page_word = refl

  file_pages_word :
      get_uint 4 (encode_meta m) off_file_pages ≡ be_uint 4 (be_bytes 4 m.file_pages ++ [])
  unfolding encode_meta be_bytes be_uint
  file_pages_word = refl

  checkpoint_word :
      get_uint 4 (encode_meta m) off_checkpoint ≡ be_uint 4 (be_bytes 4 m.checkpoint ++ [])
  unfolding encode_meta be_bytes be_uint
  checkpoint_word = refl

-- decodeMeta reads back what encodeMeta wrote, where every field fits 32 bits: the same meta data
-- if its version and its page size are this build's, and otherwise the error that names the first
-- of the two that is not.
pub decode_meta-encode_meta :
    (m : Meta)
    → IsFit m
    → decode_meta (encode_meta m) ≡ (
        if m.version == version
        then (if m.page_size == page_size then ok m else err bad_page_size)
        else err bad_version)
unfolding decode_meta
decode_meta-encode_meta m h =
    rw
      (
        magic_read m,
        kind_read m,
        id_read m,
        version_word m,
        word_read m.version h.version_fits,
        page_size_word m,
        word_read m.page_size h.page_size_fits,
        root_word m,
        word_read m.root h.root_fits,
        free_list_page_word m,
        word_read m.free_list_page h.free_list_page_fits,
        free_count_word m,
        word_read m.free_count h.free_count_fits,
        next_page_word m,
        word_read m.next_page h.next_page_fits,
        file_pages_word m,
        word_read m.file_pages h.file_pages_fits,
        checkpoint_word m,
        word_read m.checkpoint h.checkpoint_fits,
      )
      (at_versions (m.version == version) (m.page_size == page_size))
  where
    at_versions :
        (a b : Bool)
        → ◌≡◌ {A = Result Error Meta}
            (if not a then err bad_version else if not b then err bad_page_size else ok m)
            (if a then (if b then ok m else err bad_page_size) else err bad_version)
    at_versions true true = refl
    at_versions true false = refl
    at_versions false b = refl
