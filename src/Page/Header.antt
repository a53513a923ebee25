-- ===== src/Page/Header.antt =====
-- The header of a new page.
use scutedb.Base.{ℕ, ◌^◌, ◌<◌, ◌≡◌, refl, arith, length, be_bytes, be_uint}
use scutedb.Fileio.Touch.{page_size}
use scutedb.Page.{get_id, get_kind, new}

pub get_id-new : (id kind : ℕ) → id < 2 ^ 32 → get_id (new id kind) ≡ id
unfolding new be_bytes be_uint
get_id-new id kind h = omega arith

pub get_kind-new : (id kind : ℕ) → kind < 256 → get_kind (new id kind) ≡ kind
unfolding new be_bytes be_uint
get_kind-new id kind h = omega arith

pub length-new : (id kind : ℕ) → length (new id kind) ≡ page_size
unfolding new be_bytes
length-new id kind = refl
