-- ===== src/Pagestore/Load/Recorded.antt =====
-- What a checkpoint records: meta data, free list and list pages that agree with one another.
use scutedb.Base.{ℕ, ◌+◌, ◌*◌, ◌%◌, ◌^◌, ◌≤◌, ◌<◌, ◌≡◌, List, length, count}
use scutedb.Fileio.Touch.{page_size}
use scutedb.Pagestore.Types.{Meta, version, max_pages, free_list_capacity}
use scutedb.Pagestore.Checkpoint.{next_list}

pub record IsRecorded (m : Meta) (es ls : List ℕ) : Type 0 where
  pub this_version : m.version ≡ version
  pub this_size : m.page_size ≡ page_size
  pub first_list : m.free_list_page ≡ next_list ls
  pub counted : m.free_count ≡ length es % 2 ^ 32
  pub numbered : m.checkpoint < 2 ^ 32
  pub file_holds : (1 ≤ m.next_page) × (m.next_page ≤ m.file_pages) × (m.file_pages ≤ max_pages)
  pub root_range : m.root < m.next_page
  pub root_live : count m.root es + count m.root ls ≡ 0
  pub once : (id : ℕ) → count id es + count id ls ≤ 1
  pub listed : (id : ℕ) → 1 ≤ count id es + count id ls → (1 ≤ id) × (id < m.next_page)
  pub all_held : length es ≤ length ls * free_list_capacity
