-- ===== src/Pagestore/Sound.antt =====
-- The invariant of an open store: every page handed out is in at most one of the three lists, the
-- marks say which, and only pages that were free at the last checkpoint are reused.
pub mod Ops
pub mod Allocate
pub mod Plan
pub mod Checkpoint
use scutedb.Base.{
  ℕ, ◌+◌, ◌≤◌, ◌<◌, ◌≡◌, ◌⊎◌, List, Option, none, some, count, has, lookup, if◌then◌else◌,
}
use scutedb.Pagestore.Types.{Meta, Store, PageState, max_pages}

-- On how many lists the page stands.
abbrev pub tally : Store → ℕ → ℕ
tally s id = count id s.free + count id s.pending + count id s.list_page

-- The mark of a page, by the list that it stands on.
abbrev pub mark_of : List ℕ → List ℕ → List ℕ → ℕ → Option PageState
mark_of free pending lists id =
    if has id free
    then some PageState.free
    else if has id pending
    then some PageState.pending
    else if has id lists
    then some PageState.free_list
    else none

-- `base` is the free list of the last checkpoint.
pub record IsSound (base : List ℕ) (s : Store) : Type 0 where
  pub marks : (id : ℕ) → lookup id s.status ≡ mark_of s.free s.pending s.list_page id
  pub once : (id : ℕ) → tally s id ≤ 1
  pub listed : (id : ℕ) → 1 ≤ tally s id → (1 ≤ id) × (id < s.next_page)
  pub root_range : s.root < s.next_page
  pub root_live : tally s s.root ≡ 0
  pub file_holds : s.next_page ≤ s.file_pages
  pub ids_left : s.file_pages ≤ max_pages
  pub durable_before : s.durable.next_page ≤ s.next_page
  pub reusable : (id : ℕ) → count id s.free ≤ count id base
  pub base_old :
      (id : ℕ)
      → 1 ≤ count id base
      → (1 ≤ id) × (id < s.durable.next_page) × (count id s.list_page ≡ 0)
  pub lists_old : (id : ℕ) → 1 ≤ count id s.list_page → id < s.durable.next_page
  -- Of a store that had a checkpoint.
  pub durable_root :
      1 ≤ s.durable.next_page
      → (s.durable.root < s.durable.next_page) × (count s.durable.root base ≡ 0)

-- The pages that the last checkpoint does not reach: free then, or not handed out then.
abbrev pub Unreached : List ℕ → ℕ → ℕ → Type 0
Unreached base durable_next id = (1 ≤ count id base) ⊎ (durable_next ≤ id)
