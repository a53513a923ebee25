-- ===== src/Nodepage/Cells.antt =====
-- The cells of a node: what an append adds, and that it keeps the others.
use scutedb.Base.{ℕ, ◌+◌, ◌^◌, ◌≤◌, ◌<◌, ◌≡◌, ◌∙◌, arith, inl, inr, ◌⊎◌}
use scutedb.Base.{List, [], length, drop, get_or, length-splice, drop-splice_after}
use scutedb.Base.{
  get_uint, put_uint, be_bytes, length-be_bytes, get_uint-put_uint_self, get_uint-put_uint_ne,
}
use scutedb.Fileio.Touch.{page_size}
use scutedb.Page.{Page, get_item_count, get_free_start, get_free_end, set_free_start, set_free_end}
use scutedb.Nodepage.{slot_offset, slot_size, cell_start, cell_length, cell}

-- The page `n` holds these cells, in the order of their slots.
pub record Holds (n : Page) (cells : List (List ℕ)) : Type 0 where
  pub whole_page : length n ≡ page_size
  pub counted : get_item_count n ≡ length cells
  pub slots_end : get_free_start n ≡ slot_offset (length cells)
  pub cells_start : (slot_offset (length cells) ≤ get_free_end n) × (get_free_end n ≤ page_size)
  pub held :
      (i : ℕ)
      → i < length cells
      → (get_free_end n ≤ cell_start n i)
        × (cell_start n i + cell_length n i ≤ page_size)
        × (cell n i ≡ get_or cells i [])

-- The slot and the header's counts, written after the cell's bytes `p`.
abbrev pub with_slot : Page → ℕ → ℕ → ℕ → Page
with_slot p s start size =
    set_free_start (set_free_end (put_uint 2 (put_uint 2 p s start) (s + 2) size) start)
      (s + slot_size)

module _ (p : Page) (s start size : ℕ) (hp : length p ≡ page_size) (low : 24 ≤ s)
    (high : s + 4 ≤ page_size) where
  pub slot-kept :
      (k j : ℕ)
      → ((j + k ≤ s) × (12 ≤ j)) ⊎ (s + 4 ≤ j) ⊎ (j + k ≤ 8)
      → get_uint k (with_slot p s start size) j ≡ get_uint k p j
  slot-kept k j apart =
      get_uint-put_uint_ne k _ 8 j 2 _ (omega arith)
      ∙ get_uint-put_uint_ne k _ 10 j 2 _ (omega arith)
      ∙ get_uint-put_uint_ne k _ (s + 2) j 2 _ (omega arith)
      ∙ get_uint-put_uint_ne k _ s j 2 _ (omega arith)

  pub drop-with_slot : (j : ℕ) → s + 4 ≤ j → drop j (with_slot p s start size) ≡ drop j p
  drop-with_slot j far =
      drop-splice_after _ 8 j (be_bytes 2 _) (rw length-be_bytes (omega arith))
      ∙ drop-splice_after _ 10 j (be_bytes 2 _) (rw length-be_bytes (omega arith))
      ∙ drop-splice_after _ (s + 2) j (be_bytes 2 _) (rw length-be_bytes (omega arith))
      ∙ drop-splice_after p s j (be_bytes 2 _) (rw length-be_bytes (omega arith))

  pub length-with_slot : length (with_slot p s start size) ≡ page_size
  length-with_slot =
      length-splice _ 8 _
      ∙ length-splice _ 10 _
      ∙ length-splice _ (s + 2) _
      ∙ length-splice p s _
      ∙ hp

  pub slot_start : start < 2 ^ 16 → get_uint 2 (with_slot p s start size) s ≡ start
  slot_start h =
      get_uint-put_uint_ne 2 _ 8 s 2 _ (inr (omega arith))
      ∙ get_uint-put_uint_ne 2 _ 10 s 2 _ (inr (omega arith))
      ∙ get_uint-put_uint_ne 2 _ (s + 2) s 2 _ (inl (omega arith))
      ∙ get_uint-put_uint_self 2 p s start (omega arith)
      ∙ omega arith

  pub slot_length : size < 2 ^ 16 → get_uint 2 (with_slot p s start size) (s + 2) ≡ size
  slot_length h =
      get_uint-put_uint_ne 2 _ 8 (s + 2) 2 _ (inr (omega arith))
      ∙ get_uint-put_uint_ne 2 _ 10 (s + 2) 2 _ (inr (omega arith))
      ∙ get_uint-put_uint_self 2 _ (s + 2) size (rw length-splice (omega arith))
      ∙ omega arith

  pub free_end_set : start < 2 ^ 16 → get_free_end (with_slot p s start size) ≡ start
  free_end_set h =
      get_uint-put_uint_ne 2 _ 8 10 2 _ (inr (omega arith))
      ∙ get_uint-put_uint_self 2 _ 10 start (rw length-splice (rw length-splice (omega arith)))
      ∙ omega arith

  pub free_start_set : get_free_start (with_slot p s start size) ≡ s + slot_size
  free_start_set =
      get_uint-put_uint_self 2 _ 8 (s + slot_size)
        (rw length-splice (rw length-splice (rw length-splice (omega arith))))
      ∙ omega arith
