-- ===== src/Nodepage/Append.antt =====
-- What an append adds to the cells of a node, and that it keeps the others.
use scutedb.Base.{if-cases}
use scutedb.Base.{ℕ, ◌+◌, ◌-◌, ◌≤◌, ◌<◌, ◌≡◌, refl, sym, ap, ap₂, ◌∙◌, arith, subst, inl, inr}
use scutedb.Base.{Bool, true, false, ltb, leb, if◌then◌else◌, ok, err, Bool-cases, ltb→lt, ltb→ge}
use scutedb.Base.{
  List, [], ◌∷◌, ◌++◌, length, length-append, take, drop, get_or, splice, length-splice,
  drop-splice_self, drop-splice_after, splice-splice, take-append_front, get_or-append_front,
  get_or-append_next,
}
use scutedb.Base.{
  get_uint, be_bytes, length-be_bytes, get_uint-put_uint_self, get_uint-put_uint_ne,
  get_uint-splice_ne,
}
use scutedb.Fileio.Touch.{page_size}
use scutedb.Nodepage.Validate.{cell_bounds}
use scutedb.Nodepage.{off_pad, get_level, get_link}
use scutedb.Page.{get_kind, Page, get_item_count, get_free_start, get_free_end, set_item_count}
use scutedb.Nodepage.{
  no_fit, slot_offset, slot_size, cell_start, cell_length, cell, with_cell, append_cell,
}
use scutedb.Nodepage.Cells.{
  Holds, with_slot, slot-kept, drop-with_slot, length-with_slot, slot_start, slot_length,
  free_end_set, free_start_set,
}

module _ (n : Page) (cells : List (List ℕ)) (key tail : List ℕ) (h : Holds n cells)
    (fits : get_free_start n + (slot_size + length key + length tail) ≤ get_free_end n) where
  abbrev start : ℕ
  start = get_free_end n - length key - length tail

  abbrev slot : ℕ
  slot = slot_offset (length cells)

  abbrev size : ℕ
  size = length key + length tail

  abbrev body : Page
  body = splice (splice n start key) (start + length key) tail

  abbrev marked : Page
  marked = with_slot body slot start size

  abbrev done : Page
  done = set_item_count marked (get_item_count marked + 1)

  body_eq : body ≡ splice n start (key ++ tail)
  body_eq = splice-splice n start key tail

  room : (slot + 4 ≤ start) × (start + size ≡ get_free_end n) × (start ≤ page_size)
  room = (
    omega (arith, h.slots_end, h.cells_start),
    omega (arith, h.slots_end, h.cells_start),
    omega (arith, h.slots_end, h.cells_start),
  )

  length-body : length body ≡ page_size
  length-body = length-splice _ _ _ ∙ length-splice n _ _ ∙ h.whole_page

  body_header : (k j : ℕ) → j + k ≤ start → get_uint k body j ≡ get_uint k n j
  body_header k j low =
      get_uint-splice_ne k _ (start + length key) j tail (inl (omega arith))
      ∙ get_uint-splice_ne k n start j key (inl low)

  body_cells : (j : ℕ) → get_free_end n ≤ j → drop j body ≡ drop j n
  body_cells j far =
      drop-splice_after _ (start + length key) j tail (omega (arith, room))
      ∙ drop-splice_after n start j key (omega (arith, room))

  body_new : take size (drop start body) ≡ key ++ tail
  body_new =
      ap (λ (b : Page). take size (drop start b)) body_eq
      ∙ ap (take size) (
          drop-splice_self n start (key ++ tail)
            (omega (arith, length-append key tail, room, h.whole_page, h.cells_start)))
      ∙ take-append_front size (key ++ tail) _ (length-append key tail)

  done_uint : (k j : ℕ) → ((j + k ≤ slot) × (12 ≤ j)) → get_uint k done j ≡ get_uint k n j
  done_uint k j low =
      get_uint-put_uint_ne k marked 6 j 2 _ (inr (omega arith))
      ∙ slot-kept body slot start size length-body (omega arith) (omega (arith, room)) k j (inl low)
      ∙ body_header k j (omega (arith, room))

  drop-done : (j : ℕ) → slot + 4 ≤ j → drop j done ≡ drop j body
  drop-done j far =
      drop-splice_after marked 6 j (be_bytes 2 _) (rw length-be_bytes (omega arith))
      ∙ drop-with_slot body slot start size length-body (omega arith) (omega (arith, room)) j far

  start_written : cell_start done (length cells) ≡ start
  start_written =
      get_uint-put_uint_ne 2 marked 6 slot 2 _ (inr (omega arith))
      ∙ slot_start body slot start size length-body (omega arith) (omega (arith, room))
          (omega (arith, room))

  size_written : cell_length done (length cells) ≡ size
  size_written =
      get_uint-put_uint_ne 2 marked 6 (slot + 2) 2 _ (inr (omega arith))
      ∙ slot_length body slot start size length-body (omega arith) (omega (arith, room))
          (omega (arith, room, h.cells_start))

  done_free_end : get_free_end done ≡ start
  done_free_end =
      get_uint-put_uint_ne 2 marked 6 10 2 _ (inr (omega arith))
      ∙ free_end_set body slot start size length-body (omega arith) (omega (arith, room))
          (omega (arith, room))

  done_free_start : get_free_start done ≡ slot + slot_size
  done_free_start =
      get_uint-put_uint_ne 2 marked 6 8 2 _ (inr (omega arith))
      ∙ free_start_set body slot start size length-body (omega arith) (omega (arith, room))

  done_count : get_item_count done ≡ length cells + 1
  done_count =
      get_uint-put_uint_self 2 marked 6 (get_item_count marked + 1) (
        omega (
          arith,
          length-with_slot body slot start size length-body (omega arith) (omega (arith, room)),
        ))
      ∙ omega (
        arith,
        slot-kept body slot start size length-body (omega arith) (omega (arith, room)) 2 6
            (inr (inr (omega arith))),
        body_header 2 6 (omega (arith, room)),
        h.counted,
        room,
      )

  kept_cell :
      (i : ℕ)
      → i < length cells
      → (get_free_end done ≤ cell_start done i)
        × (cell_start done i + cell_length done i ≤ page_size)
        × (cell done i ≡ get_or cells i [])
  unfolding cell
  kept_cell i lt =
      let s_eq = done_uint 2 (slot_offset i) (omega arith, omega arith) in
      let l_eq = done_uint 2 (slot_offset i + 2) (omega arith, omega arith) in
      let (far, inside, same) = h.held i lt in
      (
        omega (arith, s_eq, far, done_free_end, room),
        omega (arith, s_eq, l_eq, inside),
        ap₂ (λ k (q : Page). take k q) l_eq
              (ap (λ j. drop j done) s_eq
                ∙ drop-done (cell_start n i) (omega (arith, far, room))
                ∙ body_cells (cell_start n i) far)
            ∙ same,
      )

  new_cell :
      (get_free_end done ≤ cell_start done (length cells))
      × (cell_start done (length cells) + cell_length done (length cells) ≤ page_size)
      × (cell done (length cells) ≡ key ++ tail)
  unfolding cell
  new_cell = (
    omega (arith, start_written, done_free_end),
    omega (arith, start_written, size_written, room, h.cells_start),
    ap₂ (λ k (q : Page). take k q) size_written
          (ap (λ j. drop j done) start_written ∙ drop-done start (omega (arith, room)))
        ∙ body_new,
  )

  kept_bounds : (i : ℕ) → i < length cells → cell_bounds done i ≡ cell_bounds n i
  kept_bounds i lt =
      let s_eq = done_uint 2 (slot_offset i) (omega arith, omega arith) in
      let l_eq = done_uint 2 (slot_offset i + 2) (omega arith, omega arith) in
      ap₂ (λ s l. (s, s + l)) s_eq l_eq

  new_bounds : cell_bounds done (length cells) ≡ (get_free_end done, get_free_end n)
  new_bounds =
      ap₂ (λ (s : ℕ) (e : ℕ). (s, e)) (start_written ∙ sym done_free_end)
        (omega (arith, start_written, size_written, room))

  done_kind : get_kind done ≡ get_kind n
  done_kind =
      get_uint-put_uint_ne 1 marked 6 4 2 _ (inl (omega arith))
      ∙ slot-kept body slot start size length-body (omega arith) (omega (arith, room)) 1 4
          (inr (inr (omega arith)))
      ∙ body_header 1 4 (omega (arith, room))

  done-Holds : Holds done (cells ++ ((key ++ tail) ∷ []))
  done-Holds =
      let count : length (cells ++ ((key ++ tail) ∷ [])) ≡ length cells + 1 =
        omega (arith, length-append cells ((key ++ tail) ∷ [])) in
      record {
        whole_page =
            length-splice marked 6 _
            ∙ length-with_slot body slot start size length-body (omega arith) (omega (arith, room));
        counted = done_count ∙ sym count;
        slots_end = omega (arith, done_free_start, count);
        cells_start =
            (omega (arith, done_free_end, count, room), omega (arith, done_free_end, room));
        held = λ i lt. elim (Bool-cases (ltb i (length cells))) [
          | inl e ↦
              let (a, b, c) = kept_cell i (ltb→lt _ _ e) in
              (a, b, c ∙ sym (get_or-append_front cells _ i [] (ltb→lt _ _ e)))
          | inr e ↦
              subst
                (λ j.
                  (get_free_end done ≤ cell_start done j)
                  × (cell_start done j + cell_length done j ≤ page_size)
                  × (cell done j ≡ get_or (cells ++ ((key ++ tail) ∷ [])) j []))
                {x = length cells} (omega (arith, ltb→ge _ _ e, lt, count))
                (
                  new_cell.0,
                  new_cell.1,
                  new_cell.2 ∙ sym (get_or-append_next cells (key ++ tail) []),
                )
        ];
      }

-- An append of `size` bytes keeps the node's kind, level, link and padding, and the places of its
-- cells, and puts the new cell where the free space ended.
pub record IsGrown (n q : Page) (size : ℕ) : Type 0 where
  pub same_kind : get_kind q ≡ get_kind n
  pub same_level : get_level q ≡ get_level n
  pub same_link : get_link q ≡ get_link n
  pub same_pad : get_uint 2 q off_pad ≡ get_uint 2 n off_pad
  pub same_slots : (i : ℕ) → i < get_item_count n → cell_bounds q i ≡ cell_bounds n i
  pub new_slot : cell_bounds q (get_item_count n) ≡ (get_free_end q, get_free_end n)
  pub new_end : get_free_end q + size ≡ get_free_end n
  pub new_start : get_free_start q ≡ get_free_start n + slot_size

-- The page after the append, with `c` for the count of cells before it.
abbrev finished : Page → List ℕ → List ℕ → ℕ → Page
finished n key tail c =
    let start = get_free_end n - length key - length tail in
    let m =
      with_slot (splice (splice n start key) (start + length key) tail) (slot_offset c) start
        (length key + length tail) in
    set_item_count m (get_item_count m + 1)

by_test : (b : Bool) (A B : Type 0) → (b ≡ true → A) → (b ≡ false → B) → (if b then A else B)
by_test true A B f g = f refl
by_test false A B f g = g refl

-- On a page that holds these cells, an append of a cell whose slot and bytes fit the free space
-- between slots and cells makes a page that holds the cells and the new one behind them, with the
-- node's kind, level, link and padding and the places of its cells as they were; every other append is refused.
pub append_cell-Holds :
    (n : Page) (cells : List (List ℕ)) (key tail : List ℕ)
    → Holds n cells
    → (if leb (slot_offset (length cells) + (slot_size + length key + length tail)) (get_free_end n)
        then ((q : Page) × (append_cell n key tail ≡ ok q)
            × Holds q (cells ++ ((key ++ tail) ∷ []))
            × IsGrown n q (length key + length tail))
        else append_cell n key tail ≡ err no_fit)
unfolding append_cell with_cell
append_cell-Holds n cells key tail h =
    by_test
      (leb (slot_offset (length cells) + (slot_size + length key + length tail)) (get_free_end n)) _
      _
      (λ e.
        let fits : get_free_start n + (slot_size + length key + length tail) ≤ get_free_end n =
          ground (arith, h.slots_end) in
        (
          done n cells key tail h fits,
          if-cases (λ r. r ≡ ok (done n cells key tail h fits))
              (ltb (get_free_end n) (get_free_start n + (slot_size + length key + length tail))) _ _
              (λ w. absurd (omega (arith, ltb→lt _ _ w, fits)))
              (λ w. ap (λ c. ok (finished n key tail c)) h.counted),
          done-Holds n cells key tail h fits,
          record {
            same_kind = done_kind n cells key tail h fits;
            same_level = done_uint n cells key tail h fits 2 20 (omega arith, omega arith);
            same_link = done_uint n cells key tail h fits 4 16 (omega arith, omega arith);
            same_pad = done_uint n cells key tail h fits 2 22 (omega arith, omega arith);
            same_slots = λ i lt. kept_bounds n cells key tail h fits i (omega (arith, h.counted));
            new_slot =
                ap (cell_bounds (done n cells key tail h fits)) h.counted
                ∙ new_bounds n cells key tail h fits;
            new_end =
                omega (arith, done_free_end n cells key tail h fits, room n cells key tail h fits);
            new_start = omega (arith, done_free_start n cells key tail h fits, h.slots_end);
          },
        ))
      (λ e. ground (arith, h.slots_end))
