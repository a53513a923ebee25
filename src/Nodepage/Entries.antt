-- ===== src/Nodepage/Entries.antt =====
-- The keys, rows and children that a node's cells hold.
use scutedb.Base.{ℕ, ◌+◌, ◌-◌, ◌^◌, ◌<◌, ◌≡◌, sym, append-nil, ap, ap₂, ◌∙◌, arith}
use scutedb.Base.{Bool, true, false, not, leb, ◌==◌, if◌then◌else◌, ok, err}
use scutedb.Base.{
  List, [], ◌∷◌, ◌++◌, length, length-append, take, drop, get_or, take-append_front,
  drop-append_front, get_or-append_front, get_or-append_next,
}
use scutedb.Base.{get_uint, be_bytes, be_uint, length-be_bytes, be_uint-be_bytes}
use scutedb.Page.{get_free_end, Page, kind_btree_leaf}
use scutedb.Nodepage.{
  RowId, slot_size, cell, key_ref, row, is_leaf, suffix_len, key_count, fits, append_cell,
  append_leaf, leaf_suffix, internal_suffix, slot_offset, bad_kind,
}
use scutedb.Nodepage.Cells.{Holds}
use scutedb.Nodepage.Append.{IsGrown, append_cell-Holds}

-- What a leaf's cell says of its key and its row.
entry_key :
    (n : Page) (i : ℕ) (key tail : List ℕ)
    → cell n i ≡ key ++ tail
    → length tail ≡ suffix_len n
    → key_ref n i ≡ key
unfolding key_ref
entry_key n i key tail e size =
    ap (λ c. take (length c - suffix_len n) c) e
    ∙ take-append_front _ key tail (omega (arith, length-append key tail, size))

abbrev row_id : ℕ → ℕ → RowId
row_id p s = record { page = p; slot = s }

abbrev row_of : List ℕ → RowId
row_of t = record { page = get_uint 4 t 0; slot = get_uint 2 t 4 }

abbrev pub row_bytes : RowId → List ℕ
row_bytes r = be_bytes 4 r.page ++ be_bytes 2 r.slot

entry_row :
    (n : Page) (i : ℕ) (key : List ℕ) (r : RowId)
    → cell n i ≡ key ++ row_bytes r
    → r.page < 2 ^ 32
    → r.slot < 2 ^ 16
    → row n i ≡ r
unfolding row
entry_row n i key r e hp hs =
    ap₂ row_id
      (ap (λ t. get_uint 4 t 0) tail_eq
        ∙ be_uint-be_bytes 4 r.page (be_bytes 2 r.slot)
        ∙ omega arith)
      (ap (λ t. get_uint 2 t 4) tail_eq
        ∙ ap (be_uint 2)
            (drop-append_front 4 (be_bytes 4 r.page) (be_bytes 2 r.slot) (length-be_bytes 4 r.page))
        ∙ ap (be_uint 2) (sym (append-nil (be_bytes 2 r.slot)))
        ∙ be_uint-be_bytes 2 r.slot []
        ∙ omega arith)
  where
    size : length (row_bytes r) ≡ 6
    size = omega (
      arith,
      length-append (be_bytes 4 r.page) (be_bytes 2 r.slot),
      length-be_bytes 4 r.page,
      length-be_bytes 2 r.slot,
    )

    tail_eq : drop (length (cell n i) - leaf_suffix) (cell n i) ≡ row_bytes r
    tail_eq =
        ap (λ c. drop (length c - leaf_suffix) c) e
        ∙ drop-append_front _ key (row_bytes r)
            (omega (arith, length-append key (row_bytes r), size))

-- The leaf `q` is the leaf `n` with one more key and row.
pub record IsExtended (n q : Page) (key : List ℕ) (r : RowId) : Type 0 where
  pub more : key_count q ≡ key_count n + 1
  pub still_leaf : is_leaf q ≡ true
  pub last : (key_ref q (key_count n) ≡ key) × (row q (key_count n) ≡ r)
  pub before : (i : ℕ) → i < key_count n → (key_ref q i ≡ key_ref n i) × (row q i ≡ row n i)

fitted : (b : Bool) (A B : Type 0) → (if b then A else B) → b ≡ true → A
fitted true A B x e = x
fitted false A B x e = absurd (ground arith)

pub length-row_bytes : (r : RowId) → length (row_bytes r) ≡ leaf_suffix
length-row_bytes r = omega (
  arith,
  length-append (be_bytes 4 r.page) (be_bytes 2 r.slot),
  length-be_bytes 4 r.page,
  length-be_bytes 2 r.slot,
)

pub suffix-is_leaf : (n : Page) → is_leaf n ≡ true → suffix_len n ≡ leaf_suffix
suffix-is_leaf n e = ap (λ b. if b then leaf_suffix else internal_suffix) e

module _ (n q : Page) (cells : List (List ℕ)) (key : List ℕ) (r : RowId) (h : Holds n cells)
    (hq : Holds q (cells ++ ((key ++ row_bytes r) ∷ []))) (leaf : is_leaf n ≡ true)
    (same : IsGrown n q (length key + length (row_bytes r))) where
  one_more : length (cells ++ ((key ++ row_bytes r) ∷ [])) ≡ key_count n + 1
  one_more = omega (arith, length-append cells ((key ++ row_bytes r) ∷ []), h.counted)

  leaf_still : is_leaf q ≡ true
  leaf_still = ap (λ k. k == kind_btree_leaf) same.same_kind ∙ leaf

  last_cell : cell q (key_count n) ≡ key ++ row_bytes r
  last_cell =
      (hq.held (key_count n) (omega (arith, one_more))).2
      ∙ ap (λ c. get_or (cells ++ ((key ++ row_bytes r) ∷ [])) c []) h.counted
      ∙ get_or-append_next cells (key ++ row_bytes r) []

  cell_before : (i : ℕ) → i < key_count n → cell q i ≡ cell n i
  cell_before i lt =
      let below : i < length cells = omega (arith, h.counted) in
      (hq.held i (omega (arith, one_more))).2
      ∙ get_or-append_front cells _ i [] below
      ∙ sym ((h.held i below).2)

  grown-IsExtended : r.page < 2 ^ 32 → r.slot < 2 ^ 16 → IsExtended n q key r
  unfolding key_ref row
  grown-IsExtended hp hs = record {
    more = hq.counted ∙ one_more;
    still_leaf = leaf_still;
    last = (
      entry_key q (key_count n) key (row_bytes r) last_cell
          (length-row_bytes r ∙ sym (suffix-is_leaf q leaf_still)),
      entry_row q (key_count n) key r last_cell hp hs,
    );
    before = λ i lt. (
      ap₂ (λ c k. take (length c - k) c) (cell_before i lt)
          (suffix-is_leaf q leaf_still ∙ sym (suffix-is_leaf n leaf)),
      ap (λ c. row_of (drop (length c - leaf_suffix) c)) (cell_before i lt),
    );
  }

-- An append to a leaf, as an append of a cell and as one of a key and a row.
pub append_leaf-IsGrown :
    (n : Page) (cells : List (List ℕ)) (key : List ℕ) (r : RowId)
    → Holds n cells
    → is_leaf n ≡ true
    → fits n (length key) ≡ true
    → r.page < 2 ^ 32
    → r.slot < 2 ^ 16
    → (q : Page) × (append_leaf n key r ≡ ok q)
      × Holds q (cells ++ ((key ++ row_bytes r) ∷ []))
      × IsGrown n q (length key + length (row_bytes r))
      × IsExtended n q key r
unfolding append_leaf
append_leaf-IsGrown n cells key r h leaf room hp hs =
    let (q, made, holds, same) =
      fitted
        (leb (slot_offset (length cells) + (slot_size + length key + length (row_bytes r)))
          (get_free_end n))
        _ _ (append_cell-Holds n cells key (row_bytes r) h)
        (ground (arith, h.slots_end, length-row_bytes r)) in
    (
      q,
      ap (λ b. if not b then err bad_kind else append_cell n key (row_bytes r)) leaf ∙ made,
      holds,
      same,
      grown-IsExtended n q cells key r h holds leaf same hp hs,
    )

-- On a leaf that holds these cells, AppendLeaf of a key and a row id for which Fits says that there
-- is room makes a leaf with one more key; its last key and row are those given, and every key and
-- row before it is as it was.
pub append_leaf-reads :
    (n : Page) (cells : List (List ℕ)) (key : List ℕ) (r : RowId)
    → Holds n cells
    → is_leaf n ≡ true
    → fits n (length key) ≡ true
    → r.page < 2 ^ 32
    → r.slot < 2 ^ 16
    → (q : Page) × (append_leaf n key r ≡ ok q) × IsExtended n q key r
append_leaf-reads n cells key r h leaf room hp hs =
    let (q, made, holds, same, more) = append_leaf-IsGrown n cells key r h leaf room hp hs in
    (q, made, more)
