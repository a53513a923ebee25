-- ===== src/Nodepage/Accepted.antt =====
-- Validate accepts what appends of ascending keys make.
use scutedb.Base.{
  ℕ, zero, suc, ◌+◌, ◌-◌, ◌^◌, ◌≤◌, ◌<◌, ◌≡◌, refl, sym, ap, ap₂, ◌∙◌, subst, arith, List, [], ◌∷◌,
  ◌++◌, length, get_or, All-append,
}
use scutedb.Base.{true, ltb, ◌==◌, ok, compare_bytes, inl, inr, Bool-cases, ltb→lt, ltb→ge}
use Prim.Native.Nat.{Ordering}
use scutedb.Fileio.Touch.{page_size}
use scutedb.Page.{Page, get_kind, get_free_start, get_free_end, get_item_count}
use scutedb.Base.{◌⊎◌, be_bytes, be_uint}
use scutedb.Page
use scutedb.Nodepage.{new_leaf}
use scutedb.Nodepage.{RowId, cell, key_ref, key_count, is_leaf, fits, append_leaf}
use scutedb.Nodepage.Cells.{Holds}
use scutedb.Nodepage.Append.{IsGrown}
use scutedb.Nodepage.Entries.{
  IsExtended, append_leaf-IsGrown, length-row_bytes, row_bytes, suffix-is_leaf,
}
use scutedb.Nodepage.Searching.{IsSorted}
use scutedb.Nodepage.Validate.{Span, validate, cell_bounds, spans_from, sort_spans, same_bool}
use scutedb.Nodepage.Spans.{
  Tiles, Good, AllGood, AllFrom, tiled-AllFrom, sort_spans-append, spans_from-append,
  spans_from_ext,
}
use scutedb.Nodepage.Validating.{
  IsValid, validate-IsValid, IsValid-validate, IsWellFormed, validate-IsWellFormed, Steps,
  Steps-ascending,
}

-- The node's cells from the `i`-th on.
abbrev cells_from : Page → ℕ → ℕ → List (List ℕ)
cells_from n i zero = []
cells_from n i (suc k) = cell n i ∷ cells_from n (i + 1) k

length-cells_from : (n : Page) (i k : ℕ) → length (cells_from n i k) ≡ k
length-cells_from n i zero = refl
length-cells_from n i (suc k) = ap suc (length-cells_from n (i + 1) k)

get_or-cells_from : (n : Page) (i k j : ℕ) → j < k → get_or (cells_from n i k) j [] ≡ cell n (i + j)
get_or-cells_from n i zero j lt = absurd (omega arith)
get_or-cells_from n i (suc k) zero lt = ap (cell n) {x = i} {y = i + 0} (omega arith)
get_or-cells_from n i (suc k) (suc j) lt =
    get_or-cells_from n (i + 1) k j (omega arith)
    ∙ ap (cell n) {x = i + 1 + j} {y = i + suc j} (omega arith)

-- A node that Validate accepts holds its cells.
IsValid-Holds :
    (n : Page)
    → length n ≡ page_size
    → IsValid n
    → IsWellFormed n
    → Holds n (cells_from n 0 (key_count n))
IsValid-Holds n whole v w =
    let size = length-cells_from n 0 (key_count n) in
    record {
      whole_page = whole;
      counted = sym size;
      slots_end = omega (arith, v.slots_end, size);
      cells_start = (omega (arith, v.slots_end, v.free_range, size), v.free_range.1);
      held = λ i lt.
          let here = w.inside i (omega (arith, size)) in
          (
            here.0,
            here.1,
            ap (cell n) {x = i} {y = 0 + i} (omega arith)
                ∙ sym (get_or-cells_from n 0 (key_count n) i (omega (arith, size))),
          );
    }

AllGood-map :
    (n q : Page) (ss : List Span)
    → ((s : Span) → Good n s → get_free_end n ≤ s.0 → Good q s)
    → AllGood n ss
    → AllFrom (get_free_end n) ss
    → AllGood q ss
AllGood-map n q [] f h k = tt
AllGood-map n q (s ∷ ss) f h k = (f s h.0 k.0, AllGood-map n q ss f h.1 k.1)

module _ (n q : Page) (size : ℕ) (key : List ℕ) (r : RowId) (v : IsValid n) (w : IsWellFormed n)
    (leaf : is_leaf n ≡ true) (g : IsGrown n q size) (m : IsExtended n q key r)
    (room : get_free_start n + 4 + size ≤ get_free_end n) (long : 7 ≤ size)
    (above : (i : ℕ) → i < key_count n → compare_bytes (key_ref n i) key ≡ Ordering.lt) where
  abbrev before : List Span
  before = spans_from n 0 (key_count n)

  abbrev placed : Span
  placed = (get_free_end q, get_free_end n)

  spans_eq : spans_from q 0 (key_count q) ≡ before ++ (placed ∷ [])
  spans_eq =
      ap (spans_from q 0) {x = key_count q} {y = suc (key_count n)} (omega (arith, m.more))
      ∙ spans_from-append q 0 (key_count n)
      ∙ ap₂ (λ ss (s : Span). ss ++ (s ∷ []))
          (spans_from_ext n q 0 (key_count n) (λ j lo hi. g.same_slots j (omega arith)))
          (ap (cell_bounds q) {x = 0 + key_count n} {y = key_count n} (omega arith) ∙ g.new_slot)

  before-AllFrom : AllFrom (get_free_end n) before
  before-AllFrom = tiled-AllFrom n (get_free_end n) page_size before v.spans_good v.tiled

  spans_good_again : AllGood q (spans_from q 0 (key_count q))
  spans_good_again =
      let kept : (s : Span) → Good n s → get_free_end n ≤ s.0 → Good q s = λ s good low. (
        omega (arith, low, g.new_start, room),
        omega (arith, good),
        omega (arith, good, suffix-is_leaf q m.still_leaf, suffix-is_leaf n leaf),
      ) in
      subst (AllGood q) (sym spans_eq) (
        All-append (Good q) before (placed ∷ [])
          (AllGood-map n q before kept v.spans_good before-AllFrom)
          (
            (
              omega (arith, g.new_start, g.new_end, room),
              omega (arith, v.free_range),
              omega (arith, g.new_end, suffix-is_leaf q m.still_leaf, long),
            ),
            tt,
          ))

  tiled_again : Tiles (get_free_end q) page_size (sort_spans (spans_from q 0 (key_count q)))
  tiled_again =
      subst (λ ss. Tiles (get_free_end q) page_size ss)
        (sym (
          ap sort_spans spans_eq
          ∙ sort_spans-append before placed (get_free_end n) (omega (arith, g.new_end))
              before-AllFrom))
        (refl, v.tiled)

  step_again : (a : ℕ) → a < key_count n → Steps q a
  unfolding IsSorted
  step_again a lt = elim (Bool-cases (ltb (a + 1) (key_count n))) [
    | inl e ↦
        ap₂ compare_bytes (m.before a lt).0 (m.before (a + 1) (ltb→lt _ _ e)).0
        ∙ w.sorted a (a + 1) (omega arith) (ltb→lt _ _ e)
    | inr e ↦
        let next : a + 1 ≡ key_count n = omega (arith, ltb→ge _ _ e) in
        ap₂ compare_bytes (m.before a lt).0 (ap (key_ref q) next ∙ m.last.0) ∙ above a lt
  ]

  grown-IsValid : IsValid q
  grown-IsValid = record {
    kind_known = subst (λ k. (k ≡ 3) ⊎ (k ≡ 4)) (sym g.same_kind) v.kind_known;
    level_fits = ap₂ (λ k l. same_bool (k == 3) (l == 0)) g.same_kind g.same_level ∙ v.level_fits;
    no_pad = g.same_pad ∙ v.no_pad;
    slots_end = omega (arith, g.new_start, v.slots_end, m.more);
    free_range =
        (omega (arith, g.new_start, g.new_end, room), omega (arith, g.new_end, v.free_range));
    spans_good = spans_good_again;
    tiled = tiled_again;
    ascending =
        Steps-ascending q 0 (key_count q - 1) (λ a lo hi. step_again a (omega (arith, m.more, hi)));
  }

-- On a leaf of the length of a page that Validate accepts, AppendLeaf of a key that is not empty
-- and above all keys of the leaf, and for which Fits says that there is room, makes a leaf of the
-- length of a page that Validate accepts, with that key and row behind those that it had.
pub validate-append_leaf :
    (n : Page) (key : List ℕ) (r : RowId)
    → length n ≡ page_size
    → validate n ≡ ok tt
    → is_leaf n ≡ true
    → 1 ≤ length key
    → ((i : ℕ) → i < key_count n → compare_bytes (key_ref n i) key ≡ Ordering.lt)
    → fits n (length key) ≡ true
    → r.page < 2 ^ 32
    → r.slot < 2 ^ 16
    → (q : Page) × (append_leaf n key r ≡ ok q)
      × (length q ≡ page_size)
      × (validate q ≡ ok tt)
      × IsExtended n q key r
validate-append_leaf n key r whole valid leaf long above room hp hs =
    let v = validate-IsValid n valid in
    let w = validate-IsWellFormed n valid in
    let (q, made, holds, grown, more) =
      append_leaf-IsGrown n (cells_from n 0 (key_count n)) key r (IsValid-Holds n whole v w) leaf
        room hp hs in
    let size = length-row_bytes r in
    (
      q,
      made,
      holds.whole_page,
      IsValid-validate q (
          grown-IsValid n q (length key + length (row_bytes r)) key r v w leaf grown more
            (ground (arith, room, suffix-is_leaf n leaf, size)) (omega (arith, long, size)) above),
      more,
    )

-- Validate accepts a new leaf.
pub validate-new_leaf :
    (id : ℕ) → (validate (new_leaf id) ≡ ok tt) × (length (new_leaf id) ≡ page_size)
unfolding validate new_leaf Page.new be_bytes be_uint
validate-new_leaf id = (refl, refl)
