-- ===== src/Nodepage/Validating.antt =====
-- What Validate promises of a node that it accepts, and that it accepts what appends make.
use scutedb.Base.{◌⊎◌}
use scutedb.Base.{ℕ, zero, suc, ◌+◌, ◌-◌, ◌≤◌, ◌<◌, ◌≡◌, refl, sym, ap, ◌∙◌, subst, arith}
use scutedb.Base.{
  Bool, true, false, not, ltb, ◌==◌, ◌&&◌, if◌then◌else◌, ok, err, get_uint, compare_bytes, inl,
  inr, Bool-cases, ltb→lt, ltb→ge,
}
use Prim.Native.Nat.{Ordering}
use scutedb.Fileio.Touch.{page_size}
use scutedb.Page.{
  Page, get_kind, get_free_start, get_free_end, kind_btree_leaf, kind_btree_internal,
}
use scutedb.Base.{Result, ◌⊎◌}
use scutedb.Nodepage.{Error, bad_kind, bad_level, invariant}
use scutedb.Nodepage.{
  cell_start, cell_length, key_ref, key_count, is_leaf, is_less, get_level, off_pad, slot_offset,
  suffix_len,
}
use scutedb.Nodepage.Searching.{IsSorted, is_less-lt, compare_bytes_trans}
use scutedb.Nodepage.Validate.{
  validate, check_cells, cell_bounds, spans_from, sort_spans, is_tiled, any_bad, is_ascending,
  is_bad_header, same_bool,
}
use scutedb.Nodepage.Spans.{
  Tiles, Tiles-is_tiled, is_tiled-Tiles, Good, AllGood, any_bad-AllGood, AllGood-any_bad,
  tiled-AllFrom, All-spans_from,
}

-- What Validate looks at.
pub record IsValid (n : Page) : Type 0 where
  pub kind_known : (get_kind n ≡ kind_btree_leaf) ⊎ (get_kind n ≡ kind_btree_internal)
  pub level_fits : same_bool (is_leaf n) (get_level n == 0) ≡ true
  pub no_pad : get_uint 2 n off_pad ≡ 0
  pub slots_end : get_free_start n ≡ slot_offset (key_count n)
  pub free_range : (get_free_start n ≤ get_free_end n) × (get_free_end n ≤ page_size)
  pub spans_good : AllGood n (spans_from n 0 (key_count n))
  pub tiled : Tiles (get_free_end n) page_size (sort_spans (spans_from n 0 (key_count n)))
  pub ascending : is_ascending n 0 (key_count n - 1) ≡ true

passes :
    {A : Type 0} (b : Bool) (e : Error) (r : Result Error A) (a : A)
    → (if b then err e else r) ≡ ok a
    → (b ≡ false) × (r ≡ ok a)
passes true e r a h = absurd (ground arith)
passes false e r a h = (refl, h)

-- The checks on `k` cells.
abbrev Cells : Page → ℕ → Type 0
Cells n k =
    AllGood n (spans_from n 0 k)
    × Tiles (get_free_end n) page_size (sort_spans (spans_from n 0 k))
    × (is_ascending n 0 (k - 1) ≡ true)

abbrev checked : Page → ℕ → Result Error (Unit {0})
checked n k =
    if any_bad n (spans_from n 0 k)
    then err invariant
    else if not (is_tiled (get_free_end n) (sort_spans (spans_from n 0 k)))
    then err invariant
    else if not (is_ascending n 0 (k - 1))
    then err invariant
    else ok tt

abbrev checked_any : Page → ℕ → Result Error (Unit {0})
checked_any n k =
    if k == 0 then (if get_free_end n == page_size then ok tt else err invariant) else checked n k

checked-Cells : (n : Page) (k : ℕ) → checked n k ≡ ok tt → Cells n k
checked-Cells n k h =
    let (a, h1) = passes _ invariant _ tt h in
    let (b, h2) =
      passes (not (is_tiled (get_free_end n) (sort_spans (spans_from n 0 k)))) invariant _ tt h1 in
    let (c, h3) = passes (not (is_ascending n 0 (k - 1))) invariant (ok tt) tt h2 in
    (
      any_bad-AllGood n (spans_from n 0 k) a,
      Tiles-is_tiled _ _ (ground (arith, b)),
      ground (arith, c),
    )

checked_any-Cells : (n : Page) (k : ℕ) → checked_any n k ≡ ok tt → Cells n k
unfolding spans_from sort_spans is_ascending
checked_any-Cells n zero h = (tt, ground arith, refl)
checked_any-Cells n (suc k) h =
    let some : (suc k == 0) ≡ false = ground arith in
    checked-Cells n (suc k) (
      ap
        (λ (c : Bool).
          if c
          then (if get_free_end n == page_size then ok tt else err invariant)
          else checked n (suc k))
        (sym some)
      ∙ h)

Cells-checked : (n : Page) (k : ℕ) → Cells n k → checked n k ≡ ok tt
Cells-checked n k (a, b, c) =
    rw (AllGood-any_bad n (spans_from n 0 k) a, is_tiled-Tiles _ _ b, c) refl

Cells-checked_any : (n : Page) (k : ℕ) → Cells n k → checked_any n k ≡ ok tt
unfolding spans_from sort_spans is_ascending
Cells-checked_any n zero h = ground (arith, h.1)
Cells-checked_any n (suc k) h =
    let some : (suc k == 0) ≡ false = ground arith in
    ap
      (λ (c : Bool).
        if c
        then (if get_free_end n == page_size then ok tt else err invariant)
        else checked n (suc k))
      some
    ∙ Cells-checked n (suc k) h

pub validate-IsValid : (n : Page) → validate n ≡ ok tt → IsValid n
unfolding validate check_cells
validate-IsValid n h =
    let (a, h1) =
      passes (not (get_kind n == kind_btree_leaf) && not (get_kind n == kind_btree_internal))
        bad_kind _ tt h in
    let (b, h2) = passes (not (same_bool (is_leaf n) (get_level n == 0))) bad_level _ tt h1 in
    let (c, h3) = passes (is_bad_header n) invariant _ tt h2 in
    let (good, tiled, up) = checked_any-Cells n (key_count n) h3 in
    record {
      kind_known = ground (arith, a);
      level_fits = ground (arith, b);
      no_pad = ground (arith, c);
      slots_end = ground (arith, c);
      free_range = ground (arith, c);
      spans_good = good;
      tiled = tiled;
      ascending = up;
    }

pub IsValid-validate : (n : Page) → IsValid n → validate n ≡ ok tt
unfolding validate check_cells
IsValid-validate n h =
    let kinds : (not (get_kind n == kind_btree_leaf) && not (get_kind n == kind_btree_internal))
        ≡ false =
      ground (arith, h.kind_known) in
    let header : is_bad_header n ≡ false = ground (arith, h.no_pad, h.slots_end, h.free_range) in
    rw (kinds, h.level_fits, header)
      (Cells-checked_any n (key_count n) (h.spans_good, h.tiled, h.ascending))

abbrev pub InOrder : Page → ℕ → ℕ → Type 0
InOrder n a b = compare_bytes (key_ref n a) (key_ref n b) ≡ Ordering.lt

abbrev pub Steps : Page → ℕ → Type 0
Steps n a = InOrder n a (a + 1)

ascending-Steps : (n : Page) (i k m : ℕ) → is_ascending n i k ≡ true → m < k → Steps n (i + m)
unfolding is_ascending
ascending-Steps n i zero m h lt = absurd (omega arith)
ascending-Steps n i (suc k) zero h lt =
    let here : is_less (compare_bytes (key_ref n i) (key_ref n (i + 1))) ≡ true =
      ground (arith, h) in
    subst (Steps n) {x = i} {y = i + 0} (omega arith) (is_less-lt _ (ap not here))
ascending-Steps n i (suc k) (suc m) h lt =
    subst (Steps n) {x = i + 1 + m} {y = i + suc m} (omega arith)
      (ascending-Steps n (i + 1) k m (ground (arith, h)) (omega arith))

pub Steps-ascending :
    (n : Page) (i k : ℕ) → ((m : ℕ) → i ≤ m → m < i + k → Steps n m) → is_ascending n i k ≡ true
unfolding is_ascending
Steps-ascending n i zero h = refl
Steps-ascending n i (suc k) h =
    rw (h i (omega arith) (omega arith))
      (Steps-ascending n (i + 1) k (λ m lo hi. h m (omega arith) (omega arith)))

pub ascending-IsSorted : (n : Page) → is_ascending n 0 (key_count n - 1) ≡ true → IsSorted n
unfolding IsSorted
ascending-IsSorted n h i zero ij jn = absurd (omega arith)
ascending-IsSorted n h i (suc j) ij jn =
    let last : InOrder n j (suc j) = subst (InOrder n j) {x = j + 1} {y = suc j} (omega arith) (
      subst (Steps n) {x = 0 + j} {y = j} (omega arith)
        (ascending-Steps n 0 (key_count n - 1) j h (omega arith))) in
    elim (Bool-cases (ltb i j)) [
      | inl e ↦
          compare_bytes_trans (key_ref n i) (key_ref n j) (key_ref n (suc j))
            (ascending-IsSorted n h i j (ltb→lt _ _ e) (omega arith)) last
      | inr e ↦
          subst (λ a. InOrder n a (suc j)) {x = j} {y = i} (omega (arith, ltb→ge _ _ e, ij)) last
    ]

-- What a node that Validate accepts is: its keys ascend, each cell lies behind the free space and
-- inside the page with room for a key, and no byte between the first cell and the end of the page
-- belongs to none or to two.
pub record IsWellFormed (n : Page) : Type 0 where
  pub sorted : IsSorted n
  pub inside :
      (i : ℕ)
      → i < key_count n
      → (get_free_end n ≤ cell_start n i)
        × (cell_start n i + cell_length n i ≤ page_size)
        × (suffix_len n + 1 ≤ cell_length n i)
  pub tiled : Tiles (get_free_end n) page_size (sort_spans (spans_from n 0 (key_count n)))

-- Validate accepts only nodes whose keys ascend, so that Search works on them, whose cells lie
-- between the free space and the end of the page, each with room for a key, and whose cells, sorted
-- by their places, fill the page from the end of the free space on without gap or overlap.
pub validate-IsWellFormed : (n : Page) → validate n ≡ ok tt → IsWellFormed n
validate-IsWellFormed n h =
    let v = validate-IsValid n h in
    record {
      sorted = ascending-IsSorted n v.ascending;
      inside = λ i lt. inside_page n v i lt;
      tiled = v.tiled;
    }
  where
    inside_page :
        (n : Page)
        → IsValid n
        → (i : ℕ) → i < key_count n
        → (get_free_end n ≤ cell_start n i)
          × (cell_start n i + cell_length n i ≤ page_size)
          × (suffix_len n + 1 ≤ cell_length n i)
    inside_page n v i lt =
        let ss = spans_from n 0 (key_count n) in
        let at : 0 + i ≡ i = omega arith in
        let good =
          subst (λ j. Good n (cell_bounds n j)) at
            (All-spans_from (Good n) n 0 (key_count n) i v.spans_good lt) in
        let low =
          subst (λ j. get_free_end n ≤ cell_start n j) at
            (All-spans_from (λ s. get_free_end n ≤ s.0) n 0 (key_count n) i
              (tiled-AllFrom n (get_free_end n) page_size ss v.spans_good v.tiled) lt) in
        (low, omega (arith, good), omega (arith, good))
