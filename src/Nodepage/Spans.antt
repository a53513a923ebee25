-- ===== src/Nodepage/Spans.antt =====
-- The places of a node's cells, sorted: they fill the end of the page, and a new one comes first.
use scutedb.Base.{
  ℕ, zero, suc, ◌+◌, ◌≤◌, ◌<◌, ◌≡◌, refl, ap, ap₂, ◌∙◌, subst, arith, List, [], ◌∷◌, ◌++◌, All,
}
use scutedb.Base.{Bool, true, false, ltb, if◌then◌else◌}
use scutedb.Fileio.Touch.{page_size}
use scutedb.Page.{Page, get_free_start}
use scutedb.Nodepage.{suffix_len}
use scutedb.Nodepage.Validate.{
  Span, cell_bounds, spans_from, insert_span, sort_spans, is_tiled, any_bad,
}

-- Spans that fill the bytes from `lo` to `hi`, in order.
abbrev pub Tiles : ℕ → ℕ → List Span → Type 0
Tiles lo hi [] = lo ≡ hi
Tiles lo hi (s ∷ ss) = (lo ≡ s.0) × Tiles s.1 hi ss

pub is_tiled-Tiles : (at : ℕ) (ss : List Span) → Tiles at page_size ss → is_tiled at ss ≡ true
is_tiled-Tiles at [] h = ground (arith, h)
is_tiled-Tiles at (s ∷ ss) h = ground (arith, h.0, is_tiled-Tiles s.1 ss h.1)

pub Tiles-is_tiled : (at : ℕ) (ss : List Span) → is_tiled at ss ≡ true → Tiles at page_size ss
Tiles-is_tiled at [] h = ground arith
Tiles-is_tiled at (s ∷ ss) h = (ground arith, Tiles-is_tiled s.1 ss (ground arith))

-- What Validate asks of one span: inside the page, behind the slots, and with room for a key.
abbrev pub Good : Page → Span → Type 0
Good n s = (get_free_start n ≤ s.0) × (s.1 ≤ page_size) × (s.0 + suffix_len n + 1 ≤ s.1)

abbrev pub AllGood : Page → List Span → Type 0
AllGood n = All (Good n)

pub any_bad-AllGood : (n : Page) (ss : List Span) → any_bad n ss ≡ false → AllGood n ss
any_bad-AllGood n [] h = tt
any_bad-AllGood n (s ∷ ss) h =
    ((ground arith, ground arith, ground arith), any_bad-AllGood n ss (ground arith))

pub AllGood-any_bad : (n : Page) (ss : List Span) → AllGood n ss → any_bad n ss ≡ false
AllGood-any_bad n [] h = refl
AllGood-any_bad n (s ∷ ss) h = ground (arith, h.0, AllGood-any_bad n ss h.1)

-- Every span begins at `b` or behind it.
abbrev pub AllFrom : ℕ → List Span → Type 0
AllFrom b = All (λ s. b ≤ s.0)

abbrev AllRising : List Span → Type 0
AllRising [] = Unit {0}
AllRising (s ∷ ss) = (s.0 ≤ s.1) × AllRising ss

AllFrom-mono : (a b : ℕ) (ss : List Span) → b ≤ a → AllFrom a ss → AllFrom b ss
AllFrom-mono a b [] le h = tt
AllFrom-mono a b (s ∷ ss) le h = (omega (arith, h.0), AllFrom-mono a b ss le h.1)

Tiles-AllFrom : (lo hi : ℕ) (ss : List Span) → AllRising ss → Tiles lo hi ss → AllFrom lo ss
Tiles-AllFrom lo hi [] r h = tt
Tiles-AllFrom lo hi (s ∷ ss) r h = (
  omega (arith, h.0),
  AllFrom-mono s.1 lo ss (omega (arith, h.0, r.0)) (Tiles-AllFrom s.1 hi ss r.1 h.1),
)

either_AllFrom :
    (b : ℕ) (c : Bool) (xs ys : List Span)
    → AllFrom b xs
    → AllFrom b ys
    → AllFrom b (if c then xs else ys)
either_AllFrom b true xs ys h k = h
either_AllFrom b false xs ys h k = k

either_AllRising :
    (c : Bool) (xs ys : List Span) → AllRising xs → AllRising ys → AllRising (if c then xs else ys)
either_AllRising true xs ys h k = h
either_AllRising false xs ys h k = k

insert_span-AllRising :
    (s : Span) (ss : List Span) → s.0 ≤ s.1 → AllRising ss → AllRising (insert_span s ss)
insert_span-AllRising s [] le h = (le, tt)
insert_span-AllRising s (t ∷ ts) le h =
    either_AllRising (ltb t.0 s.0) _ _ (h.0, insert_span-AllRising s ts le h.1) (le, h)

sort_spans-AllRising : (n : Page) (ss : List Span) → AllGood n ss → AllRising (sort_spans ss)
unfolding sort_spans
sort_spans-AllRising n [] h = tt
sort_spans-AllRising n (s ∷ ss) h =
    insert_span-AllRising s (sort_spans ss) (omega (arith, h.0)) (sort_spans-AllRising n ss h.1)

-- What holds of every span of the sorted list holds of every span.
abbrev HeadFrom : ℕ → Span → List Span → Type 0
HeadFrom b s ss = (b ≤ s.0) × AllFrom b ss

from_either :
    (b : ℕ) (s t : Span) (ts : List Span) (c : Bool)
    → (AllFrom b (insert_span s ts) → HeadFrom b s ts)
    → AllFrom b (if c then t ∷ insert_span s ts else s ∷ t ∷ ts)
    → HeadFrom b s (t ∷ ts)
from_either b s t ts true below h = let r = below h.1 in (r.0, (h.0, r.1))
from_either b s t ts false below h = h

from_insert : (b : ℕ) (s : Span) (ss : List Span) → AllFrom b (insert_span s ss) → HeadFrom b s ss
from_insert b s [] h = h
from_insert b s (t ∷ ts) h = from_either b s t ts (ltb t.0 s.0) (from_insert b s ts) h

from_sort : (b : ℕ) (ss : List Span) → AllFrom b (sort_spans ss) → AllFrom b ss
unfolding sort_spans
from_sort b [] h = tt
from_sort b (s ∷ ss) h = let r = from_insert b s (sort_spans ss) h in (r.0, from_sort b ss r.1)

-- No cell begins before the end of the free space.
pub tiled-AllFrom :
    (n : Page) (lo hi : ℕ) (ss : List Span)
    → AllGood n ss
    → Tiles lo hi (sort_spans ss)
    → AllFrom lo ss
tiled-AllFrom n lo hi ss good h =
    from_sort lo ss (Tiles-AllFrom lo hi (sort_spans ss) (sort_spans-AllRising n ss good) h)

-- A span below all others comes first.
pub sort_spans-append :
    (ss : List Span) (x : Span) (b : ℕ)
    → x.0 < b
    → AllFrom b ss
    → sort_spans (ss ++ (x ∷ [])) ≡ x ∷ sort_spans ss
unfolding sort_spans
sort_spans-append [] x b lt h = refl
sort_spans-append (s ∷ ss) x b lt h =
    ap (insert_span s) (sort_spans-append ss x b lt h.1) ∙ ground (arith, h.0, lt)

-- The spans of more cells.
pub spans_from-append :
    (n : Page) (i k : ℕ) → spans_from n i (suc k) ≡ spans_from n i k ++ (cell_bounds n (i + k) ∷ [])
unfolding spans_from
spans_from-append n i zero = ap (λ j. cell_bounds n j ∷ []) {x = i} {y = i + 0} (omega arith)
spans_from-append n i (suc k) =
    ap (λ ss. cell_bounds n i ∷ ss)
      (spans_from-append n (i + 1) k
        ∙ ap (λ j. spans_from n (i + 1) k ++ (cell_bounds n j ∷ [])) {x = i + 1 + k} {y = i + suc k}
            (omega arith))

pub spans_from_ext :
    (n q : Page) (i k : ℕ)
    → ((j : ℕ) → i ≤ j → j < i + k → cell_bounds q j ≡ cell_bounds n j)
    → spans_from q i k ≡ spans_from n i k
unfolding spans_from
spans_from_ext n q i zero h = refl
spans_from_ext n q i (suc k) h =
    ap₂ (λ (s : Span) ss. s ∷ ss) (h i (omega arith) (omega arith))
      (spans_from_ext n q (i + 1) k (λ j lo hi. h j (omega arith) (omega arith)))

pub All-spans_from :
    (P : Span → Type 0) (n : Page) (i k m : ℕ)
    → All P (spans_from n i k)
    → m < k
    → P (cell_bounds n (i + m))
unfolding spans_from
All-spans_from P n i zero m h lt = absurd (omega arith)
All-spans_from P n i (suc k) zero h lt = subst (λ j. P (cell_bounds n j)) {x = i} (omega arith) h.0
All-spans_from P n i (suc k) (suc m) h lt =
    subst (λ j. P (cell_bounds n j)) {x = i + 1 + m} (omega arith)
      (All-spans_from P n (i + 1) k m h.1 (omega arith))

-- The other way round.
pub spans_from-All :
    (P : Span → Type 0) (n : Page) (i k : ℕ)
    → ((j : ℕ) → i ≤ j → j < i + k → P (cell_bounds n j))
    → All P (spans_from n i k)
unfolding spans_from
spans_from-All P n i zero h = tt
spans_from-All P n i (suc k) h = (
  h i (omega arith) (omega arith),
  spans_from-All P n (i + 1) k (λ j lo hi. h j (omega arith) (omega arith)),
)
