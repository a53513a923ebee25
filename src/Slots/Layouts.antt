-- ===== src/Slots/Layouts.antt =====
-- What a layout that NewLayout returns promises.
use native.Mathlib.Nat.{div-le_self}
use scutedb.Base.{ap₂}
use native.Mathlib.Nat.{le-div_iff_mul-le}
use native.Mathlib.Nat.{div-eq_of_lt}
use native.Mathlib.Nat.{mod-eq_of_lt}
use scutedb.Base.{◌⊎◌}
use scutedb.Base.{ℕ, ◌+◌, ◌-◌, ◌*◌, ◌/◌, ◌%◌, ◌^◌, ◌≤◌, ◌<◌, ◌≡◌, sym, ap, ◌∙◌, arith, subst}
use scutedb.Base.{ltb, ◌==◌, if◌then◌else◌, Result, ok, err, Bool-cases, inl, inr}
use scutedb.Base.{sub_int, mul_int, quot_int}
use scutedb.Fileio.Touch.{page_size}
use scutedb.Page.{header_size}
use scutedb.Slots.{Layout, Error, align, cut, layout_with, new_layout}
use native.Mathlib.Nat.{mod-lt, mod-add-div, mod-one, div-mul-le_self, lt-div-mul-add, mul-mod_left}

-- The least multiple of `to` from `n` on.
abbrev ceil : ℕ → ℕ → ℕ
ceil n to = if n % to == 0 then n else n + to - n % to

align-ceil : (n to : ℕ) → 1 ≤ n → n ≤ page_size → 1 ≤ to → to < 2 ^ 63 → align n to ≡ ceil n to
unfolding align
align-ceil n to low fits ht hi = ground (arith, mod-lt n {m = to} ht, mod-one n)

ceil-bounds : (n to : ℕ) → 1 ≤ to → (n ≤ ceil n to) × (ceil n to < n + to)
ceil-bounds n to ht = (ground (arith, mod-lt n {m = to} ht), ground (arith, mod-lt n {m = to} ht))

ceil-multiple : (n to : ℕ) → 1 ≤ to → ceil n to % to ≡ 0
ceil-multiple n to ht = elim (Bool-cases (n % to == 0)) [
  | inl e ↦ ground arith
  | inr e ↦
      subst (λ k. k % to ≡ 0) {x = (n / to + 1) * to}
        (ground (arith, mod-add-div n to, mod-lt n {m = to} ht)) (mul-mod_left (n / to + 1) to)
]

ceil-cases : (n to : ℕ) → 1 ≤ n → 1 ≤ to → ((to ≤ n) × (ceil n to ≤ 2 * n)) ⊎ (ceil n to ≡ to)
ceil-cases n to hn ht = elim (Bool-cases (ltb n to)) [
  | inl e ↦ inr (ground (arith, mod-eq_of_lt {n = n} {m = to}))
  | inr e ↦ inl (ground arith, ground (arith, mod-lt n {m = to} ht))
]

-- What NewLayout makes of a base and a slot size that fit a page.
abbrev exact : ℕ → ℕ → ℕ → ℕ → Layout
exact size to b s = record {
  record_size = cut size;
  slot_size = cut s;
  capacity = cut ((page_size - b) / s);
  base = cut b;
  alignment = cut to;
}

quot_int-small : (a b : ℕ) → a < 2 ^ 63 → b < 2 ^ 63 → quot_int a b ≡ a / b
quot_int-small a b ha hb = ground arith

capacity-exact :
    (b s : ℕ) → 1 ≤ s → b + s ≤ page_size → quot_int (sub_int page_size b) s ≡ (page_size - b) / s
capacity-exact b s hs h =
    let room : sub_int page_size b ≡ page_size - b = omega arith in
    ap (λ r. quot_int r s) room ∙ quot_int-small (page_size - b) s (omega arith) (omega arith)

mul_int-small : (a b : ℕ) → a * b ≤ page_size → mul_int a b ≡ a * b
mul_int-small a b h = mod-eq_of_lt (omega arith)

layout_with-exact :
    (size to b s : ℕ) → 1 ≤ s → b + s ≤ page_size → layout_with size to b s ≡ ok (exact size to b s)
layout_with-exact size to b s hs h = ground (
  arith,
  capacity-exact b s hs h,
  mul_int-small ((page_size - b) / s) s,
  div-mul-le_self (page_size - b) s,
)

layout_with-fits :
    (size to b s : ℕ) (l : Layout)
    → b < 2 ^ 63
    → 1 ≤ s
    → s < 2 ^ 63
    → (b + s < 2 ^ 63) ⊎ ((page_size < b) × (b < page_size + s))
    → layout_with size to b s ≡ ok l
    → b + s ≤ page_size
layout_with-fits size to b s l hb hs hs' h e =
    ground (arith, div-eq_of_lt {n = b - page_size} {m = s})

new_layout-guards :
    (size to : ℕ) (l : Layout)
    → size < 2 ^ 64
    → to < 2 ^ 64
    → new_layout size to ≡ ok l
    → (1 ≤ size)
      × (size ≤ page_size)
      × (1 ≤ to)
      × (to < 2 ^ 63)
      × (layout_with size to (align header_size to) (align size to) ≡ ok l)
unfolding new_layout
new_layout-guards size to l hs ht e =
    (ground arith, ground arith, ground arith, ground arith, ground arith)

-- Where `to` is so large that base and slot overflow an int, both are `to`.
ceil-room :
    (size to : ℕ)
    → 1 ≤ size
    → size ≤ page_size
    → 1 ≤ to
    → to < 2 ^ 63
    → (ceil header_size to < 2 ^ 63)
      × (ceil size to < 2 ^ 63)
      × ((ceil header_size to + ceil size to < 2 ^ 63)
          ⊎ ((page_size < ceil header_size to) × (ceil header_size to < page_size + ceil size to)))
ceil-room size to low fits ht hi = (
  ground (arith, ceil-cases header_size to),
  ground (arith, ceil-cases size to),
  ground (arith, ceil-cases header_size to, ceil-cases size to),
)

-- The layout of records of `size` bytes in slots whose start is a multiple of `to`.
pub record IsLayout (size to : ℕ) (l : Layout) : Type 0 where
  pub same_size : l.record_size ≡ size
  pub record_fits : (1 ≤ size) × (size ≤ l.slot_size)
  pub behind_header : header_size ≤ l.base
  pub aligned : (l.base % to ≡ 0) × (l.slot_size % to ≡ 0)
  pub no_slack : (l.base < header_size + to) × (l.slot_size < size + to)
  pub has_slots : 1 ≤ l.capacity
  pub in_page : l.base + l.capacity * l.slot_size ≤ page_size
  pub page_full : page_size < l.base + (l.capacity + 1) * l.slot_size

module _ (b s : ℕ) (hs : 1 ≤ s) (h : b + s ≤ page_size) where
  slot_count : ℕ
  slot_count = (page_size - b) / s

  slot_count-bounds :
      (1 ≤ slot_count)
      × (slot_count ≤ page_size)
      × (b + slot_count * s ≤ page_size)
      × (page_size < b + (slot_count + 1) * s)
  unfolding slot_count
  slot_count-bounds = (
    (le-div_iff_mul-le {k = s} {x = 1} {y = page_size - b} hs).1 (omega arith),
    omega (arith, div-le_self (page_size - b) s),
    omega (arith, div-mul-le_self (page_size - b) s),
    omega (arith, lt-div-mul-add {a = page_size - b} {b = s} hs),
  )

exact-IsLayout :
    (size to b s : ℕ)
    → 1 ≤ size
    → size ≤ s
    → header_size ≤ b
    → b + s ≤ page_size
    → (b % to ≡ 0) × (s % to ≡ 0)
    → (b < header_size + to) × (s < size + to)
    → IsLayout size to (exact size to b s)
unfolding slot_count
exact-IsLayout size to b s hz hs hb h whole slack =
    let count = slot_count-bounds b s (omega arith) h in
    let cut_b : cut b ≡ b = omega arith in
    let cut_s : cut s ≡ s = omega arith in
    let cut_c : cut ((page_size - b) / s) ≡ (page_size - b) / s = omega (arith, count.1) in
    record {
      same_size = omega arith;
      record_fits = (hz, rw cut_s hs);
      behind_header = rw cut_b hb;
      aligned = rw cut_b (rw cut_s whole);
      no_slack = rw cut_b (rw cut_s slack);
      has_slots = rw cut_c count.0;
      in_page = rw cut_b (rw cut_s (rw cut_c count.2));
      page_full = rw cut_b (rw cut_s (rw cut_c count.3));
    }

from_ok : Result Error Layout → Layout → Layout
from_ok (ok l) d = l
from_ok (err e) d = d

ok-injective : {l m : Layout} → ◌≡◌ {A = Result Error Layout} (ok l) (ok m) → l ≡ m
unfolding from_ok
ok-injective {l} e = ap (λ r. from_ok r l) e

-- A layout that NewLayout returns for ints has slots that hold a record, start behind the page's
-- header at multiples of the alignment, waste less than the alignment each, and lie in the page; it
-- has at least one slot, and the page has no room for one more.
pub new_layout-IsLayout :
    (size to : ℕ) (l : Layout)
    → size < 2 ^ 64
    → to < 2 ^ 64
    → new_layout size to ≡ ok l
    → IsLayout size to l
new_layout-IsLayout size to l hs ht e =
    let (low, fits, one, small, made) = new_layout-guards size to l hs ht e in
    let b_eq = align-ceil header_size to (omega arith) (omega arith) one small in
    let s_eq = align-ceil size to low fits one small in
    let made' : layout_with size to (ceil header_size to) (ceil size to) ≡ ok l =
      ap₂ (layout_with size to) (sym b_eq) (sym s_eq) ∙ made in
    let room = ceil-room size to low fits one small in
    let b_bounds = ceil-bounds header_size to one in
    let s_bounds = ceil-bounds size to one in
    let inside =
      layout_with-fits size to (ceil header_size to) (ceil size to) l room.0 (omega arith) room.1
        room.2 made' in
    let same : exact size to (ceil header_size to) (ceil size to) ≡ l = ok-injective (
      sym (layout_with-exact size to (ceil header_size to) (ceil size to) (omega arith) inside)
      ∙ made') in
    subst (IsLayout size to) same (
      exact-IsLayout size to (ceil header_size to) (ceil size to) low s_bounds.0 b_bounds.0 inside
        (ceil-multiple header_size to one, ceil-multiple size to one) (b_bounds.1, s_bounds.1))
