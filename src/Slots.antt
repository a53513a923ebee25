-- ===== src/Slots.antt =====
-- internal/slots/slots.go: records of one size in slots of a page.
-- An int is its two's complement pattern at 64 bits.
pub mod Layouts
pub mod Records
mod Tests
use scutedb.Base.{ℕ, ◌+◌, ◌-◌, ◌*◌, ◌%◌, ◌^◌, ◌≤◌, ◌<◌, bit_and, Bool, true, false, not, ◌&&◌, ◌||◌}
use scutedb.Base.{List, length, take, drop, replicate, splice, ltb, leb, ◌==◌, if◌then◌else◌}
use scutedb.Base.{Result, ok, err, add_int, sub_int, mul_int, quot_int, rem_int, ltb_int}
use scutedb.Fileio.Touch.{page_size}
use scutedb.Page.{Page, header_size, get_item_count, set_item_count, set_free_start}

abbrev pub default_align : ℕ
default_align = 8

pub data Error : Type 0 where
  no_fit out_of_range record_size bad_align zero_layout : Error

-- `a <= b` at ints.
abbrev pub leb_int : ℕ → ℕ → Bool
leb_int a b = not (ltb_int b a)

unfoldable pub align : ℕ → ℕ → ℕ
align n to =
    let r = rem_int n to in
    if leb_int to 1 || leb_int n 0 then n else if r == 0 then n else sub_int (add_int n to) r

unfoldable pub padding : ℕ → ℕ → ℕ
padding n to = sub_int (align n to) n

abbrev pub is_power_of_two : ℕ → Bool
is_power_of_two n = ltb_int 0 n && bit_and n (sub_int n 1) == 0

-- The fields are uint16s.
pub record Layout : Type 0 where
  pub record_size : ℕ
  pub slot_size : ℕ
  pub capacity : ℕ
  pub base : ℕ
  pub alignment : ℕ

abbrev pub cut : ℕ → ℕ
cut n = n % 2 ^ 16

-- NewLayout from where `base` and `slot` are known.
abbrev pub layout_with : ℕ → ℕ → ℕ → ℕ → Result Error Layout
layout_with size to base slot =
    let capacity = quot_int (sub_int page_size base) slot in
    if leb_int slot 0 || ltb_int page_size (add_int base slot)
    then err no_fit
    else if ltb_int page_size (add_int base (mul_int capacity slot))
    then err no_fit
    else ok (record {
      record_size = cut size;
      slot_size = cut slot;
      capacity = cut capacity;
      base = cut base;
      alignment = cut to;
    })

unfoldable pub new_layout : ℕ → ℕ → Result Error Layout
new_layout size to =
    if not (is_power_of_two to)
    then err bad_align
    else if leb_int size 0 || ltb_int page_size size
    then err no_fit
    else layout_with size to (align header_size to) (align size to)

-- From here on ints are offsets in a page, and do not wrap.
abbrev pub offset : Layout → ℕ → ℕ
offset l i = l.base + i * l.slot_size

abbrev pub pad_per_slot : Layout → ℕ
pad_per_slot l = sub_int l.slot_size l.record_size

abbrev pub tail : Layout → ℕ
tail l = sub_int page_size (l.base + l.capacity * l.slot_size)

abbrev pub waste : Layout → ℕ
waste l = add_int (mul_int (pad_per_slot l) l.capacity) (tail l)

-- `i` is below 0 or from the capacity on.
abbrev pub outside : Layout → ℕ → Bool
outside l i = ltb_int i 0 || leb_int l.capacity i

abbrev pub range_err : Layout → ℕ → Error
range_err l i =
    if l.slot_size == 0 then zero_layout else if outside l i then out_of_range else no_fit

unfoldable pub slot_range : Layout → Page → ℕ → Result Error (ℕ × ℕ)
slot_range l p i =
    if l.slot_size == 0 || outside l i
    then err (range_err l i)
    else if ltb (length p) (offset l i + l.slot_size)
    then err (range_err l i)
    else ok (offset l i, offset l i + l.slot_size)

-- The record and zeros behind it up to the slot's end, then the header's counts.
unfoldable pub fill_slot : Layout → Page → ℕ → List ℕ → ℕ → ℕ → Page
fill_slot l p i rec off end =
    let p1 = splice p off (take (end - off) rec) in
    let p2 = splice p1 (off + length rec) (replicate (end - (off + length rec)) 0) in
    let next = cut (cut i + 1) in
    let p3 = if ltb (get_item_count p2) next then set_item_count p2 next else p2 in
    set_free_start p3 (offset l (get_item_count p3))

abbrev pub put_at : Layout → Page → ℕ → List ℕ → Result Error (ℕ × ℕ) → Result Error Page
put_at l p i rec (err e) = err e
put_at l p i rec (ok (off, end)) =
    if length rec == l.record_size then ok (fill_slot l p i rec off end) else err record_size

unfoldable pub put : Layout → Page → ℕ → List ℕ → Result Error Page
put l p i rec = put_at l p i rec (slot_range l p i)

abbrev pub get_at : Layout → Page → Result Error (ℕ × ℕ) → Result Error (List ℕ)
get_at l p (err e) = err e
get_at l p (ok (off, end)) = ok (take l.record_size (drop off p))

unfoldable pub get_ref : Layout → Page → ℕ → Result Error (List ℕ)
get_ref l p i = get_at l p (slot_range l p i)

-- Get copies what GetRef returns.
unfoldable pub get : Layout → Page → ℕ → Result Error (List ℕ)
unfolding get_ref
get l p i = get_ref l p i
