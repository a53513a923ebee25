-- ===== src/Slots/Records.antt =====
-- What Get returns after Put, and what Put keeps of the page.
use scutedb.Base.{take-all}
use scutedb.Base.{take-append_front}
use scutedb.Base.{leb}
use scutedb.Slots.{put_at}
use scutedb.Slots.{get_at}
use scutedb.Base.{ltb→ge}
use scutedb.Base.{ltb→lt}
use scutedb.Base.{Bool-cases}
use scutedb.Base.{
  ℕ, ◌+◌, ◌-◌, ◌^◌, ◌≤◌, ◌<◌, ◌≡◌, ◌≢◌, refl, sym, ap, ◌∙◌, arith, max, inl, inr, ◌⊎◌,
}
use scutedb.Base.{ltb, if◌then◌else◌, if-cases, ok, err}
use scutedb.Base.{
  List, length, take, drop, replicate, splice, length-splice, length-replicate, drop-splice_self,
  drop-splice_after, take-splice_before,
}
use scutedb.Base.{
  get_uint, put_uint, get_uint-put_uint_self, get_uint-put_uint_ne, get_uint-splice_ne, be_bytes,
  length-be_bytes,
}
use scutedb.Fileio.Touch.{page_size}
use scutedb.Page.{
  Page, header_size, get_id, get_kind, get_item_count, get_free_start, set_item_count,
  set_free_start,
}
use scutedb.Slots.{
  Layout, out_of_range, record_size, cut, offset, slot_range, fill_slot, put, get_ref, get,
}
use scutedb.Slots.Layouts.{IsLayout}
use native.Mathlib.Nat.{mul-le-mul_right, mul-le-mul_left}

-- The two counts in the header leave the slots alone.
drop-set_header : (p : Page) (j n v : ℕ) → n + 2 ≤ j → drop j (put_uint 2 p n v) ≡ drop j p
drop-set_header p j n v h = drop-splice_after p n j (be_bytes 2 v) (rw length-be_bytes h)

module _ {size to : ℕ} (l : Layout) (h : IsLayout size to l) where
  -- The slots are one behind the other, behind the header and inside the page.
  slots_apart : (i j : ℕ) → i < j → offset l i + l.slot_size ≤ offset l j
  slots_apart i j lt = omega (arith, mul-le-mul_right {m = i + 1} {n = j} l.slot_size (omega arith))

  slot_inside : (i : ℕ) → i < l.capacity → offset l i + l.slot_size ≤ page_size
  slot_inside i lt = omega (arith, slots_apart i l.capacity lt, h.in_page)

  few_slots : l.capacity ≤ page_size
  few_slots = omega (
    arith,
    mul-le-mul_left {m = 1} {n = l.slot_size} l.capacity (omega (arith, h.record_fits)),
    h.in_page,
  )

  slot_range-ok :
      (p : Page) (i : ℕ)
      → length p ≡ page_size
      → i < l.capacity
      → slot_range l p i ≡ ok (offset l i, offset l i + l.slot_size)
  unfolding slot_range
  slot_range-ok p i hp lt = ground (arith, slot_inside i lt, few_slots, h.record_fits)

  slot_range-err :
      (p : Page) (i : ℕ) → i < 2 ^ 64 → l.capacity ≤ i → slot_range l p i ≡ err out_of_range
  unfolding slot_range
  slot_range-err p i hi out = ground (arith, few_slots, h.record_fits)

  -- The page with the record and zeros behind it, before the header's counts are set.
  abbrev with_record : Page → ℕ → List ℕ → Page
  with_record p i rec =
      splice (splice p (offset l i) (take (offset l i + l.slot_size - offset l i) rec))
        (offset l i + length rec)
        (replicate (offset l i + l.slot_size - (offset l i + length rec)) 0)

  module _ (p : Page) (i : ℕ) (rec : List ℕ) (hp : length p ≡ page_size) (lt : i < l.capacity)
      (fits : length rec ≡ l.record_size) where
    whole : take (offset l i + l.slot_size - offset l i) rec ≡ rec
    whole = take-all _ rec (omega (arith, h.record_fits))

    length-with_record : length (with_record p i rec) ≡ page_size
    length-with_record = length-splice _ _ _ ∙ length-splice _ _ _ ∙ hp

    with_record_self : take l.record_size (drop (offset l i) (with_record p i rec)) ≡ rec
    with_record_self =
        take-splice_before _ (offset l i + length rec) (offset l i) l.record_size _ (omega arith)
        ∙ ap (λ r. take l.record_size (drop (offset l i) (splice p (offset l i) r))) whole
        ∙ ap (take l.record_size)
            (drop-splice_self p (offset l i) rec (omega (arith, slot_inside i lt, h.record_fits)))
        ∙ take-append_front l.record_size rec _ fits

    with_record_other :
        (j : ℕ)
        → j ≢ i
        → take l.record_size (drop (offset l j) (with_record p i rec))
          ≡ take l.record_size (drop (offset l j) p)
    with_record_other j ne = elim (Bool-cases (ltb j i)) [
      | inl e ↦
          take-splice_before _ (offset l i + length rec) (offset l j) l.record_size _
            (omega (arith, slots_apart j i (ltb→lt _ _ e), h.record_fits))
          ∙ take-splice_before _ (offset l i) (offset l j) l.record_size _
              (omega (arith, slots_apart j i (ltb→lt _ _ e), h.record_fits))
      | inr e ↦ ap (take l.record_size) (
          drop-splice_after _ (offset l i + length rec) (offset l j) _ (
            rw length-replicate
              (omega (arith, slots_apart i j (omega (arith, ltb→ge _ _ e)), h.record_fits)))
          ∙ drop-splice_after p (offset l i) (offset l j) _ (
              rw whole
                (omega (arith, slots_apart i j (omega (arith, ltb→ge _ _ e)), h.record_fits))))
    ]

    with_record-header :
        (k n : ℕ) → n + k ≤ header_size → get_uint k (with_record p i rec) n ≡ get_uint k p n
    with_record-header k n inside =
        get_uint-splice_ne k _ (offset l i + length rec) n _ (inl (omega (arith, h.behind_header)))
        ∙ get_uint-splice_ne k p (offset l i) n _ (inl (omega (arith, h.behind_header)))

-- The header's count of items, as Put sets it.
abbrev counted : Page → ℕ → Page
counted q next = if ltb (get_item_count q) next then set_item_count q next else q

module _ (q : Page) (next : ℕ) (hq : length q ≡ page_size) (small : next < 2 ^ 16) where
  counted-item_count : get_item_count (counted q next) ≡ max (get_item_count q) next
  counted-item_count =
      if-cases (λ t. get_item_count t ≡ max (get_item_count q) next) (ltb (get_item_count q) next) _
        _ (λ e. omega (arith, get_uint-put_uint_self 2 q 6 next (omega arith), ltb→lt _ _ e))
        (λ e. omega (arith, ltb→ge _ _ e))

  counted-ne : (k n : ℕ) → (n + k ≤ 6) ⊎ (8 ≤ n) → get_uint k (counted q next) n ≡ get_uint k q n
  counted-ne k n apart =
      if-cases (λ t. get_uint k t n ≡ get_uint k q n) (ltb (get_item_count q) next) _ _
        (λ e. get_uint-put_uint_ne k q 6 n 2 next (omega arith)) (λ e. refl)

  drop-counted : (j : ℕ) → 8 ≤ j → drop j (counted q next) ≡ drop j q
  drop-counted j far =
      if-cases (λ (t : Page). drop j t ≡ drop j q) (ltb (get_item_count q) next) _ _
        (λ e. drop-set_header q j 6 next far) (λ e. refl)

  length-counted : length (counted q next) ≡ page_size
  length-counted =
      if-cases (λ (t : Page). length t ≡ page_size) (ltb (get_item_count q) next) _ _
        (λ e. length-splice q 6 (be_bytes 2 next) ∙ hq) (λ e. hq)

-- `q` is the page `p` after the record was stored in slot `i`.
pub record IsStored (l : Layout) (p : Page) (i : ℕ) (rec : List ℕ) (q : Page) : Type 0 where
  pub stored : get l q i ≡ ok rec
  pub others : (j : ℕ) → j < l.capacity → j ≢ i → get l q j ≡ get l p j
  pub item_count : get_item_count q ≡ max (get_item_count p) (i + 1)
  pub free_start : get_free_start q ≡ cut (offset l (get_item_count q))
  pub same_page : (get_id q ≡ get_id p) × (get_kind q ≡ get_kind p)
  pub same_size : length q ≡ page_size

module _ {size to : ℕ} (l : Layout) (h : IsLayout size to l) where
  get-slot :
      (q : Page) (j : ℕ)
      → length q ≡ page_size
      → j < l.capacity
      → get l q j ≡ ok (take l.record_size (drop (offset l j) q))
  unfolding get get_ref
  get-slot q j hq lt = ap (get_at l q) (slot_range-ok l h q j hq lt)

  module _ (p : Page) (i : ℕ) (rec : List ℕ) (hp : length p ≡ page_size) (lt : i < l.capacity)
      (fits : length rec ≡ l.record_size) where
    -- What Put leaves, by its steps.
    abbrev body : Page
    body = with_record l h p i rec

    abbrev next : ℕ
    next = cut (cut i + 1)

    abbrev done : Page
    done = set_free_start (counted body next) (offset l (get_item_count (counted body next)))

    length-body : length body ≡ page_size
    length-body = length-with_record l h p i rec hp lt fits

    drop-done : (j : ℕ) → header_size ≤ j → drop j done ≡ drop j body
    drop-done j far =
        drop-set_header (counted body next) j 8 _ (omega arith)
        ∙ drop-counted body next length-body (omega arith) j (omega arith)

    length-done : length done ≡ page_size
    length-done = length-splice _ 8 _ ∙ length-counted body next length-body (omega arith)

    header-done : (k n : ℕ) → n + k ≤ 6 → get_uint k done n ≡ get_uint k p n
    header-done k n low =
        get_uint-put_uint_ne k (counted body next) 8 n 2 _ (inl (omega arith))
        ∙ counted-ne body next length-body (omega arith) k n (inl low)
        ∙ with_record-header l h p i rec hp lt fits k n (omega arith)

    item_count-done : get_item_count done ≡ get_item_count (counted body next)
    item_count-done = get_uint-put_uint_ne 2 (counted body next) 8 6 2 _ (inl (omega arith))

    done-IsStored : IsStored l p i rec done
    done-IsStored = record {
      stored =
          get-slot done i length-done lt
          ∙ ap ok (
              ap (take l.record_size) (drop-done (offset l i) (omega (arith, h.behind_header)))
              ∙ with_record_self l h p i rec hp lt fits);
      others = λ j ltj ne.
          get-slot done j length-done ltj
          ∙ ap ok (
              ap (take l.record_size) (drop-done (offset l j) (omega (arith, h.behind_header)))
              ∙ with_record_other l h p i rec hp lt fits j ne)
          ∙ sym (get-slot p j hp ltj);
      item_count =
          item_count-done
          ∙ counted-item_count body next length-body (omega arith)
          ∙ omega
              (arith, with_record-header l h p i rec hp lt fits 2 6 (omega arith), few_slots l h);
      free_start =
          get_uint-put_uint_self 2 (counted body next) 8 _
            (omega (arith, length-counted body next length-body (omega arith)))
          ∙ ap (λ n. cut (offset l n)) (sym item_count-done);
      same_page = (header-done 4 0 (omega arith), header-done 1 4 (omega arith));
      same_size = length-done;
    }

  -- In a layout as NewLayout returns them, for a page of 4096 bytes, Put of a record of the layout's
  -- size at a slot below the capacity succeeds: Get returns that record from its slot and what it
  -- returned before from every other, the header's id and kind are as they were, its item count is
  -- the larger of what it was and one more than the slot's number, and its free start is the offset
  -- behind the last counted slot, at 16 bits.
  pub put-IsStored :
      (p : Page) (i : ℕ) (rec : List ℕ)
      → length p ≡ page_size
      → i < l.capacity
      → length rec ≡ l.record_size
      → (q : Page) × (put l p i rec ≡ ok q) × IsStored l p i rec q
  unfolding put fill_slot
  put-IsStored p i rec hp lt fits = (
    done p i rec hp lt fits,
    ap (put_at l p i rec) (slot_range-ok l h p i hp lt) ∙ ground arith,
    done-IsStored p i rec hp lt fits,
  )

  -- For a page of 4096 bytes, Put with a slot from the capacity on or below 0, or with a record of
  -- another size than the layout's, is refused, the slot before the record.
  pub put-refuses :
      (p : Page) (i : ℕ) (rec : List ℕ)
      → length p ≡ page_size
      → i < 2 ^ 64
      → (l.capacity ≤ i) ⊎ (length rec ≢ l.record_size)
      → put l p i rec ≡ (if leb l.capacity i then err out_of_range else err record_size)
  unfolding put
  put-refuses p i rec hp hi bad = elim (Bool-cases (leb l.capacity i)) [
    | inl e ↦ ap (put_at l p i rec) (slot_range-err l h p i hi (ground arith)) ∙ ground arith
    | inr e ↦ ap (put_at l p i rec) (slot_range-ok l h p i hp (ground arith)) ∙ ground arith
  ]
