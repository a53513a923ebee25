-- ===== src/Pagestore/Load/Pages.antt =====
-- What readFreeList finds on a page that checkpoint wrote for the free list.
use scutedb.Base.{ℕ, zero, suc, ◌+◌, ◌*◌, ◌^◌, ◌≤◌, ◌<◌, ◌≡◌, refl, ap₂, ◌∙◌, arith, inl, inr, ◌⊎◌}
use scutedb.Base.{List, [], ◌∷◌, length, All, length-splice}
use scutedb.Base.{ok, get_uint, put_uint, be_bytes, get_uint-put_uint_self, get_uint-put_uint_ne}
use scutedb.Fileio.Touch.{page_size}
use scutedb.Page.{
  Page, get_id, get_kind, get_item_count, set_item_count, set_free_start, kind_free_list,
}
use scutedb.Page
use scutedb.Page.Header.{get_id-new, get_kind-new, length-new}
use scutedb.Pagestore.Types.{free_list_header, free_list_capacity, off_free_list_next}
use scutedb.Pagestore.Format.{put_entries, free_list_bytes}
use scutedb.Pagestore.Load.{check_list_page, page_entries}

put_entries-before :
    (k off : ℕ) (p : Page) (j : ℕ) (es : List ℕ)
    → off + k ≤ free_list_header + 4 * j
    → get_uint k (put_entries p j es) off ≡ get_uint k p off
unfolding put_entries
put_entries-before k off p j [] h = refl
put_entries-before k off p j (e ∷ es) h =
    put_entries-before k off (put_uint 4 p (20 + 4 * j) e) (j + 1) es (omega arith)
    ∙ get_uint-put_uint_ne k p (20 + 4 * j) off 4 e (inl (omega arith))

length-put_entries : (p : Page) (j : ℕ) (es : List ℕ) → length (put_entries p j es) ≡ length p
unfolding put_entries
length-put_entries p j [] = refl
length-put_entries p j (e ∷ es) =
    length-put_entries (put_uint 4 p (20 + 4 * j) e) (j + 1) es ∙ length-splice p (20 + 4 * j) _

abbrev pub FitsWord : ℕ → Type 0
FitsWord v = v < 2 ^ 32

page_entries-put_entries :
    (p : Page) (j : ℕ) (es : List ℕ)
    → All FitsWord es
    → free_list_header + 4 * (j + length es) ≤ length p
    → page_entries (put_entries p j es) j (length es) ≡ es
unfolding put_entries page_entries
page_entries-put_entries p j [] fit room = refl
page_entries-put_entries p j (e ∷ es) fit room =
    let q = put_uint 4 p (20 + 4 * j) e in
    ap₂ (λ (x : ℕ) xs. x ∷ xs)
      (put_entries-before 4 (20 + 4 * j) q (j + 1) es (omega arith)
        ∙ get_uint-put_uint_self 4 p (20 + 4 * j) e (omega arith)
        ∙ omega (arith, fit))
      (page_entries-put_entries q (j + 1) es fit.1 (rw length-splice (omega arith)))

-- The header's counts are no part of the entries.
page_entries-ne :
    (p : Page) (off v i n : ℕ)
    → off + 2 ≤ free_list_header
    → page_entries (put_uint 2 p off v) i n ≡ page_entries p i n
unfolding page_entries
page_entries-ne p off v i zero h = refl
page_entries-ne p off v i (suc n) h =
    ap₂ (λ (x : ℕ) xs. x ∷ xs) (get_uint-put_uint_ne 4 p off (20 + 4 * i) 2 v (inr (omega arith)))
      (page_entries-ne p off v (i + 1) n h)

module _ (id next : ℕ) (es : List ℕ) (few : length es ≤ free_list_capacity) where
  abbrev linked : Page
  linked = put_uint 4 (Page.new id kind_free_list) off_free_list_next next

  abbrev filled : Page
  filled = put_entries linked 0 es

  length-filled : length filled ≡ page_size
  length-filled =
      length-put_entries linked 0 es ∙ length-splice _ _ _ ∙ length-new id kind_free_list

  header_read :
      (k off : ℕ)
      → (off + k ≤ 6) ⊎ (10 ≤ off)
      → off + k ≤ free_list_header
      → get_uint k (free_list_bytes id next es) off ≡ get_uint k linked off
  unfolding free_list_bytes
  header_read k off apart low =
      get_uint-put_uint_ne k _ 8 off 2 _ (omega arith)
      ∙ get_uint-put_uint_ne k _ 6 off 2 _ (omega arith)
      ∙ put_entries-before k off linked 0 es low

  id_found : FitsWord id → get_id (free_list_bytes id next es) ≡ id
  id_found h =
      header_read 4 0 (inl (omega arith)) (omega arith)
      ∙ get_uint-put_uint_ne 4 _ 16 0 4 next (inl (omega arith))
      ∙ get_id-new id kind_free_list h

  kind_found : get_kind (free_list_bytes id next es) ≡ kind_free_list
  kind_found =
      header_read 1 4 (inl (omega arith)) (omega arith)
      ∙ get_uint-put_uint_ne 1 (Page.new id kind_free_list) 16 4 4 next (inl (omega arith))
      ∙ get_kind-new id kind_free_list (omega arith)

  pub next_found : FitsWord next → get_uint 4 (free_list_bytes id next es) off_free_list_next ≡ next
  next_found h =
      header_read 4 16 (inr (omega arith)) (omega arith)
      ∙ get_uint-put_uint_self 4 (Page.new id kind_free_list) 16 next
          (omega (arith, length-new id kind_free_list))
      ∙ omega arith

  pub count_found : get_item_count (free_list_bytes id next es) ≡ length es
  unfolding free_list_bytes
  count_found =
      get_uint-put_uint_ne 2 _ 8 6 2 _ (inl (omega arith))
      ∙ get_uint-put_uint_self 2 filled 6 (length es) (omega (arith, length-filled))
      ∙ omega arith

  pub entries_found : All FitsWord es → page_entries (free_list_bytes id next es) 0 (length es) ≡ es
  unfolding free_list_bytes
  entries_found fit =
      page_entries-ne _ 8 _ 0 (length es) (omega arith)
      ∙ page_entries-ne filled 6 _ 0 (length es) (omega arith)
      ∙ page_entries-put_entries linked 0 es fit (
          omega (
            arith,
            length-splice (Page.new id kind_free_list) 16 (be_bytes 4 next),
            length-new id kind_free_list,
          ))

  pub check_passes : FitsWord id → check_list_page (free_list_bytes id next es) id ≡ ok tt
  check_passes h = rw (kind_found, id_found h, count_found) (ground (arith, few))

  pub length-free_list_bytes : length (free_list_bytes id next es) ≡ page_size
  unfolding free_list_bytes
  length-free_list_bytes = length-splice _ 8 _ ∙ length-splice filled 6 _ ∙ length-filled
