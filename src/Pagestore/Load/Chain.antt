-- ===== src/Pagestore/Load/Chain.antt =====
-- What readFreeList returns for a free list that checkpoint wrote.
use scutedb.Pagestore.Load.Chunks.{chunks, length-chunk, All-chunk}
use scutedb.Base.{ℕ, zero, suc, ◌+◌, ◌*◌, ◌^◌, ◌≤◌, ◌<◌, ◌≡◌, refl, sym, ap, ap₂, ◌∙◌, arith}
use scutedb.Base.{
  List, [], ◌∷◌, ◌++◌, length, All, append_assoc, append-nil, count, has, count-append,
}
use scutedb.Base.{leb, ◌==◌, false, Result, ok, get_uint}
use scutedb.Fileio.{File}
use scutedb.Fileio.Touch.{page_size}
use scutedb.Fileio.Laws.{IsFile}
use scutedb.Pagestore.Types
use scutedb.Page.Disk.{page_at, IsSame, IsSame-trans, page_at-IsSame, read-page_at}
use scutedb.Fileio.Disk.{IsDisk}
use scutedb.Page.{Page, get_item_count, finish_read, Error}
use scutedb.Page
use scutedb.Pagestore.Types.{Meta, page, off_free_list_next, free_list_capacity, no_page}
use scutedb.Pagestore.Format.{free_list_bytes}
use scutedb.Pagestore.Checkpoint.{next_list, chunk}
use scutedb.Pagestore.Load.{check_list_page, page_entries, read_chain}
use scutedb.Pagestore.Load.Pages.{FitsWord, check_passes, next_found, count_found, entries_found}

module _ {F : Type 0} {f : File F} (law : IsFile f) (disk : IsDisk f law) where
  -- The pages `ls` hold the entries from the `i`-th page's on, each with the next page's id.
  abbrev pub OnChain : F → List ℕ → ℕ → List ℕ → Type 0
  OnChain w es i [] = Unit {0}
  OnChain w es i (id ∷ ids) =
      (page_at law disk w id ≡ free_list_bytes id (next_list ids) (chunk es i))
      × OnChain w es (i + 1) ids

-- The same pages in another file, maybe behind another interface.
module _ {F G : Type 0} {f : File F} {g : File G} (law : IsFile f) (disk : IsDisk f law)
    (law' : IsFile g) (disk' : IsDisk g law') where
  pub OnChain-moved :
      (w : F) (v : G) (es : List ℕ) (i : ℕ) (ls : List ℕ)
      → ((id : ℕ) → 1 ≤ count id ls → page_at law' disk' v id ≡ page_at law disk w id)
      → OnChain law disk w es i ls
      → OnChain law' disk' v es i ls
  OnChain-moved w v es i [] h c = tt
  OnChain-moved w v es i (id ∷ ids) h c =
      (h id (ground arith) ∙ c.0, OnChain-moved w v es (i + 1) ids (λ j q. h j (ground arith)) c.1)

module _ {F : Type 0} {f : File F} (law : IsFile f) (disk : IsDisk f law) where
  pub OnChain-ext :
      (w v : F) (es : List ℕ) (i : ℕ) (ls : List ℕ)
      → ((id : ℕ) → 1 ≤ count id ls → page_at law disk v id ≡ page_at law disk w id)
      → OnChain law disk w es i ls
      → OnChain law disk v es i ls
  OnChain-ext = OnChain-moved law disk law disk

module _ {F : Type 0} (f : File F) (m : Meta) where
  read_round :
      (fuel id : ℕ) (es ls : List ℕ) (w : F) (p : Page) (v : F)
      → (id == no_page) ≡ false
      → leb m.next_page id ≡ false
      → has id ls ≡ false
      → Page.read f id w ≡ (ok p, v)
      → check_list_page p id ≡ ok tt
      → read_chain f m (suc fuel) id es ls w
        ≡ read_chain f m fuel
            (get_uint 4 p off_free_list_next)
            (es ++ page_entries p 0 (get_item_count p))
            (ls ++ (id ∷ []))
            v
  unfolding read_chain
  read_round fuel id es ls w p v z low new got fine = rw (z, low, new, got, fine) refl

abbrev pub IsListed : Meta → List ℕ → Type 0
IsListed m ls = (id : ℕ) → 1 ≤ count id ls → (1 ≤ id) × (id < m.next_page)

module _ {F : Type 0} {f : File F} (law : IsFile f) (disk : IsDisk f law) (m : Meta)
    (ids_fit : m.next_page ≤ 2 ^ 32) where
  pub next_fits : (ls : List ℕ) → IsListed m ls → FitsWord (next_list ls)
  unfolding next_list
  next_fits [] h = omega arith
  next_fits (id ∷ ids) h = omega (arith, (h id (ground arith)).1, ids_fit)

  pub read_chain-OnChain :
      (fuel : ℕ) (es : List ℕ) (i : ℕ) (ls es0 ls0 : List ℕ) (w : F)
      → OnChain law disk w es i ls
      → length ls < fuel
      → All FitsWord es
      → IsListed m ls
      → ((id : ℕ) → count id ls0 + count id ls ≤ 1)
      → m.next_page * page_size ≤ disk.extent w
      → (v : F) × (read_chain f m fuel (next_list ls) es0 ls0 w
          ≡ (ok (es0 ++ chunks es i ls, ls0 ++ ls), v))
        × IsSame law disk w v
  unfolding next_list
  read_chain-OnChain zero es i ls es0 ls0 w c fuel fit listed once room = absurd (omega arith)
  read_chain-OnChain (suc fuel) es i [] es0 ls0 w c enough fit listed once room = (
    w,
    unfold read_chain in ap₂ (λ a b. (ok (a, b), w)) (sym (append-nil es0)) (sym (append-nil ls0)),
    record { same_cells = λ j. refl; same_extent = refl },
  )
  read_chain-OnChain (suc fuel) es i (id ∷ ids) es0 ls0 w c enough fit listed once room =
      let here = listed id (ground arith) in
      let small : id < 2 ^ 32 = omega (arith, here, ids_fit) in
      let (v, got, same) = read-page_at law disk w id (omega (arith, here, room)) in
      let next_fit = next_fits ids (λ j q. listed j (ground arith)) in
      let (u, rest, same') =
        read_chain-OnChain fuel es (i + 1) ids (es0 ++ chunk es i) (ls0 ++ (id ∷ [])) v
          (OnChain-ext law disk w v es (i + 1) ids (λ j _. page_at-IsSame law disk w v j same) c.1)
          (omega arith) fit (λ j q. listed j (ground arith))
          (λ j. omega (arith, once j, count-append j ls0 (id ∷ [])))
          (omega (arith, room, same.same_extent)) in
      (
        u,
        read_round f m fuel id es0 ls0 w (page_at law disk w id) v (ground (arith, here))
              (ground (arith, here)) (ground (arith, once id)) got
              (ap (λ p. check_list_page p id) c.0
                ∙ check_passes id (next_list ids) (chunk es i) (length-chunk es i) small)
            ∙ ap (after v) c.0
            ∙ ap₂ (λ n en. read_chain f m fuel n (es0 ++ en) (ls0 ++ (id ∷ [])) v)
                (next_found id (next_list ids) (chunk es i) (length-chunk es i) next_fit)
                (ap (page_entries (bytes_of i) 0)
                    (count_found id (next_list ids) (chunk es i) (length-chunk es i))
                  ∙ entries_found id (next_list ids) (chunk es i) (length-chunk es i)
                      (All-chunk FitsWord es i fit))
            ∙ rest
            ∙ ap₂ (λ a b. (ok (a, b), u)) (append_assoc es0 (chunk es i) (chunks es (i + 1) ids))
                (append_assoc ls0 (id ∷ []) ids),
        IsSame-trans law disk same same',
      )
    where
      bytes_of : ℕ → Page
      bytes_of i = free_list_bytes id (next_list ids) (chunk es i)

      after : F → Page → Result Types.Error (List ℕ × List ℕ) × F
      after v p =
          read_chain f m fuel (get_uint 4 p off_free_list_next)
            (es0 ++ page_entries p 0 (get_item_count p)) (ls0 ++ (id ∷ [])) v
