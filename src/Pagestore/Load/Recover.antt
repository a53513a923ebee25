-- ===== src/Pagestore/Load/Recover.antt =====
-- Load finds what a checkpoint recorded.
use scutedb.Base.Missing.{unseen-length}
use scutedb.Base.{ℕ, suc, ◌*◌, ◌/◌, ◌%◌, ◌^◌, ◌≤◌, ◌<◌, ◌≡◌, refl, ap, ◌∙◌, arith}
use scutedb.Base.{
  List, [], ◌∷◌, length, All, count, Bool, true, ltb, ◌==◌, if◌then◌else◌, ok, err, Option, none,
  some,
}
use scutedb.Base.State.{M, bind, pure, fail}
use scutedb.Fileio.{File, IoError}
use scutedb.Fileio.Touch.{page_size}
use scutedb.Fileio.Laws.{IsFile}
use scutedb.Fileio.Disk.{IsDisk, IsWilling}
use scutedb.Page.{Page, get_id, finish, max_uint32, page_count}
use scutedb.Page
use scutedb.Pagestore.Types.{corrupt, Meta, Error, meta_page}
use scutedb.Pagestore.Format.{encode_meta, decode_meta}
use scutedb.Pagestore.Format.RoundTrip.{IsFit, decode_meta-encode_meta, length-encode_meta}
use scutedb.Pagestore.Load.{read_chain, read_free_list, load, loaded}
use scutedb.Pagestore.Load.Pages.{FitsWord}
use scutedb.Pagestore.Load.Chunks.{chunks-all}
use scutedb.Page.Disk.{page_at, IsSame, IsSame-trans, read-page_at, page_at-IsSame}
use scutedb.Pagestore.Load.Chain.{next_fits, OnChain, OnChain-ext, read_chain-OnChain}
use scutedb.Pagestore.Load.Recorded.{IsRecorded}
use scutedb.Pagestore.Load.Checks.{check_meta-passes, check_free_set-passes, verify_live-passes}

All-FitsWord :
    (n : ℕ) (ids : List ℕ) → n ≤ 2 ^ 32 → ((j : ℕ) → 1 ≤ count j ids → j < n) → All FitsWord ids
All-FitsWord n [] hn h = tt
All-FitsWord n (id ∷ ids) hn h =
    (ground (arith, h id), All-FitsWord n ids hn (λ j q. h j (ground arith)))

module _ {F : Type 0} {f : File F} (law : IsFile f) (disk : IsDisk f law) where
  -- The file holds the meta page and the free-list pages that record `m`, `es` and `ls`.
  pub record OnDisk (w : F) (m : Meta) (es ls : List ℕ) : Type 0 where
    pub recorded : IsRecorded m es ls
    pub meta_there : page_at law disk w meta_page ≡ encode_meta m
    pub lists_there : OnChain law disk w es 0 ls
    pub backed : m.file_pages * page_size ≤ disk.extent w

  pub page_count-extent :
      (w : F) (n : ℕ)
      → n ≤ max_uint32
      → n * page_size ≤ disk.extent w
      → (k : ℕ) × (v : F) × (page_count f w ≡ (ok k, v)) × IsSame law disk w v × (n ≤ k)
  unfolding page_count
  page_count-extent w n fits there =
      let e = disk.extent w in
      (
        if ltb max_uint32 (e / page_size) then max_uint32 else e / page_size,
        (f.size w).1,
        rw (disk.size_back w) refl,
        record { same_cells = λ i. law.after_size w i; same_extent = disk.size_keeps w },
        ground arith,
      )

module _ {F : Type 0} {f : File F} (law : IsFile f) (disk : IsDisk f law) (m : Meta)
    (es ls : List ℕ) where
  meta_fits : IsRecorded m es ls → IsFit m
  meta_fits h = record {
    version_fits = omega (arith, h.this_version);
    page_size_fits = omega (arith, h.this_size);
    root_fits = omega (arith, h.root_range, h.file_holds);
    free_list_page_fits = omega (
      arith,
      h.first_list,
      next_fits law disk m (omega (arith, h.file_holds)) ls (λ j q. h.listed j (omega arith)),
    );
    free_count_fits = omega (arith, h.counted);
    next_page_fits = omega (arith, h.file_holds);
    file_pages_fits = omega (arith, h.file_holds);
    checkpoint_fits = h.numbered;
  }

  pub decode_meta-OnDisk : IsRecorded m es ls → decode_meta (encode_meta m) ≡ ok m
  decode_meta-OnDisk h =
      decode_meta-encode_meta m (meta_fits h) ∙ ground (arith, h.this_version, h.this_size)

  pub read_free_list-OnDisk :
      (w : F)
      → IsRecorded m es ls
      → OnChain law disk w es 0 ls
      → m.file_pages * page_size ≤ disk.extent w
      → (v : F) × (read_free_list f m w ≡ (ok (es, ls), v)) × IsSame law disk w v
  unfolding read_free_list
  read_free_list-OnDisk w h c backed =
      let below =
        unseen-length m.next_page ls (λ j. omega (arith, h.once j))
          (λ j q. (h.listed j (omega arith)).1) in
      let (v, got, same) =
        read_chain-OnChain law disk m (omega (arith, h.file_holds)) (suc m.next_page) es 0 ls [] []
          w c (omega (arith, below))
          (All-FitsWord m.next_page es (omega (arith, h.file_holds))
            (λ j q. (h.listed j (omega arith)).1))
          (λ j q. h.listed j (omega arith)) (λ j. omega (arith, h.once j))
          (omega (arith, backed, h.file_holds)) in
      let test : (length es % 2 ^ 32 == m.free_count) ≡ true = ground (arith, h.counted) in
      (
        v,
        ap (λ id. bind (read_chain f m (suc m.next_page) id [] [] w) sized) h.first_list
            ∙ ap (λ t. bind t sized) (got ∙ ap (λ x. (ok (x, ls), v)) (chunks-all es ls h.all_held))
            ∙ ap (λ (b : Bool). (if b then pure (es, ls) else fail corrupt) v) test,
        same,
      )
    where
      sized : List ℕ × List ℕ → M Error F (List ℕ × List ℕ)
      sized r = if length r.0 % 2 ^ 32 == m.free_count then pure r else fail corrupt

  finish-none : (r : Option IoError × F) → r.0 ≡ none → finish r ≡ (ok tt, r.1)
  finish-none (none, v) e = refl
  finish-none (some x, v) e = absurd (ground arith)

  write_meta-willing :
      (w : F) → IsWilling f → (v : F) × (Page.write f (encode_meta m) w ≡ (ok tt, v))
  unfolding Page.write
  write_meta-willing w will =
      let r = f.write_at w (encode_meta m) (get_id (encode_meta m) * page_size) in
      let full : (length (encode_meta m) == page_size) ≡ true =
        ap (λ n. n == page_size) (length-encode_meta m) in
      (
        r.1,
        ap (λ (b : Bool). if b then finish r else (err Page.Error.page_length, w)) full
            ∙ finish-none r (will.accepts w (encode_meta m) (get_id (encode_meta m) * page_size)),
      )

  sync_willing : (w : F) → IsWilling f → Page.sync f w ≡ (ok tt, (f.sync w).1)
  unfolding Page.sync
  sync_willing w will = finish-none (f.sync w) (will.syncs_well w)

  -- On a file that holds what a checkpoint recorded, and that takes writes and syncs, load succeeds
  -- with the store of that checkpoint: its root, its counts, its free list and list pages, and nothing
  -- pending.
  pub load-OnDisk :
      (w : F)
      → IsWilling f
      → OnDisk law disk w m es ls
      → (v : F) × (load f w ≡ (ok (loaded m es ls), v))
  unfolding load
  load-OnDisk w will d =
      let h = d.recorded in
      let (w1, got1, same1) =
        read-page_at law disk w meta_page (omega (arith, d.backed, h.file_holds)) in
      let (n, w2, got2, same2, big) =
        page_count-extent law disk w1 m.file_pages (omega (arith, h.file_holds))
          (omega (arith, d.backed, same1.same_extent)) in
      let same = IsSame-trans law disk same1 same2 in
      let (w3, got3, same3) =
        read_free_list-OnDisk w2 h
          (OnChain-ext law disk w w2 es 0 ls (λ j _. page_at-IsSame law disk w w2 j same)
            d.lists_there)
          (omega (arith, d.backed, same.same_extent)) in
      let (w4, got4) = write_meta-willing w3 will in
      (
        (f.sync w4).1,
        rw
            (
              got1,
              d.meta_there,
              decode_meta-OnDisk h,
              got2,
              check_meta-passes m es ls h n big,
              got3,
              check_free_set-passes m es ls h,
              verify_live-passes m es ls h n big,
              got4,
              sync_willing w4 will,
            )
            refl,
      )
