-- ===== src/Pagestore/Run/Verify.antt =====
-- Verify finds nothing wrong with a store that the operations made.
use scutedb.Base.{
  ℕ, ◌≤◌, ◌≡◌, refl, sym, subst, arith, List, [], ◌∷◌, has, lookup, lookup-nil, lookup-insert_all,
  insert_all, none, some,
}
use scutedb.Base.{if◌then◌else◌, true, ok}
use scutedb.Fileio.{File}
use scutedb.Fileio.Laws.{IsFile}
use scutedb.Fileio.Disk.{IsDisk}
use scutedb.Base.{max}
use scutedb.Fileio.Disk.{Touch-extent}
use scutedb.Pagestore.Run.{World, Quietly}
use scutedb.Pagestore.Run.Crash.{Quietly-QuietRun, reached_keeps}
use scutedb.Pagestore.Run.Backed.{Quietly-IsBacked}
use scutedb.Pagestore.Run.Recover.{OnDisk-moved}
use scutedb.Page.Disk.{Holds}
use scutedb.Page.Disk.{IsSame-trans, read-page_at, page_at-IsSame}
use scutedb.Pagestore.Load.Chain.{OnChain-ext}
use scutedb.Pagestore.Load.Recover.{
  OnDisk, page_count-extent, decode_meta-OnDisk, read_free_list-OnDisk,
}
use scutedb.Pagestore.Load.Checks.{check_meta-passes, check_free_set-passes}
use scutedb.Pagestore.Verify.{same_meta}
use scutedb.Pagestore.Types.{Store, PageState, Meta, meta_page}
use scutedb.Pagestore.Ops.{in_range, usable}
use scutedb.Pagestore.Verify.{
  check_root, record_ids, record_all, Seen, all_listed, is_some, check_listed, check_counts,
  verify_live,
}
use scutedb.Pagestore.Sound.{IsSound}
use scutedb.Pagestore.Load.{verify}
use scutedb.Pagestore.Load.Checks.{record_ids-marks, same_ids_self, check_reusable_within}

all_listed-passes :
    (seen m : Seen)
    → ((id : ℕ) → is_some (lookup id m) ≡ true → is_some (lookup id seen) ≡ true)
    → all_listed seen m ≡ ok tt
unfolding lookup
all_listed-passes seen [] h = refl
all_listed-passes seen ((id, st) ∷ m) h =
    let rest = all_listed-passes seen m (λ j q. h j (ground (arith, q))) in
    ground (arith, rest, h id)

module _ (base : List ℕ) (s : Store) (h : IsSound base s) where
  abbrev seen_free : Seen
  seen_free = insert_all PageState.free s.free []

  abbrev seen_pending : Seen
  seen_pending = insert_all PageState.pending s.pending seen_free

  abbrev seen_all : Seen
  seen_all = insert_all PageState.free_list s.list_page seen_pending

  after_free : (j : ℕ) → lookup j seen_free ≡ (if has j s.free then some PageState.free else none)
  after_free j =
      ground (arith, lookup-insert_all j PageState.free s.free [], lookup-nil {V = PageState} j)

  after_pending :
      (j : ℕ)
      → lookup j seen_pending
        ≡ (if has j s.pending then some PageState.pending else lookup j seen_free)
  after_pending j = lookup-insert_all j PageState.pending s.pending seen_free

  record_free : record_ids s PageState.free [] s.free ≡ ok seen_free
  record_free =
      record_ids-marks s PageState.free [] s.free (λ j. omega (arith, h.once j))
        (λ j q. ground (arith, h.listed j, h.once j, h.marks j, lookup-nil {V = PageState} j))

  record_pending : record_ids s PageState.pending seen_free s.pending ≡ ok seen_pending
  record_pending =
      record_ids-marks s PageState.pending seen_free s.pending (λ j. omega (arith, h.once j))
        (λ j q. ground (arith, h.listed j, h.once j, h.marks j, after_free j))

  record_lists : record_ids s PageState.free_list seen_pending s.list_page ≡ ok seen_all
  record_lists =
      record_ids-marks s PageState.free_list seen_pending s.list_page (λ j. omega (arith, h.once j))
        (λ j q. ground (arith, h.listed j, h.once j, h.marks j, after_free j, after_pending j))

  recorded_all : record_all s ≡ ok seen_all
  unfolding record_ids
  recorded_all = rw (record_free, record_pending, record_lists) refl

  marked_seen : (j : ℕ) → is_some (lookup j s.status) ≡ true → is_some (lookup j seen_all) ≡ true
  marked_seen j q = ground (
    arith,
    q,
    h.marks j,
    after_free j,
    after_pending j,
    lookup-insert_all j PageState.free_list s.list_page seen_pending,
  )

  listed_passes : check_listed s (record_all s) ≡ ok tt
  listed_passes = rw recorded_all (ground (arith, all_listed-passes seen_all s.status marked_seen))

  counts_pass : (n : ℕ) → s.file_pages ≤ n → check_counts s n ≡ ok tt
  counts_pass n big = ground (arith, h.durable_before, h.file_holds)

  root_passes : check_root s ≡ ok tt
  unfolding in_range
  root_passes = ground (arith, h.root_range, h.root_live, h.marks s.root)

  pub verify_live-IsSound : (n : ℕ) → s.file_pages ≤ n → verify_live s n base s.list_page ≡ ok tt
  unfolding verify_live
  verify_live-IsSound n big =
      rw
        (
          counts_pass n big,
          root_passes,
          same_ids_self s.list_page,
          listed_passes,
          check_reusable_within base s.free h.reusable,
        )
        refl

same_meta_self : (m : Meta) → same_meta m m ≡ true
same_meta_self m = ground arith

module _ {F : Type 0} {f : File F} (law : IsFile f) (disk : IsDisk f law) where
  -- A store that satisfies the invariant, over a file that holds its last checkpoint and has room
  -- for the pages that the store counts.
  verify-IsSound :
      (base : List ℕ) (s : Store) (w : F)
      → IsSound base s
      → OnDisk law disk w s.durable base s.list_page
      → Holds law disk s.file_pages w
      → usable s ≡ ok tt
      → (v : F) × (verify f s w ≡ (ok tt, v))
  unfolding verify
  verify-IsSound base s w sound d room use_it =
      let h = d.recorded in
      let (w1, got1, same1) =
        read-page_at law disk w meta_page (omega (arith, d.backed, h.file_holds)) in
      let (n, w2, got2, same2, big) =
        page_count-extent law disk w1 (max s.file_pages s.durable.file_pages)
          (omega (arith, sound.ids_left, h.file_holds))
          (omega (arith, room, d.backed, same1.same_extent)) in
      let same = IsSame-trans law disk same1 same2 in
      let (w3, got3, same3) =
        read_free_list-OnDisk law disk s.durable base s.list_page w2 h
          (OnChain-ext law disk w w2 base 0 s.list_page (λ j _. page_at-IsSame law disk w w2 j same)
            d.lists_there)
          (omega (arith, d.backed, same.same_extent)) in
      (
        w3,
        rw
            (
              use_it,
              got1,
              d.meta_there,
              decode_meta-OnDisk law disk s.durable base s.list_page h,
              same_meta_self s.durable,
              got2,
              check_meta-passes s.durable base s.list_page h n (omega (arith, big)),
              got3,
              check_free_set-passes s.durable base s.list_page h,
              verify_live-IsSound base s sound n (omega (arith, big)),
            )
            refl,
      )

  -- From a store that satisfies the invariant, over a file that holds its last checkpoint and has
  -- room for the pages that the store counts, let a client call SetRoot, Free, Read, Allocate, Sync,
  -- Discard, and Write for pages that the last checkpoint does not reach, in any order and whatever
  -- the file answers. If the store is neither closed nor poisoned then, Verify finds nothing wrong.
  -- Writes to pages that the last checkpoint reaches, and calls of Checkpoint, Close and Verify, are
  -- not among the calls.
  pub verify-Quietly :
      {x y : World F}
      → IsSound x.base x.store
      → OnDisk law disk x.file x.store.durable x.base x.store.list_page
      → Holds law disk x.store.file_pages x.file
      → Quietly f x y
      → usable y.store ≡ ok tt
      → (v : F) × (verify f y.store y.file ≡ (ok tt, v))
  verify-Quietly {x} {y} h d room r use_it =
      let run = Quietly-QuietRun f h r in
      let (sound, there) = Quietly-IsBacked law disk h r room in
      let kept =
        OnDisk-moved law disk law disk x y.file h
          (record {
            kept = λ id k q hk. (reached_keeps f law id k h r q hk).0;
            as_long = omega (arith, d.backed, Touch-extent disk run.touched);
          })
          d in
      let same : OnDisk law disk y.file y.store.durable y.base y.store.list_page =
        subst (λ (m : Meta × List ℕ). OnDisk law disk y.file m.0 y.base m.1) (sym run.same_durable)
          (subst (λ b. OnDisk law disk y.file x.store.durable b x.store.list_page)
            (sym run.same_base) kept) in
      verify-IsSound y.base y.store y.file sound same there use_it
