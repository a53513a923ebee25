-- ===== src/Pagestore/Load/Checks.antt =====
-- The checks of load pass on what a checkpoint records.
use scutedb.Base.{==_self}
use scutedb.Base.{ℕ, ◌+◌, ◌≤◌, ◌<◌, ◌≡◌, refl, arith}
use scutedb.Base.{
  List, [], ◌∷◌, length, count, has, lookup, lookup-nil, lookup-insert, lookup-insert_all, insert,
  insert_all, none, some,
}
use scutedb.Base.{if◌then◌else◌, true, ok}
use scutedb.Pagestore.Types.{Meta, Store, PageState}
use scutedb.Pagestore.Format.{check_meta}
use scutedb.Pagestore.Ops.{in_range}
use scutedb.Pagestore.Checkpoint.{marks}
use scutedb.Pagestore.Verify.{
  check_lists, check_entries, check_free_set, check_root, same_ids, record_ids, record_all,
  is_marked, Seen, check_listed, check_reusable, check_counts, verify_live,
}
use scutedb.Pagestore.Load.{loaded}
use scutedb.Pagestore.Load.Recorded.{IsRecorded}

check_lists-passes : (m : Meta) (ids : List ℕ) → count m.root ids ≡ 0 → check_lists m ids ≡ ok tt
check_lists-passes m [] h = refl
check_lists-passes m (id ∷ ids) h = ground (arith, check_lists-passes m ids)

check_entries-passes :
    (m : Meta) (seen ids : List ℕ)
    → ((j : ℕ) → 1 ≤ count j ids → (1 ≤ j) × (j < m.next_page))
    → ((j : ℕ) → count j seen + count j ids ≤ 1)
    → count m.root ids ≡ 0
    → check_entries m seen ids ≡ ok tt
check_entries-passes m seen [] r o h = refl
check_entries-passes m seen (id ∷ ids) r o h =
    let rest =
      check_entries-passes m (id ∷ seen) ids (λ j q. r j (ground arith)) (λ j. ground (arith, o j))
        (ground arith) in
    ground (arith, rest, r id, o id)

pub same_ids_self : (ids : List ℕ) → same_ids ids ids ≡ true
same_ids_self [] = refl
same_ids_self (id ∷ ids) = ground (arith, same_ids_self ids)

pub check_reusable_within :
    (es ids : List ℕ) → ((j : ℕ) → count j ids ≤ count j es) → check_reusable es ids ≡ ok tt
check_reusable_within es [] h = refl
check_reusable_within es (id ∷ ids) h =
    let rest = check_reusable_within es ids (λ j. ground (arith, h j)) in ground (arith, rest, h id)

pub record_ids-marks :
    (s : Store) (want : PageState) (seen : Seen) (ids : List ℕ)
    → ((j : ℕ) → count j ids ≤ 1)
    → ((j : ℕ)
        → 1 ≤ count j ids
        → (1 ≤ j)
          × (j < s.next_page)
          × (lookup j seen ≡ none)
          × (is_marked (lookup j s.status) want ≡ true))
    → record_ids s want seen ids ≡ ok (insert_all want ids seen)
unfolding record_ids insert_all
record_ids-marks s want seen [] o h = refl
record_ids-marks s want seen (id ∷ ids) o h =
    let rest =
      record_ids-marks s want (insert id want seen) ids (λ j. ground (arith, o j))
        (λ j q. ground (arith, o j, h j, lookup-insert id j want seen)) in
    ground (arith, rest, h id)

module _ (m : Meta) (es ls : List ℕ) (h : IsRecorded m es ls) where
  pub check_meta-passes : (n : ℕ) → m.file_pages ≤ n → check_meta m n ≡ ok tt
  unfolding check_meta
  check_meta-passes n big = ground (arith, h.file_holds, h.root_range)

  pub check_free_set-passes : check_free_set m es ls ≡ ok tt
  unfolding check_free_set
  check_free_set-passes =
      rw
        (
          check_lists-passes m ls (omega (arith, h.root_live)),
          check_entries-passes m ls es (λ j q. h.listed j (omega arith))
              (λ j. omega (arith, h.once j)) (omega (arith, h.root_live)),
        )
        refl

  status_of :
      (id : ℕ)
      → lookup id (marks es ls) ≡ (
          if has id ls
          then some PageState.free_list
          else if has id es
          then some PageState.free
          else none)
  status_of id = ground (
    arith,
    lookup-insert_all id PageState.free_list ls (insert_all PageState.free es []),
    lookup-insert_all id PageState.free es [],
    lookup-nil {V = PageState} id,
  )

  record_free :
      record_ids (loaded m es ls) PageState.free [] es ≡ ok (insert_all PageState.free es [])
  record_free =
      record_ids-marks (loaded m es ls) PageState.free [] es (λ j. omega (arith, h.once j))
        (λ j q. ground (arith, h.listed j, h.once j, status_of j, lookup-nil {V = PageState} j))

  record_lists :
      record_ids (loaded m es ls) PageState.free_list (insert_all PageState.free es []) ls
      ≡ ok (marks es ls)
  record_lists =
      record_ids-marks (loaded m es ls) PageState.free_list (insert_all PageState.free es []) ls
        (λ j. omega (arith, h.once j))
        (λ j q. ground (
          arith,
          h.listed j,
          h.once j,
          status_of j,
          lookup-insert_all j PageState.free es [],
          lookup-nil {V = PageState} j,
        ))

  recorded_all : record_all (loaded m es ls) ≡ ok (marks es ls)
  unfolding record_ids
  recorded_all = rw (record_free, record_lists) refl

  counts_pass : (n : ℕ) → m.file_pages ≤ n → check_counts (loaded m es ls) n ≡ ok tt
  counts_pass n big = ground (arith, h.file_holds)

  root_passes : check_root (loaded m es ls) ≡ ok tt
  unfolding in_range
  root_passes = ground (arith, h.root_range, h.root_live, status_of m.root)

  listed_passes : check_listed (loaded m es ls) (record_all (loaded m es ls)) ≡ ok tt
  listed_passes = rw recorded_all (rw (==_self (length (marks es ls))) refl)

  pub verify_live-passes : (n : ℕ) → m.file_pages ≤ n → verify_live (loaded m es ls) n es ls ≡ ok tt
  unfolding verify_live
  verify_live-passes n big =
      rw
        (
          counts_pass n big,
          root_passes,
          same_ids_self ls,
          listed_passes,
          check_reusable_within es es (λ j. omega arith),
        )
        refl
