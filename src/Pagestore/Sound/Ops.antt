-- ===== src/Pagestore/Sound/Ops.antt =====
-- The operations on an open store keep the invariant, on every branch.
use scutedb.Base.{◌==◌, if◌then◌else◌}
use scutedb.Base.{Bool-cases}
use scutedb.Base.{lookup}
use scutedb.Base.{insert, lookup-insert, count, count-append}
use scutedb.Base.{Result, ok, err, ℕ}
use scutedb.Base.{◌+◌, ◌≤◌, ◌<◌}
use scutedb.Base.{◌≡◌, refl}
use scutedb.Base.{◌≢◌, inl, inr}
use scutedb.Base.{true, none, List}
use scutedb.Base.{[], ◌∷◌, ◌++◌, arith}
use scutedb.Pagestore.Types.{Store, PageState, Error, no_page}
use scutedb.Pagestore.Ops.{
  usable, in_range, owned, set_root, free, guards, root_guard, when_ok, free_guards,
}
use scutedb.Pagestore.Sound.{tally, mark_of, IsSound}

owned-ok :
    (s : Store) (id : ℕ)
    → owned s id ≡ ok tt
    → (1 ≤ id) × (id < s.next_page) × (lookup id s.status ≡ none)
unfolding owned
owned-ok s id h = ground arith

unmarked_tally :
    (base : List ℕ) (s : Store) (id : ℕ)
    → IsSound base s
    → lookup id s.status ≡ none
    → tally s id ≡ 0
unmarked_tally base s id h e = ground (arith, h.marks id)

pub when_ok-elim :
    {A B : Type 0} (P : B → Type 0) (r : Result Error A) (b : B) (h : Error → B)
    → ((a : A) → r ≡ ok a → P b)
    → ((e : Error) → P (h e))
    → P (when_ok r b h)
when_ok-elim P (ok a) b h good bad = good a refl
when_ok-elim P (err e) b h good bad = bad e

guards-ok : (r g : Result Error (Unit {0})) → guards r g ≡ ok tt → (r ≡ ok tt) × (g ≡ ok tt)
guards-ok (ok u) g h = (refl, h)
guards-ok (err e) g h = cc

-- A page that passes the guards of SetRoot is handed out and on no list, or is no page.
root_guard-live :
    (base : List ℕ) (s : Store) (id : ℕ)
    → IsSound base s
    → root_guard s id ≡ ok tt
    → (id < s.next_page) × (tally s id ≡ 0)
root_guard-live base s id h e = elim (Bool-cases (id == no_page)) [
  | inl z ↦ ground (arith, h.listed 0)
  | inr z ↦ ground (arith, owned-ok s id, unmarked_tally base s id h)
]

-- SetRoot keeps the invariant.
pub set_root-IsSound :
    (base : List ℕ) (s : Store) (id : ℕ) → IsSound base s → IsSound base (set_root s id).1
unfolding set_root
set_root-IsSound base s id h =
    when_ok-elim {B = Result Error (Unit {0}) × Store} (λ r. IsSound base r.1)
      (guards (usable s) (root_guard s id)) _ _
      (λ u e.
        let live = root_guard-live base s id h (guards-ok (usable s) (root_guard s id) e).1 in
        record {
          marks = h.marks;
          once = h.once;
          listed = h.listed;
          root_range = live.0;
          root_live = live.1;
          file_holds = h.file_holds;
          ids_left = h.ids_left;
          durable_before = h.durable_before;
          reusable = h.reusable;
          base_old = h.base_old;
          lists_old = h.lists_old;
          durable_root = h.durable_root;
        })
      (λ e. h)

free_guards-ok :
    (s : Store) (id : ℕ)
    → free_guards s id ≡ ok tt
    → (1 ≤ id) × (id < s.next_page) × (lookup id s.status ≡ none) × (id ≢ s.root)
unfolding in_range
free_guards-ok s id h = ground arith

module _ (base : List ℕ) (s : Store) (id : ℕ) (h : IsSound base s)
    (g : free_guards s id ≡ ok tt) where
  freed_marks :
      (j : ℕ)
      → lookup j (insert id PageState.pending s.status)
        ≡ mark_of s.free (s.pending ++ (id ∷ [])) s.list_page j
  freed_marks j = ground (
    arith,
    free_guards-ok s id g,
    unmarked_tally base s id h,
    lookup-insert id j PageState.pending s.status,
    count-append j s.pending (id ∷ []),
    h.marks j,
  )

  freed_tally :
      (j : ℕ)
      → count j s.free + count j (s.pending ++ (id ∷ [])) + count j s.list_page
        ≡ tally s j + (if id == j then 1 else 0)
  freed_tally j = ground (arith, count-append j s.pending (id ∷ []))

  freed-IsSound : IsSound base (record s {
    pending = s.pending ++ (id ∷ []);
    status = insert id PageState.pending s.status;
    dirty = true;
    stats = record (s.stats) { freed = s.stats.freed + 1 };
  })
  freed-IsSound = record {
    marks = freed_marks;
    once = λ j.
        ground (arith, freed_tally j, h.once j, free_guards-ok s id g, unmarked_tally base s id h);
    listed = λ j p. ground (arith, freed_tally j, h.listed j, free_guards-ok s id g);
    root_range = h.root_range;
    root_live = ground (arith, freed_tally s.root, h.root_live, free_guards-ok s id g);
    file_holds = h.file_holds;
    ids_left = h.ids_left;
    durable_before = h.durable_before;
    reusable = h.reusable;
    base_old = h.base_old;
    lists_old = h.lists_old;
    durable_root = h.durable_root;
  }

-- Free keeps the invariant.
pub free-IsSound :
    (base : List ℕ) (s : Store) (id : ℕ) → IsSound base s → IsSound base (free s id).1
unfolding free
free-IsSound base s id h =
    when_ok-elim {B = Result Error (Unit {0}) × Store} (λ r. IsSound base r.1)
      (guards (usable s) (free_guards s id)) _ _
      (λ u e. freed-IsSound base s id h (guards-ok (usable s) (free_guards s id) e).1) (λ e. h)
