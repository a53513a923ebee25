-- ===== src/Pagestore/Sound/Allocate.antt =====
-- Allocate keeps the invariant on every branch, and writes only pages that the last checkpoint
-- does not reach.
use scutedb.Page.Header.{get_id-new}
use scutedb.Pagestore.Sound.Ops.{when_ok-elim}
use scutedb.Base.{if-cases}
use scutedb.Base.{leb, ◌==◌, if◌then◌else◌}
use scutedb.Base.{lookup}
use scutedb.Base.{insert, delete, lookup-insert, lookup-delete, count, count-append}
use scutedb.Base.{unsnoc, unsnoc-append, Result, ok, err, ℕ}
use scutedb.Base.{◌+◌, ◌^◌, ◌≤◌, ◌<◌}
use scutedb.Base.{◌≡◌, refl, sym, ap}
use scutedb.Base.{◌∙◌, inl, inr, Bool}
use scutedb.Base.{Option, none, some, List}
use scutedb.Base.{[], ◌∷◌, ◌++◌, arith}
use scutedb.Base.State.{M, IfOk, bind-IfOk, any-IfOk, lift}
use scutedb.Fileio.{File}
use scutedb.Fileio.Touch.{Touch, Touch-trans}
use scutedb.Page.{Page, get_id}
use scutedb.Page
use scutedb.Page.Io.{Keeps, lift-Keeps, write-Touch, grow-Touch, >>=-Keeps, if-Keeps}
use scutedb.Pagestore.Types.{Store, Stats, PageState, Error, max_pages, page}
use scutedb.Pagestore.Format.{grow_to}
use scutedb.Pagestore.Ops.{
  usable, Outcome, reuse, settle, extend_with, allocate_from, allocate, Fresh, fresh_page,
}
use scutedb.Pagestore.Sound.{mark_of, IsSound, Unreached}

-- A fresh page has the next id, and the file holds it afterwards.
abbrev pub IsNext : ℕ → ℕ → Fresh → Type 0
IsNext next file n =
    (n.id ≡ next)
    × (n.next_page ≡ next + 1)
    × (next + 1 ≤ n.file_pages)
    × (n.file_pages ≤ max_pages)
    × (file ≤ n.file_pages)

module _ {F : Type 0} (f : File F) where
  pub fresh_page-IsNext :
      (next file : ℕ) (w : F)
      → next ≤ file
      → file ≤ max_pages
      → IfOk (IsNext next file) (fresh_page f next file w)
  unfolding fresh_page grow_to
  fresh_page-IsNext next file w h m =
      if-cases (λ (t : M Error F Fresh). IfOk (IsNext next file) (t w)) (leb max_pages next) _ _
        (λ e. tt)
        (λ e.
          if-cases (λ (t : M Error F Fresh). IfOk (IsNext next file) (t w)) (leb file next) _ _
            (λ e'.
              if-cases (λ (t : M Error F Fresh). IfOk (IsNext next file) (t w)) (leb _ next) _ _
                (λ e''. tt)
                (λ e''.
                  bind-IfOk (λ _. Unit {0}) _ (lift page (Page.grow f file _) w) _
                    (any-IfOk _ _ (λ a. tt)) (λ a w' q. ground arith)))
            (λ e'. ground arith))

  -- A fresh page is taken, and the file grows, behind all pages that were handed out.
  pub fresh_page-Keeps :
      (P : ℕ → Type 0) (next file : ℕ)
      → ((id : ℕ) → file ≤ id → P id)
      → Keeps f P (fresh_page f next file)
  unfolding fresh_page
  fresh_page-Keeps P next file h =
      if-Keeps (leb max_pages next) _ _ (λ _ w. Touch.stay)
        (if-Keeps (leb file next) _ _
          (λ _.
            if-Keeps (leb (grow_to file) next) _ _ (λ _ w. Touch.stay)
              (>>=-Keeps _ _
                (lift-Keeps page _ (grow-Touch file (grow_to file) (λ id lo hi. h id lo)))
                (λ a w. Touch.stay)))
          (λ w. Touch.stay))

pub settle-cases :
    {F A B : Type 0} (P : Store → Type 0) (r : Result Error A × F) (v : A → B) (good : A → Store)
    (bad : Store)
    → ((a : A) → P (good a))
    → P bad
    → P (settle r v good bad).1
settle-cases P (ok a, w) v good bad h k = h a
settle-cases P (err e, w) v good bad h k = k

pub settle-file :
    {F A B : Type 0} (r : Result Error A × F) (v : A → B) (good : A → Store) (bad : Store)
    → (settle r v good bad).2 ≡ r.1
settle-file (ok a, w) v good bad = refl
settle-file (err e, w) v good bad = refl

-- A page leaves the free list.
module _ (base : List ℕ) (s : Store) (rest : List ℕ) (id : ℕ) (h : IsSound base s)
    (e : s.free ≡ rest ++ (id ∷ [])) where
  taken_count : (j : ℕ) → count j s.free ≡ count j rest + (if id == j then 1 else 0)
  taken_count j = rw e (count-append j rest (id ∷ []) ∙ ground arith)

  taken_marks : (j : ℕ) → lookup j (delete id s.status) ≡ mark_of rest s.pending s.list_page j
  taken_marks j = ground (arith, taken_count j, lookup-delete id j s.status, h.marks j, h.once j)

  restored_marks :
      (j : ℕ) → lookup j (insert id PageState.free (delete id s.status)) ≡ lookup j s.status
  restored_marks j = ground (
    arith,
    taken_count j,
    lookup-delete id j s.status,
    lookup-insert id j PageState.free (delete id s.status),
    h.marks j,
  )

  taken-IsSound :
      (d : Bool) (st : Stats)
      → IsSound base (record s { free = rest; status = delete id s.status; dirty = d; stats = st })
  taken-IsSound d st = record {
    marks = taken_marks;
    once = λ j. ground (arith, taken_count j, h.once j);
    listed = λ j p. ground (arith, taken_count j, h.listed j);
    root_range = h.root_range;
    root_live = ground (arith, taken_count s.root, h.root_live);
    file_holds = h.file_holds;
    ids_left = h.ids_left;
    durable_before = h.durable_before;
    reusable = λ j. ground (arith, taken_count j, h.reusable j);
    base_old = h.base_old;
    lists_old = h.lists_old;
    durable_root = h.durable_root;
  }

  restored-IsSound : IsSound base (record s {
    free = rest ++ (id ∷ []);
    status = insert id PageState.free (delete id s.status);
  })
  restored-IsSound = record {
    marks = λ j. restored_marks j ∙ rw (← e) (h.marks j);
    once = rw (← e) h.once;
    listed = rw (← e) h.listed;
    root_range = h.root_range;
    root_live = rw (← e) h.root_live;
    file_holds = h.file_holds;
    ids_left = h.ids_left;
    durable_before = h.durable_before;
    reusable = rw (← e) h.reusable;
    base_old = h.base_old;
    lists_old = h.lists_old;
    durable_root = h.durable_root;
  }

  taken_reached : 1 ≤ count id base
  taken_reached = ground (arith, taken_count id, h.reusable id)

  taken_small : id < 2 ^ 32
  taken_small = ground (arith, taken_count id, h.listed id, h.file_holds, h.ids_left)

-- A page comes from the end of the file.
module _ (base : List ℕ) (s : Store) (n : Fresh) (h : IsSound base s)
    (g : IsNext s.next_page s.file_pages n) where
  extended-IsSound :
      (d : Bool) (st : Stats)
      → IsSound base
          (record s { next_page = n.next_page; file_pages = n.file_pages; dirty = d; stats = st })
  extended-IsSound d st = record {
    marks = h.marks;
    once = h.once;
    listed = λ j p. ground (arith, h.listed j);
    root_range = ground (arith, h.root_range);
    root_live = h.root_live;
    file_holds = ground arith;
    ids_left = g.3;
    durable_before = ground (arith, h.durable_before);
    reusable = h.reusable;
    base_old = h.base_old;
    lists_old = h.lists_old;
    durable_root = h.durable_root;
  }

-- The store `t` is `s` but for the map `status`, and that has the same marks.
pub record IsUndone (s t : Store) : Type 0 where
  pub same_store : record t { status = s.status } ≡ s
  pub same_marks : (id : ℕ) → lookup id t.status ≡ lookup id s.status

-- An operation that returns an error leaves the store as it was.
abbrev pub Undoes : {F A : Type 0} → Store → Outcome F A → Type 0
Undoes s r = (e : Error) → r.0 ≡ err e → IsUndone s r.1

IsUndone-refl : (s : Store) → IsUndone s s
IsUndone-refl s = record { same_store = refl; same_marks = λ id. refl }

settle-Undoes :
    {F A B : Type 0} (s : Store) (r : Result Error A × F) (v : A → B) (good : A → Store)
    (bad : Store)
    → IsUndone s bad
    → Undoes s (settle r v good bad)
settle-Undoes s (ok a, w) v good bad u e q = cc
settle-Undoes s (err x, w) v good bad u e q = u

module _ {F : Type 0} (f : File F) (base : List ℕ) (s : Store) (kind : ℕ) (h : IsSound base s) where
  reuse-Undoes :
      (rest : List ℕ) (id : ℕ) (w : F)
      → unsnoc s.free ≡ some (rest, id)
      → Undoes s (reuse f s kind rest id w)
  unfolding reuse
  reuse-Undoes rest id w e =
      let split = unsnoc-append s.free rest id e in
      settle-Undoes s (lift page (Page.write f (Page.new id kind)) w) _ _ _ (record {
        same_store = ap (λ ids. record s { free = ids }) (sym split);
        same_marks = restored_marks base s rest id h split;
      })

  extend_with-Undoes : (r : Result Error Fresh × F) → Undoes s (extend_with f s kind r)
  extend_with-Undoes (err e, w) = λ x q. IsUndone-refl s
  extend_with-Undoes (ok n, w) =
      settle-Undoes s (lift page (Page.write f (Page.new n.id kind)) w) _ _ _ (IsUndone-refl s)

  allocate_from-Undoes :
      (o : Option (List ℕ × ℕ)) (w : F) → unsnoc s.free ≡ o → Undoes s (allocate_from f s kind o w)
  allocate_from-Undoes (some (rest, id)) w e = reuse-Undoes rest id w e
  allocate_from-Undoes none w e = extend_with-Undoes (fresh_page f s.next_page s.file_pages w)

  reuse-IsSound :
      (rest : List ℕ) (id : ℕ) (w : F)
      → unsnoc s.free ≡ some (rest, id)
      → IsSound base (reuse f s kind rest id w).1
  unfolding reuse
  reuse-IsSound rest id w e =
      let split = unsnoc-append s.free rest id e in
      settle-cases (IsSound base) (lift page (Page.write f (Page.new id kind)) w) _ _ _
        (λ a. taken-IsSound base s rest id h split _ _) (restored-IsSound base s rest id h split)

  extend_with-IsSound :
      (r : Result Error Fresh × F)
      → IfOk (IsNext s.next_page s.file_pages) r
      → IsSound base (extend_with f s kind r).1
  extend_with-IsSound (err e, w) g = h
  extend_with-IsSound (ok n, w) g =
      settle-cases (IsSound base) (lift page (Page.write f (Page.new n.id kind)) w) _ _ _
        (λ a. extended-IsSound base s n h g _ _) h

  allocate_from-IsSound :
      (o : Option (List ℕ × ℕ)) (w : F)
      → unsnoc s.free ≡ o
      → IsSound base (allocate_from f s kind o w).1
  allocate_from-IsSound (some (rest, id)) w e = reuse-IsSound rest id w e
  allocate_from-IsSound none w e =
      extend_with-IsSound _ (fresh_page-IsNext f s.next_page s.file_pages w h.file_holds h.ids_left)

  pub allocate-IsSound : (w : F) → IsSound base (allocate f s kind w).1
  unfolding allocate
  allocate-IsSound w =
      when_ok-elim {B = Outcome F Page} (λ r. IsSound base r.1) (usable s) _ _
        (λ u e. allocate_from-IsSound (unsnoc s.free) w refl) (λ e. h)

  -- On a store that satisfies the invariant, Allocate keeps it on every branch; and where it returns
  -- an error, as when the file cannot grow or the page cannot be written, every field of the store is
  -- as it was and every page has the mark that it had.
  pub allocate_lem : (w : F) → IsSound base (allocate f s kind w).1 × Undoes s (allocate f s kind w)
  unfolding allocate
  allocate_lem w = (
    allocate-IsSound w,
    when_ok-elim {B = Outcome F Page} (Undoes s) (usable s) _ _
        (λ u e. allocate_from-Undoes (unsnoc s.free) w refl) (λ e x q. IsUndone-refl s),
  )

  reuse-Touch :
      (rest : List ℕ) (id : ℕ) (w : F)
      → unsnoc s.free ≡ some (rest, id)
      → Touch f (Unreached base s.durable.next_page) w (reuse f s kind rest id w).2
  unfolding reuse
  reuse-Touch rest id w e =
      let split = unsnoc-append s.free rest id e in
      rw settle-file (
        lift-Keeps page (Page.write f (Page.new id kind))
          (write-Touch (Page.new id kind) (
            rw (get_id-new id kind (taken_small base s rest id h split))
              (inl (taken_reached base s rest id h split))))
          w)

  extend_with-Touch :
      (w : F) (r : Result Error Fresh × F)
      → IfOk (IsNext s.next_page s.file_pages) r
      → Touch f (Unreached base s.durable.next_page) w r.1
      → Touch f (Unreached base s.durable.next_page) w (extend_with f s kind r).2
  extend_with-Touch w (err e, w') g t = t
  extend_with-Touch w (ok n, w') g t = rw settle-file (
      Touch-trans f t (
        lift-Keeps page (Page.write f (Page.new n.id kind))
          (write-Touch (Page.new n.id kind)
            (rw (get_id-new n.id kind (ground arith)) (inr (ground (arith, h.durable_before)))))
          w'))

  allocate_from-Touch :
      (o : Option (List ℕ × ℕ)) (w : F)
      → unsnoc s.free ≡ o
      → Touch f (Unreached base s.durable.next_page) w (allocate_from f s kind o w).2
  allocate_from-Touch (some (rest, id)) w e = reuse-Touch rest id w e
  allocate_from-Touch none w e =
      extend_with-Touch w (fresh_page f s.next_page s.file_pages w)
        (fresh_page-IsNext f s.next_page s.file_pages w h.file_holds h.ids_left)
        (fresh_page-Keeps f _ s.next_page s.file_pages
          (λ id lo. inr (omega (arith, h.durable_before, h.file_holds))) w)

  -- On every branch, Allocate writes only pages that were free at the last checkpoint or that were
  -- not handed out then.
  pub allocate-Touch :
      (w : F) → Touch f (Unreached base s.durable.next_page) w (allocate f s kind w).2
  unfolding allocate
  allocate-Touch w =
      when_ok-elim {B = Outcome F Page} (λ r. Touch f (Unreached base s.durable.next_page) w r.2)
        (usable s) _ _ (λ u e. allocate_from-Touch (unsnoc s.free) w refl) (λ e. Touch.stay)
