-- ===== src/Pagestore/Run/Crash.antt =====
-- From a checkpoint to the next meta page, no byte of a page that the checkpoint reaches is
-- overwritten.
use scutedb.Base.{if-cases}
use scutedb.Base.{count}
use scutedb.Base.{unsnoc, Result, ok, err, ℕ}
use scutedb.Base.{◌+◌, ◌*◌, ◌≤◌}
use scutedb.Base.{◌<◌, ◌≡◌, refl}
use scutedb.Base.{ap, ap₂, ◌∙◌, ◌⊎◌, inl}
use scutedb.Base.{inr, Option, none}
use scutedb.Base.{some, List, arith}
use scutedb.Base.State.{lift}
use scutedb.Fileio.{File}
use scutedb.Fileio.Touch.{page_size, Touch, Touch-trans}
use scutedb.Fileio.Laws.{IsFile, Touch-cell}
use scutedb.Page.{Page, get_id}
use scutedb.Page
use scutedb.Page.Io.{lift-Keeps, write-Touch, read-Touch, sync-Touch, close-Touch}
use scutedb.Pagestore.Types.{Meta, Store, Error, page}
use scutedb.Pagestore.Ops.{
  Outcome, usable, owned, guards, root_guard, free_guards, poison, poison_on, set_root, free, read,
  write, allocate, allocate_from, reuse, extend_with, Fresh, sync,
}
use scutedb.Pagestore.Checkpoint.{discard, prepare}
use scutedb.Pagestore.Sound.{IsSound, Unreached}
use scutedb.Pagestore.Sound.Ops.{when_ok-elim}
use scutedb.Pagestore.Sound.Allocate.{allocate-Touch, settle-cases, settle-file}
use scutedb.Pagestore.Sound.Checkpoint.{prepare-Touch}
use scutedb.Pagestore.Run.{
  World, Quiet, Quietly, sets_root, frees, reads, allocates, syncs, discards, writes, none_yet,
  then_quiet,
}
use scutedb.Pagestore.Run.Safe.{Quiet-IsSound, poison_on-file}

-- A page that the last checkpoint reaches: handed out by then, and not on its free list.
abbrev pub IsReached : List ℕ → Store → ℕ → Type 0
IsReached base s id = (id < s.durable.next_page) × (count id base ≡ 0)

-- The meta page, the pages that hold the free list, and the root of the last checkpoint are
-- reached by it, in a store that had a checkpoint and satisfies the invariant.
pub reached_lem :
    (base : List ℕ) (s : Store) (id : ℕ)
    → IsSound base s
    → 1 ≤ s.durable.next_page
    → (id ≡ 0) ⊎ (1 ≤ count id s.list_page) ⊎ (id ≡ s.durable.root)
    → IsReached base s id
reached_lem base s id h had (inl e) = ground (arith, h.base_old 0)
reached_lem base s id h had (inr (inl e)) = ground (arith, h.base_old id, h.lists_old id)
reached_lem base s id h had (inr (inr e)) = ground (arith, h.durable_root)

-- The call left the last checkpoint's meta data and list pages alone.
abbrev pub SameDurable : Store → Store → Type 0
SameDurable s t = ◌≡◌ {A = Meta × List ℕ} (t.durable, t.list_page) (s.durable, s.list_page)

poison_on-durable :
    {F A : Type 0} (s : Store) (r : Result Error A × F) → SameDurable s (poison_on s r).1
unfolding poison
poison_on-durable s (ok a, w) = refl
poison_on-durable s (err e, w) = refl

module _ {F : Type 0} (f : File F) where
  extend_with-durable :
      (s : Store) (kind : ℕ) (r : Result Error Fresh × F) → SameDurable s (extend_with f s kind r).1
  extend_with-durable s kind (err e, w) = refl
  extend_with-durable s kind (ok n, w) =
      settle-cases (SameDurable s) (lift page (Page.write f (Page.new n.id kind)) w) _ _ _
        (λ a. refl) refl

  allocate_from-durable :
      (s : Store) (kind : ℕ) (o : Option (List ℕ × ℕ)) (w : F)
      → SameDurable s (allocate_from f s kind o w).1
  unfolding reuse
  allocate_from-durable s kind (some (rest, id)) w =
      settle-cases (SameDurable s) (lift page (Page.write f (Page.new id kind)) w) _ _ _ (λ a. refl)
        refl
  allocate_from-durable s kind none w = extend_with-durable s kind _

  Quiet-durable : {x y : World F} → Quiet f x y → SameDurable x.store y.store
  unfolding set_root free read allocate sync discard write
  Quiet-durable {x} (sets_root id) =
      when_ok-elim {B = Result Error (Unit {0}) × Store} (λ r. SameDurable x.store r.1)
        (guards (usable x.store) (root_guard x.store id)) _ _ (λ u e. refl) (λ e. refl)
  Quiet-durable {x} (frees id) =
      when_ok-elim {B = Result Error (Unit {0}) × Store} (λ r. SameDurable x.store r.1)
        (guards (usable x.store) (free_guards x.store id)) _ _ (λ u e. refl) (λ e. refl)
  Quiet-durable (reads id) = refl
  Quiet-durable {x} (allocates kind) =
      when_ok-elim {B = Outcome F Page} (λ r. SameDurable x.store r.1) (usable x.store) _ _
        (λ u e. allocate_from-durable x.store kind (unsnoc x.store.free) x.file) (λ e. refl)
  Quiet-durable {x} syncs =
      when_ok-elim {B = Outcome F (Unit {0})} (λ r. SameDurable x.store r.1) (usable x.store) _ _
        (λ u e. poison_on-durable x.store (lift page (Page.sync f) x.file)) (λ e. refl)
  Quiet-durable {x} discards =
      if-cases (λ (r : Outcome F (Unit {0})). SameDurable x.store r.1) x.store.closed _ _
        (λ e. refl) (λ e. refl)
  Quiet-durable {x} (writes p q) =
      when_ok-elim {B = Outcome F (Unit {0})} (λ r. SameDurable x.store r.1)
        (guards (usable x.store) (owned x.store (get_id p))) _ _
        (λ u e.
          settle-cases (SameDurable x.store) (lift page (Page.write f p) x.file) _ _ _ (λ a. refl)
            refl)
        (λ e. refl)

  Quiet-base : {x y : World F} → Quiet f x y → y.base ≡ x.base
  Quiet-base (sets_root id) = refl
  Quiet-base (frees id) = refl
  Quiet-base (reads id) = refl
  Quiet-base (allocates kind) = refl
  Quiet-base syncs = refl
  Quiet-base discards = refl
  Quiet-base (writes p q) = refl

  pub Quiet-Touch :
      {x y : World F}
      → IsSound x.base x.store
      → Quiet f x y
      → Touch f (Unreached x.base x.store.durable.next_page) x.file y.file
  unfolding read sync discard write
  Quiet-Touch h (sets_root id) = Touch.stay
  Quiet-Touch h (frees id) = Touch.stay
  Quiet-Touch {x} h (reads id) =
      when_ok-elim {B = Result Error Page × F}
        (λ r. Touch f (Unreached x.base x.store.durable.next_page) x.file r.1)
        (guards (usable x.store) (owned x.store id)) _ _
        (λ u e. lift-Keeps page (Page.read f id) (read-Touch id) x.file) (λ e. Touch.stay)
  Quiet-Touch {x} h (allocates kind) = allocate-Touch f x.base x.store kind h x.file
  Quiet-Touch {x} h syncs =
      when_ok-elim {B = Outcome F (Unit {0})}
        (λ r. Touch f (Unreached x.base x.store.durable.next_page) x.file r.2) (usable x.store) _ _
        (λ u e. rw poison_on-file (lift-Keeps page (Page.sync f) sync-Touch x.file))
        (λ e. Touch.stay)
  Quiet-Touch {x} h discards =
      if-cases
        (λ (r : Outcome F (Unit {0})).
          Touch f (Unreached x.base x.store.durable.next_page) x.file r.2)
        x.store.closed _ _ (λ e. Touch.stay)
        (λ e. lift-Keeps page (Page.close f) close-Touch x.file)
  Quiet-Touch {x} h (writes p q) =
      when_ok-elim {B = Outcome F (Unit {0})}
        (λ r. Touch f (Unreached x.base x.store.durable.next_page) x.file r.2)
        (guards (usable x.store) (owned x.store (get_id p))) _ _
        (λ u e. rw settle-file (lift-Keeps page (Page.write f p) (write-Touch p q) x.file))
        (λ e. Touch.stay)

  -- What a run of such calls keeps, and what it may have written.
  pub record QuietRun (x y : World F) : Type 0 where
    pub sound : IsSound y.base y.store
    pub same_base : y.base ≡ x.base
    pub same_durable : SameDurable x.store y.store
    pub touched : Touch f (Unreached x.base x.store.durable.next_page) x.file y.file

  pub Quietly-QuietRun : {x y : World F} → IsSound x.base x.store → Quietly f x y → QuietRun x y
  Quietly-QuietRun h none_yet = record {
    sound = h;
    same_base = refl;
    same_durable = refl;
    touched = Touch.stay;
  }
  Quietly-QuietRun {x} h (then_quiet {y} r q) =
      let before = Quietly-QuietRun h r in
      let reach : Unreached y.base y.store.durable.next_page
          ≡ Unreached x.base x.store.durable.next_page =
        ap₂ (λ b (m : Meta × List ℕ). Unreached b m.0.next_page) before.same_base
          before.same_durable in
      record {
        sound = Quiet-IsSound f before.sound q;
        same_base = Quiet-base q ∙ before.same_base;
        same_durable = Quiet-durable q ∙ before.same_durable;
        touched = Touch-trans f before.touched (rw reach at (Quiet-Touch before.sound q));
      }

  -- The same, and then the steps of a checkpoint before the write of the meta page.
  pub prepared-Touch :
      {x y : World F}
      → IsSound x.base x.store
      → Quietly f x y
      → Touch f (Unreached x.base x.store.durable.next_page) x.file (prepare f y.store y.file).1
  prepared-Touch {x} {y} h r =
      let run = Quietly-QuietRun h r in
      let reach : Unreached y.base y.store.durable.next_page
          ≡ Unreached x.base x.store.durable.next_page =
        ap₂ (λ b (m : Meta × List ℕ). Unreached b m.0.next_page) run.same_base run.same_durable in
      Touch-trans f run.touched (rw reach at (prepare-Touch f y.base y.store run.sound y.file))

  -- From a store that satisfies the invariant, let a client call SetRoot, Free, Read, Allocate, Sync,
  -- Discard, and Write for pages that the last checkpoint does not reach, in any order, and let then
  -- Checkpoint take its steps before the write of the meta page, whatever the file answers. Every byte
  -- of every page that the last checkpoint reaches reads as before, after the calls and after the
  -- steps, also where they end with an error. Close and Verify are not among the calls.
  pub reached_keeps :
      (law : IsFile f) {x y : World F} (id k : ℕ)
      → IsSound x.base x.store
      → Quietly f x y
      → IsReached x.base x.store id
      → k < page_size
      → (law.cell y.file (id * page_size + k) ≡ law.cell x.file (id * page_size + k))
        × (law.cell (prepare f y.store y.file).1 (id * page_size + k)
            ≡ law.cell x.file (id * page_size + k))
  reached_keeps law {x} {y} id k h r reached hk =
      let run = Quietly-QuietRun h r in
      let last = prepare-Touch f y.base y.store run.sound y.file in
      let same = Touch-cell f law _ id k not_unreached hk run.touched in
      (same, Touch-cell f law _ id k (there run.same_base run.same_durable) hk last ∙ same)
    where
      not_unreached : ¬ Unreached x.base x.store.durable.next_page id
      not_unreached u = omega arith

      there :
          y.base ≡ x.base
          → SameDurable x.store y.store
          → ¬ Unreached y.base y.store.durable.next_page id
      there e d u = omega (arith, ap (count id) e, ap (λ (m : Meta × List ℕ). m.0.next_page) d)
