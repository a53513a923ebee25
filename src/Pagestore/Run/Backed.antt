-- ===== src/Pagestore/Run/Backed.antt =====
-- The file always has room for the pages that the store counts.
use scutedb.Base.{ℕ, arith, if-cases, List, unsnoc, Option, none, some, Result, ok, err}
use scutedb.Base.State.{lift, IfOkAt}
use scutedb.Fileio.{File}
use scutedb.Fileio.Touch.{Touch}
use scutedb.Fileio.Laws.{IsFile}
use scutedb.Fileio.Disk.{IsDisk, Touch-extent}
use scutedb.Page.{Page, get_id}
use scutedb.Page
use scutedb.Page.Io.{lift-Keeps, write-Touch, sync-Touch, close-Touch}
use scutedb.Page.Disk.{Holds}
use scutedb.Pagestore.Types.{Store, Error, page}
use scutedb.Pagestore.Ops.{
  Outcome, settle, poison, poison_on, usable, owned, guards, root_guard, free_guards, set_root,
  free, allocate, allocate_from, reuse, extend_with, Fresh, fresh_page, write, sync,
}
use scutedb.Pagestore.Checkpoint.{discard}
use scutedb.Pagestore.Sound.{IsSound}
use scutedb.Pagestore.Sound.Ops.{when_ok-elim}
use scutedb.Pagestore.Sound.Allocate.{fresh_page-Keeps}
use scutedb.Pagestore.Load.Written.{fresh_page-Holds}
use scutedb.Pagestore.Run.{
  World, Quiet, Quietly, sets_root, frees, reads, allocates, syncs, discards, writes, none_yet,
  then_quiet,
}
use scutedb.Pagestore.Run.Safe.{Quiet-IsSound}
use scutedb.Pagestore.Run.Crash.{Quiet-Touch}

module _ {F : Type 0} {f : File F} (law : IsFile f) (disk : IsDisk f law) where
  abbrev pub IsBacked : Store → F → Type 0
  IsBacked s w = Holds law disk s.file_pages w

  IsBacked-Touch :
      (P : ℕ → Type 0) (s : Store) {w v : F} → Touch f P w v → IsBacked s w → IsBacked s v
  IsBacked-Touch P s t h = omega (arith, h, Touch-extent disk t)

  settle-IsBacked :
      {A B : Type 0} (r : Result Error A × F) (value : A → B) (good : A → Store) (bad : Store)
      → ((a : A) → IsBacked (good a) r.1)
      → IsBacked bad r.1
      → IsBacked (settle r value good bad).1 (settle r value good bad).2
  settle-IsBacked (ok a, w) value good bad g b = g a
  settle-IsBacked (err e, w) value good bad g b = b

  poison_on-IsBacked :
      {A : Type 0} (s : Store) (r : Result Error A × F)
      → IsBacked s r.1
      → IsBacked (poison_on s r).1 (poison_on s r).2
  unfolding poison
  poison_on-IsBacked s (ok a, w) h = h
  poison_on-IsBacked s (err e, w) h = h

  -- A write changes no count, and the file does not get shorter.
  written-IsBacked :
      (s : Store) (p : Page) (w : F) → IsBacked s w → IsBacked s (lift page (Page.write f p) w).1
  written-IsBacked s p w h =
      IsBacked-Touch (λ _. Unit {0}) s (lift-Keeps page (Page.write f p) (write-Touch p tt) w) h

  extend_with-IsBacked :
      (s : Store) (kind : ℕ) (r : Result Error Fresh × F)
      → IsBacked s r.1
      → IfOkAt (λ (n : Fresh) v. Holds law disk n.file_pages v) r
      → IsBacked (extend_with f s kind r).1 (extend_with f s kind r).2
  extend_with-IsBacked s kind (err e, w) h g = h
  extend_with-IsBacked s kind (ok n, w) h g =
      settle-IsBacked (lift page (Page.write f (Page.new n.id kind)) w) _ _ _
        (λ a. written-IsBacked (record s { file_pages = n.file_pages }) (Page.new n.id kind) w g)
        (written-IsBacked s (Page.new n.id kind) w h)

  allocate_from-IsBacked :
      (s : Store) (kind : ℕ) (o : Option (List ℕ × ℕ)) (w : F)
      → IsBacked s w
      → IsBacked (allocate_from f s kind o w).1 (allocate_from f s kind o w).2
  unfolding reuse
  allocate_from-IsBacked s kind (some (rest, id)) w h =
      let there = written-IsBacked s (Page.new id kind) w h in
      settle-IsBacked (lift page (Page.write f (Page.new id kind)) w) _ _ _ (λ a. there) there
  allocate_from-IsBacked s kind none w h =
      extend_with-IsBacked s kind (fresh_page f s.next_page s.file_pages w)
        (IsBacked-Touch (λ _. Unit {0}) s
          (fresh_page-Keeps f (λ _. Unit {0}) s.next_page s.file_pages (λ id lo. tt) w) h)
        (fresh_page-Holds law disk s.next_page s.file_pages w h)

  abbrev Fine : {A : Type 0} → Outcome F A → Type 0
  Fine r = IsBacked r.1 r.2

  Quiet-IsBacked :
      {x y : World F}
      → IsSound x.base x.store
      → Quiet f x y
      → IsBacked x.store x.file
      → IsBacked y.store y.file
  unfolding set_root free allocate sync discard write
  Quiet-IsBacked {x} sound (sets_root id) h =
      when_ok-elim {B = Result Error (Unit {0}) × Store} (λ r. IsBacked r.1 x.file)
        (guards (usable x.store) (root_guard x.store id)) _ _ (λ u e. h) (λ e. h)
  Quiet-IsBacked {x} sound (frees id) h =
      when_ok-elim {B = Result Error (Unit {0}) × Store} (λ r. IsBacked r.1 x.file)
        (guards (usable x.store) (free_guards x.store id)) _ _ (λ u e. h) (λ e. h)
  Quiet-IsBacked {x} sound (reads id) h =
      IsBacked-Touch _ x.store (Quiet-Touch f sound (reads id)) h
  Quiet-IsBacked {x} sound (allocates kind) h =
      when_ok-elim {B = Outcome F Page} Fine (usable x.store) _ _
        (λ u e. allocate_from-IsBacked x.store kind (unsnoc x.store.free) x.file h) (λ e. h)
  Quiet-IsBacked {x} sound syncs h =
      when_ok-elim {B = Outcome F (Unit {0})} Fine (usable x.store) _ _
        (λ u e. poison_on-IsBacked x.store (lift page (Page.sync f) x.file) (
          IsBacked-Touch (λ _. Unit {0}) x.store (lift-Keeps page (Page.sync f) sync-Touch x.file)
            h))
        (λ e. h)
  Quiet-IsBacked {x} sound discards h =
      if-cases (λ (r : Outcome F (Unit {0})). Fine r) x.store.closed _ _ (λ e. h)
        (λ e.
          IsBacked-Touch (λ _. Unit {0}) x.store (lift-Keeps page (Page.close f) close-Touch x.file)
            h)
  Quiet-IsBacked {x} sound (writes p q) h =
      when_ok-elim {B = Outcome F (Unit {0})} Fine
        (guards (usable x.store) (owned x.store (get_id p))) _ _
        (λ u e.
          let there = written-IsBacked x.store p x.file h in
          settle-IsBacked (lift page (Page.write f p) x.file) _ _ _ (λ a. there) there)
        (λ e. h)

  -- From a store that satisfies the invariant, over a file with room for the pages that it counts,
  -- any calls but checkpoints and Writes to pages that the last checkpoint reaches leave a store
  -- and a file of which the same holds.
  pub Quietly-IsBacked :
      {x y : World F}
      → IsSound x.base x.store
      → Quietly f x y
      → IsBacked x.store x.file
      → IsSound y.base y.store × IsBacked y.store y.file
  Quietly-IsBacked sound none_yet h = (sound, h)
  Quietly-IsBacked sound (then_quiet r q) h =
      let before = Quietly-IsBacked sound r h in
      (Quiet-IsSound f before.0 q, Quiet-IsBacked before.0 q before.1)
