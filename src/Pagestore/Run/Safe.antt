-- ===== src/Pagestore/Run/Safe.antt =====
-- Every history keeps the invariant, and between checkpoints none touches what the last one reaches.
use scutedb.Base.{if-cases}
use scutedb.Base.{Result, ok, err, ℕ}
use scutedb.Base.{◌≡◌, refl}
use scutedb.Base.{Bool, true, false, Option, none, some, if◌then◌else◌}
use scutedb.Base.{List}
use scutedb.Base.State.{lift}
use scutedb.Fileio.{File}
use scutedb.Page.{Page, get_id}
use scutedb.Page
use scutedb.Pagestore.Types.{Store, Error, page}
use scutedb.Pagestore.Ops.{Outcome, usable, owned, guards, poison, poison_on, write, sync}
use scutedb.Pagestore.Checkpoint.{discard, close, close_file, last_checkpoint}
use scutedb.Pagestore.Sound.{IsSound}
use scutedb.Pagestore.Sound.Ops.{when_ok-elim, set_root-IsSound, free-IsSound}
use scutedb.Pagestore.Sound.Allocate.{allocate-IsSound, settle-cases}
use scutedb.Pagestore.Sound.Checkpoint.{checkpoint-IsSound}
use scutedb.Pagestore.Run.{
  World, Quiet, Runs, sets_root, frees, reads, allocates, syncs, discards, writes, begins,
  then_calls, then_writes, then_checkpoints, then_verifies, then_closes, closing_base, base_closed,
}

-- The marks of use and of closing, and the poison, change nothing that the invariant reads.
flagged-IsSound :
    (base : List ℕ) (s : Store) (d c : Bool) (e : Option Error)
    → IsSound base s
    → IsSound base (record s { dirty = d; closed = c; poisoned = e })
flagged-IsSound base s d c e h = record {
  marks = h.marks;
  once = h.once;
  listed = h.listed;
  root_range = h.root_range;
  root_live = h.root_live;
  file_holds = h.file_holds;
  ids_left = h.ids_left;
  durable_before = h.durable_before;
  reusable = h.reusable;
  base_old = h.base_old;
  lists_old = h.lists_old;
  durable_root = h.durable_root;
}

pub poison_on-file : {F A : Type 0} (s : Store) (r : Result Error A × F) → (poison_on s r).2 ≡ r.1
poison_on-file s (ok a, w) = refl
poison_on-file s (err e, w) = refl

poison_on-IsSound :
    {F A : Type 0} (base : List ℕ) (s : Store) (r : Result Error A × F)
    → IsSound base s
    → IsSound base (poison_on s r).1
unfolding poison
poison_on-IsSound base s (ok a, w) h = h
poison_on-IsSound base s (err e, w) h = flagged-IsSound base s s.dirty s.closed _ h

module _ {F : Type 0} (f : File F) where
  write-IsSound :
      (base : List ℕ) (s : Store) (p : Page) (w : F)
      → IsSound base s
      → IsSound base (write f s p w).1
  unfolding write
  write-IsSound base s p w h =
      when_ok-elim {B = Outcome F (Unit {0})} (λ r. IsSound base r.1)
        (guards (usable s) (owned s (get_id p))) _ _
        (λ u e.
          settle-cases (IsSound base) (lift page (Page.write f p) w) _ _ _
            (λ a. flagged-IsSound base s true s.closed s.poisoned h) h)
        (λ e. h)

  sync-IsSound : (base : List ℕ) (s : Store) (w : F) → IsSound base s → IsSound base (sync f s w).1
  unfolding sync
  sync-IsSound base s w h =
      when_ok-elim {B = Outcome F (Unit {0})} (λ r. IsSound base r.1) (usable s) _ _
        (λ u e. poison_on-IsSound base s (lift page (Page.sync f) w) h) (λ e. h)

  discard-IsSound :
      (base : List ℕ) (s : Store) (w : F) → IsSound base s → IsSound base (discard f s w).1
  unfolding discard
  discard-IsSound base s w h =
      if-cases (λ (r : Outcome F (Unit {0})). IsSound base r.1) s.closed _ _ (λ e. h)
        (λ e. flagged-IsSound base s s.dirty true s.poisoned h)

  if-IsSound :
      {bs cs : List ℕ} (o p : Outcome F (Unit {0})) (b : Bool)
      → IsSound bs o.1
      → IsSound cs p.1
      → IsSound (if b then bs else cs) (if b then o else p).1
  if-IsSound o p true h k = h
  if-IsSound o p false h k = k

  close_file-IsSound :
      (base : List ℕ) (o : Outcome F (Unit {0}))
      → IsSound base o.1
      → IsSound base (close_file f o).1
  close_file-IsSound base (r, s, w) h = flagged-IsSound base s s.dirty true s.poisoned h

  last_checkpoint-IsSound :
      (base : List ℕ) (s : Store) (e : Option Error) (d : Bool) (w : F)
      → IsSound base s
      → IsSound (closing_base f base e d (last_checkpoint f s e d w)) (last_checkpoint f s e d w).1
  last_checkpoint-IsSound base s none true w h = checkpoint-IsSound f base s h w
  last_checkpoint-IsSound base s none false w h = h
  last_checkpoint-IsSound base s (some e) d w h = h

  close-IsSound :
      (base : List ℕ) (s : Store) (w : F)
      → IsSound base s
      → IsSound (base_closed f base s w) (close f s w).1
  unfolding close
  close-IsSound base s w h = if-IsSound _ _ s.closed h (
      close_file-IsSound _ (last_checkpoint f s s.poisoned s.dirty w)
        (last_checkpoint-IsSound base s s.poisoned s.dirty w h))

  pub Quiet-IsSound :
      {x y : World F} → IsSound x.base x.store → Quiet f x y → IsSound y.base y.store
  Quiet-IsSound {x} h (sets_root id) = set_root-IsSound x.base x.store id h
  Quiet-IsSound {x} h (frees id) = free-IsSound x.base x.store id h
  Quiet-IsSound h (reads id) = h
  Quiet-IsSound {x} h (allocates kind) = allocate-IsSound f x.base x.store kind h x.file
  Quiet-IsSound {x} h syncs = sync-IsSound x.base x.store x.file h
  Quiet-IsSound {x} h discards = discard-IsSound x.base x.store x.file h
  Quiet-IsSound {x} h (writes p q) = write-IsSound x.base x.store p x.file h

  -- Whatever a client calls, of SetRoot, Free, Read, Write, Allocate, Sync, Checkpoint, Verify, Close
  -- and Discard, in any order and any number of times, and whatever the file answers: a store that
  -- satisfies the invariant satisfies it ever after.
  pub Runs-IsSound : {x y : World F} → IsSound x.base x.store → Runs f x y → IsSound y.base y.store
  Runs-IsSound h begins = h
  Runs-IsSound h (then_calls r q) = Quiet-IsSound (Runs-IsSound h r) q
  Runs-IsSound h (then_writes {y} p r) = write-IsSound y.base y.store p y.file (Runs-IsSound h r)
  Runs-IsSound h (then_checkpoints {y} r) =
      checkpoint-IsSound f y.base y.store (Runs-IsSound h r) y.file
  Runs-IsSound h (then_verifies r) = Runs-IsSound h r
  Runs-IsSound h (then_closes {y} r) = close-IsSound y.base y.store y.file (Runs-IsSound h r)
