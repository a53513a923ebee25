-- ===== src/Pagestore/Run.antt =====
-- Histories of an open store: the calls of a client in any order, whatever the file answers.
pub mod Safe
pub mod Crash
pub mod Recover
pub mod Restart
pub mod Backed
pub mod Verify
use scutedb.Base.{ℕ, List, count, Option, none, some, Bool, true, false, if◌then◌else◌}
use scutedb.Fileio.{File}
use scutedb.Page.{Page, get_id}
use scutedb.Pagestore.Types.{Store, Error}
use scutedb.Pagestore.Ops.{Outcome, set_root, free, read, write, allocate, sync}
use scutedb.Pagestore.Checkpoint.{checkpoint, discard, last_checkpoint, close}
use scutedb.Pagestore.Load.{verify}
use scutedb.Pagestore.Sound.{IsSound, Unreached}
use scutedb.Pagestore.Sound.Checkpoint.{base_after}

-- A store with its file, and the free list of its last checkpoint.
pub record World (F : Type 0) : Type 0 where
  pub base : List ℕ
  pub store : Store
  pub file : F

module _ {F : Type 0} (f : File F) where
  -- One call that is no checkpoint. A Write is to a page that the last checkpoint does not reach.
  pub data Quiet (x : World F) : World F → Type 0 where
    sets_root : (id : ℕ) → Quiet x (record x { store = (set_root x.store id).1 })
    frees : (id : ℕ) → Quiet x (record x { store = (free x.store id).1 })
    reads : (id : ℕ) → Quiet x (record x { file = (read f x.store id x.file).1 })
    allocates :
        (kind : ℕ)
        → Quiet x (record x {
          store = (allocate f x.store kind x.file).1;
          file = (allocate f x.store kind x.file).2;
        })
    syncs :
        Quiet x (record x { store = (sync f x.store x.file).1; file = (sync f x.store x.file).2 })
    discards :
        Quiet x
          (record x { store = (discard f x.store x.file).1; file = (discard f x.store x.file).2 })
    writes :
        (p : Page)
        → Unreached x.base x.store.durable.next_page (get_id p)
        → Quiet x
            (record x { store = (write f x.store p x.file).1; file = (write f x.store p x.file).2 })

  -- Any number of such calls.
  pub data Quietly (x : World F) : World F → Type 0 where
    none_yet : Quietly x x
    then_quiet : {y z : World F} → Quietly x y → Quiet y z → Quietly x z

  -- The free list of the last checkpoint after Close, which makes a checkpoint of a store that is
  -- dirty and not poisoned.
  abbrev closing_base : List ℕ → Option Error → Bool → Outcome F (Unit {0}) → List ℕ
  closing_base base none true (r, s, w) = base_after base r s
  closing_base base none false o = base
  closing_base base (some e) d o = base

  abbrev pub base_closed : List ℕ → Store → F → List ℕ
  base_closed base s w =
      if s.closed
      then base
      else closing_base base s.poisoned s.dirty (last_checkpoint f s s.poisoned s.dirty w)

  -- Any calls: also a Write to any page, checkpoints, Verify and Close.
  pub data Runs (x : World F) : World F → Type 0 where
    begins : Runs x x
    then_calls : {y z : World F} → Runs x y → Quiet y z → Runs x z
    then_writes :
        {y : World F} (p : Page)
        → Runs x y
        → Runs x
            (record y { store = (write f y.store p y.file).1; file = (write f y.store p y.file).2 })
    then_checkpoints :
        {y : World F}
        → Runs x y
        → Runs x (record {
          base = base_after y.base (checkpoint f y.store y.file).0 (checkpoint f y.store y.file).1;
          store = (checkpoint f y.store y.file).1;
          file = (checkpoint f y.store y.file).2;
        })
    then_verifies :
        {y : World F} → Runs x y → Runs x (record y { file = (verify f y.store y.file).1 })
    then_closes :
        {y : World F}
        → Runs x y
        → Runs x (record {
          base = base_closed y.base y.store y.file;
          store = (close f y.store y.file).1;
          file = (close f y.store y.file).2;
        })
