-- ===== src/Pagestore/Run/Restart.antt =====
-- What load finds after a crash of the machine: the store of the last checkpoint.
use scutedb.Base.{ℕ, ◌*◌, ◌+◌, ◌≤◌, ◌≡◌, ◌⊎◌, inl, inr, ap, ◌∙◌, arith, ok, true}
use scutedb.Fileio.{File}
use scutedb.Fileio.Touch.{page_size, Touch}
use scutedb.Fileio.Laws.{IsFile, Touch-cell}
use scutedb.Fileio.Disk.{IsDisk, IsWilling}
use scutedb.Fileio.Held.{IsSyncing, IsHeld, Touch-held, Touch-lasting, MayLeave}
use scutedb.Page.Disk.{Holds}
use scutedb.Pagestore.Types.{Store, no_stats}
use scutedb.Pagestore.Checkpoint.{checkpoint, prepare}
use scutedb.Pagestore.Sound.{IsSound, Unreached}
use scutedb.Pagestore.Load.{load}
use scutedb.Pagestore.Load.Durable.{checkpoint-IsWritten}
use scutedb.Base.{subst}
use scutedb.Base.State.{IfOkAt}
use scutedb.Pagestore.Load.Reopened.{load-IsHeld}
use scutedb.Pagestore.Load.Synced.{checkpoint-IsHeld}
use scutedb.Pagestore.Run.{World, Quietly}
use scutedb.Pagestore.Run.Crash.{IsReached, Quietly-QuietRun, prepared-Touch}
use scutedb.Pagestore.Run.Recover.{Survives, after, after-IsSound, load-Survives}

module _ {F G : Type 0} {f : File F} {g : File G} (law : IsFile f) (disk : IsDisk f law)
    (syncing : IsSyncing f law disk) (law' : IsFile g) (disk' : IsDisk g law')
    (syncing' : IsSyncing g law' disk') where
  -- What was durable at the last checkpoint is so as long as only pages are written that it does not
  -- reach, and so it survives a crash.
  held-Survives :
      (x : World F) (w : F) (v : G)
      → IsHeld syncing x.file
      → x.store.durable.file_pages * page_size ≤ disk.extent x.file
      → Touch f (Unreached x.base x.store.durable.next_page) x.file w
      → MayLeave syncing syncing' w v
      → Survives law disk law' disk' x x.file v
  held-Survives x w v held backed t crash = record {
    kept = λ id k reached hk.
        crash.kept (id * page_size + k) (
          Touch-held syncing (Unreached x.base x.store.durable.next_page) id k
            (not_unreached id reached) hk t (held.all_held (id * page_size + k)))
        ∙ Touch-cell f law (Unreached x.base x.store.durable.next_page) id k
            (not_unreached id reached) hk t;
    as_long = omega (arith, backed, held.all_lasts, Touch-lasting syncing t, crash.as_long);
  }
    where
      not_unreached :
          (id : ℕ) → IsReached x.base x.store id → ¬ Unreached x.base x.store.durable.next_page id
      not_unreached id reached u = omega (arith, reached, u)

  crash_touched :
      {x y : World F} (v : G)
      → IsSound x.base x.store
      → IsHeld syncing x.file
      → x.store.durable.file_pages * page_size ≤ disk.extent x.file
      → Quietly f x y
      → MayLeave syncing syncing' y.file v
        ⊎ MayLeave syncing syncing' (prepare f y.store y.file).1 v
      → Survives law disk law' disk' x x.file v
  crash_touched {x} {y} v h held backed r (inl crash) =
      held-Survives x y.file v held backed (Quietly-QuietRun f h r).touched crash
  crash_touched {x} {y} v h held backed r (inr crash) =
      held-Survives x (prepare f y.store y.file).1 v held backed (prepared-Touch f h r) crash

  -- Over a file with room for the pages that the store counts and of which no sync has failed, let a
  -- store that satisfies the invariant make a checkpoint that returns no error. Then let the client
  -- make any calls of SetRoot, Free, Read, Allocate, Sync, Discard and of Write to pages that this
  -- checkpoint does not reach, and maybe all of another checkpoint before it writes the meta page,
  -- whatever the file answers. A crash of the machine then may lose every byte written since it was
  -- last synced. If the file that it leaves works, load finds there the store that the checkpoint
  -- left: its root, its counts, its free list and its marks, with the counters of the session at 0;
  -- and a crash right after that load would lose nothing.
  pub load-crash :
      {x y : World F} (v : G)
      → IsSound x.base x.store
      → Holds law disk x.store.file_pages x.file
      → syncing.whole x.file ≡ true
      → (checkpoint f x.store x.file).0 ≡ ok tt
      → Quietly f (after law disk law' disk' x) y
      → MayLeave syncing syncing' y.file v
        ⊎ MayLeave syncing syncing' (prepare f y.store y.file).1 v
      → IsWilling g
      → (u : G) × (load g v ≡ (ok (record (checkpoint f x.store x.file).1 { stats = no_stats }), u))
        × IsHeld syncing' u
  load-crash {x} {y} v h room whole done r crash will =
      let z = after law disk law' disk' x in
      let sound = after-IsSound law disk law' disk' x h done in
      let d = checkpoint-IsWritten law disk x.base x.store h x.file room done in
      let held = checkpoint-IsHeld syncing x.store x.file whole done in
      let (u, got) =
        load-Survives law disk law' disk' z v sound d.on_disk
          (crash_touched v sound held d.on_disk.backed r crash) will in
      (
        u,
        got ∙ ap (λ (s : Store). (ok s, u)) d.same_store,
        subst (λ r. IfOkAt (λ _ t. IsHeld syncing' t) r) got
            (load-IsHeld syncing' v (restarted crash)),
      )
    where
      restarted :
          MayLeave syncing syncing' y.file v
            ⊎ MayLeave syncing syncing' (prepare f y.store y.file).1 v
          → syncing'.whole v ≡ true
      restarted (inl c) = c.restarted
      restarted (inr c) = c.restarted
