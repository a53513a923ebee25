-- ===== src/Pagestore/Load/Synced.antt =====
-- What a crash leaves after a checkpoint: all of it, since the last step is a sync.
use scutedb.Pagestore.Format.{grow_to}
use scutedb.Base.{suc}
use scutedb.Base.{length}
use scutedb.Pagestore.Types.{max_pages}
use scutedb.Pagestore.Format.{free_list_bytes}
use scutedb.Base.{leb}
use scutedb.Base.{ltb}
use scutedb.Pagestore.Ops.{Fresh}
use scutedb.Base.{◌∷◌}
use scutedb.Pagestore.Ops.{fresh_page}
use scutedb.Base.{if-cases}
use scutedb.Base.{ℕ, ◌≡◌, arith, List, []}
use scutedb.Base.{true, Option, some, none, Result, ok, err}
use scutedb.Base.State.{lift, IfOkAt, bind-IfOkAt, wrap-IfOkAt}
use scutedb.Fileio.{File}
use scutedb.Fileio.Laws.{IsFile}
use scutedb.Fileio.Disk.{IsDisk}
use scutedb.Page.{get_id}
use scutedb.Page
use scutedb.Pagestore.Types.{Store, Error, page, must_poison}
use scutedb.Pagestore.Format.{encode_meta, pages_for}
use scutedb.Pagestore.Ops.{Outcome, usable, poison}
use scutedb.Pagestore.Checkpoint.{
  Plan, start, entry_count, entries, next_meta, plan_loop, plan_from, plan_round, write_lists,
  next_list, chunk, sync_lists, prepare, commit, checkpoint_steps, finish_checkpoint, checkpoint,
}
use scutedb.Pagestore.Sound.Ops.{when_ok-elim}
use scutedb.Base.State.{M, wrap-IfOkAt, bind-IfOkAt}
use scutedb.Base.{suc, zero, ◌+◌, unsnoc, if-cases, ltb, leb, length}
use scutedb.Pagestore.Format.{grow_to, free_list_bytes}
use scutedb.Pagestore.Types.{max_pages}
use scutedb.Pagestore.Ops.{Fresh, fresh_page}
use scutedb.Page.Sync.{StaysWhole, write-StaysWhole, sync-StaysWhole, grow-StaysWhole, sync-IsHeld}
use scutedb.Fileio.Held.{IsSyncing, IsHeld}
use scutedb.Pagestore.Load.Durable.{IsWritten}

module _ {F : Type 0} {f : File F} {law : IsFile f} {disk : IsDisk f law}
    (syncing : IsSyncing f law disk) where
  fresh_page-StaysWhole :
      (next file : ℕ) (w : F)
      → syncing.whole w ≡ true
      → StaysWhole syncing (fresh_page f next file w)
  unfolding fresh_page
  fresh_page-StaysWhole next file w h =
      if-cases Good (leb max_pages next) _ _ (λ e. tt)
        (λ e.
          if-cases Good (leb file next) _ _
            (λ e'.
              if-cases Good (leb (grow_to file) next) _ _ (λ e''. tt)
                (λ e''.
                  bind-IfOkAt (λ _ v. syncing.whole v ≡ true) _
                    (lift page (Page.grow f file (grow_to file)) w) _
                    (wrap-IfOkAt _ page (Page.grow f file (grow_to file) w)
                      (grow-StaysWhole syncing file (grow_to file) w h))
                    (λ u v g. g)))
            (λ e'. h))
    where
      Good : M Error F Fresh → Type 0
      Good t = StaysWhole syncing (t w)

  plan_from-StaysWhole :
      (p : Plan) (o : Option (List ℕ × ℕ)) (w : F)
      → syncing.whole w ≡ true
      → StaysWhole syncing (plan_from f p o w)
  plan_from-StaysWhole p (some (rest, id)) w h = h
  plan_from-StaysWhole p none w h =
      bind-IfOkAt (λ (n : Fresh) v. syncing.whole v ≡ true) _
        (fresh_page f p.next_page p.file_pages w) _
        (fresh_page-StaysWhole p.next_page p.file_pages w h) (λ n v g. g)

  plan_loop-StaysWhole :
      (s : Store) (fuel : ℕ) (p : Plan) (w : F)
      → syncing.whole w ≡ true
      → StaysWhole syncing (plan_loop f s fuel p w)
  unfolding plan_loop plan_round
  plan_loop-StaysWhole s zero p w h =
      if-cases (λ (t : M Error F Plan). StaysWhole syncing (t w))
        (ltb (length p.lists) (pages_for (entry_count s p))) _ _ (λ e. tt) (λ e. h)
  plan_loop-StaysWhole s (suc fuel) p w h =
      if-cases (λ (t : M Error F Plan). StaysWhole syncing (t w))
        (ltb (length p.lists) (pages_for (entry_count s p))) _ _
        (λ e.
          bind-IfOkAt (λ (q : Plan) v. syncing.whole v ≡ true) _ (plan_round f p w) _
            (plan_from-StaysWhole p (unsnoc p.free) w h)
            (λ q v g. plan_loop-StaysWhole s fuel q v g))
        (λ e. h)

  write_lists-StaysWhole :
      (es : List ℕ) (i : ℕ) (ids : List ℕ) (w : F)
      → syncing.whole w ≡ true
      → StaysWhole syncing (write_lists f es i ids w)
  unfolding write_lists
  write_lists-StaysWhole es i [] w h = h
  write_lists-StaysWhole es i (id ∷ ids) w h =
      let p = free_list_bytes id (next_list ids) (chunk es i) in
      bind-IfOkAt (λ _ v. syncing.whole v ≡ true) _ (lift page (Page.write f p) w) _
        (wrap-IfOkAt _ page (Page.write f p w) (write-StaysWhole syncing p w h))
        (λ u v g. write_lists-StaysWhole es (i + 1) ids v g)

  abbrev poisons : Page.Error → Error
  poisons e = must_poison (page e)

  synced-StaysWhole :
      (w : F) → syncing.whole w ≡ true → StaysWhole syncing (lift poisons (Page.sync f) w)
  synced-StaysWhole w h = wrap-IfOkAt _ poisons (Page.sync f w) (sync-StaysWhole syncing w h)

  sync_lists-StaysWhole :
      (ids : List ℕ) (w : F) → syncing.whole w ≡ true → StaysWhole syncing (sync_lists f ids w)
  sync_lists-StaysWhole [] w h = h
  sync_lists-StaysWhole (id ∷ ids) w h = synced-StaysWhole w h

  prepare-StaysWhole :
      (s : Store) (w : F) → syncing.whole w ≡ true → StaysWhole syncing (prepare f s w)
  unfolding prepare
  prepare-StaysWhole s w h =
      bind-IfOkAt Still _ (lift poisons (Page.sync f) w) _ (synced-StaysWhole w h) (λ _ w1 h1.
        bind-IfOkAt Still _ (plan_loop f s rounds (start s) w1) _
          (plan_loop-StaysWhole s rounds (start s) w1 h1)
          (λ p w2 h2.
            bind-IfOkAt Still _ (write_lists f (entries s p) 0 p.lists w2) _
              (write_lists-StaysWhole (entries s p) 0 p.lists w2 h2)
              (λ _ w3 h3.
                bind-IfOkAt Still _ (sync_lists f p.lists w3) _
                  (sync_lists-StaysWhole p.lists w3 h3) (λ _ w4 h4. h4))))
    where
      Still : {A : Type 0} → A → F → Type 0
      Still a v = syncing.whole v ≡ true

      rounds : ℕ
      rounds = pages_for (entry_count s (start s))

  checkpoint_steps-IsHeld :
      (s : Store) (w : F)
      → syncing.whole w ≡ true
      → IfOkAt (λ _ v. IsHeld syncing v) (checkpoint_steps f s w)
  unfolding checkpoint_steps commit
  checkpoint_steps-IsHeld s w h =
      bind-IfOkAt (λ _ v. syncing.whole v ≡ true) _ (prepare f s w) _ (prepare-StaysWhole s w h)
        (λ p v g.
          bind-IfOkAt (λ _ u. IsHeld syncing u) _ (commit f s p v) _
            (bind-IfOkAt (λ _ u. syncing.whole u ≡ true) _
              (lift poisons (Page.write f (encode_meta (next_meta s p))) v) _
              (wrap-IfOkAt _ poisons (Page.write f (encode_meta (next_meta s p)) v)
                (write-StaysWhole syncing (encode_meta (next_meta s p)) v g))
              (λ _ u k. wrap-IfOkAt _ poisons (Page.sync f u) (sync-IsHeld syncing u k)))
            (λ _ u k. k))

  finish_checkpoint-IsHeld :
      (s : Store) (r : Result Error Plan × F)
      → IfOkAt (λ _ v. IsHeld syncing v) r
      → (finish_checkpoint s r).0 ≡ ok tt
      → IsHeld syncing (finish_checkpoint s r).2
  unfolding poison
  finish_checkpoint-IsHeld s (ok p, w) d e = d
  finish_checkpoint-IsHeld s (err (must_poison e), w) d ok_then = absurd (ground arith)
  finish_checkpoint-IsHeld s (err e, w) d ok_then = cc

  -- After a checkpoint that returned no error, over a file of which no sync has failed, a crash loses nothing of the file.
  pub checkpoint-IsHeld :
      (s : Store) (w : F)
      → syncing.whole w ≡ true
      → (checkpoint f s w).0 ≡ ok tt
      → IsHeld syncing (checkpoint f s w).2
  unfolding checkpoint
  checkpoint-IsHeld s w h =
      when_ok-elim {B = Outcome F (Unit {0})} (λ r. r.0 ≡ ok tt → IsHeld syncing r.2) (usable s) _ _
        (λ u e. finish_checkpoint-IsHeld s (checkpoint_steps f s w) (checkpoint_steps-IsHeld s w h))
        (λ e bad. cc)

  -- A read finds the store's last checkpoint in the file, and a crash would lose nothing of it.
  abbrev pub IsDurable : Store → F → Type 0
  IsDurable s v = IsWritten law disk s v × IsHeld syncing v
