-- ===== src/Page/Sync.antt =====
-- What the operations on pages do to a file's being whole, and what a sync makes of a whole file.
use scutedb.Page.{finish_read}
use scutedb.Base.{List}
use scutedb.Page.{page_count}
use scutedb.Page.{read}
use scutedb.Base.{Result}
use scutedb.Base.{
  ℕ, zero, suc, ◌-◌, ◌≡◌, ◌∙◌, arith, length, refl, Result, Option, none, some, true, ltb, leb,
  ◌==◌, if-cases,
}
use scutedb.Base.{◌*◌}
use scutedb.Base.State.{M, wrap, IfOkAt, bind-IfOkAt, wrap-IfOkAt, state-IfOkAt}
use scutedb.Fileio.{File, IoError}
use scutedb.Fileio.Touch.{page_size}
use scutedb.Fileio.Laws.{IsFile}
use scutedb.Fileio.Disk.{IsDisk}
use scutedb.Fileio.Held.{IsSyncing, IsHeld}
use scutedb.Page.{Page, Error, finish, write, sync, grow_loop, grow}

module _ {F : Type 0} {f : File F} {law : IsFile f} {disk : IsDisk f law}
    (syncing : IsSyncing f law disk) where
  -- Where the step succeeds, no sync of the file has failed so far.
  abbrev pub StaysWhole : {E A : Type 0} → Result E A × F → Type 0
  StaysWhole r = IfOkAt (λ _ v. syncing.whole v ≡ true) r

  finish-any :
      (P : F → Type 0) (r : Option IoError × F)
      → (r.0 ≡ none → P r.1)
      → IfOkAt (λ (_ : Unit {0}) v. P v) (finish r)
  finish-any P (none, v) h = h refl
  finish-any P (some e, v) h = tt

  pub write-StaysWhole : (p : Page) (w : F) → syncing.whole w ≡ true → StaysWhole (write f p w)
  unfolding write
  write-StaysWhole p w h =
      if-cases {A = Result Error (Unit {0}) × F} (λ r. StaysWhole r) (length p == page_size) _ _
        (λ e. finish-any (λ v. syncing.whole v ≡ true) _ (λ _. syncing.whole_write w p _ ∙ h))
        (λ e. tt)

  pub sync-StaysWhole : (w : F) → syncing.whole w ≡ true → StaysWhole (sync f w)
  unfolding sync
  sync-StaysWhole w h =
      finish-any (λ v. syncing.whole v ≡ true) (f.sync w) (λ e. syncing.whole_sync w h e)

  finish_read-StaysWhole :
      (r : List ℕ × Option IoError × F) → syncing.whole r.2 ≡ true → StaysWhole (finish_read r)
  finish_read-StaysWhole (p, none, v) h =
      if-cases {A = Result Error Page} (λ r. StaysWhole (r, v)) (length p == page_size) _ _ (λ e. h)
        (λ e. tt)
  finish_read-StaysWhole (p, some x, v) h =
      if-cases {A = Result Error Page} (λ r. StaysWhole (r, v)) (length p == page_size) _ _ (λ e. h)
        (λ e. tt)

  pub read-StaysWhole : (id : ℕ) (w : F) → syncing.whole w ≡ true → StaysWhole (read f id w)
  unfolding read
  read-StaysWhole id w h =
      finish_read-StaysWhole (f.read_at w page_size (id * page_size))
        (syncing.whole_read w page_size (id * page_size) ∙ h)

  pub page_count-StaysWhole : (w : F) → syncing.whole w ≡ true → StaysWhole (page_count f w)
  unfolding page_count
  page_count-StaysWhole w h =
      bind-IfOkAt (λ _ v. syncing.whole v ≡ true) _ (wrap Error.io (f.size w)) _
        (wrap-IfOkAt _ Error.io (f.size w)
          (state-IfOkAt (λ _ v. syncing.whole v ≡ true) (f.size w) (λ _. syncing.whole_size w ∙ h)))
        (λ n v g. g)

  grow_loop-StaysWhole :
      (fuel at to : ℕ) (w : F) → syncing.whole w ≡ true → StaysWhole (grow_loop f fuel at to w)
  unfolding grow_loop
  grow_loop-StaysWhole zero at to w h = h
  grow_loop-StaysWhole (suc fuel) at to w h =
      if-cases (λ (t : M Error F (Unit {0})). StaysWhole (t w)) (ltb at to) _ _
        (λ below.
          bind-IfOkAt (λ _ v. syncing.whole v ≡ true) _ (finish (f.write_at w _ _)) _
            (finish-any (λ v. syncing.whole v ≡ true) _ (λ _. syncing.whole_write w _ _ ∙ h))
            (λ u v g. grow_loop-StaysWhole fuel _ to v g))
        (λ e. h)

  pub grow-StaysWhole :
      (from to : ℕ) (w : F) → syncing.whole w ≡ true → StaysWhole (grow f from to w)
  unfolding grow
  grow-StaysWhole from to w h =
      if-cases (λ (t : M Error F (Unit {0})). StaysWhole (t w)) (leb to from) _ _ (λ e. h)
        (λ e. grow_loop-StaysWhole (to - from) from to w h)

  -- After a sync that returns no error, a crash loses nothing of a file of which no sync has failed.
  pub sync-IsHeld : (w : F) → syncing.whole w ≡ true → IfOkAt (λ _ v. IsHeld syncing v) (sync f w)
  unfolding sync
  sync-IsHeld w h = finish-any (IsHeld syncing) (f.sync w) (λ e. record {
    all_held = λ i. syncing.sync_holds w i h e;
    all_lasts = omega (arith, syncing.sync_lasts w h e, disk.sync_keeps w);
  })
