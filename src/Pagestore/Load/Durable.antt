-- ===== src/Pagestore/Load/Durable.antt =====
-- What a checkpoint that succeeds leaves in the file.
use scutedb.Base.{
  ℕ, ◌^◌, ◌≤◌, ◌<◌, ◌≡◌, refl, sym, ◌∙◌, subst, arith, List, [], ◌++◌, length-append, count,
}
use scutedb.Base.{ap₂, Bool, true, false, Option, some, none, Result, ok, err}
use scutedb.Base.State.{
  lift, IfOkAt, bind-IfOkAt, wrap-IfOkAt, both-IfOkAt, also-IfOkAt, state-IfOkAt,
}
use scutedb.Fileio.{File}
use scutedb.Fileio.Touch.{Touch}
use scutedb.Fileio.Laws.{IsFile}
use scutedb.Fileio.Disk.{IsDisk, Touch-extent}
use scutedb.Page.{get_id}
use scutedb.Page
use scutedb.Page.Io.{lift-Keeps, write-Touch, sync-Touch}
use scutedb.Page.Disk.{page_at, Holds, write-page_at, page_at-Touch}
use scutedb.Pagestore.Types.{Store, Error, page, must_poison, meta_page, no_stats}
use scutedb.Pagestore.Format.{encode_meta, pages_for}
use scutedb.Pagestore.Format.RoundTrip.{id_read}
use scutedb.Pagestore.Ops.{Outcome, usable, usable_by, poison}
use scutedb.Pagestore.Checkpoint.{
  Plan, start, entry_count, entries, next_meta, committed, plan_loop, write_lists, sync_lists,
  prepare, commit, checkpoint_steps, finish_checkpoint, checkpoint,
}
use scutedb.Pagestore.Sound.{IsSound}
use scutedb.Pagestore.Create.{create, created, first_store, first_store-IsSound}
use scutedb.Page.Disk.{grow-Holds}
use scutedb.Pagestore.Types.{chunk_pages}
use scutedb.Pagestore.Sound.Ops.{when_ok-elim}
use scutedb.Pagestore.Sound.Plan.{IsDone, start-IsPlan, plan_loop-IsDone}
use scutedb.Pagestore.Sound.Checkpoint.{committed-IsSound, write_lists-Touch, sync_lists-Keeps}
use scutedb.Pagestore.Load.{loaded}
use scutedb.Pagestore.Load.Recorded.{IsRecorded}
use scutedb.Pagestore.Load.Chain.{OnChain, OnChain-ext}
use scutedb.Pagestore.Load.Recover.{OnDisk}
use scutedb.Pagestore.Load.Written.{plan_loop-Holds, write_lists-OnChain}

-- The meta page that a finished plan leads to agrees with its lists.
committed-IsRecorded :
    (base : List ℕ) (s : Store) (p : Plan)
    → IsSound base s
    → IsDone s p
    → IsRecorded (next_meta s p) (entries s p) p.lists
unfolding committed next_meta
committed-IsRecorded base s p h done =
    let c = committed-IsSound base s p h done.0 in
    record {
      this_version = refl;
      this_size = refl;
      first_list = refl;
      counted = refl;
      numbered = omega arith;
      file_holds = (omega (arith, c.root_range), c.file_holds, c.ids_left);
      root_range = c.root_range;
      root_live = omega (arith, c.root_live);
      once = λ id. omega (arith, c.once id);
      listed = λ id q. c.listed id (omega arith);
      all_held = omega (
        arith,
        done.1,
        length-append s.list_page (p.free ++ s.pending),
        length-append p.free s.pending,
      );
    }

usable_open : (e : Option Error) (c : Bool) → usable_by e c ≡ ok tt → (c ≡ false) × (e ≡ none)
usable_open (some e) c h = absurd (ground arith)
usable_open none true h = absurd (ground arith)
usable_open none false h = (refl, refl)

module _ {F : Type 0} {f : File F} (law : IsFile f) (disk : IsDisk f law) where
  -- The list pages are written, and the file has room for what the plan counts.
  record IsPrepared (s : Store) (p : Plan) (v : F) : Type 0 where
    done : IsDone s p
    room : Holds law disk p.file_pages v
    lists : OnChain law disk v (entries s p) 0 p.lists

  IsPrepared-Touch :
      (P : ℕ → Type 0) {s : Store} {p : Plan} {v u : F}
      → ((id : ℕ) → 1 ≤ count id p.lists → ¬ P id)
      → Touch f P v u
      → IsPrepared s p v
      → IsPrepared s p u
  IsPrepared-Touch P {s} {p} {v} {u} np t g = record {
    done = g.done;
    room = omega (arith, g.room, Touch-extent disk t);
    lists =
        OnChain-ext law disk v u (entries s p) 0 p.lists
          (λ id q. page_at-Touch law disk P id (np id q) t) g.lists;
  }

  -- A read finds this store's last checkpoint in the file, and a store read from it is this one, but
  -- for the counters of the session.
  pub record IsWritten (t : Store) (v : F) : Type 0 where
    pub on_disk : OnDisk law disk v t.durable t.free t.list_page
    pub same_store : loaded t.durable t.free t.list_page ≡ record t { stats = no_stats }

module _ {F : Type 0} {f : File F} (law : IsFile f) (disk : IsDisk f law) (base : List ℕ)
    (s : Store) (h : IsSound base s) where
  list_ids : (p : Plan) (id : ℕ) → IsDone s p → 1 ≤ count id p.lists → (1 ≤ id) × (id < 2 ^ 32)
  list_ids p id done q =
      let r = committed-IsRecorded base s p h done in
      let here = r.listed id (omega arith) in
      (here.0, unfold next_meta in omega (arith, here, r.file_holds))

  prepare-IsPrepared :
      (w : F) → Holds law disk s.file_pages w → IfOkAt (IsPrepared law disk s) (prepare f s w)
  unfolding prepare
  prepare-IsPrepared w room =
      bind-IfOkAt (λ _ v. Holds law disk s.file_pages v) _ (lift poisons (Page.sync f) w) _
        (state-IfOkAt _ (lift poisons (Page.sync f) w) (λ u. omega (
          arith,
          room,
          Touch-extent disk (lift-Keeps {P = λ _. ⊥} poisons (Page.sync f) sync-Touch w),
        )))
        (λ u w1 room1.
          bind-IfOkAt (λ p v. IsDone s p × Holds law disk p.file_pages v) _
            (plan_loop f s rounds (start s) w1) _
            (both-IfOkAt (IsDone s) (λ p v. Holds law disk p.file_pages v)
              (plan_loop f s rounds (start s) w1)
              (plan_loop-IsDone f s rounds (start s) w1 (start-IsPlan base s h))
              (plan_loop-Holds law disk s rounds (start s) w1 (unfold start in room1)))
            (λ p w2 g.
              let listed : (id : ℕ) → 1 ≤ count id p.lists → (1 ≤ id) × (id < 2 ^ 32) =
                λ id q. list_ids p id g.0 q in
              bind-IfOkAt
                (λ _ v. Holds law disk p.file_pages v × OnChain law disk v (entries s p) 0 p.lists)
                _ (write_lists f (entries s p) 0 p.lists w2) _
                (also-IfOkAt (Holds law disk p.file_pages) _
                  (write_lists f (entries s p) 0 p.lists w2)
                  (omega (
                    arith,
                    g.1,
                    Touch-extent disk (
                        write_lists-Touch f (λ _. Unit {0}) (entries s p) 0 p.lists
                          (λ id q. (tt, (listed id q).1)) w2),
                  ))
                  (write_lists-OnChain law disk (entries s p) 0 p.lists w2
                    (λ id. omega (arith, (committed-IsRecorded base s p h g.0).once id))
                    (λ id q. (listed id q).1)))
                (λ u w3 both.
                  let ready : IsPrepared law disk s p w3 = record {
                    done = g.0;
                    room = both.0;
                    lists = both.1;
                  } in
                  bind-IfOkAt (λ _ v. IsPrepared law disk s p v) _ (sync_lists f p.lists w3) _
                    (state-IfOkAt _ (sync_lists f p.lists w3) (λ u.
                      IsPrepared-Touch law disk (λ _. ⊥) (λ id q x. x)
                        (sync_lists-Keeps f (λ _. ⊥) p.lists w3) ready))
                    (λ u w4 still. still))))
    where
      rounds : ℕ
      rounds = pages_for (entry_count s (start s))

      poisons : Page.Error → Error
      poisons e = must_poison (page e)

  commit-OnDisk :
      (p : Plan) (w : F)
      → IsPrepared law disk s p w
      → IfOkAt (λ _ v. OnDisk law disk v (next_meta s p) (entries s p) p.lists) (commit f s p w)
  unfolding commit
  commit-OnDisk p w g =
      bind-IfOkAt There _ (lift poisons (Page.write f m) w) _
        (also-IfOkAt (IsPrepared law disk s p) _ (lift poisons (Page.write f m) w)
          (IsPrepared-Touch law disk (λ j. j ≡ meta_page)
            (λ id q. omega (arith, list_ids p id g.done q))
            (lift-Keeps poisons (Page.write f m) (write-Touch m (id_read (next_meta s p))) w) g)
          (wrap-IfOkAt _ poisons (Page.write f m w) (
            subst (λ j. IfOkAt (λ _ v. page_at law disk v j ≡ m) (Page.write f m w))
              (id_read (next_meta s p)) (write-page_at law disk m w))))
        (λ u v there.
          let t = lift-Keeps {P = λ _. ⊥} poisons (Page.sync f) sync-Touch v in
          let last = IsPrepared-Touch law disk (λ _. ⊥) (λ id q x. x) t there.0 in
          state-IfOkAt (λ _ v. OnDisk law disk v (next_meta s p) (entries s p) p.lists)
            (lift poisons (Page.sync f) v)
            (λ u. record {
              recorded = committed-IsRecorded base s p h g.done;
              meta_there = page_at-Touch law disk (λ _. ⊥) meta_page (λ x. x) t ∙ there.1;
              lists_there = last.lists;
              backed = unfold next_meta in last.room;
            }))
    where
      m : Page.Page
      m = encode_meta (next_meta s p)

      There : Unit {0} → F → Type 0
      There u v = IsPrepared law disk s p v × (page_at law disk v meta_page ≡ m)

      poisons : Page.Error → Error
      poisons e = must_poison (page e)

  checkpoint_steps-OnDisk :
      (w : F)
      → Holds law disk s.file_pages w
      → IfOkAt
          (λ p v. OnDisk law disk v (next_meta s p) (entries s p) p.lists)
          (checkpoint_steps f s w)
  unfolding checkpoint_steps
  checkpoint_steps-OnDisk w room =
      bind-IfOkAt (IsPrepared law disk s) _ (prepare f s w) _ (prepare-IsPrepared w room) (λ p v g.
        bind-IfOkAt (λ _ v. OnDisk law disk v (next_meta s p) (entries s p) p.lists) _
          (commit f s p v) _ (commit-OnDisk p v g) (λ u v d. d))

  finish_checkpoint-IsWritten :
      (r : Result Error Plan × F)
      → usable_by s.poisoned s.closed ≡ ok tt
      → IfOkAt (λ p v. OnDisk law disk v (next_meta s p) (entries s p) p.lists) r
      → (finish_checkpoint s r).0 ≡ ok tt
      → IsWritten law disk (finish_checkpoint s r).1 (finish_checkpoint s r).2
  unfolding committed next_meta poison
  finish_checkpoint-IsWritten (ok p, w) is_open d e = record {
    on_disk = d;
    same_store =
        ap₂ (store_with p) (sym (usable_open s.poisoned s.closed is_open).0)
          (sym (usable_open s.poisoned s.closed is_open).1);
  }
    where
      store_with : Plan → Bool → Option Error → Store
      store_with p c e = record (committed s p) { closed = c; poisoned = e; stats = no_stats }
  finish_checkpoint-IsWritten (err (must_poison e), w) is_open d ok_then = absurd (ground arith)
  finish_checkpoint-IsWritten (err e, w) is_open d ok_then = cc

  -- A checkpoint of a store that satisfies the invariant, over a file with room for the pages that
  -- the store counts: if it returns no error, a read finds it in the file.
  pub checkpoint-IsWritten :
      (w : F)
      → Holds law disk s.file_pages w
      → (checkpoint f s w).0 ≡ ok tt
      → IsWritten law disk (checkpoint f s w).1 (checkpoint f s w).2
  unfolding checkpoint usable
  checkpoint-IsWritten w room =
      when_ok-elim {B = Outcome F (Unit {0})} (λ r. r.0 ≡ ok tt → IsWritten law disk r.1 r.2)
        (usable s) _ _
        (λ u is_open.
          finish_checkpoint-IsWritten (checkpoint_steps f s w) is_open
            (checkpoint_steps-OnDisk w room))
        (λ e bad. cc)

module _ {F : Type 0} {f : File F} (law : IsFile f) (disk : IsDisk f law) where
  created-IsWritten :
      (r : Outcome F (Unit {0}))
      → (r.0 ≡ ok tt → IsWritten law disk r.1 r.2)
      → IfOkAt (IsWritten law disk) (created r)
  created-IsWritten (ok tt, s, w) h = h refl
  created-IsWritten (err e, s, w) h = tt

  pub create-IsWritten : (w : F) → IfOkAt (IsWritten law disk) (create f w)
  unfolding create
  create-IsWritten w =
      bind-IfOkAt (λ _ v. Holds law disk chunk_pages v) _ (lift page (Page.grow f 0 chunk_pages) w)
        _
        (wrap-IfOkAt _ page (Page.grow f 0 chunk_pages w)
          (grow-Holds law disk 0 chunk_pages w (omega arith)))
        (λ u v room.
          created-IsWritten (checkpoint f first_store v)
            (checkpoint-IsWritten law disk [] first_store first_store-IsSound v room))
