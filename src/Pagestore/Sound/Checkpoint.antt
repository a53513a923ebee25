-- ===== src/Pagestore/Sound/Checkpoint.antt =====
-- Checkpoint: the invariant, the order of its writes, and what it keeps.
use scutedb.Base.{lookup-nil}
use scutedb.Page.Header.{get_id-new}
use scutedb.Base.{length}
use scutedb.Base.{put_uint, get_uint, get_uint-put_uint_ne}
use scutedb.Base.{lookup, insert_all, count, count-append}
use scutedb.Base.{lookup-insert_all, Result, ok, err, ℕ}
use scutedb.Base.{◌+◌, ◌*◌, ◌^◌, ◌≤◌, ◌<◌}
use scutedb.Base.{◌≡◌, refl, sym}
use scutedb.Base.{◌∙◌, subst, inl, inr}
use scutedb.Base.{Option}
use scutedb.Base.{List, [], ◌∷◌, ◌++◌, arith}
use scutedb.Base.State.{IfOk, bind-IfOk, any-IfOk, lift}
use scutedb.Fileio.{File}
use scutedb.Fileio.Touch.{Touch}
use scutedb.Page.{Page, get_id}
use scutedb.Page
use scutedb.Page.Io.{Keeps, lift-Keeps, write-Touch, sync-Touch, >>=-Keeps, bind-Touch_ok}
use scutedb.Pagestore.Types.{Store, PageState, Error, page, must_poison}
use scutedb.Pagestore.Format.{pages_for, free_list_bytes, put_entries}
use scutedb.Pagestore.Ops.{Outcome, usable, poison}
use scutedb.Pagestore.Checkpoint.{
  Plan, start, entry_count, entries, plan_loop, next_list, chunk, write_lists, sync_lists, prepare,
  marks, committed, commit, checkpoint_steps, finish_checkpoint, checkpoint,
}
use scutedb.Pagestore.Sound.{tally, mark_of, IsSound, Unreached}
use scutedb.Pagestore.Sound.Ops.{when_ok-elim}
use scutedb.Pagestore.Sound.Plan.{
  IsPlan, IsDone, is_fresh, start-IsPlan, plan_loop-IsDone, plan_loop-Touch,
}

-- The free list of the last checkpoint, after a checkpoint with this result and store.
abbrev pub base_after : List ℕ → Result Error (Unit {0}) → Store → List ℕ
base_after base (ok u) s = s.free
base_after base (err e) s = base

-- Another error in the poison changes nothing that the invariant reads.
pub poisoned-IsSound :
    (base : List ℕ) (s : Store) (e : Option Error)
    → IsSound base s
    → IsSound base (record s { poisoned = e })
poisoned-IsSound base s e h = record {
  marks = h.marks;
  once = h.once;
  listed = h.listed;
  root_range = h.root_range;
  root_live = h.root_live;
  file_holds = h.file_holds;
  ids_left = h.ids_left;
  durable_before = h.durable_before;
  reusable = h.reusable;
  base_old = h.base_old;
  lists_old = h.lists_old;
  durable_root = h.durable_root;
}

module _ (base : List ℕ) (s : Store) (p : Plan) (h : IsSound base s) (g : IsPlan s p) where
  count-entries :
      (id : ℕ)
      → count id (entries s p) ≡ count id s.list_page + count id p.free + count id s.pending
  count-entries id =
      omega
        (arith, count-append id s.list_page (p.free ++ s.pending), count-append id p.free s.pending)

  -- Every page that was on a list still is on one, and so are the fresh pages.
  pub kept : (id : ℕ) → count id (entries s p) + count id p.lists ≡ tally s id + is_fresh s p id
  kept id = omega (arith, count-entries id, g.taken id)

  fresh_unlisted : (id : ℕ) → tally s id + is_fresh s p id ≤ 1
  fresh_unlisted id = ground (arith, h.once id, h.listed id)

  fresh_range : (id : ℕ) → 1 ≤ tally s id + is_fresh s p id → (1 ≤ id) × (id < p.next_page)
  fresh_range id q = ground (arith, h.listed id, g.next_grows, h.root_range)

  committed_marks :
      (id : ℕ) → lookup id (marks (entries s p) p.lists) ≡ mark_of (entries s p) [] p.lists id
  committed_marks id = ground (
    arith,
    lookup-insert_all id PageState.free_list p.lists (insert_all PageState.free (entries s p) []),
    lookup-insert_all id PageState.free (entries s p) [],
    lookup-nil {V = PageState} id,
    kept id,
    fresh_unlisted id,
  )

  pub committed-IsSound : IsSound (entries s p) (committed s p)
  unfolding committed
  committed-IsSound = record {
    marks = committed_marks;
    once = λ id. omega (arith, kept id, fresh_unlisted id);
    listed = λ id q. fresh_range id (omega (arith, kept id));
    root_range = omega (arith, h.root_range, g.next_grows);
    root_live = ground (arith, kept s.root, h.root_live, h.root_range);
    file_holds = g.file_holds;
    ids_left = g.ids_left;
    durable_before = omega arith;
    reusable = λ id. omega arith;
    base_old = λ id q. (
      (fresh_range id (omega (arith, kept id))).0,
      (fresh_range id (omega (arith, kept id))).1,
      omega (arith, kept id, fresh_unlisted id),
    );
    lists_old = λ id q. (fresh_range id (omega (arith, kept id))).1;
    durable_root = λ _. (
      omega (arith, h.root_range, g.next_grows),
      ground (arith, kept s.root, h.root_live, h.root_range),
    );
  }

  -- The pages that are to hold the list are not reached by the last checkpoint.
  lists-Unreached :
      (id : ℕ) → 1 ≤ count id p.lists → Unreached base s.durable.next_page id × (id < 2 ^ 32)
  lists-Unreached id q = (
    ground (arith, g.taken id, h.reusable id, h.durable_before),
    omega (arith, fresh_range id (omega (arith, kept id)), g.file_holds, g.ids_left),
  )

put_entries-header :
    (k off : ℕ) (p : Page) (j : ℕ) (es : List ℕ)
    → off + k ≤ 20
    → get_uint k (put_entries p j es) off ≡ get_uint k p off
unfolding put_entries
put_entries-header k off p j [] h = refl
put_entries-header k off p j (e ∷ es) h =
    put_entries-header k off (put_uint 4 p (20 + 4 * j) e) (j + 1) es h
    ∙ get_uint-put_uint_ne k p (20 + 4 * j) off 4 e (inl (omega arith))

pub get_id-free_list_bytes :
    (id next : ℕ) (es : List ℕ) → id < 2 ^ 32 → get_id (free_list_bytes id next es) ≡ id
unfolding free_list_bytes
get_id-free_list_bytes id next es h =
    let p = Page.new id Page.kind_free_list in
    let q = put_uint 4 p 16 next in
    let r = put_entries q 0 es in
    get_uint-put_uint_ne 4 (put_uint 2 r 6 (length es)) 8 0 2 (20 + 4 * length es)
      (inl (omega arith))
    ∙ get_uint-put_uint_ne 4 r 6 0 2 (length es) (inl (omega arith))
    ∙ put_entries-header 4 0 q 0 es (omega arith)
    ∙ get_uint-put_uint_ne 4 p 16 0 4 next (inl (omega arith))
    ∙ get_id-new id Page.kind_free_list h

module _ {F : Type 0} (f : File F) where
  pub write_lists-Touch :
      (P : ℕ → Type 0) (es : List ℕ) (i : ℕ) (ids : List ℕ)
      → ((id : ℕ) → 1 ≤ count id ids → P id × (id < 2 ^ 32))
      → Keeps f P (write_lists f es i ids)
  unfolding write_lists
  write_lists-Touch P es i [] h = λ w. Touch.stay
  write_lists-Touch P es i (id ∷ ids) h =
      >>=-Keeps _ _
        (lift-Keeps page _ (
          write-Touch (free_list_bytes id (next_list ids) (chunk es i))
            (subst P (sym (get_id-free_list_bytes id (next_list ids) (chunk es i) here.1)) here.0)))
        (λ u. write_lists-Touch P es (i + 1) ids (λ j q. h j (ground arith)))
    where
      here : P id × (id < 2 ^ 32)
      here = h id (ground arith)

  pub sync_lists-Keeps : (P : ℕ → Type 0) (ids : List ℕ) → Keeps f P (sync_lists f ids)
  sync_lists-Keeps P [] = λ w. Touch.stay
  sync_lists-Keeps P (id ∷ ids) = lift-Keeps (λ e. must_poison (page e)) (Page.sync f) sync-Touch

  module _ (base : List ℕ) (s : Store) (h : IsSound base s) where
    -- A plan that checkpoint goes on with is done: it takes pages for all entries.
    pub prepare-IsDone : (w : F) → IfOk (IsDone s) (prepare f s w)
    unfolding prepare
    prepare-IsDone w =
        bind-IfOk (λ _. Unit {0}) (IsDone s) (lift (λ e. must_poison (page e)) (Page.sync f) w) _
          (any-IfOk _ _ (λ u. tt))
          (λ u w1 _.
            bind-IfOk (IsDone s) (IsDone s) (plan_loop f s rounds (start s) w1) _
              (plan_loop-IsDone f s rounds (start s) w1 (start-IsPlan base s h))
              (λ p w2 done.
                bind-IfOk (λ _. Unit {0}) (IsDone s) (write_lists f (entries s p) 0 p.lists w2) _
                  (any-IfOk _ _ (λ u. tt))
                  (λ u w3 _.
                    bind-IfOk (λ _. Unit {0}) (IsDone s) (sync_lists f p.lists w3) _
                      (any-IfOk _ _ (λ u. tt)) (λ u w4 _. done))))
      where
        rounds : ℕ
        rounds = pages_for (entry_count s (start s))

    -- Until the meta page is written, checkpoint writes only pages that the last one does not reach.
    pub prepare-Touch : Keeps f (Unreached base s.durable.next_page) (prepare f s)
    unfolding prepare
    prepare-Touch w =
        bind-Touch_ok (λ _. Unit {0}) (lift (λ e. must_poison (page e)) (Page.sync f) w) _
          (lift-Keeps (λ e. must_poison (page e)) (Page.sync f) sync-Touch w)
          (any-IfOk _ _ (λ u. tt))
          (λ u w1 _.
            bind-Touch_ok (IsDone s) (plan_loop f s rounds (start s) w1) _
              (plan_loop-Touch f s _ rounds (start s) w1 (start-IsPlan base s h)
                (λ id lo. inr (omega (arith, h.durable_before, h.file_holds))))
              (plan_loop-IsDone f s rounds (start s) w1 (start-IsPlan base s h))
              (λ p w2 done.
                >>=-Keeps (write_lists f (entries s p) 0 p.lists) _
                  (write_lists-Touch _ (entries s p) 0 p.lists (lists-Unreached base s p h done.0))
                  (λ u.
                    >>=-Keeps (sync_lists f p.lists) _ (sync_lists-Keeps _ p.lists)
                      (λ u w4. Touch.stay))
                  w2))
      where
        rounds : ℕ
        rounds = pages_for (entry_count s (start s))

    finish_checkpoint-IsSound :
        (r : Result Error Plan × F)
        → IfOk (IsDone s) r
        → IsSound
            (base_after base (finish_checkpoint s r).0 (finish_checkpoint s r).1)
            (finish_checkpoint s r).1
    unfolding poison
    finish_checkpoint-IsSound (ok p, w) done =
        unfold committed in committed-IsSound base s p h done.0
    finish_checkpoint-IsSound (err (must_poison e), w) g = poisoned-IsSound base s _ h
    finish_checkpoint-IsSound (err e, w) g = h

    -- Checkpoint keeps the invariant on every branch: where it succeeds, with the new free list for
    -- the last checkpoint's, and otherwise with the old one.
    pub checkpoint-IsSound :
        (w : F)
        → IsSound (base_after base (checkpoint f s w).0 (checkpoint f s w).1) (checkpoint f s w).1
    unfolding checkpoint checkpoint_steps
    checkpoint-IsSound w =
        when_ok-elim {B = Outcome F (Unit {0})} (λ r. IsSound (base_after base r.0 r.1) r.1)
          (usable s) _ _
          (λ u e. finish_checkpoint-IsSound (checkpoint_steps f s w) (
            bind-IfOk (IsDone s) (IsDone s) (prepare f s w) _ (prepare-IsDone w) (λ p w1 done.
              bind-IfOk (λ _. Unit {0}) (IsDone s) (commit f s p w1) _ (any-IfOk _ _ (λ u. tt))
                (λ u w2 _. done))))
          (λ e. h)
