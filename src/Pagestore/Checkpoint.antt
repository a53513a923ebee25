-- ===== src/Pagestore/Checkpoint.antt =====
-- internal/pagestore/pagestore.go: Checkpoint, Close and Discard.
use scutedb.Base.{ltb, if◌then◌else◌}
use scutedb.Base.{length, take, drop}
use scutedb.Base.{insert_all}
use scutedb.Base.{unsnoc, Result, ok, err, ℕ, zero, suc}
use scutedb.Base.{◌+◌, ◌-◌, ◌*◌, ◌%◌, ◌^◌}
use scutedb.Base.{Bool}
use scutedb.Base.{true, false, Option, none, some, List}
use scutedb.Base.{[], ◌∷◌, ◌++◌}
use scutedb.Base.State.{M, ◌>>=◌, ◌>>◌, pure, fail, lift}
use scutedb.Fileio.{File}
use scutedb.Fileio.Touch.{page_size}
use scutedb.Page.{Page}
use scutedb.Page
use scutedb.Pagestore.Types.{version, no_page}
use scutedb.Pagestore.Types.{free_list_capacity, Error, Meta, Stats, PageState, Store}
use scutedb.Pagestore.Types.{stuck, must_poison, page}
use scutedb.Pagestore.Types.{PageState, Error}
use scutedb.Pagestore.Format.{pages_for, free_list_bytes, encode_meta}
use scutedb.Pagestore.Ops.{Outcome, usable, poison, Fresh, fresh_page, when_ok}

-- The variables of the loop that finds pages for the new free list.
pub record Plan : Type 0 where
  pub free : List ℕ
  pub next_page : ℕ
  pub file_pages : ℕ
  pub grew : ℕ
  pub lists : List ℕ

unfoldable pub start : Store → Plan
start s = record {
  free = s.free;
  next_page = s.next_page;
  file_pages = s.file_pages;
  grew = 0;
  lists = [];
}

-- `count()`: the entries that the list will hold, besides the pages that hold it.
abbrev pub entry_count : Store → Plan → ℕ
entry_count s p = length p.free + length s.pending + length s.list_page

-- `entries`: the old list's own pages, what is still free, and what was freed since.
abbrev pub entries : Store → Plan → List ℕ
entries s p = s.list_page ++ (p.free ++ s.pending)

abbrev pub add_fresh : Plan → Fresh → Plan
add_fresh p n = record p {
  next_page = n.next_page;
  file_pages = n.file_pages;
  grew = p.grew + n.grew;
  lists = p.lists ++ (n.id ∷ []);
}

-- The bytes of the list pages: `lists` from the `i`-th on, each with its part of the entries.
unfoldable pub next_list : List ℕ → ℕ
next_list [] = no_page
next_list (id ∷ ids) = id

unfoldable pub chunk : List ℕ → ℕ → List ℕ
chunk es i =
    let lo = i * free_list_capacity in
    let hi =
      if ltb (length es) (lo + free_list_capacity) then length es else lo + free_list_capacity in
    take (hi - lo) (drop lo es)

unfoldable pub next_meta : Store → Plan → Meta
next_meta s p = record {
  version = version;
  page_size = page_size;
  root = s.root;
  free_list_page = next_list p.lists;
  free_count = length (entries s p) % 2 ^ 32;
  next_page = p.next_page;
  file_pages = p.file_pages;
  checkpoint = (s.durable.checkpoint + 1) % 2 ^ 32;
}

-- `status` afresh: the entries free, the list's own pages marked as such.
abbrev pub marks : List ℕ → List ℕ → List (ℕ × PageState)
marks es ls = insert_all PageState.free_list ls (insert_all PageState.free es [])

-- The store once the meta page is durable.
unfoldable pub committed : Store → Plan → Store
unfolding next_meta
committed s p =
    let stats : Stats = s.stats in
    record s {
      durable = next_meta s p;
      next_page = p.next_page;
      file_pages = p.file_pages;
      free = entries s p;
      pending = [];
      list_page = p.lists;
      status = marks (entries s p) p.lists;
      dirty = false;
      stats = record stats { grown = stats.grown + p.grew; checkpoints = stats.checkpoints + 1 };
    }

-- Checkpoint poisons the store where the steps say that it must.
abbrev pub finish_checkpoint : {F : Type 0} → Store → Result Error Plan × F → Outcome F (Unit {0})
finish_checkpoint s (ok p, w) = (ok tt, committed s p, w)
finish_checkpoint s (err (must_poison e), w) = (err (poison s e).0, (poison s e).1, w)
finish_checkpoint s (err e, w) = (err e, s, w)

-- Close: a last checkpoint if there is something to write and the store is not poisoned. The
-- poison is reported before the checkpoint's own error, and that before the file's.
abbrev pub close_result :
    Option Error → Result Error (Unit {0}) → Result Error (Unit {0}) → Result Error (Unit {0})
close_result (some e) r c = err (Error.poisoned e)
close_result none (err e) c = err e
close_result none (ok u) c = c

module _ {F : Type 0} (f : File F) where
  -- One round: the last free page, or a page from the end of the file.
  abbrev pub plan_from : Plan → Option (List ℕ × ℕ) → M Error F Plan
  plan_from p (some (rest, id)) = pure (record p { free = rest; lists = p.lists ++ (id ∷ []) })
  plan_from p none = do n ← fresh_page f p.next_page p.file_pages; pure (add_fresh p n)

  unfoldable pub plan_round : Plan → M Error F Plan
  plan_round p = plan_from p (unsnoc p.free)

  -- `for pagesFor(count()) > len(lists)`; a round adds a page and no entry, so `pagesFor` of the
  -- first count bounds the rounds.
  unfoldable pub plan_loop : Store → ℕ → Plan → M Error F Plan
  plan_loop s zero p =
      if ltb (length p.lists) (pages_for (entry_count s p)) then fail stuck else pure p
  plan_loop s (suc fuel) p =
      let more : M Error F Plan = (do p' ← plan_round p; plan_loop s fuel p') in
      if ltb (length p.lists) (pages_for (entry_count s p)) then more else pure p

  unfoldable pub write_lists : List ℕ → ℕ → List ℕ → M Error F (Unit {0})
  write_lists es i [] = pure tt
  write_lists es i (id ∷ ids) = do
    lift page (Page.write f (free_list_bytes id (next_list ids) (chunk es i)))
    write_lists es (i + 1) ids

  -- `if len(lists) > 0 { if err := s.pf.Sync(); err != nil { return mustPoison{err} } }`
  abbrev pub sync_lists : List ℕ → M Error F (Unit {0})
  sync_lists [] = pure tt
  sync_lists (id ∷ ids) = lift (λ e. must_poison (page e)) (Page.sync f)

  -- Everything before the meta page is written.
  unfoldable pub prepare : Store → M Error F Plan
  prepare s = do
    lift (λ e. must_poison (page e)) (Page.sync f)
    p ← plan_loop s (pages_for (entry_count s (start s))) (start s)
    write_lists (entries s p) 0 p.lists
    sync_lists p.lists
    pure p

  -- The meta page, and the sync that makes it count.
  unfoldable pub commit : Store → Plan → M Error F (Unit {0})
  commit s p = do
    lift (λ e. must_poison (page e)) (Page.write f (encode_meta (next_meta s p)))
    lift (λ e. must_poison (page e)) (Page.sync f)

  unfoldable pub checkpoint_steps : Store → M Error F Plan
  checkpoint_steps s = do p ← prepare s; commit s p; pure p

  unfoldable pub checkpoint : Store → F → Outcome F (Unit {0})
  checkpoint s w =
      when_ok (usable s) (finish_checkpoint s (checkpoint_steps s w)) (λ e. (err e, s, w))

  abbrev pub close_file : Outcome F (Unit {0}) → Outcome F (Unit {0})
  close_file (r, s, w) =
      let (c, w') = lift page (Page.close f) w in
      (close_result s.poisoned r c, record s { closed = true }, w')

  abbrev pub last_checkpoint : Store → Option Error → Bool → F → Outcome F (Unit {0})
  last_checkpoint s none true w = checkpoint s w
  last_checkpoint s none false w = (ok tt, s, w)
  last_checkpoint s (some e) d w = (ok tt, s, w)

  unfoldable pub close : Store → F → Outcome F (Unit {0})
  close s w =
      if s.closed then (ok tt, s, w) else close_file (last_checkpoint s s.poisoned s.dirty w)

  unfoldable pub discard : Store → F → Outcome F (Unit {0})
  discard s w =
      let (c, w') = lift page (Page.close f) w in
      if s.closed then (ok tt, s, w) else (c, record s { closed = true }, w')
