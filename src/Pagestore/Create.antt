-- ===== src/Pagestore/Create.antt =====
-- internal/pagestore/pagestore.go: `create`, and that what it makes satisfies the invariant.
use scutedb.Base.{lookup-nil}
use scutedb.Base.{Result, ok, err}
use scutedb.Base.{refl}
use scutedb.Base.{false, none}
use scutedb.Base.{[], arith}
use scutedb.Base.State.{M, ◌>>◌, IfOk, bind-IfOk, any-IfOk, lift}
use scutedb.Fileio.{File}
use scutedb.Page.{Page}
use scutedb.Page
use scutedb.Pagestore.Types.{Meta, Store, PageState, Error, no_page, no_stats, chunk_pages, page}
use scutedb.Pagestore.Ops.{Outcome}
use scutedb.Pagestore.Checkpoint.{checkpoint}
use scutedb.Pagestore.Sound.{IsSound}
use scutedb.Pagestore.Sound.Checkpoint.{checkpoint-IsSound, base_after}

-- Go's zero value, before the first checkpoint.
abbrev pub no_meta : Meta
no_meta = record {
  version = 0;
  page_size = 0;
  root = 0;
  free_list_page = 0;
  free_count = 0;
  next_page = 0;
  file_pages = 0;
  checkpoint = 0;
}

abbrev pub first_store : Store
first_store = record {
  durable = no_meta;
  root = no_page;
  next_page = 1;
  file_pages = chunk_pages;
  free = [];
  pending = [];
  list_page = [];
  status = [];
  dirty = false;
  closed = false;
  poisoned = none;
  stats = record no_stats { grown = 1 };
}

-- The new store is returned only where its first checkpoint succeeded.
abbrev pub created : {F : Type 0} → Outcome F (Unit {0}) → Result Error Store × F
created (ok u, s, w) = (ok s, w)
created (err e, s, w) = (err e, w)

unfoldable pub create : {F : Type 0} → File F → M Error F Store
create f = do lift page (Page.grow f 0 chunk_pages); λ w. created (checkpoint f first_store w)

pub first_store-IsSound : IsSound [] first_store
first_store-IsSound = record {
  marks = λ id. lookup-nil {V = PageState} id;
  once = λ id. omega arith;
  listed = λ id h. absurd (omega arith);
  root_range = omega arith;
  root_live = refl;
  file_holds = omega arith;
  ids_left = omega arith;
  durable_before = omega arith;
  reusable = λ id. omega arith;
  base_old = λ id h. absurd (omega arith);
  lists_old = λ id h. absurd (omega arith);
  durable_root = λ h. absurd (omega arith);
}

created-IsSound :
    {F : Type 0} (r : Outcome F (Unit {0}))
    → IsSound (base_after [] r.0 r.1) r.1
    → IfOk (λ s. IsSound s.free s) (created r)
created-IsSound (ok u, s, w) h = h
created-IsSound (err e, s, w) h = tt

-- A store that `create` returns satisfies the invariant, with its own free list for that of the
-- last checkpoint, whatever the file answers.
pub create-IsSound : {F : Type 0} (f : File F) (w : F) → IfOk (λ s. IsSound s.free s) (create f w)
unfolding create
create-IsSound f w =
    bind-IfOk (λ _. Unit {0}) (λ s. IsSound s.free s) (lift page (Page.grow f 0 chunk_pages) w) _
      (any-IfOk _ _ (λ u. tt))
      (λ u w1 _.
        created-IsSound (checkpoint f first_store w1)
          (checkpoint-IsSound f [] first_store first_store-IsSound w1))
