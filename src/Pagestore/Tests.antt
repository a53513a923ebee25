-- ===== src/Pagestore/Tests.antt =====
-- Concrete stores, and the theorems at concrete inputs.
pub mod Recovery
use scutedb.Base.{◌+◌, ◌*◌, ◌≤◌, ◌<◌, ◌≡◌, inl, inr, refl, arith, [], ◌∷◌}
use scutedb.Base.{none, false, lookup, count, insert, delete, unsnoc, be_bytes, be_uint, ok}
use scutedb.Base.State.{IfOk}
use scutedb.Fileio.Mem.{Mem, mem_file, mem_file-IsFile}
use scutedb.Fileio.Touch.{Touch}
use scutedb.Pagestore.Types.{Meta, Store, PageState, no_stats}
use scutedb.Pagestore.Format.{encode_meta, decode_meta}
use scutedb.Pagestore.Format.RoundTrip.{IsFit, decode_meta-encode_meta}
use scutedb.Pagestore.Sound.{IsSound, Unreached}
use scutedb.Pagestore.Ops.{allocate, free, reuse, usable, in_range}
use scutedb.Pagestore.Checkpoint.{checkpoint, prepare, close}
use scutedb.Pagestore.Load.{verify}
use scutedb.Pagestore.Create.{create, create-IsSound}
use scutedb.Pagestore.Sound.Checkpoint.{base_after, checkpoint-IsSound, prepare-Touch}
use scutedb.Pagestore.Sound.Ops.{free-IsSound, set_root-IsSound}
use scutedb.Pagestore.Sound.Plan.{start-IsPlan, IsDone, plan_loop-IsDone, plan_loop-ne-stuck}
use scutedb.Pagestore.Checkpoint.{start, entry_count, plan_loop}
use scutedb.Pagestore.Format.{pages_for}
use scutedb.Pagestore.Ops.{set_root}
use scutedb.Pagestore.Types.{stuck}
use scutedb.Base.{◌≢◌}
use scutedb.Base.State.{IfErr}
use scutedb.Page
use scutedb.Pagestore.Sound.Allocate.{allocate-Touch, allocate_lem, Undoes}
use scutedb.Pagestore.Run.{
  World, Quietly, Runs, allocates, frees, none_yet, then_quiet, begins, then_calls,
  then_checkpoints, then_verifies, then_closes, base_closed,
}
use scutedb.Pagestore.Run.Safe.{Runs-IsSound}
use scutedb.Pagestore.Run.Crash.{reached_lem, reached_keeps}

-- Page 1 is the root, page 2 free, and page 3 holds the free list.
abbrev pub small_meta : Meta
small_meta = record {
  version = 1;
  page_size = 4096;
  root = 1;
  free_list_page = 3;
  free_count = 1;
  next_page = 4;
  file_pages = 16;
  checkpoint = 7;
}

abbrev pub small_store : Store
small_store = record {
  durable = small_meta;
  root = 1;
  next_page = 4;
  file_pages = 16;
  free = 2 ∷ [];
  pending = [];
  list_page = 3 ∷ [];
  status = (2, PageState.free) ∷ (3, PageState.free_list) ∷ [];
  dirty = false;
  closed = false;
  poisoned = none;
  stats = no_stats;
}

pub small_store-IsSound : IsSound (2 ∷ []) small_store
unfolding lookup
small_store-IsSound = record {
  marks = λ id. ground arith;
  once = λ id. ground arith;
  listed = λ id h. ground arith;
  root_range = omega arith;
  root_live = refl;
  file_holds = omega arith;
  ids_left = omega arith;
  durable_before = omega arith;
  reusable = λ id. omega arith;
  base_old = λ id h. ground arith;
  lists_old = λ id h. ground arith;
  durable_root = λ h. (omega arith, refl);
}

abbrev pub blank : Mem
blank = record { cells = λ i. 0; end = 65536; synced = λ i. false; safe = 0 }

abbrev pub small : World Mem
small = record { base = 2 ∷ []; store = small_store; file = blank }

-- Free refuses page 1, which is the root; then a page is allocated: page 2, reused.
abbrev pub refused : World Mem
refused = record small { store = (free small_store 1).1 }

abbrev pub reused : World Mem
reused = record refused {
  store = (allocate mem_file refused.store 2 blank).1;
  file = (allocate mem_file refused.store 2 blank).2;
}

allocate-reuses : (reused.store.free ≡ []) × (reused.store.pending ≡ []) × (reused.store.root ≡ 1)
unfolding free allocate reuse usable in_range unsnoc lookup insert delete mem_file Page.write
    Page.new be_bytes be_uint
allocate-reuses = (refl, refl, refl)

pub quiet : Quietly mem_file small reused
quiet = then_quiet (then_quiet none_yet (frees 1)) (allocates 2)

reached_keeps_example :
    (reused.file.cells (1 * 4096 + 5) ≡ 0)
    × ((prepare mem_file reused.store reused.file).1.cells (1 * 4096 + 5) ≡ 0)
unfolding mem_file-IsFile
reached_keeps_example =
    reached_keeps mem_file mem_file-IsFile {x = small} {y = reused} 1 5 small_store-IsSound quiet
      (omega arith) (omega arith)

-- Then a checkpoint, Verify and Close.
abbrev checked : World Mem
checked = record {
  base =
      base_after (2 ∷ []) (checkpoint mem_file reused.store reused.file).0
        (checkpoint mem_file reused.store reused.file).1;
  store = (checkpoint mem_file reused.store reused.file).1;
  file =
      (verify mem_file (checkpoint mem_file reused.store reused.file).1
        (checkpoint mem_file reused.store reused.file).2).1;
}

runs : Runs mem_file small (record checked {
  base = base_closed mem_file checked.base checked.store checked.file;
  store = (close mem_file checked.store checked.file).1;
  file = (close mem_file checked.store checked.file).2;
})
runs =
    then_closes
      (then_verifies (then_checkpoints (then_calls (then_calls begins (frees 1)) (allocates 2))))

Runs-IsSound_example :
    IsSound
      (base_closed mem_file checked.base checked.store checked.file)
      (close mem_file checked.store checked.file).1
Runs-IsSound_example = Runs-IsSound mem_file {x = small} small_store-IsSound runs

small_meta-IsFit : IsFit small_meta
small_meta-IsFit = omega arith

decode_meta-encode_meta_example : decode_meta (encode_meta small_meta) ≡ ok small_meta
decode_meta-encode_meta_example = decode_meta-encode_meta small_meta small_meta-IsFit

allocate_lem_example :
    IsSound (2 ∷ []) (allocate mem_file small_store 2 blank).1
    × Undoes small_store (allocate mem_file small_store 2 blank)
allocate_lem_example = allocate_lem mem_file (2 ∷ []) small_store 2 small_store-IsSound blank

plan_loop-IsDone_example :
    IfOk (IsDone small_store) (plan_loop mem_file small_store 1 (start small_store) blank)
plan_loop-IsDone_example =
    plan_loop-IsDone mem_file small_store 1 (start small_store) blank
      (start-IsPlan (2 ∷ []) small_store small_store-IsSound)

small_rounds : pages_for (entry_count small_store (start small_store)) ≤ 0 + 1
unfolding pages_for start
small_rounds = omega arith

plan_loop-ne-stuck_example :
    IfErr (λ e. e ≢ stuck) (plan_loop mem_file small_store 1 (start small_store) blank)
unfolding start
plan_loop-ne-stuck_example =
    plan_loop-ne-stuck mem_file small_store 1 (start small_store) blank small_rounds

checkpoint-IsSound_example :
    IsSound
      (base_after
        (2 ∷ [])
        (checkpoint mem_file small_store blank).0
        (checkpoint mem_file small_store blank).1)
      (checkpoint mem_file small_store blank).1
checkpoint-IsSound_example =
    checkpoint-IsSound mem_file (2 ∷ []) small_store small_store-IsSound blank
