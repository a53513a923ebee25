-- ===== src/Pagestore/Tests/Recovery.antt =====
-- Stores that are written to a file in memory and read back.
use scutedb.Pagestore.Ops.{allocate, free, reuse, usable, in_range, fresh_page}
use scutedb.Base.{unsnoc, lookup, insert, delete, be_bytes, be_uint}
use scutedb.Pagestore.Checkpoint.{
  checkpoint_steps, prepare, plan_loop, plan_round, start, write_lists, commit, next_meta,
  committed, next_list, chunk,
}
use scutedb.Pagestore.Format.{pages_for, free_list_bytes, put_entries, encode_meta}
use scutedb.Base.{◌≡◌, refl, arith, [], ◌∷◌, inl, ok}
use scutedb.Fileio.Mem.{
  Mem, mem_file, mem_file-IsFile, mem_file-IsDisk, mem_file-IsSyncing, mem_file-IsWilling,
}
use scutedb.Page
use scutedb.Base.{◌≢◌}
use scutedb.Base.State.{IfErr}
use scutedb.Pagestore.Run.Verify.{verify-Quietly}
use scutedb.Pagestore.Types.{stuck}
use scutedb.Pagestore.Load.Ends.{read_free_list-ne-stuck}
use scutedb.Pagestore.Run.Backed.{Quietly-IsBacked}
use scutedb.Page.Disk.{Holds}
use scutedb.Pagestore.Types.{no_stats}
use scutedb.Pagestore.Checkpoint.{checkpoint}
use scutedb.Pagestore.Sound.{IsSound}
use scutedb.Pagestore.Load.{verify, load, read_free_list}
use scutedb.Pagestore.Run.{World, Quietly, none_yet, then_quiet, allocates}
use scutedb.Pagestore.Run.Recover.{Survives, after, after-IsSound, load-checkpoint}
use scutedb.Pagestore.Run.Restart.{load-crash}
use scutedb.Fileio.Held.{MayLeave, IsHeld}
use scutedb.Base.{true, if◌then◌else◌}
use scutedb.Pagestore.Load.Durable.{IsWritten, checkpoint-IsWritten}
use scutedb.Pagestore.Tests.{small, reused, quiet, small_store-IsSound, small_meta, blank}

small_room : Holds mem_file-IsFile mem_file-IsDisk 16 small.file
unfolding mem_file-IsDisk
small_room = omega arith

reused_checkpoint : (checkpoint mem_file reused.store reused.file).0 ≡ ok tt
unfolding free allocate reuse usable in_range unsnoc lookup insert delete mem_file Page.write
    Page.new Page.sync be_bytes be_uint checkpoint checkpoint_steps prepare plan_loop plan_round
    pages_for start fresh_page write_lists free_list_bytes put_entries commit encode_meta next_meta
    committed next_list chunk
reused_checkpoint = refl

-- The file that the checkpoint leaves, and nothing lost.
abbrev saved : World Mem
saved = after mem_file-IsFile mem_file-IsDisk mem_file-IsFile mem_file-IsDisk reused

reused-IsSound : IsSound reused.base reused.store
reused-IsSound =
    (Quietly-IsBacked mem_file-IsFile mem_file-IsDisk {x = small} small_store-IsSound quiet
      small_room).0

reused_room : Holds mem_file-IsFile mem_file-IsDisk reused.store.file_pages reused.file
reused_room =
    (Quietly-IsBacked mem_file-IsFile mem_file-IsDisk {x = small} small_store-IsSound quiet
      small_room).1

saved-IsWritten : IsWritten mem_file-IsFile mem_file-IsDisk saved.store saved.file
saved-IsWritten =
    checkpoint-IsWritten mem_file-IsFile mem_file-IsDisk (2 ∷ []) reused.store reused-IsSound
      reused.file reused_room reused_checkpoint

saved-Survives :
    Survives mem_file-IsFile mem_file-IsDisk mem_file-IsFile mem_file-IsDisk saved saved.file
      saved.file
saved-Survives = record { kept = λ id k r h. refl; as_long = saved-IsWritten.on_disk.backed }

load-checkpoint_example :
    (u : Mem) × (load mem_file saved.file ≡ (ok (record (saved.store) { stats = no_stats }), u))
load-checkpoint_example =
    load-checkpoint mem_file-IsFile mem_file-IsDisk mem_file-IsFile mem_file-IsDisk {x = small}
      {y = reused} saved.file small_store-IsSound small_room quiet reused_checkpoint saved-Survives
      mem_file-IsWilling

saved_room : Holds mem_file-IsFile mem_file-IsDisk saved.store.file_pages saved.file
unfolding free allocate reuse usable in_range unsnoc lookup insert delete mem_file Page.write
    Page.new Page.sync be_bytes be_uint checkpoint checkpoint_steps prepare plan_loop plan_round
    pages_for start fresh_page write_lists free_list_bytes put_entries commit encode_meta next_meta
    committed next_list chunk mem_file-IsDisk
saved_room = omega arith

read_free_list-ne-stuck_example : IfErr (λ e. e ≢ stuck) (read_free_list mem_file small_meta blank)
read_free_list-ne-stuck_example = read_free_list-ne-stuck mem_file small_meta blank

-- One more page is allocated after the checkpoint.
abbrev later : World Mem
later = record saved {
  store = (allocate mem_file saved.store 2 saved.file).1;
  file = (allocate mem_file saved.store 2 saved.file).2;
}

later_usable : usable later.store ≡ ok tt
unfolding free allocate reuse usable in_range unsnoc lookup insert delete mem_file Page.write
    Page.new Page.sync be_bytes be_uint checkpoint checkpoint_steps prepare plan_loop plan_round
    pages_for start fresh_page write_lists free_list_bytes put_entries commit encode_meta next_meta
    committed next_list chunk
later_usable = refl

later_quiet : Quietly mem_file saved later
later_quiet = then_quiet none_yet (allocates 2)

verify-Quietly_example : (v : Mem) × (verify mem_file later.store later.file ≡ (ok tt, v))
verify-Quietly_example =
    verify-Quietly mem_file-IsFile mem_file-IsDisk {x = saved} {y = later}
      (after-IsSound mem_file-IsFile mem_file-IsDisk mem_file-IsFile mem_file-IsDisk reused
        reused-IsSound reused_checkpoint)
      saved-IsWritten.on_disk saved_room later_quiet later_usable

-- A crash after that allocation loses every byte that was written since it was synced.
abbrev crashed : Mem → Mem
crashed m = record {
  cells = λ i. if m.synced i then m.cells i else 255;
  end = m.safe;
  synced = λ i. true;
  safe = m.safe;
}

crashed-MayLeave :
    (m : Mem)
    → MayLeave {f = mem_file} {g = mem_file} mem_file-IsSyncing mem_file-IsSyncing m (crashed m)
unfolding mem_file-IsFile mem_file-IsDisk mem_file-IsSyncing
crashed-MayLeave m = record { kept = λ i h. rw h refl; as_long = omega arith; restarted = refl }

reused_whole : mem_file-IsSyncing.whole reused.file ≡ true
unfolding mem_file-IsSyncing
reused_whole = refl

load-crash_example :
    (u : Mem) × (load mem_file (crashed later.file)
      ≡ (ok (record (saved.store) { stats = no_stats }), u))
    × IsHeld mem_file-IsSyncing u
load-crash_example =
    load-crash mem_file-IsFile mem_file-IsDisk mem_file-IsSyncing mem_file-IsFile mem_file-IsDisk
      mem_file-IsSyncing {x = reused} {y = later} (crashed later.file) reused-IsSound reused_room
      reused_whole reused_checkpoint later_quiet (inl (crashed-MayLeave later.file))
      mem_file-IsWilling
