-- ===== src/Fileio/Held.antt =====
-- What a crash of the machine leaves of a file: what was synced, and not written since.
use scutedb.Base.{ℕ, ◌+◌, ◌*◌, ◌≤◌, ◌<◌, ◌≡◌, ◌⊎◌, List, length, arith, Bool, true, none}
use scutedb.Fileio.{File}
use scutedb.Fileio.Touch.{page_size, Touch, stay, reads, writes, syncs, sizes, closes}
use scutedb.Fileio.Laws.{IsFile, outside}
use scutedb.Fileio.Disk.{IsDisk}

-- `held s i` says that a crash does not lose the byte at `i`, and `lasting` is the length that a crash
-- leaves at least. Only a sync that returns no error makes bytes and length so, and that only while
-- the file is `whole`, that is, while no sync of it has failed: one that comes after a failed one may
-- leave out what that one should have written. A write, also one that fails, may undo it for the
-- bytes in its range, and no other call for any.
pub record IsSyncing {F : Type 0} (f : File F) (law : IsFile f) (disk : IsDisk f law) : Type 0 where
  pub held : F → ℕ → Bool
  pub lasting : F → ℕ
  pub whole : F → Bool
  pub sync_holds :
      (s : F) (i : ℕ) → whole s ≡ true → (f.sync s).0 ≡ none → held (f.sync s).1 i ≡ true
  pub sync_lasts :
      (s : F) → whole s ≡ true → (f.sync s).0 ≡ none → disk.extent s ≤ lasting (f.sync s).1
  pub whole_sync : (s : F) → whole s ≡ true → (f.sync s).0 ≡ none → whole (f.sync s).1 ≡ true
  pub whole_read : (s : F) (n off : ℕ) → whole (f.read_at s n off).2 ≡ whole s
  pub whole_size : (s : F) → whole (f.size s).1 ≡ whole s
  pub whole_write : (s : F) (bs : List ℕ) (off : ℕ) → whole (f.write_at s bs off).1 ≡ whole s
  pub held_read : (s : F) (n off i : ℕ) → held s i ≡ true → held (f.read_at s n off).2 i ≡ true
  pub held_write :
      (s : F) (bs : List ℕ) (off i : ℕ)
      → (i < off) ⊎ (off + length bs ≤ i)
      → held s i ≡ true
      → held (f.write_at s bs off).1 i ≡ true
  pub held_sync : (s : F) (i : ℕ) → held s i ≡ true → held (f.sync s).1 i ≡ true
  pub held_size : (s : F) (i : ℕ) → held s i ≡ true → held (f.size s).1 i ≡ true
  pub held_close : (s : F) (i : ℕ) → held s i ≡ true → held (f.close s).1 i ≡ true
  pub lasting_read : (s : F) (n off : ℕ) → lasting s ≤ lasting (f.read_at s n off).2
  pub lasting_write : (s : F) (bs : List ℕ) (off : ℕ) → lasting s ≤ lasting (f.write_at s bs off).1
  pub lasting_sync : (s : F) → lasting s ≤ lasting (f.sync s).1
  pub lasting_size : (s : F) → lasting s ≤ lasting (f.size s).1
  pub lasting_close : (s : F) → lasting s ≤ lasting (f.close s).1

module _ {F : Type 0} {f : File F} {law : IsFile f} {disk : IsDisk f law}
    (syncing : IsSyncing f law disk) where
  -- A crash would lose nothing of the file.
  pub record IsHeld (w : F) : Type 0 where
    pub all_held : (i : ℕ) → syncing.held w i ≡ true
    pub all_lasts : disk.extent w ≤ syncing.lasting w

  -- A byte of a page that file operations did not write is held as before.
  pub Touch-held :
      (P : ℕ → Type 0) (id k : ℕ) {s t : F}
      → ¬ P id
      → k < page_size
      → Touch f P s t
      → syncing.held s (id * page_size + k) ≡ true
      → syncing.held t (id * page_size + k) ≡ true
  Touch-held P id k np hk stay h = h
  Touch-held P id k np hk (reads n off u) h =
      syncing.held_read _ n off _ (Touch-held P id k np hk u h)
  Touch-held P id k np hk (writes bs off w u) h =
      syncing.held_write _ bs off _ (outside f law P (length bs) off id k w np hk)
        (Touch-held P id k np hk u h)
  Touch-held P id k np hk (syncs u) h = syncing.held_sync _ _ (Touch-held P id k np hk u h)
  Touch-held P id k np hk (sizes u) h = syncing.held_size _ _ (Touch-held P id k np hk u h)
  Touch-held P id k np hk (closes u) h = syncing.held_close _ _ (Touch-held P id k np hk u h)

  pub Touch-lasting :
      {P : ℕ → Type 0} {s t : F} → Touch f P s t → syncing.lasting s ≤ syncing.lasting t
  Touch-lasting stay = omega arith
  Touch-lasting (reads {g} n off u) = omega (arith, syncing.lasting_read g n off, Touch-lasting u)
  Touch-lasting (writes {g} bs off w u) =
      omega (arith, syncing.lasting_write g bs off, Touch-lasting u)
  Touch-lasting (syncs {g} u) = omega (arith, syncing.lasting_sync g, Touch-lasting u)
  Touch-lasting (sizes {g} u) = omega (arith, syncing.lasting_size g, Touch-lasting u)
  Touch-lasting (closes {g} u) = omega (arith, syncing.lasting_close g, Touch-lasting u)

module _ {F G : Type 0} {f : File F} {g : File G} {law : IsFile f} {disk : IsDisk f law}
    {law' : IsFile g} {disk' : IsDisk g law'} (syncing : IsSyncing f law disk)
    (syncing' : IsSyncing g law' disk') where
  -- A crash while the file is `w` may leave the file `v`: the bytes that are held, in a file that is
  -- long enough. Any other byte may be anything. No sync has failed since the restart.
  pub record MayLeave (w : F) (v : G) : Type 0 where
    pub kept : (i : ℕ) → syncing.held w i ≡ true → law'.cell v i ≡ law.cell w i
    pub as_long : syncing.lasting w ≤ disk'.extent v
    pub restarted : syncing'.whole v ≡ true
