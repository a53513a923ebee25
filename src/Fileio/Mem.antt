-- ===== src/Fileio/Mem.antt =====
-- A file in memory, which never fails: a value of the interface, for tests and examples.
use scutedb.Base.{ap, ◌≡◌, Bool, true, not}
use scutedb.Fileio.Held.{IsSyncing}
use scutedb.Base.{lt→ltb}
use scutedb.Fileio.Disk.{IsDisk, IsWilling, bytes_at}
use scutedb.Base.{ℕ, zero, suc, ◌+◌, ◌-◌, ◌≤◌, ◌<◌, ◌⊎◌, refl, arith, List, [], ◌∷◌, length, get_or}
use scutedb.Base.{none, some, leb, ltb, ◌&&◌, if◌then◌else◌, ok, max}
use scutedb.Fileio.{File}
use scutedb.Fileio.Laws.{IsFile}

pub record Mem : Type 0 where
  pub cells : ℕ → ℕ
  pub end : ℕ
  -- What a crash would keep: which bytes, and how much of the length.
  pub synced : ℕ → Bool
  pub safe : ℕ

-- The bytes at `off`, as many as there are and at most `n`.
slice : (ℕ → ℕ) → ℕ → ℕ → ℕ → List ℕ
slice cells end zero off = []
slice cells end (suc n) off =
    let rest = slice cells end n (off + 1) in if ltb off end then cells off ∷ rest else []

abbrev overwrite : (ℕ → ℕ) → List ℕ → ℕ → ℕ → ℕ
overwrite cells bs off i =
    if leb off i && ltb i (off + length bs) then get_or bs (i - off) 0 else cells i

unfoldable pub mem_file : File Mem
unfolding slice
mem_file = record {
  read_at = λ m n off.
      let bs = slice m.cells m.end n off in
      (bs, if ltb (length bs) n then some (record { code = 0 }) else none, m);
  write_at = λ m bs off. (
    none,
    record {
      cells = overwrite m.cells bs off;
      end = max m.end (off + length bs);
      synced = λ i. m.synced i && not (leb off i && ltb i (off + length bs));
      safe = m.safe;
    },
  );
  sync = λ m. (none, record m { synced = λ i. true; safe = max m.safe m.end });
  size = λ m. (ok m.end, m);
  close = λ m. (none, m);
}

overwrite_outside :
    (cells : ℕ → ℕ) (bs : List ℕ) (off i : ℕ)
    → (i < off) ⊎ (off + length bs ≤ i)
    → overwrite cells bs off i ≡ cells i
overwrite_outside cells bs off i h = ground arith

-- The file in memory behaves as a store relies on.
unfoldable pub mem_file-IsFile : IsFile mem_file
unfolding mem_file overwrite_outside
mem_file-IsFile = record {
  cell = λ m i. m.cells i;
  after_read = λ m n off i. refl;
  after_write = λ m bs off i h. overwrite_outside m.cells bs off i h;
  after_sync = λ m i. refl;
  after_size = λ m i. refl;
  after_close = λ m i. refl;
}

slice-bytes_at :
    (cells : ℕ → ℕ) (end n off : ℕ) → off + n ≤ end → slice cells end n off ≡ bytes_at cells off n
unfolding slice bytes_at
slice-bytes_at cells end zero off h = refl
slice-bytes_at cells end (suc n) off h =
    rw (lt→ltb off end (omega arith))
      (ap (λ r. cells off ∷ r) (slice-bytes_at cells end n (off + 1) (omega arith)))

overwrite_inside :
    (cells : ℕ → ℕ) (bs : List ℕ) (off i : ℕ)
    → i < length bs
    → overwrite cells bs off (off + i) ≡ get_or bs i 0
overwrite_inside cells bs off i h =
    let at : off + i - off ≡ i = omega arith in rw (at) (ground arith)

unfoldable pub mem_file-IsDisk : IsDisk mem_file mem_file-IsFile
unfolding mem_file mem_file-IsFile overwrite_inside slice-bytes_at
mem_file-IsDisk = record {
  extent = λ m. m.end;
  read_back = λ m n off h. slice-bytes_at m.cells m.end n off h;
  size_back = λ m. refl;
  written = λ m bs off i e h. overwrite_inside m.cells bs off i h;
  write_reaches = λ m bs off e. omega arith;
  write_keeps = λ m bs off. omega arith;
  read_keeps = λ m n off. refl;
  sync_keeps = λ m. refl;
  size_keeps = λ m. refl;
  close_keeps = λ m. refl;
}

overwrite_held :
    (synced : ℕ → Bool) (bs : List ℕ) (off i : ℕ)
    → (i < off) ⊎ (off + length bs ≤ i)
    → synced i ≡ true
    → (synced i && not (leb off i && ltb i (off + length bs))) ≡ true
overwrite_held synced bs off i h e = ground (arith, e)

-- Its syncs hold everything, and its writes lose what they write.
unfoldable pub mem_file-IsSyncing : IsSyncing mem_file mem_file-IsFile mem_file-IsDisk
unfolding mem_file mem_file-IsFile mem_file-IsDisk overwrite_held
mem_file-IsSyncing = record {
  held = λ m i. m.synced i;
  lasting = λ m. m.safe;
  whole = λ m. true;
  sync_holds = λ m i h e. refl;
  sync_lasts = λ m h e. omega arith;
  whole_sync = λ m h e. refl;
  whole_read = λ m n off. refl;
  whole_size = λ m. refl;
  whole_write = λ m bs off. refl;
  held_read = λ m n off i h. h;
  held_write = λ m bs off i out h. overwrite_held m.synced bs off i out h;
  held_sync = λ m i h. refl;
  held_size = λ m i h. h;
  held_close = λ m i h. h;
  lasting_read = λ m n off. omega arith;
  lasting_write = λ m bs off. omega arith;
  lasting_sync = λ m. omega arith;
  lasting_size = λ m. omega arith;
  lasting_close = λ m. omega arith;
}

pub mem_file-IsWilling : IsWilling mem_file
unfolding mem_file
mem_file-IsWilling = record { accepts = λ m bs off. refl; syncs_well = λ m. refl }
