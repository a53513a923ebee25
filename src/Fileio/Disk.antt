-- ===== src/Fileio/Disk.antt =====
-- What a file in working order does: reads find what writes that succeeded put there.
use scutedb.Base.{
  ℕ, zero, suc, ◌+◌, ◌≤◌, ◌<◌, ◌≡◌, refl, ap, ap₂, ◌∙◌, arith, List, [], ◌∷◌, length, get_or, none,
  ok,
}
use scutedb.Fileio.{File}
use scutedb.Fileio.Touch.{Touch, stay, reads, writes, syncs, sizes, closes}
use scutedb.Fileio.Laws.{IsFile}

-- The `n` bytes from `off` on.
unfoldable pub bytes_at : (ℕ → ℕ) → ℕ → ℕ → List ℕ
bytes_at cell off zero = []
bytes_at cell off (suc n) = cell off ∷ bytes_at cell (off + 1) n

pub length-bytes_at : (cell : ℕ → ℕ) (off n : ℕ) → length (bytes_at cell off n) ≡ n
unfolding bytes_at
length-bytes_at cell off zero = refl
length-bytes_at cell off (suc n) = ap suc (length-bytes_at cell (off + 1) n)

pub bytes_at_ext :
    (c d : ℕ → ℕ) (off n : ℕ)
    → ((i : ℕ) → off ≤ i → i < off + n → c i ≡ d i)
    → bytes_at c off n ≡ bytes_at d off n
unfolding bytes_at
bytes_at_ext c d off zero h = refl
bytes_at_ext c d off (suc n) h =
    ap₂ (λ (x : ℕ) xs. x ∷ xs) (h off (omega arith) (omega arith))
      (bytes_at_ext c d (off + 1) n (λ i lo hi. h i (omega arith) (omega arith)))

pub bytes_at_put :
    (c : ℕ → ℕ) (off : ℕ) (bs : List ℕ)
    → ((i : ℕ) → i < length bs → c (off + i) ≡ get_or bs i 0)
    → bytes_at c off (length bs) ≡ bs
unfolding bytes_at
bytes_at_put c off [] h = refl
bytes_at_put c off (b ∷ bs) h =
    ap₂ (λ (x : ℕ) xs. x ∷ xs) (ap c (omega arith) ∙ h 0 (omega arith))
      (bytes_at_put c (off + 1) bs
        (λ i lt. ap c {x = off + 1 + i} {y = off + suc i} (omega arith) ∙ h (suc i) (omega arith)))

-- `extent` is the file's size. A read inside the file returns the bytes there; a write that returns
-- no error has put its bytes, and the file is at least as long; no call makes it shorter.
pub record IsDisk {F : Type 0} (f : File F) (law : IsFile f) : Type 0 where
  pub extent : F → ℕ
  pub read_back :
      (s : F) (n off : ℕ) → off + n ≤ extent s → (f.read_at s n off).0 ≡ bytes_at (law.cell s) off n
  pub size_back : (s : F) → (f.size s).0 ≡ ok (extent s)
  pub written :
      (s : F) (bs : List ℕ) (off i : ℕ)
      → (f.write_at s bs off).0 ≡ none
      → i < length bs
      → law.cell (f.write_at s bs off).1 (off + i) ≡ get_or bs i 0
  pub write_reaches :
      (s : F) (bs : List ℕ) (off : ℕ)
      → (f.write_at s bs off).0 ≡ none
      → off + length bs ≤ extent (f.write_at s bs off).1
  pub write_keeps : (s : F) (bs : List ℕ) (off : ℕ) → extent s ≤ extent (f.write_at s bs off).1
  pub read_keeps : (s : F) (n off : ℕ) → extent (f.read_at s n off).2 ≡ extent s
  pub sync_keeps : (s : F) → extent (f.sync s).1 ≡ extent s
  pub size_keeps : (s : F) → extent (f.size s).1 ≡ extent s
  pub close_keeps : (s : F) → extent (f.close s).1 ≡ extent s

-- No write or sync fails from here on.
pub record IsWilling {F : Type 0} (f : File F) : Type 0 where
  pub accepts : (s : F) (bs : List ℕ) (off : ℕ) → (f.write_at s bs off).0 ≡ none
  pub syncs_well : (s : F) → (f.sync s).0 ≡ none

module _ {F : Type 0} {f : File F} {law : IsFile f} (disk : IsDisk f law) where
  pub Touch-extent : {P : ℕ → Type 0} {s t : F} → Touch f P s t → disk.extent s ≤ disk.extent t
  Touch-extent stay = omega arith
  Touch-extent (reads {g} n off u) = omega (arith, disk.read_keeps g n off, Touch-extent u)
  Touch-extent (writes {g} bs off w u) = omega (arith, disk.write_keeps g bs off, Touch-extent u)
  Touch-extent (syncs {g} u) = omega (arith, disk.sync_keeps g, Touch-extent u)
  Touch-extent (sizes {g} u) = omega (arith, disk.size_keeps g, Touch-extent u)
  Touch-extent (closes {g} u) = omega (arith, disk.close_keeps g, Touch-extent u)
