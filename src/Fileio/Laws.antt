-- ===== src/Fileio/Laws.antt =====
-- What a store relies on of its file: bytes that an operation does not write stay as they are.
use scutedb.Base.{ℕ, ◌+◌, ◌*◌, ◌≤◌, ◌<◌, ◌≡◌, ◌⊎◌, inl, inr, refl, ◌∙◌, List, length, arith, dec_lt}
use scutedb.Fileio.{File}
use scutedb.Fileio.Touch.{page_size, Within, Touch, stay, reads, writes, syncs, sizes, closes}

-- `cell s i` is the byte of the file at `i`, as a read finds it. A write, also one that fails half
-- way, changes no byte outside the range that it was given; nothing else changes any.
pub record IsFile {F : Type 0} (f : File F) : Type 0 where
  pub cell : F → ℕ → ℕ
  pub after_read : (s : F) (n off i : ℕ) → cell (f.read_at s n off).2 i ≡ cell s i
  pub after_write :
      (s : F) (bs : List ℕ) (off i : ℕ)
      → (i < off) ⊎ (off + length bs ≤ i)
      → cell (f.write_at s bs off).1 i ≡ cell s i
  pub after_sync : (s : F) (i : ℕ) → cell (f.sync s).1 i ≡ cell s i
  pub after_size : (s : F) (i : ℕ) → cell (f.size s).1 i ≡ cell s i
  pub after_close : (s : F) (i : ℕ) → cell (f.close s).1 i ≡ cell s i

module _ {F : Type 0} (f : File F) (law : IsFile f) where
  pub outside :
      (P : ℕ → Type 0) (n off id k : ℕ)
      → Within P off n
      → ¬ P id
      → k < page_size
      → (id * page_size + k < off) ⊎ (off + n ≤ id * page_size + k)
  outside P n off id k within not_P hk = elim (dec_lt (id * page_size + k) off) [
    | yes below ↦ inl below
    | no above ↦ elim (dec_lt (id * page_size + k) (off + n)) [
      | yes inside ↦ absurd (not_P (within id (omega arith) (omega arith)))
      | no past ↦ inr (omega arith)
    ]
  ]

  -- A run of file operations that writes only pages of `P` leaves every byte of any other page.
  pub Touch-cell :
      (P : ℕ → Type 0) (id k : ℕ) {s t : F}
      → ¬ P id
      → k < page_size
      → Touch f P s t
      → law.cell t (id * page_size + k) ≡ law.cell s (id * page_size + k)
  Touch-cell P id k np hk stay = refl
  Touch-cell P id k np hk (reads n off u) = law.after_read _ n off _ ∙ Touch-cell P id k np hk u
  Touch-cell P id k np hk (writes bs off w u) =
      law.after_write _ bs off _ (outside P (length bs) off id k w np hk)
      ∙ Touch-cell P id k np hk u
  Touch-cell P id k np hk (syncs u) = law.after_sync _ _ ∙ Touch-cell P id k np hk u
  Touch-cell P id k np hk (sizes u) = law.after_size _ _ ∙ Touch-cell P id k np hk u
  Touch-cell P id k np hk (closes u) = law.after_close _ _ ∙ Touch-cell P id k np hk u
