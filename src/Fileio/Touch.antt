-- ===== src/Fileio/Touch.antt =====
-- Which pages a piece of code may have written: runs of file operations, as a step relation.
use scutedb.Base.{ℕ, ◌+◌, ◌*◌, ◌<◌, List, length}
use scutedb.Fileio.{File}

abbrev pub page_size : ℕ
page_size = 4096

-- Every page that the `n` bytes at `off` overlap satisfies `P`.
abbrev pub Within : (ℕ → Type 0) → ℕ → ℕ → Type 0
Within P off n = (id : ℕ) → id * page_size < off + n → off < (id + 1) * page_size → P id

module _ {F : Type 0} (io : File F) (P : ℕ → Type 0) where
  -- The second file is reached from the first by file operations, and every byte that these wrote
  -- lies in a page that satisfies `P`.
  pub data Touch (f : F) : F → Type 0 where
    stay : Touch f f
    reads : {g : F} (n off : ℕ) → Touch f g → Touch f (io.read_at g n off).2
    writes :
        {g : F} (bs : List ℕ) (off : ℕ)
        → Within P off (length bs)
        → Touch f g
        → Touch f (io.write_at g bs off).1
    syncs : {g : F} → Touch f g → Touch f (io.sync g).1
    sizes : {g : F} → Touch f g → Touch f (io.size g).1
    closes : {g : F} → Touch f g → Touch f (io.close g).1

module _ {F : Type 0} (io : File F) where
  pub Touch-trans : {P : ℕ → Type 0} {f g h : F} → Touch io P f g → Touch io P g h → Touch io P f h
  Touch-trans t stay = t
  Touch-trans t (reads n off u) = reads n off (Touch-trans t u)
  Touch-trans t (writes bs off w u) = writes bs off w (Touch-trans t u)
  Touch-trans t (syncs u) = syncs (Touch-trans t u)
  Touch-trans t (sizes u) = sizes (Touch-trans t u)
  Touch-trans t (closes u) = closes (Touch-trans t u)

  pub Touch-mono :
      {P Q : ℕ → Type 0} {f g : F} → ((id : ℕ) → P id → Q id) → Touch io P f g → Touch io Q f g
  Touch-mono k stay = stay
  Touch-mono k (reads n off u) = reads n off (Touch-mono k u)
  Touch-mono k (writes bs off w u) = writes bs off (λ id p q. k id (w id p q)) (Touch-mono k u)
  Touch-mono k (syncs u) = syncs (Touch-mono k u)
  Touch-mono k (sizes u) = sizes (Touch-mono k u)
  Touch-mono k (closes u) = closes (Touch-mono k u)
