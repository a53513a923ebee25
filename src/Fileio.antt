-- ===== src/Fileio.antt =====
-- internal/fileio/fileio.go: the interface File through which every byte of a store passes.
-- What stands behind it is the operating system, so a file is a state of any type and the
-- interface's methods are functions on it that return the next state.
pub mod Touch
pub mod Laws
pub mod Disk
pub mod Held
pub mod Mem
use scutedb.Base.{ℕ, List, Option, Result}

-- An error of the operating system, by a number.
pub record IoError : Type 0 where
  pub code : ℕ

-- `read_at f n off` asks for `n` bytes and returns those that were read, with the error, if any;
-- `write_at` returns the error alone, since no caller looks at its count.
pub record File (F : Type 0) : Type 0 where
  pub read_at : F → ℕ → ℕ → List ℕ × Option IoError × F
  pub write_at : F → List ℕ → ℕ → Option IoError × F
  pub sync : F → Option IoError × F
  pub size : F → Result IoError ℕ × F
  pub close : F → Option IoError × F
