-- ===== src/Minixfs3/Read/Driver.antt =====
-- A driver of a block device, as a reader of files sees it.
use corrosion.Prelude.{ℕ, Bool}
use corrosion.Machine.{Memory}

-- The bytes that are the driver's own, and the states of memory in which it serves a read.
pub record Driver : Type 1 where
  pub writes : ℕ → Bool
  pub ready : Memory → Type 0
