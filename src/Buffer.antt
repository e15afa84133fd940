-- ===== src/Buffer.antt =====
-- buffer.rs: a block of the byte-grain allocator that is freed when its owner goes. The
-- prints are in the child `Print`.
pub mod Lifetime
pub mod Print
mod Tests
use corrosion.Prelude.{ℕ, ◌+◌, ◌==◌, if◌then◌else◌}
use corrosion.Machine.{Memory, null, Cmd, panic, pure, ◌>>=◌, ◌>>◌, change, write8}
use corrosion.Memory.{memcpy}
use corrosion.Alloc.Bytes.{ByteGrainAllocator}
use corrosion.Alloc.Init.{alloc_bytes, free_bytes}

pub record Buffer : Type 0 where
  pub buffer : ℕ
  pub len : ℕ

unfoldable pub new : ByteGrainAllocator → ℕ → Cmd Buffer
unfolding alloc_bytes
new alloc sz = do p ← alloc_bytes alloc sz; pure (record { buffer = p; len = sz })

-- `BLOCK_SIZE` of minixfs3.rs
abbrev pub block_size : ℕ
block_size = 1024

unfoldable pub default : ByteGrainAllocator → Cmd Buffer
unfolding new
default alloc = new alloc block_size

-- `as_ref().unwrap()` and `as_mut().unwrap()` panic on a null pointer, and on no other.
unfoldable pub index : Buffer → ℕ → Cmd ℕ
index self idx =
    if self.buffer + idx == null then (λ m. panic) else (λ m. pure (m (self.buffer + idx)) m)

-- An assignment to the element that `index_mut` borrows.
unfoldable pub index_mut : Buffer → ℕ → ℕ → Cmd (Unit {0})
index_mut self idx v =
    if self.buffer + idx == null then (λ m. panic) else change (write8 (self.buffer + idx) v)

unfoldable pub clone : ByteGrainAllocator → Buffer → Cmd Buffer
unfolding alloc_bytes memcpy
clone alloc self = do
  p ← alloc_bytes alloc self.len
  memcpy p self.buffer self.len
  pure (record { buffer = p; len = self.len })

unfoldable pub drop : ByteGrainAllocator → Buffer → Cmd Buffer
unfolding free_bytes
drop alloc self =
    if self.buffer == null
    then pure self
    else (do free_bytes alloc self.buffer; pure (record self { buffer = null }))
