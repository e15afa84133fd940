-- ===== src/Block/Wait.antt =====
-- `block_operation` of block.rs with the loop in which it waits. What the device and its interrupt do
-- meanwhile is a list of events.
pub mod Schedule
pub mod Device
pub mod Served
mod Tests
use corrosion.Prelude.{ℕ, Bool, true, false, if◌then◌else◌, Option, none, some, List, [], ◌∷◌}
use corrosion.Machine.{Memory, Cmd, out_of_fuel, pure, ◌>>=◌, ◌>>◌, change}
use corrosion.Alloc.Bytes.{ByteGrainAllocator}
use corrosion.Block.{BlockDevice, block_submit, use_queue}

-- What happens between two tests of the slot: nothing, a write of the device to memory, or an
-- interrupt, whose handler is `use_queue`.
pub data Event : Type 0 where
  no_operation : Event
  device_writes : (Memory → Memory) → Event
  interrupted : Event

unfoldable pub happens : ByteGrainAllocator → Event → BlockDevice → Cmd BlockDevice
happens alloc no_operation self = pure self
happens alloc (device_writes f) self = do change f; pure self
happens alloc interrupted self = use_queue alloc self

-- The loop of `block_operation`, which goes on as long as the slot is not ready.
unfoldable pub wait : ByteGrainAllocator → ℕ → List Event → BlockDevice → Cmd BlockDevice
unfolding happens
wait alloc idx [] self = if self.ready idx then pure self else (λ m. out_of_fuel)
wait alloc idx (e ∷ es) self =
    if self.ready idx then pure self else (do self' ← happens alloc e self; wait alloc idx es self')

unfoldable pub wait_for : ByteGrainAllocator → List Event → BlockDevice × Option ℕ → Cmd BlockDevice
unfolding wait
wait_for alloc events (self, none) = pure self
wait_for alloc events (self, some idx) = wait alloc idx events self

unfoldable pub block_operation :
    ByteGrainAllocator
    → List Event
    → BlockDevice
    → (buffer size offset : ℕ) → Bool
    → Cmd BlockDevice
unfolding block_submit wait_for
block_operation alloc events self buffer size offset write = do
  submitted ← block_submit alloc self buffer size offset write
  wait_for alloc events submitted
