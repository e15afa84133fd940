-- ===== src/Block.antt =====
-- block.rs: the driver of a legacy virtio block device. The virtqueue lies in memory, shared with the
-- device; `BLOCK_DEVICE` is passed explicitly.
pub mod Setup
pub mod Descriptors
pub mod Requests
pub mod Submit
pub mod Queue
pub mod Completions
pub mod Wait
pub mod Static
mod Tests
use corrosion.Prelude.{
  ℕ, zero, suc, ◌+◌, ◌-◌, ◌*◌, ◌/◌, ◌%◌, ◌^◌, Bool, true, false, not, ◌&&◌, ◌==◌, if◌then◌else◌,
  bit_and, bit_or, ltb, Option, none, some,
}
use corrosion.Machine.{
  Memory, Cmd, panic, out_of_fuel, pure, lift, ◌>>=◌, ◌>>◌, change, read_le, write_le, write8,
}
use corrosion.Alloc.Bytes.{ByteGrainAllocator}
use corrosion.Alloc.Init.{alloc_bytes, free_bytes}

abbrev pub virtio_ring_size : ℕ
virtio_ring_size = 2 ^ 7

abbrev pub virtio_desc_flag_next : ℕ
virtio_desc_flag_next = 1

abbrev pub virtio_desc_flag_write : ℕ
virtio_desc_flag_write = 2

abbrev pub virtio_blk_type_in : ℕ
virtio_blk_type_in = 0

abbrev pub virtio_blk_type_out : ℕ
virtio_blk_type_out = 1

pub record Descriptor : Type 0 where
  pub addr : ℕ
  pub len : ℕ
  pub flags : ℕ
  pub next : ℕ

-- The fields of `Queue` and `Request`, by their offsets under `repr(C)`.
abbrev pub desc_at : ℕ → ℕ → ℕ
desc_at queue i = queue + 16 * i

abbrev pub avail_idx_at : ℕ → ℕ
avail_idx_at queue = queue + 2050

abbrev pub avail_ring_at : ℕ → ℕ → ℕ
avail_ring_at queue i = queue + 2052 + 2 * i

abbrev pub used_idx_at : ℕ → ℕ
used_idx_at queue = queue + 4098

abbrev pub used_ring_at : ℕ → ℕ → ℕ
used_ring_at queue i = queue + 4100 + 8 * i

-- `size_of::<Queue>()` and `size_of::<Request>()`
abbrev pub queue_size : ℕ
queue_size = 5128

abbrev pub request_size : ℕ
request_size = 32

pub record BlockDevice : Type 0 where
  pub queue : ℕ
  pub dev : ℕ
  pub idx : ℕ
  pub ack_used_idx : ℕ
  pub read_only : Bool
  pub ready : ℕ → Bool

abbrev pub update : (ℕ → Bool) → ℕ → Bool → ℕ → Bool
update f i b j = if j == i then b else f j

-- `u16` addition
abbrev pub add_u16 : ℕ → ℕ → Option ℕ
add_u16 a b = if ltb (a + b) (2 ^ 16) then some (a + b) else none

-- `(*self.queue).desc[i] = desc`
abbrev pub write_desc : ℕ → Descriptor → Memory → Memory
write_desc p d m =
    write_le 2 (p + 14) d.next
      (write_le 2 (p + 12) d.flags (write_le 4 (p + 8) d.len (write_le 8 p d.addr m)))

unfoldable pub fill_next_descriptor : BlockDevice → Descriptor → Cmd (BlockDevice × ℕ)
fill_next_descriptor self desc = do
  up ← lift (add_u16 self.idx 1)
  let idx = up % virtio_ring_size
  let p = desc_at self.queue idx
  change (write_desc p desc)
  flags ← (λ m. pure (read_le 2 (p + 12) m) m)
  if bit_and flags virtio_desc_flag_next == 0 then pure tt else (do
    after_next ← lift (add_u16 idx 1)
    change (write_le 2 (p + 14) (after_next % virtio_ring_size)))
  pure (record self { idx = idx }, idx)

-- The writes of `block_header` to the request.
abbrev pub write_request : ℕ → (blktype sector buffer : ℕ) → Memory → Memory
write_request rq blktype sector buffer m = write8 (rq + 24) 111 (
    write_le 4 (rq + 4) 0
      (write_le 8 (rq + 16) buffer (write_le 4 rq blktype (write_le 8 (rq + 8) sector m))))

-- `alloc` is the static of the byte-grain allocator.
unfoldable pub block_header :
    ByteGrainAllocator → BlockDevice → (buffer offset : ℕ) → Bool → Cmd (BlockDevice × ℕ × ℕ)
unfolding fill_next_descriptor
block_header alloc self buffer offset write = do
  let sector = offset / 512
  blk_request ← alloc_bytes alloc request_size
  (self', head_idx) ←
      fill_next_descriptor self
        (record { addr = blk_request; len = 16; flags = virtio_desc_flag_next; next = 0 })
  change (
      write_request blk_request (if write then virtio_blk_type_out else virtio_blk_type_in) sector
        buffer)
  pure (self', blk_request, head_idx)

unfoldable pub block_data : BlockDevice → (buffer size : ℕ) → Bool → Cmd BlockDevice
unfolding fill_next_descriptor
block_data self buffer size write = do
  (self', data_idx) ← fill_next_descriptor self (record {
    addr = buffer;
    len = size;
    flags = bit_or virtio_desc_flag_next (if not write then virtio_desc_flag_write else 0);
    next = 0;
  })
  pure self'

unfoldable pub block_status : BlockDevice → ℕ → Cmd BlockDevice
unfolding fill_next_descriptor
block_status self blk_request = do
  (self', status_idx) ←
      fill_next_descriptor self
        (record { addr = blk_request + 24; len = 1; flags = virtio_desc_flag_write; next = 0 })
  pure self'

-- The write to the notification register has no effect on the memory itself.
unfoldable pub block_notify : BlockDevice → ℕ → Cmd (BlockDevice × ℕ)
block_notify self head_idx = do
  avail_idx ← (λ m. pure (read_le 2 (avail_idx_at self.queue) m) m)
  let idx = avail_idx % virtio_ring_size
  change (write_le 2 (avail_ring_at self.queue idx) head_idx)
  change (write_le 2 (avail_idx_at self.queue) ((avail_idx + 1) % 2 ^ 16))
  pure (record self { ready = update self.ready idx false }, idx)

-- `block_operation` up to its wait: `some idx` is the slot of `ready` that it then waits for, and
-- `none` a refused write.
unfoldable pub block_submit :
    ByteGrainAllocator
    → BlockDevice
    → (buffer size offset : ℕ) → Bool
    → Cmd (BlockDevice × Option ℕ)
unfolding block_header block_data block_status block_notify
block_submit alloc self buffer size offset write =
    if self.read_only && write then pure (self, none) else (do
      (self₁, blk_request, head_idx) ← block_header alloc self buffer offset write
      self₂ ← block_data self₁ buffer size write
      self₃ ← block_status self₂ blk_request
      (self₄, idx) ← block_notify self₃ head_idx
      pure (self₄, some idx))

-- The loop of `use_queue`; `desc[elem.id]` is an indexed access, which panics out of range.
unfoldable pub use_queue_loop : ByteGrainAllocator → ℕ → BlockDevice → Cmd BlockDevice
use_queue_loop alloc zero self m = out_of_fuel
use_queue_loop alloc (suc fuel) self m =
    if self.ack_used_idx == read_le 2 (used_idx_at self.queue) m
    then pure self m
    else (do
      let idx = self.ack_used_idx % virtio_ring_size
      let id = read_le 4 (used_ring_at self.queue idx) m
      let self' = record self {
        ack_used_idx = (self.ack_used_idx + 1) % 2 ^ 16;
        ready = update self.ready idx true;
      }
      if ltb id virtio_ring_size then pure tt else (λ m. panic)
      free_bytes alloc (read_le 8 (desc_at self.queue id) m)
      use_queue_loop alloc fuel self')
        m

-- The counters wrap at 2^16, so fewer rounds than that reach the device's.
pub use_queue : ByteGrainAllocator → BlockDevice → Cmd BlockDevice
unfolding use_queue_loop
use_queue alloc self = use_queue_loop alloc (2 ^ 16) self

-- The argument `device` is the static `BLOCK_DEVICE`.
unfoldable pub interrupt_handler :
    ByteGrainAllocator → Option BlockDevice → Cmd (Option BlockDevice)
interrupt_handler alloc none = pure none
interrupt_handler alloc (some bdev) = do bdev' ← use_queue alloc bdev; pure (some bdev')

-- `read` and `write` up to their wait, as `block_submit`.
unfoldable pub submit :
    ByteGrainAllocator
    → Option BlockDevice
    → (buffer size offset : ℕ) → Bool
    → Cmd (Option BlockDevice × Option ℕ)
unfolding block_submit
submit alloc none buffer size offset write = pure (none, none)
submit alloc (some bdev) buffer size offset write = do
  (bdev', idx) ← block_submit alloc bdev buffer size offset write
  pure (some bdev', idx)

abbrev pub read :
    ByteGrainAllocator
    → Option BlockDevice
    → (buffer size offset : ℕ) → Cmd (Option BlockDevice × Option ℕ)
read alloc device buffer size offset = submit alloc device buffer size offset false

abbrev pub write :
    ByteGrainAllocator
    → Option BlockDevice
    → (buffer size offset : ℕ) → Cmd (Option BlockDevice × Option ℕ)
write alloc device buffer size offset = submit alloc device buffer size offset true
