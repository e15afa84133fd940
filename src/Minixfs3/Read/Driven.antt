-- ===== src/Minixfs3/Read/Driven.antt =====
-- `block::read` of block.rs as the driver below the reader of files.
use corrosion.Prelude.{
  ℕ, ◌+◌, ◌*◌, ◌/◌, ◌%◌, ◌^◌, ◌≤◌, ◌<◌, ◌≡◌, ◌⊎◌, inl, inr, refl, sym, ap, ◌∙◌, arith, Bool, false,
  List, lt-or-le, some,
}
use corrosion.Machine.{Memory, ok, read_le}
use corrosion.Machine.Words.{read_le-same}
use corrosion.Alloc.Bytes.{ByteGrainAllocator}
use corrosion.Alloc.Bytes.Chunks.{Spares, total-Chunks}
use corrosion.Alloc.Bytes.Used.{used}
use corrosion.Alloc.Bytes.Room.{kmalloc-found}
use corrosion.Alloc.Init.{alloc_bytes}
use corrosion.Block.{BlockDevice, avail_idx_at, used_idx_at}
use corrosion.Block.Queue.{acknowledged, Spares-SameQueue}
use corrosion.Block.Submit.{Submitted}
use corrosion.Block.Static.{load, store, read, read_static, store-outside}
use corrosion.Block.Wait.{Event, block_operation}
use corrosion.Block.Wait.Schedule.{Serves}
use corrosion.Block.Wait.Device.{Completes, waiting}
use corrosion.Block.Wait.Served.{
  block_operation-Performed, byte_spared, RequestChunk, kmalloc-RequestChunk, off_request,
}
use corrosion.Minixfs3.Read.Data.{Reads}
use corrosion.Minixfs3.{Inode}
use corrosion.Minixfs3.Read.{ReadState, read_zones}
use corrosion.Minixfs3.Read.Chain.{file_zones, Linked, scratch, Separate}
use corrosion.Minixfs3.Read.Walk.{length}
use corrosion.Minixfs3.Read.Reading.{Reading}
use corrosion.Minixfs3.Read.Serve.{Served}
use corrosion.Minixfs3.Read.Whole.{read_zones-Served}
use corrosion.Minixfs3.Read.Ready.{
  driver_writes, DriverReady, block_driver, Placed, limit, not_own, not_free, driver-stays,
  served-DriverReady,
}

-- What a device does with the disk's bytes: from the memory `g` on, where one request to read a block
-- is offered that it has not served, it serves the request, and the buffer gets the block's bytes.
pub record DeviceReads (disk : ℕ → ℕ) (queue : ℕ) (f : Memory → Memory) : Type 0 where
  pub bytes : (i : ℕ) → disk i < 256
  pub serves :
      (self : BlockDevice) (buffer offset rq : ℕ) (m g : Memory)
      → self.queue ≡ queue
      → self.idx < 128
      → read_le 2 (used_idx_at queue) m ≡ read_le 2 (avail_idx_at queue) m
      → (buffer + 1024 ≤ queue) ⊎ (queue + 5128 ≤ buffer)
      → (rq + 32 ≤ queue) ⊎ (queue + 5128 ≤ rq)
      → (buffer + 1024 ≤ rq) ⊎ (rq + 32 ≤ buffer)
      → Submitted self buffer 1024 offset false rq m g
      → Completes queue buffer 1024 rq f g
        × ((i : ℕ) → i < 1024 → f g (buffer + i) ≡ disk (offset / 512 * 512 + i))

-- Intervals without a common byte are one before the other.
intervals_apart :
    (b n c k : ℕ)
    → 0 < n
    → 0 < k
    → ((q : ℕ) → b ≤ q → q < b + n → (q < c) ⊎ (c + k ≤ q))
    → (b + n ≤ c) ⊎ (c + k ≤ b)
intervals_apart b n c k some_n some_k out = elim (lt-or-le b c) [
  | inl before ↦ elim (lt-or-le c (b + n)) [
    | inl meets ↦ absurd (ground (arith, out c (omega (arith, before)) meets))
    | inr clear ↦ inl clear
  ]
  | inr from ↦ elim (out b (omega arith) (omega arith)) [
    | inl lt ↦ absurd (omega (arith, lt, from))
    | inr clear ↦ inr clear
  ]
]

module _ (alloc : ByteGrainAllocator) (base : BlockDevice) (at : ℕ) (bs : List (ℕ × ℕ))
    (events : List Event) (f : Memory → Memory) (disk : ℕ → ℕ) (placed : Placed alloc base at bs)
    (device : DeviceReads disk base.queue f) (serves : Serves f events) where
  abbrev own : ℕ → Bool
  own = driver_writes alloc base at bs

  abbrev ReadyAt : Memory → Type 0
  ReadyAt = DriverReady alloc base at bs

  static-step :
      (buffer offset : ℕ) (m h : Memory)
      → block_operation alloc events (load base at m) buffer 1024 offset false m
        ≡ ok (acknowledged (waiting (load base at m) (read_le 2 (at + 2) m % 128))) h
      → read_static alloc events base at buffer 1024 offset m
        ≡ ok tt (store at (acknowledged (waiting (load base at m) (read_le 2 (at + 2) m % 128))) h)
  unfolding read_static
  static-step buffer offset m h step = rw step refl

  module _ (buffer offset : ℕ) (m₀ : Memory) (r : ReadyAt m₀)
      (clear : (q : ℕ) → buffer ≤ q → q < buffer + 1024 → own q ≡ false) where
    abbrev self : BlockDevice
    self = load base at m₀

    queue_apart : (buffer + 1024 ≤ base.queue) ⊎ (base.queue + 5128 ≤ buffer)
    queue_apart =
        intervals_apart buffer 1024 base.queue 5128 (omega arith) (omega arith)
          (λ q lo hi. (not_own alloc base at bs q (clear q lo hi)).queue)

    -- The device serves the submitted request.
    request_read :
        (rq : ℕ) (m : Memory)
        → RequestChunk alloc rq (used alloc.head r.cs) m
        → Spares alloc.head r.cs m₀ m
        → (g : Memory) → Submitted self buffer 1024 offset false rq m g
        → Completes base.queue buffer 1024 rq f g
          × ((i : ℕ) → i < 1024 → f g (buffer + i) ≡ disk (offset / 512 * 512 + i))
    request_read rq m c spares g =
        let end = total-Chunks m₀ alloc.head (limit alloc base at bs) r.cs r.arena.chunks in
        let same = Spares-SameQueue alloc base.queue r.cs m₀ m end placed.queue_arena spares in
        let still : (a : ℕ)
            → base.queue ≤ a
            → a + 2 ≤ base.queue + 5128
            → read_le 2 a m ≡ read_le 2 a m₀ =
          λ a lo hi. read_le-same 2 a m₀ m (λ q l h. same q (omega arith) (omega arith)) in
        device.serves self buffer offset rq m g refl r.small
          (still (used_idx_at base.queue) (omega arith) (omega arith)
            ∙ r.used_up
            ∙ sym r.offered_up
            ∙ sym (still (avail_idx_at base.queue) (omega arith) (omega arith)))
          queue_apart (ground (arith, c.place, c.enough, c.end, placed.queue_arena))
          (intervals_apart buffer 1024 rq 32 (omega arith) (omega arith)
            (λ q lo hi. off_request r.cs c q (not_free alloc base at bs r q (clear q lo hi))))

    read_static-returns :
        offset % 512 ≡ 0
        → offset < 2 ^ 32
        → (g : Memory) × (read_static alloc events base at buffer 1024 offset m₀ ≡ ok tt g)
          × ReadyAt g
          × ((i : ℕ) → i < 1024 → g (buffer + i) ≡ disk (offset + i))
          × ((q : ℕ) → (q < buffer) ⊎ (buffer + 1024 ≤ q) → own q ≡ false → g q ≡ m₀ q)
    unfolding alloc_bytes
    read_static-returns aligned on_disk =
        let (rq, m, made, ne) = kmalloc-found 32 r.arena (omega arith) r.room in
        let (c, spares) = kmalloc-RequestChunk alloc rq r.cs m₀ m r.arena made ne in
        let end = total-Chunks m₀ alloc.head (limit alloc base at bs) r.cs r.arena.chunks in
        let lies = not_free alloc base at bs r in
        let clear_of = not_own alloc base at bs in
        let spared : (q : ℕ) → own q ≡ false → m q ≡ m₀ q =
          λ q out. spares q (byte_spared alloc r.cs q end (lies q out)) in
        let law = request_read rq m c spares in
        let p =
          block_operation-Performed alloc self buffer 1024 offset false f rq r.cs m₀ m events
            (ground arith) r.arena placed.queue_arena made ne r.small
            (clear_of buffer (clear buffer (omega arith) (omega arith))).fits (omega arith)
            (omega arith) r.acked r.used_up r.offered_up queue_apart
            (λ q lo hi. lies q (clear q lo hi)) (λ g submitted. (law g submitted).0) serves in
        let whole : offset / 512 * 512 ≡ offset = omega (arith, aligned) in
        let arrived : (i : ℕ) → i < 1024 → f p.g (buffer + i) ≡ disk (offset + i) =
          λ i lt. (law p.g p.submitted).1 i lt ∙ ap (λ o. disk (o + i)) whole in
        let outside =
          store-outside at (acknowledged (waiting self (self.ack_used_idx % 128))) p.h in
        (
          store at (acknowledged (waiting self (self.ack_used_idx % 128))) p.h,
          static-step buffer offset m₀ p.h p.returns,
          served-DriverReady alloc base at bs placed buffer offset disk f rq m₀ m r _ device.bytes
              spared p arrived,
          λ i lt.
              outside (buffer + i)
                (clear_of (buffer + i) (clear (buffer + i) (omega arith) (omega arith))).static
              ∙ p.answer (buffer + i) (omega arith) (omega arith)
              ∙ arrived i lt,
          λ q off out.
              outside q (clear_of q out).static
              ∙ p.kept q off (clear_of q out).queue (lies q out)
              ∙ spared q out,
        )

  -- While a device serves each request and interrupts after that, `block::read` is a driver for
  -- the reader of files.
  pub read_static-Reads :
      Reads disk (block_driver alloc base at bs) (read_static alloc events base at)
  read_static-Reads = record {
    is_bytes = λ m r. r.bytes;
    stays = driver-stays alloc base at bs placed;
    reads = λ buffer offset m r aligned on_disk clear.
        read_static-returns buffer offset m r clear aligned on_disk;
  }

  -- While the device serves each request of `block::read` with the disk's bytes and interrupts after
  -- that, and the arena, the queue and the static variable of the driver do not overlap: from a memory
  -- of bytes outside the driver's, in which no request is under way and the arena has room for
  -- one, from a read at its start, with the four buffers apart from each other, from the reader's
  -- buffer and, as this, in blocks in use or outside the driver's memory, and with the blocks of
  -- zone numbers on the disk: a read of some whole words at an offset of whole words, that lies
  -- within the zones that are present in the file, direct or behind one, two or three blocks of zone
  -- numbers, returns the number of bytes asked for. The reader's buffer then holds the file's bytes
  -- from that offset on, the driver is ready for a next request with the same blocks in use, and no
  -- other byte has changed but those of the four buffers and of the driver.
  pub read_zones-ServedByDevice :
      (buffer total : ℕ) (rs₀ : ReadState) (inode : Inode) (m : Memory)
      → Separate (block_driver alloc base at bs) buffer total rs₀
      → Linked disk inode
      → Reading (block_driver alloc base at bs) buffer (file_zones disk inode) rs₀ m
      → rs₀.blocks_seen ≡ 0
      → rs₀.bytes_read + rs₀.bytes_left ≡ total
      → rs₀.offset_block * 1024 + rs₀.offset_byte + rs₀.bytes_left
        ≤ 1024 * length (file_zones disk inode)
      → Served disk
          (block_driver alloc base at bs)
          (scratch rs₀)
          buffer
          total
          rs₀
          (file_zones disk inode)
          (rs₀.offset_block * 1024 + rs₀.offset_byte)
          rs₀.bytes_left
          rs₀
          m
          (read_zones (read alloc events (some base) at) inode buffer rs₀ m)
  read_zones-ServedByDevice buffer total rs₀ inode m separate linked =
      read_zones-Served disk (block_driver alloc base at bs) buffer total rs₀
        (read_static alloc events base at) read_static-Reads separate inode m linked
