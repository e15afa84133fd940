-- ===== src/Block/Queue.antt =====
-- What `use_queue` does with the requests that the device has completed.
use corrosion.Prelude.{
  ℕ, suc, ◌+◌, ◌-◌, ◌*◌, ◌%◌, ◌^◌, ◌≤◌, ◌<◌, ◌≡◌, ◌⊎◌, inl, inr, refl, ◌∙◌, arith, true, false,
  ◌==◌, [], ◌∷◌, ◌++◌, lt→ltb,
}
use corrosion.Machine.{Memory, ok, read_le}
use corrosion.Machine.Words.{read_le-same}
use corrosion.Alloc.Bytes.{ByteGrainAllocator, page_size}
use corrosion.Alloc.Bytes.Chunks.{
  chunk, Heap, total, Spares, in_free, in_free_before, total-Chunks, total-append,
}
use corrosion.Alloc.Bytes.Malloc.{Arena}
use corrosion.Alloc.Bytes.Coalesce.{merge}
use corrosion.Alloc.Bytes.Free.{kfree-Freed}
use corrosion.Alloc.Bytes.Room.{has_room, has_room-merge}
use corrosion.Alloc.Bytes.Used.{used, used-merge, used-append}
use corrosion.Alloc.Init.{free_bytes}
use corrosion.Block.{
  BlockDevice, desc_at, used_idx_at, used_ring_at, update, use_queue_loop, use_queue,
}

-- A byte behind the chunks is in none of them.
pub in_free_behind : (p : ℕ) (cs : Heap) (q : ℕ) → p + total cs ≤ q → in_free p cs q ≡ false
in_free_behind p [] q h = refl
in_free_behind p (c ∷ cs) q h = ground (arith, in_free_behind (p + c.size) cs q)

-- The virtqueue and the allocator's arena do not overlap.
abbrev pub QueueApart : ByteGrainAllocator → ℕ → Type 0
QueueApart alloc queue =
    (queue + 5128 ≤ alloc.head) ⊎ (alloc.head + alloc.alloc * page_size ≤ queue)

-- What the device has completed is what has been acknowledged.
abbrev pub Idle : BlockDevice → Memory → Type 0
Idle self m = read_le 2 (used_idx_at self.queue) m ≡ self.ack_used_idx

pub use_queue_loop-Idle :
    (alloc : ByteGrainAllocator) (fuel : ℕ) (self : BlockDevice) (m : Memory)
    → Idle self m
    → use_queue_loop alloc (suc fuel) self m ≡ ok self m
unfolding use_queue_loop
use_queue_loop-Idle alloc fuel self m idle =
    let test : (self.ack_used_idx == self.ack_used_idx) ≡ true = ground arith in rw (idle, test)

-- When nothing has been completed, `use_queue` changes nothing.
pub use_queue-Idle :
    (alloc : ByteGrainAllocator) (self : BlockDevice) (m : Memory)
    → Idle self m
    → use_queue alloc self m ≡ ok self m
unfolding use_queue
use_queue-Idle alloc self m idle = use_queue_loop-Idle alloc (2 ^ 16 - 1) self m idle

-- The bytes of the queue are the same.
abbrev pub SameQueue : ℕ → Memory → Memory → Type 0
SameQueue queue m g = (q : ℕ) → queue ≤ q → q < queue + 5128 → g q ≡ m q

-- What only free chunks of an arena apart from the queue lose leaves the queue as it is.
pub Spares-SameQueue :
    (alloc : ByteGrainAllocator) (queue : ℕ) (cs : Heap) (m g : Memory)
    → alloc.head + total cs ≡ alloc.head + alloc.alloc * page_size
    → QueueApart alloc queue
    → Spares alloc.head cs m g
    → SameQueue queue m g
Spares-SameQueue alloc queue cs m g end apart spares q lo hi = elim apart [
  | inl below ↦ spares q (in_free_before alloc.head cs q (omega arith))
  | inr above ↦ spares q (in_free_behind alloc.head cs q (omega arith))
]

-- Where the chunks `freed` have room, `cs` have.
abbrev pub KeepsRoom : Heap → Heap → Type 0
KeepsRoom freed cs = (size : ℕ) → has_room size freed ≡ true → has_room size cs ≡ true

-- Freeing a taken chunk of an arena apart from the queue leaves the queue as it is.
pub free_bytes-SameQueue :
    (alloc : ByteGrainAllocator) (queue : ℕ) (before : Heap) (n : ℕ) (after : Heap) (m : Memory)
    → Arena alloc (before ++ chunk true n ∷ after) m
    → QueueApart alloc queue
    → (cs : Heap) × (g : Memory) × (free_bytes alloc (alloc.head + total before + 8) m ≡ ok tt g)
      × Arena alloc cs g
      × (used alloc.head cs ≡ used alloc.head before ++ used (alloc.head + total before + n) after)
      × SameQueue queue m g
      × Spares alloc.head (before ++ chunk false n ∷ after) m g
      × KeepsRoom (before ++ chunk false n ∷ after) cs
unfolding free_bytes
free_bytes-SameQueue alloc queue before n after m arena apart =
    let (g, returns, arena', spares) = kfree-Freed alloc before (chunk true n) after m arena in
    let freed = before ++ chunk false n ∷ after in
    let end : alloc.head + total freed ≡ alloc.head + alloc.alloc * page_size = omega (
      arith,
      total-Chunks m alloc.head (alloc.head + alloc.alloc * page_size)
          (before ++ chunk true n ∷ after) arena.chunks,
      total-append before (chunk true n ∷ after),
      total-append before (chunk false n ∷ after),
    ) in
    (
      merge freed,
      g,
      returns,
      arena',
      used-merge alloc.head freed ∙ used-append alloc.head before (chunk false n ∷ after),
      Spares-SameQueue alloc queue freed m g end apart spares,
      spares,
      λ size room. has_room-merge size freed room,
    )

-- The next slot of the used ring has been acknowledged, and its slot is ready.
abbrev pub acknowledged : BlockDevice → BlockDevice
acknowledged self = record self {
  ack_used_idx = (self.ack_used_idx + 1) % 2 ^ 16;
  ready = update self.ready (self.ack_used_idx % 128) true;
}

-- The device has completed one request: the next slot of the used ring names a descriptor whose
-- address is `rq`.
pub record OneCompleted (self : BlockDevice) (rq : ℕ) (m : Memory) : Type 0 where
  pub acked : self.ack_used_idx < 2 ^ 16
  pub counter : read_le 2 (used_idx_at self.queue) m ≡ (self.ack_used_idx + 1) % 2 ^ 16
  pub id_small : read_le 4 (used_ring_at self.queue (self.ack_used_idx % 128)) m < 128
  pub request :
      read_le 8
        (desc_at self.queue (read_le 4 (used_ring_at self.queue (self.ack_used_idx % 128)) m))
        m
      ≡ rq

step_loop :
    (alloc : ByteGrainAllocator) (fuel : ℕ) (self : BlockDevice) (rq : ℕ) (m g : Memory)
    → OneCompleted self rq m
    → free_bytes alloc rq m ≡ ok tt g
    → use_queue_loop alloc (suc fuel) self m ≡ use_queue_loop alloc fuel (acknowledged self) g
unfolding use_queue_loop
step_loop alloc fuel self rq m g done returns =
    let test : (self.ack_used_idx == (self.ack_used_idx + 1) % 2 ^ 16) ≡ false =
      ground (arith, done.acked) in
    let small =
      lt→ltb (read_le 4 (used_ring_at self.queue (self.ack_used_idx % 128)) m) 128 done.id_small in
    rw (done.counter, test, small, done.request, returns)

module _ (alloc : ByteGrainAllocator) (self : BlockDevice) (before : Heap) (n : ℕ) (after : Heap)
    (m : Memory) where
  -- With one request completed, whose memory is a taken chunk of a well-formed arena apart from the
  -- queue, `use_queue` returns: the slot is acknowledged and ready, exactly that chunk's block is no
  -- longer in use, the arena is well-formed, nothing is left to acknowledge, and no byte of the
  -- queue has changed, nor one outside the chunks that are free afterwards.
  pub use_queue-OneCompleted :
      Arena alloc (before ++ chunk true n ∷ after) m
      → QueueApart alloc self.queue
      → OneCompleted self (alloc.head + total before + 8) m
      → (cs : Heap) × (g : Memory) × (use_queue alloc self m ≡ ok (acknowledged self) g)
        × Arena alloc cs g
        × (used alloc.head cs
            ≡ used alloc.head before ++ used (alloc.head + total before + n) after)
        × Idle (acknowledged self) g
        × ((q : ℕ) → self.queue ≤ q → q < self.queue + 5128 → g q ≡ m q)
        × Spares alloc.head (before ++ chunk false n ∷ after) m g
        × KeepsRoom (before ++ chunk false n ∷ after) cs
  unfolding use_queue
  use_queue-OneCompleted arena apart done =
      let (cs, g, returns, arena', blocks, untouched, spares, room) =
        free_bytes-SameQueue alloc self.queue before n after m arena apart in
      let idle : Idle (acknowledged self) g =
        read_le-same 2 (used_idx_at self.queue) m g
          (λ q lo hi. untouched q (omega arith) (omega arith))
        ∙ done.counter in
      (
        cs,
        g,
        step_loop alloc (2 ^ 16 - 1) self _ m g done returns
            ∙ use_queue_loop-Idle alloc (2 ^ 16 - 2) (acknowledged self) g idle,
        arena',
        blocks,
        idle,
        untouched,
        spares,
        room,
      )
