-- ===== src/Block/Wait/Served.antt =====
-- `block_operation` of block.rs from its request to the end of its wait.
use corrosion.Prelude.{
  ℕ, ◌+◌, ◌*◌, ◌%◌, ◌^◌, ◌≤◌, ◌<◌, ◌≡◌, ◌≢◌, ◌⊎◌, inl, inr, refl, sym, ap, ◌∙◌, arith, Bool, true,
  false, ◌&&◌, List, ◌∷◌, ◌++◌, some,
}
use corrosion.Machine.{Memory, null, Run, ok, read_le}
use corrosion.Alloc.Bytes.{ByteGrainAllocator, page_size}
use corrosion.Alloc.Bytes.Chunks.{
  chunk, Heap, total, Spares, in_free, in_free_before, total-Chunks, total-append,
}
use corrosion.Alloc.Bytes.Malloc.{Arena, Allocated, chunk_bytes, kmalloc-Outcome, Outcome-placed}
use corrosion.Alloc.Bytes.RoundTrip.{shape, after, taken-Arena, same_blocks}
use corrosion.Alloc.Bytes.Used.{used, used-append}
use corrosion.Alloc.Bytes.Data.{holds, holds-spared, holds_beside}
use corrosion.Alloc.Bytes.Room.{has_room, has_room-free}
use corrosion.Alloc.Init.{alloc_bytes}
use corrosion.Block.{BlockDevice, avail_idx_at, used_idx_at, block_submit}
use corrosion.Block.Queue.{
  QueueApart, acknowledged, in_free_behind, Spares-SameQueue, use_queue-OneCompleted,
}
use corrosion.Machine.Words.{read_le-same}
use corrosion.Block.Submit.{Submitted, block_submit-Submitted}
use corrosion.Block.Wait.{Event, block_operation, wait, wait_for}
use corrosion.Block.Wait.Schedule.{Serves, wait-Serves}
use corrosion.Block.Wait.Device.{
  Completes, BufferAt, waiting, submitted-Arena, completed-Arena, still_used,
  completed-OneCompleted, counted_up,
}

-- The operation has returned: the request was made, in the memory `m` after its allocation, the blocks
-- in use are as they were before, all counters agree, and the buffer holds what the device wrote; no
-- other byte has changed but those of the queue and of the free chunks, where there is room again.
pub record Performed (alloc : ByteGrainAllocator) (self : BlockDevice) (buffer size offset : ℕ)
    (write : Bool) (f : Memory → Memory) (rq : ℕ) (cs : Heap) (m : Memory) (r : Run BlockDevice)
    : Type 0 where
  pub g : Memory
  pub h : Memory
  pub cs' : Heap
  pub submitted : Submitted self buffer size offset write rq m g
  pub returns : r ≡ ok (acknowledged (waiting self (self.ack_used_idx % 128))) h
  pub arena : Arena alloc cs' h
  pub blocks : used alloc.head cs' ≡ used alloc.head cs
  pub completed : read_le 2 (used_idx_at self.queue) h ≡ (self.ack_used_idx + 1) % 2 ^ 16
  pub offered : read_le 2 (avail_idx_at self.queue) h ≡ (self.ack_used_idx + 1) % 2 ^ 16
  pub answer : (q : ℕ) → buffer ≤ q → q < buffer + size → h q ≡ f g q
  pub kept :
      (q : ℕ)
      → (q < buffer) ⊎ (buffer + size ≤ q)
      → (q < self.queue) ⊎ (self.queue + 5128 ≤ q)
      → ((q < alloc.head) ⊎ (alloc.head + alloc.alloc * page_size ≤ q))
        ⊎ (holds (used alloc.head cs) q ≡ true)
      → h q ≡ m q
  pub room : has_room 40 cs' ≡ true

-- A byte outside the arena or held by a block in use is not free.
pub byte_spared :
    (alloc : ByteGrainAllocator) (cs : Heap) (q : ℕ)
    → alloc.head + total cs ≡ alloc.head + alloc.alloc * page_size
    → ((q < alloc.head) ⊎ (alloc.head + alloc.alloc * page_size ≤ q))
      ⊎ (holds (used alloc.head cs) q ≡ true)
    → in_free alloc.head cs q ≡ false
byte_spared alloc cs q end at = elim at [
  | inl (inl below) ↦ in_free_before alloc.head cs q below
  | inl (inr above) ↦ in_free_behind alloc.head cs q (omega (arith, above, end))
  | inr held ↦ holds-spared alloc.head cs q held
]

-- A wait for a slot that becomes ready.
wait_ends :
    (alloc : ByteGrainAllocator) (events : List Event) (self : BlockDevice) (buffer size offset : ℕ)
    (write : Bool) (m g h : Memory)
    → (let i = self.ack_used_idx % 128 in
        block_submit alloc self buffer size offset write m ≡ ok (waiting self i, some i) g)
    → wait alloc (self.ack_used_idx % 128) events (waiting self (self.ack_used_idx % 128)) g
      ≡ ok (acknowledged (waiting self (self.ack_used_idx % 128))) h
    → block_operation alloc events self buffer size offset write m
      ≡ ok (acknowledged (waiting self (self.ack_used_idx % 128))) h
unfolding block_operation wait_for
wait_ends alloc events self buffer size offset write m g h step waits = rw (step, waits) refl

-- Where the request's memory lies among the chunks after its allocation.
pub record RequestChunk (alloc : ByteGrainAllocator) (rq : ℕ) (bs : List (ℕ × ℕ)) (m : Memory)
    : Type 0 where
  pub before : Heap
  pub n : ℕ
  pub rest : Heap
  pub place : rq ≡ alloc.head + total before + 8
  pub enough : 40 ≤ n
  pub arena : Arena alloc (before ++ chunk true n ∷ rest) m
  pub blocks : used alloc.head before ++ used (alloc.head + total before + n) rest ≡ bs
  pub end : alloc.head + (total before + (n + total rest)) ≡ alloc.head + alloc.alloc * page_size

-- What is in use or outside the arena is no part of the request.
pub off_request :
    {alloc : ByteGrainAllocator} {rq : ℕ} (cs : Heap) {m : Memory}
    (c : RequestChunk alloc rq (used alloc.head cs) m) (q : ℕ)
    → ((q < alloc.head) ⊎ (alloc.head + alloc.alloc * page_size ≤ q))
      ⊎ (holds (used alloc.head cs) q ≡ true)
    → (q < rq) ⊎ (rq + 32 ≤ q)
off_request {alloc} {rq} cs c q at = elim at [
  | inl out ↦ ground (arith, out, c.place, c.enough, c.end)
  | inr held ↦
      let beside = holds_beside alloc.head c.before c.n c.rest q (rw c.blocks held) in
      ground (arith, beside, c.place, c.enough)
]

pub kmalloc-RequestChunk :
    (alloc : ByteGrainAllocator) (rq : ℕ) (cs : Heap) (m₀ m : Memory)
    → Arena alloc cs m₀
    → alloc_bytes alloc 32 m₀ ≡ ok rq m
    → rq ≢ null
    → RequestChunk alloc rq (used alloc.head cs) m × Spares alloc.head cs m₀ m
unfolding alloc_bytes
kmalloc-RequestChunk alloc rq cs m₀ m arena made ne =
    let limit = alloc.head + alloc.alloc * page_size in
    let r : Allocated (chunk_bytes 32) alloc.head limit cs m₀ m rq =
      Outcome-placed (kmalloc-Outcome arena 32 (omega arith)) made ne in
    let n = (shape arena r).n in
    let rest = after arena r in
    let taken = taken-Arena arena r in
    (
      record {
        before = r.before;
        n = n;
        rest = rest;
        place = r.address;
        enough = (shape arena r).enough;
        arena = taken;
        blocks = sym (used-append alloc.head r.before (chunk false n ∷ rest)) ∙ same_blocks arena r;
        end =
            sym (ap (λ t. alloc.head + t) (total-append r.before (chunk true n ∷ rest)))
            ∙ total-Chunks m alloc.head limit (r.before ++ chunk true n ∷ rest) taken.chunks;
      },
      r.spares,
    )

module _ (alloc : ByteGrainAllocator) (self : BlockDevice) (buffer size offset : ℕ) (write : Bool)
    (f : Memory → Memory) (rq : ℕ) (cs : Heap) (m₀ m g : Memory) (events : List Event)
    (c : RequestChunk alloc rq (used alloc.head cs) m) where
  -- From the submitted request on.
  after_submission :
      QueueApart alloc self.queue
      → (rq + 32 ≤ self.queue) ⊎ (self.queue + 5128 ≤ rq)
      → self.ack_used_idx < 2 ^ 16
      → read_le 2 (used_idx_at self.queue) m ≡ self.ack_used_idx
      → read_le 2 (avail_idx_at self.queue) m ≡ self.ack_used_idx
      → (buffer + size ≤ self.queue) ⊎ (self.queue + 5128 ≤ buffer)
      → BufferAt alloc (used alloc.head cs) buffer size
      → Completes self.queue buffer size rq f g
      → Serves f events
      → Submitted self buffer size offset write rq m g
      → (let i = self.ack_used_idx % 128 in
          block_submit alloc self buffer size offset write m₀ ≡ ok (waiting self i, some i) g)
      → Performed alloc self buffer size offset write f rq cs m
          (block_operation alloc events self buffer size offset write m₀)
  after_submission apart rq_apart acked used_up offered_up buffer_apart buffer_at device serves
        submitted step =
      let i = self.ack_used_idx % 128 in
      let arena₁ =
        submitted-Arena alloc c.before c.n c.rest rq c.place c.enough self buffer size offset write
          m g apart submitted c.arena in
      let buffer_at' : BufferAt alloc
          (used alloc.head c.before ++ used (alloc.head + total c.before + c.n) c.rest) buffer
          size =
        rw c.blocks buffer_at in
      let arena₂ =
        completed-Arena alloc c.before c.n c.rest rq c.place c.enough self.queue buffer size f g
          apart device buffer_at' arena₁ in
      let done =
        completed-OneCompleted submitted device rq_apart buffer_apart acked used_up offered_up i in
      let (cs', h, returns, arena', blocks, idle, same, spares, room) =
        use_queue-OneCompleted alloc (waiting self i) c.before c.n c.rest (f g) arena₂ apart
          (rw c.place at done) in
      let busy : (waiting self i).ready i ≡ false = ground arith in
      let ready : (acknowledged (waiting self i)).ready i ≡ true = ground arith in
      let waits =
        wait-Serves alloc i (waiting self i) (acknowledged (waiting self i)) g h serves busy
          (still_used submitted device rq_apart buffer_apart acked used_up offered_up) returns
          ready in
      let freed = c.before ++ chunk false c.n ∷ c.rest in
      let freed_blocks : used alloc.head freed ≡ used alloc.head cs =
        used-append alloc.head c.before (chunk false c.n ∷ c.rest) ∙ c.blocks in
      let freed_end : alloc.head + total freed ≡ alloc.head + alloc.alloc * page_size =
        ap (λ t. alloc.head + t) (total-append c.before (chunk false c.n ∷ c.rest)) ∙ c.end in
      record {
        g = g;
        h = h;
        cs' = cs';
        submitted = submitted;
        returns = wait_ends alloc events self buffer size offset write m₀ g h step waits;
        arena = arena';
        blocks = blocks ∙ c.blocks;
        completed = idle;
        offered =
            read_le-same 2 (avail_idx_at self.queue) (f g) h
              (λ q lo hi. same q (omega arith) (omega arith))
            ∙ counted_up submitted device rq_apart buffer_apart acked used_up offered_up;
        answer = λ q lo hi.
            spares q (byte_spared alloc freed q freed_end (rw freed_blocks (buffer_at q lo hi)));
        kept = λ q out off at.
            spares q (byte_spared alloc freed q freed_end (rw freed_blocks at))
            ∙ device.outside q (ground arith) out (λ e. omega (arith, e, off_request cs c q at))
            ∙ submitted.outside q (ground arith) (off_request cs c q at);
        room = room 40 (has_room-free 40 c.before c.n c.rest c.enough);
      }

module _ (alloc : ByteGrainAllocator) (self : BlockDevice) (buffer size offset : ℕ) (write : Bool)
    (f : Memory → Memory) (rq : ℕ) (cs : Heap) (m₀ m : Memory) (events : List Event) where
  -- When no request is under way, all numbers are within their widths, the arena is well-formed and
  -- apart from the queue, the request's memory has been allocated from it, and the buffer lies in
  -- blocks in use or outside the arena and is apart from the queue, then a request that is not
  -- refused returns, whenever the device completes it and an interrupt comes after that: with the
  -- slot acknowledged and ready, all counters equal again, the arena well-formed with the same
  -- blocks in use and room for a next request, in the buffer what the device has written there, and
  -- all other bytes as they were but those of the queue and of the free chunks.
  pub block_operation-Performed :
      (self.read_only && write) ≡ false
      → Arena alloc cs m₀
      → QueueApart alloc self.queue
      → alloc_bytes alloc 32 m₀ ≡ ok rq m
      → rq ≢ null
      → self.idx < 128
      → buffer < 2 ^ 64
      → size < 2 ^ 32
      → offset < 2 ^ 64
      → self.ack_used_idx < 2 ^ 16
      → read_le 2 (used_idx_at self.queue) m₀ ≡ self.ack_used_idx
      → read_le 2 (avail_idx_at self.queue) m₀ ≡ self.ack_used_idx
      → (buffer + size ≤ self.queue) ⊎ (self.queue + 5128 ≤ buffer)
      → BufferAt alloc (used alloc.head cs) buffer size
      → ((g : Memory)
          → Submitted self buffer size offset write rq m g
          → Completes self.queue buffer size rq f g)
      → Serves f events
      → Performed alloc self buffer size offset write f rq cs m
          (block_operation alloc events self buffer size offset write m₀)
  block_operation-Performed allowed arena apart made ne small buffer_fits size_fits offset_fits
        acked used_up offered_up buffer_apart buffer_at device serves =
      let (c, spares) = kmalloc-RequestChunk alloc rq cs m₀ m arena made ne in
      let same =
        Spares-SameQueue alloc self.queue cs m₀ m
          (total-Chunks m₀ alloc.head (alloc.head + alloc.alloc * page_size) cs arena.chunks) apart
          spares in
      let still : (p : ℕ)
          → self.queue ≤ p
          → p + 2 ≤ self.queue + 5128
          → read_le 2 p m ≡ read_le 2 p m₀ =
        λ p lo hi. read_le-same 2 p m₀ m (λ q lo' hi'. same q (omega arith) (omega arith)) in
      let used_up' = still (used_idx_at self.queue) (omega arith) (omega arith) ∙ used_up in
      let offered_up' = still (avail_idx_at self.queue) (omega arith) (omega arith) ∙ offered_up in
      let rq_apart : (rq + 32 ≤ self.queue) ⊎ (self.queue + 5128 ≤ rq) =
        ground (arith, c.place, c.enough, c.end) in
      let (g, step, submitted) =
        block_submit-Submitted alloc self buffer size offset write rq m₀ m allowed made rq_apart
          (omega (arith, c.place, c.enough, c.end, arena.bounded)) small buffer_fits size_fits
          offset_fits in
      after_submission alloc self buffer size offset write f rq cs m₀ m g events c apart rq_apart
        acked used_up' offered_up' buffer_apart buffer_at (device g submitted) serves submitted
        (rw offered_up' at step)
