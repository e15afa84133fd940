-- ===== src/Block/Wait/Device.antt =====
-- What the device that serves a request does to the memory it shares with block.rs.
use corrosion.Prelude.{
  ℕ, ◌+◌, ◌*◌, ◌%◌, ◌^◌, ◌≤◌, ◌<◌, ◌≡◌, ◌≢◌, ◌⊎◌, inl, inr, refl, sym, ap, ◌∙◌, arith, Bool, true,
  false, List, ◌∷◌, ◌++◌, Bool-cases, ltb, leb, ◌&&◌,
}
use corrosion.Machine.{Memory, read_le}
use corrosion.Machine.Words.{read_le-same}
use corrosion.Alloc.Bytes.{ByteGrainAllocator, page_size}
use corrosion.Alloc.Bytes.Chunks.{chunk, Heap, total}
use corrosion.Alloc.Bytes.Malloc.{Arena}
use corrosion.Alloc.Bytes.Used.{used, used-append}
use corrosion.Alloc.Bytes.Data.{holds, holds_more, holds_new, Chunks-data}
use corrosion.Block.{
  BlockDevice, update, desc_at, avail_idx_at, avail_ring_at, used_idx_at, used_ring_at,
}
use corrosion.Block.Descriptors.{after}
use corrosion.Block.Queue.{QueueApart, OneCompleted}
use corrosion.Block.Submit.{Submitted}

-- From the memory `g` on, the device serves the chain that the slot of the available ring at its
-- counter names: the slot of the used ring gets the chain's head and the counter goes one on. Other
-- than the used ring it writes to the buffer and to the status byte alone.
pub record Completes (queue buffer size rq : ℕ) (f : Memory → Memory) (g : Memory) : Type 0 where
  pub counted : read_le 2 (used_idx_at queue) (f g) ≡ (read_le 2 (used_idx_at queue) g + 1) % 2 ^ 16
  pub named :
      (i : ℕ)
      → read_le 2 (used_idx_at queue) g % 128 ≡ i
      → read_le 2 (avail_ring_at queue i) g < 128
      → read_le 4 (used_ring_at queue i) (f g) ≡ read_le 2 (avail_ring_at queue i) g
  pub outside :
      (q : ℕ)
      → (q < queue + 4096) ⊎ (queue + 5128 ≤ q)
      → (q < buffer) ⊎ (buffer + size ≤ q)
      → q ≢ rq + 24
      → f g q ≡ g q

-- The buffer lies behind the headers of blocks in use, or outside the arena.
abbrev pub BufferAt : ByteGrainAllocator → List (ℕ × ℕ) → (buffer size : ℕ) → Type 0
BufferAt alloc bs buffer size =
    (q : ℕ)
    → buffer ≤ q
    → q < buffer + size
    → ((q < alloc.head) ⊎ (alloc.head + alloc.alloc * page_size ≤ q)) ⊎ (holds bs q ≡ true)

pub Arena-data :
    (a : ByteGrainAllocator) (cs : Heap) (m g : Memory)
    → ((q : ℕ)
        → a.head ≤ q
        → q < a.head + a.alloc * page_size
        → holds (used a.head cs) q ≡ false
        → g q ≡ m q)
    → Arena a cs m
    → Arena a cs g
Arena-data a cs m g same arena = record {
  chunks = Chunks-data m g a.head (a.head + a.alloc * page_size) cs same arena.chunks;
  bounded = arena.bounded;
}

-- A request in the taken chunk `n` behind `before`.
module _ (alloc : ByteGrainAllocator) (before : Heap) (n : ℕ) (rest : Heap) (rq : ℕ)
    (place : rq ≡ alloc.head + total before + 8) (enough : 40 ≤ n) where
  abbrev here : ℕ
  here = alloc.head + total before

  abbrev with_request : Heap
  with_request = before ++ chunk true n ∷ rest

  pub request_held : (q : ℕ) → rq ≤ q → q < rq + 32 → holds (used alloc.head with_request) q ≡ true
  request_held q lo hi = rw (used-append alloc.head before (chunk true n ∷ rest)) (
      holds_new (used alloc.head before) (used (here + n) rest) here n q (omega (arith, place))
        (omega (arith, place, enough)))

  pub block_held :
      (q : ℕ)
      → holds (used alloc.head before ++ used (here + n) rest) q ≡ true
      → holds (used alloc.head with_request) q ≡ true
  block_held q held =
      rw (used-append alloc.head before (chunk true n ∷ rest))
        (holds_more (used alloc.head before) (used (here + n) rest) here n q held)

  -- A byte that is not held is not in the request.
  not_request : (q : ℕ) → holds (used alloc.head with_request) q ≡ false → (q < rq) ⊎ (rq + 32 ≤ q)
  not_request q out = ground (arith, request_held q, out)

  pub submitted-Arena :
      (self : BlockDevice) (buffer size offset : ℕ) (write : Bool) (m g : Memory)
      → QueueApart alloc self.queue
      → Submitted self buffer size offset write rq m g
      → Arena alloc with_request m
      → Arena alloc with_request g
  submitted-Arena self buffer size offset write m g apart submitted =
      Arena-data alloc with_request m g
        (λ q lo hi out. submitted.outside q (ground arith) (not_request q out))

  -- What the device writes is no header of the arena.
  pub completed-Arena :
      (queue buffer size : ℕ) (f : Memory → Memory) (g : Memory)
      → QueueApart alloc queue
      → Completes queue buffer size rq f g
      → BufferAt alloc (used alloc.head before ++ used (here + n) rest) buffer size
      → Arena alloc with_request g
      → Arena alloc with_request (f g)
  completed-Arena queue buffer size f g apart device buffer_at =
      Arena-data alloc with_request g (f g) (λ q lo hi out.
        device.outside q (ground arith)
          (elim (Bool-cases (leb buffer q && ltb q (buffer + size))) [
            | inl inside ↦ elim (buffer_at q (ground (arith, inside)) (ground (arith, inside))) [
              | inl elsewhere ↦ absurd (omega (arith, lo, hi, elsewhere))
              | inr held ↦ absurd (ground (arith, block_held q held, out))
            ]
            | inr not_inside ↦ ground (arith, not_inside)
          ])
          (λ e. ground (arith, not_request q out)))

-- The device after `block_submit`, when it waits for slot `i`.
abbrev pub waiting : BlockDevice → ℕ → BlockDevice
waiting self i = record self {
  idx = after (after (after self.idx));
  ready = update self.ready i false;
}

module _ {self : BlockDevice} {buffer size offset : ℕ} {write : Bool} {rq : ℕ} {m g : Memory}
    {f : Memory → Memory} (submitted : Submitted self buffer size offset write rq m g)
    (device : Completes self.queue buffer size rq f g)
    (apart : (rq + 32 ≤ self.queue) ⊎ (self.queue + 5128 ≤ rq))
    (buffer_apart : (buffer + size ≤ self.queue) ⊎ (self.queue + 5128 ≤ buffer))
    (acked : self.ack_used_idx < 2 ^ 16)
    (used_up : read_le 2 (used_idx_at self.queue) m ≡ self.ack_used_idx)
    (offered_up : read_le 2 (avail_idx_at self.queue) m ≡ self.ack_used_idx) where
  abbrev slot : ℕ
  slot = self.ack_used_idx % 128

  pub still_used : read_le 2 (used_idx_at self.queue) g ≡ self.ack_used_idx
  still_used =
      read_le-same 2 (used_idx_at self.queue) m g
        (λ q lo hi. submitted.outside q (inr (omega arith)) (ground arith))
      ∙ used_up

  head_offered : read_le 2 (avail_ring_at self.queue slot) g ≡ after self.idx
  head_offered = rw (sym offered_up) submitted.offered

  id_named : read_le 4 (used_ring_at self.queue slot) (f g) ≡ after self.idx
  id_named =
      device.named slot (ap (λ u. u % 128) still_used) (omega (arith, head_offered)) ∙ head_offered

  untouched : (q : ℕ) → self.queue ≤ q → q < self.queue + 4096 → f g q ≡ g q
  untouched q lo hi = device.outside q (inl hi) (ground arith) (λ e. ground (arith, e))

  pub completed-OneCompleted : (i : ℕ) → OneCompleted (waiting self i) rq (f g)
  completed-OneCompleted i = record {
    acked = acked;
    counter = device.counted ∙ rw still_used refl;
    id_small = omega (arith, id_named);
    request = rw id_named (
        read_le-same 8 (desc_at self.queue (after self.idx)) g (f g)
          (λ q lo hi. untouched q (omega arith) (omega arith))
        ∙ submitted.header.addr);
  }

  pub counted_up : read_le 2 (avail_idx_at self.queue) (f g) ≡ (self.ack_used_idx + 1) % 2 ^ 16
  counted_up =
      read_le-same 2 (avail_idx_at self.queue) g (f g)
        (λ q lo hi. untouched q (omega arith) (omega arith))
      ∙ submitted.counted
      ∙ rw offered_up refl
