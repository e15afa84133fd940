-- ===== src/Block/Submit.antt =====
-- What `block_operation` has handed to the device when it begins to wait.
use corrosion.Prelude.{
  ℕ, ◌+◌, ◌/◌, ◌%◌, ◌^◌, ◌≤◌, ◌<◌, ◌≡◌, ◌≢◌, ◌⊎◌, inl, inr, refl, sym, ◌∙◌, arith, Bool, true,
  false, not, ◌&&◌, if◌then◌else◌, bit_or, some,
}
use corrosion.Machine.{Memory, ok, read_le}
use corrosion.Machine.Words.{SameOutside, read_le-same}
use corrosion.Alloc.Bytes.{ByteGrainAllocator}
use corrosion.Alloc.Init.{alloc_bytes}
use corrosion.Block.{
  BlockDevice, Descriptor, desc_at, avail_idx_at, avail_ring_at, update, write_request,
  block_header, block_data, block_status, block_notify, block_submit,
}
use corrosion.Block.Requests.{
  RequestAt, RequestAt-same, write_request-outside, write_request-RequestAt, Notified,
  notified_memory, notify-Notified,
}
use corrosion.Block.Descriptors.{DescAt, DescAt-same, after, linked, fill_next_descriptor-Filled}

-- The descriptors of a request in the slots after the last one.
abbrev pub header_desc : ℕ → Descriptor
header_desc rq = record { addr = rq; len = 16; flags = 1; next = 0 }

abbrev pub data_desc : (buffer size : ℕ) → Bool → Descriptor
data_desc buffer size write = record {
  addr = buffer;
  len = size;
  flags = if write then 1 else 3;
  next = 0;
}

abbrev pub status_desc : ℕ → Descriptor
status_desc rq = record { addr = rq + 24; len = 1; flags = 2; next = 0 }

-- The request at `rq` is chained header, data, status, in the three slots after the last, and the
-- chain's head is offered in the available ring; `m` is the memory after the allocation.
pub record Submitted (self : BlockDevice) (buffer size offset : ℕ) (write : Bool) (rq : ℕ)
    (m g : Memory) : Type 0 where
  pub header :
      DescAt g (desc_at self.queue (after self.idx)) (linked (after self.idx) (header_desc rq))
  pub content :
      DescAt g
        (desc_at self.queue (after (after self.idx)))
        (linked (after (after self.idx)) (data_desc buffer size write))
  pub status : DescAt g (desc_at self.queue (after (after (after self.idx)))) (status_desc rq)
  pub request : RequestAt g rq (if write then 1 else 0) (offset / 512) buffer
  pub offered :
      read_le 2 (avail_ring_at self.queue (read_le 2 (avail_idx_at self.queue) m % 128)) g
      ≡ after self.idx
  pub counted :
      read_le 2 (avail_idx_at self.queue) g ≡ (read_le 2 (avail_idx_at self.queue) m + 1) % 2 ^ 16
  pub outside :
      (q : ℕ) → (q < self.queue) ⊎ (self.queue + 2308 ≤ q) → (q < rq) ⊎ (rq + 32 ≤ q) → g q ≡ m q

data_flags : (write : Bool) → bit_or 1 (if not write then 2 else 0) ≡ (if write then 1 else 3)
data_flags true = refl
data_flags false = refl

module _ (self : BlockDevice) (buffer size offset : ℕ) (write : Bool) (rq : ℕ)
    (m m₁ m₂ m₃ m₄ g : Memory) where
  abbrev h : ℕ
  h = after self.idx

  abbrev d : ℕ
  d = after h

  abbrev s : ℕ
  s = after d

  abbrev slot : ℕ → ℕ
  slot i = desc_at self.queue i

  same_avail :
      (rq + 32 ≤ self.queue) ⊎ (self.queue + 5128 ≤ rq)
      → SameOutside (slot h) (slot h + 16) m m₁
      → SameOutside rq (rq + 32) m₁ m₂
      → SameOutside (slot d) (slot d + 16) m₂ m₃
      → SameOutside (slot s) (slot s + 16) m₃ m₄
      → read_le 2 (avail_idx_at self.queue) m₄ ≡ read_le 2 (avail_idx_at self.queue) m
  same_avail apart out₁ out₂ out₃ out₄ = read_le-same 2 (avail_idx_at self.queue) m m₄ (λ q lo hi.
      out₄ q (inr (omega arith))
      ∙ out₃ q (inr (omega arith))
      ∙ out₂ q (ground arith)
      ∙ out₁ q (inr (omega arith)))

  -- The steps of a submission, one after the other, make the chain.
  steps-Submitted :
      (rq + 32 ≤ self.queue) ⊎ (self.queue + 5128 ≤ rq)
      → DescAt m₁ (slot h) (linked h (header_desc rq))
      → SameOutside (slot h) (slot h + 16) m m₁
      → RequestAt m₂ rq (if write then 1 else 0) (offset / 512) buffer
      → SameOutside rq (rq + 32) m₁ m₂
      → DescAt m₃ (slot d) (linked d (data_desc buffer size write))
      → SameOutside (slot d) (slot d + 16) m₂ m₃
      → DescAt m₄ (slot s) (linked s (status_desc rq))
      → SameOutside (slot s) (slot s + 16) m₃ m₄
      → Notified self.queue h m₄ g
      → Submitted self buffer size offset write rq m g
  steps-Submitted apart at₁ out₁ at₂ out₂ at₃ out₃ at₄ out₄ notified =
      let h≢d : h ≢ d = λ same. omega arith in
      let d≢s : d ≢ s = λ same. omega arith in
      let h≢s : h ≢ s = λ same. omega arith in
      let h<128 : h < 128 = omega arith in
      let d<128 : d < 128 = omega arith in
      let s<128 : s < 128 = omega arith in
      let avail = same_avail apart out₁ out₂ out₃ out₄ in
      record {
        header =
            DescAt-same m₁ g (slot h) (linked h (header_desc rq))
              (λ q lo hi.
                notified.outside q (inl (omega arith))
                ∙ out₄ q (ground arith)
                ∙ out₃ q (ground arith)
                ∙ out₂ q (ground arith))
              at₁;
        content =
            DescAt-same m₃ g (slot d) (linked d (data_desc buffer size write))
              (λ q lo hi. notified.outside q (inl (omega arith)) ∙ out₄ q (ground arith)) at₃;
        status =
            DescAt-same m₄ g (slot s) (status_desc rq)
              (λ q lo hi. notified.outside q (inl (omega arith))) at₄;
        request =
            RequestAt-same m₂ g rq (if write then 1 else 0) (offset / 512) buffer
              (λ q lo hi.
                notified.outside q (ground arith) ∙ out₄ q (ground arith) ∙ out₃ q (ground arith))
              at₂;
        offered = rw (sym avail) notified.offered;
        counted = rw (sym avail) notified.counted;
        outside = λ q out out'.
            notified.outside q (ground arith)
            ∙ out₄ q (ground arith)
            ∙ out₃ q (ground arith)
            ∙ out₂ q out'
            ∙ out₁ q (ground arith);
      }

module _ (alloc : ByteGrainAllocator) (self : BlockDevice) (buffer size offset : ℕ) (write : Bool)
    (rq : ℕ) (m₀ m : Memory) where
  -- When the request has been allocated, outside the queue, a request that is not refused returns the
  -- slot to wait for: three descriptors are chained from the slot after the last, header, data and
  -- status, the chain's head is offered in the available ring, whose counter is one on, the request
  -- holds its type, sector and buffer, the slot is not ready, and no byte outside the queue and
  -- the request changes.
  pub block_submit-Submitted :
      (self.read_only && write) ≡ false
      → alloc_bytes alloc 32 m₀ ≡ ok rq m
      → (rq + 32 ≤ self.queue) ⊎ (self.queue + 5128 ≤ rq)
      → rq + 32 ≤ 2 ^ 64
      → self.idx < 128
      → buffer < 2 ^ 64
      → size < 2 ^ 32
      → offset < 2 ^ 64
      → let i = read_le 2 (avail_idx_at self.queue) m % 128 in
        (g : Memory) × (block_submit alloc self buffer size offset write m₀
          ≡ ok
              (
                record self {
                  idx = after (after (after self.idx));
                  ready = update self.ready i false;
                },
                some i,
              )
              g)
        × Submitted self buffer size offset write rq m g
  unfolding block_submit block_header block_data block_status block_notify
  block_submit-Submitted allowed allocated apart placed small buffer_fits size_fits offset_fits =
      let h = after self.idx in
      let d = after h in
      let s = after d in
      let blktype : ℕ = if write then 1 else 0 in
      let (m₁, step₁, at₁, out₁) =
        fill_next_descriptor-Filled self (header_desc rq) m small (record {
          addr = omega arith;
          len = omega arith;
          flags = omega arith;
          next = omega arith;
        }) in
      let m₂ = write_request rq blktype (offset / 512) buffer m₁ in
      let out₂ = write_request-outside rq blktype (offset / 512) buffer m₁ in
      let (m₃, step₃, at₃, out₃) =
        fill_next_descriptor-Filled (record self { idx = h }) (data_desc buffer size write) m₂
          (omega arith)
          (record {
            addr = buffer_fits;
            len = size_fits;
            flags = ground arith;
            next = omega arith;
          }) in
      let (m₄, step₄, at₄, out₄) =
        fill_next_descriptor-Filled (record self { idx = d }) (status_desc rq) m₃ (omega arith)
          (record {
            addr = omega arith;
            len = omega arith;
            flags = omega arith;
            next = omega arith;
          }) in
      let g = notified_memory self.queue h m₄ in
      let notified = notify-Notified self.queue h m₄ (omega arith) in
      let avail =
        same_avail self buffer size offset write rq m m₁ m₂ m₃ m₄ g apart out₁ out₂ out₃ out₄ in
      (
        g,
        rw (allowed, allocated, step₁, data_flags write, step₃, step₄, avail),
        steps-Submitted self buffer size offset write rq m m₁ m₂ m₃ m₄ g apart at₁ out₁
            (write_request-RequestAt rq blktype (offset / 512) buffer m₁ (ground arith)
              (omega arith) buffer_fits)
            out₂ at₃ out₃ at₄ out₄ notified,
      )
