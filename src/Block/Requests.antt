-- ===== src/Block/Requests.antt =====
-- The writes of `block_header` to a request and of `block_notify` to the available ring.
use corrosion.Prelude.{ℕ, ◌+◌, ◌%◌, ◌^◌, ◌≤◌, ◌<◌, ◌≡◌, inl, inr, ◌∙◌, arith}
use corrosion.Machine.{Memory, read_le, write_le, write8}
use corrosion.Machine.Words.{
  SameOutside, read_le-same, write_le-outside, read_le-write_le, read_le-write_le_apart, write8-ne,
  write8_self,
}
use corrosion.Block.{avail_idx_at, avail_ring_at, write_request}

-- A request for `sector`, in memory at `rq`.
pub record RequestAt (g : Memory) (rq blktype sector buffer : ℕ) : Type 0 where
  pub type_is : read_le 4 rq g ≡ blktype
  pub reserved : read_le 4 (rq + 4) g ≡ 0
  pub sector_is : read_le 8 (rq + 8) g ≡ sector
  pub content : read_le 8 (rq + 16) g ≡ buffer
  pub status : g (rq + 24) ≡ 111

module _ (rq blktype sector buffer : ℕ) (m : Memory) where
  abbrev m₁ : Memory
  m₁ = write_le 8 (rq + 8) sector m

  abbrev m₂ : Memory
  m₂ = write_le 4 rq blktype m₁

  abbrev m₃ : Memory
  m₃ = write_le 8 (rq + 16) buffer m₂

  abbrev m₄ : Memory
  m₄ = write_le 4 (rq + 4) 0 m₃

  pub write_request-outside : SameOutside rq (rq + 32) m (write_request rq blktype sector buffer m)
  write_request-outside q out =
      write8-ne (rq + 24) 111 m₄ q (ground arith)
      ∙ write_le-outside 4 (rq + 4) 0 m₃ q (ground arith)
      ∙ write_le-outside 8 (rq + 16) buffer m₂ q (ground arith)
      ∙ write_le-outside 4 rq blktype m₁ q (ground arith)
      ∙ write_le-outside 8 (rq + 8) sector m q (ground arith)

  not_status :
      (n a : ℕ) → (a + n ≤ rq + 24) → read_le n a (write8 (rq + 24) 111 m₄) ≡ read_le n a m₄
  not_status n a lo =
      read_le-same n a m₄ (write8 (rq + 24) 111 m₄)
        (λ q p r. write8-ne (rq + 24) 111 m₄ q (omega arith))

  pub write_request-RequestAt :
      blktype < 2 ^ 32
      → sector < 2 ^ 64
      → buffer < 2 ^ 64
      → RequestAt (write_request rq blktype sector buffer m) rq blktype sector buffer
  write_request-RequestAt type_fits sector_fits buffer_fits = record {
    type_is =
        not_status 4 rq (omega arith)
        ∙ read_le-write_le_apart 4 4 (rq + 4) rq 0 m₃ (inl (omega arith))
        ∙ read_le-write_le_apart 4 8 (rq + 16) rq buffer m₂ (inl (omega arith))
        ∙ read_le-write_le 4 rq blktype m₁ type_fits;
    reserved = not_status 4 (rq + 4) (omega arith) ∙ read_le-write_le 4 (rq + 4) 0 m₃ (omega arith);
    sector_is =
        not_status 8 (rq + 8) (omega arith)
        ∙ read_le-write_le_apart 8 4 (rq + 4) (rq + 8) 0 m₃ (inr (omega arith))
        ∙ read_le-write_le_apart 8 8 (rq + 16) (rq + 8) buffer m₂ (inl (omega arith))
        ∙ read_le-write_le_apart 8 4 rq (rq + 8) blktype m₁ (inr (omega arith))
        ∙ read_le-write_le 8 (rq + 8) sector m sector_fits;
    content =
        not_status 8 (rq + 16) (omega arith)
        ∙ read_le-write_le_apart 8 4 (rq + 4) (rq + 16) 0 m₃ (inr (omega arith))
        ∙ read_le-write_le 8 (rq + 16) buffer m₂ buffer_fits;
    status = write8_self (rq + 24) 111 m₄;
  }

pub RequestAt-same :
    (m g : Memory) (rq blktype sector buffer : ℕ)
    → ((q : ℕ) → rq ≤ q → q < rq + 32 → g q ≡ m q)
    → RequestAt m rq blktype sector buffer
    → RequestAt g rq blktype sector buffer
RequestAt-same m g rq blktype sector buffer same at = record {
  type_is = read_le-same 4 rq m g (λ q lo hi. same q (omega arith) (omega arith)) ∙ at.type_is;
  reserved =
      read_le-same 4 (rq + 4) m g (λ q lo hi. same q (omega arith) (omega arith)) ∙ at.reserved;
  sector_is =
      read_le-same 8 (rq + 8) m g (λ q lo hi. same q (omega arith) (omega arith)) ∙ at.sector_is;
  content =
      read_le-same 8 (rq + 16) m g (λ q lo hi. same q (omega arith) (omega arith)) ∙ at.content;
  status = same (rq + 24) (omega arith) (omega arith) ∙ at.status;
}

-- Slot `i` of the available ring holds `head`, and its counter is one on.
pub record Notified (queue : ℕ) (head : ℕ) (m g : Memory) : Type 0 where
  pub offered : read_le 2 (avail_ring_at queue (read_le 2 (avail_idx_at queue) m % 128)) g ≡ head
  pub counted : read_le 2 (avail_idx_at queue) g ≡ (read_le 2 (avail_idx_at queue) m + 1) % 2 ^ 16
  pub outside : SameOutside (queue + 2050) (queue + 2308) m g

-- The memory that `block_notify` leaves.
abbrev pub notified_memory : (queue head : ℕ) → Memory → Memory
notified_memory queue head m =
    let a = read_le 2 (avail_idx_at queue) m in
    write_le 2 (avail_idx_at queue) ((a + 1) % 2 ^ 16)
      (write_le 2 (avail_ring_at queue (a % 128)) head m)

pub notify-Notified :
    (queue head : ℕ) (m : Memory)
    → head < 2 ^ 16
    → Notified queue head m (notified_memory queue head m)
notify-Notified queue head m fits =
    let p = avail_idx_at queue in
    let a = read_le 2 p m in
    let ring = avail_ring_at queue (a % 128) in
    let m' = write_le 2 ring head m in
    record {
      offered =
          read_le-write_le_apart 2 2 p ring ((a + 1) % 2 ^ 16) m' (inr (omega arith))
          ∙ read_le-write_le 2 ring head m fits;
      counted = read_le-write_le 2 p ((a + 1) % 2 ^ 16) m' (omega arith);
      outside = λ q out.
          write_le-outside 2 p ((a + 1) % 2 ^ 16) m' q (ground arith)
          ∙ write_le-outside 2 ring head m q (ground arith);
    }
