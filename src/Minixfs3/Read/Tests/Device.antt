-- ===== src/Minixfs3/Read/Tests/Device.antt =====
-- A device that reads the chain of descriptors from memory and serves it from a small disk.
use mathlib.Core.Path.{subst, sym}
use corrosion.Prelude.{
  ℕ, ◌+◌, ◌-◌, ◌*◌, ◌/◌, ◌%◌, ◌^◌, ◌≤◌, ◌<◌, ◌≡◌, ◌⊎◌, inr, refl, ap, ◌∙◌, arith, false, ◌==◌, ◌&&◌,
  leb, ltb, if◌then◌else◌,
}
use corrosion.Machine.{Memory, write8, read_le, write_le}
use corrosion.Machine.Words.{
  read_le-same, read_le-write_le, read_le-write_le_apart, write_le-outside, write8-ne,
}
use corrosion.Block.{BlockDevice, desc_at, avail_idx_at, avail_ring_at, used_idx_at, used_ring_at}
use corrosion.Block.Descriptors.{after}
use corrosion.Block.Submit.{Submitted}
use corrosion.Block.Wait.Device.{Completes}
use corrosion.Minixfs3.Read.Driven.{DeviceReads}

-- A disk whose block 20 holds the one zone number 30.
abbrev pub linked_disk : ℕ → ℕ
linked_disk q = if leb 20480 q && ltb q 21504 then (if q == 20480 then 30 else 0) else q % 251

linked_disk-lt : (q : ℕ) → linked_disk q < 256
linked_disk-lt q = ground arith

-- The device serves the chain of descriptors from `head` on: it writes a block of the disk to the buffer,
-- the status, the slot of the used ring and the counter.
abbrev filled : (sector buffer : ℕ) → Memory → Memory
filled sector buffer g q =
    if leb buffer q && ltb q (buffer + 1024) then linked_disk (sector * 512 + (q - buffer)) else g q

abbrev transfer : (queue slot head status sector buffer : ℕ) → Memory → Memory
transfer queue slot head status sector buffer g =
    write_le 2 (used_idx_at queue) ((read_le 2 (used_idx_at queue) g + 1) % 2 ^ 16)
      (write_le 4 (used_ring_at queue slot) head (write8 status 0 (filled sector buffer g)))

abbrev slot_of : ℕ → Memory → ℕ
slot_of queue g = read_le 2 (used_idx_at queue) g % 128

abbrev head_of : ℕ → Memory → ℕ
head_of queue g = read_le 2 (avail_ring_at queue (slot_of queue g)) g

abbrev next_of : ℕ → Memory → ℕ → ℕ
next_of queue g d = read_le 2 (desc_at queue d + 14) g

abbrev addr_of : ℕ → Memory → ℕ → ℕ
addr_of queue g d = read_le 8 (desc_at queue d) g

abbrev pub disk_device : ℕ → Memory → Memory
disk_device queue g =
    transfer queue (slot_of queue g) (head_of queue g)
      (addr_of queue g (next_of queue g (next_of queue g (head_of queue g))))
      (read_le 8 (addr_of queue g (head_of queue g) + 8) g)
      (addr_of queue g (next_of queue g (head_of queue g))) g

module _ (self : BlockDevice) (buffer offset rq : ℕ) (m g : Memory)
    (none : read_le 2 (used_idx_at self.queue) m ≡ read_le 2 (avail_idx_at self.queue) m)
    (buffer_apart : (buffer + 1024 ≤ self.queue) ⊎ (self.queue + 5128 ≤ buffer))
    (rq_apart : (rq + 32 ≤ self.queue) ⊎ (self.queue + 5128 ≤ rq))
    (apart : (buffer + 1024 ≤ rq) ⊎ (rq + 32 ≤ buffer))
    (submitted : Submitted self buffer 1024 offset false rq m g) where
  abbrev slot : ℕ
  slot = read_le 2 (avail_idx_at self.queue) m % 128

  abbrev served : Memory
  served = transfer self.queue slot (after self.idx) (rq + 24) (offset / 512) buffer g

  slot-of : slot_of self.queue g ≡ slot
  slot-of =
      ap (λ u. u % 128)
        (read_le-same 2 (used_idx_at self.queue) m g
            (λ q lo hi. submitted.outside q (inr (omega arith)) (ground arith))
          ∙ none)

  head-of : head_of self.queue g ≡ after self.idx
  head-of = rw slot-of submitted.offered

  device-serves : disk_device self.queue g ≡ served
  device-serves =
      rw
        (
          head-of, slot-of, submitted.header.next, submitted.header.addr, submitted.content.next,
          submitted.content.addr, submitted.status.addr, submitted.request.sector_is,
        )
        refl

  served-Completes : Completes self.queue buffer 1024 rq (disk_device self.queue) g
  served-Completes = record {
    counted = rw device-serves (read_le-write_le 2 (used_idx_at self.queue) _ _ (omega arith));
    named = λ i is small.
        rw (device-serves, sym is, slot-of)
          (read_le-write_le_apart 4 2 (used_idx_at self.queue) (used_ring_at self.queue slot) _ _
              (inr (omega arith))
            ∙ read_le-write_le 4 (used_ring_at self.queue slot) (after self.idx) _ (omega arith)
            ∙ sym submitted.offered);
    outside = λ q queue out status. rw device-serves (
        write_le-outside 2 (used_idx_at self.queue) _ _ q (ground arith)
        ∙ write_le-outside 4 (used_ring_at self.queue slot) _ _ q (ground arith)
        ∙ write8-ne (rq + 24) 0 _ q status
        ∙ ground arith);
  }

  served-bytes :
      (i : ℕ)
      → i < 1024
      → disk_device self.queue g (buffer + i) ≡ linked_disk (offset / 512 * 512 + i)
  served-bytes i lt =
      let from : offset / 512 * 512 + (buffer + i - buffer) ≡ offset / 512 * 512 + i =
        omega arith in
      rw device-serves (
        write_le-outside 2 (used_idx_at self.queue) _ _ (buffer + i) (ground arith)
        ∙ write_le-outside 4 (used_ring_at self.queue slot) _ _ (buffer + i) (ground arith)
        ∙ write8-ne (rq + 24) 0 _ (buffer + i) (λ e. ground (arith, e))
        ∙ ground (arith, ap linked_disk from))

pub disk_device-Reads : (queue : ℕ) → DeviceReads linked_disk queue (disk_device queue)
disk_device-Reads queue = record {
  bytes = linked_disk-lt;
  serves = λ self buffer offset rq m g is small none buffer_apart rq_apart apart submitted.
      subst
        (λ (k : ℕ).
          Completes k buffer 1024 rq (disk_device k) g
          × ((i : ℕ)
              → i < 1024
              → disk_device k g (buffer + i) ≡ linked_disk (offset / 512 * 512 + i)))
        is
        (
          served-Completes self buffer offset rq m g (rw is none) (rw is buffer_apart)
              (rw is rq_apart) apart submitted,
          served-bytes self buffer offset rq m g (rw is none) (rw is buffer_apart) (rw is rq_apart)
              apart submitted,
        );
}
