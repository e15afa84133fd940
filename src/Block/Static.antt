-- ===== src/Block/Static.antt =====
-- `block::read` of block.rs with the static variable `BLOCK_DEVICE` in memory, where the fields that an
-- operation changes lie one after the other from `at` on; the others are those of `base`.
use corrosion.Prelude.{
  ℕ, ◌+◌, ◌-◌, ◌^◌, ◌≤◌, ◌<◌, ◌≡◌, ◌⊎◌, inr, ◌∙◌, arith, Bool, false, not, ◌&&◌, ◌==◌, leb, ltb,
  if◌then◌else◌, List, Option, none, some,
}
use corrosion.Machine.{Memory, Cmd, pure, ◌>>=◌, change, read_le, write_le}
use corrosion.Machine.Words.{read_le-write_le, read_le-write_le_apart, write_le-outside}
use corrosion.Alloc.Bytes.{ByteGrainAllocator}
use corrosion.Block.{BlockDevice}
use corrosion.Block.Wait.{Event, block_operation}

abbrev pub load : BlockDevice → ℕ → Memory → BlockDevice
load base at m = record base {
  idx = read_le 2 at m;
  ack_used_idx = read_le 2 (at + 2) m;
  ready = λ i. not (m (at + 4 + i) == 0);
}

abbrev pub store_ready : ℕ → (ℕ → Bool) → Memory → Memory
store_ready at ready m q =
    if leb (at + 4) q && ltb q (at + 132) then (if ready (q - (at + 4)) then 1 else 0) else m q

abbrev pub store : ℕ → BlockDevice → Memory → Memory
store at self m =
    write_le 2 at self.idx (write_le 2 (at + 2) self.ack_used_idx (store_ready at self.ready m))

-- `block::read` with a device, during which the events happen.
unfoldable pub read_static :
    ByteGrainAllocator → List Event → BlockDevice → (at buffer size offset : ℕ) → Cmd (Unit {0})
unfolding block_operation
read_static alloc events base at buffer size offset = do
  self ← (λ m. pure (load base at m) m)
  self' ← block_operation alloc events self buffer size offset false
  change (store at self')

-- `block::read`; without a device it only prints.
abbrev pub read :
    ByteGrainAllocator
    → List Event
    → Option BlockDevice
    → (at buffer size offset : ℕ) → Cmd (Unit {0})
read alloc events none at buffer size offset = pure tt
read alloc events (some base) at buffer size offset =
    read_static alloc events base at buffer size offset

module _ (at : ℕ) (self : BlockDevice) (m : Memory) where
  pub store-outside : (q : ℕ) → (q < at) ⊎ (at + 132 ≤ q) → store at self m q ≡ m q
  store-outside q out =
      write_le-outside 2 at self.idx _ q (ground arith)
      ∙ write_le-outside 2 (at + 2) self.ack_used_idx _ q (ground arith)
      ∙ ground arith

  pub store-idx : self.idx < 128 → read_le 2 at (store at self m) ≡ self.idx
  store-idx small = read_le-write_le 2 at self.idx _ (omega arith)

  pub store-acked :
      self.ack_used_idx < 2 ^ 16 → read_le 2 (at + 2) (store at self m) ≡ self.ack_used_idx
  store-acked small =
      read_le-write_le_apart 2 2 at (at + 2) self.idx _ (inr (omega arith))
      ∙ read_le-write_le 2 (at + 2) self.ack_used_idx _ (omega arith)
