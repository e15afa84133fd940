-- ===== src/Block/Descriptors.antt =====
-- The chain of three descriptors by which a request is handed to the device.
use corrosion.Prelude.{
  ℕ, ◌+◌, ◌%◌, ◌^◌, ◌≤◌, ◌<◌, ◌≡◌, inl, inr, ap, ◌∙◌, arith, true, false, not, ◌==◌, if◌then◌else◌,
  bit_and, Bool-cases, lt→ltb, bit_and-bit,
}
use corrosion.Machine.{Memory, Run, ok, read_le, write_le}
use corrosion.Machine.Words.{
  SameOutside, read_le-same, write_le-outside, read_le-write_le, read_le-write_le_apart,
}
use corrosion.Block.{BlockDevice, Descriptor, desc_at, write_desc, fill_next_descriptor}

-- The descriptor `d` is in memory at `p`.
pub record DescAt (g : Memory) (p : ℕ) (d : Descriptor) : Type 0 where
  pub addr : read_le 8 p g ≡ d.addr
  pub len : read_le 4 (p + 8) g ≡ d.len
  pub flags : read_le 2 (p + 12) g ≡ d.flags
  pub next : read_le 2 (p + 14) g ≡ d.next

-- Its fields are within their widths.
pub record Fits (d : Descriptor) : Type 0 where
  pub addr : d.addr < 2 ^ 64
  pub len : d.len < 2 ^ 32
  pub flags : d.flags < 2 ^ 16
  pub next : d.next < 2 ^ 16

pub DescAt-same :
    (m g : Memory) (p : ℕ) (d : Descriptor)
    → ((q : ℕ) → p ≤ q → q < p + 16 → g q ≡ m q)
    → DescAt m p d
    → DescAt g p d
DescAt-same m g p d same at = record {
  addr = read_le-same 8 p m g (λ q lo hi. same q lo (omega arith)) ∙ at.addr;
  len = read_le-same 4 (p + 8) m g (λ q lo hi. same q (omega arith) (omega arith)) ∙ at.len;
  flags = read_le-same 2 (p + 12) m g (λ q lo hi. same q (omega arith) (omega arith)) ∙ at.flags;
  next = read_le-same 2 (p + 14) m g (λ q lo hi. same q (omega arith) (omega arith)) ∙ at.next;
}

write_desc-outside :
    (p : ℕ) (d : Descriptor) (m : Memory) → SameOutside p (p + 16) m (write_desc p d m)
write_desc-outside p d m q out =
    let m₁ = write_le 8 p d.addr m in
    let m₂ = write_le 4 (p + 8) d.len m₁ in
    let m₃ = write_le 2 (p + 12) d.flags m₂ in
    write_le-outside 2 (p + 14) d.next m₃ q (ground arith)
    ∙ write_le-outside 2 (p + 12) d.flags m₂ q (ground arith)
    ∙ write_le-outside 4 (p + 8) d.len m₁ q (ground arith)
    ∙ write_le-outside 8 p d.addr m q (ground arith)

write_desc-DescAt : (p : ℕ) (d : Descriptor) (m : Memory) → Fits d → DescAt (write_desc p d m) p d
write_desc-DescAt p d m fits =
    let m₁ = write_le 8 p d.addr m in
    let m₂ = write_le 4 (p + 8) d.len m₁ in
    let m₃ = write_le 2 (p + 12) d.flags m₂ in
    record {
      addr =
          read_le-write_le_apart 8 2 (p + 14) p d.next m₃ (inl (omega arith))
          ∙ read_le-write_le_apart 8 2 (p + 12) p d.flags m₂ (inl (omega arith))
          ∙ read_le-write_le_apart 8 4 (p + 8) p d.len m₁ (inl (omega arith))
          ∙ read_le-write_le 8 p d.addr m fits.addr;
      len =
          read_le-write_le_apart 4 2 (p + 14) (p + 8) d.next m₃ (inl (omega arith))
          ∙ read_le-write_le_apart 4 2 (p + 12) (p + 8) d.flags m₂ (inl (omega arith))
          ∙ read_le-write_le 4 (p + 8) d.len m₁ fits.len;
      flags =
          read_le-write_le_apart 2 2 (p + 14) (p + 12) d.next m₃ (inl (omega arith))
          ∙ read_le-write_le 2 (p + 12) d.flags m₂ fits.flags;
      next = read_le-write_le 2 (p + 14) d.next m₃ fits.next;
    }

-- The slot after slot `i` of the ring.
abbrev pub after : ℕ → ℕ
after i = (i + 1) % 128

-- What `fill_next_descriptor` stores at slot `i`: a descriptor with the flag for a next one names
-- the following slot.
abbrev pub linked : ℕ → Descriptor → Descriptor
linked i d = record d { next = if d.flags % 2 == 1 then after i else d.next }

-- Another `next` in a stored descriptor.
relinked :
    (p n : ℕ) (d : Descriptor) (m : Memory)
    → n < 2 ^ 16
    → DescAt m p d
    → DescAt (write_le 2 (p + 14) n m) p (record d { next = n })
relinked p n d m fits at = record {
  addr = read_le-write_le_apart 8 2 (p + 14) p n m (inl (omega arith)) ∙ at.addr;
  len = read_le-write_le_apart 4 2 (p + 14) (p + 8) n m (inl (omega arith)) ∙ at.len;
  flags = read_le-write_le_apart 2 2 (p + 14) (p + 12) n m (inl (omega arith)) ∙ at.flags;
  next = read_le-write_le 2 (p + 14) n m fits;
}

-- The slot after the last has been filled with `d`.
abbrev pub Filled : BlockDevice → Descriptor → Memory → Run (BlockDevice × ℕ) → Type 0
Filled self d m r =
    (g : Memory) × (r ≡ ok (record self { idx = after self.idx }, after self.idx) g)
    × DescAt g (desc_at self.queue (after self.idx)) (linked (after self.idx) d)
    × SameOutside (desc_at self.queue (after self.idx)) (desc_at self.queue (after self.idx) + 16) m
        g

next_flag : (x : ℕ) → (bit_and x 1 == 0) ≡ not (x % 2 == 1)
next_flag x = ground (arith, bit_and-bit 0 x)

-- With the last slot's index below the ring's size, `fill_next_descriptor` returns the next index,
-- with the descriptor, linked if it is to be, in that slot, and changes nothing else.
pub fill_next_descriptor-Filled :
    (self : BlockDevice) (d : Descriptor) (m : Memory)
    → self.idx < 128
    → Fits d
    → Filled self d m (fill_next_descriptor self d m)
unfolding fill_next_descriptor
fill_next_descriptor-Filled self d m small fits =
    let i = after self.idx in
    let p = desc_at self.queue i in
    let g = write_desc p d m in
    let at : DescAt g p d = write_desc-DescAt p d m fits in
    let up = lt→ltb (self.idx + 1) (2 ^ 16) (omega arith) in
    let up' = lt→ltb (i + 1) (2 ^ 16) (omega arith) in
    elim (Bool-cases (d.flags % 2 == 1)) [
      | inl chained ↦
          let test : (bit_and d.flags 1 == 0) ≡ false = next_flag d.flags ∙ ap not chained in
          (
            write_le 2 (p + 14) (after i) g,
            rw (up, at.flags, test, up'),
            rw chained (relinked p (after i) d g (omega arith) at),
            λ q out.
                write_le-outside 2 (p + 14) (after i) g q (ground arith)
                ∙ write_desc-outside p d m q out,
          )
      | inr last ↦
          let test : (bit_and d.flags 1 == 0) ≡ true = next_flag d.flags ∙ ap not last in
          (g, rw (up, at.flags, test), rw last at, write_desc-outside p d m)
    ]
