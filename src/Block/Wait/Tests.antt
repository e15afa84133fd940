-- ===== src/Block/Wait/Tests.antt =====
-- A read of 1024 bytes into a block in use of a one-page arena at 0x2000, with the queue at 0x8000.
use corrosion.Prelude.{ℕ, ◌+◌, ◌%◌, ◌^◌, ◌<◌, ◌≡◌, ◌∙◌, refl, inl, inr, arith, true, false, [], ◌∷◌}
use corrosion.Machine.{Memory, Run, ok, panic, out_of_fuel, write8, write64, read_le, write_le}
use corrosion.Machine.Words.{read_le-write_le, read_le-write_le_apart, write_le-outside, write8-ne}
use corrosion.Memory.{align_val}
use corrosion.Alloc.Flags.{is_free, set_taken, set_free, set_size, get_size}
use corrosion.Alloc.Bytes.{ByteGrainAllocator, kmalloc}
use corrosion.Alloc.Bytes.Chunks.{Heap, chunk}
use corrosion.Alloc.Bytes.Malloc.{Arena}
use corrosion.Alloc.Init.{alloc_bytes}
use corrosion.Block.{BlockDevice, avail_ring_at, used_idx_at, used_ring_at}
use corrosion.Block.Wait.{no_operation, device_writes, interrupted, block_operation}
use corrosion.Block.Wait.Schedule.{serve_later, spurious, serve, answer_later, answer}
use corrosion.Block.Wait.Device.{Completes}
use corrosion.Block.Wait.Served.{Performed, block_operation-Performed}

abbrev page : ByteGrainAllocator
page = record { head = 0x2000; alloc = 1; start = 0x2000 }

abbrev disk : BlockDevice
disk = record {
  queue = 0x8000;
  dev = 0x10001000;
  idx = 126;
  ack_used_idx = 0;
  read_only = false;
  ready = λ i. true;
}

abbrev two_chunks : Heap
two_chunks = chunk true 1032 ∷ chunk false 3064 ∷ []

abbrev before : Memory
before = write64 0x2000 (2 ^ 63 + 1032) (write64 0x2408 3064 (λ q. 0))

before-Arena : Arena page two_chunks before
unfolding read_le write_le
before-Arena = record {
  chunks = (refl, omega arith, omega arith, (refl, omega arith, omega arith, refl));
  bounded = omega arith;
}

abbrev memory_of : Run ℕ → Memory
memory_of (ok a m) = m
memory_of panic = λ q. 0
memory_of out_of_fuel = λ q. 0

abbrev allocated : Memory
allocated = memory_of (alloc_bytes page 32 before)

allocates : alloc_bytes page 32 before ≡ ok 0x2410 allocated
unfolding alloc_bytes kmalloc align_val is_free get_size set_taken set_free set_size read_le
    write_le
allocates = refl

-- The device's counter, and the slots it names.
abbrev slot : Memory → ℕ
slot g = read_le 2 (used_idx_at 0x8000) g % 128

abbrev head : Memory → ℕ
head g = read_le 2 (avail_ring_at 0x8000 (slot g)) g

-- The device reads one byte that is not zero, and the status is good.
abbrev transfers : Memory → Memory
transfers g = write8 0x2008 42 (write8 0x2428 0 g)

abbrev answers : Memory → Memory
answers g =
    write_le 2 (used_idx_at 0x8000) ((read_le 2 (used_idx_at 0x8000) g + 1) % 2 ^ 16)
      (write_le 4 (used_ring_at 0x8000 (slot g)) (head g) (transfers g))

answers-named :
    (g : Memory) (i : ℕ)
    → slot g ≡ i
    → read_le 2 (avail_ring_at 0x8000 i) g < 128
    → read_le 4 (used_ring_at 0x8000 i) (answers g) ≡ read_le 2 (avail_ring_at 0x8000 i) g
answers-named g i is small = rw is (
    read_le-write_le_apart 4 2 (used_idx_at 0x8000) (used_ring_at 0x8000 i) _ _ (inr (omega arith))
    ∙ read_le-write_le 4 (used_ring_at 0x8000 i) (read_le 2 (avail_ring_at 0x8000 i) g)
        (transfers g) (omega (arith, small)))

answers-Completes : (g : Memory) → Completes 0x8000 0x2008 1024 0x2410 answers g
answers-Completes g = record {
  counted = read_le-write_le 2 (used_idx_at 0x8000) _ _ (omega arith);
  named = answers-named g;
  outside = λ q queue buffer status.
      write_le-outside 2 (used_idx_at 0x8000) _ _ q (ground arith)
      ∙ write_le-outside 4 (used_ring_at 0x8000 (slot g)) _ _ q (ground arith)
      ∙ write8-ne 0x2008 42 _ q (λ e. ground (arith, e))
      ∙ write8-ne 0x2428 0 g q (λ e. status (omega (arith, e)));
}

block_operation-Performed_example :
    Performed page disk 0x2008 1024 2048 false answers 0x2410 two_chunks allocated (
      block_operation page
        (interrupted ∷ no_operation ∷ device_writes answers ∷ no_operation ∷ interrupted ∷ [])
        disk
        0x2008
        1024
        2048
        false
        before)
unfolding read_le write_le
block_operation-Performed_example =
    block_operation-Performed page disk 0x2008 1024 2048 false answers 0x2410 two_chunks before
      allocated
      (interrupted ∷ no_operation ∷ device_writes answers ∷ no_operation ∷ interrupted ∷ []) refl
      before-Arena (inr (omega arith)) allocates (λ e. omega (arith, e)) (omega arith) (omega arith)
      (omega arith) (omega arith) (omega arith) refl refl (inl (omega arith))
      (λ q lo hi. inr (ground arith)) (λ g submitted. answers-Completes g)
      (spurious (serve_later (serve (answer_later (answer [])))))
