-- ===== src/Block/Tests.antt =====
-- A device whose queue lies at 0x8000, with an arena of one page at 0x2000.
use corrosion.Prelude.{
  ◌+◌, ◌%◌, ◌^◌, ◌≡◌, refl, inl, inr, arith, ℕ, true, false, some, none, [], ◌∷◌,
}
use corrosion.Machine.{Memory, Run, ok, panic, out_of_fuel, write64, read_le, write_le}
use corrosion.Memory.{align_val}
use corrosion.Alloc.Flags.{is_free, set_taken, set_free, set_size, get_size}
use corrosion.Alloc.Bytes.{ByteGrainAllocator, kmalloc}
use corrosion.Alloc.Bytes.Chunks.{chunk}
use corrosion.Alloc.Bytes.Malloc.{Arena}
use corrosion.Alloc.Init.{alloc_bytes}
use corrosion.Alloc.Pages.{Layout}
use corrosion.Block.{BlockDevice, avail_idx_at, update, block_submit, use_queue}
use corrosion.Block.Submit.{Submitted, block_submit-Submitted}
use corrosion.Block.Queue.{OneCompleted}
use corrosion.Block.Completions.{Drained, none_more, one_more, use_queue-Drained}
use corrosion.Block.Setup
use corrosion.Block.Setup.{Answers}
use corrosion.Block.Setup.Fresh.{SetUp, init-SetUp}

abbrev page : ByteGrainAllocator
page = record { head = 0x2000; alloc = 1; start = 0x2000 }

abbrev disk : BlockDevice
disk = record {
  queue = 0x8000;
  dev = 0x10001000;
  idx = 126;
  ack_used_idx = 0;
  read_only = false;
  ready = λ i. true;
}

abbrev zeros : Memory
zeros q = 0

abbrev blank : Memory
blank = write64 0x2000 4096 (λ q. 0)

abbrev memory_of : Run ℕ → Memory
memory_of (ok a m) = m
memory_of panic = λ q. 0
memory_of out_of_fuel = λ q. 0

abbrev allocated : Memory
allocated = memory_of (alloc_bytes page 32 blank)

allocates : alloc_bytes page 32 blank ≡ ok 0x2008 allocated
unfolding alloc_bytes kmalloc align_val is_free get_size set_taken set_free set_size read_le
    write_le
allocates = refl

-- The ring wraps: the three descriptors are in the slots 127, 0 and 1.
block_submit-Submitted_example :
    (g : Memory) × (block_submit page disk 0x5000 1024 2048 false blank
      ≡ ok
          (
            record disk {
              idx = 1;
              ready = update (λ i. true) (read_le 2 (avail_idx_at 0x8000) allocated % 128) false;
            },
            some (read_le 2 (avail_idx_at 0x8000) allocated % 128),
          )
          g)
    × Submitted disk 0x5000 1024 2048 false 0x2008 allocated g
block_submit-Submitted_example =
    block_submit-Submitted page disk 0x5000 1024 2048 false 0x2008 blank allocated refl allocates
      (inl (omega arith)) (omega arith) (omega arith) (omega arith) (omega arith) (omega arith)

-- Three chunks, of which the middle one holds the request that descriptor 0 names, and one
-- completed request.
abbrev completed : Memory
completed = write64 0x2000 64 (
    write64 0x2040 (2 ^ 63 + 128)
      (write64 0x20c0 3904 (write_le 2 0x9002 1 (write64 0x8000 0x2048 zeros))))

completed-Arena : Arena page (chunk false 64 ∷ chunk true 128 ∷ chunk false 3904 ∷ []) completed
unfolding read_le write_le
completed-Arena = record {
  chunks = (
    refl,
    omega arith,
    omega arith,
    (refl, omega arith, omega arith, (refl, omega arith, omega arith, refl)),
  );
  bounded = omega arith;
}

completed-OneCompleted : OneCompleted disk 0x2048 completed
unfolding read_le write_le
completed-OneCompleted = record {
  acked = omega arith;
  counter = refl;
  id_small = omega arith;
  request = refl;
}

abbrev eight : Layout
eight = record { heap_start = 0x1000; heap_size = 0x8000; memory_end = 0x9000 }

-- A read-only device.
abbrev answers : Answers
answers = record { host_features = 32; status = λ written. written; queue_number_max = 1024 }

init-SetUp_example :
    SetUp eight 0x2000 answers 0x10001000 none zeros
      (Setup.init eight page answers 0x10001000 none zeros)
init-SetUp_example =
    init-SetUp eight page answers 0x10001000 none zeros (omega arith) (omega arith) (omega arith)

use_queue-Drained_example :
    Drained page disk (0x2048 ∷ []) [] completed (use_queue page disk completed)
unfolding read_le write_le
use_queue-Drained_example =
    use_queue-Drained page (0x2048 ∷ []) disk
      (chunk false 64 ∷ chunk true 128 ∷ chunk false 3904 ∷ []) [] completed (omega arith)
      completed-Arena (inr (omega arith))
      (record { more = λ e. omega (arith, e); id_small = omega arith; request = refl }, refl)
      (one_more [] 0x2040 128 [] refl refl none_more)
