-- ===== src/Trap/Tests.antt =====
-- A fault, a timer interrupt, and the interrupt of a block device that has completed a request.
use corrosion.Prelude.{◌+◌, ◌^◌, ◌≡◌, refl, inr, arith, true, false, some, none, [], ◌∷◌}
use corrosion.Machine.{Memory, ok, write64, read_le, write_le}
use corrosion.Alloc.Bytes.{ByteGrainAllocator}
use corrosion.Alloc.Bytes.Chunks.{chunk, Heap}
use corrosion.Alloc.Bytes.Malloc.{Arena}
use corrosion.Alloc.Bytes.Used.{used}
use corrosion.Block.{BlockDevice}
use corrosion.Block.Queue.{OneCompleted, Idle, acknowledged, use_queue-Idle}
use corrosion.Trap.{machine_trap_rust}
use corrosion.Trap.Resume.{exception_resumes, Interrupted, interrupt-Interrupted, interrupt_serves}

abbrev page : ByteGrainAllocator
page = record { head = 0x2000; alloc = 1; start = 0x2000 }

abbrev disk : BlockDevice
disk = record {
  queue = 0x8000;
  dev = 0x10001000;
  idx = 3;
  ack_used_idx = 0;
  read_only = false;
  ready = λ i. false;
}

abbrev zeros : Memory
zeros q = 0

-- A load access fault.
exception_resumes_example :
    machine_trap_rust page (λ i. none) 0 0 0x80000000 5 none zeros
    ≡ ok (record { pc = 0x80000004; device = none; mtimecmp = none; completed = none }) zeros
exception_resumes_example =
    exception_resumes page (λ i. none) 0 0 0x80000000 5 none zeros (omega arith)

interrupt-Interrupted_example :
    Interrupted page
      (λ i. none)
      50
      0
      0x80000000
      7
      (some disk)
      zeros
      (machine_trap_rust page (λ i. none) 50 0 0x80000000 (2 ^ 63 + 7) (some disk) zeros)
unfolding read_le
interrupt-Interrupted_example =
    interrupt-Interrupted page (λ i. none) 50 0 0x80000000 (some disk) zeros (2 ^ 63 + 7)
      (omega arith) (omega arith) (disk, zeros, use_queue-Idle page disk zeros refl)

abbrev completed : Memory
completed = write64 0x2000 64 (
    write64 0x2040 (2 ^ 63 + 128)
      (write64 0x20c0 3904 (write_le 2 0x9002 1 (write64 0x8000 0x2048 zeros))))

completed-Arena : Arena page (chunk false 64 ∷ chunk true 128 ∷ chunk false 3904 ∷ []) completed
unfolding read_le write_le
completed-Arena = record {
  chunks = (
    refl,
    omega arith,
    omega arith,
    (refl, omega arith, omega arith, (refl, omega arith, omega arith, refl)),
  );
  bounded = omega arith;
}

completed-OneCompleted : OneCompleted disk 0x2048 completed
unfolding read_le write_le
completed-OneCompleted = record {
  acked = omega arith;
  counter = refl;
  id_small = omega arith;
  request = refl;
}

interrupt_serves_example :
    (cs : Heap) × (g : Memory) × (machine_trap_rust page
        (λ i. some 2)
        0
        8
        0x80000000
        (2 ^ 63 + 11)
        (some disk)
        completed
      ≡ ok
          (record {
            pc = 0x80000000;
            device = some (acknowledged disk);
            mtimecmp = none;
            completed = some 8;
          })
          g)
    × Arena page cs g
    × (used 0x2000 cs ≡ [])
    × Idle (acknowledged disk) g
interrupt_serves_example =
    interrupt_serves page (λ i. some 2) 0 7 0x80000000 (2 ^ 63 + 11) disk (chunk false 64 ∷ []) 128
      (chunk false 3904 ∷ []) completed (omega arith) (omega arith) refl (omega arith) refl
      completed-Arena (inr (omega arith)) completed-OneCompleted
