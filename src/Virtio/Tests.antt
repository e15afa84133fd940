-- ===== src/Virtio/Tests.antt =====
-- A scan of eight slots: the first two hold a screen and a block device that refuses its features.
use corrosion.Prelude.{arith, ℕ, ◌==◌, if◌then◌else◌, none}
use corrosion.Machine.{Memory}
use corrosion.Alloc.Bytes.{ByteGrainAllocator}
use corrosion.Alloc.Pages.{Layout}
use corrosion.Virtio.{Probe, init}
use corrosion.Virtio.Scan.{ScanOutcome, init-Entered}

abbrev page : ByteGrainAllocator
page = record { head = 0x2000; alloc = 1; start = 0x2000 }

abbrev eight : Layout
eight = record { heap_start = 0x1000; heap_size = 0x8000; memory_end = 0x9000 }

abbrev probe : ℕ → Probe
probe addr = record {
  magic = 0x74726976;
  device_id = if addr == 0x10001000 then 16 else if addr == 0x10002000 then 2 else 0;
  answers = record { host_features = 0; status = λ written. 0; queue_number_max = 1024 };
}

abbrev zeros : Memory
zeros q = 0

init-Entered_example :
    ScanOutcome eight 0x2000 probe 0 8
      (λ i. none)
      none
      zeros
      (init eight page probe (λ i. none, none) zeros)
init-Entered_example =
    init-Entered eight page probe (omega arith) (omega arith) (omega arith) (λ i. none) none zeros
