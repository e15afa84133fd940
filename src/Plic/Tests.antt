-- ===== src/Plic/Tests.antt =====
-- The controller with all its registers at 5, and an interrupt of an idle block device.
use corrosion.Prelude.{◌≡◌, refl, some, false, true}
use corrosion.Machine.{Memory, read_le}
use corrosion.Alloc.Bytes.{ByteGrainAllocator}
use corrosion.Block.{BlockDevice}
use corrosion.Block.Queue.{use_queue-Idle}
use corrosion.Plic.{Registers, init, interrupt_handler}
use corrosion.Plic.Enabled.{Ready, init-Ready}
use corrosion.Plic.Handler.{Handled, interrupt_handler-Handled}

init-Ready_example : (r' : Registers) × (init (λ q. 5) ≡ some r') × Ready (λ q. 5) r'
init-Ready_example = init-Ready (λ q. 5)

abbrev page : ByteGrainAllocator
page = record { head = 0x2000; alloc = 1; start = 0x2000 }

abbrev disk : BlockDevice
disk = record {
  queue = 0x8000;
  dev = 0x10001000;
  idx = 0;
  ack_used_idx = 0;
  read_only = false;
  ready = λ i. true;
}

abbrev zeros : Memory
zeros q = 0

interrupt_handler-Handled_example :
    Handled page
      (λ i. some 2)
      3
      (some disk)
      zeros
      (interrupt_handler page (λ i. some 2) 3 (some disk) zeros)
unfolding read_le
interrupt_handler-Handled_example =
    interrupt_handler-Handled page (λ i. some 2) zeros 3 (some disk)
      (disk, zeros, use_queue-Idle page disk zeros refl)
