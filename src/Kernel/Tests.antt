-- ===== src/Kernel/Tests.antt =====
-- A start on the machine's 128 MiB with a screen and a block device.
use corrosion.Prelude.{ℕ, ◌≡◌, ◌==◌, if◌then◌else◌, refl, some, none, []}
use corrosion.Alloc.Pages.{Layout}
use corrosion.Virtio.{Probe}
use corrosion.Kernel.{Kernel, panic_handler}
use corrosion.Kernel.Started.{Started}

abbrev virt : Layout
virt = record { heap_start = 0x8010_0000; heap_size = 0x07f0_0000; memory_end = 0x8800_0000 }

abbrev probe : ℕ → Probe
probe addr = record {
  magic = 0x74726976;
  device_id = if addr == 0x10001000 then 16 else if addr == 0x10008000 then 2 else 0;
  answers = record { host_features = 0; status = λ written. 15; queue_number_max = 1024 };
}

no_message :
    panic_handler (record { location = some (record { line = 7; file = [] }); message = none }) []
    ≡ none
unfolding panic_handler
no_message = refl
