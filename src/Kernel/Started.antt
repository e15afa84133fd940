-- ===== src/Kernel/Started.antt =====
-- The state of all components after `kernel_init`.
use corrosion.Prelude.{
  ℕ, ◌+◌, ◌*◌, ◌≡◌, none, some, [], ◌∷◌, ◌++◌, false, true, ◌⊎◌, ◌≤◌, ◌<◌, ◌/◌, ◌%◌, ◌==◌, Option,
}
use corrosion.Machine.{Memory, null}
use corrosion.Uart
use corrosion.Uart.{uart, lcr, fcr, ier}
use corrosion.Uart.Sent.{sent, announcement}
use corrosion.Alloc.Bytes.{page_size}
use corrosion.Alloc.Bytes.Chunks.{chunk}
use corrosion.Alloc.Pages.{Layout, num_pages}
use corrosion.Alloc.Init.{arena_pages}
use corrosion.Alloc.Init.Boot.{first_page}
use corrosion.Alloc.Init.Sound.{Sound}
use corrosion.Plic.{Registers}
use corrosion.Plic.Enabled.{Ready}
use corrosion.Virtio.{Probe}
use corrosion.Virtio.Scan.{Entered, driven, address}
use corrosion.Virtio.Report.{informed, slots_text}
use corrosion.Block.{BlockDevice}
use corrosion.Config.{Text, ascii}
use corrosion.Kernel.{Kernel, no_types}

-- The block device after the scan of the slots below `j`: the last one that is driven, whose queue is
-- two pages behind those of the arena, or null where no two pages in a row were free; none if none is
-- driven.
pub data Attached (l : Layout) (probe : ℕ → Probe) (j : ℕ) : Option BlockDevice → Type 0 where
  not_attached : ((k : ℕ) → k < j → driven (probe (address k)) ≡ false) → Attached l probe j none
  attached :
      (k queue : ℕ)
      → k < j
      → driven (probe (address k)) ≡ true
      → ((k' : ℕ) → k < k' → k' < j → driven (probe (address k')) ≡ false)
      → (queue ≡ null)
        ⊎ ((first_page l + page_size * arena_pages ≤ queue)
            × (queue + page_size * 2 ≤ first_page l + page_size * num_pages l))
      → Attached l probe j (
          some (record {
            queue = queue;
            dev = 0x10001000 + 0x1000 * k;
            idx = 0;
            ack_used_idx = 0;
            read_only = (probe (address k)).answers.host_features / 32 % 2 == 1;
            ready = λ i. true;
          }))

-- The lines of the components, and what the scan finds in the eight slots.
abbrev pub start_text : (ℕ → Probe) → Text
start_text probe =
    informed (ascii "init kernel memory allocator")
    ++ (informed (ascii "init plic")
        ++ (informed (ascii "init virtio") ++ slots_text probe 8 0x10001000))

-- The state of the kernel when interrupts are about to be enabled.
pub record Started (l : Layout) (probe : ℕ → Probe) (r : Registers) (k : Kernel) (g : Memory)
    : Type 0 where
  pub serial :
      k.serial
      ≡ (([]
            ++ (uart.base_address + lcr, 3)
              ∷ (uart.base_address + fcr, 1)
              ∷ (uart.base_address + ier, 1)
              ∷ [])
          ++ sent announcement)
        ++ sent (start_text probe)
  pub sound : Sound l k.alloc (chunk false (page_size * arena_pages) ∷ []) g
  pub ready : Ready r k.registers
  pub entered : Entered probe 0 8 no_types k.types
  pub device : Attached l probe 8 k.device
