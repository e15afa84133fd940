-- ===== src/Kernel.antt =====
-- main.rs: the start of the kernel, and its end. What the statics of the components hold after
-- `kernel_init` is its result; the shutdown is the word that assembly.rs writes to the platform.
pub mod Started
mod Tests
use corrosion.Prelude.{ℕ, ◌+◌, List, [], ◌∷◌, ◌++◌, Option, none, some}
use corrosion.Config.{Text, ascii}
use corrosion.Machine.{Memory, Cmd, pure, lift, ◌>>=◌, ◌>>◌}
use corrosion.Uart
use corrosion.Uart.{Trace, uart, serial_info, serial_step, println, decimal}
use corrosion.Alloc.Bytes.{ByteGrainAllocator}
use corrosion.Alloc.Pages.{Layout}
use corrosion.Alloc.Init
use corrosion.Block.{BlockDevice}
use corrosion.Plic
use corrosion.Plic.{Registers}
use corrosion.Virtio
use corrosion.Virtio.{DeviceTypes, Probe}

pub record Kernel : Type 0 where
  pub serial : Trace
  pub alloc : ByteGrainAllocator
  pub registers : Registers
  pub types : DeviceTypes
  pub device : Option BlockDevice

-- `VIRTIO_DEVICE_TYPES` and `BLOCK_DEVICE` before the start.
abbrev pub no_types : DeviceTypes
no_types i = none

-- What is sent to the serial port: the lines of `Uart::init`, of `PageGrainAllocator::init`, of
-- `plic::init` and of `virtio::init`.
unfoldable pub kernel_report : (ℕ → Probe) → Trace
unfolding serial_info
kernel_report probe =
    let begun = Uart.init uart [] in
    let allocators = serial_info (ascii "init kernel memory allocator") begun in
    Virtio.report probe (serial_info (ascii "init plic") allocators)

-- `r` is what the interrupt controller's registers hold, `probe` what the devices answer.
unfoldable pub kernel_init : Layout → (ℕ → Probe) → Registers → Cmd Kernel
unfolding kernel_report
kernel_init l probe r = do
  alloc ← Init.init l
  registers ← lift (Plic.init r)
  scanned ← Virtio.init l alloc probe (no_types, none)
  pure (record {
    serial = kernel_report probe;
    alloc = alloc;
    registers = registers;
    types = scanned.0;
    device = scanned.1;
  })

-- `sw a1, 0(a0)` of `trigger_shutdown`
abbrev pub trigger_shutdown : Trace → Trace
trigger_shutdown w = w ++ (0x100000, 0x5555) ∷ []

abbrev pub shutdown : Trace → Trace
shutdown w = trigger_shutdown w

pub record Location : Type 0 where
  pub line : ℕ
  pub file : Text

pub record PanicInfo : Type 0 where
  pub location : Option Location
  pub message : Option Text

-- What the panic handler sends before it halts for good; `none` is a panic within it, where the
-- message that it unwraps is missing.
unfoldable pub panic_handler : PanicInfo → Trace → Option Trace
unfolding Uart.print println decimal
panic_handler info w =
    let begun = Uart.print (ascii "Aborting: ") w in
    elim info.location [
      | some p ↦ elim info.message [
        | some txt ↦
            let place = ascii "line " ++ (decimal p.line ++ (ascii ", file " ++ p.file)) in
            some (println (place ++ (ascii ": " ++ txt)) begun)
        | none ↦ none
      ]
      | none ↦ some (println (ascii "no information available.") begun)
    ]

-- The end of `kernel_main`, behind the start of the file system and what the features switch on.
unfoldable pub finish : Trace → Trace
unfolding serial_step
finish w = shutdown (serial_step (ascii "Booted successfully!\n") w)
