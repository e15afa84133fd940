-- ===== src/Virtio.antt =====
-- virtio.rs: the scan for virtio devices and the dispatch of their interrupts. What the devices'
-- registers answer is an argument.
pub mod Scan
pub mod Report
mod Tests
use corrosion.Prelude.{
  ℕ, zero, suc, ◌+◌, ◌-◌, ◌*◌, ◌/◌, ◌%◌, ◌^◌, ◌==◌, leb, [], ◌∷◌, ◌++◌, if◌then◌else◌, Bool, true,
  false, not, Option, none, some,
}
use corrosion.Machine.{Cmd, panic, pure, ◌>>=◌}
use corrosion.Alloc.Bytes.{ByteGrainAllocator}
use corrosion.Alloc.Pages.{Layout}
use corrosion.Config.{Text, ascii}
use corrosion.Uart.{Trace, print, println, serial_info, decimal}
use corrosion.Buffer.Print.{digit}
use corrosion.Block
use corrosion.Block.{BlockDevice}
use corrosion.Block.Setup
use corrosion.Block.Setup.{Answers}

abbrev pub virtio_start : ℕ
virtio_start = 0x10001000

abbrev pub virtio_stride : ℕ
virtio_stride = 0x1000

abbrev pub virtio_magic_le : ℕ
virtio_magic_le = 0x74726976

abbrev pub block : ℕ
block = 2

abbrev pub gpu : ℕ
gpu = 16

abbrev pub input : ℕ
input = 18

-- The array of 8 entries, by index.
abbrev pub DeviceTypes : Type 0
DeviceTypes = ℕ → Option ℕ

-- `none` is a subtraction below 0 or an index out of range.
unfoldable pub set_virtio_device_type : ℕ → ℕ → DeviceTypes → Option DeviceTypes
set_virtio_device_type addr value types =
    if leb virtio_start addr
    then if leb 8 ((addr - virtio_start) / 2 ^ 12)
      then none
      else some (λ j. if j == (addr - virtio_start) / 2 ^ 12 then some value else types j)
    else none

-- What the device registers at an address answer: magic value, device id, and the block device's.
pub record Probe : Type 0 where
  pub magic : ℕ
  pub device_id : ℕ
  pub answers : Answers

abbrev pub Scanned : Type 0
Scanned = DeviceTypes × Option BlockDevice

set_type : ℕ → ℕ → Scanned → Cmd Scanned
unfolding set_virtio_device_type
set_type addr value (types, device) = elim (set_virtio_device_type addr value types) [
  | none ↦ λ m. panic
  | some types' ↦ pure (types', device)
]

-- The body of the loop in `init`.
unfoldable pub init_device : Layout → ByteGrainAllocator → (ℕ → Probe) → ℕ → Scanned → Cmd Scanned
unfolding set_type
init_device l alloc probe addr (types, device) =
    let magicvalue = (probe addr).magic in
    let deviceid = (probe addr).device_id in
    if not (virtio_magic_le == magicvalue)
    then pure (types, device)
    else if deviceid == 0
    then pure (types, device)
    else if deviceid == block
    then (do
      (ok', device', writes) ← Setup.init l alloc (probe addr).answers addr device
      if ok' then set_type addr block (types, device') else pure (types, device'))
    else if deviceid == gpu
    then set_type addr gpu (types, device)
    else if deviceid == input
    then set_type addr input (types, device)
    else pure (types, device)

-- From `addr` on, with `left` rounds to go.
unfoldable pub init_loop :
    Layout → ByteGrainAllocator → (ℕ → Probe) → (left addr : ℕ) → Scanned → Cmd Scanned
unfolding init_device
init_loop l alloc probe zero addr s = pure s
init_loop l alloc probe (suc left) addr s = init_device l alloc probe addr s >>= λ s'.
    init_loop l alloc probe left (addr + virtio_stride) s'

-- `(VIRTIO_START..=VIRTIO_END).step_by(VIRTIO_STRIDE)` has 8 addresses.
unfoldable pub init : Layout → ByteGrainAllocator → (ℕ → Probe) → Scanned → Cmd Scanned
unfolding init_loop
init l alloc probe s = init_loop l alloc probe 8 virtio_start s

-- `{:08x}` of an address below 2^32
abbrev pub hex_word : ℕ → Text
hex_word n =
    digit (n / 0x10000000)
    ∷ digit (n / 0x1000000 % 16)
    ∷ digit (n / 0x100000 % 16)
    ∷ digit (n / 0x10000 % 16)
    ∷ digit (n / 0x1000 % 16)
    ∷ digit (n / 0x100 % 16)
    ∷ digit (n / 16 % 16)
    ∷ digit (n % 16)
    ∷ []

-- What the body of the loop in `init` sends to the serial port.
unfoldable pub report_device : (ℕ → Probe) → ℕ → Trace → Trace
unfolding print println decimal Setup.report
report_device probe addr w =
    let magicvalue = (probe addr).magic in
    let deviceid = (probe addr).device_id in
    let begun = print (ascii "    - Virtio device @ 0x" ++ (hex_word addr ++ ascii "...")) w in
    let (tried, ok') = Setup.report (probe addr).answers begun in
    if not (virtio_magic_le == magicvalue)
    then println (ascii "...not virtio.") begun
    else if deviceid == 0
    then println (ascii "...not connected.") begun
    else if deviceid == block
    then (if ok' then tried else println (ascii "failed to init block device...") tried)
    else if deviceid == gpu
    then println (ascii "GPU device...") begun
    else if deviceid == input
    then println (ascii "input device...") begun
    else println (ascii "...ignored device type " ++ (decimal deviceid ++ ascii ".")) begun

unfoldable pub report_loop : (ℕ → Probe) → (left addr : ℕ) → Trace → Trace
unfolding report_device
report_loop probe zero addr w = w
report_loop probe (suc left) addr w =
    report_loop probe left (addr + virtio_stride) (report_device probe addr w)

-- What `init` sends to the serial port.
unfoldable pub report : (ℕ → Probe) → Trace → Trace
unfolding report_loop serial_info
report probe w = report_loop probe 8 virtio_start (serial_info (ascii "init virtio") w)

-- The index is `interrupt - 1`, which panics on 0 and out of the array's range.
unfoldable pub interrupt_handler :
    ByteGrainAllocator → DeviceTypes → ℕ → Option BlockDevice → Cmd (Option BlockDevice)
interrupt_handler alloc types zero device = λ m. panic
interrupt_handler alloc types (suc idx) device =
    if leb 8 idx then (λ m. panic) else elim (types idx) [
      | none ↦ pure device
      | some vd ↦ if vd == block then Block.interrupt_handler alloc device else pure device
    ]
