-- ===== src/Plic.antt =====
-- plic.rs: the driver of the platform-level interrupt controller. Its registers are memory-mapped
-- words; a read of the claim register has the device's answer as an argument, and a write to it,
-- which completes the interrupt, is returned.
pub mod Enabled
pub mod Handler
mod Tests
use corrosion.Prelude.{
  ℕ, zero, suc, ◌+◌, ◌*◌, ◌^◌, ◌&&◌, ◌==◌, leb, if◌then◌else◌, bit_and, bit_or, Option, none, some,
}
use corrosion.Machine.{Cmd, pure, ◌>>=◌}
use corrosion.Alloc.Bytes.{ByteGrainAllocator}
use corrosion.Block.{BlockDevice}
use corrosion.Virtio
use corrosion.Virtio.{DeviceTypes}
use mathlib.Core.Option

-- The words of the plain registers, by their addresses.
abbrev pub Registers : Type 0
Registers = ℕ → ℕ

abbrev pub set_register : ℕ → ℕ → Registers → Registers
set_register a v r q = if q == a then v else r q

abbrev pub plic_priority : ℕ
plic_priority = 0x0c000000

abbrev pub plic_int_enable : ℕ
plic_int_enable = 0x0c002000

abbrev pub plic_threshold : ℕ
plic_threshold = 0x0c200000

-- The argument is what the claim register answers.
abbrev pub next_plic_interrupt : ℕ → Option ℕ
next_plic_interrupt claim_number = if claim_number == 0 then none else some claim_number

abbrev pub set_threshold : ℕ → Registers → Registers
set_threshold tsh = set_register plic_threshold (bit_and tsh 7)

-- `none` is the panic of a shift by the word's width or more.
unfoldable pub enable : ℕ → Registers → Option Registers
enable id r =
    if leb 32 id
    then none
    else some (set_register plic_int_enable (bit_or (r plic_int_enable) (2 ^ id)) r)

abbrev pub set_priority : ℕ → ℕ → Registers → Registers
set_priority id priority = set_register (plic_priority + 4 * id) (bit_and priority 7)

-- `for i in 1..=8`, with `left` rounds to go.
unfoldable pub init_loop : ℕ → ℕ → Registers → Option Registers
unfolding enable Option.bind
init_loop zero i r = some r
init_loop (suc left) i r =
    Option.bind (enable i r) (λ r'. init_loop left (i + 1) (set_priority i 1 r'))

unfoldable pub init : Registers → Option Registers
unfolding init_loop
init r = init_loop 8 1 (set_threshold 0 r)

-- The result is the block device and what is written to the claim register.
unfoldable pub interrupt_handler :
    ByteGrainAllocator → DeviceTypes → ℕ → Option BlockDevice → Cmd (Option BlockDevice × Option ℕ)
interrupt_handler alloc types claim_number device = elim (next_plic_interrupt claim_number) [
  | none ↦ pure (device, none)
  | some interrupt ↦ do
    device' ←
        if leb 1 interrupt && leb interrupt 8
        then Virtio.interrupt_handler alloc types interrupt device
        else pure device
    pure (device', some interrupt)
]
