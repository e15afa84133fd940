-- ===== src/Trap.antt =====
-- trap.rs: what `machine_trap_rust` does on each cause. Prints are left out; mtime's value and the
-- claim register's answer are arguments.
pub mod Resume
mod Tests
use corrosion.Prelude.{
  ℕ, ◌+◌, ◌/◌, ◌%◌, ◌^◌, ◌==◌, ◌||◌, ltb, if◌then◌else◌, bit_and, Option, none, some,
}
use corrosion.Machine.{Cmd, panic, pure, lift, ◌>>=◌, add_usize}
use corrosion.Alloc.Bytes.{ByteGrainAllocator}
use corrosion.Block.{BlockDevice}
use corrosion.Virtio.{DeviceTypes}
use corrosion.Plic

abbrev pub machine_software_interrupt : ℕ
machine_software_interrupt = 3

abbrev pub machine_timer_interrupt : ℕ
machine_timer_interrupt = 7

abbrev pub machine_external_interrupt : ℕ
machine_external_interrupt = 11

abbrev pub illegal_instruction : ℕ
illegal_instruction = 2

abbrev pub load_access_fault : ℕ
load_access_fault = 5

abbrev pub store_access_fault : ℕ
store_access_fault = 7

abbrev pub user_ecall : ℕ
user_ecall = 8

abbrev pub supervisor_ecall : ℕ
supervisor_ecall = 9

abbrev pub machine_ecall : ℕ
machine_ecall = 11

-- The block device, and what is written to the registers mtimecmp and claim.
pub record Trapped : Type 0 where
  pub pc : ℕ
  pub device : Option BlockDevice
  pub mtimecmp : Option ℕ
  pub completed : Option ℕ

-- The match on the cause of an interrupt.
unfoldable pub async_trap :
    ByteGrainAllocator
    → DeviceTypes
    → (mtime claim_number pc cause_index : ℕ) → Option BlockDevice
    → Cmd Trapped
async_trap alloc types mtime claim_number pc cause_index device =
    if cause_index == machine_software_interrupt
    then pure (record { pc = pc; device = device; mtimecmp = none; completed = none })
    else if cause_index == machine_timer_interrupt
    then (do
      next ← lift (add_usize mtime 10000000)
      pure (record { pc = pc; device = device; mtimecmp = some next; completed = none }))
    else if cause_index == machine_external_interrupt
    then (do
      (device', done) ← Plic.interrupt_handler alloc types claim_number device
      pure (record { pc = pc; device = device'; mtimecmp = none; completed = done }))
    else (λ m. panic)

-- The match on the cause of an exception, and the step over the instruction.
unfoldable pub sync_trap : (pc cause_index : ℕ) → Cmd ℕ
sync_trap pc cause_index =
    if cause_index == illegal_instruction
    then (λ m. panic)
    else if cause_index == load_access_fault
    then lift (add_usize pc 4)
    else if cause_index == store_access_fault
    then lift (add_usize pc 4)
    else if cause_index == user_ecall
    then lift (add_usize pc 4)
    else if cause_index == supervisor_ecall
    then lift (add_usize pc 4)
    else (λ m. panic)

unfoldable pub machine_trap_rust :
    ByteGrainAllocator
    → DeviceTypes
    → (mtime claim_number epc cause : ℕ) → Option BlockDevice
    → Cmd Trapped
unfolding async_trap sync_trap
machine_trap_rust alloc types mtime claim_number epc cause device =
    let cause_index = bit_and cause 0xfff in
    if bit_and (cause / 2 ^ 63) 1 == 1
    then async_trap alloc types mtime claim_number epc cause_index device
    else (do
      pc ← sync_trap epc cause_index
      pure (record { pc = pc; device = device; mtimecmp = none; completed = none }))
