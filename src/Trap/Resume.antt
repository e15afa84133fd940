-- ===== src/Trap/Resume.antt =====
-- Where a trap resumes, and what it has done by then.
use corrosion.Prelude.{
  ℕ, suc, ◌+◌, ◌-◌, ◌/◌, ◌%◌, ◌^◌, ◌≤◌, ◌<◌, ◌≡◌, ◌≢◌, inl, inr, arith, Bool, true, false, ◌&&◌,
  ◌||◌, ◌==◌, ltb, leb, if◌then◌else◌, bit_and, Option, some, none, bit_and-mask, Bool-cases, ◌∷◌,
  ◌++◌,
}
use corrosion.Machine.{Memory, Run, ok, panic, after}
use corrosion.Alloc.Bytes.{ByteGrainAllocator}
use corrosion.Alloc.Bytes.Chunks.{chunk, Heap, total}
use corrosion.Alloc.Bytes.Malloc.{Arena}
use corrosion.Alloc.Bytes.Used.{used}
use corrosion.Block.{BlockDevice, use_queue}
use corrosion.Block.Queue.{QueueApart, OneCompleted, Idle, acknowledged, use_queue-OneCompleted}
use corrosion.Virtio
use corrosion.Virtio.{DeviceTypes, block}
use corrosion.Plic
use corrosion.Plic.Handler.{
  Handled, Returns, none_pending, ignored, no_device, served, interrupt_handler-Handled,
}
use corrosion.Block
use corrosion.Trap.{Trapped, machine_trap_rust, async_trap, sync_trap}

-- The exceptions that are reported and passed over: access faults and calls from below.
abbrev pub passed_over : ℕ → Bool
passed_over code = code == 5 || code == 7 || code == 8 || code == 9

async_bit :
    (cause : ℕ) → cause < 2 ^ 64 → (bit_and (cause / 2 ^ 63) 1 == 1) ≡ ltb (2 ^ 63 - 1) cause
async_bit cause fits = ground (arith, bit_and-mask 1 (cause / 2 ^ 63))

module _ (alloc : ByteGrainAllocator) (types : DeviceTypes) (mtime claim_number epc cause : ℕ)
    (device : Option BlockDevice) (m : Memory) where
  -- An exception, whose cause has the top bit clear, resumes behind the trapped instruction and
  -- changes nothing, if it is an access fault or a call from user or supervisor mode and the address does
  -- not overflow; else it panics.
  pub exception_resumes :
      cause < 2 ^ 63
      → machine_trap_rust alloc types mtime claim_number epc cause device m ≡ (
          if passed_over (cause % 4096) && ltb (epc + 4) (2 ^ 64)
          then ok (record { pc = epc + 4; device = device; mtimecmp = none; completed = none }) m
          else panic)
  unfolding machine_trap_rust sync_trap
  exception_resumes clear =
      let sync : ltb (2 ^ 63 - 1) cause ≡ false = ground arith in
      rw (machine_trap_rust, async_bit cause (omega arith), sync, bit_and-mask 12 cause)
        (ground arith)

-- What an interrupt may end in; `code` is the cause without its top bits.
pub data Interrupted (alloc : ByteGrainAllocator) (types : DeviceTypes)
    (mtime claim_number epc code : ℕ) (device : Option BlockDevice) (m : Memory)
    : Run Trapped → Type 0 where
  software :
      code ≡ 3
      → Interrupted alloc types mtime claim_number epc code device m
          (ok (record { pc = epc; device = device; mtimecmp = none; completed = none }) m)
  timer :
      code ≡ 7
      → mtime + 10000000 < 2 ^ 64
      → Interrupted alloc types mtime claim_number epc code device m (
          ok
            (record {
              pc = epc;
              device = device;
              mtimecmp = some (mtime + 10000000);
              completed = none;
            })
            m)
  timer_overflow :
      code ≡ 7
      → 2 ^ 64 ≤ mtime + 10000000
      → Interrupted alloc types mtime claim_number epc code device m panic
  external :
      {device' : Option BlockDevice} {done : Option ℕ} {g : Memory}
      → code ≡ 11
      → Handled alloc types claim_number device m (ok (device', done) g)
      → Interrupted alloc types mtime claim_number epc code device m
          (ok (record { pc = epc; device = device'; mtimecmp = none; completed = done }) g)
  unhandled :
      code ≢ 3
      → code ≢ 7
      → code ≢ 11
      → Interrupted alloc types mtime claim_number epc code device m panic

module _ (alloc : ByteGrainAllocator) (types : DeviceTypes) (mtime claim_number epc : ℕ)
    (device : Option BlockDevice) (m : Memory) where
  of_Handled :
      (code : ℕ) (r : Run (Option BlockDevice × Option ℕ))
      → code ≡ 11
      → Handled alloc types claim_number device m r
      → Interrupted alloc types mtime claim_number epc code device m (
          after {A = Option BlockDevice × Option ℕ} r (λ (device', done).
            ok (record { pc = epc; device = device'; mtimecmp = none; completed = done })))
  of_Handled code r is (none_pending e) = external is (none_pending e)
  of_Handled code r is (ignored e e') = external is (ignored e e')
  of_Handled code r is (no_device e small e' e'') = external is (no_device e small e' e'')
  of_Handled code r is (served e small e' e'' e3) = external is (served e small e' e'' e3)

  async_trap-Interrupted :
      (code : ℕ)
      → Returns alloc device m
      → Interrupted alloc types mtime claim_number epc code device m
          (async_trap alloc types mtime claim_number epc code device m)
  unfolding async_trap
  async_trap-Interrupted code returns = elim (Bool-cases (code == 3)) [
    | inl is ↦ rw (async_trap, is) (software (ground arith))
    | inr not_software ↦ elim (Bool-cases (code == 7)) [
      | inl is ↦ elim (Bool-cases (ltb (mtime + 10000000) (2 ^ 64))) [
        | inl fits ↦ rw (async_trap, not_software, is, fits) (timer (ground arith) (ground arith))
        | inr over ↦
            rw (async_trap, not_software, is, over) (timer_overflow (ground arith) (ground arith))
      ]
      | inr not_timer ↦ elim (Bool-cases (code == 11)) [
        | inl is ↦
            rw (async_trap, not_software, not_timer, is)
              (of_Handled code _ (ground arith)
                (interrupt_handler-Handled alloc types m claim_number device returns))
        | inr other ↦
            rw (async_trap, not_software, not_timer, other)
              (unhandled (ground arith) (ground arith) (ground arith))
      ]
    ]
  ]

  -- Where `use_queue` returns on the block device, an interrupt, whose cause has the top bit set,
  -- resumes at the interrupted instruction: a software interrupt changes nothing, a timer interrupt
  -- sets the next one 10,000,000 ticks after the present time, and an external one has been handled
  -- by the interrupt controller's driver. It panics if that time overflows, or on another code.
  pub interrupt-Interrupted :
      (cause : ℕ)
      → 2 ^ 63 ≤ cause
      → cause < 2 ^ 64
      → Returns alloc device m
      → Interrupted alloc types mtime claim_number epc
          (cause % 4096)
          device
          m
          (machine_trap_rust alloc types mtime claim_number epc cause device m)
  unfolding machine_trap_rust
  interrupt-Interrupted cause set fits returns =
      let async : ltb (2 ^ 63 - 1) cause ≡ true = ground arith in
      rw (machine_trap_rust, async_bit cause fits, async, bit_and-mask 12 cause)
        (async_trap-Interrupted (cause % 4096) returns)

module _ (alloc : ByteGrainAllocator) (types : DeviceTypes) (mtime i epc cause : ℕ)
    (self : BlockDevice) (before : Heap) (n : ℕ) (after : Heap) (m : Memory) where
  -- When the block device has completed one request, whose memory is a taken chunk of a well-formed
  -- arena apart from the queue, its interrupt, if its slot holds a block device, resumes at the
  -- interrupted instruction: the request's slot is ready, exactly its memory is no longer in use, the
  -- arena is well-formed, nothing is left to acknowledge, and the interrupt is completed.
  pub interrupt_serves :
      2 ^ 63 ≤ cause
      → cause < 2 ^ 64
      → cause % 4096 ≡ 11
      → i < 8
      → types i ≡ some block
      → Arena alloc (before ++ chunk true n ∷ after) m
      → QueueApart alloc self.queue
      → OneCompleted self (alloc.head + total before + 8) m
      → (cs : Heap) × (g : Memory) × (machine_trap_rust alloc types mtime
            (suc i)
            epc
            cause
            (some self)
            m
          ≡ ok
              (record {
                pc = epc;
                device = some (acknowledged self);
                mtimecmp = none;
                completed = some (suc i);
              })
              g)
        × Arena alloc cs g
        × (used alloc.head cs
            ≡ used alloc.head before ++ used (alloc.head + total before + n) after)
        × Idle (acknowledged self) g
  unfolding machine_trap_rust async_trap Plic.interrupt_handler Virtio.interrupt_handler
      Block.interrupt_handler
  interrupt_serves set fits external_code small entry arena apart done =
      let (cs, g, returns, arena', blocks, idle, _, _, _) =
        use_queue-OneCompleted alloc self before n after m arena apart done in
      let async : ltb (2 ^ 63 - 1) cause ≡ true = ground arith in
      let nonzero : (suc i == 0) ≡ false = ground arith in
      let least : leb 1 (suc i) ≡ true = ground arith in
      let most : leb (suc i) 8 ≡ true = ground arith in
      let within : leb 8 i ≡ false = ground arith in
      (
        cs,
        g,
        rw (
          machine_trap_rust,
          async_bit cause fits,
          async,
          bit_and-mask 12 cause,
          external_code,
          Plic.interrupt_handler,
          nonzero,
          least,
          most,
          Virtio.interrupt_handler,
          within,
          entry,
          returns,
        ),
        arena',
        blocks,
        idle,
      )
