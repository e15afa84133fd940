-- ===== src/Plic/Handler.antt =====
-- Interrupts in the controller's handler, by their numbers.
use corrosion.Prelude.{
  ℕ, zero, suc, ◌-◌, ◌≤◌, ◌<◌, ◌≡◌, ◌≢◌, ◌⊎◌, inl, inr, refl, arith, Bool, true, false, ◌==◌, leb,
  if◌then◌else◌, Option, some, none, Bool-cases,
}
use corrosion.Machine.{Memory, Cmd, Run, ok, after, pure}
use corrosion.Alloc.Bytes.{ByteGrainAllocator}
use corrosion.Block
use corrosion.Block.{BlockDevice, use_queue}
use corrosion.Virtio
use corrosion.Virtio.{DeviceTypes, block}
use corrosion.Plic.{interrupt_handler}

-- Whether the entry of a slot is the block device's.
abbrev pub is_block : Option ℕ → Bool
is_block none = false
is_block (some vd) = vd == block

-- What the handler may return: the device, and the number it writes to the claim register.
pub data Handled (alloc : ByteGrainAllocator) (types : DeviceTypes) (claim : ℕ)
    (device : Option BlockDevice) (m : Memory) : Run (Option BlockDevice × Option ℕ) → Type 0 where
  none_pending : claim ≡ 0 → Handled alloc types claim device m (ok (device, none) m)
  ignored :
      claim ≢ 0
      → (8 < claim) ⊎ (is_block (types (claim - 1)) ≡ false)
      → Handled alloc types claim device m (ok (device, some claim) m)
  no_device :
      claim ≢ 0
      → claim ≤ 8
      → is_block (types (claim - 1)) ≡ true
      → device ≡ none
      → Handled alloc types claim device m (ok (device, some claim) m)
  served :
      {self self' : BlockDevice} {g : Memory}
      → claim ≢ 0
      → claim ≤ 8
      → is_block (types (claim - 1)) ≡ true
      → device ≡ some self
      → use_queue alloc self m ≡ ok self' g
      → Handled alloc types claim device m (ok (some self', some claim) g)

-- `use_queue` returns, on the device if there is one.
abbrev pub Returns : ByteGrainAllocator → Option BlockDevice → Memory → Type 0
Returns alloc none m = Unit {0}
Returns alloc (some self) m =
    (self' : BlockDevice) × (g : Memory) × (use_queue alloc self m ≡ ok self' g)

slot : (i : ℕ) → suc i - 1 ≡ i
slot i = omega arith

module _ (alloc : ByteGrainAllocator) (types : DeviceTypes) (m : Memory) where
  by_type :
      (i : ℕ) (device : Option BlockDevice) (type : Option ℕ)
      → types i ≡ type
      → suc i ≤ 8
      → Returns alloc device m
      → Handled alloc types (suc i) device m (
          after {A = Option BlockDevice}
            ((elim type as (λ _. Cmd (Option BlockDevice)) [
              | none ↦ pure device
              | some vd ↦ if vd == block then Block.interrupt_handler alloc device else pure device
            ])
              m)
            (λ device'. ok (device', some (suc i))))
  unfolding Block.interrupt_handler
  by_type i device none entry small returns = ignored (omega arith) (inr (rw (slot i, entry)))
  by_type i none (some vd) entry small returns = elim (Bool-cases (vd == block)) [
    | inl is ↦ rw is (no_device (omega arith) small (rw (slot i, entry, is)) refl)
    | inr other ↦ rw other (ignored (omega arith) (inr (rw (slot i, entry, other))))
  ]
  by_type i (some self) (some vd) entry small returns = elim (Bool-cases (vd == block)) [
    | inl is ↦
        let (self', g, e) = returns in
        rw (is, e) (served (omega arith) small (rw (slot i, entry, is)) refl e)
    | inr other ↦ rw other (ignored (omega arith) (inr (rw (slot i, entry, other))))
  ]

  -- Where `use_queue` returns on the block device, the handler returns: with no interrupt pending it
  -- completes none, and else the one it has claimed; the device's queue is used exactly if the
  -- interrupt is one of the first eight and its slot holds a block device, and nothing else changes.
  pub interrupt_handler-Handled :
      (claim : ℕ) (device : Option BlockDevice)
      → Returns alloc device m
      → Handled alloc types claim device m (interrupt_handler alloc types claim device m)
  unfolding interrupt_handler Virtio.interrupt_handler Block.interrupt_handler
  interrupt_handler-Handled zero device returns = none_pending refl
  interrupt_handler-Handled (suc i) device returns =
      let nonzero : (suc i == 0) ≡ false = ground arith in
      let least : leb 1 (suc i) ≡ true = ground arith in
      elim (Bool-cases (leb (suc i) 8)) [
        | inr above ↦
            rw (interrupt_handler, nonzero, least, above)
              (ignored (omega arith) (inl (ground arith)))
        | inl small ↦
            let within : leb 8 i ≡ false = ground arith in
            rw (interrupt_handler, nonzero, least, small, Virtio.interrupt_handler, within)
              (by_type i device (types i) refl (ground arith) returns)
      ]
