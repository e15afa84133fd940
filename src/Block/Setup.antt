-- ===== src/Block/Setup.antt =====
-- `BlockDevice::init` of block.rs. What the device's registers answer is an argument, and the
-- writes to them, by word offset, are returned in their order.
pub mod Fresh
use corrosion.Prelude.{
  ℕ, ◌+◌, ◌-◌, ◌*◌, ◌/◌, ◌%◌, ◌^◌, Bool, true, false, not, ◌==◌, ltb, if◌then◌else◌, bit_and,
  bit_or, Option, none, some, List, [], ◌∷◌, ◌++◌,
}
use corrosion.Config.{ascii}
use corrosion.Uart.{Trace, serial_info, print}
use corrosion.Machine.{Cmd, pure, ◌>>=◌}
use corrosion.Alloc.Bytes.{ByteGrainAllocator, page_size}
use corrosion.Alloc.Pages.{Layout}
use corrosion.Alloc.Init.{alloc_pages_zeroed}
use corrosion.Block.{BlockDevice, queue_size, virtio_ring_size}

abbrev pub mmio_guest_features : ℕ
mmio_guest_features = 0x020 / 4

abbrev pub mmio_guest_page_size : ℕ
mmio_guest_page_size = 0x028 / 4

abbrev pub mmio_queue_select : ℕ
mmio_queue_select = 0x030 / 4

abbrev pub mmio_queue_number : ℕ
mmio_queue_number = 0x038 / 4

abbrev pub mmio_queue_pfn : ℕ
mmio_queue_pfn = 0x040 / 4

abbrev pub mmio_status : ℕ
mmio_status = 0x070 / 4

abbrev pub status_field_acknowledge : ℕ
status_field_acknowledge = 1

abbrev pub status_field_driver_ok : ℕ
status_field_driver_ok = 4

abbrev pub status_field_features_ok : ℕ
status_field_features_ok = 8

abbrev pub status_field_failed : ℕ
status_field_failed = 128

abbrev pub virtio_feature_ro : ℕ
virtio_feature_ro = 2 ^ 5

-- What the device answers: its features, the status read back after the value written, and the
-- length of its longest queue.
pub record Answers : Type 0 where
  pub host_features : ℕ
  pub status : ℕ → ℕ
  pub queue_number_max : ℕ

abbrev pub Writes : Type 0
Writes = List (ℕ × ℕ)

abbrev pub init_status : Writes × ℕ
init_status =
    let status_bits = bit_or status_field_acknowledge status_field_driver_ok in
    (
      (mmio_status, 0) ∷ (mmio_status, status_field_acknowledge) ∷ (mmio_status, status_bits) ∷ [],
      status_bits,
    )

abbrev pub init_guest_features : Answers → Writes × Bool
init_guest_features a = (
  (mmio_guest_features, bit_and a.host_features (2 ^ 32 - 1 - virtio_feature_ro)) ∷ [],
  not (bit_and a.host_features virtio_feature_ro == 0),
)

abbrev pub init_status_check : Answers → ℕ → Writes × Bool × ℕ
init_status_check a status_bits =
    let sb_out = bit_or status_bits status_field_features_ok in
    if bit_and (a.status sb_out) status_field_features_ok == 0
    then ((mmio_status, sb_out) ∷ (mmio_status, status_field_failed) ∷ [], false, 0)
    else ((mmio_status, sb_out) ∷ [], true, sb_out)

abbrev pub init_queue_check : Answers → Writes × Bool
init_queue_check a =
    if ltb a.queue_number_max virtio_ring_size
    then ([], false)
    else ((mmio_queue_number, virtio_ring_size) ∷ (mmio_queue_select, 0) ∷ [], true)

unfoldable pub init_pfn : Layout → ByteGrainAllocator → Cmd (Writes × ℕ)
init_pfn l alloc = do
  let num_pages = (queue_size + page_size - 1) / page_size
  queue_ptr ← alloc_pages_zeroed l alloc num_pages
  let queue_pfn = queue_ptr % 2 ^ 32
  pure ((mmio_guest_page_size, page_size) ∷ (mmio_queue_pfn, queue_pfn / page_size) ∷ [], queue_ptr)

abbrev pub init_bd : ℕ → ℕ → Bool → BlockDevice
init_bd ptr queue_ptr ro = record {
  queue = queue_ptr;
  dev = ptr;
  idx = 0;
  ack_used_idx = 0;
  read_only = ro;
  ready = λ i. true;
}

abbrev pub init_notify : ℕ → Writes × Bool
init_notify status_bits = ((mmio_status, bit_or status_bits status_field_driver_ok) ∷ [], true)

-- `device` is the static `BLOCK_DEVICE`, which a failure leaves as it is.
unfoldable pub init :
    Layout
    → ByteGrainAllocator
    → Answers
    → ℕ
    → Option BlockDevice
    → Cmd (Bool × Option BlockDevice × Writes)
unfolding init_pfn
init l alloc a ptr device =
    let (w₁, status_bits) = init_status in
    let (w₂, ro) = init_guest_features a in
    let (w₃, pass, status_bits') = init_status_check a status_bits in
    let (w₄, fits) = init_queue_check a in
    if not pass
    then pure (false, device, w₁ ++ (w₂ ++ w₃))
    else if not fits
    then pure (false, device, w₁ ++ (w₂ ++ (w₃ ++ w₄)))
    else (do
      (w₅, queue_ptr) ← init_pfn l alloc
      let (w₆, done) = init_notify status_bits'
      pure (done, some (init_bd ptr queue_ptr ro), w₁ ++ (w₂ ++ (w₃ ++ (w₄ ++ (w₅ ++ w₆))))))

-- What `init` and the checks that it calls send to the serial port, and whether it goes through.
unfoldable pub report : Answers → Trace → Trace × Bool
unfolding serial_info print
report a w =
    let begun = serial_info (ascii "init block device") w in
    let (w₃, pass, status_bits) = init_status_check a (init_status.1) in
    let (w₄, fits) = init_queue_check a in
    if not pass
    then (print (ascii "features fail...") begun, false)
    else if not fits
    then (print (ascii "queue size fail...") begun, false)
    else (begun, true)
