-- ===== src/Virtio/Scan.antt =====
-- What the scan for devices finds.
use corrosion.Prelude.{
  ℕ, zero, suc, ◌+◌, ◌-◌, ◌*◌, ◌/◌, ◌^◌, ◌≤◌, ◌<◌, ◌≡◌, ◌⊎◌, refl, sym, ◌∙◌, arith, Bool, true,
  ◌&&◌, ◌==◌, if◌then◌else◌, Option, some, false, Bool-cases, inl, inr, lt-or-le,
}
use corrosion.Machine.{Memory, Run, ok, after}
use corrosion.Alloc.Bytes.{ByteGrainAllocator, page_size}
use corrosion.Alloc.Pages.{Layout, num_pages}
use corrosion.Block.{BlockDevice}
use corrosion.Block.Setup.{Writes}
use corrosion.Alloc.Pages.Zeroed.{ZeroedPages}
use corrosion.Block.Setup.Fresh.{accepts, fresh, SetUp, refused, too_short, running, init-SetUp}
use corrosion.Virtio.{
  DeviceTypes, Probe, Scanned, virtio_start, virtio_stride, virtio_magic_le, block, gpu, input,
  set_virtio_device_type, set_type, init_device, init_loop, init,
}

-- What is entered for a device that answers `p`, over what was there.
abbrev pub entry : Probe → Option ℕ → Option ℕ
entry p old =
    if p.magic == virtio_magic_le
    then (if p.device_id == block && accepts p.answers
        then some block
        else if p.device_id == gpu
        then some gpu
        else if p.device_id == input
        then some input
        else old)
    else old

-- The entries from `i` up to `j` have been made, and no other.
pub record Entered (probe : ℕ → Probe) (i j : ℕ) (types types' : DeviceTypes) : Type 0 where
  pub made :
      (k : ℕ)
      → i ≤ k
      → k < j
      → types' k ≡ entry (probe (virtio_start + virtio_stride * k)) (types k)
  pub others : (k : ℕ) → (k < i) ⊎ (j ≤ k) → types' k ≡ types k

-- The address of slot `k`, and whether it holds a block device that is driven.
abbrev pub address : ℕ → ℕ
address k = virtio_start + virtio_stride * k

abbrev pub driven : Probe → Bool
driven p = (p.magic == virtio_magic_le) && (p.device_id == block && accepts p.answers)

-- What the scan from slot `i` on does to `BLOCK_DEVICE`, from `device₀` on, and to memory: for each
-- block device that is driven two pages are taken, and a fresh device replaces the one before.
pub data Queues (l : Layout) (start : ℕ) (probe : ℕ → Probe) (i : ℕ) (device₀ : Option BlockDevice)
    (m : Memory) : ℕ → Option BlockDevice → Memory → Type 0 where
  begin : Queues l start probe i device₀ m i device₀ m
  passed :
      {j : ℕ} {device : Option BlockDevice} {g : Memory}
      → Queues l start probe i device₀ m j device g
      → driven (probe (address j)) ≡ false
      → Queues l start probe i device₀ m (j + 1) device g
  one_more :
      {j : ℕ} {device : Option BlockDevice} {g h : Memory} {queue : ℕ}
      → Queues l start probe i device₀ m j device g
      → driven (probe (address j)) ≡ true
      → ZeroedPages l start 2 g (ok queue h)
      → Queues l start probe i device₀ m
          (j + 1)
          (some (fresh queue (address j) (probe (address j)).answers))
          h

Queues-trans :
    {l : Layout} {start : ℕ} {probe : ℕ → Probe} {i j : ℕ} {d d' : Option BlockDevice}
    {m g : Memory} {k : ℕ} {d'' : Option BlockDevice} {h : Memory}
    → Queues l start probe i d m j d' g
    → Queues l start probe j d' g k d'' h
    → Queues l start probe i d m k d'' h
Queues-trans before begin = before
Queues-trans before (passed more undriven) = passed (Queues-trans before more) undriven
Queues-trans before (one_more more drives pages) = one_more (Queues-trans before more) drives pages

-- A run that returns a table of which that holds.
abbrev pub ScanOutcome :
    Layout
    → (start : ℕ) → (ℕ → Probe)
    → ℕ
    → ℕ
    → DeviceTypes
    → Option BlockDevice
    → Memory
    → Run Scanned
    → Type 0
ScanOutcome l start probe i j types device m r =
    (types' : DeviceTypes) × (device' : Option BlockDevice) × (g : Memory) × (r
      ≡ ok (types', device') g)
    × Entered probe i j types types'
    × Queues l start probe i device m j device' g

-- The table with `old` or `some value` at `k`.
abbrev enter : DeviceTypes → ℕ → Option ℕ → DeviceTypes
enter types k e j = if j == k then e else types j

module _ (l : Layout) (alloc : ByteGrainAllocator) (probe : ℕ → Probe) where
  set_type-enters :
      (k v : ℕ) (types : DeviceTypes) (device : Option BlockDevice) (m : Memory)
      → k < 8
      → set_type (virtio_start + virtio_stride * k) v (types, device) m
        ≡ ok ((λ j. if j == k then some v else types j), device) m
  unfolding set_type set_virtio_device_type
  set_type-enters k v types device m small =
      let index : (virtio_start + virtio_stride * k - virtio_start) / 2 ^ 12 ≡ k = omega arith in
      ground arith

  module _ (room : 2 ≤ num_pages l) (placed : 0 < alloc.start)
      (bounded : alloc.start + page_size * num_pages l < 2 ^ 64) where
    unchanged :
        (k : ℕ) (types : DeviceTypes) (device : Option BlockDevice) (m : Memory)
        → entry (probe (address k)) (types k) ≡ types k
        → driven (probe (address k)) ≡ false
        → ScanOutcome l alloc.start probe k (k + 1) types device m (ok (types, device) m)
    unchanged k types device m same undriven = (
      types,
      device,
      m,
      refl,
      record {
        made = λ j lo hi. let at : j ≡ k = omega arith in rw at (sym same);
        others = λ j out. refl;
      },
      passed begin undriven,
    )

    entered :
        (k v : ℕ) (types : DeviceTypes) (device₀ device : Option BlockDevice) (before m : Memory)
        → k < 8
        → entry (probe (address k)) (types k) ≡ some v
        → Queues l alloc.start probe k device₀ before (k + 1) device m
        → ScanOutcome l alloc.start probe k
            (k + 1)
            types
            device₀
            before
            (set_type (virtio_start + virtio_stride * k) v (types, device) m)
    entered k v types device₀ device before m small same pages = (
      enter types k (some v),
      device,
      m,
      set_type-enters k v types device m small,
      record {
        made = λ j lo hi.
            let at : j ≡ k = omega arith in
            let test : (k == k) ≡ true = ground arith in rw (at, test, same);
        others = λ j out. ground arith;
      },
      pages,
    )

    block_found :
        (k : ℕ) (types : DeviceTypes) (device : Option BlockDevice) (m : Memory)
        (r : Run (Bool × Option BlockDevice × Writes))
        → k < 8
        → (virtio_magic_le == (probe (virtio_start + virtio_stride * k)).magic) ≡ true
        → ((probe (virtio_start + virtio_stride * k)).device_id == block) ≡ true
        → SetUp l alloc.start
            (probe (virtio_start + virtio_stride * k)).answers
            (virtio_start + virtio_stride * k)
            device
            m
            r
        → ScanOutcome l alloc.start probe k (k + 1) types device m (
            after {A = Bool × Option BlockDevice × Writes} r (λ (ok', device', writes).
              if ok'
              then set_type (virtio_start + virtio_stride * k) block (types, device')
              else ok (types, device')))
    block_found k types device m r small virtio blk (refused denied) =
        unchanged k types device m (ground arith) (ground arith)
    block_found k types device m r small virtio blk (too_short agreed short) =
        unchanged k types device m (ground arith) (ground arith)
    block_found k types device m r small virtio blk (running {queue} {g} accepted zeros) =
        entered k block types device (some (fresh queue (address k) (probe (address k)).answers)) m
          g small (ground arith) (one_more begin (ground arith) zeros)

    init_device-Entered :
        (k : ℕ) (types : DeviceTypes) (device : Option BlockDevice) (m : Memory)
        → k < 8
        → ScanOutcome l alloc.start probe k
            (k + 1)
            types
            device
            m
            (init_device l alloc probe (virtio_start + virtio_stride * k) (types, device) m)
    unfolding init_device
    init_device-Entered k types device m small =
        let p = probe (virtio_start + virtio_stride * k) in
        elim (Bool-cases (virtio_magic_le == p.magic)) [
          | inr other ↦ rw other (unchanged k types device m (ground arith) (ground arith))
          | inl virtio ↦ elim (Bool-cases (p.device_id == 0)) [
            | inl none_there ↦
                rw (virtio, none_there) (unchanged k types device m (ground arith) (ground arith))
            | inr connected ↦ elim (Bool-cases (p.device_id == block)) [
              | inl blk ↦
                  rw (virtio, connected, blk)
                    (block_found k types device m _ small virtio blk (
                      init-SetUp l alloc p.answers (virtio_start + virtio_stride * k) device m room
                        placed bounded))
              | inr not_block ↦ elim (Bool-cases (p.device_id == gpu)) [
                | inl is_gpu ↦
                    rw (virtio, connected, not_block, is_gpu)
                      (entered k gpu types device device m m small (ground arith)
                        (passed begin (ground arith)))
                | inr not_gpu ↦ elim (Bool-cases (p.device_id == input)) [
                  | inl is_input ↦
                      rw (virtio, connected, not_block, not_gpu, is_input)
                        (entered k input types device device m m small (ground arith)
                          (passed begin (ground arith)))
                  | inr ignored ↦
                      rw (virtio, connected, not_block, not_gpu, ignored)
                        (unchanged k types device m (ground arith) (ground arith))
                ]
              ]
            ]
          ]
        ]

    init_loop-Entered :
        (left i j : ℕ) (types : DeviceTypes) (device : Option BlockDevice) (m : Memory)
        → i + left ≡ j
        → j ≤ 8
        → ScanOutcome l alloc.start probe i j types device m
            (init_loop l alloc probe left (virtio_start + virtio_stride * i) (types, device) m)
    unfolding init_loop
    init_loop-Entered zero i j types device m e small = (
      types,
      device,
      m,
      refl,
      record { made = λ k lo hi. absurd (omega arith); others = λ k out. refl },
      let same : i ≡ j = omega arith in rw (sym same) begin,
    )
    init_loop-Entered (suc left) i j types device m e small =
        let (types₁, device₁, m₁, step, one, pages) =
          init_device-Entered i types device m (omega arith) in
        let (types₂, device₂, m₂, steps, rest, pages') =
          init_loop-Entered left (i + 1) j types₁ device₁ m₁ (omega arith) small in
        let next : virtio_start + virtio_stride * i + virtio_stride
            ≡ virtio_start + virtio_stride * (i + 1) =
          omega arith in
        (
          types₂,
          device₂,
          m₂,
          rw (step, next) steps,
          record {
            made = λ k lo hi. elim (lt-or-le i k) [
              | inl more ↦ rest.made k (omega arith) hi ∙ rw (one.others k (inr (omega arith)))
              | inr here ↦ rest.others k (inl (omega arith)) ∙ one.made k lo (omega arith)
            ];
            others = λ k out. rest.others k (ground arith) ∙ one.others k (ground arith);
          },
          Queues-trans pages pages',
        )

    -- With two pages in the heap and addresses that do not overflow, the scan returns: each of the
    -- eight entries is then as the device at its address calls for. Memory has changed only by taking two
    -- zeroed pages, as `zalloc` does, once for each slot with a block device that accepts, in the order
    -- of the slots; the block device is the last of these, fresh and with these pages as its queue,
    -- or that of before if there is none.
    pub init-Entered :
        (types : DeviceTypes) (device : Option BlockDevice) (m : Memory)
        → ScanOutcome l alloc.start probe 0 8 types device m (init l alloc probe (types, device) m)
    unfolding init
    init-Entered types device m = init_loop-Entered 8 0 8 types device m (omega arith) (omega arith)
