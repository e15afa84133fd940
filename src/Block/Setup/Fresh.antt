-- ===== src/Block/Setup/Fresh.antt =====
-- The outcomes of the set-up of a block device.
use corrosion.Prelude.{
  ℕ, ◌+◌, ◌*◌, ◌/◌, ◌%◌, ◌^◌, ◌≤◌, ◌<◌, ◌≡◌, ap, ◌∙◌, arith, Bool, true, false, not, ◌&&◌, ◌==◌,
  leb, bit_and, Option, some, bit_and-bit, Bool-cases, inl, inr, ltb, refl, [], ◌∷◌, ◌++◌,
}
use corrosion.Machine.{Memory, Run, ok, after}
use corrosion.Alloc.Bytes.{ByteGrainAllocator, page_size}
use corrosion.Alloc.Pages.{Layout, num_pages, zalloc}
use corrosion.Alloc.Pages.Zeroed.{ZeroedPages, none_free, zeroed, zalloc-ZeroedPages}
use corrosion.Alloc.Init.{alloc_pages_zeroed}
use corrosion.Block.{BlockDevice}
use corrosion.Block.Setup.{Answers, Writes, init, init_pfn}

-- The device accepts the features (bit 3 of the status after acknowledge, driver and features), and
-- has a queue that is long enough.
abbrev pub accepts : Answers → Bool
accepts a = (a.status 13 / 8 % 2 == 1) && leb 128 a.queue_number_max

-- A device that has done nothing yet, with all slots ready.
abbrev pub fresh : (queue ptr : ℕ) → Answers → BlockDevice
fresh queue ptr a = record {
  queue = queue;
  dev = ptr;
  idx = 0;
  ack_used_idx = 0;
  read_only = a.host_features / 32 % 2 == 1;
  ready = λ i. true;
}

-- The writes of a set-up, by word offset: reset, acknowledge, driver; the device's features without
-- the read-only one; features accepted.
abbrev pub offered : Answers → Writes
offered a = (28, 0) ∷ (28, 1) ∷ (28, 5) ∷ (8, bit_and a.host_features 0xffffffdf) ∷ (28, 13) ∷ []

-- Then the queue's length and number, the page size, the queue's page, and the driver's consent.
abbrev pub attached : ℕ → Writes
attached queue = (14, 128) ∷ (12, 0) ∷ (10, 4096) ∷ (16, queue % 2 ^ 32 / 4096) ∷ (28, 13) ∷ []

-- What a set-up may return.
pub data SetUp (l : Layout) (start : ℕ) (a : Answers) (ptr : ℕ) (device : Option BlockDevice)
    (m : Memory) : Run (Bool × Option BlockDevice × Writes) → Type 0 where
  refused :
      (a.status 13 / 8 % 2 == 1) ≡ false
      → SetUp l start a ptr device m (ok (false, device, offered a ++ (28, 128) ∷ []) m)
  too_short :
      (a.status 13 / 8 % 2 == 1) ≡ true
      → a.queue_number_max < 128
      → SetUp l start a ptr device m (ok (false, device, offered a) m)
  running :
      {queue : ℕ} {g : Memory}
      → accepts a ≡ true
      → ZeroedPages l start 2 m (ok queue g)
      → SetUp l start a ptr device m
          (ok (true, some (fresh queue ptr a), offered a ++ attached queue) g)

read_only_bit : (x : ℕ) → not (bit_and x (2 ^ 5) == 0) ≡ (x / 32 % 2 == 1)
read_only_bit x = ground (arith, bit_and-bit 5 x)

pub features_bit : (x : ℕ) → (bit_and x 8 == 0) ≡ not (x / 8 % 2 == 1)
features_bit x = ground (arith, bit_and-bit 3 x)

module _ (l : Layout) (alloc : ByteGrainAllocator) (a : Answers) (ptr : ℕ)
    (device : Option BlockDevice) (m : Memory) where
  -- The end of the set-up, on what `zalloc` has returned.
  finish :
      (r : Run ℕ) (w : ℕ → Writes) (w' : Writes → Writes)
      → accepts a ≡ true
      → ((q : ℕ) → w' (w q) ≡ offered a ++ attached q)
      → ZeroedPages l alloc.start 2 m r
      → SetUp l alloc.start a ptr device m (
          after {A = Writes × ℕ} (after r (λ q. ok (w q, q))) (λ (w₁, q). ok (
            true,
            some
                (record (fresh q ptr a) { read_only = not (bit_and a.host_features (2 ^ 5) == 0) }),
            w' w₁,
          )))
  finish r w w' acc written (none_free all) =
      rw (read_only_bit a.host_features, written 0) (running acc (none_free all))
  finish r w w' acc written (zeroed {ptr = q} taken zeros) =
      rw (read_only_bit a.host_features, written q) (running acc (zeroed taken zeros))

  -- With two pages in the heap and addresses that do not overflow, the set-up of a block device
  -- returns. If the device does not keep the features accepted, false, with that failure written to
  -- it, and nothing else changed; if its queue is shorter than 128, false and nothing changed; else
  -- true, and the device is one that has done nothing, whose slots are all ready, which is read-only
  -- if the device says so, and whose queue is what `zalloc` returns for two pages. In each case what is
  -- written to the registers is exactly the sequence of the protocol, with the queue's page number.
  pub init-SetUp :
      2 ≤ num_pages l
      → 0 < alloc.start
      → alloc.start + page_size * num_pages l < 2 ^ 64
      → SetUp l alloc.start a ptr device m (init l alloc a ptr device m)
  unfolding init init_pfn alloc_pages_zeroed
  init-SetUp room placed bounded = elim (Bool-cases (a.status 13 / 8 % 2 == 1)) [
    | inr denied ↦
        let test : (bit_and (a.status 13) 8 == 0) ≡ true =
          features_bit (a.status 13) ∙ ap not denied in
        rw test (refused denied)
    | inl agreed ↦
        let test : (bit_and (a.status 13) 8 == 0) ≡ false =
          features_bit (a.status 13) ∙ ap not agreed in
        elim (Bool-cases (leb 128 a.queue_number_max)) [
          | inr short ↦
              let test' : ltb a.queue_number_max 128 ≡ true = ground arith in
              rw (test, test') (too_short agreed (ground arith))
          | inl long ↦
              let test' : ltb a.queue_number_max 128 ≡ false = ground arith in
              rw (test, test')
                (finish (zalloc l alloc.start 2 m) _ _ (ground arith) (λ q. refl)
                  (zalloc-ZeroedPages l alloc.start 2 m (omega arith) room placed bounded))
        ]
  ]
