-- ===== src/Block/Wait/Schedule.antt =====
-- The orders of events in which a device serves the request that `block_operation` waits for.
use corrosion.Prelude.{ℕ, ◌≡◌, refl, true, false, List, [], ◌∷◌}
use corrosion.Machine.{Memory, ok}
use corrosion.Alloc.Bytes.{ByteGrainAllocator}
use corrosion.Block.{BlockDevice, use_queue}
use corrosion.Block.Queue.{Idle, use_queue-Idle}
use corrosion.Block.Wait.{Event, no_operation, device_writes, interrupted, happens, wait}

-- An interrupt comes, at some time.
pub data Answered : List Event → Type 0 where
  answer_later : {es : List Event} → Answered es → Answered (no_operation ∷ es)
  answer : (es : List Event) → Answered (interrupted ∷ es)

-- The device writes `f` at some time, and an interrupt comes after that; interrupts before that,
-- which are not about this request, are possible.
pub data Serves (f : Memory → Memory) : List Event → Type 0 where
  serve_later : {es : List Event} → Serves f es → Serves f (no_operation ∷ es)
  spurious : {es : List Event} → Serves f es → Serves f (interrupted ∷ es)
  serve : {es : List Event} → Answered es → Serves f (device_writes f ∷ es)

module _ (alloc : ByteGrainAllocator) (idx : ℕ) where
  wait-ready :
      (es : List Event) (self : BlockDevice) (m : Memory)
      → self.ready idx ≡ true
      → wait alloc idx es self m ≡ ok self m
  unfolding wait
  wait-ready [] self m ready = rw ready refl
  wait-ready (e ∷ es) self m ready = rw ready refl

  wait-Answered :
      {es : List Event} (self self' : BlockDevice) (m h : Memory)
      → Answered es
      → self.ready idx ≡ false
      → use_queue alloc self m ≡ ok self' h
      → self'.ready idx ≡ true
      → wait alloc idx es self m ≡ ok self' h
  unfolding wait happens
  wait-Answered self self' m h (answer_later later) busy serves ready =
      rw busy (wait-Answered self self' m h later busy serves ready)
  wait-Answered self self' m h (answer es) busy serves ready =
      rw (busy, serves) (wait-ready es self' h ready)

  -- The wait ends with what the interrupt leaves after the device has written.
  pub wait-Serves :
      {f : Memory → Memory} {es : List Event} (self self' : BlockDevice) (m h : Memory)
      → Serves f es
      → self.ready idx ≡ false
      → Idle self m
      → use_queue alloc self (f m) ≡ ok self' h
      → self'.ready idx ≡ true
      → wait alloc idx es self m ≡ ok self' h
  unfolding wait happens
  wait-Serves self self' m h (serve_later later) busy idle serves ready =
      rw busy (wait-Serves self self' m h later busy idle serves ready)
  wait-Serves self self' m h (spurious later) busy idle serves ready =
      rw (busy, use_queue-Idle alloc self m idle)
        (wait-Serves self self' m h later busy idle serves ready)
  wait-Serves {f} self self' m h (serve answered) busy idle serves ready =
      rw busy (wait-Answered self self' (f m) h answered busy serves ready)
