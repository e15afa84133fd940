-- ===== src/Buffer/Lifetime.antt =====
-- The memory of a buffer of buffer.rs, from `new` to `drop`.
use corrosion.Prelude.{ℕ, ◌+◌, ◌*◌, ◌<◌, ◌^◌, ◌≡◌, refl, arith, ◌==◌, false}
use corrosion.Machine.{Memory, null, Run, ok, ◌>>=◌, after}
use corrosion.Alloc.Bytes.{ByteGrainAllocator, kmalloc, page_size}
use corrosion.Alloc.Bytes.Chunks.{Heap}
use corrosion.Alloc.Bytes.Malloc.{
  Arena, Outcome, full, placed, AllUnfit, chunk_bytes, kmalloc-Outcome,
}
use corrosion.Alloc.Bytes.RoundTrip.{Restored, kfree-kmalloc}
use corrosion.Buffer.{Buffer, new, drop}

-- What a buffer that is made and dropped leaves: all as it was when there was no room for it, and else
-- the arena restored.
pub data Dropped (a : ByteGrainAllocator) (sz : ℕ) (cs : Heap) (m : Memory)
    : Run Buffer → Type 0 where
  no_room :
      AllUnfit (chunk_bytes sz) cs → Dropped a sz cs m (ok (record { buffer = null; len = sz }) m)
  freed :
      {r : Run (Unit {0})} {g : Memory}
      → r ≡ ok tt g
      → Restored a cs m r
      → Dropped a sz cs m (ok (record { buffer = null; len = sz }) g)

module _ {a : ByteGrainAllocator} {cs : Heap} {m : Memory} (sz : ℕ) (arena : Arena a cs m)
    (fits : chunk_bytes sz < 2 ^ 64) where
  of_Outcome :
      (r : Run ℕ)
      → kmalloc a sz m ≡ r
      → Outcome (chunk_bytes sz) a.head (a.head + a.alloc * page_size) cs m r
      → Dropped a sz cs m (after (after r (λ p. ok (record { buffer = p; len = sz }))) (drop a))
  unfolding drop
  of_Outcome r returns (full all) = no_room all
  of_Outcome r returns (placed {g = g} {ptr = ptr} p) =
      let nonzero : (ptr == null) ≡ false = ground (arith, p.address) in
      let restored =
        kfree-kmalloc sz arena fits returns (λ at_zero. omega (arith, p.address, at_zero)) in
      rw (nonzero, restored.returns) (freed restored.returns restored)

  -- On a well-formed arena, a buffer that is made and dropped is null afterwards: nothing has
  -- changed if there was no room for it, and else the arena is restored, with the same blocks in use.
  pub drop-new : Dropped a sz cs m ((new a sz >>= drop a) m)
  unfolding new
  drop-new = of_Outcome (kmalloc a sz m) refl (kmalloc-Outcome arena sz fits)
