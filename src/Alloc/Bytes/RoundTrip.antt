-- ===== src/Alloc/Bytes/RoundTrip.antt =====
-- `kfree` of what `kmalloc` has returned.
use corrosion.Prelude.{ℕ, ◌+◌, ◌*◌, ◌<◌, ◌^◌, ◌≡◌, ◌≢◌, ◌∙◌, arith, true, false, ◌∷◌, ◌++◌}
use corrosion.Machine.{Memory, null, Run, ok}
use corrosion.Alloc.Bytes.{ByteGrainAllocator, page_size, kmalloc, kfree}
use corrosion.Alloc.Bytes.Split.{Shape, split-Shape}
use corrosion.Alloc.Bytes.Malloc.{Arena, Allocated, chunk_bytes, kmalloc-Outcome, Outcome-placed}
use corrosion.Alloc.Bytes.Coalesce.{merge}
use corrosion.Alloc.Bytes.Free.{Freed, kfree-Freed}
use corrosion.Alloc.Bytes.Used.{used, used-append, used-merge, total-merge}
use corrosion.Alloc.Bytes.Chunks.{chunk, Heap, total, Spares, in_free, in_free-append, total-append}

-- The arena `cs'` has the blocks and the bytes of `cs`, and outside the free chunks of `cs` the
-- memory is as it was.
pub record Restored (a : ByteGrainAllocator) (cs : Heap) (m : Memory) (r : Run (Unit {0}))
    : Type 0 where
  pub cs' : Heap
  pub g : Memory
  pub returns : r ≡ ok tt g
  pub arena : Arena a cs' g
  pub blocks : used a.head cs' ≡ used a.head cs
  pub bytes : total cs' ≡ total cs
  pub spares : Spares a.head cs m g

module _ {a : ByteGrainAllocator} {size : ℕ} {cs : Heap} {m g : Memory} {ptr : ℕ}
    (arena : Arena a cs m)
    (r : Allocated size a.head (a.head + a.alloc * page_size) cs m g ptr) where
  pub shape : Shape size r.s
  shape = split-Shape size r.s r.fits

  abbrev pub here : ℕ
  here = a.head + total r.before

  abbrev pub after : Heap
  after = shape.rest ++ r.after

  pub taken-Arena : Arena a (r.before ++ chunk true shape.n ∷ after) g
  taken-Arena = record { chunks = rw shape.shape at r.chunks; bounded = arena.bounded }

  freed : Freed a r.before (chunk true shape.n) after g (kfree a ptr g)
  freed = rw r.address (kfree-Freed a r.before (chunk true shape.n) after g taken-Arena)

  abbrev pub freed_chunks : Heap
  freed_chunks = r.before ++ chunk false shape.n ∷ after

  pub same_blocks : used a.head freed_chunks ≡ used a.head cs
  same_blocks =
      let old : used a.head cs ≡ used a.head r.before ++ used (here + r.s) r.after =
        rw r.splits (used-append a.head r.before (chunk false r.s ∷ r.after)) in
      let middle : used here (chunk false shape.n ∷ after) ≡ used (here + r.s) r.after =
        used-append here (chunk false shape.n ∷ shape.rest) r.after
        ∙ rw (shape.no_block (here + shape.n), shape.whole) in
      rw (used-append a.head r.before (chunk false shape.n ∷ after), middle, old)

  same_total : total freed_chunks ≡ total cs
  same_total =
      let old : total cs ≡ total r.before + (r.s + total r.after) =
        rw r.splits (total-append r.before (chunk false r.s ∷ r.after)) in
      omega (
        arith,
        total-append r.before (chunk false shape.n ∷ after),
        total-append shape.rest r.after,
        shape.whole,
        old,
      )

  same_free : (q : ℕ) → in_free a.head freed_chunks q ≡ in_free a.head cs q
  same_free q =
      let old = in_free-append a.head r.before (chunk false r.s ∷ r.after) q in
      let middle : in_free here (chunk false shape.n ∷ after) q
          ≡ in_free here (chunk false r.s ∷ r.after) q =
        in_free-append here (chunk false shape.n ∷ shape.rest) r.after q
        ∙ rw (shape.cover here q, shape.whole) in
      rw (in_free-append a.head r.before (chunk false shape.n ∷ after) q, middle, r.splits, old)

  Allocated-Restored : Restored a cs m (kfree a ptr g)
  Allocated-Restored =
      let (g', returns, arena', spares) = freed in
      record {
        cs' = merge freed_chunks;
        g = g';
        returns = returns;
        arena = arena';
        blocks = used-merge a.head freed_chunks ∙ same_blocks;
        bytes = total-merge freed_chunks ∙ same_total;
        spares = λ q out. spares q (same_free q ∙ out) ∙ r.spares q out;
      }

-- On a well-formed arena, freeing the pointer that `kmalloc` has returned gives back a well-formed
-- arena of the same size with the same blocks in use, and with the memory as it was before the
-- `kmalloc` outside the chunks that were free.
pub kfree-kmalloc :
    {a : ByteGrainAllocator} {cs : Heap} {m g : Memory} {ptr : ℕ} (sz : ℕ)
    → Arena a cs m
    → chunk_bytes sz < 2 ^ 64
    → kmalloc a sz m ≡ ok ptr g
    → ptr ≢ null
    → Restored a cs m (kfree a ptr g)
kfree-kmalloc sz arena fits returns ne =
    Allocated-Restored arena (Outcome-placed (kmalloc-Outcome arena sz fits) returns ne)
